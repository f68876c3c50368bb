-- ===== src/Network/Control.antt =====
-- crates/network-agent/src/control.rs: the one impairment lease of the agent, whose expiry heals the
-- interface. The system that shapes the interface (the trait `NetworkSystem`) is a parameter: it
-- answers each call, and changes the state of the network, a type of its own.
pub mod Serving
pub mod Shaping
pub mod Isolation
pub mod Tests
use Prim.Native.String.{◌++◌ as append}
use simchain.Base.{
  ℕ, ◌+◌, ◌*◌, ◌^◌, ◌-◌, Bool, true, false, ◌||◌, ◌&&◌, not, String, Option, none, some, [], ◌∷◌,
  ◌++◌, min, ltb, leb, is_some, if◌then◌else◌, ◌==◌, String-eq, Result, ok, err,
}
use simchain.Base.Text.{is_blank}
use simchain.Base.Table.{lookup, insert}
use simchain.Api.{LeaseRenewRequest}
use simchain.Requests.{Requests, Completed, no_requests, trim}
use simchain.Network.Impairment.{
  FloatOps, NetworkImpairment, NetworkLeaseRequest, NetworkLeaseReleaseRequest,
  NetworkImpairmentLease, NetworkCommandAck, Refusal, zero_ttl, long_ttl, blank_lease_id,
  blank_request_id, request_id_reused, another_lease_active, lease_not_found,
  different_lease_active, system_failed, max_lease_ttl_secs, same_impairment, validate_acquire,
}

-- the trait `NetworkSystem`, on a state of the network
pub record NetworkSystem (F W : Type 0) : Type 0 where
  pub detect_p2p_interface : W → Result String String × W
  pub apply : (interface : String) → NetworkImpairment F → W → Result String (Unit {0}) × W
  pub clear : (interface : String) → W → Result String (Unit {0}) × W

-- what `Instant::now()` and `now_ms()` read while the lock is held
pub record Clock : Type 0 where
  pub now : ℕ
  pub now_ms : ℕ

-- `serde_json::to_string` of each request
pub record Codec (F : Type 0) : Type 0 where
  pub acquire_json : NetworkLeaseRequest F → String
  pub renew_json : LeaseRenewRequest → String
  pub release_json : NetworkLeaseReleaseRequest → String

pub record ActiveLease (F : Type 0) : Type 0 where
  pub view : NetworkImpairmentLease F
  pub deadline : ℕ

-- `NetworkControl` and its `Inner`; `network` is the state that the system changes
pub record NetworkControl (F W : Type 0) : Type 0 where
  pub interface : String
  pub network : W
  pub generation : ℕ
  pub active : Option (ActiveLease F)
  pub last_error : Option String
  pub requests : Requests NetworkCommandAck

abbrev pub max_request_history : ℕ
max_request_history = 256

abbrev pub u64_max : ℕ
u64_max = 2 ^ 64 - 1

abbrev pub lease_end_ms : Clock → ℕ → ℕ
lease_end_ms clock ttl_secs = min (clock.now_ms + min (ttl_secs * 1000) u64_max) u64_max

abbrev pub next_generation : ℕ → ℕ
next_generation g = min (g + 1) u64_max

abbrev pub fingerprint : (operation json : String) → String
fingerprint operation json = append operation (append ":" json)

unfoldable pub replay :
    Requests NetworkCommandAck
    → (request_id fingerprint : String) → Result Refusal (Option NetworkCommandAck)
replay r request_id fingerprint = elim (lookup request_id r.completed) [
  | none ↦ ok none
  | some c ↦ if c.fingerprint == fingerprint then ok (some c.ack) else err request_id_reused
]

unfoldable pub remember :
    Requests NetworkCommandAck
    → (request_id fingerprint : String) → NetworkCommandAck
    → Requests NetworkCommandAck
unfolding trim
remember r request_id fingerprint ack =
    trim max_request_history
      (insert request_id (record { fingerprint = fingerprint; ack = ack }) r.completed)
      (if is_some (lookup request_id r.completed) then r.order else r.order ++ request_id ∷ [])

abbrev pub has_expired : {F : Type 0} → Clock → Option (ActiveLease F) → Bool
has_expired clock none = false
has_expired clock (some active) = leb active.deadline clock.now

abbrev pub Answer : Type 0 → Type 0 → Type 0
Answer F W = NetworkControl F W × Result Refusal NetworkCommandAck

abbrev pub granted : {F : Type 0} → Clock → NetworkLeaseRequest F → ActiveLease F
granted clock request = record {
  view = record {
    lease_id = request.lease_id;
    owner_job_id = request.owner_job_id;
    purpose = request.purpose;
    expires_at_ms = lease_end_ms clock request.ttl_secs;
    impairment = request.impairment;
  };
  deadline = clock.now + request.ttl_secs * 1000;
}

abbrev pub renewed : {F : Type 0} → Clock → ℕ → ActiveLease F → ActiveLease F
renewed clock ttl_secs active = record {
  view = record active.view { expires_at_ms = lease_end_ms clock ttl_secs };
  deadline = clock.now + ttl_secs * 1000;
}

module _ {F W : Type 0} where
  abbrev pub refuse : Refusal → NetworkControl F W → Answer F W
  refuse e c = (c, err e)

  -- `ack`, `remember` and the answer
  unfoldable pub acknowledge :
      (request_id fingerprint : String) (active : Bool) → NetworkControl F W → Answer F W
  acknowledge request_id fingerprint active c =
      let ack : NetworkCommandAck = record {
        request_id = request_id;
        effective_generation = c.generation;
        impairment_active = active;
      } in
      (record c { requests = remember c.requests request_id fingerprint ack }, ok ack)

  -- `if let Some(ack) = replay(..)? { return Ok(ack) }`, and the rest of the handler
  unfoldable pub unless_replayed :
      Result Refusal (Option NetworkCommandAck) → NetworkControl F W → Answer F W → Answer F W
  unless_replayed (err e) c rest = (c, err e)
  unless_replayed (ok (some ack)) c rest = (c, ok ack)
  unless_replayed (ok none) c rest = rest

  unfoldable pub healed : NetworkControl F W → Result String (Unit {0}) × W → NetworkControl F W
  healed c (ok _, w) = record c {
    network = w;
    active = none;
    generation = next_generation c.generation;
    last_error = none;
  }
  healed c (err e, w) = record c {
    network = w;
    last_error = some (append "failed to heal expired impairment: " e);
  }

  -- the system's answer to `apply`
  unfoldable pub applied :
      Clock
      → NetworkLeaseRequest F
      → (fingerprint : String) → NetworkControl F W
      → Result String (Unit {0}) × W
      → Answer F W
  applied clock request fingerprint c (err e, w) =
      refuse (system_failed e)
        (record c { network = w; last_error = some (append "failed to apply impairment: " e) })
  applied clock request fingerprint c (ok _, w) =
      acknowledge request.request_id fingerprint true (record c {
        network = w;
        generation = next_generation c.generation;
        last_error = none;
        active = some (granted clock request);
      })

  unfoldable pub renew_beside :
      Clock
      → (lease_id : String) → LeaseRenewRequest
      → (fingerprint : String) → NetworkControl F W
      → Option (ActiveLease F)
      → Answer F W
  renew_beside clock lease_id request print c none = refuse lease_not_found c
  renew_beside clock lease_id request print c (some active) =
      if active.view.lease_id == lease_id
      then acknowledge request.request_id print true
          (record c { active = some (renewed clock request.ttl_secs active) })
      else refuse lease_not_found c

  -- the system's answer to `clear`
  unfoldable pub cleared :
      (request_id fingerprint : String)
      → NetworkControl F W
      → Result String (Unit {0}) × W
      → Answer F W
  cleared request_id print c (err e, w) =
      refuse (system_failed e)
        (record c { network = w; last_error = some (append "failed to clear impairment: " e) })
  cleared request_id print c (ok _, w) = acknowledge request_id print false (record c {
    network = w;
    active = none;
    generation = next_generation c.generation;
    last_error = none;
  })

  -- `NetworkControl::new`: a failure of either call is its failure
  unfoldable pub started :
      (interface : String) → Result String (Unit {0}) × W → Result String (NetworkControl F W)
  started interface (err e, w) = err e
  started interface (ok _, w) = ok (record {
    interface = interface;
    network = w;
    generation = 0;
    active = none;
    last_error = none;
    requests = no_requests;
  })

  module _ (system : NetworkSystem F W) where
    unfoldable pub expire_locked : Clock → NetworkControl F W → NetworkControl F W
    expire_locked clock c =
        if has_expired clock c.active then healed c (system.clear c.interface c.network) else c

    -- the part of `acquire` behind the replay
    unfoldable pub acquire_beside :
        FloatOps F
        → Clock
        → NetworkLeaseRequest F
        → (fingerprint : String) → NetworkControl F W
        → Option (ActiveLease F)
        → Answer F W
    acquire_beside float clock request fingerprint c (some active) =
        if active.view.lease_id == request.lease_id
          && active.view.owner_job_id == request.owner_job_id
          && active.view.purpose == request.purpose
          && same_impairment float active.view.impairment request.impairment
        then acknowledge request.request_id fingerprint true c
        else refuse another_lease_active c
    acquire_beside float clock request fingerprint c none =
        applied clock request fingerprint c (system.apply c.interface request.impairment c.network)

    unfoldable pub acquire_valid :
        FloatOps F
        → Codec F
        → Clock
        → NetworkLeaseRequest F
        → NetworkControl F W
        → Option Refusal
        → Answer F W
    acquire_valid float codec clock request c (some e) = refuse e c
    acquire_valid float codec clock request c none =
        let live = expire_locked clock c in
        let print = fingerprint "acquire" (codec.acquire_json request) in
        unless_replayed (replay live.requests request.request_id print) live
          (acquire_beside float clock request print live live.active)

    unfoldable pub acquire :
        FloatOps F → Codec F → Clock → NetworkLeaseRequest F → NetworkControl F W → Answer F W
    acquire float codec clock request c =
        acquire_valid float codec clock request c (validate_acquire float request)

    unfoldable pub renew :
        Codec F → Clock → (lease_id : String) → LeaseRenewRequest → NetworkControl F W → Answer F W
    renew codec clock lease_id request c =
        let live = expire_locked clock c in
        let print = fingerprint (append "renew:" lease_id) (codec.renew_json request) in
        if is_blank lease_id
        then refuse blank_lease_id c
        else if not (ltb 0 request.ttl_secs)
        then refuse zero_ttl c
        else if not (leb request.ttl_secs max_lease_ttl_secs)
        then refuse long_ttl c
        else if is_blank request.request_id
        then refuse blank_request_id c
        else unless_replayed (replay live.requests request.request_id print) live
            (renew_beside clock lease_id request print live live.active)

    unfoldable pub release_beside :
        (lease_id request_id fingerprint : String)
        → NetworkControl F W
        → Option (ActiveLease F)
        → Answer F W
    release_beside lease_id request_id print c none = acknowledge request_id print false c
    release_beside lease_id request_id print c (some active) =
        if active.view.lease_id == lease_id
        then cleared request_id print c (system.clear c.interface c.network)
        else refuse different_lease_active c

    unfoldable pub release :
        Codec F
        → Clock
        → (lease_id : String) → NetworkLeaseReleaseRequest
        → NetworkControl F W
        → Answer F W
    release codec clock lease_id request c =
        let live = expire_locked clock c in
        let print = fingerprint (append "release:" lease_id) (codec.release_json request) in
        if is_blank lease_id
        then refuse blank_lease_id c
        else if is_blank request.request_id
        then refuse blank_request_id c
        else unless_replayed (replay live.requests request.request_id print) live
            (release_beside lease_id request.request_id print live live.active)

    unfoldable pub detected : Result String String × W → Result String (NetworkControl F W)
    detected (err e, w) = err e
    detected (ok interface, w) = started interface (system.clear interface w)

    unfoldable pub new : W → Result String (NetworkControl F W)
    new w = detected (system.detect_p2p_interface w)
