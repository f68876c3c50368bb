-- ===== src/Mining/Control/Waiting.antt =====
-- crates/mining-controller/src/control.rs: how a request ends, and where it waits. A request that waits
-- on the condition variable gives up the lock, so it is one function up to the wait and another,
-- `resume`, for each time that it wakes; what it keeps on its stack across the wait is `Waiting`.
use Prim.Native.String.{◌++◌ as append}
use simchain.Base.{
  Result-cases, Option-cases, inl, inr, ◌∙◌, ap, ℕ, Bool, ◌&&◌, not, String, Option, none, some,
  List, leb, nat_eq, if◌then◌else◌, Result, ok, err, ◌==◌, String-eq,
}
use simchain.Base.Table.{lookup, insert, remove}
use simchain.Api.{
  PauseLease, LeaseRequest, LeaseRenewRequest, LeaseReleaseRequest, SetStateRequest,
  SetPolicyRequest, CommandAck,
}
use simchain.Requests.{completed_request, remember_request}
use simchain.Mining.Control.{Clock, LeaseEntry, Inner, is_effectively_paused, expire_leases, ack_of}

-- the messages of `anyhow::bail!`
pub data Error : Type 0 where
  blank_lease_field zero_ttl blank_request_id request_id_reused lease_owned lease_not_found : Error
  policy_not_canonical stale_generation generation_taken policy_pending : Error
  pause_timed_out policy_timed_out : Error

-- `serde_json::to_string` of each request
pub record Codec (P : Type 0) : Type 0 where
  pub state_json : SetStateRequest → String
  pub lease_json : LeaseRequest → String
  pub renew_json : LeaseRenewRequest → String
  pub release_json : LeaseReleaseRequest → String
  pub policy_json : SetPolicyRequest P → String

-- a lease that is in the table while its request waits for the safe point
pub record Tentative : Type 0 where
  pub lease_id : String
  pub lease : LeaseEntry
  pub previous : Option LeaseEntry

pub data Waiting : Type 0 where
  for_pause : (deadline : ℕ) (request_id fingerprint : String) → Option Tentative → Waiting
  for_generation : (generation deadline : ℕ) (request_id fingerprint : String) → Waiting
  to_roll_back : Tentative → Error → Waiting

pub data Progress : Type 0 where
  answered : Result Error CommandAck → Progress
  waits : Waiting → Progress

-- `LeaseEntry == LeaseEntry`
abbrev pub lease_view_eq : PauseLease → PauseLease → Bool
lease_view_eq v w =
    v.lease_id == w.lease_id
    && v.owner_job_id == w.owner_job_id
    && v.purpose == w.purpose
    && nat_eq v.expires_at_ms w.expires_at_ms

abbrev pub lease_eq : LeaseEntry → LeaseEntry → Bool
lease_eq a b = lease_view_eq a.view b.view && nat_eq a.deadline b.deadline

abbrev pub fingerprint_of : (operation json : String) → String
fingerprint_of operation json = append operation (append ":" json)

abbrev pub restore : Tentative → List (String × LeaseEntry) → List (String × LeaseEntry)
restore t leases = elim t.previous [
  | some lease ↦ insert t.lease_id lease leases
  | none ↦ remove t.lease_id leases
]

module _ {P : Type 0} where
  abbrev pub refuse : Error → Inner P → Inner P × Progress
  refuse e inner = (inner, answered (err e))

  -- the acknowledgement, remembered under its request
  unfoldable pub finish : (request_id fingerprint : String) → Inner P → Inner P × Progress
  finish request_id fingerprint inner =
      let ack = ack_of inner request_id in
      (
        record inner { requests = remember_request inner.requests request_id fingerprint ack },
        answered (ok ack),
      )

  -- `if let Some(ack) = completed_request(..)? { return Ok(ack) }`, and the rest of the handler
  unfoldable pub unless_completed :
      (request_id fingerprint : String) → Inner P → Inner P × Progress → Inner P × Progress
  unless_completed request_id fingerprint inner rest =
      elim (completed_request inner.requests request_id fingerprint) [
        | err _ ↦ refuse request_id_reused inner
        | ok (some ack) ↦ (inner, answered (ok ack))
        | ok none ↦ rest
      ]

  abbrev pub give_up : Option Tentative → Inner P → Inner P × Progress
  give_up none inner = refuse pause_timed_out inner
  give_up (some t) inner = (inner, waits (to_roll_back t pause_timed_out))

  -- `wait_for_safe_pause`, from the head of its loop to the wait
  unfoldable pub await_pause :
      Clock
      → (deadline : ℕ) (request_id fingerprint : String) → Option Tentative
      → Inner P
      → Inner P × Progress
  await_pause clock deadline request_id fingerprint tentative inner =
      if is_effectively_paused inner
      then finish request_id fingerprint inner
      else if leb deadline clock.now
      then give_up tentative inner
      else (inner, waits (for_pause deadline request_id fingerprint tentative))

  -- `wait_for_generation`, from the head of its loop to the wait
  unfoldable pub await_generation :
      Clock
      → (generation deadline : ℕ) (request_id fingerprint : String) → Inner P
      → Inner P × Progress
  await_generation clock generation deadline request_id fingerprint inner =
      if nat_eq inner.generation generation
      then finish request_id fingerprint inner
      else if leb deadline clock.now
      then refuse policy_timed_out inner
      else (inner, waits (for_generation generation deadline request_id fingerprint))

  -- the table's entry is still the tentative one, or another call has replaced it
  unfoldable pub rolled_back : Clock → Tentative → Inner P → Option LeaseEntry → Inner P
  rolled_back clock t inner none = inner
  rolled_back clock t inner (some current) =
      if lease_eq current t.lease
      then expire_leases clock (record inner { leases = restore t inner.leases })
      else inner

  unfoldable pub rollback_unacquired_lease : Clock → Tentative → Inner P → Inner P
  rollback_unacquired_lease clock t inner =
      rolled_back clock t inner (lookup t.lease_id inner.leases)

  -- a wake-up of a waiting request; `timed_out` is `result.timed_out()`
  unfoldable pub resume : Clock → (timed_out : Bool) → Waiting → Inner P → Inner P × Progress
  resume clock timed_out (for_pause deadline request_id fingerprint tentative) inner =
      if timed_out && not (is_effectively_paused inner)
      then give_up tentative inner
      else await_pause clock deadline request_id fingerprint tentative inner
  resume clock timed_out (for_generation generation deadline request_id fingerprint) inner =
      if timed_out && not (nat_eq inner.generation generation)
      then refuse policy_timed_out inner
      else await_generation clock generation deadline request_id fingerprint inner
  resume clock timed_out (to_roll_back t e) inner =
      (rollback_unacquired_lease clock t inner, answered (err e))

module _ {ℓ} {P : Type 0} (Q : Inner P × Progress → Type ℓ) (inner : Inner P) where
  -- a predicate of a handler's result, from the ways in which the handler ends
  pub unless_completed-intro :
      (request_id fingerprint : String) (rest : Inner P × Progress)
      → Q (refuse request_id_reused inner)
      → ((c : CommandAck) → Q (inner, answered (ok c)))
      → Q rest
      → Q (unless_completed request_id fingerprint inner rest)
  unfolding unless_completed
  unless_completed-intro id f rest reused again fresh =
      let found = completed_request inner.requests id f in
      elim (Result-cases found) [
        | inr (e, q) ↦ rw (q, unless_completed) reused
        | inl (a, q) ↦ elim (Option-cases a) [
          | inl n ↦ rw (q ∙ ap ok n, unless_completed) fresh
          | inr (c, n) ↦ rw (q ∙ ap ok n, unless_completed) (again c)
        ]
      ]
