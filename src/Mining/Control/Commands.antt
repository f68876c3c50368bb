-- ===== src/Mining/Control/Commands.antt =====
-- crates/mining-controller/src/control.rs: the handlers of the control plane's requests, each up to
-- its answer or to the wait on the condition variable.
use simchain.Base.{
  ℕ, ◌+◌, ◌*◌, Bool, false, ◌||◌, ◌&&◌, not, String, Option, none, some, ltb, nat_eq, if◌then◌else◌,
  ◌==◌, String-eq,
}
use simchain.Base.Text.{is_blank}
use simchain.Base.Table.{lookup, insert, remove}
use simchain.Api.{
  WorkerPhase, LeaseRequest, LeaseRenewRequest, LeaseReleaseRequest, SetStateRequest,
  SetPolicyRequest, is_paused_state,
}
use simchain.Mining.Control.{
  PolicyOps, Clock, LeaseEntry, PendingPolicy, Inner, safe_point_timeout, expires_at,
  is_effectively_paused, expire_leases,
}
use simchain.Mining.Control.Waiting.{
  blank_lease_field, zero_ttl, blank_request_id, lease_owned, lease_not_found, policy_not_canonical,
  stale_generation, generation_taken, policy_pending, Codec, Tentative, Progress, fingerprint_of,
  refuse, finish, unless_completed, await_pause, await_generation,
}

-- phase = Pausing, unless the worker stands at a safe point
abbrev pub start_pausing : {P : Type 0} → Inner P → Inner P
start_pausing inner = record inner {
  phase = if is_effectively_paused inner then inner.phase else WorkerPhase.pausing;
}

-- another job or purpose holds the lease
abbrev pub is_owned_elsewhere : LeaseRequest → Option LeaseEntry → Bool
is_owned_elsewhere request none = false
is_owned_elsewhere request (some existing) =
    not (existing.view.owner_job_id == request.owner_job_id)
    || not (existing.view.purpose == request.purpose)

abbrev pub requested_lease : Clock → LeaseRequest → LeaseEntry
requested_lease clock request = record {
  view = record {
    lease_id = request.lease_id;
    owner_job_id = request.owner_job_id;
    purpose = request.purpose;
    expires_at_ms = expires_at clock request.ttl_secs;
  };
  deadline = clock.now + request.ttl_secs * 1000;
}

abbrev pub renewed : Clock → ℕ → LeaseEntry → LeaseEntry
renewed clock ttl_secs lease = record {
  view = record {
    lease_id = lease.view.lease_id;
    owner_job_id = lease.view.owner_job_id;
    purpose = lease.view.purpose;
    expires_at_ms = expires_at clock ttl_secs;
  };
  deadline = clock.now + ttl_secs * 1000;
}

module _ {P : Type 0} (codec : Codec P) where
  unfoldable pub set_state : Clock → SetStateRequest → Inner P → Inner P × Progress
  set_state clock request inner =
      let fingerprint = fingerprint_of "state" (codec.state_json request) in
      let desired = record inner { desired_state = request.state } in
      if is_blank request.request_id
      then refuse blank_request_id inner
      else unless_completed request.request_id fingerprint inner (
          if is_paused_state request.state
          then await_pause clock (clock.now + safe_point_timeout) request.request_id fingerprint
              none (start_pausing desired)
          else finish request.request_id fingerprint desired)

  -- `acquire_lease_with_timeout`
  unfoldable pub acquire_lease : Clock → (timeout : ℕ) → LeaseRequest → Inner P → Inner P × Progress
  acquire_lease clock timeout request inner =
      let fingerprint = fingerprint_of "lease-acquire" (codec.lease_json request) in
      let live = expire_leases clock inner in
      let previous = lookup request.lease_id live.leases in
      let lease = requested_lease clock request in
      let tentative : Tentative = record {
        lease_id = request.lease_id;
        lease = lease;
        previous = previous;
      } in
      if is_blank request.lease_id
        || is_blank request.owner_job_id
        || is_blank request.purpose
        || is_blank request.request_id
      then refuse blank_lease_field inner
      else if nat_eq request.ttl_secs 0
      then refuse zero_ttl inner
      else unless_completed request.request_id fingerprint live (
          if is_owned_elsewhere request previous
          then refuse lease_owned live
          else await_pause clock (clock.now + timeout) request.request_id fingerprint
              (some tentative)
              (start_pausing (record live { leases = insert request.lease_id lease live.leases })))

  unfoldable pub renew_lease :
      Clock → (lease_id : String) → LeaseRenewRequest → Inner P → Inner P × Progress
  renew_lease clock lease_id request inner =
      let fingerprint =
        fingerprint_of (fingerprint_of "lease-renew" lease_id) (codec.renew_json request) in
      let live = expire_leases clock inner in
      if is_blank request.request_id
      then refuse blank_request_id inner
      else if nat_eq request.ttl_secs 0
      then refuse zero_ttl inner
      else unless_completed request.request_id fingerprint live
          (elim (lookup lease_id live.leases) [
            | none ↦ refuse lease_not_found live
            | some lease ↦ finish request.request_id fingerprint (record live {
              leases = insert lease_id (renewed clock request.ttl_secs lease) live.leases;
            })
          ])

  unfoldable pub release_lease :
      Clock → (lease_id : String) → LeaseReleaseRequest → Inner P → Inner P × Progress
  release_lease clock lease_id request inner =
      let fingerprint =
        fingerprint_of (fingerprint_of "lease-release" lease_id) (codec.release_json request) in
      let live = expire_leases clock inner in
      if is_blank request.request_id
      then refuse blank_request_id inner
      else unless_completed request.request_id fingerprint live (
          finish request.request_id fingerprint
            (record live { leases = remove lease_id live.leases }))

  module _ (ops : PolicyOps P) where
    -- the wait of `set_policy`, 30 seconds at most
    abbrev pub await_policy :
        Clock → SetPolicyRequest P → (fingerprint : String) → Inner P → Inner P × Progress
    await_policy clock request fingerprint =
        await_generation clock request.generation (clock.now + safe_point_timeout)
          request.request_id fingerprint

    -- behind the policy that is pending already, if any
    unfoldable pub enqueue_behind :
        Clock
        → SetPolicyRequest P
        → (fingerprint : String) → Inner P
        → Option (PendingPolicy P)
        → Inner P × Progress
    enqueue_behind clock request fingerprint inner (some pending) =
        if nat_eq pending.generation request.generation && ops.same pending.policy request.policy
        then await_policy clock request fingerprint inner
        else refuse policy_pending inner
    enqueue_behind clock request fingerprint inner none =
        await_policy clock request fingerprint (record inner {
          pending_policy =
              some (record { generation = request.generation; policy = request.policy });
        })

    -- the part of `set_policy` behind the test of the generation
    unfoldable pub enqueue_policy :
        Clock → SetPolicyRequest P → (fingerprint : String) → Inner P → Inner P × Progress
    enqueue_policy clock request fingerprint inner =
        enqueue_behind clock request fingerprint inner inner.pending_policy

    unfoldable pub set_policy : Clock → SetPolicyRequest P → Inner P → Inner P × Progress
    set_policy clock request inner =
        let fingerprint = fingerprint_of "policy" (codec.policy_json request) in
        if is_blank request.request_id
        then refuse blank_request_id inner
        else if not (ops.validate request.policy)
        then refuse policy_not_canonical inner
        else unless_completed request.request_id fingerprint inner (
            if ltb request.generation inner.generation && not request.rollback
            then refuse stale_generation inner
            else if nat_eq request.generation inner.generation
            then if ops.same request.policy inner.policy
              then finish request.request_id fingerprint inner
              else if request.rollback
              then enqueue_policy clock request fingerprint inner
              else refuse generation_taken inner
            else enqueue_policy clock request fingerprint inner)
