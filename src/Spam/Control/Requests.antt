-- ===== src/Spam/Control/Requests.antt =====
-- crates/spammer/src/control.rs: the handlers of the control plane's requests, each up to its answer
-- or to the wait on the condition variable, and the wake-ups of such waits.
use Prim.Native.String.{◌++◌ as append}
use simchain.Base.{
  ℕ, ◌+◌, Bool, true, false, ◌||◌, ◌&&◌, not, String, String-eq, Option, none, some, leb, ltb,
  nat_eq, if◌then◌else◌, Result, ok, err,
}
use simchain.Base.Text.{is_blank}
use simchain.Base.Table.{lookup, insert, remove}
use simchain.Api.{
  LeaseRequest, LeaseRenewRequest, LeaseReleaseRequest, SetStateRequest, SetPolicyRequest,
  CommandAck, is_paused_state,
}
use simchain.Requests.{completed_request, remember_request}
use simchain.Mining.Control.{Clock, LeaseEntry, PendingPolicy, safe_point_timeout, is_empty}
use simchain.Mining.Control.Waiting.{Codec, Tentative, lease_eq, restore, fingerprint_of}
use simchain.Mining.Control.Commands.{is_owned_elsewhere, requested_lease, renewed}
use simchain.Spam.Control.{
  SpamOps, PolicyFailure, Inner, is_effectively_paused, mark_pause_requested, expire_leases, ack_of,
}

-- the messages of `anyhow::bail!`
pub data Error : Type 0 where
  blank_lease_field zero_ttl blank_request_id request_id_reused lease_owned lease_not_found : Error
  lease_active policy_not_canonical stale_generation generation_taken policy_pending : Error
  policy_rejected : String → Error
  pause_timed_out policy_timed_out : Error

pub data Waiting (P : Type 0) : Type 0 where
  for_pause : (deadline : ℕ) (request_id fingerprint : String) → Option Tentative → Waiting P
  for_policy : (deadline : ℕ) (fingerprint : String) → SetPolicyRequest P → Waiting P
  to_roll_back : Tentative → Error → Waiting P

pub data Progress (P : Type 0) : Type 0 where
  answered : Result Error CommandAck → Progress P
  waits : Waiting P → Progress P

module _ {P : Type 0} where
  abbrev pub refuse : Error → Inner P → Inner P × Progress P
  refuse e inner = (inner, answered (err e))

  -- the acknowledgement, remembered under its request
  unfoldable pub finish : (request_id fingerprint : String) → Inner P → Inner P × Progress P
  finish request_id fingerprint inner =
      let ack = ack_of inner request_id in
      (
        record inner { requests = remember_request inner.requests request_id fingerprint ack },
        answered (ok ack),
      )

  unfoldable pub unless_completed :
      (request_id fingerprint : String) → Inner P → Inner P × Progress P → Inner P × Progress P
  unless_completed request_id fingerprint inner rest =
      elim (completed_request inner.requests request_id fingerprint) [
        | err _ ↦ refuse request_id_reused inner
        | ok (some ack) ↦ (inner, answered (ok ack))
        | ok none ↦ rest
      ]

  abbrev pub give_up : Option Tentative → Inner P → Inner P × Progress P
  give_up none inner = refuse pause_timed_out inner
  give_up (some t) inner = (inner, waits (to_roll_back t pause_timed_out))

  -- `wait_for_safe_pause`, from the head of its loop to the wait
  unfoldable pub await_pause :
      Clock
      → (deadline : ℕ) (request_id fingerprint : String) → Option Tentative
      → Inner P
      → Inner P × Progress P
  await_pause clock deadline request_id fingerprint tentative inner =
      if is_effectively_paused inner
      then finish request_id fingerprint inner
      else if leb deadline clock.now
      then give_up tentative inner
      else (inner, waits (for_pause deadline request_id fingerprint tentative))

  unfoldable pub rolled_back : Clock → Tentative → Inner P → Option LeaseEntry → Inner P
  rolled_back clock t inner none = inner
  rolled_back clock t inner (some current) =
      if lease_eq current t.lease
      then expire_leases clock (record inner { leases = restore t inner.leases })
      else inner

  unfoldable pub rollback_unacquired_lease : Clock → Tentative → Inner P → Inner P
  rollback_unacquired_lease clock t inner =
      rolled_back clock t inner (lookup t.lease_id inner.leases)

  module _ (codec : Codec P) where
    unfoldable pub set_state : Clock → SetStateRequest → Inner P → Inner P × Progress P
    set_state clock request inner =
        let print = fingerprint_of "state" (codec.state_json request) in
        let desired = record inner { desired_state = request.state } in
        if is_blank request.request_id
        then refuse blank_request_id inner
        else unless_completed request.request_id print inner (
            if is_paused_state request.state
            then await_pause clock (clock.now + safe_point_timeout) request.request_id print none
                (mark_pause_requested desired)
            else finish request.request_id print desired)

    -- `acquire_lease_with_timeout`
    unfoldable pub acquire_lease :
        Clock → (timeout : ℕ) → LeaseRequest → Inner P → Inner P × Progress P
    acquire_lease clock timeout request inner =
        let print = fingerprint_of "lease-acquire" (codec.lease_json request) in
        let live = expire_leases clock inner in
        let previous = lookup request.lease_id live.leases in
        let lease = requested_lease clock request in
        let tentative : Tentative = record {
          lease_id = request.lease_id;
          lease = lease;
          previous = previous;
        } in
        if is_blank request.lease_id
          || is_blank request.owner_job_id
          || is_blank request.purpose
          || is_blank request.request_id
        then refuse blank_lease_field inner
        else if nat_eq request.ttl_secs 0
        then refuse zero_ttl inner
        else unless_completed request.request_id print live (
            if is_owned_elsewhere request previous
            then refuse lease_owned live
            else await_pause clock (clock.now + timeout) request.request_id print (some tentative) (
                mark_pause_requested
                  (record live { leases = insert request.lease_id lease live.leases })))

    unfoldable pub renew_lease :
        Clock → (lease_id : String) → LeaseRenewRequest → Inner P → Inner P × Progress P
    renew_lease clock lease_id request inner =
        let print =
          fingerprint_of (fingerprint_of "lease-renew" lease_id) (codec.renew_json request) in
        let live = expire_leases clock inner in
        if is_blank request.request_id
        then refuse blank_request_id inner
        else if nat_eq request.ttl_secs 0
        then refuse zero_ttl inner
        else unless_completed request.request_id print live (elim (lookup lease_id live.leases) [
          | none ↦ refuse lease_not_found live
          | some lease ↦ finish request.request_id print (record live {
            leases = insert lease_id (renewed clock request.ttl_secs lease) live.leases;
          })
        ])

    -- the state once a lease is out of the table
    abbrev pub released : (lease_id : String) (chain_changed : Bool) → Inner P → Inner P
    released lease_id true inner = record inner {
      leases = remove lease_id inner.leases;
      reconciliation_pending = true;
      reconciliation_reason = some (append "chain changed under lease " lease_id);
    }
    released lease_id false inner = record inner { leases = remove lease_id inner.leases }

    unfoldable pub release_lease :
        Clock → (lease_id : String) → LeaseReleaseRequest → Inner P → Inner P × Progress P
    release_lease clock lease_id request inner =
        let print =
          fingerprint_of (fingerprint_of "lease-release" lease_id) (codec.release_json request) in
        let live = expire_leases clock inner in
        if is_blank request.request_id
        then refuse blank_request_id inner
        else unless_completed request.request_id print live
            (finish request.request_id print (released lease_id request.chain_changed live))

    module _ (ops : SpamOps P) where
      -- is the policy that was asked for in effect
      abbrev pub is_in_effect : SetPolicyRequest P → Inner P → Bool
      is_in_effect request inner =
          nat_eq inner.generation request.generation && ops.same inner.policy request.policy

      -- the message of the failure, if it is the failure of this request
      unfoldable pub failure_of : SetPolicyRequest P → Option (PolicyFailure P) → Option String
      failure_of request none = none
      failure_of request (some failure) =
          if nat_eq failure.generation request.generation && ops.same failure.policy request.policy
          then some failure.message
          else none

      -- `wait_for_policy`, from the head of its loop to the wait
      unfoldable pub await_policy :
          Clock
          → (deadline : ℕ) (fingerprint : String) → SetPolicyRequest P
          → Inner P
          → Inner P × Progress P
      await_policy clock deadline print request inner =
          if is_in_effect request inner
          then finish request.request_id print inner
          else elim (failure_of request inner.policy_failure) [
            | some message ↦ refuse (policy_rejected message) inner
            | none ↦
                if leb deadline clock.now
                then refuse policy_timed_out inner
                else (inner, waits (for_policy deadline print request))
          ]

      -- behind the policy that is pending already, if any
      unfoldable pub enqueue_behind :
          Clock
          → SetPolicyRequest P
          → (fingerprint : String) → Inner P
          → Option (PendingPolicy P)
          → Inner P × Progress P
      enqueue_behind clock request print inner (some pending) =
          if nat_eq pending.generation request.generation && ops.same pending.policy request.policy
          then await_policy clock (clock.now + safe_point_timeout) print request inner
          else refuse policy_pending inner
      enqueue_behind clock request print inner none =
          await_policy clock (clock.now + safe_point_timeout) print request (record inner {
            policy_failure = none;
            pending_policy =
                some (record { generation = request.generation; policy = request.policy });
          })

      unfoldable pub set_policy : Clock → SetPolicyRequest P → Inner P → Inner P × Progress P
      set_policy clock request inner =
          let print = fingerprint_of "policy" (codec.policy_json request) in
          let live = expire_leases clock inner in
          if is_blank request.request_id
          then refuse blank_request_id inner
          else if not (ops.validate request.policy)
          then refuse policy_not_canonical inner
          else unless_completed request.request_id print live (
              if not (is_empty live.leases)
              then refuse lease_active live
              else if ltb request.generation live.generation && not request.rollback
              then refuse stale_generation live
              else if nat_eq request.generation live.generation
                  && ops.same request.policy live.policy
              then finish request.request_id print live
              else if nat_eq request.generation live.generation && not request.rollback
              then refuse generation_taken live
              else enqueue_behind clock request print live live.pending_policy)

      -- a wake-up of a waiting request; `timed_out` is `result.timed_out()`
      unfoldable pub resume :
          Clock → (timed_out : Bool) → Waiting P → Inner P → Inner P × Progress P
      resume clock timed_out (for_pause deadline request_id print tentative) inner =
          if timed_out && not (is_effectively_paused inner)
          then give_up tentative inner
          else await_pause clock deadline request_id print tentative inner
      resume clock timed_out (for_policy deadline print request) inner =
          if timed_out
          then refuse policy_timed_out inner
          else await_policy clock deadline print request inner
      resume clock timed_out (to_roll_back t e) inner =
          (rollback_unacquired_lease clock t inner, answered (err e))
