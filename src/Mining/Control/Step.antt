-- ===== src/Mining/Control/Step.antt =====
-- The control as its threads interleave: the worker and any number of requests take the lock in
-- turn, and each turn is one step. A step of the clock needs no rule, since each turn reads it.
use simchain.Base.{true, false, ℕ, Bool, String, Option, List}
use simchain.Api.{
  SetStateRequest, SetPolicyRequest, LeaseRequest, LeaseRenewRequest, LeaseReleaseRequest,
  LastMinedBlock,
}
use simchain.Mining.Control.{PolicyOps, Clock, Inner, expire_leases}
use simchain.Mining.Control.Waiting.{Codec, Waiting, resume}
use simchain.Mining.Control.Commands.{
  set_state, acquire_lease, renew_lease, release_lease, set_policy,
}
use simchain.Mining.Control.Worker.{
  Scheduler, bootstrap_safe_point, bootstrap_turn, mining_safe_point, begin_generate,
  finish_generate, record_error, wait_interval, wait_turn,
}

-- one turn under the lock
pub data Turn (P : Type 0) : Type 0 where
  status : Clock → Turn P
  sets_state : Clock → SetStateRequest → Turn P
  acquires : Clock → ℕ → LeaseRequest → Turn P
  renews : Clock → String → LeaseRenewRequest → Turn P
  releases : Clock → String → LeaseReleaseRequest → Turn P
  sets_policy : Clock → SetPolicyRequest P → Turn P
  resumes : Clock → Bool → Waiting → Turn P
  at_bootstrap : Clock → (entropy height : ℕ) → Turn P
  at_bootstrap_again : Clock → (entropy : ℕ) → Turn P
  at_safe_point : Clock → (entropy : ℕ) → Scheduler → Turn P
  begins : Clock → (generation : ℕ) → Turn P
  finishes : Option LastMinedBlock → Option ℕ → Turn P
  fails : String → Turn P
  begins_interval : Clock → (duration generation : ℕ) → Turn P
  waits_interval : Clock → (deadline generation : ℕ) → Turn P

-- a turn of the mining loop, not of a request
abbrev pub is_worker : {P : Type 0} → Turn P → Bool
is_worker (at_bootstrap _ _ _) = true
is_worker (at_bootstrap_again _ _) = true
is_worker (at_safe_point _ _ _) = true
is_worker (begins _ _) = true
is_worker (finishes _ _) = true
is_worker (fails _) = true
is_worker (begins_interval _ _ _) = true
is_worker (waits_interval _ _ _) = true
is_worker _ = false

module _ {P : Type 0} (ops : PolicyOps P) (codec : Codec P) where
  unfoldable pub take : Turn P → Inner P → Inner P
  take (status clock) inner = expire_leases clock inner
  take (sets_state clock request) inner = (set_state codec clock request inner).0
  take (acquires clock timeout request) inner = (acquire_lease codec clock timeout request inner).0
  take (renews clock id request) inner = (renew_lease codec clock id request inner).0
  take (releases clock id request) inner = (release_lease codec clock id request inner).0
  take (sets_policy clock request) inner = (set_policy codec ops clock request inner).0
  take (resumes clock timed_out w) inner = (resume clock timed_out w inner).0
  take (at_bootstrap clock entropy height) inner =
      (bootstrap_safe_point ops clock entropy height inner).0
  take (at_bootstrap_again clock entropy) inner = (bootstrap_turn ops clock entropy inner).0
  take (at_safe_point clock entropy s) inner = (mining_safe_point ops clock entropy s inner).0
  take (begins clock generation) inner = (begin_generate clock generation inner).0
  take (finishes mined height) inner = finish_generate mined height inner
  take (fails message) inner = record_error message inner
  take (begins_interval clock duration generation) inner =
      (wait_interval clock duration generation inner).0
  take (waits_interval clock deadline generation) inner =
      (wait_turn clock deadline generation inner).0

  unfoldable pub take_all : List (Turn P) → Inner P → Inner P
  take_all List.[] inner = inner
  take_all (List.◌∷◌ t ts) inner = take_all ts (take t inner)
