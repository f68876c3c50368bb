-- ===== src/Spam/Control.antt =====
-- crates/spammer/src/control.rs: the state that the spam worker and the control plane's requests
-- share under one mutex, and the functions on it. The leases, the clock and the remembered requests
-- are the same code as in the mining controller, and are taken from there. The policy is a type
-- with the tests that the control makes on it.
pub mod Requests
pub mod Worker
pub mod Cycle
pub mod Race
pub mod Tests
use simchain.Base.{
  ℕ, Bool, true, false, ◌||◌, ◌&&◌, not, String, Option, none, some, List, [], ltb, nat_eq, length,
  if◌then◌else◌, is_some,
}
use simchain.Base.Table.{retain}
use simchain.Api.{DesiredState, WorkerPhase, CommandAck, is_paused_state, is_paused_phase}
use simchain.Requests.{no_requests}
use simchain.Requests as Remembered
use simchain.Mining.Control.{Clock, LeaseEntry, PendingPolicy, is_empty}

-- what the control asks of a `SpamTuning`: `enabled`, `==` and `validate_policy`
pub record SpamOps (P : Type 0) : Type 0 where
  pub enabled : P → Bool
  pub same : P → P → Bool
  pub validate : P → Bool

pub record PolicyFailure (P : Type 0) : Type 0 where
  pub generation : ℕ
  pub policy : P
  pub message : String

pub data SpamCapacityState : Type 0 where
  ready provisioning capacity_degraded : SpamCapacityState

pub record SpamCapacityStatus : Type 0 where
  pub state : SpamCapacityState
  pub usable_branches_per_miner : ℕ
  pub required_branches_per_miner : ℕ
  pub target_branches_per_miner : ℕ
  pub branch_provisioning : Bool
  pub floor_pool_provisioning : Bool

pub record Inner (P : Type 0) : Type 0 where
  pub desired_state : DesiredState
  pub leases : List (String × LeaseEntry)
  pub policy : P
  pub generation : ℕ
  pub pending_policy : Option (PendingPolicy P)
  pub policy_failure : Option (PolicyFailure P)
  pub initialization_pending : Bool
  pub reconciliation_pending : Bool
  pub reconciliation_reason : Option String
  pub reconciliation_count : ℕ
  pub last_reconciliation_reason : Option String
  pub capacity : Option SpamCapacityStatus
  pub phase : WorkerPhase
  pub observed_height : Option ℕ
  pub cycle_phase : Option String
  pub accepted_transactions : ℕ
  pub last_cycle_duration_ms : Option ℕ
  pub in_flight : Bool
  pub last_error : Option String
  pub started : ℕ
  pub requests : Remembered.Requests CommandAck

module _ {P : Type 0} where
  -- `SpamControl::new`
  unfoldable pub new_inner : SpamOps P → P → (started : ℕ) → Inner P
  new_inner ops initial_policy started = record {
    desired_state = DesiredState.running;
    leases = [];
    policy = initial_policy;
    generation = 0;
    pending_policy = none;
    policy_failure = none;
    initialization_pending = ops.enabled initial_policy;
    reconciliation_pending = false;
    reconciliation_reason = none;
    reconciliation_count = 0;
    last_reconciliation_reason = none;
    capacity = none;
    phase = if ops.enabled initial_policy then WorkerPhase.initializing else WorkerPhase.disabled;
    observed_height = none;
    cycle_phase = none;
    accepted_transactions = 0;
    last_cycle_duration_ms = none;
    in_flight = false;
    last_error = none;
    started = started;
    requests = no_requests;
  }

  abbrev pub pause_requested : Inner P → Bool
  pause_requested inner = is_paused_state inner.desired_state || not (is_empty inner.leases)

  abbrev pub is_effectively_paused : Inner P → Bool
  is_effectively_paused inner = is_paused_phase inner.phase && not inner.in_flight

  unfoldable pub mark_pause_requested : Inner P → Inner P
  mark_pause_requested inner = record inner {
    phase = if inner.in_flight then WorkerPhase.pausing else WorkerPhase.paused;
    cycle_phase = if inner.in_flight then inner.cycle_phase else none;
  }

  abbrev pub live_leases : Clock → Inner P → List (String × LeaseEntry)
  live_leases clock inner = retain (λ lease. ltb clock.now lease.deadline) inner.leases

  -- a lease that expires asks for a reconciliation
  unfoldable pub expire_leases : Clock → Inner P → Inner P
  expire_leases clock inner =
      let live = live_leases clock inner in
      if nat_eq (length live) (length inner.leases)
      then record inner { leases = live }
      else record inner {
        leases = live;
        reconciliation_pending = true;
        reconciliation_reason = some "pause lease expired";
      }

  unfoldable pub work_interrupted : SpamOps P → (generation : ℕ) → Inner P → Bool
  work_interrupted ops generation inner =
      pause_requested inner
      || is_some inner.pending_policy
      || inner.reconciliation_pending
      || inner.initialization_pending
      || not (nat_eq inner.generation generation)
      || not (ops.enabled inner.policy)

  abbrev pub ack_of : Inner P → String → CommandAck
  ack_of inner request_id = record {
    request_id = request_id;
    phase = inner.phase;
    effective_generation = inner.generation;
  }
