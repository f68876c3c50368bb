-- ===== src/Mining/Control.antt =====
-- crates/mining-controller/src/control.rs: the state that the mining loop and the control plane's
-- requests share under one mutex, and the functions on it that hold the lock.
-- A `Clock` is what `Instant::now()` and `now_ms()` read while the lock is held: one reading for
-- each critical section. The mining policy is a type with the operations that the control uses.
pub mod Waiting
pub mod Commands
pub mod Worker
pub mod Step
pub mod Handlers
pub mod Turns
pub mod Pause
pub mod Leases
pub mod Answers
pub mod Effects
pub mod History
pub mod Rollback
pub mod Tests
use simchain.Base.{
  ℕ, ◌+◌, ◌-◌, ◌*◌, ◌^◌, Bool, true, false, ◌||◌, ◌&&◌, not, String, Option, none, some, List, [],
  ◌∷◌, ltb, leb, min, max, if◌then◌else◌, unwrap_or, Result, ok, err, ◌==◌, Eq, String-eq, ℕ-eq,
}
use simchain.Base.Table.{retain}
use simchain.Api.{
  DesiredState, WorkerPhase, PauseLease, CommandAck, LastMinedBlock, is_paused_state,
  is_paused_phase,
}
use simchain.Requests.{Requests, no_requests}

-- what the control asks of a policy: `rng_seed`, `==`, and `validate_policy`
pub record PolicyOps (P : Type 0) : Type 0 where
  pub rng_seed : P → Option ℕ
  pub same : P → P → Bool
  pub validate : P → Bool

pub record Clock : Type 0 where
  pub now : ℕ
  pub now_ms : ℕ

pub record LeaseEntry : Type 0 where
  pub view : PauseLease
  pub deadline : ℕ

pub record PendingPolicy (P : Type 0) : Type 0 where
  pub generation : ℕ
  pub policy : P

pub record Inner (P : Type 0) : Type 0 where
  pub desired_state : DesiredState
  pub leases : List (String × LeaseEntry)
  pub policy : P
  pub generation : ℕ
  pub pending_policy : Option (PendingPolicy P)
  pub phase : WorkerPhase
  pub effective_rng_seed : ℕ
  pub height : Option ℕ
  pub next_scheduled_attempt_ms : Option ℕ
  pub last_mined_block : Option LastMinedBlock
  pub in_flight : Bool
  pub last_error : Option String
  pub started : ℕ
  pub requests : Requests CommandAck

-- instants in milliseconds
abbrev pub safe_point_timeout : ℕ
safe_point_timeout = 30 * 1000

abbrev pub u64_max : ℕ
u64_max = 2 ^ 64 - 1

-- `now_ms().saturating_add(ttl_secs.saturating_mul(1000))`
abbrev pub expires_at : Clock → ℕ → ℕ
expires_at clock ttl_secs = min (clock.now_ms + min (ttl_secs * 1000) u64_max) u64_max

abbrev pub is_empty {ℓ} : {A : Type ℓ} → List A → Bool
is_empty [] = true
is_empty (x ∷ xs) = false

-- the shortest time to a lease's deadline, 60 seconds where there is none
shortest : Clock → List (String × LeaseEntry) → Option ℕ
shortest clock [] = none
shortest clock ((id, lease) ∷ leases) = elim (shortest clock leases) [
  | none ↦ some (lease.deadline - clock.now)
  | some t ↦ some (min (lease.deadline - clock.now) t)
]

module _ {P : Type 0} where
  -- `MiningControl::new`
  pub new_inner : P → (seed started : ℕ) → Inner P
  new_inner initial_policy seed started = record {
    desired_state = DesiredState.running;
    leases = [];
    policy = initial_policy;
    generation = 0;
    pending_policy = none;
    phase = WorkerPhase.bootstrapping;
    effective_rng_seed = seed;
    height = none;
    next_scheduled_attempt_ms = none;
    last_mined_block = none;
    in_flight = false;
    last_error = none;
    started = started;
    requests = no_requests;
  }

  abbrev pub pause_requested : Inner P → Bool
  pause_requested inner = is_paused_state inner.desired_state || not (is_empty inner.leases)

  abbrev pub is_effectively_paused : Inner P → Bool
  is_effectively_paused inner = is_paused_phase inner.phase && not inner.in_flight

  unfoldable pub expire_leases : Clock → Inner P → Inner P
  expire_leases clock inner = record inner {
    leases = retain (λ lease. ltb clock.now lease.deadline) inner.leases;
  }

  -- `entropy` is what `entropy_seed()` returns, should the policy have no seed
  unfoldable pub apply_pending_policy : PolicyOps P → (entropy : ℕ) → Inner P → Inner P
  apply_pending_policy ops entropy inner = elim inner.pending_policy [
    | none ↦ inner
    | some pending ↦ record inner {
      pending_policy = none;
      policy = pending.policy;
      generation = pending.generation;
      effective_rng_seed = unwrap_or (ops.rng_seed pending.policy) entropy;
    }
  ]

  unfoldable pub time_until_lease_expiry : Clock → Inner P → ℕ
  unfolding shortest
  time_until_lease_expiry clock inner = max (unwrap_or (shortest clock inner.leases) 60000) 1

  abbrev pub ack_of : Inner P → String → CommandAck
  ack_of inner request_id = record {
    request_id = request_id;
    phase = inner.phase;
    effective_generation = inner.generation;
  }
