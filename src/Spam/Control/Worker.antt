-- ===== src/Spam/Control/Worker.antt =====
-- crates/spammer/src/control.rs: what the spam worker calls. A call that waits is a function for
-- one turn of its loop, whose result says whether it returns.
use simchain.Base.{
  ℕ, ◌+◌, ◌||◌, not, Bool, true, false, String, Option, none, some, min, nat_eq, is_some,
  if◌then◌else◌, Result, ok, err, ◌&&◌,
}
use simchain.Api.{WorkerPhase}
use simchain.Mining.Control.{Clock, PendingPolicy, u64_max}
use simchain.Spam.Control.{
  SpamOps, SpamCapacityStatus, Inner, pause_requested, expire_leases, work_interrupted,
}

-- The impact of a policy is left to the runner: it depends on the two policies alone.
pub data SafePointAction (P : Type 0) : Type 0 where
  initialize : (generation : ℕ) (policy : P) → SafePointAction P
  apply_policy : (generation : ℕ) (policy : P) → SafePointAction P
  reconcile : SafePointAction P
  ready : (generation : ℕ) (policy : P) → SafePointAction P

pub data WorkerWait : Type 0 where
  wait_ready wait_interrupted : WorkerWait

module _ {P : Type 0} (ops : SpamOps P) where
  -- the worker takes an action that keeps it busy
  abbrev pub busy_with : WorkerPhase → String → Inner P → Inner P
  busy_with phase cycle_phase inner = record inner {
    in_flight = true;
    phase = phase;
    cycle_phase = some cycle_phase;
  }

  -- the loop of `safe_point` where no policy is pending
  unfoldable pub without_policy : Inner P → Inner P × Option (SafePointAction P)
  without_policy inner =
      if pause_requested inner
      then (record inner { phase = WorkerPhase.paused; cycle_phase = none }, none)
      else if inner.initialization_pending
      then (
        busy_with WorkerPhase.initializing "initializing_engine" inner,
        some (initialize inner.generation inner.policy),
      )
      else if inner.reconciliation_pending && ops.enabled inner.policy
      then (busy_with WorkerPhase.reconciling "reconciling_engine" inner, some reconcile)
      else if not (ops.enabled inner.policy)
      then (record inner { phase = WorkerPhase.disabled; cycle_phase = none }, none)
      else (
        record inner { phase = WorkerPhase.active; cycle_phase = some "waiting_for_block" },
        some (ready inner.generation inner.policy),
      )

  unfoldable pub safe_point_beside :
      Inner P → Option (PendingPolicy P) → Inner P × Option (SafePointAction P)
  safe_point_beside inner (some pending) = (
    busy_with WorkerPhase.active "applying_policy" inner,
    some (apply_policy pending.generation pending.policy),
  )
  safe_point_beside inner none = without_policy inner

  -- one turn of the loop of `safe_point`: `none` where it waits
  unfoldable pub safe_point : Clock → Inner P → Inner P × Option (SafePointAction P)
  safe_point clock inner =
      let live = expire_leases clock inner in safe_point_beside live live.pending_policy

  -- the phase after work that succeeded
  abbrev pub settled : WorkerPhase → Inner P → WorkerPhase
  settled phase inner = if pause_requested inner then WorkerPhase.paused else phase

  abbrev pub idle : Inner P → Inner P
  idle inner = record inner { in_flight = false; cycle_phase = none }

  unfoldable pub complete_initialization : Result String (Unit {0}) → Inner P → Inner P
  complete_initialization (ok _) inner = record (idle inner) {
    initialization_pending = false;
    last_error = none;
    phase = settled WorkerPhase.active inner;
  }
  complete_initialization (err e) inner = record (idle inner) {
    last_error = some e;
    phase = WorkerPhase.error;
  }

  unfoldable pub record_recovery : String → Inner P → Inner P
  record_recovery reason inner = record inner {
    reconciliation_count = min (inner.reconciliation_count + 1) u64_max;
    last_reconciliation_reason = some reason;
  }

  unfoldable pub report_capacity : SpamCapacityStatus → Inner P → Inner P
  report_capacity capacity inner = record inner { capacity = some capacity }

  unfoldable pub complete_pending :
      PendingPolicy P → Result String (Unit {0}) → (engine_available : Bool) → Inner P → Inner P
  complete_pending pending (ok _) engine_available inner = record (idle inner) {
    pending_policy = none;
    policy = pending.policy;
    generation = pending.generation;
    initialization_pending = false;
    policy_failure = none;
    last_error = none;
    phase =
        settled (if ops.enabled pending.policy then WorkerPhase.active else WorkerPhase.disabled)
          inner;
  }
  complete_pending pending (err message) engine_available inner = record (idle inner) {
    pending_policy = none;
    initialization_pending = ops.enabled inner.policy && not engine_available;
    policy_failure =
        some
          (record { generation = pending.generation; policy = pending.policy; message = message });
    last_error = some message;
    phase = WorkerPhase.error;
  }

  -- `none` is the panic of `expect`, where no policy is pending
  unfoldable pub complete_policy :
      Result String (Unit {0}) → (engine_available : Bool) → Inner P → Option (Inner P)
  complete_policy result engine_available inner = elim inner.pending_policy [
    | none ↦ none
    | some pending ↦ some (complete_pending pending result engine_available inner)
  ]

  unfoldable pub complete_reconciliation : Result String (Unit {0}) → Inner P → Inner P
  complete_reconciliation (ok _) inner = record (idle inner) {
    reconciliation_pending = false;
    reconciliation_count = min (inner.reconciliation_count + 1) u64_max;
    last_reconciliation_reason = inner.reconciliation_reason;
    reconciliation_reason = none;
    last_error = none;
    phase = settled WorkerPhase.active inner;
  }
  complete_reconciliation (err e) inner = record (idle inner) {
    last_error = some e;
    phase = WorkerPhase.error;
  }

  unfoldable pub begin_cycle : Clock → (generation height : ℕ) → Inner P → Inner P × Bool
  begin_cycle clock generation height inner =
      let live = expire_leases clock inner in
      if work_interrupted ops generation live then (live, false) else (
        record live {
          in_flight = true;
          observed_height = some height;
          phase = WorkerPhase.active;
          cycle_phase = some "cycle_start";
        },
        true,
      )

  abbrev pub stopped_by : (generation : ℕ) → Inner P → Bool
  stopped_by generation inner =
      pause_requested inner
      || is_some inner.pending_policy
      || inner.reconciliation_pending
      || not (nat_eq inner.generation generation)
      || not (ops.enabled inner.policy)

  unfoldable pub cycle_checkpoint :
      Clock → (generation : ℕ) → (phase : String) → Inner P → Inner P × Bool
  cycle_checkpoint clock generation phase inner =
      let shown = record (expire_leases clock inner) { cycle_phase = some phase } in
      if stopped_by generation shown
      then (
        record shown {
          phase =
              if pause_requested shown
              then WorkerPhase.pausing
              else if shown.reconciliation_pending
              then WorkerPhase.reconciling
              else WorkerPhase.active;
        },
        false,
      )
      else (shown, true)

  unfoldable pub finish_cycle : (height accepted duration_ms : ℕ) → Inner P → Inner P
  finish_cycle height accepted duration_ms inner = record (idle inner) {
    observed_height = some height;
    accepted_transactions = min (inner.accepted_transactions + accepted) u64_max;
    last_cycle_duration_ms = some (min duration_ms u64_max);
    phase =
        if pause_requested inner
        then WorkerPhase.paused
        else if inner.reconciliation_pending
        then WorkerPhase.reconciling
        else if is_some inner.pending_policy || ops.enabled inner.policy
        then WorkerPhase.active
        else WorkerPhase.disabled;
  }

  unfoldable pub record_error : String → Inner P → Inner P
  record_error message inner = record inner { last_error = some message }

  -- each of the two readings in `wait_for_block_poll`
  unfoldable pub wait_for_block_poll : Clock → (generation : ℕ) → Inner P → Inner P × WorkerWait
  wait_for_block_poll clock generation inner =
      let live = expire_leases clock inner in
      (live, if work_interrupted ops generation live then wait_interrupted else wait_ready)
