-- ===== src/Mining/Control/Worker.antt =====
-- crates/mining-controller/src/control.rs: what the mining loop calls, one function for each time
-- that it holds the lock. A call that waits is a function for one turn of its loop, whose result
-- says whether it returns.
use simchain.Base.{
  ℕ, ◌+◌, ◌||◌, not, Bool, true, false, String, Option, none, some, leb, min, nat_eq, is_some,
  if◌then◌else◌,
}
use simchain.Api.{WorkerPhase, LastMinedBlock}
use simchain.Mining.Rng.{Rng}
use simchain.Mining.Rng
use simchain.Mining.Control.{
  PolicyOps, Clock, Inner, u64_max, pause_requested, expire_leases, apply_pending_policy,
}

-- what `wait_interval` answers
pub data IntervalWait : Type 0 where
  ready interrupted : IntervalWait

-- the scheduler's own variables
pub record Scheduler : Type 0 where
  pub rng : Rng
  pub toggle : Bool
  pub observed_generation : ℕ

module _ {P : Type 0} where
  abbrev pub pause_now : Inner P → Inner P
  pause_now inner = record inner { phase = WorkerPhase.paused; next_scheduled_attempt_ms = none }

  -- One turn of `bootstrap_safe_point`: `true` is its return. The height is set at the call.
  unfoldable pub bootstrap_turn : PolicyOps P → Clock → (entropy : ℕ) → Inner P → Inner P × Bool
  unfolding apply_pending_policy expire_leases
  bootstrap_turn ops clock entropy inner =
      let current = expire_leases clock (apply_pending_policy ops entropy inner) in
      if pause_requested current
      then (pause_now current, false)
      else (record current { phase = WorkerPhase.bootstrapping }, true)

  unfoldable pub bootstrap_safe_point :
      PolicyOps P → Clock → (entropy height : ℕ) → Inner P → Inner P × Bool
  unfolding bootstrap_turn
  bootstrap_safe_point ops clock entropy height inner =
      bootstrap_turn ops clock entropy (record inner { height = some height })

  -- a policy of another generation restarts the stream and the alternation
  unfoldable pub observe : Inner P → Scheduler → Scheduler
  observe inner s = if nat_eq inner.generation s.observed_generation then s else record {
    rng = Rng.new inner.effective_rng_seed;
    toggle = true;
    observed_generation = inner.generation;
  }

  -- One turn of `mining_safe_point`: its result is the policy, `none` where it waits.
  unfoldable pub mining_safe_point :
      PolicyOps P → Clock → (entropy : ℕ) → Scheduler → Inner P → Inner P × (Scheduler × Option P)
  unfolding observe expire_leases apply_pending_policy
  mining_safe_point ops clock entropy s inner =
      let current = apply_pending_policy ops entropy (expire_leases clock inner) in
      if pause_requested current then (pause_now current, (observe current s, none)) else (
        record current { phase = WorkerPhase.running },
        (observe current s, some current.policy),
      )

  -- the request or the policy that stops a round
  abbrev pub must_yield : (generation : ℕ) → Inner P → Bool
  must_yield generation inner =
      pause_requested inner
      || is_some inner.pending_policy
      || not (nat_eq inner.generation generation)

  unfoldable pub begin_generate : Clock → (generation : ℕ) → Inner P → Inner P × Bool
  unfolding expire_leases
  begin_generate clock generation inner =
      let live = expire_leases clock inner in
      if must_yield generation live
      then (live, false)
      else (record live { in_flight = true; next_scheduled_attempt_ms = none }, true)

  -- the fields that a mined block sets
  abbrev pub note_mined : Option LastMinedBlock → Inner P → Inner P
  note_mined none inner = inner
  note_mined (some mined) inner = record inner { last_mined_block = some mined; last_error = none }

  abbrev pub note_height : Option ℕ → Inner P → Inner P
  note_height none inner = inner
  note_height (some h) inner = record inner { height = some h }

  unfoldable pub finish_generate : Option LastMinedBlock → Option ℕ → Inner P → Inner P
  finish_generate mined height inner =
      let landed = note_height height (note_mined mined (record inner { in_flight = false })) in
      record landed {
        phase = if pause_requested landed then WorkerPhase.paused else WorkerPhase.running;
      }

  unfoldable pub record_error : String → Inner P → Inner P
  record_error message inner = record inner { last_error = some message }

  -- One turn of `wait_interval` after its first assignment: `none` where it waits on.
  unfoldable pub wait_turn :
      Clock → (deadline generation : ℕ) → Inner P → Inner P × Option IntervalWait
  unfolding expire_leases
  wait_turn clock deadline generation inner =
      let live = expire_leases clock inner in
      if must_yield generation live
      then (record live { next_scheduled_attempt_ms = none }, some interrupted)
      else if leb deadline clock.now
      then (record live { next_scheduled_attempt_ms = none }, some ready)
      else (live, none)

  unfoldable pub wait_interval :
      Clock → (duration generation : ℕ) → Inner P → Inner P × Option IntervalWait
  unfolding wait_turn
  wait_interval clock duration generation inner =
      wait_turn clock (clock.now + duration) generation
        (record inner { next_scheduled_attempt_ms = some (min (clock.now_ms + duration) u64_max) })
