-- ===== src/Mining/Control/Pause/Turns.antt =====
-- crates/mining-controller/src/control.rs: the turns of the worker, while a pause is requested.
use simchain.Base.{
  ℕ, true, false, not, Option, none, some, ◌≡◌, refl, arith, if-intro, Option-cases, inl, inr, leb,
  if◌then◌else◌, Bool-cases,
}
use simchain.Api.{WorkerPhase, LastMinedBlock}
use simchain.Mining.Control.{
  PolicyOps, Clock, Inner, expire_leases, is_effectively_paused, pause_requested,
  apply_pending_policy,
}
use simchain.Mining.Control.Worker.{
  Scheduler, bootstrap_turn, mining_safe_point, begin_generate, observe, finish_generate, wait_turn,
  note_mined, note_height, pause_now, must_yield, ready, interrupted,
}

module _ {P : Type 0} where
  -- a pause that is requested at the end of a turn is in effect there
  abbrev pub Holds : Inner P → Type 0
  Holds after = pause_requested after ≡ true → is_effectively_paused after ≡ true

  no_pause : (after : Inner P) → pause_requested after ≡ false → Holds after
  no_pause after n r = cc

  idle : (inner : Inner P) → is_effectively_paused inner ≡ true → not inner.in_flight ≡ true
  idle inner h = ground arith

  apply_pending-idle :
      (ops : PolicyOps P) (entropy : ℕ) (inner : Inner P)
      → not inner.in_flight ≡ true
      → not (apply_pending_policy ops entropy inner).in_flight ≡ true
  unfolding apply_pending_policy
  apply_pending-idle ops entropy inner h = elim (Option-cases inner.pending_policy) [
    | inl n ↦ rw (apply_pending_policy, n) h
    | inr (c, n) ↦ rw (apply_pending_policy, n) h
  ]

  abbrev HoldsIn : {B : Type 0} → Inner P × B → Type 0
  HoldsIn out = Holds out.0

  -- the test that a safe point ends in, on either side
  safe_point-Holds :
      {B : Type 0} (current : Inner P) (phase : WorkerPhase) (waiting returned : B)
      → not current.in_flight ≡ true
      → HoldsIn (
          if pause_requested current
          then (pause_now current, waiting)
          else (record current { phase = phase }, returned))
  safe_point-Holds current phase waiting returned i =
      if-intro HoldsIn (pause_requested current) (pause_now current, waiting)
        (record current { phase = phase }, returned) (λ _. λ _. i)
        (λ n. no_pause (record current { phase = phase }) n)

  landed-idle :
      (mined : Option LastMinedBlock) (height : Option ℕ) (inner : Inner P)
      → not inner.in_flight ≡ true
      → not (note_height height (note_mined mined inner)).in_flight ≡ true
  landed-idle none none inner h = h
  landed-idle none (some _) inner h = h
  landed-idle (some _) none inner h = h
  landed-idle (some _) (some _) inner h = h

  must_yield-false :
      (generation : ℕ) (inner : Inner P)
      → must_yield generation inner ≡ false
      → pause_requested inner ≡ false
  must_yield-false generation inner n = ground arith

  pub finish_generate-Holds :
      (mined : Option LastMinedBlock) (height : Option ℕ) (inner : Inner P)
      → Holds (finish_generate mined height inner)
  unfolding finish_generate
  finish_generate-Holds mined height inner =
      let landed = note_height height (note_mined mined (record inner { in_flight = false })) in
      let idle_then = landed-idle mined height (record inner { in_flight = false }) refl in
      elim (Bool-cases (pause_requested landed)) [
        | inl t ↦ λ _. rw (t) idle_then
        | inr f ↦ λ r. absurd (cc)
      ]

module _ {P : Type 0} (clock : Clock) where
  pub bootstrap_turn-Holds :
      (ops : PolicyOps P) (entropy : ℕ) (inner : Inner P)
      → is_effectively_paused inner ≡ true
      → Holds (bootstrap_turn ops clock entropy inner).0
  unfolding bootstrap_turn expire_leases
  bootstrap_turn-Holds ops entropy inner h =
      safe_point-Holds (expire_leases clock (apply_pending_policy ops entropy inner))
        WorkerPhase.bootstrapping false true (apply_pending-idle ops entropy inner (idle inner h))

  pub mining_safe_point-rests :
      (ops : PolicyOps P) (entropy : ℕ) (s : Scheduler) (inner : Inner P)
      → not inner.in_flight ≡ true
      → Holds (mining_safe_point ops clock entropy s inner).0
  unfolding mining_safe_point expire_leases
  mining_safe_point-rests ops entropy s inner i =
      let current = apply_pending_policy ops entropy (expire_leases clock inner) in
      safe_point-Holds {B = Scheduler × Option P} current WorkerPhase.running
        (observe current s, none) (observe current s, some current.policy)
        (apply_pending-idle ops entropy (expire_leases clock inner) i)

  pub mining_safe_point-Holds :
      (ops : PolicyOps P) (entropy : ℕ) (s : Scheduler) (inner : Inner P)
      → is_effectively_paused inner ≡ true
      → Holds (mining_safe_point ops clock entropy s inner).0
  mining_safe_point-Holds ops entropy s inner h =
      mining_safe_point-rests ops entropy s inner (idle inner h)

  pub begin_generate-Holds :
      (generation : ℕ) (inner : Inner P)
      → is_effectively_paused inner ≡ true
      → Holds (begin_generate clock generation inner).0
  unfolding begin_generate expire_leases
  begin_generate-Holds generation inner h =
      let live = expire_leases clock inner in
      if-intro HoldsIn (must_yield generation live) (live, false)
        (record live { in_flight = true; next_scheduled_attempt_ms = none }, true) (λ _. λ _. h)
        (λ n.
          no_pause (record live { in_flight = true; next_scheduled_attempt_ms = none })
            (must_yield-false generation live n))

  pub wait_turn-Holds :
      (deadline generation : ℕ) (inner : Inner P)
      → is_effectively_paused inner ≡ true
      → Holds (wait_turn clock deadline generation inner).0
  unfolding wait_turn expire_leases
  wait_turn-Holds deadline generation inner h =
      let live = expire_leases clock inner in
      let over = record live { next_scheduled_attempt_ms = none } in
      if-intro HoldsIn (must_yield generation live) (over, some interrupted)
        (if leb deadline clock.now then (over, some ready) else (live, none)) (λ _. λ _. h)
        (λ _.
          if-intro HoldsIn (leb deadline clock.now) (over, some ready) (live, none) (λ _. λ _. h)
            (λ _. λ _. h))
