-- ===== src/Scenario/Sleep.antt =====
-- crates/scenario-engine/src/engine.rs: the loop of `Step::Sleep` ends at its deadline.
use simchain.Base.{
  ℕ, zero, suc, ◌+◌, ◌-◌, ◌*◌, ◌≤◌, ◌<◌, min, true, String, ◌≡◌, ◌⊎◌, inl, inr, refl, ap, arith,
  ltb→lt, Bool-cases, ltb, Result, ok,
}
use simchain.Scenario.Engine.{Json, ScenarioActions, ScenarioControl, sleep_until, sleep_for}

-- a clock that does not go back, and a sleep that lasts as long as it was asked to
pub record KeepsTime {V World : Type 0} (control : ScenarioControl V World) : Type 0 where
  pub asking : (w : World) → control.now w ≤ control.now (control.abort_requested w).1
  pub sleeping : (d : ℕ) (w : World) → control.now w + d ≤ control.now (control.thread_sleep d w)

module _ {F V World : Type 0} (json : Json F V) (actions : ScenarioActions F V World)
    (control : ScenarioControl V World) where
  -- the sleep has lasted until the deadline, or an abort was seen, at some world before it
  abbrev pub SleepsTo : (secs deadline : ℕ) → Result String V × World → Type 0
  SleepsTo secs deadline done =
      ((done.0 ≡ ok (json.slept_secs secs)) × (deadline ≤ control.now done.1))
      ⊎ ((done.0 ≡ ok json.aborted_during_sleep)
          × ((seen : World) × (control.now seen < deadline)
              × (control.abort_requested seen ≡ (true, done.1))))

  sleep_until-SleepsTo :
      (rounds secs deadline : ℕ) (w : World)
      → KeepsTime control
      → deadline ≤ control.now w + rounds
      → SleepsTo secs deadline (sleep_until json actions control rounds secs deadline w)
  unfolding sleep_until
  sleep_until-SleepsTo zero secs deadline w k h = inl (refl, omega (arith, h))
  sleep_until-SleepsTo (suc rounds) secs deadline w k h =
      let asked = control.abort_requested w in
      elim (Bool-cases (ltb (control.now w) deadline)) [
        | inr q ↦ rw (q, sleep_until) (inl (refl, ground arith))
        | inl q ↦ elim (Bool-cases asked.0) [
          | inl a ↦
              rw (q, a, sleep_until)
                (inr (refl, (w, ltb→lt (control.now w) deadline q, ap (λ b. (b, asked.1)) a)))
          | inr a ↦
              let d = min (deadline - control.now asked.1) 100 in
              let e = k.asking w in
              let s = k.sleeping d asked.1 in
              rw (q, a, sleep_until)
                (sleep_until-SleepsTo rounds secs deadline (control.thread_sleep d asked.1) k
                  (omega (arith, h, s, e)))
        ]
      ]

  -- If the clock does not go back and a sleep of the thread lasts as long as it was asked to, a step
  -- that sleeps says so only once its seconds are over, and otherwise answers that it was aborted, by
  -- a request that was seen before: the bound on its rounds is never what ends it.
  pub sleep_for_lem :
      (secs : ℕ) (w : World)
      → KeepsTime control
      → SleepsTo secs (control.now w + secs * 1000) (sleep_for json actions control secs w)
  unfolding sleep_for
  sleep_for_lem secs w k =
      sleep_until-SleepsTo (suc (secs * 1000)) secs (control.now w + secs * 1000) w k (omega arith)
