-- ===== src/Scenario/Story.antt =====
-- crates/scenario-engine/src/engine.rs: what a run reports and what it lets the observer see is one
-- story, that begins with the first step and goes on while the steps succeed.
use simchain.Base.{
  ℕ, suc, ◌+◌, Bool, true, false, not, ◌&&◌, String, Option, none, some, List, [], ◌∷◌, ◌≡◌, ◌⊎◌,
  ◌↔◌, ◌∙◌, sym, inl, inr, refl, ap, arith, Bool-cases, Result-cases, nat_eq, length, Result, ok,
  err, is_some,
}
use simchain.Scenario.Schema.{Step, Scenario, kind}
use simchain.Scenario.Engine.{
  Phase, step_started, step_completed, step_failed, abort_observed, Message, starting, completed,
  failed, no_summary, Progress, StepResult, Json, ScenarioActions, ScenarioControl, execute_step,
}
use simchain.Scenario.Run.{
  Loop, succeeded, failed_with, count_successes, progress, run_steps, summary_error, run,
}

abbrev pub phases : {V : Type 0} → List (Progress V) → List (Phase × ℕ)
phases [] = []
phases (p ∷ ps) = (p.phase, p.step_index) ∷ phases ps

module _ {F V World : Type 0} (json : Json F V) (actions : ScenarioActions F V World)
    (control : ScenarioControl V World) (total : ℕ) where
  -- what a step after the first `done` ones answers and leaves, in the world that its start is
  -- observed in
  abbrev pub answered : (done : ℕ) → Step F → World → Result String V × World
  answered done step w =
      let start =
        progress json actions control step_started (done + 1) total step
          (starting (done + 1) total (kind step)) (json.of_step step) in
      execute_step json actions control step (done + 1)
        (control.observe start (control.abort_requested w).1)

  -- whether an abort is requested once the step has succeeded with a value, and the world after that
  abbrev pub asked_after : (done : ℕ) → Step F → V → World → Bool × World
  asked_after done step value w =
      let end =
        progress json actions control step_completed (done + 1) total step
          (completed (done + 1) total (kind step)) (some value) in
      control.abort_requested (control.observe end (answered done step w).1)

  -- from the steps after the first `done` ones and the world before them: the results, the error,
  -- whether an abort was observed, and the phases observed, each with the number of its step
  pub data Story
      : (done : ℕ)
        → List (Step F)
        → World
        → List StepResult
        → Option Message
        → Bool
        → List (Phase × ℕ)
        → Type 0 where
    finishes : {done : ℕ} {w : World} → Story done [] w [] none false []
    aborts_before :
        {done : ℕ} {step : Step F} {steps : List (Step F)} {w : World}
        → (control.abort_requested w).0 ≡ true
        → Story done (step ∷ steps) w [] none true ((abort_observed, done + 1) ∷ [])
    fails :
        {done : ℕ} {step : Step F} {steps : List (Step F)} {w : World} (duration : ℕ)
        (source : String)
        → (control.abort_requested w).0 ≡ false
        → (answered done step w).0 ≡ err source
        → Story done
            (step ∷ steps)
            w
            (failed_with
                (done + 1)
                (kind step)
                duration
                (failed (done + 1) total (kind step) source)
              ∷ [])
            (some (failed (done + 1) total (kind step) source))
            false
            ((step_started, done + 1) ∷ (step_failed, done + 1) ∷ [])
    aborts_after :
        {done : ℕ} {step : Step F} {steps : List (Step F)} {w : World} (duration : ℕ) (value : V)
        → (control.abort_requested w).0 ≡ false
        → (answered done step w).0 ≡ ok value
        → (asked_after done step value w).0 ≡ true
        → Story done (step ∷ steps) w (succeeded (done + 1) (kind step) duration ∷ []) none true (
            (step_started, done + 1) ∷ (step_completed, done + 1) ∷ (abort_observed, done + 1) ∷ [])
    goes_on :
        {done : ℕ} {step : Step F} {steps : List (Step F)} {w : World} {results : List StepResult}
        {error : Option Message} {aborted : Bool} {seen : List (Phase × ℕ)} (duration : ℕ)
        (value : V)
        → (control.abort_requested w).0 ≡ false
        → (answered done step w).0 ≡ ok value
        → (asked_after done step value w).0 ≡ false
        → Story (done + 1) steps (asked_after done step value w).1 results error aborted seen
        → Story done
            (step ∷ steps)
            w
            (succeeded (done + 1) (kind step) duration ∷ results)
            error
            aborted
            ((step_started, done + 1) ∷ (step_completed, done + 1) ∷ seen)

  abbrev Tells : ℕ → List (Step F) → World → Loop V World → Type 0
  Tells done steps w loop =
      Story done steps w loop.steps loop.error loop.aborted (phases loop.observed)

  run_steps-Story :
      (done : ℕ) (steps : List (Step F)) (w : World)
      → Tells done steps w (run_steps json actions control total done steps w)
  unfolding run_steps
  run_steps-Story done [] w = finishes
  run_steps-Story done (step ∷ steps) w =
      let called = answered done step w in
      elim (Bool-cases (control.abort_requested w).0) [
        | inl q ↦ rw (q, run_steps) (aborts_before q)
        | inr q ↦ elim (Result-cases called.0) [
          | inr (e, s) ↦ rw (q, s, run_steps) (fails _ e q s)
          | inl (v, s) ↦
              let again = asked_after done step v w in
              elim (Bool-cases again.0) [
                | inl t ↦ rw (q, s, t, run_steps) (aborts_after _ v q s t)
                | inr t ↦
                    rw (q, s, t, run_steps)
                      (goes_on _ v q s t (run_steps-Story (done + 1) steps again.1))
              ]
        ]
      ]

  -- a story that nothing broke off has a success for every step
  Story-whole :
      (done : ℕ) (steps : List (Step F)) (w : World) (results : List StepResult)
      (error : Option Message) (aborted : Bool) (seen : List (Phase × ℕ))
      → Story done steps w results error aborted seen
      → error ≡ none
      → aborted ≡ false
      → (length results ≡ length steps) × (count_successes results ≡ length steps)
  Story-whole done steps w results error aborted seen finishes e a = (refl, refl)
  Story-whole done steps w results error aborted seen (aborts_before q) e a = absurd (cc)
  Story-whole done steps w results error aborted seen (fails d m q s) e a = absurd (ground arith)
  Story-whole done steps w results error aborted seen (aborts_after d v q s t) e a = absurd (cc)
  Story-whole done (step ∷ steps) w (r ∷ results) error aborted seen (goes_on d v q s t story) e a =
      let (k, n) = Story-whole (done + 1) steps _ results error aborted _ story e a in
      (ap suc k, ap suc n)

  -- an abort is not an error
  Story-abort :
      (done : ℕ) (steps : List (Step F)) (w : World) (results : List StepResult)
      (error : Option Message) (aborted : Bool) (seen : List (Phase × ℕ))
      → Story done steps w results error aborted seen
      → (aborted ≡ false) ⊎ (error ≡ none)
  Story-abort done steps w results error aborted seen finishes = inl refl
  Story-abort done steps w results error aborted seen (aborts_before q) = inr refl
  Story-abort done steps w results error aborted seen (fails d m q s) = inl refl
  Story-abort done steps w results error aborted seen (aborts_after d v q s t) = inr refl
  Story-abort done steps w results error aborted seen (goes_on d v q s t story) =
      Story-abort _ _ _ _ error aborted _ story

module _ {F V World : Type 0} (json : Json F V) (actions : ScenarioActions F V World)
    (control : ScenarioControl V World) where
  -- the error of the loop is kept; another one is only that the summary of a whole run is missing
  abbrev pub ErrorOf : (loop_error : Option Message) (aborted : Bool) → Option Message → Type 0
  ErrorOf loop_error aborted error =
      (error ≡ loop_error)
      ⊎ ((loop_error ≡ none)
          × (aborted ≡ false)
          × ((source : String) × (error ≡ some (no_summary source))))

  summary_error-ErrorOf :
      (answer : Result String V) (error : Option Message) (aborted : Bool)
      → ErrorOf error aborted (summary_error json actions control answer error aborted)
  summary_error-ErrorOf (ok v) error aborted = inl refl
  summary_error-ErrorOf (err e) (some m) aborted = inl refl
  summary_error-ErrorOf (err e) none true = inl refl
  summary_error-ErrorOf (err e) none false = inr (refl, refl, (e, refl))

  ErrorOf-none :
      (loop_error : Option Message) (aborted : Bool) (error : Option Message)
      → ErrorOf loop_error aborted error
      → error ≡ none
      → loop_error ≡ none
  ErrorOf-none loop_error aborted error (inl q) h = sym q ∙ h
  ErrorOf-none loop_error aborted error (inr (l, a, s)) h = l

  ErrorOf-excludes :
      (loop_error : Option Message) (aborted : Bool) (error : Option Message)
      → (aborted ≡ false) ⊎ (loop_error ≡ none)
      → ErrorOf loop_error aborted error
      → (aborted ≡ false) ⊎ (error ≡ none)
  ErrorOf-excludes loop_error aborted error (inl a) e = inl a
  ErrorOf-excludes loop_error aborted error (inr l) (inl q) = inr (q ∙ l)
  ErrorOf-excludes loop_error aborted error (inr l) (inr (l', a, s)) = inl a

  success_iff :
      (error : Option Message) (aborted : Bool) (reported total : ℕ)
      → ((not (is_some error) && not aborted && nat_eq reported total) ≡ true)
        ↔ ((error ≡ none) × (aborted ≡ false) × (reported ≡ total))
  success_iff error aborted reported total = ground arith

  -- The result of a run tells one story with what the observer saw and what the steps and the
  -- requests for an abort answered. An abort is observed before a step exactly where one is requested
  -- then; otherwise the observer sees the step start. A step that answers an error ends the run with
  -- that error, under the number and the kind of the step, and the observer sees it fail. A step that
  -- answers a value is a success with its number and kind, and the observer sees it complete; an abort
  -- that is requested then is observed and ends the run, and otherwise the story goes on with the
  -- next step in the world that this one leaves. The error of the run is that of the failed step, or,
  -- if no step failed and nothing was aborted, that there is no summary. The run is a success exactly
  -- if there is no error and no abort, and exactly if, besides, every step of the scenario is counted
  -- as executed. An abort and an error exclude each other.
  pub run_lem :
      (scenario : Scenario F) (w : World)
      → (let (result, seen, _) = run json actions control scenario w in
          (loop_error : Option Message) × Story json actions control
            (length scenario.steps)
            0
            scenario.steps
            w
            result.steps
            loop_error
            result.aborted
            (phases seen)
          × ErrorOf loop_error result.aborted result.error
          × ((result.success ≡ true) ↔ ((result.error ≡ none) × (result.aborted ≡ false)))
          × ((result.success ≡ true) ↔ (
              (result.error ≡ none)
              × (result.aborted ≡ false)
              × (result.executed_steps ≡ length scenario.steps)))
          × ((result.aborted ≡ false) ⊎ (result.error ≡ none)))
  unfolding run
  run_lem scenario w =
      let total = length scenario.steps in
      let loop = run_steps json actions control total 0 scenario.steps w in
      let (summary, w') = actions.live_summary loop.world in
      let story = run_steps-Story json actions control total 0 scenario.steps w in
      let a = loop.aborted in
      let error = summary_error json actions control summary loop.error a in
      let e = summary_error-ErrorOf summary loop.error a in
      let s = success_iff error a (length loop.steps) total in
      let whole : (h : error ≡ none) (k : a ≡ false)
          → (length loop.steps ≡ total) × (count_successes loop.steps ≡ total) =
        λ h k.
          Story-whole json actions control total 0 scenario.steps w loop.steps loop.error a _ story
            (ErrorOf-none loop.error a error e h) k in
      (
        loop.error,
        story,
        e,
        (λ h. let (q, k, n) = s.0 h in (q, k), λ (q, k). s.1 (q, k, (whole q k).0)),
        (
          λ h. let (q, k, n) = s.0 h in (q, k, (whole q k).1),
          λ (q, k, n). s.1 (q, k, (whole q k).0),
        ),
        ErrorOf-excludes loop.error a error
            (Story-abort json actions control total _ _ _ _ loop.error a _ story) e,
      )
