-- ===== src/Scenario/Run.antt =====
-- crates/scenario-engine/src/engine.rs: `run`.
use simchain.Base.{
  ℕ, suc, ◌+◌, Bool, true, false, not, ◌&&◌, String, Option, none, some, List, [], ◌∷◌, nat_eq,
  if◌then◌else◌, length, Result, ok, err, is_some,
}
use simchain.Scenario.Schema.{Step, Scenario, kind}
use simchain.Scenario.Engine.{
  Phase, step_started, step_completed, step_failed, abort_observed, Message, abort_at_boundary,
  starting, completed, abort_after_action, failed, no_summary, Progress, StepResult, ScenarioResult,
  Json, ScenarioActions, ScenarioControl, elapsed_ms, execute_step,
}

-- what the loop over the steps leaves: the step results and the observations in order
pub record Loop (V World : Type 0) : Type 0 where
  pub world : World
  pub observed : List (Progress V)
  pub steps : List StepResult
  pub error : Option Message
  pub aborted : Bool

abbrev pub succeeded : (index : ℕ) (kind : String) (duration_ms : ℕ) → StepResult
succeeded index kind duration_ms = record {
  index = index;
  kind_of = kind;
  duration_ms = duration_ms;
  success = true;
  error = none;
}

abbrev pub failed_with : (index : ℕ) (kind : String) (duration_ms : ℕ) → Message → StepResult
failed_with index kind duration_ms message = record {
  index = index;
  kind_of = kind;
  duration_ms = duration_ms;
  success = false;
  error = some message;
}

abbrev pub count_successes : List StepResult → ℕ
count_successes [] = 0
count_successes (r ∷ rs) = if r.success then suc (count_successes rs) else count_successes rs

module _ {F V World : Type 0} (json : Json F V) (actions : ScenarioActions F V World)
    (control : ScenarioControl V World) where
  abbrev pub progress :
      Phase → (step_index total_steps : ℕ) → Step F → Message → Option V → Progress V
  progress phase step_index total_steps step message value = record {
    phase = phase;
    step_index = step_index;
    total_steps = total_steps;
    step_kind = kind step;
    message = message;
    data_of = value;
  }

  abbrev pub stopped :
      World → List (Progress V) → List StepResult → Option Message → Bool → Loop V World
  stopped w observed steps error aborted = record {
    world = w;
    observed = observed;
    steps = steps;
    error = error;
    aborted = aborted;
  }

  unfoldable pub run_steps : (total zero_index : ℕ) → List (Step F) → World → Loop V World
  run_steps total zero_index [] w = stopped w [] [] none false
  run_steps total zero_index (step ∷ steps) w =
      let i = zero_index + 1 in
      let (abort, w1) = control.abort_requested w in
      let at_boundary = progress abort_observed i total step abort_at_boundary none in
      elim abort [
        | true ↦ stopped (control.observe at_boundary w1) (at_boundary ∷ []) [] none true
        | false ↦
            let start =
              progress step_started i total step (starting i total (kind step))
                (json.of_step step) in
            let w2 = control.observe start w1 in
            let (outcome, w3) = execute_step json actions control step i w2 in
            let duration_ms = elapsed_ms json actions control (control.now w2) w3 in
            elim outcome [
              | err source ↦
                  let message = failed i total (kind step) source in
                  let end = progress step_failed i total step message none in
                  stopped (control.observe end w3) (start ∷ end ∷ [])
                    (failed_with i (kind step) duration_ms message ∷ []) (some message) false
              | ok value ↦
                  let end =
                    progress step_completed i total step (completed i total (kind step))
                      (some value) in
                  let result = succeeded i (kind step) duration_ms in
                  let (abort', w4) = control.abort_requested (control.observe end w3) in
                  let after_action = progress abort_observed i total step abort_after_action none in
                  elim abort' [
                    | true ↦
                        stopped (control.observe after_action w4) (start ∷ end ∷ after_action ∷ [])
                          (result ∷ []) none true
                    | false ↦
                        let rest = run_steps total i steps w4 in
                        stopped rest.world (start ∷ end ∷ rest.observed) (result ∷ rest.steps)
                          rest.error rest.aborted
                  ]
            ]
      ]

  -- the summary, or the error that there is none, unless something went wrong before
  abbrev pub summary_error : Result String V → Option Message → (aborted : Bool) → Option Message
  summary_error (ok summary) error aborted = error
  summary_error (err source) error aborted =
      if not (is_some error) && not aborted then some (no_summary source) else error

  abbrev pub summary_of : Result String V → Option V
  summary_of (ok summary) = some summary
  summary_of (err source) = none

  -- the result, the observations and the world
  unfoldable pub run : Scenario F → World → ScenarioResult V × List (Progress V) × World
  run scenario w =
      let total = length scenario.steps in
      let loop = run_steps total 0 scenario.steps w in
      let (summary, w') = actions.live_summary loop.world in
      let error = summary_error summary loop.error loop.aborted in
      (
        record {
          success = not (is_some error) && not loop.aborted && nat_eq (length loop.steps) total;
          aborted = loop.aborted;
          executed_steps = count_successes loop.steps;
          total_steps = total;
          duration_ms = elapsed_ms json actions control (control.now w) w';
          steps = loop.steps;
          final_summary = summary_of summary;
          error = error;
        },
        loop.observed,
        w',
      )
