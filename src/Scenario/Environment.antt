-- ===== src/Scenario/Environment.antt =====
-- crates/scenario-engine/src/schema.rs: `resolve_env_values`, which replaces the variables that a
-- scenario names. A resolution that fails leaves no scenario to go on with.
use Prim.Native.Char.{code}
use simchain.Base.{
  Bool, true, false, ◌&&◌, String, Option, none, some, List, [], ◌∷◌, if◌then◌else◌, Result, ok,
  err, ok_or, ensure, not, ◌>>=◌, ◌>>◌,
}
use simchain.Base.Text.{is_whitespace}
use simchain.Scenario.Schema.{WaitTxStep, FaucetScenarioOutput, Step, wait_tx, faucet, Scenario}
use simchain.Scenario.Validate.{LossTests, ScenarioError, validate}

pub data ResolveError : Type 0 where
  not_set : (env : String) → ResolveError
  is_empty : (env : String) → ResolveError
  invalid : ScenarioError → ResolveError

abbrev is_end : String → Bool
is_end String.[] = true
is_end (String.◌∷◌ c s) = false

unfoldable pub trim_left : String → String
trim_left String.[] = ""
trim_left (String.◌∷◌ c s) = if is_whitespace (code c) then trim_left s else String.◌∷◌ c s

unfoldable pub trim_right : String → String
trim_right String.[] = ""
trim_right (String.◌∷◌ c s) =
    let rest = trim_right s in
    if is_end rest && is_whitespace (code c) then "" else String.◌∷◌ c rest

-- `trim().to_string()`
abbrev pub trim : String → String
trim s = trim_right (trim_left s)

-- the check that the resolution ends with
abbrev pub checked : {F : Type 0} → LossTests F → Scenario F → Result ResolveError (Scenario F)
checked loss scenario = elim (validate loss scenario) [
  | err e ↦ err (invalid e)
  | ok _ ↦ ok scenario
]

-- `std::env::var` is a parameter
module _ (var : String → Option String) where
  unfoldable pub read_env : String → Result ResolveError String
  read_env env = ok_or (var env) (not_set env) >>= λ value.
      ensure (not (is_end (trim value))) (is_empty env) >> ok (trim value)

  unfoldable pub resolve_output : FaucetScenarioOutput → Result ResolveError FaucetScenarioOutput
  resolve_output output = elim output.address_env [
    | none ↦ ok output
    | some env ↦ read_env env >>= λ address.
        ok (record output { address = some address; address_env = none })
  ]

  unfoldable pub resolve_outputs :
      List FaucetScenarioOutput → Result ResolveError (List FaucetScenarioOutput)
  resolve_outputs [] = ok []
  resolve_outputs (output ∷ outputs) = resolve_output output >>= λ output'.
      resolve_outputs outputs >>= λ outputs'. ok (output' ∷ outputs')

  unfoldable pub resolve_wait : WaitTxStep → Result ResolveError WaitTxStep
  resolve_wait wait = elim wait.txid_env [
    | none ↦ ok wait
    | some env ↦ read_env env >>= λ txid. ok (record wait { txid = some txid; txid_env = none })
  ]

  unfoldable pub resolve_step : {F : Type 0} → Step F → Result ResolveError (Step F)
  resolve_step (faucet source outputs wait_confirmed timeout_secs) =
      resolve_outputs outputs >>= λ outputs'.
      ok (faucet source outputs' wait_confirmed timeout_secs)
  resolve_step (wait_tx wait) = resolve_wait wait >>= λ wait'. ok (wait_tx wait')
  resolve_step step = ok step

  unfoldable pub resolve_steps : {F : Type 0} → List (Step F) → Result ResolveError (List (Step F))
  resolve_steps [] = ok []
  resolve_steps (step ∷ steps) =
      resolve_step step >>= λ step'. resolve_steps steps >>= λ steps'. ok (step' ∷ steps')

  unfoldable pub resolve_env_values :
      {F : Type 0} → LossTests F → Scenario F → Result ResolveError (Scenario F)
  resolve_env_values loss scenario =
      resolve_steps scenario.steps >>= λ steps. checked loss (record scenario { steps = steps })

  unfoldable pub resolve_step_address : {F : Type 0} → Step F → Result ResolveError (Step F)
  resolve_step_address (faucet source outputs wait_confirmed timeout_secs) =
      resolve_outputs outputs >>= λ outputs'.
      ok (faucet source outputs' wait_confirmed timeout_secs)
  resolve_step_address step = ok step

  -- `resolve_env_addresses`, which leaves the transactions to wait for
  unfoldable pub resolve_addresses :
      {F : Type 0} → List (Step F) → Result ResolveError (List (Step F))
  resolve_addresses [] = ok []
  resolve_addresses (step ∷ steps) = resolve_step_address step >>= λ step'.
      resolve_addresses steps >>= λ steps'. ok (step' ∷ steps')

  unfoldable pub resolve_env_addresses :
      {F : Type 0} → LossTests F → Scenario F → Result ResolveError (Scenario F)
  resolve_env_addresses loss scenario =
      resolve_addresses scenario.steps >>= λ steps. checked loss (record scenario { steps = steps })
