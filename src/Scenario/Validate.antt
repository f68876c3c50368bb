-- ===== src/Scenario/Validate.antt =====
-- crates/scenario-engine/src/schema.rs: `Scenario::validate` with its helpers. The messages are those of
-- the source, but for what they quote.
use simchain.Base.{
  ℕ, suc, ◌+◌, Bool, true, false, not, ◌&&◌, ◌||◌, String, String-eq, Option, none, some, List, [],
  ◌∷◌, ltb, nat_eq, if◌then◌else◌, all, ◌==◌, Result, ok, err, is_some, length,
}
use simchain.Base.Text.{codes, is_blank}
use simchain.Scenario.Texts.{
  is_url_safe, is_set, if_some, is_simple_env, is_txid, ScenarioAmountError,
  parse_scenario_amount_sats,
}
use simchain.Amount.{is_nil, byte_len}
use simchain.Scenario.Schema.{
  TxWaitState, seen, mempool, confirmed, missing, CheckpointStep, WaitTxStep, WaitCondition,
  height_at_least, mempool_txs_at_least, mempool_txs_at_most, component_is, FaucetScenarioOutput,
  Step, wait_height, wait_n_blocks, wait_until, wait_tx, assert_height, assert_component, sleep,
  pause_mining, resume_mining, mine, reorg, spam_burst, set_config, assert_config, faucet,
  partition, degrade, checkpoint, Scenario, bootstrap_height, kind, has_assertions,
}

-- `== 0.0`, `is_finite` and `(0.0..=100.0).contains`
pub record LossTests (F : Type 0) : Type 0 where
  pub is_zero : F → Bool
  pub is_finite : F → Bool
  pub is_percentage : F → Bool

pub data ScenarioError : Type 0 where
  unsupported_version : (version : ℕ) → ScenarioError
  invalid_step : (number : ℕ) (kind message : String) → ScenarioError

-- the message of the first test that is met, then what comes after
abbrev pub reject : Bool → String → Option String → Option String
reject true message rest = some message
reject false message rest = rest

abbrev pub confirmations_error : TxWaitState → (confirmations : Option ℕ) → Option String
confirmations_error state none = none
confirmations_error confirmed (some n) = reject (nat_eq n 0) "confirmations must be positive" none
confirmations_error seen (some n) = some "confirmations can only be used with state: confirmed"
confirmations_error mempool (some n) = some "confirmations can only be used with state: confirmed"
confirmations_error missing (some n) = some "confirmations can only be used with state: confirmed"

unfoldable pub validate_wait_tx : WaitTxStep → Option String
validate_wait_tx wait =
    let has_txid = is_set wait.txid in
    let has_env = is_set wait.txid_env in
    reject (has_txid && has_env || not has_txid && not has_env)
      "exactly one of txid or txid_env is required"
      (reject (if_some (λ s. not (is_txid s)) wait.txid) "txid must be 64 hexadecimal characters" (
        reject (if_some (λ s. not (is_simple_env s)) wait.txid_env)
          "txid_env must be a simple environment variable name"
          (reject (nat_eq wait.timeout_secs 0) "timeout_secs must be positive"
            (confirmations_error wait.state wait.confirmations))))

unfoldable pub validate_wait_condition : WaitCondition → Option String
validate_wait_condition (height_at_least height) =
    reject (ltb height bootstrap_height) "height must be at least 204" none
validate_wait_condition (mempool_txs_at_least count) = none
validate_wait_condition (mempool_txs_at_most count) = none
validate_wait_condition (component_is expected) =
    reject (not (has_assertions expected)) "component wait requires at least one expectation" none

abbrev pub is_reversed : (at_least at_most : Option ℕ) → Bool
is_reversed none high = false
is_reversed (some low) none = false
is_reversed (some low) (some high) = ltb high low

unfoldable pub validate_height_assertion : (equals at_least at_most : Option ℕ) → Option String
validate_height_assertion equals at_least at_most =
    reject (not (is_some equals) && not (is_some at_least) && not (is_some at_most))
      "at least one height condition must be set"
      (reject (is_some equals && (is_some at_least || is_some at_most))
        "equals cannot be combined with at_least or at_most"
        (reject (is_reversed at_least at_most) "at_least must be less than or equal to at_most"
          none))

unfoldable pub validate_degrade_duration : (seconds until_height : Option ℕ) → Option String
validate_degrade_duration none none = some "seconds or until_height is required"
validate_degrade_duration (some seconds) (some height) =
    some "seconds and until_height are mutually exclusive"
validate_degrade_duration (some seconds) none =
    reject (nat_eq seconds 0 || ltb 86400 seconds) "seconds must be between 1 and 86400" none
validate_degrade_duration none (some height) =
    reject (ltb height bootstrap_height) "until_height must be at least 204" none

abbrev pub amount_error : Result ScenarioAmountError ℕ → Option String
amount_error (ok n) = reject (nat_eq n 0) "amount must be positive" none
amount_error (err e) = some "invalid amount"

unfoldable pub validate_faucet_output : FaucetScenarioOutput → Option String
validate_faucet_output output =
    let has_address = is_set output.address in
    let has_env = is_set output.address_env in
    reject (has_address && has_env || not has_address && not has_env)
      "exactly one of address or address_env is required"
      (reject (if_some (λ s. not (is_simple_env s)) output.address_env)
        "address_env must be a simple environment variable name"
        (amount_error (parse_scenario_amount_sats output.amount)))

abbrev pub any_blank_key : List (String × String) → Bool
any_blank_key [] = false
any_blank_key ((key, value) ∷ settings) = is_blank key || any_blank_key settings

-- `find_map(validate_faucet_output)`
unfoldable pub faucet_outputs_error : List FaucetScenarioOutput → Option String
faucet_outputs_error [] = none
faucet_outputs_error (output ∷ outputs) =
    let rest = faucet_outputs_error outputs in
    elim (validate_faucet_output output) [ some e ↦ some "invalid faucet output" | none ↦ rest ]

abbrev pub contains : String → List String → Bool
contains name [] = false
contains name (other ∷ names) = name == other || contains name names

-- the arms of `Step::Checkpoint`, after the names of the checkpoints before
unfoldable pub validate_checkpoint : (names : List String) → CheckpointStep → Option String
validate_checkpoint names c =
    let name = codes c.name in
    reject (is_nil name || not (all is_url_safe name))
      "checkpoint name must be non-empty and URL-safe"
      (reject (ltb 100 (byte_len name)) "checkpoint name must not exceed 100 bytes" (
        reject (c.pause && not (is_some c.timeout_secs))
          "timeout_secs is required when pause is true"
          (reject (if_some (λ n. nat_eq n 0) c.timeout_secs) "timeout_secs must be positive"
            (reject (contains c.name names) "checkpoint names must be unique" none))))

abbrev pub checkpoint_name : {F : Type 0} → Step F → Option String
checkpoint_name (checkpoint c) = some c.name
checkpoint_name step = none

-- `checkpoint_names` after a step that passed
abbrev pub insert_name : Option String → List String → List String
insert_name none names = names
insert_name (some name) names = name ∷ names

module _ {F : Type 0} (loss : LossTests F) where
  unfoldable pub validate_degrade :
      (delay_ms : ℕ) (loss_pct : F) (seconds until_height : Option ℕ) → Option String
  validate_degrade delay_ms loss_pct seconds until_height =
      reject (nat_eq delay_ms 0 && loss.is_zero loss_pct) "delay_ms or loss_pct must be positive" (
        reject (ltb 600000 delay_ms) "delay_ms must not exceed 600000" (
          reject (not (loss.is_finite loss_pct) || not (loss.is_percentage loss_pct))
            "loss_pct must be a finite number from 0 through 100"
            (validate_degrade_duration seconds until_height)))

  -- the arms of the match on a step
  unfoldable pub step_error : (names : List String) → Step F → Option String
  step_error names (wait_height height) =
      reject (ltb height bootstrap_height) "height must be at least 204" none
  step_error names (wait_n_blocks n) = reject (nat_eq n 0) "n must be positive" none
  step_error names (wait_until condition timeout_secs) =
      reject (nat_eq timeout_secs 0) "timeout_secs must be positive"
        (validate_wait_condition condition)
  step_error names (wait_tx wait) = validate_wait_tx wait
  step_error names (assert_height equals at_least at_most) =
      validate_height_assertion equals at_least at_most
  step_error names (assert_component expected) =
      reject (not (has_assertions expected)) "at least one component expectation must be set" none
  step_error names (sleep secs) = reject (nat_eq secs 0) "secs must be positive" none
  step_error names pause_mining = none
  step_error names resume_mining = none
  step_error names (mine node blocks) = reject (nat_eq blocks 0) "blocks must be positive" none
  step_error names (reorg depth empty node adds_new_txs double_spend_pct) =
      reject (nat_eq depth 0) "depth must be positive" (
        reject (ltb 100 depth) "depth must not exceed 100" (
          reject (ltb 10000 adds_new_txs) "adds_new_txs must not exceed 10000"
            (reject (ltb 100 double_spend_pct) "double_spend_pct must be between 0 and 100" none)))
  step_error names (spam_burst node txs outputs_per_tx) =
      reject (nat_eq txs 0) "txs must be positive" none
  step_error names (set_config settings) =
      reject (is_nil settings) "settings must not be empty"
        (reject (any_blank_key settings) "setting keys must not be empty" none)
  step_error names (assert_config settings effective) =
      reject (any_blank_key settings) "setting keys must not be empty"
        (reject (is_nil settings) "settings must not be empty" none)
  step_error names (faucet source outputs wait_confirmed timeout_secs) =
      reject (is_nil outputs) "outputs must not be empty" (
        reject (ltb 100 (length outputs)) "outputs must not exceed 100 entries" (
          reject (nat_eq timeout_secs 0) "timeout_secs must be positive"
            (faucet_outputs_error outputs)))
  step_error names (partition node main_blocks isolated_blocks heal_delay_secs) =
      reject (nat_eq main_blocks 0 || nat_eq isolated_blocks 0)
        "main_blocks and isolated_blocks must be positive"
        (reject (nat_eq main_blocks isolated_blocks) "main_blocks and isolated_blocks must differ"
          (reject (ltb 86400 heal_delay_secs) "heal_delay_secs must not exceed 86400" none))
  step_error names (degrade node delay_ms loss_pct seconds until_height) =
      validate_degrade delay_ms loss_pct seconds until_height
  step_error names (checkpoint c) = validate_checkpoint names c

  unfoldable pub validate_steps :
      (index : ℕ) (names : List String) → List (Step F) → Result ScenarioError (Unit {0})
  validate_steps index names [] = ok tt
  validate_steps index names (step ∷ steps) =
      let rest = validate_steps (suc index) (insert_name (checkpoint_name step) names) steps in
      elim (step_error names step) [
        | some message ↦ err (invalid_step (index + 1) (kind step) message)
        | none ↦ rest
      ]

  unfoldable pub validate : Scenario F → Result ScenarioError (Unit {0})
  validate scenario =
      if nat_eq scenario.version 1
      then validate_steps 0 [] scenario.steps
      else err (unsupported_version scenario.version)
