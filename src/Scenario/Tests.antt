-- ===== src/Scenario/Tests.antt =====
-- crates/scenario-engine/src: scenarios that are checked, resolved and run. A loss percentage is a
-- number here, a world the time in milliseconds.
use simchain.Base.{
  ℕ, ◌+◌, ◌*◌, ◌≤◌, ◌<◌, Bool, true, false, ◌==◌, String, String-eq, Option, none, some, List, [],
  ◌∷◌, ◌≡◌, ◌⊎◌, ◌↔◌, refl, arith, All, nat_eq, leb, length, if◌then◌else◌, Result, ok, err,
}
use simchain.Scenario.Schema.{
  auto, miner2, FaucetScenarioOutput, CheckpointStep, wait_height, sleep, mine, faucet, checkpoint,
  Scenario,
}
use simchain.Scenario.Validate.{
  LossTests, validate, validate_steps, step_error, faucet_outputs_error, validate_faucet_output,
  validate_checkpoint,
}
use simchain.Scenario.Texts.{parse_scenario_amount_sats, strip_suffix}
use simchain.Scenario.Valid.{WellFormed, checkpoint_names, Distinct}
use simchain.Scenario.Validity.{validate_iff}
use simchain.Scenario.Environment.{
  resolve_env_values, resolve_steps, resolve_step, resolve_outputs, resolve_output, read_env,
  trim_left, trim_right,
}
use simchain.Scenario.Closed.{Closed, resolve_env_values-Closed}
use simchain.Scenario.Engine.{Message, Json, ScenarioActions, ScenarioControl}
use simchain.Scenario.Run.{run}
use simchain.Scenario.Story.{Story, phases, ErrorOf, run_lem}

abbrev percent : LossTests ℕ
percent = record {
  is_zero = λ n. nat_eq n 0;
  is_finite = λ n. true;
  is_percentage = λ n. leb n 100;
}

abbrev output : Option String → Option String → FaucetScenarioOutput
output address address_env = record {
  address = address;
  address_env = address_env;
  amount = "7 sat";
}

abbrev halt : CheckpointStep
halt = record { name = "halt"; pause = true; timeout_secs = some 60 }

abbrev with_output : FaucetScenarioOutput → Scenario ℕ
with_output o = record {
  version = 1;
  restore_settings = false;
  steps =
      wait_height 210
      ∷ mine miner2 3
      ∷ faucet auto (o ∷ []) true 900
      ∷ checkpoint halt
      ∷ sleep 2
      ∷ [];
}

abbrev var : String → Option String
var name = if name == "ADDRESS" then some " bcrt1q " else none

validate_iff_example :
    (let s = with_output (output (some "bcrt1q") none) in
      (validate percent s ≡ ok tt)
      ↔ ((s.version ≡ 1) × All (WellFormed percent) s.steps × Distinct (checkpoint_names s.steps)))
validate_iff_example = validate_iff percent (with_output (output (some "bcrt1q") none))

resolve_env_values-Closed_example :
    (let s = with_output (output none (some "ADDRESS")) in
      let s' = with_output (output (some "bcrt1q") none) in
      (validate percent s' ≡ ok tt)
      × (s'.version ≡ s.version)
      × (s'.restore_settings ≡ s.restore_settings)
      × All Closed s'.steps
      × (resolve_env_values (λ name. none) percent s' ≡ ok s'))
unfolding validate validate_steps step_error faucet_outputs_error validate_faucet_output
    validate_checkpoint parse_scenario_amount_sats strip_suffix simchain.Scenario.Texts.read_u64
    simchain.Amount.trim_text simchain.Amount.trim_start simchain.Amount.trim_end
    simchain.Amount.read_digits simchain.Amount.byte_len simchain.Base.Text.is_blank
    simchain.Base.Text.is_whitespace resolve_env_values resolve_steps resolve_step resolve_outputs
    resolve_output read_env trim_left trim_right
resolve_env_values-Closed_example =
    resolve_env_values-Closed percent (λ name. none) var
      (with_output (output none (some "ADDRESS"))) (with_output (output (some "bcrt1q") none)) refl

abbrev json : Json ℕ String
json = record {
  of_step = λ step. none;
  aborted_during_sleep = "aborted";
  slept_secs = λ secs. "slept";
}

-- every action takes ten milliseconds and answers, but no block is mined
abbrev ten : ℕ → Result String String × ℕ
ten w = (ok "done", w + 10)

abbrev actions : ScenarioActions ℕ String ℕ
actions = record {
  wait_height = λ height. ten;
  wait_n_blocks = λ n. ten;
  set_mining_paused = λ paused. ten;
  mine = λ node blocks w. (err "no wallet", w);
  run_reorg = λ depth empty node adds pct. ten;
  assert_height = λ equals low high. ten;
  assert_component = λ expected. ten;
  wait_until = λ condition secs. ten;
  wait_tx = λ wait. ten;
  spam_burst = λ node txs outputs. ten;
  set_config = λ settings. ten;
  assert_config = λ settings effective. ten;
  faucet = λ source outputs confirmed secs. ten;
  run_partition = λ node main isolated delay. ten;
  degrade = λ node delay loss secs height. ten;
  reach_checkpoint = λ c i. ten;
  live_summary = ten;
}

abbrev control : ScenarioControl String ℕ
control = record {
  observe = λ p w. w;
  abort_requested = λ w. (false, w);
  now = λ w. w;
  thread_sleep = λ d w. w + d;
}

run_lem_example :
    (let scenario = with_output (output (some "bcrt1q") none) in
      let (result, seen, _) = run json actions control scenario 0 in
      (loop_error : Option Message) × Story json actions control
        (length scenario.steps)
        0
        scenario.steps
        0
        result.steps
        loop_error
        result.aborted
        (phases seen)
      × ErrorOf json actions control loop_error result.aborted result.error
      × ((result.success ≡ true) ↔ ((result.error ≡ none) × (result.aborted ≡ false)))
      × ((result.success ≡ true) ↔ (
          (result.error ≡ none)
          × (result.aborted ≡ false)
          × (result.executed_steps ≡ length scenario.steps)))
      × ((result.aborted ≡ false) ⊎ (result.error ≡ none)))
run_lem_example = run_lem json actions control (with_output (output (some "bcrt1q") none)) 0
