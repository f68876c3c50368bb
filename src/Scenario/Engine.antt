-- ===== src/Scenario/Engine.antt =====
-- crates/scenario-engine/src/engine.rs and src/results.rs: the run of a scenario. The actions, the
-- observer and the clock are calls that answer and leave another world; JSON values are a type.
use simchain.Base.{
  ℕ, zero, suc, ◌+◌, ◌-◌, ◌*◌, min, Bool, true, false, String, Option, List, ltb, Result, ok,
}
use simchain.Scenario.Schema.{
  FaucetSource, MinerNode, NetworkNode, ComponentExpectation, WaitCondition, WaitTxStep,
  FaucetScenarioOutput, CheckpointStep, Step, wait_height, wait_n_blocks, wait_until, wait_tx,
  assert_height, assert_component, sleep, pause_mining, resume_mining, mine, reorg, spam_burst,
  set_config, assert_config, faucet, partition, degrade, checkpoint,
}

pub data Phase : Type 0 where
  step_started step_completed step_failed abort_observed : Phase

-- the texts of the messages, with what they quote
pub data Message : Type 0 where
  abort_at_boundary : Message
  starting : (step_index total : ℕ) (kind : String) → Message
  completed : (step_index total : ℕ) (kind : String) → Message
  abort_after_action : Message
  failed : (step_index total : ℕ) (kind source : String) → Message
  no_summary : (source : String) → Message

pub record Progress (V : Type 0) : Type 0 where
  pub phase : Phase
  pub step_index : ℕ
  pub total_steps : ℕ
  pub step_kind : String
  pub message : Message
  pub data_of : Option V

pub record StepResult : Type 0 where
  pub index : ℕ
  pub kind_of : String
  pub duration_ms : ℕ
  pub success : Bool
  pub error : Option Message

pub record ScenarioResult (V : Type 0) : Type 0 where
  pub success : Bool
  pub aborted : Bool
  pub executed_steps : ℕ
  pub total_steps : ℕ
  pub duration_ms : ℕ
  pub steps : List StepResult
  pub final_summary : Option V
  pub error : Option Message

-- the values that the engine itself makes
pub record Json (F V : Type 0) : Type 0 where
  pub of_step : Step F → Option V
  pub aborted_during_sleep : V
  pub slept_secs : ℕ → V

abbrev pub Call : (V World : Type 0) → Type 0
Call V World = World → Result String V × World

pub record ScenarioActions (F V World : Type 0) : Type 0 where
  pub wait_height : (height : ℕ) → Call V World
  pub wait_n_blocks : (n : ℕ) → Call V World
  pub set_mining_paused : (paused : Bool) → Call V World
  pub mine : MinerNode → (blocks : ℕ) → Call V World
  pub run_reorg :
      (depth : ℕ) (empty : Bool) → MinerNode → (adds_new_txs double_spend_pct : ℕ) → Call V World
  pub assert_height : (equals at_least at_most : Option ℕ) → Call V World
  pub assert_component : ComponentExpectation → Call V World
  pub wait_until : WaitCondition → (timeout_secs : ℕ) → Call V World
  pub wait_tx : WaitTxStep → Call V World
  pub spam_burst : MinerNode → (txs outputs_per_tx : ℕ) → Call V World
  pub set_config : List (String × String) → Call V World
  pub assert_config : List (String × String) → (effective : Bool) → Call V World
  pub faucet :
      FaucetSource
      → List FaucetScenarioOutput
      → (wait_confirmed : Bool) (timeout_secs : ℕ) → Call V World
  pub run_partition : MinerNode → (main_blocks isolated_blocks heal_delay_secs : ℕ) → Call V World
  pub degrade :
      NetworkNode → (delay_ms : ℕ) (loss_pct : F) (seconds until_height : Option ℕ) → Call V World
  pub reach_checkpoint : CheckpointStep → (step_index : ℕ) → Call V World
  pub live_summary : Call V World

-- `ScenarioControl`, and the clock in milliseconds
pub record ScenarioControl (V World : Type 0) : Type 0 where
  pub observe : Progress V → World → World
  pub abort_requested : World → Bool × World
  pub now : World → ℕ
  pub thread_sleep : (milliseconds : ℕ) → World → World

abbrev pub u64_max : ℕ
u64_max = 18446744073709551615

module _ {F V World : Type 0} (json : Json F V) (actions : ScenarioActions F V World)
    (control : ScenarioControl V World) where
  -- `elapsed_ms`
  abbrev pub elapsed_ms : (started : ℕ) → World → ℕ
  elapsed_ms started w = min (control.now w - started) u64_max

  -- the loop of a sleep, with a bound on its rounds
  unfoldable pub sleep_until : (rounds secs deadline : ℕ) → Call V World
  sleep_until zero secs deadline w = (ok (json.slept_secs secs), w)
  sleep_until (suc rounds) secs deadline w = elim (ltb (control.now w) deadline) [
    | false ↦ (ok (json.slept_secs secs), w)
    | true ↦
        let (abort, w') = control.abort_requested w in
        elim abort [
          | true ↦ (ok json.aborted_during_sleep, w')
          | false ↦
              sleep_until rounds secs deadline
                (control.thread_sleep (min (deadline - control.now w') 100) w')
        ]
  ]

  -- a round of a sleep takes a millisecond or reaches the deadline
  unfoldable pub sleep_for : (secs : ℕ) → Call V World
  sleep_for secs w = sleep_until (suc (secs * 1000)) secs (control.now w + secs * 1000) w

  unfoldable pub execute_step : Step F → (step_index : ℕ) → Call V World
  execute_step (wait_height height) i = actions.wait_height height
  execute_step (wait_n_blocks n) i = actions.wait_n_blocks n
  execute_step (wait_until condition timeout_secs) i = actions.wait_until condition timeout_secs
  execute_step (wait_tx wait) i = actions.wait_tx wait
  execute_step (assert_height equals at_least at_most) i =
      actions.assert_height equals at_least at_most
  execute_step (assert_component expected) i = actions.assert_component expected
  execute_step (sleep secs) i = sleep_for secs
  execute_step pause_mining i = actions.set_mining_paused true
  execute_step resume_mining i = actions.set_mining_paused false
  execute_step (mine node blocks) i = actions.mine node blocks
  execute_step (reorg depth empty node adds_new_txs double_spend_pct) i =
      actions.run_reorg depth empty node adds_new_txs double_spend_pct
  execute_step (spam_burst node txs outputs_per_tx) i = actions.spam_burst node txs outputs_per_tx
  execute_step (set_config settings) i = actions.set_config settings
  execute_step (assert_config settings effective) i = actions.assert_config settings effective
  execute_step (faucet source outputs wait_confirmed timeout_secs) i =
      actions.faucet source outputs wait_confirmed timeout_secs
  execute_step (partition node main_blocks isolated_blocks heal_delay_secs) i =
      actions.run_partition node main_blocks isolated_blocks heal_delay_secs
  execute_step (degrade node delay_ms loss_pct seconds until_height) i =
      actions.degrade node delay_ms loss_pct seconds until_height
  execute_step (checkpoint c) i = actions.reach_checkpoint c i
