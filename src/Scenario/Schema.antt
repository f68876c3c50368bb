-- ===== src/Scenario/Schema.antt =====
-- crates/scenario-engine/src/schema.rs: the data of a scenario. Its YAML form is left out. A loss
-- percentage is an `f64`, a type that the check is given tests on; a table of settings is the list of
-- its entries.
use simchain.Base.{ℕ, Bool, ◌||◌, String, Option, List, is_some}
use simchain.Api.{DesiredState}

pub data FaucetSource : Type 0 where
  auto from_node2 from_node3 : FaucetSource

pub data TxWaitState : Type 0 where
  seen mempool confirmed missing : TxWaitState

pub data MinerNode : Type 0 where
  miner2 miner3 : MinerNode

pub data NetworkNode : Type 0 where
  net1 net2 net3 : NetworkNode

pub data ScenarioComponent : Type 0 where
  mining spam network_agent_node1 network_agent_node2 network_agent_node3 : ScenarioComponent

pub record CheckpointStep : Type 0 where
  pub name : String
  pub pause : Bool
  pub timeout_secs : Option ℕ

pub record WaitTxStep : Type 0 where
  pub txid : Option String
  pub txid_env : Option String
  pub state : TxWaitState
  pub confirmations : Option ℕ
  pub timeout_secs : ℕ

pub record ComponentExpectation : Type 0 where
  pub component : ScenarioComponent
  pub reachable : Option Bool
  pub status : Option String
  pub phase : Option String
  pub desired_state : Option DesiredState
  pub effective_state : Option DesiredState
  pub effective_generation : Option ℕ
  pub observed_height_at_least : Option ℕ
  pub active_lease_count : Option ℕ
  pub cycle_phase : Option String

pub data WaitCondition : Type 0 where
  height_at_least : (height : ℕ) → WaitCondition
  mempool_txs_at_least : (count : ℕ) → WaitCondition
  mempool_txs_at_most : (count : ℕ) → WaitCondition
  component_is : ComponentExpectation → WaitCondition

pub record FaucetScenarioOutput : Type 0 where
  pub address : Option String
  pub address_env : Option String
  pub amount : String

pub data Step (F : Type 0) : Type 0 where
  wait_height : (height : ℕ) → Step F
  wait_n_blocks : (n : ℕ) → Step F
  wait_until : WaitCondition → (timeout_secs : ℕ) → Step F
  wait_tx : WaitTxStep → Step F
  assert_height : (equals at_least at_most : Option ℕ) → Step F
  assert_component : ComponentExpectation → Step F
  sleep : (secs : ℕ) → Step F
  pause_mining : Step F
  resume_mining : Step F
  mine : MinerNode → (blocks : ℕ) → Step F
  reorg : (depth : ℕ) (empty : Bool) → MinerNode → (adds_new_txs double_spend_pct : ℕ) → Step F
  spam_burst : MinerNode → (txs outputs_per_tx : ℕ) → Step F
  set_config : List (String × String) → Step F
  assert_config : List (String × String) → (effective : Bool) → Step F
  faucet :
      FaucetSource → List FaucetScenarioOutput → (wait_confirmed : Bool) (timeout_secs : ℕ) → Step F
  partition : MinerNode → (main_blocks isolated_blocks heal_delay_secs : ℕ) → Step F
  degrade : NetworkNode → (delay_ms : ℕ) (loss_pct : F) (seconds until_height : Option ℕ) → Step F
  checkpoint : CheckpointStep → Step F

pub record Scenario (F : Type 0) : Type 0 where
  pub version : ℕ
  pub restore_settings : Bool
  pub steps : List (Step F)

abbrev pub bootstrap_height : ℕ
bootstrap_height = 204

abbrev pub kind : {F : Type 0} → Step F → String
kind (wait_height _) = "wait_height"
kind (wait_n_blocks _) = "wait_n_blocks"
kind (wait_until _ _) = "wait_until"
kind (wait_tx _) = "wait_tx"
kind (assert_height _ _ _) = "assert_height"
kind (assert_component _) = "assert_component"
kind (sleep _) = "sleep"
kind pause_mining = "pause_mining"
kind resume_mining = "resume_mining"
kind (mine _ _) = "mine"
kind (reorg _ _ _ _ _) = "reorg"
kind (spam_burst _ _ _) = "spam_burst"
kind (set_config _) = "set_config"
kind (assert_config _ _) = "assert_config"
kind (faucet _ _ _ _) = "faucet"
kind (partition _ _ _ _) = "partition"
kind (degrade _ _ _ _ _) = "degrade"
kind (checkpoint _) = "checkpoint"

abbrev pub has_assertions : ComponentExpectation → Bool
has_assertions e =
    is_some e.reachable
    || is_some e.status
    || is_some e.phase
    || is_some e.desired_state
    || is_some e.effective_state
    || is_some e.effective_generation
    || is_some e.observed_height_at_least
    || is_some e.active_lease_count
    || is_some e.cycle_phase
