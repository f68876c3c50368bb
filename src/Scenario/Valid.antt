-- ===== src/Scenario/Valid.antt =====
-- crates/scenario-engine/src/schema.rs: what a scenario is that passes the check, in its own words.
use simchain.Base.{
  ℕ, ◌≤◌, ◌<◌, Bool, true, false, String, String-eq, Option, none, some, List, [], ◌∷◌, ◌≡◌, ◌⊎◌,
  all, All, ok, length,
}
use simchain.Base.Text.{codes, is_blank}
use simchain.Amount.{byte_len}
use simchain.Scenario.Texts.{
  is_url_safe, is_set, is_simple_env, is_txid, parse_scenario_amount_sats,
}
use simchain.Scenario.Schema.{
  TxWaitState, confirmed, CheckpointStep, WaitTxStep, WaitCondition, height_at_least, component_is,
  FaucetScenarioOutput, Step, wait_height, wait_n_blocks, wait_until, wait_tx, assert_height,
  assert_component, sleep, pause_mining, resume_mining, mine, reorg, spam_burst, set_config,
  assert_config, faucet, partition, degrade, checkpoint, has_assertions,
}
use simchain.Scenario.Validate.{LossTests, contains, checkpoint_name, insert_name}

-- one of the two texts is there and not blank, the other is blank or missing
abbrev pub ExactlyOne : (a b : Option String) → Type 0
ExactlyOne a b = ((is_set a ≡ true) × (is_set b ≡ false)) ⊎ ((is_set a ≡ false) × (is_set b ≡ true))

abbrev pub IfSome : (String → Bool) → Option String → Type 0
IfSome p none = Unit
IfSome p (some s) = p s ≡ true

-- a number of confirmations goes with the state `confirmed` only, and is positive
abbrev pub ConfirmationsFit : TxWaitState → Option ℕ → Type 0
ConfirmationsFit state none = Unit
ConfirmationsFit confirmed (some n) = 0 < n
ConfirmationsFit _ (some n) = ⊥

abbrev pub TxIsWaitable : WaitTxStep → Type 0
TxIsWaitable w =
    ExactlyOne w.txid w.txid_env
    × IfSome is_txid w.txid
    × IfSome is_simple_env w.txid_env
    × (0 < w.timeout_secs)
    × ConfirmationsFit w.state w.confirmations

abbrev pub ConditionIsMeaningful : WaitCondition → Type 0
ConditionIsMeaningful (height_at_least height) = 204 ≤ height
ConditionIsMeaningful (component_is expected) = has_assertions expected ≡ true
ConditionIsMeaningful _ = Unit

-- one height, or a range that is not empty
abbrev pub HeightsFit : (equals at_least at_most : Option ℕ) → Type 0
HeightsFit (some e) none none = Unit
HeightsFit none (some low) none = Unit
HeightsFit none none (some high) = Unit
HeightsFit none (some low) (some high) = low ≤ high
HeightsFit _ _ _ = ⊥

-- a time up to a day, or a height after the bootstrap
abbrev pub DurationFits : (seconds until_height : Option ℕ) → Type 0
DurationFits (some seconds) none = (0 < seconds) × (seconds ≤ 86400)
DurationFits none (some height) = 204 ≤ height
DurationFits _ _ = ⊥

abbrev pub OutputIsPayable : FaucetScenarioOutput → Type 0
OutputIsPayable o =
    ExactlyOne o.address o.address_env
    × IfSome is_simple_env o.address_env
    × ((sats : ℕ) × (parse_scenario_amount_sats o.amount ≡ ok sats) × (0 < sats))

-- a timeout is positive, and a pause has one
abbrev pub PauseFits : (pause : Bool) (timeout_secs : Option ℕ) → Type 0
PauseFits pause (some n) = 0 < n
PauseFits true none = ⊥
PauseFits false none = Unit

abbrev pub CheckpointIsNamed : CheckpointStep → Type 0
CheckpointIsNamed c =
    (0 < length (codes c.name))
    × (all is_url_safe (codes c.name) ≡ true)
    × (byte_len (codes c.name) ≤ 100)
    × PauseFits c.pause c.timeout_secs

abbrev pub KeyIsGiven : String × String → Type 0
KeyIsGiven (key, value) = is_blank key ≡ false

abbrev pub SettingsAreNamed : List (String × String) → Type 0
SettingsAreNamed settings = (0 < length settings) × All KeyIsGiven settings

module _ {F : Type 0} (loss : LossTests F) where
  abbrev pub WellFormed : Step F → Type 0
  WellFormed (wait_height height) = 204 ≤ height
  WellFormed (wait_n_blocks n) = 0 < n
  WellFormed (wait_until condition timeout_secs) =
      (0 < timeout_secs) × ConditionIsMeaningful condition
  WellFormed (wait_tx wait) = TxIsWaitable wait
  WellFormed (assert_height equals at_least at_most) = HeightsFit equals at_least at_most
  WellFormed (assert_component expected) = has_assertions expected ≡ true
  WellFormed (sleep secs) = 0 < secs
  WellFormed pause_mining = Unit
  WellFormed resume_mining = Unit
  WellFormed (mine node blocks) = 0 < blocks
  WellFormed (reorg depth empty node adds_new_txs double_spend_pct) =
      (0 < depth) × (depth ≤ 100) × (adds_new_txs ≤ 10000) × (double_spend_pct ≤ 100)
  WellFormed (spam_burst node txs outputs_per_tx) = 0 < txs
  WellFormed (set_config settings) = SettingsAreNamed settings
  WellFormed (assert_config settings effective) = SettingsAreNamed settings
  WellFormed (faucet source outputs wait_confirmed timeout_secs) =
      (0 < length outputs)
      × (length outputs ≤ 100)
      × (0 < timeout_secs)
      × All OutputIsPayable outputs
  WellFormed (partition node main_blocks isolated_blocks heal_delay_secs) =
      (0 < main_blocks)
      × (0 < isolated_blocks)
      × ¬ (main_blocks ≡ isolated_blocks)
      × (heal_delay_secs ≤ 86400)
  WellFormed (degrade node delay_ms loss_pct seconds until_height) =
      ((0 < delay_ms) ⊎ (loss.is_zero loss_pct ≡ false))
      × (delay_ms ≤ 600000)
      × (loss.is_finite loss_pct ≡ true)
      × (loss.is_percentage loss_pct ≡ true)
      × DurationFits seconds until_height
  WellFormed (checkpoint c) = CheckpointIsNamed c

-- the names of the checkpoints, in order
abbrev pub checkpoint_names : {F : Type 0} → List (Step F) → List String
checkpoint_names [] = []
checkpoint_names (step ∷ steps) = insert_name (checkpoint_name step) (checkpoint_names steps)

abbrev pub Distinct : List String → Type 0
Distinct [] = Unit
Distinct (name ∷ names) = (contains name names ≡ false) × Distinct names
