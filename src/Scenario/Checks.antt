-- ===== src/Scenario/Checks.antt =====
-- crates/scenario-engine/src/schema.rs: a step has no error exactly if it is well-formed.
use simchain.Base.{
  ℕ, ◌≤◌, ◌<◌, Bool, true, false, not, ◌&&◌, ◌||◌, String, String-eq, Option, none, some, List, [],
  ◌∷◌, ◌≡◌, ◌⊎◌, ◌↔◌, inl, inr, nat_eq, all, All, Result, ok, err, is_some, length, arith, refl,
  Option-cases,
}
use simchain.Base.Text.{codes}
use simchain.Amount.{byte_len, is_nil}
use simchain.Scenario.Texts.{
  is_url_safe, is_set, is_simple_env, is_txid, if_some, ScenarioAmountError,
  parse_scenario_amount_sats,
}
use simchain.Scenario.Schema.{
  TxWaitState, seen, mempool, confirmed, missing, CheckpointStep, WaitTxStep, WaitCondition,
  height_at_least, mempool_txs_at_least, mempool_txs_at_most, component_is, FaucetScenarioOutput,
  Step, wait_height, wait_n_blocks, wait_until, wait_tx, assert_height, assert_component, sleep,
  pause_mining, resume_mining, mine, reorg, spam_burst, set_config, assert_config, faucet,
  partition, degrade, checkpoint, has_assertions,
}
use simchain.Scenario.Validate.{
  LossTests, contains, checkpoint_name, confirmations_error, validate_wait_tx,
  validate_wait_condition, validate_height_assertion, validate_degrade_duration,
  validate_faucet_output, amount_error, any_blank_key, faucet_outputs_error, validate_checkpoint,
  validate_degrade, step_error,
}
use simchain.Scenario.Valid.{
  ExactlyOne, IfSome, ConfirmationsFit, TxIsWaitable, ConditionIsMeaningful, HeightsFit,
  DurationFits, OutputIsPayable, PauseFits, CheckpointIsNamed, KeyIsGiven, WellFormed,
}
use simchain.Scenario.Rejection.{
  reject_iff, reject_last, flat3, flat4, flat5, is_zero_iff, exceeds_iff, is_nil_iff, both_iff,
  name_iff, effect_iff, positive_iff, differ_iff, same_iff,
}

confirmations_error-Fit :
    (state : TxWaitState) (n : Option ℕ)
    → (confirmations_error state n ≡ none) ↔ ConfirmationsFit state n
confirmations_error-Fit state none = ground arith
confirmations_error-Fit seen (some n) = ground arith
confirmations_error-Fit mempool (some n) = ground arith
confirmations_error-Fit confirmed (some n) = ground arith
confirmations_error-Fit missing (some n) = ground arith

ExactlyOne-iff :
    (a b : Option String)
    → ((is_set a && is_set b || not (is_set a) && not (is_set b)) ≡ false) ↔ ExactlyOne a b
ExactlyOne-iff a b = ground arith

IfSome-iff :
    (p : String → Bool) (o : Option String) → (if_some (λ s. not (p s)) o ≡ false) ↔ IfSome p o
IfSome-iff p none = ground arith
IfSome-iff p (some s) = ground arith

validate_wait_tx_iff : (w : WaitTxStep) → (validate_wait_tx w ≡ none) ↔ TxIsWaitable w
unfolding validate_wait_tx
validate_wait_tx_iff w = flat5 (
    reject_iff _ _ _ (ExactlyOne-iff w.txid w.txid_env) (
      reject_iff _ _ _ (IfSome-iff is_txid w.txid) (
        reject_iff _ _ _ (IfSome-iff is_simple_env w.txid_env) (
          reject_iff _ _ _ (is_zero_iff w.timeout_secs)
            (confirmations_error-Fit w.state w.confirmations)))))

validate_wait_condition_iff :
    (c : WaitCondition) → (validate_wait_condition c ≡ none) ↔ ConditionIsMeaningful c
unfolding validate_wait_condition
validate_wait_condition_iff (height_at_least height) = ground arith
validate_wait_condition_iff (mempool_txs_at_least count) = ground arith
validate_wait_condition_iff (mempool_txs_at_most count) = ground arith
validate_wait_condition_iff (component_is expected) = ground arith

validate_height_assertion_iff :
    (equals at_least at_most : Option ℕ)
    → (validate_height_assertion equals at_least at_most ≡ none)
      ↔ HeightsFit equals at_least at_most
unfolding validate_height_assertion
validate_height_assertion_iff none none none = ground arith
validate_height_assertion_iff none none (some h) = ground arith
validate_height_assertion_iff none (some l) none = ground arith
validate_height_assertion_iff none (some l) (some h) = ground arith
validate_height_assertion_iff (some e) none none = ground arith
validate_height_assertion_iff (some e) none (some h) = ground arith
validate_height_assertion_iff (some e) (some l) none = ground arith
validate_height_assertion_iff (some e) (some l) (some h) = ground arith

validate_degrade_duration_iff :
    (seconds until_height : Option ℕ)
    → (validate_degrade_duration seconds until_height ≡ none) ↔ DurationFits seconds until_height
unfolding validate_degrade_duration
validate_degrade_duration_iff none none = ground arith
validate_degrade_duration_iff none (some h) = ground arith
validate_degrade_duration_iff (some s) none = ground arith
validate_degrade_duration_iff (some s) (some h) = ground arith

amount_error_iff :
    (r : Result ScenarioAmountError ℕ)
    → (amount_error r ≡ none) ↔ ((sats : ℕ) × (r ≡ ok sats) × (0 < sats))
amount_error_iff (ok n) =
    let k = reject_last (nat_eq n 0) "amount must be positive" (is_zero_iff n) in
    (λ h. (n, refl, k.0 h), λ (m, q, p). k.1 (grind arith))
amount_error_iff (err e) = (λ h. absurd (ground arith), λ (n, q, p). absurd (ground arith))

validate_faucet_output_iff :
    (o : FaucetScenarioOutput) → (validate_faucet_output o ≡ none) ↔ OutputIsPayable o
unfolding validate_faucet_output
validate_faucet_output_iff o = flat3 (
    reject_iff _ _ _ (ExactlyOne-iff o.address o.address_env) (
      reject_iff _ _ _ (IfSome-iff is_simple_env o.address_env)
        (amount_error_iff (parse_scenario_amount_sats o.amount))))

faucet_outputs_error_iff :
    (outputs : List FaucetScenarioOutput)
    → (faucet_outputs_error outputs ≡ none) ↔ All OutputIsPayable outputs
unfolding faucet_outputs_error
faucet_outputs_error_iff [] = ground arith
faucet_outputs_error_iff (o ∷ outputs) =
    let k = validate_faucet_output_iff o in
    let n = faucet_outputs_error_iff outputs in
    elim (Option-cases (validate_faucet_output o)) [
      | inl q ↦ rw (q, faucet_outputs_error) (λ h. (k.0 q, n.0 h), λ h. n.1 h.1)
      | inr (e, q) ↦
          rw (q, faucet_outputs_error)
            (λ h. absurd (ground arith), λ h. absurd (ground (arith, k.1 h.0)))
    ]

any_blank_key_iff :
    (settings : List (String × String)) → (any_blank_key settings ≡ false) ↔ All KeyIsGiven settings
any_blank_key_iff [] = ground arith
any_blank_key_iff ((key, value) ∷ settings) =
    let n = any_blank_key_iff settings in
    (λ h. (ground (arith, n, h), n.0 (ground (arith, h))), λ (h, hs). ground (arith, n.1 hs))

pause_iff :
    (pause : Bool) (timeout : Option ℕ)
    → (((pause && not (is_some timeout)) ≡ false) × (if_some (λ n. nat_eq n 0) timeout ≡ false))
      ↔ PauseFits pause timeout
pause_iff true none = ground arith
pause_iff false none = ground arith
pause_iff true (some n) = ground arith
pause_iff false (some n) = ground arith

-- the arms of a checkpoint: its own form, and a name that is new
validate_checkpoint_iff :
    (names : List String) (c : CheckpointStep)
    → (validate_checkpoint names c ≡ none) ↔ (CheckpointIsNamed c × (contains c.name names ≡ false))
unfolding validate_checkpoint
validate_checkpoint_iff names c =
    let pause = pause_iff c.pause c.timeout_secs in
    let filled = is_nil_iff (codes c.name) in
    let k =
      reject_iff _ "checkpoint name must be non-empty and URL-safe" _
        (name_iff (is_nil (codes c.name)) (all is_url_safe (codes c.name)))
        (reject_iff _ "checkpoint name must not exceed 100 bytes" _
          (exceeds_iff 100 (byte_len (codes c.name)))
          (reject_iff _ "timeout_secs is required when pause is true" _ same_iff (
            reject_iff _ "timeout_secs must be positive" _ same_iff
              (reject_last _ "checkpoint names must be unique" same_iff)))) in
    (
      λ h. let ((a, b), (l, (p, (q, n)))) = k.0 h in ((filled.0 a, b, l, pause.0 (p, q)), n),
      λ ((a, b, l, p), n). let (p', q) = pause.1 p in k.1 ((filled.1 a, b), (l, (p', (q, n)))),
    )

abbrev pub NewName : List String → Option String → Type 0
NewName names none = Unit
NewName names (some name) = contains name names ≡ false

module _ {F : Type 0} (loss : LossTests F) where
  validate_degrade_iff :
      (delay_ms : ℕ) (loss_pct : F) (seconds until_height : Option ℕ)
      → (validate_degrade loss delay_ms loss_pct seconds until_height ≡ none) ↔ (
          ((0 < delay_ms) ⊎ (loss.is_zero loss_pct ≡ false))
          × (delay_ms ≤ 600000)
          × (loss.is_finite loss_pct ≡ true)
          × (loss.is_percentage loss_pct ≡ true)
          × DurationFits seconds until_height)
  unfolding validate_degrade
  validate_degrade_iff delay_ms loss_pct seconds until_height =
      let k =
        reject_iff _ "delay_ms or loss_pct must be positive" _
          (effect_iff delay_ms (loss.is_zero loss_pct))
          (reject_iff _ "delay_ms must not exceed 600000" _ (exceeds_iff 600000 delay_ms) (
            reject_iff _ "loss_pct must be a finite number from 0 through 100" _
              (both_iff (loss.is_finite loss_pct) (loss.is_percentage loss_pct))
              (validate_degrade_duration_iff seconds until_height))) in
      (
        λ h. let (a, (b, ((c, d), e))) = k.0 h in (a, b, c, d, e),
        λ (a, b, c, d, e). k.1 (a, (b, ((c, d), e))),
      )

  -- a checkpoint has another name than those before
  abbrev pub IsNew : List String → Step F → Type 0
  IsNew names step = NewName names (checkpoint_name step)

  alone : {X A : Type 0} → X ↔ A → X ↔ (A × Unit {0})
  alone k = (λ h. (k.0 h, tt), λ h. k.1 h.0)

  not_zero_iff : (b : Bool) → (not b ≡ false) ↔ (b ≡ true)
  not_zero_iff b = ground arith

  pub step_error_iff :
      (names : List String) (step : Step F)
      → (step_error loss names step ≡ none) ↔ (WellFormed loss step × IsNew names step)
  unfolding step_error
  step_error_iff names (wait_height height) =
      alone (reject_last _ "height must be at least 204" (exceeds_iff height 204))
  step_error_iff names (wait_n_blocks n) =
      alone (reject_last _ "n must be positive" (is_zero_iff n))
  step_error_iff names (wait_until condition timeout_secs) =
      alone (reject_iff _ _ _ (is_zero_iff timeout_secs) (validate_wait_condition_iff condition))
  step_error_iff names (wait_tx wait) = alone (validate_wait_tx_iff wait)
  step_error_iff names (assert_height equals at_least at_most) =
      alone (validate_height_assertion_iff equals at_least at_most)
  step_error_iff names (assert_component expected) =
      alone (reject_last _ _ (not_zero_iff (has_assertions expected)))
  step_error_iff names (sleep secs) = alone (reject_last _ _ (is_zero_iff secs))
  step_error_iff names pause_mining = alone (λ h. tt, λ h. refl)
  step_error_iff names resume_mining = alone (λ h. tt, λ h. refl)
  step_error_iff names (mine node blocks) = alone (reject_last _ _ (is_zero_iff blocks))
  step_error_iff names (reorg depth empty node adds_new_txs double_spend_pct) = alone (
      flat4 (
        reject_iff _ _ _ (is_zero_iff depth) (
          reject_iff _ _ _ (exceeds_iff 100 depth) (
            reject_iff _ _ _ (exceeds_iff 10000 adds_new_txs)
              (reject_last _ _ (exceeds_iff 100 double_spend_pct))))))
  step_error_iff names (spam_burst node txs outputs_per_tx) =
      alone (reject_last _ _ (is_zero_iff txs))
  step_error_iff names (set_config settings) =
      alone (reject_iff _ _ _ (is_nil_iff settings) (reject_last _ _ (any_blank_key_iff settings)))
  step_error_iff names (assert_config settings effective) =
      let k =
        reject_iff _ "setting keys must not be empty" _ (any_blank_key_iff settings)
          (reject_last _ "settings must not be empty" (is_nil_iff settings)) in
      alone (λ h. let (a, b) = k.0 h in (b, a), λ (a, b). k.1 (b, a))
  step_error_iff names (faucet source outputs wait_confirmed timeout_secs) = alone (
      flat4 (
        reject_iff _ _ _ (is_nil_iff outputs) (
          reject_iff _ _ _ (exceeds_iff 100 (length outputs))
            (reject_iff _ _ _ (is_zero_iff timeout_secs) (faucet_outputs_error_iff outputs)))))
  step_error_iff names (partition node main_blocks isolated_blocks heal_delay_secs) =
      let k =
        reject_iff _ "main_blocks and isolated_blocks must be positive" _
          (positive_iff main_blocks isolated_blocks)
          (reject_iff _ "main_blocks and isolated_blocks must differ" _
            (differ_iff main_blocks isolated_blocks)
            (reject_last _ "heal_delay_secs must not exceed 86400"
              (exceeds_iff 86400 heal_delay_secs))) in
      alone
        (λ h. let ((a, b), (c, d)) = k.0 h in (a, b, c, d), λ (a, b, c, d). k.1 ((a, b), (c, d)))
  step_error_iff names (degrade node delay_ms loss_pct seconds until_height) =
      alone (validate_degrade_iff delay_ms loss_pct seconds until_height)
  step_error_iff names (checkpoint c) = validate_checkpoint_iff names c
