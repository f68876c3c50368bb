-- ===== src/Scenario/Closed.antt =====
-- crates/scenario-engine/src/schema.rs: a scenario that `resolve_env_values` gives names no variable.
use simchain.Base.{
  String, Option, none, List, [], ◌∷◌, ◌≡◌, All, Result, ok, err, ◌>>=◌, refl, subst, Option-cases,
  Result-cases, inl, inr,
}
use simchain.Scenario.Schema.{
  WaitTxStep, FaucetScenarioOutput, Step, wait_height, wait_n_blocks, wait_until, wait_tx,
  assert_height, assert_component, sleep, pause_mining, resume_mining, mine, reorg, spam_burst,
  set_config, assert_config, faucet, partition, degrade, checkpoint, Scenario,
}
use simchain.Scenario.Validate.{LossTests, validate}
use simchain.Scenario.Environment.{
  read_env, resolve_output, resolve_outputs, resolve_wait, resolve_step, resolve_steps, checked,
  resolve_env_values,
}

abbrev pub HasAddress : FaucetScenarioOutput → Type 0
HasAddress output = output.address_env ≡ none

-- the step names no variable
abbrev pub Closed : {F : Type 0} → Step F → Type 0
Closed (faucet source outputs wait_confirmed timeout_secs) = All HasAddress outputs
Closed (wait_tx wait) = wait.txid_env ≡ none
Closed step = Unit

-- what holds of the value, if there is one
abbrev OnOk : {E A : Type 0} → (A → Type 0) → Result E A → Type 0
OnOk P (ok a) = P a
OnOk P (err e) = Unit

OnOk-bind :
    {E A B : Type 0} (P : A → Type 0) (Q : B → Type 0) (m : Result E A) (f : A → Result E B)
    → OnOk P m
    → ((a : A) → P a → OnOk Q (f a))
    → OnOk Q (m >>= f)
OnOk-bind P Q (ok a) f p k = k a p
OnOk-bind P Q (err e) f p k = tt

-- without a condition on the value
OnOk-after :
    {E A B : Type 0} (Q : B → Type 0) (m : Result E A) (f : A → Result E B)
    → ((a : A) → OnOk Q (f a))
    → OnOk Q (m >>= f)
OnOk-after Q (ok a) f k = k a
OnOk-after Q (err e) f k = tt

module _ (var : String → Option String) where
  resolve_output-HasAddress : (o : FaucetScenarioOutput) → OnOk HasAddress (resolve_output var o)
  unfolding resolve_output
  resolve_output-HasAddress o = elim (Option-cases o.address_env) [
    | inl q ↦ rw (q, resolve_output) q
    | inr (e, q) ↦ rw (q, resolve_output) (OnOk-after HasAddress (read_env var e) _ (λ a. refl))
  ]

  resolve_outputs-All :
      (outputs : List FaucetScenarioOutput) → OnOk (All HasAddress) (resolve_outputs var outputs)
  unfolding resolve_outputs
  resolve_outputs-All [] = tt
  resolve_outputs-All (o ∷ outputs) =
      OnOk-bind HasAddress (All HasAddress) (resolve_output var o) _ (resolve_output-HasAddress o)
        (λ o' h.
          OnOk-bind (All HasAddress) (All HasAddress) (resolve_outputs var outputs) _
            (resolve_outputs-All outputs) (λ os hs. (h, hs)))

  resolve_wait-Closed : (wait : WaitTxStep) → OnOk (λ w. w.txid_env ≡ none) (resolve_wait var wait)
  unfolding resolve_wait
  resolve_wait-Closed wait = elim (Option-cases wait.txid_env) [
    | inl q ↦ rw (q, resolve_wait) q
    | inr (e, q) ↦
        rw (q, resolve_wait) (OnOk-after (λ w. w.txid_env ≡ none) (read_env var e) _ (λ a. refl))
  ]

  resolve_step-Closed : {F : Type 0} (step : Step F) → OnOk Closed (resolve_step var step)
  unfolding resolve_step
  resolve_step-Closed (wait_height _) = tt
  resolve_step-Closed (wait_n_blocks _) = tt
  resolve_step-Closed (wait_until _ _) = tt
  resolve_step-Closed (wait_tx wait) =
      OnOk-bind (λ w. w.txid_env ≡ none) Closed (resolve_wait var wait) _ (resolve_wait-Closed wait)
        (λ w h. h)
  resolve_step-Closed (assert_height _ _ _) = tt
  resolve_step-Closed (assert_component _) = tt
  resolve_step-Closed (sleep _) = tt
  resolve_step-Closed pause_mining = tt
  resolve_step-Closed resume_mining = tt
  resolve_step-Closed (mine _ _) = tt
  resolve_step-Closed (reorg _ _ _ _ _) = tt
  resolve_step-Closed (spam_burst _ _ _) = tt
  resolve_step-Closed (set_config _) = tt
  resolve_step-Closed (assert_config _ _) = tt
  resolve_step-Closed (faucet source outputs w t) =
      OnOk-bind (All HasAddress) Closed (resolve_outputs var outputs) _
        (resolve_outputs-All outputs) (λ os h. h)
  resolve_step-Closed (partition _ _ _ _) = tt
  resolve_step-Closed (degrade _ _ _ _ _) = tt
  resolve_step-Closed (checkpoint _) = tt

  resolve_steps-All :
      {F : Type 0} (steps : List (Step F)) → OnOk (All Closed) (resolve_steps var steps)
  unfolding resolve_steps
  resolve_steps-All [] = tt
  resolve_steps-All (step ∷ steps) =
      OnOk-bind Closed (All Closed) (resolve_step var step) _ (resolve_step-Closed step) (λ s h.
        OnOk-bind (All Closed) (All Closed) (resolve_steps var steps) _ (resolve_steps-All steps)
          (λ ss hs. (h, hs)))

  -- a step without variables stays as it is
  resolve_output-fixed : (o : FaucetScenarioOutput) → HasAddress o → resolve_output var o ≡ ok o
  unfolding resolve_output
  resolve_output-fixed o h = simp (h, resolve_output)

  resolve_wait-fixed : (w : WaitTxStep) → w.txid_env ≡ none → resolve_wait var w ≡ ok w
  unfolding resolve_wait
  resolve_wait-fixed w h = simp (h, resolve_wait)

  resolve_outputs-fixed :
      (outputs : List FaucetScenarioOutput)
      → All HasAddress outputs
      → resolve_outputs var outputs ≡ ok outputs
  unfolding resolve_outputs
  resolve_outputs-fixed [] h = refl
  resolve_outputs-fixed (o ∷ outputs) (h, hs) =
      rw (resolve_outputs, resolve_output-fixed o h, resolve_outputs-fixed outputs hs) refl

  resolve_step-fixed : {F : Type 0} (step : Step F) → Closed step → resolve_step var step ≡ ok step
  unfolding resolve_step
  resolve_step-fixed (wait_height _) h = refl
  resolve_step-fixed (wait_n_blocks _) h = refl
  resolve_step-fixed (wait_until _ _) h = refl
  resolve_step-fixed (wait_tx wait) h = rw (resolve_step, resolve_wait-fixed wait h) refl
  resolve_step-fixed (assert_height _ _ _) h = refl
  resolve_step-fixed (assert_component _) h = refl
  resolve_step-fixed (sleep _) h = refl
  resolve_step-fixed pause_mining h = refl
  resolve_step-fixed resume_mining h = refl
  resolve_step-fixed (mine _ _) h = refl
  resolve_step-fixed (reorg _ _ _ _ _) h = refl
  resolve_step-fixed (spam_burst _ _ _) h = refl
  resolve_step-fixed (set_config _) h = refl
  resolve_step-fixed (assert_config _ _) h = refl
  resolve_step-fixed (faucet source outputs w t) h =
      rw (resolve_step, resolve_outputs-fixed outputs h) refl
  resolve_step-fixed (partition _ _ _ _) h = refl
  resolve_step-fixed (degrade _ _ _ _ _) h = refl
  resolve_step-fixed (checkpoint _) h = refl

  resolve_steps-fixed :
      {F : Type 0} (steps : List (Step F)) → All Closed steps → resolve_steps var steps ≡ ok steps
  unfolding resolve_steps
  resolve_steps-fixed [] h = refl
  resolve_steps-fixed (step ∷ steps) (h, hs) =
      rw (resolve_steps, resolve_step-fixed step h, resolve_steps-fixed steps hs) refl

module _ {F : Type 0} (loss : LossTests F) (later : String → Option String) where
  -- what a resolution of the first scenario gives
  abbrev IsResolved : Scenario F → Scenario F → Type 0
  IsResolved s s' =
      (validate loss s' ≡ ok tt)
      × (s'.version ≡ s.version)
      × (s'.restore_settings ≡ s.restore_settings)
      × All Closed s'.steps
      × (resolve_env_values later loss s' ≡ ok s')

  checked-IsResolved :
      (s : Scenario F) (steps : List (Step F))
      → All Closed steps
      → OnOk (IsResolved s) (checked loss (record s { steps = steps }))
  unfolding resolve_env_values
  checked-IsResolved s steps cs =
      let s' = record s { steps = steps } in
      elim (Result-cases (validate loss s')) [
        | inl (u, q) ↦
            let again : resolve_env_values later loss s' ≡ ok s' =
              rw (resolve_env_values, resolve_steps-fixed later steps cs, ◌>>=◌, checked, q) refl in
            rw (OnOk, q) (q, refl, refl, cs, again)
        | inr (e, q) ↦ rw (OnOk, q) tt
      ]

  -- Whatever the variables are, a scenario that the resolution gives passes the check, keeps the
  -- version and the choice to restore the settings, and names no variable: no output to the faucet,
  -- and no transaction to wait for. Resolving it again, with whatever variables, gives it back.
  pub resolve_env_values-Closed :
      (var : String → Option String) (s s' : Scenario F)
      → resolve_env_values var loss s ≡ ok s'
      → (validate loss s' ≡ ok tt)
        × (s'.version ≡ s.version)
        × (s'.restore_settings ≡ s.restore_settings)
        × All Closed s'.steps
        × (resolve_env_values later loss s' ≡ ok s')
  unfolding resolve_env_values
  resolve_env_values-Closed var s s' h = subst (OnOk (IsResolved s)) h (
      OnOk-bind (All Closed) (IsResolved s) (resolve_steps var s.steps) _
        (resolve_steps-All var s.steps) (checked-IsResolved s))
