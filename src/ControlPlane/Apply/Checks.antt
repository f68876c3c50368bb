-- ===== src/ControlPlane/Apply/Checks.antt =====
-- crates/control-plane/src/apply.rs: what the checks of the workers establish when they pass.
use simchain.Base.{
  ℕ, zero, suc, Bool, true, String, List, [], ◌∷◌, ◌++◌, ◌≡◌, refl, arith, if◌then◌else◌, Result,
  ok, err, Eq, ==_sound, ℕ-eq, All, Result-cases, inl, inr, ap, sym, ◌∙◌,
}
use simchain.ControlPlane.Apply.{
  ServiceScope, WorkerStatus, LiveTuning, RuntimeSnapshot, ApplyContext, stabilize_polls,
  has_policy, verify_worker, verify_spam, verify_scope, restored_scope, errors_of, failures_of,
  answer_to,
}
use simchain.ControlPlane.Apply.Transaction.{
  is_empty, verify_last, verify_polls, rollback_polls, verify_rollback,
}

-- the worker answers that the policy is in effect under the generation
abbrev pub InEffect : {P : Type 0} → ℕ → P → Result String (WorkerStatus P) → Type 0
InEffect {P} generation policy answer =
    (status : WorkerStatus P) × (answer ≡ ok status)
    × (status.effective_generation ≡ generation)
    × (status.policy ≡ policy)

module _ {P : Type 0} ⦃p : Eq P⦄ where
  pub has_policy_sound :
      (generation : ℕ) (policy : P) (s : WorkerStatus P)
      → has_policy generation policy s ≡ true
      → (s.effective_generation ≡ generation) × (s.policy ≡ policy)
  has_policy_sound generation policy s h = (ground arith, ==_sound s.policy policy (ground arith))

  converged :
      (generation : ℕ) (policy : P) (message : String) (answer : Result String (WorkerStatus P))
      → answer_to (λ s. if has_policy generation policy s then ok tt else err message) answer
        ≡ ok tt
      → InEffect generation policy answer
  converged generation policy message (err e) h = absurd (cc)
  converged generation policy message (ok s) h =
      let v = has_policy_sound generation policy s (ground arith) in (s, refl, v.0, v.1)

  verify_worker_sound :
      (generation : ℕ) (policy : P) (s : WorkerStatus P)
      → verify_worker generation policy s ≡ ok tt
      → (s.effective_generation ≡ generation) × (s.policy ≡ policy)
  unfolding verify_worker
  verify_worker_sound generation policy s h =
      (ground arith, ==_sound s.policy policy (ground arith))

passed :
    (r : Result String (Unit {0})) (u : Unit {0}) (es : List String)
    → r ≡ ok u
    → is_empty (failures_of r ++ es) ≡ true
    → is_empty es ≡ true
passed (ok v) u es q h = h
passed (err e) u es q h = absurd (cc)

failed :
    (r : Result String (Unit {0})) (e : String) (es : List String)
    → r ≡ err e
    → is_empty (failures_of r ++ es) ≡ true
    → ⊥
failed (ok v) e es q h = cc
failed (err e') e es q h = cc

answered :
    {P : Type 0} (f : P → Result String (Unit {0})) (r : Result String P) (a : P)
    → r ≡ ok a
    → answer_to f r ≡ ok tt
    → f a ≡ ok tt
answered f r a q h = cc

no_failures :
    (check : ServiceScope → Result String (Unit {0})) (scopes : List ServiceScope)
    → is_empty (errors_of check scopes) ≡ true
    → All (λ scope. check scope ≡ ok tt) scopes
unfolding errors_of
no_failures check [] h = tt
no_failures check (scope ∷ scopes) h = elim (Result-cases (check scope)) [
  | inl (u, q) ↦ (q, no_failures check scopes (passed (check scope) u (errors_of check scopes) q h))
  | inr (e, q) ↦ absurd (failed (check scope) e (errors_of check scopes) q h)
]

module _ {Mining Spam Desired World : Type 0} ⦃m : Eq Mining⦄ ⦃s : Eq Spam⦄ ⦃d : Eq Desired⦄
    (context : ApplyContext Mining Spam Desired World) where
  -- the worker of the scope has its policy in effect
  unfoldable pub ScopeInEffect :
      (generation : ServiceScope → ℕ) → LiveTuning Mining Spam → World → ServiceScope → Type 0
  ScopeInEffect generation tuning w ServiceScope.mining_controller =
      InEffect (generation ServiceScope.mining_controller) tuning.mining (context.mining.status w)
  ScopeInEffect generation tuning w ServiceScope.spammer =
      InEffect (generation ServiceScope.spammer) tuning.spam (context.spam.status w)

  verify_spam_sound :
      (generation : ℕ) (policy : Spam) (status : WorkerStatus Spam)
      → verify_spam context generation policy status ≡ ok tt
      → verify_worker generation policy status ≡ ok tt
  unfolding verify_spam
  verify_spam_sound generation policy status h =
      elim (Result-cases (verify_worker generation policy status)) [
        | inl (u, q) ↦ q
        | inr (e, q) ↦ absurd (ground arith)
      ]

  verify_scope_sound :
      (tuning : LiveTuning Mining Spam) (generation : ℕ) (w : World) (scope : ServiceScope)
      → verify_scope context tuning generation w scope ≡ ok tt
      → ScopeInEffect (λ _. generation) tuning w scope
  unfolding verify_scope ScopeInEffect
  verify_scope_sound tuning generation w ServiceScope.mining_controller h =
      elim (Result-cases (context.mining.status w)) [
        | inr (e, q) ↦ absurd (ground arith)
        | inl (status, q) ↦
            let v = verify_worker_sound generation tuning.mining status (
              answered (verify_worker generation tuning.mining) (context.mining.status w) status q
                h) in
            (status, q, v.0, v.1)
      ]
  verify_scope_sound tuning generation w ServiceScope.spammer h =
      elim (Result-cases (context.spam.status w)) [
        | inr (e, q) ↦ absurd (ground arith)
        | inl (status, q) ↦
            let v = verify_worker_sound generation tuning.spam status (
              verify_spam_sound generation tuning.spam status (
                answered (verify_spam context generation tuning.spam) (context.spam.status w) status
                  q h)) in
            (status, q, v.0, v.1)
      ]

  -- the worker of the scope has the policy of the snapshot in effect again
  unfoldable pub Restored : RuntimeSnapshot Mining Spam → World → ServiceScope → Type 0
  Restored before w ServiceScope.mining_controller =
      InEffect before.mining.effective_generation before.mining.policy (context.mining.status w)
  Restored before w ServiceScope.spammer =
      InEffect before.spam.effective_generation before.spam.policy (context.spam.status w)

  restored_scope_sound :
      (before : RuntimeSnapshot Mining Spam) (w : World) (scope : ServiceScope)
      → restored_scope context before w scope ≡ ok tt
      → Restored before w scope
  unfolding restored_scope Restored
  restored_scope_sound before w ServiceScope.mining_controller h =
      converged before.mining.effective_generation before.mining.policy
        "mining rollback policy has not converged" (context.mining.status w) h
  restored_scope_sound before w ServiceScope.spammer h =
      converged before.spam.effective_generation before.spam.policy
        "spam rollback policy has not converged" (context.spam.status w) h

  verify_polls_last :
      (k : ℕ) (last : World → List String) (w : World)
      → (verify_polls context (suc k) last w).0 ≡ last (verify_polls context (suc k) last w).1
  unfolding verify_polls
  verify_polls_last zero last w = refl
  verify_polls_last (suc k) last w = verify_polls_last k last (context.wait w)

  rollback_polls_last :
      (k : ℕ) (last : World → List String) (w : World)
      → (rollback_polls context (suc k) last w).0 ≡ last (rollback_polls context (suc k) last w).1
  unfolding rollback_polls
  rollback_polls_last zero last w = refl
  rollback_polls_last (suc k) last w = rollback_polls_last k last (context.wait w)

  All-Restored :
      (before : RuntimeSnapshot Mining Spam) (w : World) (scopes : List ServiceScope)
      → All (λ scope. restored_scope context before w scope ≡ ok tt) scopes
      → All (Restored before w) scopes
  All-Restored before w [] h = tt
  All-Restored before w (scope ∷ scopes) (h, hs) =
      (restored_scope_sound before w scope h, All-Restored before w scopes hs)

  All-verified :
      (tuning : LiveTuning Mining Spam) (generation : ℕ) (w : World) (scopes : List ServiceScope)
      → All (λ scope. verify_scope context tuning generation w scope ≡ ok tt) scopes
      → All (ScopeInEffect (λ _. generation) tuning w) scopes
  All-verified tuning generation w [] h = tt
  All-verified tuning generation w (scope ∷ scopes) (h, hs) =
      (verify_scope_sound tuning generation w scope h, All-verified tuning generation w scopes hs)

  pub verify_rollback_sound :
      (attempted : List ServiceScope) (before : RuntimeSnapshot Mining Spam) (w : World)
      → is_empty (verify_rollback context attempted before w).0 ≡ true
      → All (Restored before (verify_rollback context attempted before w).1) attempted
  unfolding verify_rollback
  verify_rollback_sound attempted before w h =
      let last : World → List String = λ w. errors_of (restored_scope context before w) attempted in
      let w' = (verify_rollback context attempted before w).1 in
      All-Restored before w' attempted (
        no_failures (restored_scope context before w') attempted
          (sym (ap is_empty (rollback_polls_last 3 last w)) ∙ h))

  verify_last_sound :
      (tuning : LiveTuning Mining Spam) (generation : ℕ) (scopes : List ServiceScope)
      (reachable : Bool) (w : World)
      → is_empty (verify_last context tuning generation scopes reachable w) ≡ true
      → All (ScopeInEffect (λ _. generation) tuning w) scopes
  unfolding verify_last
  verify_last_sound tuning generation scopes reachable w h =
      All-verified tuning generation w scopes
        (no_failures (verify_scope context tuning generation w) scopes (ground arith))

  pub verify_runtime_sound :
      (tuning : LiveTuning Mining Spam) (generation : ℕ) (scopes : List ServiceScope)
      (reachable : Bool) (w : World)
      → (let verified =
            verify_polls context stabilize_polls
              (verify_last context tuning generation scopes reachable)
              w in
          is_empty verified.0 ≡ true
          → All (ScopeInEffect (λ _. generation) tuning verified.1) scopes)
  verify_runtime_sound tuning generation scopes reachable w h =
      let last = verify_last context tuning generation scopes reachable in
      verify_last_sound tuning generation scopes reachable
        (verify_polls context stabilize_polls last w).1
        (sym (ap is_empty (verify_polls_last 3 last w)) ∙ h)
