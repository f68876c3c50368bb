-- ===== src/ControlPlane/Apply/Report.antt =====
-- crates/control-plane/src/apply.rs: the report of a transaction is true of the workers and of the
-- stored state, whatever the workers answer and do.
use simchain.Base.{
  ℕ, Bool, true, false, ◌&&◌, String, Option, none, some, List, [], ◌∷◌, ◌≡◌, refl, Eq, ◌==◌,
  ==_sound, All, Bool-cases, Result-cases, inl, inr, sym,
}
use simchain.ControlPlane.Apply.{
  ServiceScope, ControlState, LiveTuning, RuntimeSnapshot, ErrorCode, Applied, unchanged, committed,
  refused, ApplyContext, Store, stabilize_polls, successful_apply, scopes_needing_apply, set_scopes,
}
use simchain.ControlPlane.Apply.Transaction.{
  is_empty, verify_last, verify_polls, fail_with, persist, apply_from, apply_scopes, apply_tuning,
  after_commands, after_verification,
}
use simchain.ControlPlane.Apply.Checks.{ScopeInEffect, verify_runtime_sound}

both_left : (a b : Bool) → (a && b) ≡ true → a ≡ true
both_left true b h = refl
both_left false b h = absurd (cc)

module _ {Mining Spam Desired World : Type 0} ⦃m : Eq Mining⦄ ⦃s : Eq Spam⦄ ⦃d : Eq Desired⦄
    (context : ApplyContext Mining Spam Desired World) where
  -- what a report promises of the store that the transaction leaves
  unfoldable pub IsTrue :
      ControlState Desired
      → LiveTuning Mining Spam
      → (old new : Store Desired World) → Applied
      → Type 0
  IsTrue next tuning old new (unchanged generation) =
      (new ≡ old) × (generation ≡ old.stored.generation) × (next.desired ≡ old.stored.desired)
  IsTrue next tuning old new (refused code messages report) =
      (new.stored ≡ old.stored) × (new.control_state ≡ old.control_state)
  IsTrue next tuning old new (committed generation scopes) =
      (new.stored ≡ next)
      × (new.control_state ≡ next)
      × (generation ≡ next.generation)
      × All (ScopeInEffect context (λ _. generation) tuning new.world) scopes

  fail_with-IsTrue :
      (code : ErrorCode) (messages : List String) (attempted : List ServiceScope)
      (before : RuntimeSnapshot Mining Spam) (next : ControlState Desired)
      (tuning : LiveTuning Mining Spam) (old : Store Desired World) (w : World)
      → (let failed = fail_with context code messages attempted before (record old { world = w }) in
          IsTrue next tuning old failed.1 failed.0)
  unfolding fail_with IsTrue
  fail_with-IsTrue code messages attempted before next tuning old w = (refl, refl)

  persist-IsTrue :
      (next : ControlState Desired) (scopes attempted : List ServiceScope)
      (before : RuntimeSnapshot Mining Spam) (tuning : LiveTuning Mining Spam)
      (old : Store Desired World) (w : World)
      → All (ScopeInEffect context (λ _. next.generation) tuning w) scopes
      → (let saved = persist context next scopes attempted before (record old { world = w }) in
          IsTrue next tuning old saved.1 saved.0)
  unfolding persist IsTrue
  persist-IsTrue next scopes attempted before tuning old w h =
      elim (Result-cases (context.save next w)) [
        | inl (u, q) ↦ rw (q, persist) (refl, refl, refl, h)
        | inr (e, q) ↦
            rw (q, persist)
              (fail_with-IsTrue ErrorCode.internal (e ∷ []) attempted before next tuning old w)
      ]

  after_verification-IsTrue :
      (errors : List String) (next : ControlState Desired) (tuning : LiveTuning Mining Spam)
      (scopes attempted : List ServiceScope) (before : RuntimeSnapshot Mining Spam)
      (old : Store Desired World) (w : World)
      → (is_empty errors ≡ true
          → All (ScopeInEffect context (λ _. next.generation) tuning w) scopes)
      → (let done =
            after_verification context errors next scopes attempted before
              (record old { world = w }) in
          IsTrue next tuning old done.1 done.0)
  unfolding after_verification
  after_verification-IsTrue [] next tuning scopes attempted before old w h =
      persist-IsTrue next scopes attempted before tuning old w (h refl)
  after_verification-IsTrue (e ∷ errors) next tuning scopes attempted before old w h =
      fail_with-IsTrue ErrorCode.component_unavailable (e ∷ errors) attempted before next tuning old
        w

  after_commands-IsTrue :
      (error : Option String) (next : ControlState Desired) (tuning : LiveTuning Mining Spam)
      (scopes attempted : List ServiceScope) (reachable : Bool)
      (before : RuntimeSnapshot Mining Spam) (old : Store Desired World) (w : World)
      → (let done =
            after_commands context error next tuning scopes attempted reachable before
              (record old { world = w }) in
          IsTrue next tuning old done.1 done.0)
  unfolding after_commands
  after_commands-IsTrue (some e) next tuning scopes attempted reachable before old w =
      fail_with-IsTrue ErrorCode.component_unavailable (e ∷ []) attempted before next tuning old w
  after_commands-IsTrue none next tuning scopes attempted reachable before old w =
      let last = verify_last context tuning next.generation scopes reachable in
      let verified = verify_polls context stabilize_polls last w in
      after_verification-IsTrue verified.0 next tuning scopes attempted before old verified.1
        (verify_runtime_sound context tuning next.generation scopes reachable w)

  apply_scopes-IsTrue :
      (next : ControlState Desired) (tuning : LiveTuning Mining Spam) (scopes : List ServiceScope)
      (before : RuntimeSnapshot Mining Spam) (old : Store Desired World)
      → (let done = apply_scopes context next tuning scopes before old in
          IsTrue next tuning old done.1 done.0)
  unfolding apply_scopes
  apply_scopes-IsTrue next tuning scopes before old =
      let commanded = set_scopes context tuning next.generation scopes [] old.world in
      after_commands-IsTrue commanded.1 next tuning scopes commanded.0
        (context.node1_is_reachable old.world) before old commanded.2

  unchanged-IsTrue :
      (next : ControlState Desired) (tuning : LiveTuning Mining Spam) (old : Store Desired World)
      → (old.stored.desired == next.desired) ≡ true
      → IsTrue next tuning old old (unchanged old.stored.generation)
  unfolding IsTrue
  unchanged-IsTrue next tuning old h =
      (refl, refl, sym (==_sound old.stored.desired next.desired h))

  apply_from-IsTrue :
      (before : RuntimeSnapshot Mining Spam) (next : ControlState Desired)
      (tuning : LiveTuning Mining Spam) (old : Store Desired World)
      → (let done = apply_from context before next tuning old in
          IsTrue next tuning old done.1 done.0)
  unfolding apply_from
  apply_from-IsTrue before next tuning old =
      let scopes = scopes_needing_apply context before tuning next.generation in
      elim (Bool-cases ((old.stored.desired == next.desired) && is_empty scopes)) [
        | inl q ↦ rw (q, apply_from) (unchanged-IsTrue next tuning old (both_left _ _ q))
        | inr q ↦ rw (q, apply_from) (apply_scopes-IsTrue next tuning scopes before old)
      ]

  -- Whatever the workers, the node and the file system answer, the report of a transaction is true.
  -- If it reports no change, nothing was changed, and the stored configuration is the one asked for.
  -- If it reports an error, the stored configuration and its mirror in memory are the old ones. If it
  -- reports success, both are the new one, and every worker that it names answers in the end that
  -- the new policy is in effect, under the reported generation.
  pub apply_tuning-IsTrue :
      (now_ms : ℕ) (desired : Desired) (tuning : LiveTuning Mining Spam) (old : Store Desired World)
      → (let done = apply_tuning context now_ms desired tuning old in
          IsTrue (successful_apply now_ms old.stored desired) tuning old done.1 done.0)
  unfolding apply_tuning IsTrue
  apply_tuning-IsTrue now_ms desired tuning old =
      let next = successful_apply now_ms old.stored desired in
      elim (Result-cases (context.mining.status old.world)) [
        | inr (e, q) ↦ rw (q, apply_tuning) (refl, refl)
        | inl (mining, q) ↦ elim (Result-cases (context.spam.status old.world)) [
          | inr (e, r) ↦ rw (q, r, apply_tuning) (refl, refl)
          | inl (spam, r) ↦
              rw (q, r, apply_tuning)
                (apply_from-IsTrue (record { mining = mining; spam = spam }) next tuning old)
        ]
      ]
