-- ===== src/ControlPlane/Apply/Restoration.antt =====
-- crates/control-plane/src/apply.rs: which workers are restored when a transaction fails after its
-- first command.
use simchain.Base.{
  ℕ, Bool, true, false, String, Option, none, some, List, [], ◌∷◌, ◌++◌, ◌≡◌, ◌⊎◌, arith,
  if◌then◌else◌, Eq, All, Result-cases, ok, inl, inr, ap, ◌∙◌,
}
use simchain.ControlPlane.Apply.{
  ServiceScope, ControlState, LiveTuning, RuntimeSnapshot, RollbackReport, ErrorCode, Applied,
  refused, ApplyContext, Store, stabilize_polls, set_scope, set_scopes,
}
use simchain.ControlPlane.Apply.Transaction.{
  verify_last, verify_polls, restore_scopes, rollback_runtime, fail_with, persist, apply_scopes,
  after_commands, after_verification,
}
use simchain.ControlPlane.Apply.Checks.{Restored, verify_rollback_sound}

reported_code :
    (b : Bool) (code reported : ErrorCode) (messages messages' : List String)
    (r r' : Option RollbackReport)
    → b ≡ true
    → refused (if b then code else ErrorCode.rollback_failed) messages r
      ≡ refused reported messages' r'
    → reported ≡ code
reported_code true code reported messages messages' r r' h q = cc
reported_code false code reported messages messages' r r' h q = absurd (cc)

All-append_left : {A : Type 0} (P : A → Type 0) (xs ys : List A) → All P (xs ++ ys) → All P xs
All-append_left P [] ys h = tt
All-append_left P (x ∷ xs) ys (h, hs) = (h, All-append_left P xs ys hs)

All-append_last : {A : Type 0} (P : A → Type 0) (xs : List A) (y : A) → All P (xs ++ y ∷ []) → P y
All-append_last P [] y (h, hs) = h
All-append_last P (x ∷ xs) y (h, hs) = All-append_last P xs y hs

module _ {Mining Spam Desired World : Type 0} ⦃m : Eq Mining⦄ ⦃s : Eq Spam⦄ ⦃d : Eq Desired⦄
    (context : ApplyContext Mining Spam Desired World) where
  rollback_runtime_sound :
      (attempted : List ServiceScope) (before : RuntimeSnapshot Mining Spam) (w : World)
      → (rollback_runtime context attempted before w).0.runtime_restored ≡ true
      → All (Restored context before (rollback_runtime context attempted before w).1) attempted
  unfolding rollback_runtime
  rollback_runtime_sound attempted before w h =
      verify_rollback_sound context attempted before (restore_scopes context before attempted w).1
        (ground arith)

  fail_with-restores :
      (code reported : ErrorCode) (messages messages' : List String) (attempted : List ServiceScope)
      (before : RuntimeSnapshot Mining Spam) (store : Store Desired World) (report : RollbackReport)
      → (fail_with context code messages attempted before store).0
        ≡ refused reported messages' (some report)
      → report.runtime_restored ≡ true
      → (reported ≡ code)
        × All
            (Restored context before
              (fail_with context code messages attempted before store).1.world)
            attempted
  unfolding fail_with
  fail_with-restores code reported messages messages' attempted before store report q h =
      let rollback = rollback_runtime context attempted before store.world in
      let same : rollback.0 ≡ report = cc in
      let restored : rollback.0.runtime_restored ≡ true = ap (λ r. r.runtime_restored) same ∙ h in
      (
        reported_code rollback.0.runtime_restored code reported messages messages' (some rollback.0)
            (some report) restored q,
        rollback_runtime_sound attempted before store.world restored,
      )

  -- the workers that are sent a command, from a world on: each in turn, until a command fails
  pub data Commanded (tuning : LiveTuning Mining Spam) (generation : ℕ)
      : List ServiceScope → World → ServiceScope → Type 0 where
    now :
        {scope : ServiceScope} {scopes : List ServiceScope} {w : World}
        → Commanded tuning generation (scope ∷ scopes) w scope
    later :
        {scope : ServiceScope} {scopes : List ServiceScope} {w : World} {commanded : ServiceScope}
        → (set_scope context tuning generation scope w).0 ≡ ok tt
        → Commanded tuning generation scopes
            (set_scope context tuning generation scope w).1
            commanded
        → Commanded tuning generation (scope ∷ scopes) w commanded

  set_scopes-attempted :
      (P : ServiceScope → Type 0) (tuning : LiveTuning Mining Spam) (generation : ℕ)
      (scopes attempted : List ServiceScope) (w : World)
      → All P (set_scopes context tuning generation scopes attempted w).0
      → All P attempted
  unfolding set_scopes
  set_scopes-attempted P tuning generation [] attempted w h = h
  set_scopes-attempted P tuning generation (scope ∷ scopes) attempted w h =
      let called = set_scope context tuning generation scope w in
      elim (Result-cases called.0) [
        | inl (u, q) ↦ All-append_left P attempted (scope ∷ []) (
            set_scopes-attempted P tuning generation scopes (attempted ++ scope ∷ []) called.1
              (rw (q, set_scopes) at h))
        | inr (e, q) ↦ All-append_left P attempted (scope ∷ []) (rw (q, set_scopes) at h)
      ]

  set_scopes-Commanded :
      (P : ServiceScope → Type 0) (tuning : LiveTuning Mining Spam) (generation : ℕ)
      (scopes attempted : List ServiceScope) (w : World) (commanded : ServiceScope)
      → Commanded tuning generation scopes w commanded
      → All P (set_scopes context tuning generation scopes attempted w).0
      → P commanded
  unfolding set_scopes
  set_scopes-Commanded P tuning generation [] attempted w commanded c h = elim c [ ]
  set_scopes-Commanded P tuning generation (scope ∷ scopes) attempted w commanded now h =
      let called = set_scope context tuning generation scope w in
      elim (Result-cases called.0) [
        | inl (u, q) ↦ All-append_last P attempted scope (
            set_scopes-attempted P tuning generation scopes (attempted ++ scope ∷ []) called.1
              (rw (q, set_scopes) at h))
        | inr (e, q) ↦ All-append_last P attempted scope (rw (q, set_scopes) at h)
      ]
  set_scopes-Commanded P tuning generation (scope ∷ scopes) attempted w commanded (later q c) h =
      let called = set_scope context tuning generation scope w in
      set_scopes-Commanded P tuning generation scopes (attempted ++ scope ∷ []) called.1 commanded c
        (rw (q, set_scopes) at h)

  -- if the workers are reported as restored, the error has its own code, and these workers are
  Restores : RuntimeSnapshot Mining Spam → List ServiceScope → Applied → World → Type 0
  Restores before attempted answer w =
      (reported : ErrorCode) (messages : List String) (report : RollbackReport)
      → answer ≡ refused reported messages (some report)
      → report.runtime_restored ≡ true
      → ((reported ≡ ErrorCode.component_unavailable) ⊎ (reported ≡ ErrorCode.internal))
        × All (Restored context before w) attempted

  unavailable-Restores :
      (messages : List String) (attempted : List ServiceScope)
      (before : RuntimeSnapshot Mining Spam) (store : Store Desired World)
      → (let failed =
            fail_with context ErrorCode.component_unavailable messages attempted before store in
          Restores before attempted failed.0 failed.1.world)
  unfolding Restores
  unavailable-Restores messages attempted before store reported messages' report q h =
      let (c, all) =
        fail_with-restores ErrorCode.component_unavailable reported messages messages' attempted
          before store report q h in
      (inl c, all)

  persist-Restores :
      (next : ControlState Desired) (scopes attempted : List ServiceScope)
      (before : RuntimeSnapshot Mining Spam) (store : Store Desired World)
      → (let saved = persist context next scopes attempted before store in
          Restores before attempted saved.0 saved.1.world)
  unfolding persist Restores
  persist-Restores next scopes attempted before store =
      elim (Result-cases (context.save next store.world)) [
        | inl (u, q) ↦ rw (q, persist) (λ reported messages report r h. absurd (cc))
        | inr (e, q) ↦
            rw (q, persist)
              (λ reported messages report r h.
                let (c, all) =
                  fail_with-restores ErrorCode.internal reported (e ∷ []) messages attempted before
                    store report r h in
                (inr c, all))
      ]

  after_verification-Restores :
      (errors : List String) (next : ControlState Desired) (scopes attempted : List ServiceScope)
      (before : RuntimeSnapshot Mining Spam) (store : Store Desired World)
      → (let done = after_verification context errors next scopes attempted before store in
          Restores before attempted done.0 done.1.world)
  unfolding after_verification
  after_verification-Restores [] next scopes attempted before store =
      persist-Restores next scopes attempted before store
  after_verification-Restores (e ∷ errors) next scopes attempted before store =
      unavailable-Restores (e ∷ errors) attempted before store

  after_commands-Restores :
      (error : Option String) (next : ControlState Desired) (tuning : LiveTuning Mining Spam)
      (scopes attempted : List ServiceScope) (reachable : Bool)
      (before : RuntimeSnapshot Mining Spam) (store : Store Desired World)
      → (let done =
            after_commands context error next tuning scopes attempted reachable before store in
          Restores before attempted done.0 done.1.world)
  unfolding after_commands
  after_commands-Restores (some e) next tuning scopes attempted reachable before store =
      unavailable-Restores (e ∷ []) attempted before store
  after_commands-Restores none next tuning scopes attempted reachable before store =
      let last = verify_last context tuning next.generation scopes reachable in
      let verified = verify_polls context stabilize_polls last store.world in
      after_verification-Restores verified.0 next scopes attempted before
        (record store { world = verified.1 })

  -- Let the transaction, from its commands on, fail with a report that the workers were restored.
  -- Then its code is that of an unavailable component or of an internal error, not that of a failed
  -- rollback, and each worker that was sent a command, the one whose command failed included, answers
  -- in the end that the policy and the generation of the snapshot are in effect.
  pub apply_scopes-restores :
      (next : ControlState Desired) (tuning : LiveTuning Mining Spam) (scopes : List ServiceScope)
      (before : RuntimeSnapshot Mining Spam) (store : Store Desired World) (reported : ErrorCode)
      (messages : List String) (report : RollbackReport) (commanded : ServiceScope)
      → (apply_scopes context next tuning scopes before store).0
        ≡ refused reported messages (some report)
      → report.runtime_restored ≡ true
      → Commanded tuning next.generation scopes store.world commanded
      → ((reported ≡ ErrorCode.component_unavailable) ⊎ (reported ≡ ErrorCode.internal))
        × Restored context before
            (apply_scopes context next tuning scopes before store).1.world
            commanded
  unfolding apply_scopes Restores
  apply_scopes-restores next tuning scopes before store reported messages report commanded q h c =
      let sent = set_scopes context tuning next.generation scopes [] store.world in
      let (code, all) =
        after_commands-Restores sent.1 next tuning scopes sent.0
          (context.node1_is_reachable store.world) before (record store { world = sent.2 }) reported
          messages report q h in
      (code, set_scopes-Commanded _ tuning next.generation scopes [] store.world commanded c all)
