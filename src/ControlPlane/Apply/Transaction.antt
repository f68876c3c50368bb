-- ===== src/ControlPlane/Apply/Transaction.antt =====
-- crates/control-plane/src/apply.rs: `apply_with_context` from the snapshot of the workers on.
use simchain.Base.{
  ℕ, zero, suc, Bool, true, false, not, ◌&&◌, String, Option, none, some, List, [], ◌∷◌, ◌++◌,
  if◌then◌else◌, Result, ok, err, Eq, ◌==◌,
}
use simchain.ControlPlane.Apply.{
  ServiceScope, ControlState, LiveTuning, RuntimeSnapshot, RollbackReport, ErrorCode, Applied,
  unchanged, committed, refused, ApplyContext, Store, stabilize_polls, successful_apply,
  scopes_needing_apply, set_scopes, verify_scope, restored_scope, errors_of, failures_of,
}

abbrev pub is_empty : {A : Type 0} → List A → Bool
is_empty [] = true
is_empty (_ ∷ _) = false

module _ {Mining Spam Desired World : Type 0} ⦃m : Eq Mining⦄ ⦃s : Eq Spam⦄ ⦃d : Eq Desired⦄
    (context : ApplyContext Mining Spam Desired World) where
  -- what the last poll of `verify_runtime` finds
  unfoldable pub verify_last :
      LiveTuning Mining Spam
      → ℕ
      → List ServiceScope
      → (node1_reachable_before : Bool) → World
      → List String
  verify_last tuning generation scopes reachable w =
      let errors = errors_of (verify_scope context tuning generation w) scopes in
      if not (is_empty errors)
      then errors
      else if reachable && not (context.node1_is_reachable w)
      then "node1 RPC became unreachable after the apply" ∷ []
      else []

  -- the polls of `verify_runtime`, each after one interval; only what the last one finds is returned
  unfoldable pub verify_polls : (polls : ℕ) → (World → List String) → World → List String × World
  verify_polls zero last w = ([], w)
  verify_polls (suc zero) last w = (last (context.wait w), context.wait w)
  verify_polls (suc (suc polls)) last w = verify_polls (suc polls) last (context.wait w)

  -- the polls of `verify_rollback`, with one interval between two of them
  unfoldable pub rollback_polls : (polls : ℕ) → (World → List String) → World → List String × World
  rollback_polls zero last w = ([], w)
  rollback_polls (suc zero) last w = (last w, w)
  rollback_polls (suc (suc polls)) last w = rollback_polls (suc polls) last (context.wait w)

  unfoldable pub restore_scope :
      RuntimeSnapshot Mining Spam → ServiceScope → World → Result String (Unit {0}) × World
  restore_scope before ServiceScope.mining_controller w =
      context.mining.restore_policy before.mining.effective_generation before.mining.policy w
  restore_scope before ServiceScope.spammer w =
      context.spam.restore_policy before.spam.effective_generation before.spam.policy w

  unfoldable pub restore_scopes :
      RuntimeSnapshot Mining Spam → List ServiceScope → World → List String × World
  restore_scopes before [] w = ([], w)
  restore_scopes before (scope ∷ scopes) w =
      let (answer, w') = restore_scope before scope w in
      let (messages, w'') = restore_scopes before scopes w' in (failures_of answer ++ messages, w'')

  unfoldable pub verify_rollback :
      List ServiceScope → RuntimeSnapshot Mining Spam → World → List String × World
  verify_rollback scopes before =
      rollback_polls stabilize_polls (λ w. errors_of (restored_scope context before w) scopes)

  unfoldable pub rollback_runtime :
      List ServiceScope → RuntimeSnapshot Mining Spam → World → RollbackReport × World
  rollback_runtime scopes before w =
      let (messages, w') = restore_scopes before scopes w in
      let (errors, w'') = verify_rollback scopes before w' in
      (
        record {
          desired_state_preserved = true;
          runtime_restored = is_empty messages && is_empty errors;
          messages = messages ++ errors;
        },
        w'',
      )

  -- an error that comes after the first command: the workers are restored first
  unfoldable pub fail_with :
      ErrorCode
      → (messages : List String) (attempted : List ServiceScope) → RuntimeSnapshot Mining Spam
      → Store Desired World
      → Applied × Store Desired World
  fail_with code messages attempted before store =
      let (report, w) = rollback_runtime attempted before store.world in
      (
        refused (if report.runtime_restored then code else ErrorCode.rollback_failed) messages
            (some report),
        record store { world = w },
      )

  -- saving, once the workers have been verified
  unfoldable pub persist :
      ControlState Desired
      → (scopes attempted : List ServiceScope) → RuntimeSnapshot Mining Spam
      → Store Desired World
      → Applied × Store Desired World
  persist next scopes attempted before store = elim (context.save next store.world) [
    | err e ↦ fail_with ErrorCode.internal (e ∷ []) attempted before store
    | ok _ ↦ (
      committed next.generation scopes,
      record { stored = next; control_state = next; world = store.world },
    )
  ]

  -- by what `verify_runtime` found
  unfoldable pub after_verification :
      (errors : List String)
      → ControlState Desired
      → (scopes attempted : List ServiceScope) → RuntimeSnapshot Mining Spam
      → Store Desired World
      → Applied × Store Desired World
  after_verification [] next scopes attempted before store =
      persist next scopes attempted before store
  after_verification (e ∷ errors) next scopes attempted before store =
      fail_with ErrorCode.component_unavailable (e ∷ errors) attempted before store

  -- by the error, if any, that ended the commands
  unfoldable pub after_commands :
      Option String
      → ControlState Desired
      → LiveTuning Mining Spam
      → (scopes attempted : List ServiceScope) (reachable : Bool) → RuntimeSnapshot Mining Spam
      → Store Desired World
      → Applied × Store Desired World
  after_commands (some e) next tuning scopes attempted reachable before store =
      fail_with ErrorCode.component_unavailable (e ∷ []) attempted before store
  after_commands none next tuning scopes attempted reachable before store =
      let last = verify_last tuning next.generation scopes reachable in
      let (errors, w) = verify_polls stabilize_polls last store.world in
      after_verification errors next scopes attempted before (record store { world = w })

  -- the commands to the workers, and what follows them
  unfoldable pub apply_scopes :
      ControlState Desired
      → LiveTuning Mining Spam
      → (scopes : List ServiceScope) → RuntimeSnapshot Mining Spam
      → Store Desired World
      → Applied × Store Desired World
  apply_scopes next tuning scopes before store =
      let reachable = context.node1_is_reachable store.world in
      let (attempted, error, w) = set_scopes context tuning next.generation scopes [] store.world in
      after_commands error next tuning scopes attempted reachable before
        (record store { world = w })

  -- from the snapshot of the workers on
  unfoldable pub apply_from :
      RuntimeSnapshot Mining Spam
      → ControlState Desired
      → LiveTuning Mining Spam
      → Store Desired World
      → Applied × Store Desired World
  apply_from before next tuning store =
      let scopes = scopes_needing_apply context before tuning next.generation in
      if store.stored.desired == next.desired && is_empty scopes
      then (unchanged store.stored.generation, store)
      else apply_scopes next tuning scopes before store

  unfoldable pub apply_tuning :
      (now_ms : ℕ)
      → Desired
      → LiveTuning Mining Spam
      → Store Desired World
      → Applied × Store Desired World
  apply_tuning now_ms desired tuning store =
      let next = successful_apply now_ms store.stored desired in
      elim (context.mining.status store.world) [
        | err e ↦ (refused ErrorCode.component_unavailable (e ∷ []) none, store)
        | ok mining ↦ elim (context.spam.status store.world) [
          | err e ↦ (refused ErrorCode.component_unavailable (e ∷ []) none, store)
          | ok spam ↦ apply_from (record { mining = mining; spam = spam }) next tuning store
        ]
      ]
