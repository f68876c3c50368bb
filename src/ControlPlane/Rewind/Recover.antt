-- ===== src/ControlPlane/Rewind/Recover.antt =====
-- crates/control-plane/src/rewind_job.rs: `recover`, which takes up the last saved context after an
-- interruption.
use simchain.Base.{
  Bool, true, false, not, ◌||◌, String, none, some, [], ◌∷◌, ltb, if◌then◌else◌, all, Result, ok,
  err,
}
use simchain.ControlPlane.Rewind.{
  RewindRecoveryContext, RequiredRecovery, required, values, RewindBackend, Run, is_tip, tips_equal,
  common_chain_contains,
}
use simchain.ControlPlane.Rewind.Rollback.{save, resolve, rollback_once}

module _ {World : Type 0} (backend : RewindBackend World) where
  -- above the target, the rewound branch may have been built on, and the original one must be gone
  unfoldable pub built_on_target : RequiredRecovery → World → Result String Bool
  built_on_target plan w = elim (backend.tips w) [
    | err e ↦ err e
    | ok tips ↦ elim (values tips) [
      | [] ↦ ok false
      | common ∷ rest ↦
          if not (all (is_tip common.height common.best_hash) rest)
            || ltb common.height plan.target_height
          then ok false
          else elim (common_chain_contains backend plan.target_height plan.target_tip w) [
            | err e ↦ err e
            | ok false ↦ ok false
            | ok true ↦
                if ltb common.height plan.original_height
                then ok true
                else elim (common_chain_contains backend plan.original_height plan.original_tip w) [
                  | err e ↦ err e
                  | ok there ↦ ok (not there)
                ]
          ]
    ]
  ]

  unfoldable pub completed_rewind_is_safe : RewindRecoveryContext → World → Result String Bool
  completed_rewind_is_safe context w = elim (required context) [
    | err e ↦ err e
    | ok plan ↦ elim (tips_equal backend plan.target_height plan.target_tip w) [
      | err e ↦ err e
      | ok true ↦ ok true
      | ok false ↦ built_on_target plan w
    ]
  ]

  unfoldable pub recover : RewindRecoveryContext → Run World → Result String (Unit {0}) × Run World
  recover context run = elim context.boundary_hash [
    | none ↦ (ok tt, run)
    | some _ ↦ elim (completed_rewind_is_safe context run.world) [
      | err e ↦ (err e, run)
      | ok true ↦ save backend (resolve context) run
      | ok false ↦ let (answer, _, run') = rollback_once backend context run in (answer, run')
    ]
  ]
