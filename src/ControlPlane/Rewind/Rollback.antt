-- ===== src/ControlPlane/Rewind/Rollback.antt =====
-- crates/control-plane/src/rewind_job.rs: `rollback_once` and `rollback_until_safe`.
use simchain.Base.{ℕ, zero, suc, Bool, true, false, String, List, [], ◌∷◌, Result, ok, err}
use simchain.ControlPlane.Rewind.{
  RewindNode, all_nodes, insert, RewindNodeState, restored, RewindRecoveryContext, RequiredRecovery,
  required, RewindBackend, persisted, reconsiders, Run, common_chain_contains,
}

abbrev pub mark : RewindNode → RewindNodeState → RewindRecoveryContext → RewindRecoveryContext
mark node state context = record context {
  per_node_state = insert node state context.per_node_state;
}

abbrev pub resolve : RewindRecoveryContext → RewindRecoveryContext
resolve context = record context { resolved = true }

module _ {World : Type 0} (backend : RewindBackend World) where
  -- `observer.persist(context)`, which leaves a trace if it succeeds
  unfoldable pub save : RewindRecoveryContext → Run World → Result String (Unit {0}) × Run World
  save context run = elim (backend.persist context run.world) [
    | err e ↦ (err e, run)
    | ok _ ↦ (ok tt, record run { trace = persisted context ∷ run.trace })
  ]

  unfoldable pub reconsider :
      RewindNode → (hash : String) → Run World → Result String (Unit {0}) × Run World
  reconsider node hash run =
      let (answer, w) = backend.reconsider_block node hash run.world in
      (answer, record { world = w; trace = reconsiders node hash ∷ run.trace })

  -- the first loop of `rollback_once`: each node, and a saved context after each
  unfoldable pub reconsider_all :
      List RewindNode
      → (boundary_hash : String) → RewindRecoveryContext
      → Run World
      → Result String (Unit {0}) × RewindRecoveryContext × Run World
  reconsider_all [] boundary context run = (ok tt, context, run)
  reconsider_all (node ∷ nodes) boundary context run =
      let (answer, run') = reconsider node boundary run in
      elim answer [
        | err e ↦ (err e, context, run')
        | ok _ ↦
            let context' = mark node restored context in
            let (saved, run'') = save context' run' in
            elim saved [
              | err e ↦ (err e, context', run'')
              | ok _ ↦ reconsider_all nodes boundary context' run''
            ]
      ]

  -- the second loop: the rounds in which the original branch may come back
  unfoldable pub await_original :
      (rounds : ℕ)
      → RequiredRecovery
      → RewindRecoveryContext
      → Run World
      → Result String (Unit {0}) × RewindRecoveryContext × Run World
  await_original zero plan context run = (err "rewind_rollback_failed", context, run)
  await_original (suc rounds) plan context run =
      elim (common_chain_contains backend plan.original_height plan.original_tip run.world) [
        | err e ↦ (err e, context, run)
        | ok false ↦
            await_original rounds plan context (record run { world = backend.wait 250 run.world })
        | ok true ↦
            let context' = resolve context in
            let (saved, run') = save context' run in (saved, context', run')
      ]

  unfoldable pub rollback_once :
      RewindRecoveryContext
      → Run World
      → Result String (Unit {0}) × RewindRecoveryContext × Run World
  rollback_once context run = elim (required context) [
    | err e ↦ (err e, context, run)
    | ok plan ↦
        let (answer, context', run') = reconsider_all all_nodes plan.boundary_hash context run in
        elim answer [
          | err e ↦ (err e, context', run')
          | ok _ ↦ await_original 40 plan context' run'
        ]
  ]

  -- the loop of `rollback_until_safe`, which ends by a success only: has one of the attempts had it
  unfoldable pub rollback_until_safe :
      (attempts : ℕ) → RewindRecoveryContext → Run World → Bool × Run World
  rollback_until_safe zero context run = (false, run)
  rollback_until_safe (suc attempts) context run =
      let (answer, context', run') = rollback_once context run in
      elim answer [
        | ok _ ↦ (true, run')
        | err e ↦
            rollback_until_safe attempts context'
              (record run' { world = backend.wait 2000 run'.world })
      ]
