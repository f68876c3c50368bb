-- ===== src/ControlPlane/Rewind/Execute.antt =====
-- crates/control-plane/src/rewind_job.rs: `execute`.
use simchain.Base.{
  ℕ, ◌+◌, ◌-◌, Bool, true, false, ◌&&◌, String, List, [], ◌∷◌, leb, if◌then◌else◌, Result, ok, err,
  ok_or, ensure, ◌>>=◌, ◌>>◌,
}
use simchain.ControlPlane.Rewind.{
  RewindNode, node2, all_nodes, invalidation_order, get, NodeMap, RewindNodeTip, invalidated,
  RewindJobRequest, RewindRecoveryContext, RequiredRecovery, prepared, max_rewind_blocks,
  min_rewind_target_height, RewindBackend, invalidates, Run, is_tip, common_tip, wait_for_exact_tip,
}
use simchain.ControlPlane.Rewind.Rollback.{save, mark, resolve, rollback_until_safe}

pub record NodeReport : Type 0 where
  pub node : RewindNode
  pub height : ℕ
  pub best_hash : String
  pub mempool_size : ℕ

-- the JSON result
pub data RewindResult : Type 0 where
  not_started : RewindResult
  rolled_back : (original_height : ℕ) (original_tip : String) → RewindResult
  rewound : (blocks : ℕ) → RequiredRecovery → List NodeReport → RewindResult

pub record RewindExecution : Type 0 where
  pub result : RewindResult
  pub chain_changed : Bool
  pub aborted : Bool

-- what a run answers; `still_rolling_back` while no attempt of a rollback has succeeded
pub data Answer : Type 0 where
  answered : Result String RewindExecution → Answer
  still_rolling_back : Answer

abbrev pub aborted_execution : RequiredRecovery → (chain_changed : Bool) → RewindExecution
aborted_execution plan chain_changed = record {
  result = rolled_back plan.original_height plan.original_tip;
  chain_changed = chain_changed;
  aborted = true;
}

module _ {World : Type 0} (backend : RewindBackend World) where
  -- the preconditions, and what they read off the chain
  unfoldable pub prepare : RewindJobRequest → World → Result String RequiredRecovery
  prepare request w =
      ensure (leb 1 request.blocks && leb request.blocks max_rewind_blocks)
        "rewind blocks must be between 1 and 100"
      >> common_tip backend w
      >>= λ original.
          ensure (leb request.blocks original.height)
            "rewind_precondition_failed: rewind exceeds current height"
          >> ensure (leb min_rewind_target_height (original.height - request.blocks))
              "rewind_precondition_failed: target height is below bootstrap floor"
          >> backend.block_hash node2 (original.height - request.blocks) w
          >>= λ target_tip.
              backend.block_hash node2 (original.height - request.blocks + 1) w >>= λ boundary.
              ok (record {
                original_height = original.height;
                original_tip = original.best_hash;
                target_height = original.height - request.blocks;
                target_tip = target_tip;
                boundary_hash = boundary;
              })

  -- `observer.abort_requested()`
  abbrev pub ask_abort : Run World → Bool × Run World
  ask_abort run =
      let (abort, w) = backend.abort_requested run.world in (abort, record run { world = w })

  unfoldable pub invalidate :
      RewindNode → (hash : String) → Run World → Result String (Unit {0}) × Run World
  invalidate node hash run =
      let (answer, w) = backend.invalidate_block node hash run.world in
      (answer, record { world = w; trace = invalidates node hash ∷ run.trace })

  -- the answer after a rollback that ended, with the attempts allowed to it
  unfoldable pub after_rollback :
      (attempts : ℕ)
      → Result String RewindExecution
      → RewindRecoveryContext
      → Run World
      → Answer × Run World
  after_rollback attempts result context run =
      let (done, run') = rollback_until_safe backend attempts context run in
      (if done then answered result else still_rolling_back, run')

  -- the node reached the target
  unfoldable pub verify : RequiredRecovery → RewindNode → World → Result String (Unit {0})
  verify plan node w = backend.tips w >>= λ tips. ok_or (get node tips) "tip disappeared" >>= λ tip.
      ensure (is_tip plan.target_height plan.target_tip tip) "stopped at another height or hash"

  -- the report on the nodes, once the rewind stands
  unfoldable pub report_nodes :
      NodeMap RewindNodeTip → List RewindNode → World → Result String (List NodeReport)
  report_nodes tips [] w = ok []
  report_nodes tips (node ∷ nodes) w = ok_or (get node tips) "final tip is missing" >>= λ tip.
      backend.mempool_size node w >>= λ size. report_nodes tips nodes w >>= λ reports. ok (
        record { node = node; height = tip.height; best_hash = tip.best_hash; mempool_size = size }
        ∷ reports)

  unfoldable pub conclude :
      RewindJobRequest
      → RequiredRecovery
      → (chain_changed : Bool) → World
      → Result String RewindExecution
  conclude request plan chain_changed w = backend.tips w >>= λ tips.
      report_nodes tips all_nodes w >>= λ reports. ok (record {
        result = rewound request.blocks plan reports;
        chain_changed = chain_changed;
        aborted = false;
      })

  -- after the last node: convergence, the final context, and the report
  unfoldable pub finish :
      (attempts : ℕ)
      → RewindJobRequest
      → RequiredRecovery
      → (chain_changed : Bool) → RewindRecoveryContext
      → Run World
      → Answer × Run World
  finish attempts request plan chain_changed context run =
      let (abort, asked) = ask_abort run in
      if abort
      then after_rollback attempts (ok (aborted_execution plan chain_changed)) context asked
      else (let (converged, w) =
            wait_for_exact_tip backend plan.target_height plan.target_tip asked.world in
          let run' = record asked { world = w } in
          elim converged [
            | err e ↦ after_rollback attempts (err e) context run'
            | ok _ ↦
                let (saved, run'') = save backend (resolve context) run' in
                elim saved [
                  | err e ↦ (answered (err e), run'')
                  | ok _ ↦ (answered (conclude request plan chain_changed run''.world), run'')
                ]
          ])

  -- the loop over the nodes
  unfoldable pub invalidate_all :
      (attempts : ℕ)
      → RewindJobRequest
      → RequiredRecovery
      → List RewindNode
      → (chain_changed : Bool) → RewindRecoveryContext
      → Run World
      → Answer × Run World
  invalidate_all attempts request plan [] chain_changed context run =
      finish attempts request plan chain_changed context run
  invalidate_all attempts request plan (node ∷ nodes) chain_changed context run =
      let (abort, asked) = ask_abort run in
      elim abort [
        | true ↦ after_rollback attempts (ok (aborted_execution plan chain_changed)) context asked
        | false ↦
            let (mutation, run') = invalidate node plan.boundary_hash asked in
            elim mutation [
              | err e ↦ after_rollback attempts (err e) context run'
              | ok _ ↦ elim (verify plan node run'.world) [
                | err e ↦ after_rollback attempts (err e) context run'
                | ok _ ↦
                    let context' = mark node invalidated context in
                    let (saved, run'') = save backend context' run' in
                    elim saved [
                      | err e ↦ after_rollback attempts (err e) context' run''
                      | ok _ ↦ invalidate_all attempts request plan nodes true context' run''
                    ]
              ]
            ]
      ]

  -- from the first saved context on
  unfoldable pub execute_planned :
      (attempts : ℕ) → RewindJobRequest → RequiredRecovery → Run World → Answer × Run World
  execute_planned attempts request plan run =
      let context = prepared request plan in
      let (saved, run') = save backend context run in
      elim saved [
        | err e ↦ (answered (err e), run')
        | ok _ ↦
            let (abort, asked) = ask_abort run' in
            if abort
            then (let (saved', run'') = save backend (resolve context) asked in
                elim saved' [
                  | err e ↦ (answered (err e), run'')
                  | ok _ ↦ (
                    answered (
                        ok
                          (record { result = not_started; chain_changed = false; aborted = true })),
                    run'',
                  )
                ])
            else invalidate_all attempts request plan invalidation_order false context asked
      ]

  -- `attempts` bounds the attempts of a rollback, which the source repeats until one succeeds
  unfoldable pub execute : (attempts : ℕ) → RewindJobRequest → Run World → Answer × Run World
  execute attempts request run = elim (prepare request run.world) [
    | err e ↦ (answered (err e), run)
    | ok plan ↦ execute_planned attempts request plan run
  ]
