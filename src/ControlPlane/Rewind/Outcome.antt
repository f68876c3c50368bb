-- ===== src/ControlPlane/Rewind/Outcome.antt =====
-- crates/control-plane/src/rewind_job.rs: what `execute` answers is true of the nodes.
use simchain.Base.{
  ℕ, Bool, true, false, String, List, [], ◌∷◌, ◌≡◌, ◌⊎◌, refl, sym, ◌∙◌, ok, err, Result-cases,
  Bool-cases, inl, inr, subst,
}
use simchain.ControlPlane.Rewind.{
  RewindNode, all_nodes, invalidation_order, invalidated, RewindJobRequest, RewindRecoveryContext,
  RequiredRecovery, required, prepared, RewindBackend, Event, persisted, invalidates, reconsiders,
  Run, wait_for_exact_tip,
}
use simchain.ControlPlane.Rewind.Rollback.{save, mark, resolve, rollback_until_safe}
use simchain.ControlPlane.Rewind.Execute.{
  RewindResult, not_started, rolled_back, rewound, Answer, answered, still_rolling_back, prepare,
  invalidate, after_rollback, aborted_execution, ask_abort, verify, report_nodes, conclude, finish,
  invalidate_all, execute_planned, execute,
}
use simchain.ControlPlane.Rewind.Trace.{required-mark}
use simchain.ControlPlane.Rewind.Truth.{
  AtTarget, BranchIsBack, save-world, rollback_until_safe-back, wait_for_exact_tip-reached,
}

-- no mutation was asked for
abbrev pub Untouched : List Event → Type 0
Untouched [] = Unit
Untouched (persisted c ∷ trace) = Untouched trace
Untouched (invalidates node hash ∷ trace) = ⊥
Untouched (reconsiders node hash ∷ trace) = ⊥

module _ {World : Type 0} (backend : RewindBackend World) (request : RewindJobRequest)
    (plan : RequiredRecovery) where
  abbrev pub ResultIsTrue : RewindResult → Run World → Type 0
  ResultIsTrue not_started run = Untouched run.trace
  ResultIsTrue (rolled_back height tip) run =
      (height ≡ plan.original_height)
      × (tip ≡ plan.original_tip)
      × BranchIsBack backend plan run.world
  ResultIsTrue (rewound blocks target reports) run =
      (blocks ≡ request.blocks) × (target ≡ plan) × AtTarget backend plan run.world

  -- what an answer promises of the run that it ends
  abbrev pub IsTrue : Answer → Run World → Type 0
  IsTrue (answered (ok execution)) run = ResultIsTrue execution.result run
  IsTrue (answered (err message)) run =
      Untouched run.trace ⊎ (BranchIsBack backend plan run.world ⊎ AtTarget backend plan run.world)
  IsTrue still_rolling_back run = Unit

  failed_back-IsTrue :
      (attempts : ℕ) (e : String) (c : RewindRecoveryContext) (run : Run World)
      → required c ≡ ok plan
      → (let done = after_rollback backend attempts (err e) c run in IsTrue done.0 done.1)
  unfolding after_rollback
  failed_back-IsTrue attempts e c run r =
      elim (Bool-cases (rollback_until_safe backend attempts c run).0) [
        | inl q ↦
            rw (q, after_rollback)
              (inr (inl (rollback_until_safe-back backend attempts plan c run r q)))
        | inr q ↦ rw (q, after_rollback) tt
      ]

  aborted_back-IsTrue :
      (attempts : ℕ) (changed : Bool) (c : RewindRecoveryContext) (run : Run World)
      → required c ≡ ok plan
      → (let done = after_rollback backend attempts (ok (aborted_execution plan changed)) c run in
          IsTrue done.0 done.1)
  unfolding after_rollback
  aborted_back-IsTrue attempts changed c run r =
      elim (Bool-cases (rollback_until_safe backend attempts c run).0) [
        | inl q ↦
            rw (q, after_rollback)
              (refl, refl, rollback_until_safe-back backend attempts plan c run r q)
        | inr q ↦ rw (q, after_rollback) tt
      ]

  conclude-IsTrue :
      (changed : Bool) (run : Run World)
      → AtTarget backend plan run.world
      → IsTrue (answered (conclude backend request plan changed run.world)) run
  unfolding conclude
  conclude-IsTrue changed run h = elim (Result-cases (backend.tips run.world)) [
    | inr (e, q) ↦ rw (q, conclude) (inr (inr h))
    | inl (tips, q) ↦ elim (Result-cases (report_nodes backend tips all_nodes run.world)) [
      | inr (e, s) ↦ rw (q, s, conclude) (inr (inr h))
      | inl (reports, s) ↦ rw (q, s, conclude) (refl, refl, h)
    ]
  ]

  finish-IsTrue :
      (attempts : ℕ) (changed : Bool) (c : RewindRecoveryContext) (run : Run World)
      → required c ≡ ok plan
      → (let done = finish backend attempts request plan changed c run in IsTrue done.0 done.1)
  unfolding finish
  finish-IsTrue attempts changed c start r =
      let run : Run World = (ask_abort backend start).1 in
      let waited = wait_for_exact_tip backend plan.target_height plan.target_tip run.world in
      let run' = record run { world = waited.1 } in
      let saved = save backend (resolve c) run' in
      elim (Bool-cases ((ask_abort backend start).0)) [
        | inl a ↦ rw (a, finish) (aborted_back-IsTrue attempts changed c run r)
        | inr a ↦ elim (Result-cases waited.0) [
          | inr (e, q) ↦ rw (a, q, finish) (failed_back-IsTrue attempts e c run' r)
          | inl (u, q) ↦
              let reached = wait_for_exact_tip-reached backend plan run.world u q in
              let stands : AtTarget backend plan saved.1.world =
                subst (AtTarget backend plan) (sym (save-world backend (resolve c) run')) reached in
              elim (Result-cases saved.0) [
                | inr (e, s) ↦ rw (a, q, s, finish) (inr (inr stands))
                | inl (v, s) ↦ rw (a, q, s, finish) (conclude-IsTrue changed saved.1 stands)
              ]
        ]
      ]

  invalidate_all-IsTrue :
      (attempts : ℕ) (nodes : List RewindNode) (changed : Bool) (c : RewindRecoveryContext)
      (run : Run World)
      → required c ≡ ok plan
      → (let done = invalidate_all backend attempts request plan nodes changed c run in
          IsTrue done.0 done.1)
  unfolding invalidate_all
  invalidate_all-IsTrue attempts [] changed c run r = finish-IsTrue attempts changed c run r
  invalidate_all-IsTrue attempts (node ∷ nodes) changed c start r =
      let run : Run World = (ask_abort backend start).1 in
      let asked = invalidate backend node plan.boundary_hash run in
      let c' = mark node invalidated c in
      let r' : required c' ≡ ok plan = required-mark node invalidated c ∙ r in
      let saved = save backend c' asked.1 in
      elim (Bool-cases ((ask_abort backend start).0)) [
        | inl a ↦ rw (a, invalidate_all) (aborted_back-IsTrue attempts changed c run r)
        | inr a ↦ elim (Result-cases asked.0) [
          | inr (e, q) ↦ rw (a, q, invalidate_all) (failed_back-IsTrue attempts e c asked.1 r)
          | inl (v, q) ↦ elim (Result-cases (verify backend plan node asked.1.world)) [
            | inr (e, s) ↦ rw (a, q, s, invalidate_all) (failed_back-IsTrue attempts e c asked.1 r)
            | inl (v', s) ↦ elim (Result-cases saved.0) [
              | inr (e, t) ↦
                  rw (a, q, s, t, invalidate_all) (failed_back-IsTrue attempts e c' saved.1 r')
              | inl (v'', t) ↦
                  rw (a, q, s, t, invalidate_all)
                    (invalidate_all-IsTrue attempts nodes true c' saved.1 r')
            ]
          ]
        ]
      ]

  save-Untouched :
      (c : RewindRecoveryContext) (run : Run World)
      → Untouched run.trace
      → Untouched (save backend c run).1.trace
  unfolding save
  save-Untouched c run h = elim (Result-cases (backend.persist c run.world)) [
    | inl (v, p) ↦ rw (p, save) h
    | inr (e, p) ↦ rw (p, save) h
  ]

  required-prepared : required (prepared request plan) ≡ ok plan
  unfolding required
  required-prepared = refl

  execute_planned-IsTrue :
      (attempts : ℕ) (w : World)
      → (let done =
            execute_planned backend attempts request plan (record { world = w; trace = [] }) in
          IsTrue done.0 done.1)
  unfolding execute_planned
  execute_planned-IsTrue attempts w =
      let c = prepared request plan in
      let run : Run World = record { world = w; trace = [] } in
      let saved = save backend c run in
      let n = save-Untouched c run tt in
      elim (Result-cases saved.0) [
        | inr (e, q) ↦ rw (q, execute_planned) (inl n)
        | inl (u, q) ↦
            let asked = (ask_abort backend saved.1).1 in
            let n' = save-Untouched (resolve c) asked n in
            elim (Bool-cases ((ask_abort backend saved.1).0)) [
              | inr a ↦
                  rw (q, a, execute_planned)
                    (invalidate_all-IsTrue attempts invalidation_order false c asked
                      required-prepared)
              | inl a ↦ elim (Result-cases (save backend (resolve c) asked).0) [
                | inr (e, t) ↦ rw (q, a, t, execute_planned) (inl n')
                | inl (v, t) ↦ rw (q, a, t, execute_planned) n'
              ]
            ]
      ]

module _ {World : Type 0} (backend : RewindBackend World) where
  -- A rewind whose preconditions fail answers their error and leaves the world and the trace as they
  -- were. Otherwise the preconditions gave a plan, and the answer is true of the nodes. A rewind that
  -- succeeds reports the blocks asked for and the plan, and every node has the target as its tip. One
  -- that was aborted asked for no mutation at all, or reports the original tip, and the nodes agree on
  -- one tip with the original one on all their chains. After an error nothing was asked for, or the
  -- original branch is back in this sense, or every node has the target as its tip. While no attempt
  -- of a rollback has succeeded, nothing is answered.
  pub execute-IsTrue :
      (attempts : ℕ) (request : RewindJobRequest) (w : World)
      → (let start : Run World = record { world = w; trace = [] } in
          let done = execute backend attempts request start in
          ((message : String) × (prepare backend request w ≡ err message)
            × (done ≡ (answered (err message), start)))
          ⊎ ((plan : RequiredRecovery) × (prepare backend request w ≡ ok plan)
              × IsTrue backend request plan done.0 done.1))
  unfolding execute
  execute-IsTrue attempts request w = elim (Result-cases (prepare backend request w)) [
    | inr (e, q) ↦ inl (e, q, rw (q, execute) refl)
    | inl (plan, q) ↦
        inr (plan, q, rw (q, execute) (execute_planned-IsTrue backend request plan attempts w))
  ]
