-- ===== src/ControlPlane/Rewind/Ahead.antt =====
-- crates/control-plane/src/rewind_job.rs: a rewind asks for no mutation before what it takes to undo it
-- is saved.
use simchain.Base.{
  ℕ, Bool, true, false, String, List, [], ◌∷◌, ◌≡◌, ◌⊎◌, refl, ◌∙◌, arith, Result, ok, err,
  Result-cases, Bool-cases, inl, inr,
}
use simchain.ControlPlane.Rewind.{
  RewindNode, invalidation_order, invalidated, RewindJobRequest, RewindRecoveryContext,
  RequiredRecovery, required, prepared, RewindBackend, Event, Run, wait_for_exact_tip,
}
use simchain.ControlPlane.Rewind.Rollback.{save, mark, resolve}
use simchain.ControlPlane.Rewind.Execute.{
  RewindExecution, prepare, invalidate, after_rollback, aborted_execution, ask_abort, verify,
  finish, invalidate_all, execute_planned, execute,
}
use simchain.ControlPlane.Rewind.Trace.{
  Open, Ahead, Logged, required-mark, required-resolve, save-Logged, rollback_until_safe-Logged,
}

-- a trace that keeps to the plan, with a saved context that is not resolved
record Ready (plan : RequiredRecovery) (trace : List Event) : Type 0 where
  ahead : Ahead plan trace
  unresolved : Open plan trace

Ready-Logged : (plan : RequiredRecovery) (trace : List Event) → Ready plan trace → Logged plan trace
Ready-Logged plan trace r =
    let (c, q, d, u) = r.unresolved in record { ahead = r.ahead; stored = (c, q, d) }

module _ {World : Type 0} (backend : RewindBackend World) (plan : RequiredRecovery) where
  after_rollback-Logged :
      (attempts : ℕ) (result : Result String RewindExecution) (c : RewindRecoveryContext)
      (run : Run World)
      → required c ≡ ok plan
      → Logged plan run.trace
      → Logged plan (after_rollback backend attempts result c run).1.trace
  unfolding after_rollback
  after_rollback-Logged attempts result c run r l =
      rollback_until_safe-Logged backend plan attempts c run r l

  save-Ready :
      (c : RewindRecoveryContext) (run : Run World)
      → required c ≡ ok plan
      → c.resolved ≡ false
      → Ready plan run.trace
      → Ready plan (save backend c run).1.trace
  unfolding save
  save-Ready c run r u l = elim (Result-cases (backend.persist c run.world)) [
    | inl (v, q) ↦ rw (q, save) (record { ahead = (r, l.ahead); unresolved = (c, refl, r, u) })
    | inr (e, q) ↦ rw (q, save) l
  ]

  invalidate-Ready :
      (node : RewindNode) (run : Run World)
      → Ready plan run.trace
      → Ready plan (invalidate backend node plan.boundary_hash run).1.trace
  unfolding invalidate
  invalidate-Ready node run l = record {
    ahead = (refl, l.unresolved, l.ahead);
    unresolved = l.unresolved;
  }

  finish-Logged :
      (attempts : ℕ) (request : RewindJobRequest) (changed : Bool) (c : RewindRecoveryContext)
      (run : Run World)
      → required c ≡ ok plan
      → Logged plan run.trace
      → Logged plan (finish backend attempts request plan changed c run).1.trace
  unfolding finish
  finish-Logged attempts request changed c start r l =
      let run : Run World = (ask_abort backend start).1 in
      let waited = wait_for_exact_tip backend plan.target_height plan.target_tip run.world in
      let run' = record run { world = waited.1 } in
      let l' = save-Logged backend plan (resolve c) run' (required-resolve c ∙ r) l in
      elim (Bool-cases ((ask_abort backend start).0)) [
        | inl a ↦
            rw (a, finish)
              (after_rollback-Logged attempts (ok (aborted_execution plan changed)) c run r l)
        | inr a ↦ elim (Result-cases waited.0) [
          | inr (e, q) ↦ rw (a, q, finish) (after_rollback-Logged attempts (err e) c run' r l)
          | inl (u, q) ↦ elim (Result-cases (save backend (resolve c) run').0) [
            | inr (e, s) ↦ rw (a, q, s, finish) l'
            | inl (v, s) ↦ rw (a, q, s, finish) l'
          ]
        ]
      ]

  invalidate_all-Logged :
      (attempts : ℕ) (request : RewindJobRequest) (nodes : List RewindNode) (changed : Bool)
      (c : RewindRecoveryContext) (run : Run World)
      → required c ≡ ok plan
      → c.resolved ≡ false
      → Ready plan run.trace
      → Logged plan (invalidate_all backend attempts request plan nodes changed c run).1.trace
  unfolding invalidate_all
  invalidate_all-Logged attempts request [] changed c run r u l =
      finish-Logged attempts request changed c run r (Ready-Logged plan run.trace l)
  invalidate_all-Logged attempts request (node ∷ nodes) changed c start r u l =
      let run : Run World = (ask_abort backend start).1 in
      let asked = invalidate backend node plan.boundary_hash run in
      let l1 = invalidate-Ready node run l in
      let k1 = Ready-Logged plan asked.1.trace l1 in
      let c' = mark node invalidated c in
      let r' : required c' ≡ ok plan = required-mark node invalidated c ∙ r in
      let saved = save backend c' asked.1 in
      let l2 = save-Ready c' asked.1 r' u l1 in
      elim (Bool-cases ((ask_abort backend start).0)) [
        | inl a ↦
            rw (a, invalidate_all)
              (after_rollback-Logged attempts (ok (aborted_execution plan changed)) c run r
                (Ready-Logged plan run.trace l))
        | inr a ↦ elim (Result-cases asked.0) [
          | inr (e, q) ↦
              rw (a, q, invalidate_all) (after_rollback-Logged attempts (err e) c asked.1 r k1)
          | inl (v, q) ↦ elim (Result-cases (verify backend plan node asked.1.world)) [
            | inr (e, s) ↦
                rw (a, q, s, invalidate_all) (after_rollback-Logged attempts (err e) c asked.1 r k1)
            | inl (v', s) ↦ elim (Result-cases saved.0) [
              | inr (e, t) ↦
                  rw (a, q, s, t, invalidate_all)
                    (after_rollback-Logged attempts (err e) c' saved.1 r'
                      (Ready-Logged plan saved.1.trace l2))
              | inl (v'', t) ↦
                  rw (a, q, s, t, invalidate_all)
                    (invalidate_all-Logged attempts request nodes true c' saved.1 r' u l2)
            ]
          ]
        ]
      ]

  required-prepared : (request : RewindJobRequest) → required (prepared request plan) ≡ ok plan
  unfolding required
  required-prepared request = refl

  save-first :
      (request : RewindJobRequest) (w : World) (u : Unit {0})
      → (save backend (prepared request plan) (record { world = w; trace = [] })).0 ≡ ok u
      → Ready plan (save backend (prepared request plan) (record { world = w; trace = [] })).1.trace
  unfolding save
  save-first request w u q = elim (Result-cases (backend.persist (prepared request plan) w)) [
    | inl (v, p) ↦
        rw (p, save)
          (record {
            ahead = (required-prepared request, tt);
            unresolved = (prepared request plan, refl, required-prepared request, refl);
          })
    | inr (e, p) ↦ absurd (ground arith)
  ]

  save-failed :
      (c : RewindRecoveryContext) (run : Run World) (e : String)
      → (save backend c run).0 ≡ err e
      → (save backend c run).1 ≡ run
  unfolding save
  save-failed c run e q = elim (Result-cases (backend.persist c run.world)) [
    | inl (v, p) ↦ absurd (ground arith)
    | inr (e', p) ↦ rw (p, save) refl
  ]

  execute_planned-Ahead :
      (attempts : ℕ) (request : RewindJobRequest) (w : World)
      → Ahead plan
          (execute_planned backend attempts request plan (record { world = w; trace = [] })).1.trace
  unfolding execute_planned
  execute_planned-Ahead attempts request w =
      let c = prepared request plan in
      let run : Run World = record { world = w; trace = [] } in
      let saved = save backend c run in
      let r = required-prepared request in
      elim (Result-cases saved.0) [
        | inr (e, q) ↦ rw (q, execute_planned) (rw (save-failed c run e q) tt)
        | inl (u, q) ↦
            let l = save-first request w u q in
            let k = Ready-Logged plan saved.1.trace l in
            let asked = (ask_abort backend saved.1).1 in
            let l' = save-Logged backend plan (resolve c) asked (required-resolve c ∙ r) k in
            elim (Bool-cases ((ask_abort backend saved.1).0)) [
              | inr a ↦
                  rw (q, a, execute_planned)
                    ((invalidate_all-Logged attempts request invalidation_order false c asked r refl
                      l).ahead)
              | inl a ↦ elim (Result-cases (save backend (resolve c) asked).0) [
                | inr (e, t) ↦ rw (q, a, t, execute_planned) l'.ahead
                | inl (v, t) ↦ rw (q, a, t, execute_planned) l'.ahead
              ]
            ]
      ]

module _ {World : Type 0} (backend : RewindBackend World) where
  -- A run either leaves no trace at all, or its preconditions gave a plan, and every mutation that it
  -- asks for, of a node or to undo one, is of the plan's boundary block and comes after a successful
  -- save, of which the last one holds the whole plan: the original tip, the target and the boundary.
  -- When an invalidation is asked for, the saved context is not marked as resolved.
  pub execute-Ahead :
      (attempts : ℕ) (request : RewindJobRequest) (w : World)
      → (let done = execute backend attempts request (record { world = w; trace = [] }) in
          (done.1.trace ≡ [])
          ⊎ ((plan : RequiredRecovery) × (prepare backend request w ≡ ok plan)
              × Ahead plan done.1.trace))
  unfolding execute
  execute-Ahead attempts request w = elim (Result-cases (prepare backend request w)) [
    | inr (e, q) ↦ inl (rw (q, execute) refl)
    | inl (plan, q) ↦
        inr (plan, q, rw (q, execute) (execute_planned-Ahead backend plan attempts request w))
  ]
