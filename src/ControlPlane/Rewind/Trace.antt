-- ===== src/ControlPlane/Rewind/Trace.antt =====
-- crates/control-plane/src/rewind_job.rs: what is saved when a mutation of the chain is asked for, and
-- that a rollback keeps to it.
use simchain.Base.{
  ℕ, zero, suc, true, false, Option, none, some, List, [], ◌∷◌, ◌≡◌, refl, ◌∙◌, ok, Result-cases,
  inl, inr,
}
use simchain.ControlPlane.Rewind.{
  RewindNode, all_nodes, RewindNodeState, restored, RewindRecoveryContext, RequiredRecovery,
  required, RewindBackend, Event, persisted, invalidates, reconsiders, Run, common_chain_contains,
}
use simchain.ControlPlane.Rewind.Rollback.{
  save, reconsider, mark, resolve, reconsider_all, await_original, rollback_once,
  rollback_until_safe,
}

-- the context that the last successful save left
abbrev pub last_saved : List Event → Option RewindRecoveryContext
last_saved [] = none
last_saved (persisted context ∷ trace) = some context
last_saved (invalidates node hash ∷ trace) = last_saved trace
last_saved (reconsiders node hash ∷ trace) = last_saved trace

-- the saved context has the plan, all of it
abbrev pub Stored : RequiredRecovery → List Event → Type 0
Stored plan trace =
    (context : RewindRecoveryContext) × (last_saved trace ≡ some context)
    × (required context ≡ ok plan)

-- the saved context has the plan, and is not resolved
abbrev pub Open : RequiredRecovery → List Event → Type 0
Open plan trace =
    (context : RewindRecoveryContext) × (last_saved trace ≡ some context)
    × (required context ≡ ok plan)
    × (context.resolved ≡ false)

-- Every mutation is of the boundary of the plan, and was asked for when the context that was last
-- saved had the plan; before an invalidation it was not resolved either.
abbrev pub Ahead : RequiredRecovery → List Event → Type 0
Ahead plan [] = Unit
Ahead plan (persisted context ∷ trace) = (required context ≡ ok plan) × Ahead plan trace
Ahead plan (invalidates node hash ∷ trace) =
    (hash ≡ plan.boundary_hash) × Open plan trace × Ahead plan trace
Ahead plan (reconsiders node hash ∷ trace) =
    (hash ≡ plan.boundary_hash) × Stored plan trace × Ahead plan trace

pub record Logged (plan : RequiredRecovery) (trace : List Event) : Type 0 where
  pub ahead : Ahead plan trace
  pub stored : Stored plan trace

pub required-mark :
    (node : RewindNode) (state : RewindNodeState) (c : RewindRecoveryContext)
    → required (mark node state c) ≡ required c
unfolding required
required-mark node state c = refl

pub required-resolve : (c : RewindRecoveryContext) → required (resolve c) ≡ required c
unfolding required
required-resolve c = refl

module _ {World : Type 0} (backend : RewindBackend World) (plan : RequiredRecovery) where
  pub save-Logged :
      (c : RewindRecoveryContext) (run : Run World)
      → required c ≡ ok plan
      → Logged plan run.trace
      → Logged plan (save backend c run).1.trace
  unfolding save
  save-Logged c run r l = elim (Result-cases (backend.persist c run.world)) [
    | inl (u, q) ↦ rw (q, save) (record { ahead = (r, l.ahead); stored = (c, refl, r) })
    | inr (e, q) ↦ rw (q, save) l
  ]

  reconsider-Logged :
      (node : RewindNode) (run : Run World)
      → Logged plan run.trace
      → Logged plan (reconsider backend node plan.boundary_hash run).1.trace
  unfolding reconsider
  reconsider-Logged node run l = record { ahead = (refl, l.stored, l.ahead); stored = l.stored }

  -- a context with the plan, and a trace that keeps to it
  abbrev Kept : RewindRecoveryContext → List Event → Type 0
  Kept c trace = (required c ≡ ok plan) × Logged plan trace

  reconsider_all-Kept :
      (nodes : List RewindNode) (c : RewindRecoveryContext) (run : Run World)
      → Kept c run.trace
      → (let done = reconsider_all backend nodes plan.boundary_hash c run in
          Kept done.1 done.2.trace)
  unfolding reconsider_all
  reconsider_all-Kept [] c run k = k
  reconsider_all-Kept (node ∷ nodes) c run (r, l) =
      let asked = reconsider backend node plan.boundary_hash run in
      let l' = reconsider-Logged node run l in
      let c' = mark node restored c in
      let r' : required c' ≡ ok plan = required-mark node restored c ∙ r in
      elim (Result-cases asked.0) [
        | inr (e, q) ↦ rw (q, reconsider_all) (r, l')
        | inl (u, q) ↦
            let l'' = save-Logged c' asked.1 r' l' in
            elim (Result-cases (save backend c' asked.1).0) [
              | inr (e, s) ↦ rw (q, s, reconsider_all) (r', l'')
              | inl (v, s) ↦
                  rw (q, s, reconsider_all)
                    (reconsider_all-Kept nodes c' (save backend c' asked.1).1 (r', l''))
            ]
      ]

  await_original-Kept :
      (rounds : ℕ) (c : RewindRecoveryContext) (run : Run World)
      → Kept c run.trace
      → (let done = await_original backend rounds plan c run in Kept done.1 done.2.trace)
  unfolding await_original
  await_original-Kept zero c run k = k
  await_original-Kept (suc rounds) c run (r, l) =
      let found = common_chain_contains backend plan.original_height plan.original_tip run.world in
      let r' : required (resolve c) ≡ ok plan = required-resolve c ∙ r in
      elim (Result-cases found) [
        | inr (e, q) ↦ rw (q, await_original) (r, l)
        | inl (true, q) ↦ rw (q, await_original) (r', save-Logged (resolve c) run r' l)
        | inl (false, q) ↦
            rw (q, await_original)
              (await_original-Kept rounds c (record run { world = backend.wait 250 run.world })
                (r, l))
      ]

  rollback_once-Kept :
      (c : RewindRecoveryContext) (run : Run World)
      → Kept c run.trace
      → (let done = rollback_once backend c run in Kept done.1 done.2.trace)
  unfolding rollback_once
  rollback_once-Kept c run (r, l) =
      let done = reconsider_all backend all_nodes plan.boundary_hash c run in
      let k = reconsider_all-Kept all_nodes c run (r, l) in
      elim (Result-cases done.0) [
        | inr (e, q) ↦ rw (r, q, rollback_once) k
        | inl (u, q) ↦ rw (r, q, rollback_once) (await_original-Kept 40 done.1 done.2 k)
      ]

  pub rollback_until_safe-Logged :
      (attempts : ℕ) (c : RewindRecoveryContext) (run : Run World)
      → required c ≡ ok plan
      → Logged plan run.trace
      → Logged plan (rollback_until_safe backend attempts c run).1.trace
  unfolding rollback_until_safe
  rollback_until_safe-Logged zero c run r l = l
  rollback_until_safe-Logged (suc attempts) c run r l =
      let done = rollback_once backend c run in
      let (r', l') = rollback_once-Kept c run (r, l) in
      elim (Result-cases done.0) [
        | inl (u, q) ↦ rw (q, rollback_until_safe) l'
        | inr (e, q) ↦
            rw (q, rollback_until_safe)
              (rollback_until_safe-Logged attempts done.1
                (record done.2 { world = backend.wait 2000 done.2.world }) r' l')
      ]
