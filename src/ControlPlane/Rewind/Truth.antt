-- ===== src/ControlPlane/Rewind/Truth.antt =====
-- crates/control-plane/src/rewind_job.rs: what a rollback, a rewind and a recovery answer is true of
-- the nodes.
use simchain.Base.{
  ℕ, zero, suc, true, false, String, List, [], ◌∷◌, ◌≡◌, refl, ◌∙◌, arith, ok, Result-cases, inl,
  inr,
}
use simchain.ControlPlane.Rewind.{
  RewindNode, all_nodes, restored, RewindRecoveryContext, RequiredRecovery, required, RewindBackend,
  Run, tips_equal, common_chain_contains, await_tip, wait_for_exact_tip,
}
use simchain.ControlPlane.Rewind.Rollback.{
  save, reconsider, mark, resolve, reconsider_all, await_original, rollback_once,
  rollback_until_safe,
}
use simchain.ControlPlane.Rewind.Trace.{required-mark, required-resolve}

module _ {World : Type 0} (backend : RewindBackend World) where
  -- every node has the target as its tip
  abbrev pub AtTarget : RequiredRecovery → World → Type 0
  AtTarget plan w = tips_equal backend plan.target_height plan.target_tip w ≡ ok true

  -- the nodes have one tip, and the original tip is on all their chains
  abbrev pub BranchIsBack : RequiredRecovery → World → Type 0
  BranchIsBack plan w =
      common_chain_contains backend plan.original_height plan.original_tip w ≡ ok true

  pub save-world :
      (c : RewindRecoveryContext) (run : Run World) → (save backend c run).1.world ≡ run.world
  unfolding save
  save-world c run = elim (Result-cases (backend.persist c run.world)) [
    | inl (v, p) ↦ rw (p, save) refl
    | inr (e, p) ↦ rw (p, save) refl
  ]

  reconsider_all-required :
      (nodes : List RewindNode) (hash : String) (c : RewindRecoveryContext) (run : Run World)
      → required (reconsider_all backend nodes hash c run).1 ≡ required c
  unfolding reconsider_all
  reconsider_all-required [] hash c run = refl
  reconsider_all-required (node ∷ nodes) hash c run =
      let asked = reconsider backend node hash run in
      let c' = mark node restored c in
      let r = required-mark node restored c in
      elim (Result-cases asked.0) [
        | inr (e, q) ↦ rw (q, reconsider_all) refl
        | inl (u, q) ↦ elim (Result-cases (save backend c' asked.1).0) [
          | inr (e, s) ↦ rw (q, s, reconsider_all) r
          | inl (v, s) ↦
              rw (q, s, reconsider_all)
                (reconsider_all-required nodes hash c' (save backend c' asked.1).1 ∙ r)
        ]
      ]

  await_original-required :
      (rounds : ℕ) (plan : RequiredRecovery) (c : RewindRecoveryContext) (run : Run World)
      → required (await_original backend rounds plan c run).1 ≡ required c
  unfolding await_original
  await_original-required zero plan c run = refl
  await_original-required (suc rounds) plan c run =
      let found = common_chain_contains backend plan.original_height plan.original_tip run.world in
      elim (Result-cases found) [
        | inr (e, q) ↦ rw (q, await_original) refl
        | inl (true, q) ↦ rw (q, await_original) (required-resolve c)
        | inl (false, q) ↦
            rw (q, await_original)
              (await_original-required rounds plan c
                (record run { world = backend.wait 250 run.world }))
      ]

  await_original-back :
      (rounds : ℕ) (plan : RequiredRecovery) (c : RewindRecoveryContext) (run : Run World)
      (u : Unit {0})
      → (await_original backend rounds plan c run).0 ≡ ok u
      → BranchIsBack plan (await_original backend rounds plan c run).2.world
  unfolding await_original
  await_original-back zero plan c run u h = absurd (cc)
  await_original-back (suc rounds) plan c run u h =
      let found = common_chain_contains backend plan.original_height plan.original_tip run.world in
      elim (Result-cases found) [
        | inr (e, q) ↦ absurd (ground arith)
        | inl (true, q) ↦ rw (q, await_original) (rw (save-world (resolve c) run) q)
        | inl (false, q) ↦
            rw (q, await_original)
              (await_original-back rounds plan c (record run { world = backend.wait 250 run.world })
                u (rw (q, await_original) at h))
      ]

  rollback_once-required :
      (plan : RequiredRecovery) (c : RewindRecoveryContext) (run : Run World)
      → required c ≡ ok plan
      → required (rollback_once backend c run).1 ≡ ok plan
  unfolding rollback_once
  rollback_once-required plan c run r =
      let done = reconsider_all backend all_nodes plan.boundary_hash c run in
      let k = reconsider_all-required all_nodes plan.boundary_hash c run in
      elim (Result-cases done.0) [
        | inr (e, q) ↦ rw (r, q, rollback_once) (k ∙ r)
        | inl (u, q) ↦
            rw (r, q, rollback_once) (await_original-required 40 plan done.1 done.2 ∙ k ∙ r)
      ]

  pub rollback_once-back :
      (plan : RequiredRecovery) (c : RewindRecoveryContext) (run : Run World) (u : Unit {0})
      → required c ≡ ok plan
      → (rollback_once backend c run).0 ≡ ok u
      → BranchIsBack plan (rollback_once backend c run).2.world
  unfolding rollback_once
  rollback_once-back plan c run u r h =
      let done = reconsider_all backend all_nodes plan.boundary_hash c run in
      elim (Result-cases done.0) [
        | inr (e, q) ↦ absurd (ground (arith, r))
        | inl (v, q) ↦
            rw (r, q, rollback_once)
              (await_original-back 40 plan done.1 done.2 u (rw (r, q, rollback_once) at h))
      ]

  pub rollback_until_safe-back :
      (attempts : ℕ) (plan : RequiredRecovery) (c : RewindRecoveryContext) (run : Run World)
      → required c ≡ ok plan
      → (rollback_until_safe backend attempts c run).0 ≡ true
      → BranchIsBack plan (rollback_until_safe backend attempts c run).1.world
  unfolding rollback_until_safe
  rollback_until_safe-back zero plan c run r h = absurd (cc)
  rollback_until_safe-back (suc attempts) plan c run r h =
      let done = rollback_once backend c run in
      elim (Result-cases done.0) [
        | inl (u, q) ↦ rw (q, rollback_until_safe) (rollback_once-back plan c run u r q)
        | inr (e, q) ↦
            rw (q, rollback_until_safe)
              (rollback_until_safe-back attempts plan done.1
                (record done.2 { world = backend.wait 2000 done.2.world })
                (rollback_once-required plan c run r) (rw (q, rollback_until_safe) at h))
      ]

  await_tip-reached :
      (rounds height : ℕ) (hash : String) (w : World) (u : Unit {0})
      → (await_tip backend rounds height hash w).0 ≡ ok u
      → tips_equal backend height hash (await_tip backend rounds height hash w).1 ≡ ok true
  unfolding await_tip
  await_tip-reached zero height hash w u h = absurd (cc)
  await_tip-reached (suc rounds) height hash w u h =
      elim (Result-cases (tips_equal backend height hash w)) [
        | inr (e, q) ↦ absurd (ground arith)
        | inl (true, q) ↦ rw (q, await_tip) q
        | inl (false, q) ↦
            rw (q, await_tip)
              (await_tip-reached rounds height hash (backend.wait 250 w) u (rw (q, await_tip) at h))
      ]

  pub wait_for_exact_tip-reached :
      (plan : RequiredRecovery) (w : World) (u : Unit {0})
      → (wait_for_exact_tip backend plan.target_height plan.target_tip w).0 ≡ ok u
      → AtTarget plan (wait_for_exact_tip backend plan.target_height plan.target_tip w).1
  unfolding wait_for_exact_tip
  wait_for_exact_tip-reached plan w u h =
      await_tip-reached 40 plan.target_height plan.target_tip w u h
