-- ===== src/ControlPlane/Rewind/Recovery.antt =====
-- crates/control-plane/src/rewind_job.rs: what a recovery that succeeds has done.
use simchain.Base.{true, false, some, ◌≡◌, ◌⊎◌, arith, ok, Result-cases, inl, inr}
use simchain.ControlPlane.Rewind.{
  RewindRecoveryContext, RequiredRecovery, required, RewindBackend, Run,
}
use simchain.ControlPlane.Rewind.Rollback.{resolve}
use simchain.ControlPlane.Rewind.Recover.{completed_rewind_is_safe, recover}
use simchain.ControlPlane.Rewind.Safety.{
  IsSafe, completed_rewind_is_safe_sound, completed_rewind_is_safe-unsafe,
}
use simchain.ControlPlane.Rewind.Truth.{BranchIsBack, save-world, rollback_once-back}

module _ {World : Type 0} (backend : RewindBackend World) where
  required-boundary :
      (c : RewindRecoveryContext) (plan : RequiredRecovery)
      → required c ≡ ok plan
      → c.boundary_hash ≡ some plan.boundary_hash
  unfolding required
  required-boundary c plan r = ground arith

  -- If a recovery from a context with a plan succeeds, then either the completed rewind is safe in
  -- the world that it starts from, and the recovery has left the chain as it was, or it is not, and now
  -- the nodes agree on one tip with the original one on all their chains. The rewind is safe if the
  -- nodes' tips are all the target, or are all one block at the target's height or above it, with the
  -- target on all chains, that is lower than the original tip or whose chain some node answers to have
  -- another block in its place.
  pub recover_lem :
      (plan : RequiredRecovery) (c : RewindRecoveryContext) (run : Run World)
      → required c ≡ ok plan
      → (recover backend c run).0 ≡ ok tt
      → (let w = (recover backend c run).1.world in
          (IsSafe backend plan run.world × (w ≡ run.world))
          ⊎ ((¬ IsSafe backend plan run.world) × BranchIsBack backend plan w))
  unfolding recover
  recover_lem plan c run r h =
      let b = required-boundary c plan r in
      elim (Result-cases (completed_rewind_is_safe backend c run.world)) [
        | inr (e, q) ↦ absurd (ground (arith, b))
        | inl (true, q) ↦ inl (
          completed_rewind_is_safe_sound backend plan c run.world r q,
          rw (b, q, recover) (save-world backend (resolve c) run),
        )
        | inl (false, q) ↦ inr (
          completed_rewind_is_safe-unsafe backend plan c run.world r q,
          rw (b, q, recover) (rollback_once-back backend plan c run tt r (rw (b, q, recover) at h)),
        )
      ]
