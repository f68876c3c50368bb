-- ===== src/ControlPlane/Reconcile/Pass.antt =====
-- crates/control-plane/src/reconcile.rs: a pass reports no change exactly where both workers are as the
-- stored configuration says.
use simchain.Base.{
  Bool, false, String, Result, ok, err, Eq, ◌≡◌, ◌↔◌, refl, sym, ap, ◌∙◌, subst, true,
}
use simchain.ControlPlane.Apply.{ControlState, ControlBackend, LiveTuning}
use simchain.ControlPlane.Reconcile.{
  no_change, Findings, reconcile_worker, outcome_of, reconcile_workers, reconcile_once,
}
use simchain.ControlPlane.Reconcile.Turn.{Holds, reconcile_worker-unchanged, reconcile_worker-rests}

no_change-turns :
    (a b : Result String (Bool × Bool))
    → outcome_of a b ≡ ok no_change
    → (a ≡ ok (false, false)) × (b ≡ ok (false, false))
no_change-turns (ok (mp, ms)) (ok (sp, ss)) h = (cc, cc)
no_change-turns (ok (mp, ms)) (err e) h = absurd (cc)
no_change-turns (err e) (ok (sp, ss)) h = absurd (cc)
no_change-turns (err e) (err e') h = absurd (cc)

-- the pass is not put off: the locks are free, no job is active, and the stored configuration is read
pub record Proceeds {Desired Mining Spam : Type 0} (found : Findings Desired Mining Spam)
    (desired : ControlState Desired) (tuning : LiveTuning Mining Spam) : Type 0 where
  pub lock_is_free : found.apply_lock_is_free ≡ true
  pub is_idle : found.has_active_job ≡ false
  pub file_is_free : found.file_lock ≡ ok true
  pub loaded : found.load_current ≡ ok desired
  pub parsed : found.from_source desired.desired ≡ ok tuning

module _ {Mining Spam Desired World : Type 0} ⦃m : Eq Mining⦄ ⦃s : Eq Spam⦄
    (mining : ControlBackend Mining World) (spam : ControlBackend Spam World) where
  -- both workers answer that they have the stored generation, their policies and desired states
  abbrev pub Converged : ControlState Desired → LiveTuning Mining Spam → World → Type 0
  Converged desired tuning w =
      Holds desired.generation tuning.mining desired.mining_state (mining.status w)
      × Holds desired.generation tuning.spam desired.spam_state (spam.status w)

  reconcile_workers-rests :
      (desired : ControlState Desired) (tuning : LiveTuning Mining Spam) (w : World)
      → Converged desired tuning w
      → reconcile_workers mining spam desired tuning w ≡ (ok no_change, w)
  unfolding reconcile_workers
  reconcile_workers-rests desired tuning w (of_mining, of_spam) =
      rw
        (
          reconcile_worker-rests mining desired.generation tuning.mining desired.mining_state w
              of_mining,
          reconcile_worker-rests spam desired.generation tuning.spam desired.spam_state w of_spam,
          reconcile_workers,
        )
        refl

  reconcile_workers-unchanged :
      (desired : ControlState Desired) (tuning : LiveTuning Mining Spam) (w : World)
      → (reconcile_workers mining spam desired tuning w).0 ≡ ok no_change
      → Converged desired tuning w
  unfolding reconcile_workers
  reconcile_workers-unchanged desired tuning w h =
      let g = desired.generation in
      let turn = reconcile_worker mining g tuning.mining desired.mining_state w in
      let turn' = reconcile_worker spam g tuning.spam desired.spam_state turn.1 in
      let (q, q') = no_change-turns turn.0 turn'.0 h in
      let holds = reconcile_worker-unchanged mining g tuning.mining desired.mining_state w q in
      let stays : turn.1 ≡ w =
        ap (λ t. t.1)
          (reconcile_worker-rests mining g tuning.mining desired.mining_state w holds) in
      let holds' = reconcile_worker-unchanged spam g tuning.spam desired.spam_state turn.1 q' in
      (holds, subst (λ v. Holds g tuning.spam desired.spam_state (spam.status v)) stays holds')

  reconcile_once-reconcile_workers :
      (found : Findings Desired Mining Spam) (desired : ControlState Desired)
      (tuning : LiveTuning Mining Spam) (mirror : ControlState Desired) (w : World)
      → Proceeds found desired tuning
      → (let pass = reconcile_workers mining spam desired tuning w in
          reconcile_once mining spam found mirror w ≡ (pass.0, desired, pass.1))
  unfolding reconcile_once
  reconcile_once-reconcile_workers found desired tuning mirror w p =
      rw (p.lock_is_free, p.is_idle, p.file_is_free, p.loaded, p.parsed, reconcile_once) refl

  -- Whatever the workers answer and do: a pass that is not put off mirrors the stored configuration,
  -- and it reports no change exactly if both workers answer, when it begins, that the stored
  -- generation, their policies and their desired states are in effect. It reports no change exactly if
  -- besides it has sent no command, and leaves the world as it was.
  pub reconcile_once-rests :
      (found : Findings Desired Mining Spam) (desired : ControlState Desired)
      (tuning : LiveTuning Mining Spam) (mirror : ControlState Desired) (w : World)
      → Proceeds found desired tuning
      → (let pass = reconcile_once mining spam found mirror w in
          (pass.1 ≡ desired)
          × ((pass.0 ≡ ok no_change) ↔ Converged desired tuning w)
          × ((pass.0 ≡ ok no_change) ↔ (pass ≡ (ok no_change, desired, w))))
  reconcile_once-rests found desired tuning mirror w p =
      let pass = reconcile_workers mining spam desired tuning w in
      let q = reconcile_once-reconcile_workers found desired tuning mirror w p in
      let whole : Converged desired tuning w
          → reconcile_once mining spam found mirror w ≡ (ok no_change, desired, w) =
        λ c. q ∙ ap (λ r. (r.0, desired, r.1)) (reconcile_workers-rests desired tuning w c) in
      let settled : (reconcile_once mining spam found mirror w).0 ≡ ok no_change
          → Converged desired tuning w =
        λ h. reconcile_workers-unchanged desired tuning w (sym (ap (λ r. r.0) q) ∙ h) in
      (
        ap (λ r. r.1) q,
        (settled, λ c. ap (λ r. r.0) (whole c)),
        (λ h. whole (settled h), λ e. ap (λ r. r.0) e),
      )
