-- ===== src/ControlPlane/Reconcile/Turn.antt =====
-- crates/control-plane/src/reconcile.rs: the turn of one worker that is where it should be.
use simchain.Base.{
  ℕ, Bool, true, false, String, Result, ok, Eq, ◌≡◌, refl, arith, ◌==◌, ==_refl, Bool-cases,
  Result-cases, inl, inr, ap, ◌∙◌,
}
use simchain.Api.{DesiredState, running, paused}
use simchain.ControlPlane.Apply.{ControlBackend, WorkerStatus, has_policy}
use simchain.ControlPlane.Apply.Checks.{has_policy_sound}
use simchain.ControlPlane.Reconcile.{same_state, apply_policy, reconcile_state, reconcile_worker}

-- the worker answers that it has the policy in effect, under the generation, and the desired state
abbrev pub Holds : {P : Type 0} → ℕ → P → DesiredState → Result String (WorkerStatus P) → Type 0
Holds {P} generation policy state answer =
    (status : WorkerStatus P) × (answer ≡ ok status)
    × (status.effective_generation ≡ generation)
    × (status.policy ≡ policy)
    × (status.desired_state ≡ state)

same_state_sound : (a b : DesiredState) → same_state a b ≡ true → a ≡ b
same_state_sound running running h = refl
same_state_sound paused paused h = refl
same_state_sound running paused h = absurd (cc)
same_state_sound paused running h = absurd (cc)

same_state_refl : (a : DesiredState) → same_state a a ≡ true
same_state_refl running = refl
same_state_refl paused = refl

module _ {P W : Type 0} ⦃p : Eq P⦄ (worker : ControlBackend P W) where
  reconcile_state-unchanged :
      (applied : Bool) (current desired : DesiredState) (w : W)
      → (reconcile_state worker applied current desired w).0 ≡ ok (false, false)
      → (applied ≡ false) × (current ≡ desired)
  unfolding reconcile_state
  reconcile_state-unchanged applied current desired w h =
      elim (Bool-cases (same_state current desired)) [
        | inl same ↦
            (ground (arith, rw (same, reconcile_state) at h), same_state_sound current desired same)
        | inr other ↦ elim (Result-cases (worker.set_state desired w).0) [
          | inl (u, q) ↦ absurd (ground (arith, rw (other, q, reconcile_state) at h))
          | inr (e, q) ↦ absurd (ground (arith, rw (other, q, reconcile_state) at h))
        ]
      ]

  -- a turn that reports no change has found the worker where it should be
  pub reconcile_worker-unchanged :
      (generation : ℕ) (policy : P) (desired : DesiredState) (w : W)
      → (reconcile_worker worker generation policy desired w).0 ≡ ok (false, false)
      → Holds generation policy desired (worker.status w)
  unfolding reconcile_worker
  reconcile_worker-unchanged generation policy desired w h = elim (Result-cases (worker.status w)) [
    | inr (e, q) ↦ absurd (ground (arith, rw (q, reconcile_worker) at h))
    | inl (status, q) ↦ elim (Bool-cases (has_policy generation policy status)) [
      | inl has ↦
          let (g, l) = has_policy_sound generation policy status has in
          let (_, c) =
            reconcile_state-unchanged false status.desired_state desired w
              (rw (q, has, reconcile_worker) at h) in
          (status, q, g, l, c)
      | inr has_not ↦
          let applied = apply_policy worker generation policy status.effective_generation w in
          elim (Result-cases applied.0) [
            | inr (e, r) ↦ absurd (ground (arith, rw (q, has_not, r, reconcile_worker) at h))
            | inl (u, r) ↦
                let (n, _) =
                  reconcile_state-unchanged true status.desired_state desired applied.1
                    (rw (q, has_not, r, reconcile_worker) at h) in
                absurd (cc)
          ]
    ]
  ]

  has_policy_complete :
      (generation : ℕ) (policy : P) (status : WorkerStatus P)
      → status.effective_generation ≡ generation
      → status.policy ≡ policy
      → has_policy generation policy status ≡ true
  has_policy_complete generation policy status g l =
      let same : (status.policy == policy) ≡ true = ap (λ x. x == policy) l ∙ ==_refl policy in
      ground (arith, same)

  -- a worker that is where it should be is left alone
  pub reconcile_worker-rests :
      (generation : ℕ) (policy : P) (desired : DesiredState) (w : W)
      → Holds generation policy desired (worker.status w)
      → reconcile_worker worker generation policy desired w ≡ (ok (false, false), w)
  unfolding reconcile_worker reconcile_state
  reconcile_worker-rests generation policy desired w (status, q, g, l, c) =
      let has = has_policy_complete generation policy status g l in
      let same = ap (λ x. same_state x desired) c ∙ same_state_refl desired in
      rw (q, has, same, reconcile_worker) refl
