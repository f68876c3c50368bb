-- ===== src/Spam/Control/Cycle.antt =====
-- crates/spammer/src/control.rs: when a cycle of spam may begin.
use simchain.Base.{ℕ, true, false, ◌≡◌, refl, Bool-cases, inl, inr, is_some, arith}
use simchain.Mining.Control.{Clock}
use simchain.Spam.Control.{SpamOps, Inner, pause_requested, expire_leases, work_interrupted}
use simchain.Spam.Control.Worker.{begin_cycle}

module _ {P : Type 0} (ops : SpamOps P) where
  uninterrupted :
      (g : ℕ) (inner : Inner P)
      → work_interrupted ops g inner ≡ false
      → (pause_requested inner ≡ false)
        × (is_some inner.pending_policy ≡ false)
        × (inner.reconciliation_pending ≡ false)
        × (inner.initialization_pending ≡ false)
        × (inner.generation ≡ g)
        × (ops.enabled inner.policy ≡ true)
  unfolding work_interrupted
  uninterrupted g inner h = ground arith

  -- If `begin_cycle` lets a cycle begin, then in the state that it leaves no pause is requested,
  -- nothing waits to be applied, reconciled or initialized, the policy is enabled and still the one
  -- of the cycle's generation, and the cycle is in flight.
  pub begin_cycle-guards :
      (clock : Clock) (g height : ℕ) (inner : Inner P)
      → (begin_cycle ops clock g height inner).1 ≡ true
      → (pause_requested (begin_cycle ops clock g height inner).0 ≡ false)
        × (is_some (begin_cycle ops clock g height inner).0.pending_policy ≡ false)
        × ((begin_cycle ops clock g height inner).0.reconciliation_pending ≡ false)
        × ((begin_cycle ops clock g height inner).0.initialization_pending ≡ false)
        × ((begin_cycle ops clock g height inner).0.generation ≡ g)
        × (ops.enabled (begin_cycle ops clock g height inner).0.policy ≡ true)
        × ((begin_cycle ops clock g height inner).0.in_flight ≡ true)
  unfolding begin_cycle
  begin_cycle-guards clock g height inner h =
      let live = expire_leases clock inner in
      elim (Bool-cases (work_interrupted ops g live)) [
        | inl y ↦ absurd (cc)
        | inr n ↦
            let (a, b, c, d, e, f) = uninterrupted g live n in
            rw (n, begin_cycle) (a, b, c, d, e, f, refl)
      ]
