-- ===== src/ControlPlane/Faucet/Survival.antt =====
-- crates/control-plane/src/faucet_store.rs: the pending transfer, which alone can be recovered, is not
-- lost to the updates of other transfers or to the pruning of the history.
use simchain.Base.{
  true, false, String, String-eq, Option, none, some, List, ◌≡◌, refl, sym, ap, ◌∙◌, arith,
  Bool-cases, Option-cases, inl, inr, ◌==◌,
}
use simchain.ControlPlane.Faucet.{
  FaucetDeliveryState, StoredFaucetTransfer, find, update_first, is_pending, has_txid,
  is_failure_state, is_pending_state, keep, arm, update, with_state, confirm, fail, mark_recovering,
  mark_armed, mark_confirmed, mark_failed, mark_orphaned, pending,
}
use simchain.ControlPlane.Faucet.Count.{find_passes, find-update_first, find_unique, trim-found}
use simchain.ControlPlane.Faucet.Ledger.{
  Update, arms, recovers, rearms, confirms, fails, orphans, txid_of, makes_pending, Fits, Inv,
  serve,
}

clash : true ≡ false → ⊥
clash h = cc

failure-terminal :
    (s : FaucetDeliveryState) → is_failure_state s ≡ true → is_pending_state s ≡ false
failure-terminal s q = ground arith

module _ {Delta : Type 0} (save : List (StoredFaucetTransfer Delta) → Option String)
    (t : StoredFaucetTransfer Delta) (ts : List (StoredFaucetTransfer Delta)) (i : Inv ts)
    (held : pending ts ≡ some t) where
  -- a record under another identifier is not pending
  other-terminal :
      (txid : String) (r : StoredFaucetTransfer Delta)
      → (t.public.txid == txid) ≡ false
      → find (has_txid txid) ts ≡ some r
      → is_pending r ≡ false
  unfolding pending
  other-terminal txid r other found = elim (Bool-cases (is_pending r)) [
    | inr n ↦ n
    | inl y ↦
        let same = find_unique is_pending (has_txid txid) t r ts i.one_pending held found y in
        let named = find_passes (has_txid txid) r ts found in
        absurd (clash (sym named ∙ ap (has_txid txid) same ∙ other))
  ]

  update-keeps :
      (txid : String) (f : StoredFaucetTransfer Delta → StoredFaucetTransfer Delta)
      → (t.public.txid == txid) ≡ false
      → ((r : StoredFaucetTransfer Delta)
          → find (has_txid txid) ts ≡ some r
          → is_pending (f r) ≡ false)
      → pending (update save txid f ts).0 ≡ some t
  unfolding update pending keep
  update-keeps txid f other terminal = elim (Option-cases (find (has_txid txid) ts)) [
    | inl n ↦ rw (n, update) held
    | inr (r, n) ↦
        rw (n, update)
          (trim-found (update_first (has_txid txid) f ts)
            ∙ find-update_first is_pending (has_txid txid) f r ts n (other-terminal txid r other n)
                (terminal r n)
            ∙ held)
  ]

  -- `Fits` and the other identifier leave no record that the update could make pending
  absent_or_terminal :
      (u : Update Delta) (f : StoredFaucetTransfer Delta → StoredFaucetTransfer Delta)
      → Fits u ts
      → makes_pending u ≡ true
      → (t.public.txid == txid_of u) ≡ false
      → (r : StoredFaucetTransfer Delta) → find (has_txid (txid_of u)) ts ≡ some r
      → is_pending (f r) ≡ false
  absent_or_terminal u f fits m other r n =
      absurd (clash (sym (fits m r n) ∙ other-terminal (txid_of u) r other n))

  arm-keeps :
      (a : StoredFaucetTransfer Delta)
      → Fits (arms a) ts
      → (t.public.txid == a.public.txid) ≡ false
      → pending (arm save a ts).0 ≡ some t
  unfolding arm pending
  arm-keeps a fits other = elim (Bool-cases (is_pending a)) [
    | inr n ↦ rw (n, arm) held
    | inl p ↦ elim (Option-cases (find (has_txid a.public.txid) ts)) [
      | inr (r, n) ↦ absurd (clash (sym (fits refl r n) ∙ other-terminal a.public.txid r other n))
      | inl n ↦ rw (p, n, held, arm) held
    ]
  ]

  -- Let one transfer be pending in a ledger that keeps its invariant. Any update of another
  -- transfer, accepted or refused, leaves that transfer pending and unchanged, its raw transaction
  -- and its inputs included, unless it makes pending a known transfer that is not.
  pub serve-keeps_pending :
      (u : Update Delta)
      → Fits u ts
      → (t.public.txid == txid_of u) ≡ false
      → pending (serve save u ts) ≡ some t
  unfolding serve mark_recovering mark_armed mark_confirmed mark_failed mark_orphaned
  serve-keeps_pending (arms a) fits other = arm-keeps a fits other
  serve-keeps_pending (recovers txid e) fits other =
      update-keeps txid (with_state FaucetDeliveryState.recovering e) other (
        absent_or_terminal (recovers txid e) (with_state FaucetDeliveryState.recovering e) fits refl
          other)
  serve-keeps_pending (rearms txid) fits other =
      update-keeps txid (with_state FaucetDeliveryState.armed none) other (
        absent_or_terminal (rearms txid) (with_state FaucetDeliveryState.armed none) fits refl
          other)
  serve-keeps_pending (confirms txid h b at_ms) fits other =
      update-keeps txid (confirm h b at_ms) other (λ r n. refl)
  serve-keeps_pending (fails txid s m) fits other = elim (Bool-cases (is_failure_state s)) [
    | inl q ↦
        rw (q, serve, mark_failed)
          (update-keeps txid (fail s m) other (λ r n. failure-terminal s q))
    | inr q ↦ rw (q, serve, mark_failed) held
  ]
  serve-keeps_pending (orphans txid m) fits other =
      update-keeps txid (fail FaucetDeliveryState.orphaned_after_confirmation m) other (λ r n. refl)
