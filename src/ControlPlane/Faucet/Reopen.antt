-- ===== src/ControlPlane/Faucet/Reopen.antt =====
-- crates/control-plane/src/faucet_store.rs: which ledgers `open` takes up again.
use simchain.Base.{false, String, Option, none, some, List, ◌≡◌, refl, arith, leb, ok, err}
use simchain.ControlPlane.Faucet.{
  FaucetDeliveryState, StoredFaucetTransfer, find, update_first, count_where, is_pending, has_txid,
  trim, open_store, persisted, several_pending, faucet_schema_version, keep, update, with_state,
  mark_recovering, pending,
}
use simchain.ControlPlane.Faucet.Count.{count_where-update_first, trim-pending, found-count_where}

module _ {Delta : Type 0} (save : List (StoredFaucetTransfer Delta) → Option String) where
  -- While a transfer is pending, marking another one, that is known and no longer pending, as
  -- recovering is accepted where the ledger that it leaves is written. A file that holds this ledger
  -- is one that `open` refuses.
  pub mark_recovering-second_pending :
      (txid : String) (error : Option String) (ts : List (StoredFaucetTransfer Delta))
      (t r : StoredFaucetTransfer Delta)
      → pending ts ≡ some t
      → find (has_txid txid) ts ≡ some r
      → is_pending r ≡ false
      → save (mark_recovering save txid error ts).0 ≡ none
      → ((mark_recovering save txid error ts).1 ≡ ok tt)
        × (open_store (persisted faucet_schema_version (mark_recovering save txid error ts).0)
            ≡ err several_pending)
  unfolding mark_recovering update keep open_store pending
  mark_recovering-second_pending txid error ts t r held found over written =
      let recover = with_state FaucetDeliveryState.recovering error in
      let changed = count_where-update_first is_pending (has_txid txid) recover r ts found in
      let kept = trim-pending (update_first (has_txid txid) recover ts) in
      let some_pending = found-count_where is_pending t ts held in
      let many : leb (count_where is_pending (trim (update_first (has_txid txid) recover ts))) 1
          ≡ false =
        ground (arith, changed, kept, some_pending, over) in
      let accepted : save (trim (update_first (has_txid txid) recover ts)) ≡ none =
        rw (found, mark_recovering) at written in
      rw (found, many, accepted, mark_recovering, open_store) (refl, refl)
