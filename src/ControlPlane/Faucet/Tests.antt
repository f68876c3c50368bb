-- ===== src/ControlPlane/Faucet/Tests.antt =====
-- crates/control-plane/src/faucet_store.rs: a transfer that confirms while the next one is armed.
use simchain.Base.{
  ok, err, ℕ, true, String, String-eq, Option, none, some, List, [], ◌∷◌, ◌≡◌, refl, arith,
}
use simchain.ControlPlane.Faucet.{
  open_store, persisted, faucet_schema_version, several_pending, confirm, has_txid,
  FaucetDeliveryState, FaucetSourceNode, StoredFaucetTransfer, is_pending, find, count_where,
  remove_first, update_first, pending, trim, trim_within, keep, arm, update, mark_confirmed,
  mark_recovering,
}
use simchain.ControlPlane.Faucet.Ledger.{
  Update, arms, recovers, confirms, Fits, AllFit, Inv, serve, serve_all, serve_all-Inv,
}
use simchain.ControlPlane.Faucet.Reopen.{mark_recovering-second_pending}
use simchain.ControlPlane.Faucet.Survival.{serve-keeps_pending}

abbrev armed_transfer : String → StoredFaucetTransfer ℕ
armed_transfer id = record {
  public = record {
    delivery_state = FaucetDeliveryState.armed;
    txid = id;
    source = FaucetSourceNode.node2;
    wallet_name = "node2";
    outputs = [];
    total_sats = 1;
    change_sats = 1;
    actual_fee_sats = 0;
    priority_delta_sats = 10;
    vsize = 100;
    armed_nodes = "node2" ∷ "node3" ∷ [];
    visibility = "miner_only_unconfirmed";
    armed_at_height = 204;
    armed_at_block_hash = "block";
    armed_at_ms = 1;
    confirmed_height = none;
    confirmed_block_hash = none;
    confirmed_at_ms = none;
    last_error = none;
    observer_unconfirmed = true;
    transfer_url = "transfers";
    explorer_url = "explorer";
  };
  raw_tx_hex = some "00";
  selected_inputs = [];
}

abbrev full_disk : List (StoredFaucetTransfer ℕ) → Option String
full_disk ts = some "no space left"

abbrev updates : List (Update ℕ)
updates =
    arms (armed_transfer "a")
    ∷ recovers "a" (some "one node lost it")
    ∷ confirms "a" 205 "h" 2
    ∷ arms (armed_transfer "b")
    ∷ []

found_first :
    (r : StoredFaucetTransfer ℕ) → some (armed_transfer "a") ≡ some r → is_pending r ≡ true
found_first r q = cc

updates-AllFit : AllFit full_disk updates []
unfolding AllFit serve arm update mark_confirmed mark_recovering keep trim trim_within find
    count_where remove_first update_first
updates-AllFit = (
  λ m r q. absurd (cc),
  (λ m r q. found_first r q, (λ m r q. absurd (cc), (λ m r q. absurd (cc), tt))),
)

serve_all-Inv_example : Inv (serve_all full_disk updates [])
serve_all-Inv_example = serve_all-Inv full_disk updates updates-AllFit

abbrev ledger : List (StoredFaucetTransfer ℕ)
ledger = armed_transfer "a" ∷ []

ledger-Inv : Inv ledger
unfolding count_where
ledger-Inv = record {
  one_pending = omega arith;
  history = omega arith;
  wiped = (λ h. absurd (cc), tt);
}

arms_b-Fits : Fits (arms (armed_transfer "b")) ledger
unfolding find
arms_b-Fits m r q = absurd (cc)

ledger-pending : pending ledger ≡ some (armed_transfer "a")
unfolding pending find
ledger-pending = refl

serve-keeps_pending_example :
    pending (serve full_disk (arms (armed_transfer "b")) ledger) ≡ some (armed_transfer "a")
serve-keeps_pending_example =
    serve-keeps_pending full_disk (armed_transfer "a") ledger ledger-Inv ledger-pending
      (arms (armed_transfer "b")) arms_b-Fits refl

abbrev over_transfer : StoredFaucetTransfer ℕ
over_transfer = confirm 205 "h" 2 (armed_transfer "b")

abbrev with_history : List (StoredFaucetTransfer ℕ)
with_history = over_transfer ∷ armed_transfer "a" ∷ []

with_history-pending : pending with_history ≡ some (armed_transfer "a")
unfolding pending find
with_history-pending = refl

with_history-find : find (has_txid "b") with_history ≡ some over_transfer
unfolding find
with_history-find = refl

abbrev working_disk : List (StoredFaucetTransfer ℕ) → Option String
working_disk ts = none

mark_recovering-second_pending_example :
    ((mark_recovering working_disk "b" none with_history).1 ≡ ok tt)
    × (open_store
          (persisted faucet_schema_version (mark_recovering working_disk "b" none with_history).0)
        ≡ err several_pending)
mark_recovering-second_pending_example =
    mark_recovering-second_pending working_disk "b" none with_history (armed_transfer "a")
      over_transfer with_history-pending with_history-find refl refl
