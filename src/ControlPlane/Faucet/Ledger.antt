-- ===== src/ControlPlane/Faucet/Ledger.antt =====
-- crates/control-plane/src/faucet_store.rs: what the ledger promises over any sequence of updates.
use simchain.Base.{
  ℕ, ◌≤◌, Bool, true, false, String, String-eq, Option, none, some, List, [], ◌∷◌, ◌++◌, ◌≡◌, refl,
  arith, All, All-append, Bool-cases, Option-cases, inl, inr,
}
use simchain.ControlPlane.Faucet.{
  FaucetDeliveryState, StoredFaucetTransfer, find, update_first, count_where, is_pending,
  is_terminal, has_txid, max_terminal_history, is_failure_state, is_pending_state, keep, arm,
  update, with_state, confirm, fail, mark_recovering, mark_armed, mark_confirmed, mark_failed,
  mark_orphaned,
}
use simchain.ControlPlane.Faucet.Count.{
  one_if, count_where-update_first, count_where-append, find-count_where, All-update_first,
  trim-history, trim-pending, trim-All,
}

pub data Update (Delta : Type 0) : Type 0 where
  arms : StoredFaucetTransfer Delta → Update Delta
  recovers : (txid : String) → Option String → Update Delta
  rearms : (txid : String) → Update Delta
  confirms : (txid : String) (height : ℕ) (block_hash : String) (at_ms : ℕ) → Update Delta
  fails : (txid : String) → FaucetDeliveryState → (message : String) → Update Delta
  orphans : (txid message : String) → Update Delta

-- the record that an update names
abbrev pub txid_of : {Delta : Type 0} → Update Delta → String
txid_of (arms t) = t.public.txid
txid_of (recovers txid e) = txid
txid_of (rearms txid) = txid
txid_of (confirms txid h b t) = txid
txid_of (fails txid s m) = txid
txid_of (orphans txid m) = txid

-- does the update make a record pending
abbrev pub makes_pending : {Delta : Type 0} → Update Delta → Bool
makes_pending (arms t) = true
makes_pending (recovers txid e) = true
makes_pending (rearms txid) = true
makes_pending _ = false

-- the record that an update makes pending, if there is one, is pending already
abbrev pub Fits : {Delta : Type 0} → Update Delta → List (StoredFaucetTransfer Delta) → Type 0
Fits {Delta} u ts =
    makes_pending u ≡ true
    → (r : StoredFaucetTransfer Delta) → find (has_txid (txid_of u)) ts ≡ some r
    → is_pending r ≡ true

-- a record that is not pending keeps no material for a recovery
abbrev pub Wiped : {Delta : Type 0} → StoredFaucetTransfer Delta → Type 0
Wiped t = is_pending t ≡ false → (t.raw_tx_hex ≡ none) × (t.selected_inputs ≡ [])

pub record Inv {Delta : Type 0} (ts : List (StoredFaucetTransfer Delta)) : Type 0 where
  pub one_pending : count_where is_pending ts ≤ 1
  pub history : count_where is_terminal ts ≤ max_terminal_history
  pub wiped : All Wiped ts

module _ {Delta : Type 0} (save : List (StoredFaucetTransfer Delta) → Option String) where
  keep-Inv :
      (ts : List (StoredFaucetTransfer Delta))
      → count_where is_pending ts ≤ 1
      → All Wiped ts
      → Inv (keep save ts).0
  unfolding keep
  keep-Inv ts one wiped = record {
    one_pending = omega (arith, one, trim-pending ts);
    history = trim-history ts;
    wiped = trim-All Wiped ts wiped;
  }

  update_first-Inv :
      (txid : String) (f : StoredFaucetTransfer Delta → StoredFaucetTransfer Delta)
      (r : StoredFaucetTransfer Delta) (ts : List (StoredFaucetTransfer Delta))
      → find (has_txid txid) ts ≡ some r
      → one_if (is_pending (f r)) ≤ one_if (is_pending r)
      → ((t : StoredFaucetTransfer Delta) → Wiped t → Wiped (f t))
      → Inv ts
      → Inv (keep save (update_first (has_txid txid) f ts)).0
  update_first-Inv txid f r ts found le wipes i =
      keep-Inv (update_first (has_txid txid) f ts)
        (omega (
          arith,
          count_where-update_first is_pending (has_txid txid) f r ts found,
          le,
          i.one_pending,
        ))
        (All-update_first Wiped (has_txid txid) f ts wipes i.wiped)

  update-Inv :
      (txid : String) (f : StoredFaucetTransfer Delta → StoredFaucetTransfer Delta)
      (ts : List (StoredFaucetTransfer Delta))
      → ((r : StoredFaucetTransfer Delta)
          → find (has_txid txid) ts ≡ some r
          → one_if (is_pending (f r)) ≤ one_if (is_pending r))
      → ((t : StoredFaucetTransfer Delta) → Wiped t → Wiped (f t))
      → Inv ts
      → Inv (update save txid f ts).0
  unfolding update
  update-Inv txid f ts le wipes i = elim (Option-cases (find (has_txid txid) ts)) [
    | inl n ↦ rw (n, update) i
    | inr (r, n) ↦ rw (n, update) (update_first-Inv txid f r ts n (le r n) wipes i)
  ]

  arm-Inv :
      (t : StoredFaucetTransfer Delta) (ts : List (StoredFaucetTransfer Delta))
      → Fits (arms t) ts
      → Inv ts
      → Inv (arm save t ts).0
  unfolding arm
  arm-Inv t ts fits i = elim (Bool-cases (is_pending t)) [
    | inr n ↦ rw (n, arm) i
    | inl p ↦
        let wipes : Wiped t = λ h. absurd (cc) in
        elim (Option-cases (find (has_txid t.public.txid) ts)) [
          | inr (r, n) ↦
              let q : is_pending r ≡ true = fits refl r n in
              rw (p, n, arm)
                (update_first-Inv t.public.txid (λ _. t) r ts n (ground arith) (λ _ _. wipes) i)
          | inl n ↦ elim (Option-cases (find is_pending ts)) [
            | inr (r, z) ↦ rw (p, n, z, arm) i
            | inl z ↦
                rw (p, n, z, arm)
                  (keep-Inv (ts ++ t ∷ [])
                    (ground
                      (arith, count_where-append is_pending ts t, find-count_where is_pending ts z))
                    (All-append Wiped ts (t ∷ []) i.wiped (wipes, tt)))
          ]
        ]
  ]

  unfoldable pub serve :
      Update Delta → List (StoredFaucetTransfer Delta) → List (StoredFaucetTransfer Delta)
  serve (arms t) ts = (arm save t ts).0
  serve (recovers txid e) ts = (mark_recovering save txid e ts).0
  serve (rearms txid) ts = (mark_armed save txid ts).0
  serve (confirms txid h b at_ms) ts = (mark_confirmed save txid h b at_ms ts).0
  serve (fails txid s m) ts = (mark_failed save txid s m ts).0
  serve (orphans txid m) ts = (mark_orphaned save txid m ts).0

  failed :
      (s : FaucetDeliveryState) (r : StoredFaucetTransfer Delta)
      → is_failure_state s ≡ true
      → one_if (is_pending_state s) ≤ one_if (is_pending r)
  failed FaucetDeliveryState.delivery_failed r q = omega arith
  failed FaucetDeliveryState.aborted_after_submission r q = omega arith
  failed FaucetDeliveryState.armed r q = absurd (cc)
  failed FaucetDeliveryState.recovering r q = absurd (cc)
  failed FaucetDeliveryState.confirmed r q = absurd (cc)
  failed FaucetDeliveryState.orphaned_after_confirmation r q = absurd (cc)

  serve-Inv :
      (u : Update Delta) (ts : List (StoredFaucetTransfer Delta))
      → Fits u ts
      → Inv ts
      → Inv (serve u ts)
  unfolding serve mark_recovering mark_armed mark_confirmed mark_failed mark_orphaned
  serve-Inv (arms t) ts fits i = arm-Inv t ts fits i
  serve-Inv (recovers txid e) ts fits i =
      update-Inv txid (with_state FaucetDeliveryState.recovering e) ts
        (λ r n. let p = fits refl r n in ground arith) (λ t w h. absurd (cc)) i
  serve-Inv (rearms txid) ts fits i =
      update-Inv txid (with_state FaucetDeliveryState.armed none) ts
        (λ r n. let p = fits refl r n in ground arith) (λ t w h. absurd (cc)) i
  serve-Inv (confirms txid h b at_ms) ts fits i =
      update-Inv txid (confirm h b at_ms) ts (λ r n. omega arith) (λ t w h. (refl, refl)) i
  serve-Inv (fails txid s m) ts fits i = elim (Bool-cases (is_failure_state s)) [
    | inl q ↦
        rw (q, serve, mark_failed)
          (update-Inv txid (fail s m) ts (λ r n. failed s r q) (λ t w h. (refl, refl)) i)
    | inr q ↦ rw (q, serve, mark_failed) i
  ]
  serve-Inv (orphans txid m) ts fits i =
      update-Inv txid (fail FaucetDeliveryState.orphaned_after_confirmation m) ts
        (λ r n. omega arith) (λ t w h. (refl, refl)) i

  unfoldable pub serve_all :
      List (Update Delta) → List (StoredFaucetTransfer Delta) → List (StoredFaucetTransfer Delta)
  serve_all [] ts = ts
  serve_all (u ∷ us) ts = serve_all us (serve u ts)

  unfoldable pub AllFit : List (Update Delta) → List (StoredFaucetTransfer Delta) → Type 0
  AllFit [] ts = Unit
  AllFit (u ∷ us) ts = Fits u ts × AllFit us (serve u ts)

  serve_all-keeps :
      (us : List (Update Delta)) (ts : List (StoredFaucetTransfer Delta))
      → AllFit us ts
      → Inv ts
      → Inv (serve_all us ts)
  unfolding serve_all AllFit
  serve_all-keeps [] ts fits i = i
  serve_all-keeps (u ∷ us) ts fits i =
      serve_all-keeps us (serve u ts) (fits.1) (serve-Inv u ts (fits.0) i)

  empty-Inv : Inv {Delta = Delta} []
  unfolding count_where
  empty-Inv = record { one_pending = omega arith; history = omega arith; wiped = tt }

  -- From the empty ledger, after any sequence of updates, whatever writing the file answers: at most
  -- one transfer is pending, at most 100 are kept that are not, and those keep no raw transaction
  -- and no selected inputs. An update that makes a known transfer pending is taken to name one that
  -- is pending already.
  pub serve_all-Inv : (us : List (Update Delta)) → AllFit us [] → Inv (serve_all us [])
  serve_all-Inv us fits = serve_all-keeps us [] fits empty-Inv
