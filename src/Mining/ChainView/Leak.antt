-- ===== src/Mining/ChainView/Leak.antt =====
-- A rewind that keeps the block at the new tip is no reorg for `sync_view`, and the blocks mined
-- again over it replace entries of `seen` while `own` keeps the replaced hashes.
use native.Mathlib.Nat.{le_refl}
use simchain.Base.{
  ℕ, zero, suc, ◌≤◌, ◌≡◌, refl, true, false, some, List, [], ◌∷◌, arith, length, ap, ◌∙◌, ℕ-eq,
}
use simchain.Mining.ChainView.{
  ChainView, Answers, record_block, sync_view, rewind, walk, contains, set_insert, remove_all,
  reorged, is_hash,
}
use simchain.Mining.ChainView.Chain.{steady}
use simchain.Mining.ChainView.Heights.{get, insert, evict, evicted}

-- the node after each rewind: the genesis block, whose hash is 0, and nothing above it
abbrev genesis_only : Answers ℕ
genesis_only = steady (λ h. some 0) 1 0

-- Each round: the chain was rewound to height 0, and the controller mines block 1 anew.
pub remined : ℕ → ChainView ℕ
remined zero = record { seen = (0, 0) ∷ []; own = [] }
remined (suc n) = record_block (sync_view genesis_only (remined n) 1).0 1 (suc n) true

abbrev countdown : ℕ → List ℕ
countdown zero = []
countdown (suc n) = suc n ∷ countdown n

contains-countdown : (k n : ℕ) → n ≤ k → contains (suc k) (countdown n) ≡ false
unfolding contains
contains-countdown k zero le = refl
contains-countdown k (suc n) le = ground (arith, contains-countdown k n)

-- one more round, over the view that the round before left
again :
    (n : ℕ) (own : List ℕ)
    → contains (suc n) own ≡ false
    → record_block
        (sync_view genesis_only (record { seen = (0, 0) ∷ (1, n) ∷ []; own = own }) 1).0
        1
        (suc n)
        true
      ≡ record { seen = (0, 0) ∷ (1, suc n) ∷ []; own = suc n ∷ own }
unfolding record_block sync_view rewind walk set_insert remove_all reorged is_hash get insert evict
    evicted
again n own fresh = rw (fresh, set_insert)

once : remined 1 ≡ record { seen = (0, 0) ∷ (1, 1) ∷ []; own = 1 ∷ [] }
unfolding remined record_block sync_view rewind walk set_insert remove_all reorged is_hash get
    insert evict evicted contains
once = refl

remined_lem :
    (n : ℕ) → remined (suc n) ≡ record { seen = (0, 0) ∷ (1, suc n) ∷ []; own = countdown (suc n) }
unfolding remined
remined_lem zero = once
remined_lem (suc n) =
    ap (λ v. record_block (sync_view genesis_only v 1).0 1 (suc (suc n)) true) (remined_lem n)
    ∙ again (suc n) (countdown (suc n)) (contains-countdown (suc n) (suc n) (le_refl _))

length-countdown : (n : ℕ) → length (countdown n) ≡ n
length-countdown zero = refl
length-countdown (suc n) = ap suc (length-countdown n)

-- However often the chain is rewound by one block and mined again, the view has two heights, and
-- `own` has a hash for every block that was ever mined.
pub own_unbounded :
    (n : ℕ) → (length (remined (suc n)).seen ≡ 2) × (length (remined (suc n)).own ≡ suc n)
own_unbounded n = (
  ap (λ v. length v.seen) (remined_lem n),
  ap (λ v. length v.own) (remined_lem n) ∙ length-countdown (suc n),
)
