-- ===== src/Mining/ChainView/Chain.antt =====
-- What it means that the recorded heights come from one chain, and that they are the node's.
use Prim.Native.Nat.{zero-le}
use simchain.Base.{
  ℕ, suc, ◌-◌, ◌≤◌, ◌<◌, ◌≡◌, refl, ap, Bool, true, false, Option, none, some, arith, Eq, ==_sound,
  min, ltb, nat_eq, if◌then◌else◌, ==_refl,
}
use simchain.Mining.ChainView.{ChainView, Answers, is_hash, reorged, record_block, reorg_window}
use simchain.Mining.ChainView.Heights.{
  Seen, Rises, get, insert, get-insert, insert-Rises, get-evict, evict-Rises,
}

-- a node that gives the same answers all through the round
abbrev pub steady : {H : Type 0} → (ℕ → Option H) → (last tip : ℕ) → Answers H
steady node last tip = record {
  block_count = some tip;
  hash_at_base = node (min last tip);
  hash_at_fork = node;
  hash_at_walk = node;
}

-- a chain of blocks up to `tip`, in which a hash determines the hash before it
pub record IsChain {H : Type 0} (parent : H → H) (node : ℕ → Option H) (tip : ℕ) : Type 0 where
  pub present : (h : ℕ) → h ≤ tip → (x : H) × (node h ≡ some x)
  pub linked : (h : ℕ) (x y : H) → h < tip → node h ≡ some x → node (suc h) ≡ some y → x ≡ parent y

-- The heights recorded up to `last` run on to `last` and come from one chain.
pub record Tracks {H : Type 0} (parent : H → H) (s : Seen H) (last : ℕ) : Type 0 where
  pub rises : Rises 0 s
  pub upward : (h : ℕ) (x : H) → h < last → get s h ≡ some x → (y : H) × (get s (suc h) ≡ some y)
  pub linked :
      (h : ℕ) (x y : H) → h < last → get s h ≡ some x → get s (suc h) ≡ some y → x ≡ parent y

abbrev pub Agrees : {H : Type 0} → (ℕ → Option H) → Seen H → ℕ → Type 0
Agrees {H} node s n = (j : ℕ) (x : H) → j ≤ n → get s j ≡ some x → node j ≡ some x

module _ {H : Type 0} ⦃e : Eq H⦄ where
  pub is_hash_sound : (o : Option H) (x : H) → is_hash o x ≡ true → o ≡ some x
  unfolding is_hash
  is_hash_sound none x h = cc
  is_hash_sound (some y) x h = ap some (==_sound y x h)

  pub is_hash_complete : (o : Option H) (x : H) → is_hash o x ≡ false → o ≡ some x → ⊥
  unfolding is_hash
  is_hash_complete none x h p = cc
  is_hash_complete (some y) x h p = cc (h, ap (λ z. is_hash z x) p, ==_refl x)

  pub reorged-none : (o : Option H) → reorged none o ≡ false
  unfolding reorged
  reorged-none o = refl

  pub get-record_block :
      (view : ChainView H) (h j : ℕ) (x : H) (mine : Bool)
      → Rises 0 view.seen
      → get (record_block view h x mine).seen j ≡ (
          if ltb j (h - reorg_window) then none else if nat_eq h j then some x else get view.seen j)
  unfolding record_block
  get-record_block view h j x mine r = ground (
    arith,
    get-evict 0 (h - reorg_window) j (insert h x view.seen)
        (insert-Rises 0 h x view.seen zero-le r),
    get-insert h j x view.seen,
  )

  pub record_block-Rises :
      (view : ChainView H) (h : ℕ) (x : H) (mine : Bool)
      → Rises 0 view.seen
      → Rises 0 (record_block view h x mine).seen
  unfolding record_block
  record_block-Rises view h x mine r =
      evict-Rises 0 (h - reorg_window) (insert h x view.seen)
        (insert-Rises 0 h x view.seen zero-le r)

module _ {H : Type 0} (node : ℕ → Option H) (tip : ℕ) where
  -- what holds before the walk reaches height `from`
  pub record Ready (from : ℕ) (s : Seen H) : Type 0 where
    pub rises : Rises 0 s
    pub agrees : (j : ℕ) (x : H) → j < from → j ≤ tip → get s j ≡ some x → node j ≡ some x
    pub upward :
        (h : ℕ) (x : H) → suc h < from → get s h ≡ some x → (y : H) × (get s (suc h) ≡ some y)
