-- ===== src/Mining/ChainView/Heights.antt =====
-- The `BTreeMap<u64, BlockHash>` of crates/mining-controller/src/chain_view.rs: entries by rising
-- height, each height once.
use simchain.Base.{
  ℕ, ◌+◌, ◌≤◌, ◌<◌, ◌≡◌, refl, ◌⊎◌, inl, inr, Option, none, some, List, [], ◌∷◌, arith, ltb, leb,
  nat_eq, if◌then◌else◌,
}

abbrev pub Seen : Type 0 → Type 0
Seen H = List (ℕ × H)

module _ {H : Type 0} where
  -- every height is `n` or more, and heights rise
  abbrev pub Rises : ℕ → Seen H → Type 0
  Rises n [] = Unit {0}
  Rises n ((h, x) ∷ s) = (n ≤ h) × Rises (h + 1) s

  unfoldable pub get : Seen H → ℕ → Option H
  get [] k = none
  get ((h, x) ∷ s) k = if nat_eq h k then some x else get s k

  pub get-cons :
      (h j : ℕ) (x : H) (s : Seen H) → get ((h, x) ∷ s) j ≡ (if nat_eq h j then some x else get s j)
  unfolding get
  get-cons h j x s = refl

  pub get-nil : (j : ℕ) → get [] j ≡ none
  unfolding get
  get-nil j = refl

  unfoldable pub insert : ℕ → H → Seen H → Seen H
  insert k y [] = (k, y) ∷ []
  insert k y ((h, x) ∷ s) =
      let rest = insert k y s in
      if ltb k h then (k, y) ∷ (h, x) ∷ s else if nat_eq h k then (k, y) ∷ s else (h, x) ∷ rest

  -- the entries from `floor` up, `first_key_value` and `remove` in a loop
  unfoldable pub evict : ℕ → Seen H → Seen H
  evict floor [] = []
  evict floor ((h, x) ∷ s) = let rest = evict floor s in if leb floor h then (h, x) ∷ s else rest

  -- the hashes that `evict` takes out
  unfoldable pub evicted : ℕ → Seen H → List H
  evicted floor [] = []
  evicted floor ((h, x) ∷ s) = let rest = evicted floor s in if leb floor h then [] else x ∷ rest

  -- `split_off`: what stays, below `k`
  unfoldable pub keep_below : ℕ → Seen H → Seen H
  keep_below k [] = []
  keep_below k ((h, x) ∷ s) = let rest = keep_below k s in if ltb h k then (h, x) ∷ rest else []

  -- `split_off`: the hashes taken off, from `k` up
  unfoldable pub hashes_from : ℕ → Seen H → List H
  hashes_from k [] = []
  hashes_from k ((h, x) ∷ s) = let rest = hashes_from k s in if ltb h k then rest else x ∷ rest

  unfoldable pub first_height : Seen H → Option ℕ
  first_height [] = none
  first_height ((h, x) ∷ s) = some h

  Rises-mono : (m n : ℕ) (s : Seen H) → m ≤ n → Rises n s → Rises m s
  Rises-mono m n [] le r = tt
  Rises-mono m n ((h, x) ∷ s) le r = (omega arith, r.1)

  pub get_below : (n k : ℕ) (s : Seen H) → Rises n s → k < n → get s k ≡ none
  unfolding get
  get_below n k [] r lt = refl
  get_below n k ((h, x) ∷ s) r lt = ground (arith, get_below (h + 1) k s r.1)

  pub get-insert :
      (k j : ℕ) (y : H) (s : Seen H)
      → get (insert k y s) j ≡ (if nat_eq k j then some y else get s j)
  unfolding get insert
  get-insert k j y [] = refl
  get-insert k j y ((h, x) ∷ s) = ground (arith, get-insert k j y s)

  pub insert-Rises : (n k : ℕ) (y : H) (s : Seen H) → n ≤ k → Rises n s → Rises n (insert k y s)
  unfolding insert
  insert-Rises n k y [] le r = (le, tt)
  insert-Rises n k y ((h, x) ∷ s) le r =
      ground (arith, insert-Rises (h + 1) k y s, Rises-mono (k + 1) (h + 1) s)

  pub get-evict :
      (n floor j : ℕ) (s : Seen H)
      → Rises n s
      → get (evict floor s) j ≡ (if ltb j floor then none else get s j)
  unfolding get evict
  get-evict n floor j [] r = ground arith
  get-evict n floor j ((h, x) ∷ s) r =
      ground (arith, get-evict (h + 1) floor j s r.1, get_below (h + 1) j s r.1)

  pub evict-Rises : (n floor : ℕ) (s : Seen H) → Rises n s → Rises n (evict floor s)
  unfolding evict
  evict-Rises n floor [] r = tt
  evict-Rises n floor ((h, x) ∷ s) r =
      ground (arith, evict-Rises (h + 1) floor s r.1, Rises-mono n (h + 1) (evict floor s))

  pub evict-Rises_floor : (n floor : ℕ) (s : Seen H) → Rises n s → Rises floor (evict floor s)
  unfolding evict
  evict-Rises_floor n floor [] r = tt
  evict-Rises_floor n floor ((h, x) ∷ s) r = ground (arith, evict-Rises_floor (h + 1) floor s r.1)

  pub get-keep_below :
      (n k j : ℕ) (s : Seen H)
      → Rises n s
      → get (keep_below k s) j ≡ (if ltb j k then get s j else none)
  unfolding get keep_below
  get-keep_below n k j [] r = ground arith
  get-keep_below n k j ((h, x) ∷ s) r =
      ground (arith, get-keep_below (h + 1) k j s r.1, get_below (h + 1) j s r.1)

  pub keep_below-Rises : (n k : ℕ) (s : Seen H) → Rises n s → Rises n (keep_below k s)
  unfolding keep_below
  keep_below-Rises n k [] r = tt
  keep_below-Rises n k ((h, x) ∷ s) r = ground (arith, keep_below-Rises (h + 1) k s r.1)

  -- the lowest entry, if there is one
  pub first_height-cases :
      (s : Seen H)
      → Rises 0 s
      → ((first_height s ≡ none) × (s ≡ []))
        ⊎ ((h : ℕ) × (x : H) × (first_height s ≡ some h)
            × (get s h ≡ some x)
            × ((j : ℕ) → j < h → get s j ≡ none))
  unfolding first_height get
  first_height-cases [] r = inl (refl, refl)
  first_height-cases ((h, x) ∷ s) r =
      inr (h, x, refl, ground arith, λ j lt. ground (arith, get_below (h + 1) j s r.1))
