-- ===== src/Mining/ChainView/Fork.antt =====
-- Where `find_fork` says that the chains part.
use Prim.Native.Nat.{zero-le}
use simchain.Base.{
  ℕ, suc, ◌+◌, ◌≤◌, ◌≡◌, ap, ◌∙◌, true, false, Option, none, some, [], ◌∷◌, ◌⊎◌, inl, inr, arith,
  Eq, Option-cases,
}
use simchain.Mining.ChainView.{ChainView, is_hash, last_match, find_fork, window_bottom}
use simchain.Mining.ChainView.Heights.{Seen, Rises, get, get-cons, get-nil}

module _ {H : Type 0} ⦃e : Eq H⦄ (hash_at : ℕ → Option H) where
  -- no recorded height in the range has the node's hash
  abbrev pub Differs : Seen H → ℕ → ℕ → Type 0
  Differs s low below =
      (j : ℕ) (y : H) → low ≤ j → j ≤ below → get s j ≡ some y → is_hash (hash_at j) y ≡ false

  abbrev pub IsFork : Seen H → ℕ → ℕ → Type 0
  IsFork s below fork =
      ((x : H) × (get s fork ≡ some x) × (is_hash (hash_at fork) x ≡ true))
      × (fork ≤ below)
      × Differs s (suc fork) below

module _ {H : Type 0} ⦃e : Eq H⦄ (hash_at : ℕ → Option H) (below : ℕ) where
  last_match-none :
      (n : ℕ) (s : Seen H)
      → Rises n s
      → last_match hash_at below s ≡ none
      → Differs hash_at s 0 below
  unfolding last_match
  last_match-none n [] r h j y low le q = cc (get-nil {H = H} j)
  last_match-none n ((k, x) ∷ s) r h j y low le q =
      elim (Option-cases (last_match hash_at below s)) [
        | inl none_above ↦
            ground (arith, get-cons k j x s, last_match-none (k + 1) s r.1 none_above j y low le)
        | inr (f, found) ↦ ground (arith, found)
      ]

  last_match-some :
      (n : ℕ) (s : Seen H) (fork : ℕ)
      → Rises n s
      → last_match hash_at below s ≡ some fork
      → (n ≤ fork) × IsFork hash_at s below fork
  unfolding last_match
  last_match-some n [] fork r h = cc
  last_match-some n ((k, x) ∷ s) fork r h = elim (Option-cases (last_match hash_at below s)) [
    | inl none_above ↦
        let differs = last_match-none (k + 1) s r.1 none_above in
        (
          ground (arith, none_above),
          (
            (x, ground (arith, none_above, get-cons k fork x s), ground (arith, none_above)),
            ground (arith, none_above),
            λ j y low le q. differs j y zero-le le (ground (arith, none_above, get-cons k j x s)),
          ),
        )
    | inr (f, found) ↦
        let same : f ≡ fork = ground (arith, found) in
        let (above, ((y, got, hit), le, differs)) =
          last_match-some (k + 1) s fork r.1 (found ∙ ap some same) in
        (
          omega arith,
          (
            (y, ground (arith, get-cons k fork x s), hit),
            le,
            λ j z low le' q. differs j z low le' (ground (arith, get-cons k j x s)),
          ),
        )
  ]

-- `find_fork` returns the highest recorded height up to `below` whose hash is still the node's;
-- where no recorded hash up to `below` is, it returns the height under the window.
pub find_fork-IsFork :
    {H : Type 0} ⦃e : Eq H⦄ (hash_at : ℕ → Option H) (view : ChainView H) (below : ℕ)
    → Rises 0 view.seen
    → IsFork hash_at view.seen below (find_fork hash_at view below)
      ⊎ (Differs hash_at view.seen 0 below
          × (find_fork hash_at view below ≡ window_bottom view.seen))
unfolding find_fork
find_fork-IsFork hash_at view below r = elim (Option-cases (last_match hash_at below view.seen)) [
  | inl missed ↦ inr (last_match-none hash_at below 0 view.seen r missed, rw (missed, find_fork))
  | inr (f, found) ↦
      inl (rw (found, find_fork) (last_match-some hash_at below 0 view.seen f r found).1)
]
