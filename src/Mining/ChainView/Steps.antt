-- ===== src/Mining/ChainView/Steps.antt =====
-- One step of the walk, and the cut at the fork, keep what was recorded the node's.
use native.Mathlib.Nat.{add-zero}
use simchain.Base.{
  ℕ, zero, suc, ◌+◌, ◌-◌, ◌≤◌, ◌≡◌, ap, sym, ◌∙◌, Bool, Option, some, ◌⊎◌, inl, inr, arith, Eq, min,
  Bool-cases, nat_eq,
}
use simchain.Mining.ChainView.{ChainView, forget_from, walk, record_block, contains}
use simchain.Mining.ChainView.Heights.{Seen, get, get-keep_below, keep_below-Rises}
use simchain.Mining.ChainView.Chain.{IsChain, Tracks, Ready, get-record_block, record_block-Rises}

module _ {H : Type 0} ⦃e : Eq H⦄ (parent : H → H) (node : ℕ → Option H) (tip : ℕ)
    (chain : IsChain parent node tip) where
  -- one common block makes the recorded blocks under it common
  pub agree_down :
      (s : Seen H) (last fork : ℕ) (x : H)
      → Tracks parent s last
      → fork ≤ last
      → fork ≤ tip
      → get s fork ≡ some x
      → node fork ≡ some x
      → (d j : ℕ) (y : H) → j + d ≡ fork
      → get s j ≡ some y
      → node j ≡ some y
  agree_down s last fork x t le le' got hit zero j y at q = ground (arith, at)
  agree_down s last fork x t le le' got hit (suc d) j y at q =
      let (z, above) = t.upward j y (omega arith) q in
      let (w, here) = chain.present j (omega arith) in
      let next = agree_down s last fork x t le le' got hit d (suc j) z (omega arith) above in
      let same : y ≡ w =
        t.linked j y z (omega arith) q above ∙ sym (chain.linked j w z (omega arith) here next) in
      here ∙ ap some (sym same)

  pub record_block-Ready :
      (view : ChainView H) (h : ℕ) (x : H) (mine : Bool)
      → node h ≡ some x
      → Ready node tip h view.seen
      → Ready node tip (h + 1) (record_block view h x mine).seen
  record_block-Ready view h x mine q r = record {
    rises = record_block-Rises view h x mine r.rises;
    agrees = λ j y lt le p. ground (arith, get-record_block view h j x mine r.rises, r.agrees j y);
    upward = λ j y lt p.
        let at_j = get-record_block view h j x mine r.rises in
        let at_next = get-record_block view h (suc j) x mine r.rises in
        elim (Bool-cases (nat_eq h (suc j))) [
          | inl top ↦ (x, ground (arith, at_next))
          | inr under ↦
              let (z, above) = r.upward j y (ground arith) (ground (arith, at_j)) in
              (z, ground (arith, at_j, at_next))
        ];
  }

  pub walk-Ready :
      (n from : ℕ) (view : ChainView H)
      → (n ≡ 0) ⊎ (from + n ≡ suc tip)
      → Ready node tip from view.seen
      → Ready node tip (from + n) (walk node n from view).0.seen
  unfolding walk
  walk-Ready zero from view c r = rw add-zero r
  walk-Ready (suc n) from view c r =
      let (x, q) = chain.present from (omega arith) in
      let e : from + suc n ≡ from + 1 + n = omega arith in
      let mine = contains x view.own in
      rw (e, q, walk)
        (walk-Ready n (from + 1) (record_block view from x mine) (inr (omega arith))
          (record_block-Ready view from x mine q r))

  pub forget_from-Ready :
      (view : ChainView H) (last fork : ℕ) (x : H)
      → Tracks parent view.seen last
      → fork ≤ min last tip
      → get view.seen fork ≡ some x
      → node fork ≡ some x
      → Ready node tip (fork + 1) (forget_from (fork + 1) view).seen
  unfolding forget_from
  forget_from-Ready view last fork x t le got hit = record {
    rises = keep_below-Rises 0 (fork + 1) view.seen t.rises;
    agrees = λ j y lt le' p.
        let law = get-keep_below 0 (fork + 1) j view.seen t.rises in
        agree_down view.seen last fork x t (omega arith) (omega arith) got hit (fork - j) j y
          (omega arith) (ground (arith, law));
    upward = λ j y lt p.
        let law = get-keep_below 0 (fork + 1) j view.seen t.rises in
        let law' = get-keep_below 0 (fork + 1) (suc j) view.seen t.rises in
        let (z, above) = t.upward j y (omega arith) (ground (arith, law)) in
        (z, ground (arith, law'));
  }
