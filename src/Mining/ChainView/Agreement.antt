-- ===== src/Mining/ChainView/Agreement.antt =====
-- After a round of `sync_view` against a node whose chain stands still, every recorded height up
-- to the tip has the node's hash, whatever reorg or rewind came before.
use Prim.Native.Nat.{zero-le}
use native.Mathlib.Nat.{add-zero}
use simchain.Base.{
  ℕ, zero, suc, ◌+◌, ◌-◌, ◌≤◌, ◌<◌, ◌≡◌, refl, ap, true, false, Option, none, some, ◌⊎◌, inl, inr,
  arith, Eq, min, Bool-cases, Option-cases,
}
use simchain.Mining.ChainView.{
  ChainView, is_hash, find_fork, window_bottom, reorged, forget_from, rewind, sync_view,
}
use simchain.Mining.ChainView.Heights.{
  Seen, Rises, get, get-keep_below, keep_below-Rises, get-nil, first_height-cases,
}
use simchain.Mining.ChainView.Chain.{
  steady, IsChain, Tracks, Agrees, Ready, is_hash_sound, is_hash_complete, reorged-none,
}
use simchain.Mining.ChainView.Steps.{agree_down, walk-Ready, forget_from-Ready}
use simchain.Mining.ChainView.Fork.{Differs, find_fork-IsFork}

span : (from tip : ℕ) → (tip + 1 - from ≡ 0) ⊎ (from + (tip + 1 - from) ≡ suc tip)
span from tip = ground arith

module _ {H : Type 0} ⦃e : Eq H⦄ (parent : H → H) (node : ℕ → Option H) (tip : ℕ)
    (chain : IsChain parent node tip) where
  climb :
      (s : Seen H) (last j d : ℕ) (x : H)
      → Tracks parent s last
      → j + d ≤ last
      → get s j ≡ some x
      → (y : H) × (get s (j + d) ≡ some y)
  climb s last j zero x t le q = (x, rw add-zero q)
  climb s last j (suc d) x t le q =
      let (y, above) = t.upward j x (omega arith) q in
      let (z, got) = climb s last (suc j) d y t (omega arith) above in
      let e : j + suc d ≡ suc j + d = omega arith in (z, rw e got)

  grown-Ready :
      (view : ChainView H) (last : ℕ)
      → Tracks parent view.seen last
      → reorged (get view.seen (min last tip)) (node (min last tip)) ≡ false
      → Ready node tip (last + 1) view.seen
  unfolding reorged
  grown-Ready view last t same = record {
    rises = t.rises;
    agrees = λ j y lt le p.
        let base = min last tip in
        let e : j + (base - j) ≡ base = omega arith in
        let (z, got) = climb view.seen last j (base - j) y t (omega arith) p in
        let got' : get view.seen base ≡ some z = rw e at got in
        let hit : is_hash (node base) z ≡ true = ground (arith, got') in
        agree_down parent node tip chain view.seen last base z t (omega arith) (omega arith) got'
          (is_hash_sound (node base) z hit) (base - j) j y e p;
    upward = λ j y lt p. t.upward j y (omega arith) p;
  }

  empty-Ready :
      (view : ChainView H) (k : ℕ)
      → Rises 0 view.seen
      → ((j : ℕ) → j < k → get view.seen j ≡ none)
      → Ready node tip k (forget_from k view).seen
  unfolding forget_from
  empty-Ready view k r under = record {
    rises = keep_below-Rises 0 k view.seen r;
    agrees = λ j y lt le p. ground (arith, get-keep_below 0 k j view.seen r, under j lt);
    upward = λ j y lt p.
        absurd (ground (arith, get-keep_below 0 k j view.seen r, under j (omega arith)));
  }

  lost-Ready :
      (view : ChainView H) (last : ℕ)
      → Tracks parent view.seen last
      → ((x : H) → get view.seen 0 ≡ some x → node 0 ≡ some x)
      → Differs node view.seen 0 (min last tip)
      → (y : H) → get view.seen (min last tip) ≡ some y
      → let from = window_bottom view.seen + 1 in Ready node tip from (forget_from from view).seen
  unfolding window_bottom
  lost-Ready view last t genesis differs y at_base = elim (first_height-cases view.seen t.rises) [
    | inl (_, nil) ↦
        cc (at_base, ap (λ s. get s (min last tip)) nil, get-nil {H = H} (min last tip))
    | inr (zero, x, e, got, under) ↦
        absurd (is_hash_complete (node 0) x (differs 0 x zero-le zero-le got) (genesis x got))
    | inr (suc h, x, e, got, under) ↦
        let from : window_bottom view.seen + 1 ≡ suc h = rw (e, window_bottom) (omega arith) in
        rw from (empty-Ready view (suc h) t.rises under)
  ]

  pub rewind-Ready :
      (view : ChainView H) (last : ℕ)
      → Tracks parent view.seen last
      → ((x : H) → get view.seen 0 ≡ some x → node 0 ≡ some x)
      → let out = rewind (steady node last tip) view last tip in Ready node tip out.0 out.1.seen
  unfolding rewind
  rewind-Ready view last t genesis =
      let base = min last tip in
      elim (Bool-cases (reorged (get view.seen base) (node base))) [
        | inr same ↦ rw same (grown-Ready view last t same)
        | inl differs_at ↦ elim (find_fork-IsFork node view base t.rises) [
          | inl ((x, got, hit), le, _) ↦ rw differs_at (
              forget_from-Ready parent node tip chain view last (find_fork node view base) x t le
                got (is_hash_sound (node (find_fork node view base)) x hit))
          | inr (differs, e) ↦ elim (Option-cases (get view.seen base)) [
            | inl missing ↦
                cc (differs_at, ap (λ o. reorged o (node base)) missing, reorged-none (node base))
            | inr (y, at_base) ↦
                rw (differs_at, e) (lost-Ready view last t genesis differs y at_base)
          ]
        ]
      ]

  pub Ready-Tracks :
      (s : Seen H) (from : ℕ)
      → suc tip ≤ from
      → Ready node tip from s
      → Agrees node s tip × Tracks parent s tip
  Ready-Tracks s from le r =
      let agrees : Agrees node s tip = λ j x at p. r.agrees j x (omega arith) at p in
      (
        agrees,
        record {
          rises = r.rises;
          upward = λ h x lt p. r.upward h x (omega arith) p;
          linked = λ h x y lt p q.
              chain.linked h x y lt (agrees h x (omega arith) p) (agrees (suc h) y lt q);
        },
      )

-- One round against a node whose chain stands still. The node has a chain up to `tip`, the view
-- tracks one chain up to `last`, and a recorded genesis block is the node's. Then the round
-- returns `tip`, every height recorded up to `tip` has the node's hash, and the view tracks one
-- chain up to `tip`, so that the next round may start from it.
pub sync_view-Agrees :
    {H : Type 0} ⦃e : Eq H⦄ (parent : H → H) (node : ℕ → Option H) (view : ChainView H)
    (last tip : ℕ)
    → IsChain parent node tip
    → Tracks parent view.seen last
    → ((x : H) → get view.seen 0 ≡ some x → node 0 ≡ some x)
    → let out = sync_view (steady node last tip) view last in
      (out.1 ≡ tip) × Agrees node out.0.seen tip × Tracks parent out.0.seen tip
unfolding sync_view
sync_view-Agrees parent node view last tip chain t genesis =
    let (from, view', report) = rewind (steady node last tip) view last tip in
    let ready = rewind-Ready parent node tip chain view last t genesis in
    let n = tip + 1 - from in
    let walked = walk-Ready parent node tip chain n from view' (span from tip) ready in
    let (agrees, tracks) = Ready-Tracks parent node tip chain _ (from + n) (omega arith) walked in
    (refl, agrees, tracks)
