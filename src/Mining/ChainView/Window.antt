-- ===== src/Mining/ChainView/Window.antt =====
-- The bound on what the view keeps: `seen` stays within the window, `own` may not.
use Prim.Native.Nat.{zero-le}
use simchain.Base.{ℕ, suc, ◌+◌, ◌-◌, ◌≤◌, ◌<◌, ◌≡◌, Bool, none, some, [], ◌∷◌, arith, Eq, length}
use simchain.Mining.ChainView.{ChainView, record_block, reorg_window}
use simchain.Mining.ChainView.Chain.{get-record_block}
use simchain.Mining.ChainView.Heights.{
  Seen, Rises, get, get-cons, insert, insert-Rises, evict-Rises_floor,
}

floor_Rises :
    {H : Type 0} ⦃e : Eq H⦄ (view : ChainView H) (height : ℕ) (hash : H) (mine : Bool)
    → Rises 0 view.seen
    → Rises (height - reorg_window) (record_block view height hash mine).seen
unfolding record_block
floor_Rises view height hash mine r =
    evict-Rises_floor 0 (height - reorg_window) (insert height hash view.seen)
      (insert-Rises 0 height hash view.seen zero-le r)

module _ {H : Type 0} where
  -- no recorded height is above `top`
  abbrev pub UpTo : ℕ → Seen H → Type 0
  UpTo top s = (j : ℕ) → top < j → get s j ≡ none

  top_of : (h : ℕ) (x : H) (s : Seen H) (top : ℕ) → UpTo top ((h, x) ∷ s) → h ≤ top
  top_of h x s top u = ground (arith, u h, get-cons h h x s)

  UpTo-tail : (low h : ℕ) (x : H) (s : Seen H) (top : ℕ) → UpTo top ((h, x) ∷ s) → UpTo top s
  UpTo-tail low h x s top u j lt = ground (arith, u j lt, get-cons h j x s, top_of h x s top u)

  length_window :
      (s : Seen H) (low top : ℕ)
      → Rises low s
      → UpTo top s
      → low ≤ suc top
      → length s + low ≤ suc top
  length_window [] low top r u le = omega arith
  length_window ((h, x) ∷ s) low top r u le =
      let fits = top_of h x s top u in
      omega (arith, length_window s (h + 1) top r.1 (UpTo-tail low h x s top u) (omega arith))

-- Recording a block that no recorded height is above leaves at most 101 heights, all within the
-- window, and none above it.
pub record_block-window :
    {H : Type 0} ⦃e : Eq H⦄ (view : ChainView H) (height : ℕ) (hash : H) (mined_by_us : Bool)
    → Rises 0 view.seen
    → UpTo height view.seen
    → let seen = (record_block view height hash mined_by_us).seen in
      (length seen ≤ reorg_window + 1)
      × UpTo height seen
      × ((j : ℕ) → j + reorg_window < height → get seen j ≡ none)
      × (get seen height ≡ some hash)
record_block-window view height hash mine r u =
    let law = λ (j : ℕ). get-record_block view height j hash mine r in
    let above : UpTo height (record_block view height hash mine).seen =
      λ j lt. ground (arith, law j, u j lt) in
    (
      omega (
        arith,
        length_window _ (height - reorg_window) height (floor_Rises view height hash mine r) above
            (omega arith),
      ),
      above,
      λ j lt. ground (arith, law j),
      ground (arith, law height),
    )
