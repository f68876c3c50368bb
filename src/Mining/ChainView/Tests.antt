-- ===== src/Mining/ChainView/Tests.antt =====
-- The view on small chains.
use simchain.Base.{
  ℕ, zero, suc, ◌+◌, ◌-◌, ◌≤◌, ◌<◌, ◌≡◌, refl, true, Option, none, some, [], ◌∷◌, arith, ℕ-eq,
  length, ltb, if◌then◌else◌, ◌⊎◌,
}
use simchain.Mining.ChainView.{
  ChainView, reorg, external, record_block, sync_view, find_fork, window_bottom, rewind, walk,
  contains, set_insert, set_remove, remove_all, reorged, is_hash, last_match, forget_from,
}
use simchain.Mining.ChainView.Heights.{get, insert, evict, evicted, keep_below, hashes_from, Rises}
use simchain.Mining.ChainView.Fork.{Differs, IsFork, find_fork-IsFork}
use simchain.Mining.ChainView.Chain.{IsChain, Tracks, Agrees, steady}
use simchain.Mining.ChainView.Agreement.{sync_view-Agrees}
use simchain.Mining.ChainView.Window.{UpTo, record_block-window}
use simchain.Mining.ChainView.Leak.{remined, own_unbounded}

-- heights 0 to 2; the controller mined the last block
abbrev view : ChainView ℕ
view = record { seen = (0, 10) ∷ (1, 11) ∷ (2, 12) ∷ []; own = 12 ∷ [] }

-- a hash is 10 more than its height
abbrev plain : ℕ → Option ℕ
plain h = some (10 + h)

-- the node after a reorg of height 2
abbrev rewritten : ℕ → Option ℕ
rewritten h = if ltb h 2 then some (10 + h) else some (90 + h)

reports_reorg :
    (sync_view (steady rewritten 2 3) view 2).2 ≡ reorg 1 2 3 ∷ external 2 92 ∷ external 3 93 ∷ []
unfolding record_block sync_view rewind walk set_insert set_remove remove_all reorged is_hash get
    insert evict evicted contains find_fork last_match forget_from keep_below hashes_from
reports_reorg = refl

own_is_forgotten : (sync_view (steady rewritten 2 3) view 2).0.own ≡ []
unfolding record_block sync_view rewind walk set_insert set_remove remove_all reorged is_hash get
    insert evict evicted contains find_fork last_match forget_from keep_below hashes_from
own_is_forgotten = refl

view-Rises : Rises 0 view.seen
view-Rises = omega arith

find_fork-IsFork_example :
    IsFork rewritten view.seen 2 (find_fork rewritten view 2)
    ⊎ (Differs rewritten view.seen 0 2 × (find_fork rewritten view 2 ≡ window_bottom view.seen))
find_fork-IsFork_example = find_fork-IsFork rewritten view 2 view-Rises

view_upward :
    (h : ℕ) (x : ℕ) → h < 2 → get view.seen h ≡ some x → (y : ℕ) × (get view.seen (suc h) ≡ some y)
unfolding get
view_upward zero x lt p = (11, refl)
view_upward (suc zero) x lt p = (12, refl)
view_upward (suc (suc h)) x lt p = absurd (omega arith)

view_linked :
    (h : ℕ) (x y : ℕ)
    → h < 2
    → get view.seen h ≡ some x
    → get view.seen (suc h) ≡ some y
    → x ≡ y - 1
unfolding get
view_linked zero x y lt p q = ground arith
view_linked (suc zero) x y lt p q = ground arith
view_linked (suc (suc h)) x y lt p q = absurd (omega arith)

view-Tracks : Tracks (λ x. x - 1) view.seen 2
view-Tracks = record { rises = view-Rises; upward = view_upward; linked = view_linked }

view_genesis : (x : ℕ) → get view.seen 0 ≡ some x → plain 0 ≡ some x
unfolding get
view_genesis x p = ground arith

view-UpTo : UpTo 2 view.seen
unfolding get
view-UpTo j lt = ground arith

plain-IsChain : IsChain (λ x. x - 1) plain 5
plain-IsChain = record { present = λ h le. (10 + h, refl); linked = λ h x y lt p q. ground arith }

sync_view-Agrees_example :
    let out = sync_view (steady plain 2 5) view 2 in
    (out.1 ≡ 5) × Agrees plain out.0.seen 5 × Tracks (λ x. x - 1) out.0.seen 5
sync_view-Agrees_example =
    sync_view-Agrees (λ x. x - 1) plain view 2 5 plain-IsChain view-Tracks view_genesis

record_block-window_example :
    let seen = (record_block view 2 22 true).seen in
    (length seen ≤ 101)
    × UpTo 2 seen
    × ((j : ℕ) → j + 100 < 2 → get seen j ≡ none)
    × (get seen 2 ≡ some 22)
record_block-window_example = record_block-window view 2 22 true view-Rises view-UpTo

own_unbounded_example : (length (remined 4).seen ≡ 2) × (length (remined 4).own ≡ 4)
own_unbounded_example = own_unbounded 3
