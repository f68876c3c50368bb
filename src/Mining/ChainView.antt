-- ===== src/Mining/ChainView.antt =====
-- crates/mining-controller/src/chain_view.rs: the recent chain as the controller saw it.
-- A block hash is a type with an equality. Each height is asked for once in each phase of
-- `sync_view`, so a function for each phase stands for whatever the node answers over time.
pub mod Heights
pub mod Fork
pub mod Chain
pub mod Steps
pub mod Window
pub mod Leak
pub mod Agreement
pub mod Tests
use simchain.Base.{
  ℕ, zero, suc, ◌+◌, ◌-◌, ◌≡◌, refl, Bool, true, false, not, Option, none, some, List, [], ◌∷◌, leb,
  ltb, min, if◌then◌else◌, Eq, ◌==◌, ◌++◌, ◌&&◌,
}
use Heights.{Seen, insert, evict, evicted, keep_below, hashes_from, first_height}
use Heights

abbrev pub reorg_window : ℕ
reorg_window = 100

pub record ChainView (H : Type 0) : Type 0 where
  pub seen : Seen H
  pub own : List H

-- what the node answers during one `sync_view`
pub record Answers (H : Type 0) : Type 0 where
  pub block_count : Option ℕ
  pub hash_at_base : Option H
  pub hash_at_fork : ℕ → Option H
  pub hash_at_walk : ℕ → Option H

-- what `sync_view` reports
pub data Event (H : Type 0) : Type 0 where
  reorg : (fork last tip : ℕ) → Event H
  external : ℕ → H → Event H

module _ {H : Type 0} where
  pub new : ChainView H
  new = record { seen = []; own = [] }

  -- The bottom of the window where nothing matches.
  unfoldable pub window_bottom : Seen H → ℕ
  window_bottom s = elim (first_height s) [ none ↦ 0 | some h ↦ h - 1 ]

module _ {H : Type 0} ⦃e : Eq H⦄ where
  -- `HashSet::contains`, `insert`, `remove`
  pub contains : H → List H → Bool
  contains x [] = false
  contains x (y ∷ ys) = if y == x then true else contains x ys

  pub set_insert : H → List H → List H
  unfolding contains
  set_insert x ys = if contains x ys then ys else x ∷ ys

  pub set_remove : H → List H → List H
  set_remove x [] = []
  set_remove x (y ∷ ys) = let rest = set_remove x ys in if y == x then rest else y ∷ rest

  pub remove_all : List H → List H → List H
  remove_all [] ys = ys
  remove_all (x ∷ xs) ys = remove_all xs (set_remove x ys)

  unfoldable pub record_block : ChainView H → ℕ → H → Bool → ChainView H
  record_block view height hash mined_by_us =
      let seen = insert height hash view.seen in
      let own = if mined_by_us then set_insert hash view.own else view.own in
      let floor = height - reorg_window in
      record { seen = evict floor seen; own = remove_all (evicted floor seen) own }

  -- `node.get_block_hash(h).ok().as_ref() == Some(hash)`
  unfoldable pub is_hash : Option H → H → Bool
  is_hash none hash = false
  is_hash (some x) hash = x == hash

  -- the loop over `seen.range(..=below).rev()`: later entries are tried first
  unfoldable pub last_match : (ℕ → Option H) → ℕ → Seen H → Option ℕ
  unfolding is_hash
  last_match hash_at below [] = none
  last_match hash_at below ((h, x) ∷ s) = elim (last_match hash_at below s) [
    | some fork ↦ some fork
    | none ↦ if leb h below && is_hash (hash_at h) x then some h else none
  ]

  unfoldable pub find_fork : (ℕ → Option H) → ChainView H → ℕ → ℕ
  unfolding window_bottom
  find_fork hash_at view below = elim (last_match hash_at below view.seen) [
    | some fork ↦ fork
    | none ↦ window_bottom view.seen
  ]

  -- does the hash recorded at `base` differ from the node's
  unfoldable pub reorged : Option H → Option H → Bool
  unfolding is_hash
  reorged none answer = false
  reorged (some hash) answer = not (is_hash answer hash)

  unfoldable pub forget_from : ℕ → ChainView H → ChainView H
  forget_from k view = record {
    seen = keep_below k view.seen;
    own = remove_all (hashes_from k view.seen) view.own;
  }

  -- the loop `for h in from..=tip`, on the number of heights left
  unfoldable pub walk : (ℕ → Option H) → ℕ → ℕ → ChainView H → ChainView H × List (Event H)
  unfolding record_block contains
  walk hash_at zero h view = (view, [])
  walk hash_at (suc n) h view = elim (hash_at h) [
    | none ↦ (view, [])
    | some hash ↦
        let mined_by_us = contains hash view.own in
        let (view', events) = walk hash_at n (h + 1) (record_block view h hash mined_by_us) in
        (view', if mined_by_us then events else external h hash ∷ events)
  ]

  -- where the walk starts, the view that it starts from, and the report
  unfoldable pub rewind :
      Answers H → ChainView H → (last tip : ℕ) → ℕ × ChainView H × List (Event H)
  rewind node view last tip =
      let base = min last tip in
      let fork = find_fork node.hash_at_fork view base in
      if reorged (Heights.get view.seen base) node.hash_at_base
      then (fork + 1, forget_from (fork + 1) view, reorg fork last tip ∷ [])
      else (last + 1, view, [])

  unfoldable pub sync_view : Answers H → ChainView H → ℕ → ChainView H × ℕ × List (Event H)
  sync_view node view last = elim node.block_count [
    | none ↦ (view, last, [])
    | some tip ↦
        let (from, view', report) = rewind node view last tip in
        let (view'', events) = walk node.hash_at_walk (tip + 1 - from) from view' in
        (view'', tip, report ++ events)
  ]
