-- ===== src/ControlPlane/Rewind/Safety.antt =====
-- crates/control-plane/src/rewind_job.rs: what `completed_rewind_is_safe` finds, said of the tips and
-- the block hashes that the nodes answer.
use simchain.Base.{
  ℕ, Bool, true, false, ◌<◌, ◌≤◌, String, String-eq, List, [], ◌∷◌, ◌≡◌, ◌⊎◌, refl, ap, sym, ◌∙◌,
  arith, all, All, ltb, ◌==◌, ==_sound, ==_refl, ok, Bool-cases, Result-cases, inl, inr,
}
use simchain.ControlPlane.Rewind.{
  RewindNode, node1, node2, node3, all_nodes, NodeMap, values, RewindNodeTip, RequiredRecovery,
  RewindRecoveryContext, required, RewindBackend, is_tip, tips_equal, hashes_match,
  common_chain_contains,
}
use simchain.ControlPlane.Rewind.Recover.{built_on_target, completed_rewind_is_safe}

-- the tips are all at this height and block
abbrev pub AllAt : (height : ℕ) (hash : String) → List RewindNodeTip → Type 0
AllAt height hash = All (λ tip. (tip.height ≡ height) × (tip.best_hash ≡ hash))

all-AllAt :
    (height : ℕ) (hash : String) (tips : List RewindNodeTip)
    → all (is_tip height hash) tips ≡ true
    → AllAt height hash tips
all-AllAt height hash [] h = tt
all-AllAt height hash (tip ∷ tips) h = (
  (ground arith, ==_sound tip.best_hash hash (ground arith)),
  all-AllAt height hash tips (ground arith),
)

AllAt-all :
    (height : ℕ) (hash : String) (tips : List RewindNodeTip)
    → AllAt height hash tips
    → all (is_tip height hash) tips ≡ true
AllAt-all height hash [] h = refl
AllAt-all height hash (tip ∷ tips) ((a, b), hs) =
    let e : (tip.best_hash == hash) ≡ true =
      ap (λ x. tip.best_hash == x) (sym b) ∙ ==_refl tip.best_hash in
    ground (arith, AllAt-all height hash tips hs, e, a)

module _ {World : Type 0} (backend : RewindBackend World) where
  -- every node has this block at this height
  abbrev pub OnAllChains : (height : ℕ) (hash : String) → World → Type 0
  OnAllChains height hash w = All (λ node. backend.block_hash node height w ≡ ok hash) all_nodes

  -- some node has another block at this height
  abbrev pub IsGone : (height : ℕ) (hash : String) → World → Type 0
  IsGone height hash w =
      (node : RewindNode) × (other : String) × (backend.block_hash node height w ≡ ok other)
      × ¬ (other ≡ hash)

  -- The nodes stand at one block above the target, with the target on all their chains, and lower
  -- than the original tip or without it.
  abbrev pub IsBuiltOn : RequiredRecovery → NodeMap RewindNodeTip → World → Type 0
  IsBuiltOn plan tips w =
      (common : RewindNodeTip) × (rest : List RewindNodeTip) × (values tips ≡ common ∷ rest)
      × AllAt common.height common.best_hash rest
      × (plan.target_height ≤ common.height)
      × OnAllChains plan.target_height plan.target_tip w
      × ((common.height < plan.original_height) ⊎ IsGone plan.original_height plan.original_tip w)

  -- the nodes answer their tips, and these are at the target or built on it
  abbrev pub IsSafe : RequiredRecovery → World → Type 0
  IsSafe plan w =
      (tips : NodeMap RewindNodeTip) × (backend.tips w ≡ ok tips)
      × (AllAt plan.target_height plan.target_tip (values tips) ⊎ IsBuiltOn plan tips w)

  hashes_match-true :
      (height : ℕ) (hash : String) (nodes : List RewindNode) (w : World)
      → hashes_match backend height hash nodes w ≡ ok true
      → All (λ node. backend.block_hash node height w ≡ ok hash) nodes
  unfolding hashes_match
  hashes_match-true height hash [] w h = tt
  hashes_match-true height hash (node ∷ nodes) w h =
      elim (Result-cases (backend.block_hash node height w)) [
        | inr (e, q) ↦ absurd (ground arith)
        | inl (x, q) ↦ elim (Bool-cases (x == hash)) [
          | inl same ↦ (
            q ∙ ap ok (==_sound x hash same),
            hashes_match-true height hash nodes w (rw (q, same, hashes_match) at h),
          )
          | inr other ↦ absurd (ground arith)
        ]
      ]

  hashes_match-false :
      (height : ℕ) (hash : String) (nodes : List RewindNode) (w : World)
      → hashes_match backend height hash nodes w ≡ ok false
      → IsGone height hash w
  unfolding hashes_match
  hashes_match-false height hash [] w h = absurd (cc)
  hashes_match-false height hash (node ∷ nodes) w h =
      elim (Result-cases (backend.block_hash node height w)) [
        | inr (e, q) ↦ absurd (ground arith)
        | inl (x, q) ↦ elim (Bool-cases (x == hash)) [
          | inl same ↦ hashes_match-false height hash nodes w (rw (q, same, hashes_match) at h)
          | inr other ↦ (
            node,
            x,
            q,
            λ e. absurd (ground (arith, ap (λ y. x == y) (sym e) ∙ ==_refl x, other)),
          )
        ]
      ]

  OnAllChains-hashes_match :
      (height : ℕ) (hash : String) (w : World)
      → OnAllChains height hash w
      → hashes_match backend height hash all_nodes w ≡ ok true
  unfolding hashes_match
  OnAllChains-hashes_match height hash w (a, (b, (c, _))) =
      let same : (hash == hash) ≡ true = ==_refl hash in rw (a, b, c, same, hashes_match) refl

  OnAllChains-IsGone :
      (height : ℕ) (hash : String) (w : World)
      → OnAllChains height hash w
      → IsGone height hash w
      → ⊥
  OnAllChains-IsGone height hash w (a, (b, (c, _))) (node1, other, q, n) = n (cc)
  OnAllChains-IsGone height hash w (a, (b, (c, _))) (node2, other, q, n) = n (cc)
  OnAllChains-IsGone height hash w (a, (b, (c, _))) (node3, other, q, n) = n (cc)

  -- where the tips agree and are high enough, only the hashes count
  common_chain_contains-hashes :
      (height : ℕ) (hash : String) (w : World) (tips : NodeMap RewindNodeTip)
      (common : RewindNodeTip) (rest : List RewindNodeTip)
      → backend.tips w ≡ ok tips
      → values tips ≡ common ∷ rest
      → all (is_tip common.height common.best_hash) rest ≡ true
      → ltb common.height height ≡ false
      → common_chain_contains backend height hash w ≡ hashes_match backend height hash all_nodes w
  unfolding common_chain_contains
  common_chain_contains-hashes height hash w tips common rest q v a l =
      rw (q, v, a, l, common_chain_contains) refl

  -- what `built_on_target` goes by, once the nodes are known to stand at one tip above the target
  built_on_target-common :
      (plan : RequiredRecovery) (w : World) (tips : NodeMap RewindNodeTip) (common : RewindNodeTip)
      (rest : List RewindNodeTip) (b : Bool)
      → backend.tips w ≡ ok tips
      → values tips ≡ common ∷ rest
      → all (is_tip common.height common.best_hash) rest ≡ true
      → ltb common.height plan.target_height ≡ false
      → hashes_match backend plan.target_height plan.target_tip all_nodes w ≡ ok true
      → built_on_target backend plan w ≡ ok b
      → (b ≡ true
          → (common.height < plan.original_height)
            ⊎ IsGone plan.original_height plan.original_tip w)
        × (b ≡ false
            → (plan.original_height ≤ common.height)
              × OnAllChains plan.original_height plan.original_tip w)
  unfolding built_on_target
  built_on_target-common plan w tips common rest b q v a l t h =
      let target =
        common_chain_contains-hashes plan.target_height plan.target_tip w tips common rest q v a l
        ∙ t in
      elim (Bool-cases (ltb common.height plan.original_height)) [
        | inl low ↦
            let yes : b ≡ true =
              ground (arith, rw (q, v, a, l, target, low, built_on_target) at h) in
            (λ _. inl (ground arith), λ no. absurd (cc))
        | inr high ↦
            let original =
              common_chain_contains-hashes plan.original_height plan.original_tip w tips common rest
                q v a high in
            elim (Result-cases
              (hashes_match backend plan.original_height plan.original_tip all_nodes w)) [
                | inr (e, r) ↦ absurd (
                    ground
                      (arith, rw (q, v, a, l, target, high, original, r, built_on_target) at h))
                | inl (true, r) ↦
                    let no : b ≡ false =
                      ground
                        (arith, rw (q, v, a, l, target, high, original, r, built_on_target) at h) in
                    (
                      λ yes. absurd (cc),
                      λ _. (
                        ground arith,
                        hashes_match-true plan.original_height plan.original_tip all_nodes w r,
                      ),
                    )
                | inl (false, r) ↦
                    let yes : b ≡ true =
                      ground
                        (arith, rw (q, v, a, l, target, high, original, r, built_on_target) at h) in
                    (
                      λ _.
                          inr (
                            hashes_match-false plan.original_height plan.original_tip all_nodes w
                              r),
                      λ no. absurd (cc),
                    )
              ]
      ]

  built_on_target_sound :
      (plan : RequiredRecovery) (w : World) (tips : NodeMap RewindNodeTip)
      (values_of : List RewindNodeTip)
      → backend.tips w ≡ ok tips
      → values tips ≡ values_of
      → built_on_target backend plan w ≡ ok true
      → IsBuiltOn plan tips w
  unfolding built_on_target
  built_on_target_sound plan w tips [] q v h =
      absurd (ground (arith, rw (q, v, built_on_target) at h))
  built_on_target_sound plan w tips (common ∷ rest) q v h =
      elim (Bool-cases (all (is_tip common.height common.best_hash) rest)) [
        | inr a ↦ absurd (ground (arith, rw (q, v, a, built_on_target) at h))
        | inl a ↦ elim (Bool-cases (ltb common.height plan.target_height)) [
          | inl l ↦ absurd (ground (arith, rw (q, v, a, l, built_on_target) at h))
          | inr l ↦
              let target =
                common_chain_contains-hashes plan.target_height plan.target_tip w tips common rest q
                  v a l in
              elim (Result-cases
                (hashes_match backend plan.target_height plan.target_tip all_nodes w)) [
                  | inr (e, t) ↦
                      absurd (ground (arith, rw (q, v, a, l, target, t, built_on_target) at h))
                  | inl (false, t) ↦
                      absurd (ground (arith, rw (q, v, a, l, target, t, built_on_target) at h))
                  | inl (true, t) ↦ (
                    common,
                    rest,
                    v,
                    all-AllAt common.height common.best_hash rest a,
                    ground arith,
                    hashes_match-true plan.target_height plan.target_tip all_nodes w t,
                    (built_on_target-common plan w tips common rest true q v a l t h).0 refl,
                  )
                ]
        ]
      ]

  built_on_target-unsafe :
      (plan : RequiredRecovery) (w : World) (tips : NodeMap RewindNodeTip)
      → backend.tips w ≡ ok tips
      → built_on_target backend plan w ≡ ok false
      → IsBuiltOn plan tips w
      → ⊥
  built_on_target-unsafe plan w tips q h (common, rest, v, a, le, on, lost) =
      let l : ltb common.height plan.target_height ≡ false = ground arith in
      let t = OnAllChains-hashes_match plan.target_height plan.target_tip w on in
      let (le', there) =
        (built_on_target-common plan w tips common rest false q v
            (AllAt-all common.height common.best_hash rest a) l t h).1
          refl in
      elim lost [
        | inl low ↦ omega arith
        | inr gone ↦ OnAllChains-IsGone plan.original_height plan.original_tip w there gone
      ]

  pub completed_rewind_is_safe_sound :
      (plan : RequiredRecovery) (c : RewindRecoveryContext) (w : World)
      → required c ≡ ok plan
      → completed_rewind_is_safe backend c w ≡ ok true
      → IsSafe plan w
  unfolding completed_rewind_is_safe tips_equal
  completed_rewind_is_safe_sound plan c w r h = elim (Result-cases (backend.tips w)) [
    | inr (e, q) ↦ absurd (ground (arith, rw (r, q, completed_rewind_is_safe) at h))
    | inl (tips, q) ↦
        elim (Bool-cases (all (is_tip plan.target_height plan.target_tip) (values tips))) [
          | inl at ↦ (tips, q, inl (all-AllAt plan.target_height plan.target_tip (values tips) at))
          | inr off ↦ (
            tips,
            q,
            inr (
                built_on_target_sound plan w tips (values tips) q refl
                  (rw (r, q, off, completed_rewind_is_safe) at h)),
          )
        ]
  ]

  pub completed_rewind_is_safe-unsafe :
      (plan : RequiredRecovery) (c : RewindRecoveryContext) (w : World)
      → required c ≡ ok plan
      → completed_rewind_is_safe backend c w ≡ ok false
      → ¬ IsSafe plan w
  unfolding completed_rewind_is_safe tips_equal
  completed_rewind_is_safe-unsafe plan c w r h (tips, q, safe) =
      elim (Bool-cases (all (is_tip plan.target_height plan.target_tip) (values tips))) [
        | inl at ↦ absurd (ground (arith, rw (r, q, at, completed_rewind_is_safe) at h))
        | inr off ↦ elim safe [
          | inl at ↦
              absurd
                (ground (arith, AllAt-all plan.target_height plan.target_tip (values tips) at, off))
          | inr built ↦
              built_on_target-unsafe plan w tips q (rw (r, q, off, completed_rewind_is_safe) at h)
                built
        ]
      ]
