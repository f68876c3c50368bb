-- ===== src/Mining/Bootstrap/Stages.antt =====
-- Every stage, whatever its calls answer, leaves chains that the plan continues, and both nodes on one
-- chain when it succeeds.
use simchain.Base.{
  ℕ, zero, suc, ◌+◌, ◌-◌, ◌≤◌, ◌<◌, ◌≡◌, ◌⊎◌, refl, ap, sym, ◌∙◌, subst, Bool, true, false, Option,
  none, some, List, [], ◌∷◌, ◌++◌, append_assoc, append-nil, leb, ok, err, Result, length,
  replicate, String, arith, length-append, Bool-cases, Option-cases, inl, inr,
}
use simchain.Mining.Bootstrap.{
  Address, Node, Network, Begins, Stage, Outcome, finished, panicked, stage_failed, attempts,
  run_stage, rpc_retry_attempts, wait_for_height, synced,
}
use simchain.Mining.Bootstrap.Plan.{extend}

-- the targets rise, and each stage has both nodes, as its miner and its witness
abbrev pub Ascends : ℕ → List Stage → Type 0
Ascends low [] = Unit {0}
Ascends low (stage ∷ rest) =
    (low ≤ stage.target)
    × ((n : Node) → (n ≡ stage.miner) ⊎ (n ≡ stage.witness))
    × Ascends stage.target rest

-- `whole` begins with the chain, which has at least `low` blocks
abbrev pub Continues : List Address → ℕ → List Address → Type 0
Continues whole low chain = ((post : List Address) × (chain ++ post ≡ whole)) × (low ≤ length chain)

-- a beginning as long as the whole is the whole
pub whole_of : (c post w : List Address) → c ++ post ≡ w → length w ≤ length c → c ≡ w
whole_of c [] w e le = sym (append-nil c) ∙ e
whole_of c (x ∷ post) w e le = absurd (omega (arith, ap length e, length-append c (x ∷ post)))

module _ (net : Network) where
  open net use {
    State, chain, get_block_count, generate_to_address, read_keeps, read_height, generate_mines,
  }

  -- each chain is a beginning of the one of `n`
  abbrev pub Leads : Node → State → Type 0
  Leads n s = (m : Node) → Begins (chain m s) (chain n s)

  -- the nodes have one chain
  abbrev pub Together : State → Type 0
  Together s = (m n : Node) → chain m s ≡ chain n s

  -- each chain is a beginning of `whole`
  abbrev pub Settled : List Address → State → Type 0
  Settled whole s = (n : Node) → Begins (chain n s) whole

  pub Together-Leads : (n : Node) (s : State) → Together s → Leads n s
  Together-Leads n s t = λ m. ([], append-nil (chain m s) ∙ t m n)

  pub read-Together : (m : Node) (s : State) → Together s → Together (get_block_count m s).1
  read-Together m s t = λ a b.
      (read_keeps a m s (Together-Leads a s t)).0
      ∙ t a b
      ∙ sym (read_keeps b m s (Together-Leads b s t)).0

  -- the leading node's height is read as it is
  pub read_leading :
      (n : Node) (s : State) (h : ℕ)
      → Leads n s
      → (get_block_count n s).0 ≡ some h
      → h ≡ length (chain n (get_block_count n s).1)
  read_leading n s h l q =
      let (low, high) = read_height n s h q in omega (arith, ap length (read_keeps n n s l).0)

  -- the leader's chain goes on to `whole`
  abbrev On : Node → List Address → ℕ → State → Type 0
  On n whole low s = Leads n s × Continues whole low (chain n s)

  On-Settled :
      (n : Node) (whole : List Address) (low : ℕ) (s : State) → On n whole low s → Settled whole s
  On-Settled n whole low s (l, ((post, e), _)) = λ m.
      let (post', e') = l m in
      (post' ++ post, sym (append_assoc (chain m s) post' post) ∙ ap (λ c. c ++ post) e' ∙ e)

  read-On :
      (n m : Node) (whole : List Address) (low : ℕ) (s : State)
      → On n whole low s
      → On n whole low (get_block_count m s).1
  read-On n m whole low s (l, c) =
      let (k, l') = read_keeps n m s l in (l', subst (Continues whole low) (sym k) c)

  -- where the wait ends, the witness has the height
  wait-On :
      (rounds : ℕ) (n w : Node) (h : ℕ) (whole : List Address) (low : ℕ) (s : State)
      → On n whole low s
      → h ≡ length (chain n s)
      → (let waited = wait_for_height net rounds w h s in
          On n whole low waited.1
          × (h ≡ length (chain n waited.1))
          × (waited.0 ≡ true → h ≤ length (chain w waited.1)))
  unfolding wait_for_height
  wait-On zero n w h whole low s o q = (o, q, λ t. absurd (cc))
  wait-On (suc rounds) n w h whole low s o q =
      let o' = read-On n w whole low s o in
      let q' = q ∙ ap length (sym (read_keeps n w s o.0).0) in
      let rest = wait-On rounds n w h whole low (get_block_count w s).1 o' q' in
      elim (Option-cases (get_block_count w s).0) [
        | inl e ↦ rw (e, wait_for_height) rest
        | inr (c, e) ↦ elim (Bool-cases (leb h c)) [
          | inr short ↦ rw (e, short, wait_for_height) rest
          | inl high ↦
              rw (e, high, wait_for_height)
                (o', q', λ _. ground (arith, high, (read_height w s c e).1))
        ]
      ]

  module _ (pre r : List Address) (stage : Stage) (d : ℕ)
      (ends : length pre + d ≡ stage.target) where
    abbrev whole : List Address
    whole = pre ++ (replicate d stage.addr ++ r)

    generate-On :
        (s : State) (h : ℕ)
        → h ≡ length (chain stage.miner s)
        → h < stage.target
        → On stage.miner whole (length pre) s
        → On stage.miner whole
            (length pre)
            (generate_to_address stage.miner (stage.target - h) stage.addr s).1
    generate-On s h at lt (l, ((post, e), le)) =
        let (j, few, grown, leads, _) =
          generate_mines stage.miner (stage.target - h) stage.addr s l in
        let longer = extend pre (chain stage.miner s) post r stage.addr d j e le (omega arith) in
        (
          leads,
          rw grown
              (longer, omega (arith, length-append (chain stage.miner s) (replicate j stage.addr))),
        )

    attempts-On :
        (k : ℕ) (last : Option String) (s : State)
        → On stage.miner whole (length pre) s
        → On stage.miner whole (length pre) (attempts net k stage last s).1
    unfolding attempts
    attempts-On zero last s c = c
    attempts-On (suc k) last s c =
        let s' = (get_block_count stage.miner s).1 in
        let c' = read-On stage.miner stage.miner whole (length pre) s c in
        elim (Option-cases (get_block_count stage.miner s).0) [
          | inl e ↦ rw (e, attempts) c'
          | inr (h, e) ↦ elim (Bool-cases (leb stage.target h)) [
            | inl reached ↦ rw (e, attempts, reached) c'
            | inr short ↦
                rw (e, attempts, short)
                  (attempts-On k _ _
                    (generate-On s' h (read_leading stage.miner s h c.0 e) (ground arith) c'))
          ]
        ]

    -- what a stage leaves: the plan goes on, and after a success both nodes are at its height
    abbrev StageEnds : Result Outcome ℕ × State → Type 0
    StageEnds out =
        Settled whole out.1
        × ((h : ℕ)
            → out.0 ≡ ok h
            → Together out.1
              × ((n : Node) → h ≡ length (chain n out.1))
              × (stage.target ≤ h)
              × Continues whole (length pre) (chain stage.miner out.1))
        × ¬ (out.0 ≡ err finished)

    -- a witness as high as the leading miner has its chain
    caught_up :
        (s : State)
        → ((n : Node) → (n ≡ stage.miner) ⊎ (n ≡ stage.witness))
        → Leads stage.miner s
        → length (chain stage.miner s) ≤ length (chain stage.witness s)
        → (n : Node) → chain n s ≡ chain stage.miner s
    caught_up s covers l le n = elim (covers n) [
      | inl q ↦ ap (λ m. chain m s) q
      | inr q ↦
          ap (λ m. chain m s) q
          ∙ whole_of (chain stage.witness s) (l stage.witness).0 (chain stage.miner s)
              (l stage.witness).1 le
    ]

    synced-StageEnds :
        (h : ℕ) (waited : Bool × State)
        → ((n : Node) → (n ≡ stage.miner) ⊎ (n ≡ stage.witness))
        → stage.target ≤ h
        → On stage.miner whole (length pre) waited.1
        → h ≡ length (chain stage.miner waited.1)
        → (waited.0 ≡ true → h ≤ length (chain stage.witness waited.1))
        → StageEnds (synced net h waited)
    unfolding synced
    synced-StageEnds h (false, s) covers le o q high =
        (On-Settled stage.miner whole (length pre) s o, (λ k e. absurd (cc)), λ e. absurd (cc))
    synced-StageEnds h (true, s) covers le o q high =
        let one = caught_up s covers o.0 (omega (arith, q, high refl)) in
        (
          On-Settled stage.miner whole (length pre) s o,
          (λ k e.
              let same : h ≡ k = cc in
              (
                (λ a b. one a ∙ sym (one b)),
                (λ n. sym same ∙ q ∙ ap length (sym (one n))),
                omega (arith, same, le),
                o.1,
              )),
          λ e. absurd (cc),
        )

    pub run_stage-StageEnds :
        (rounds : ℕ) (s : State)
        → ((n : Node) → (n ≡ stage.miner) ⊎ (n ≡ stage.witness))
        → On stage.miner whole (length pre) s
        → StageEnds (run_stage net rounds stage s)
    unfolding run_stage
    run_stage-StageEnds rounds s covers c =
        let tried = attempts net rpc_retry_attempts stage none s in
        let c' = attempts-On rpc_retry_attempts none s c in
        let read = get_block_count stage.miner tried.1 in
        let c'' = read-On stage.miner stage.miner whole (length pre) tried.1 c' in
        let failed : (e : Outcome) (s' : State)
            → (e ≡ finished → ⊥)
            → On stage.miner whole (length pre) s'
            → StageEnds (err e, s') =
          λ e s' n o.
            (On-Settled stage.miner whole (length pre) s' o, (λ k q. absurd (cc)), λ q. n (cc)) in
        elim (Option-cases tried.0) [
          | inl e ↦ rw (e, run_stage) (failed panicked tried.1 (λ q. cc) c')
          | inr (l, e) ↦ elim (Option-cases read.0) [
            | inl e' ↦ rw (e, run_stage, e') (failed panicked read.1 (λ q. cc) c'')
            | inr (h, e') ↦ elim (Bool-cases (leb stage.target h)) [
              | inr short ↦
                  rw (e, run_stage, e', short)
                    (failed (stage_failed stage.label l) read.1 (λ q. cc) c'')
              | inl reached ↦
                  let q = read_leading stage.miner tried.1 h c'.0 e' in
                  let (o, q', high) =
                    wait-On rounds stage.miner stage.witness h whole (length pre) read.1 c'' q in
                  rw (e, run_stage, e', reached)
                    (synced-StageEnds h (wait_for_height net rounds stage.witness h read.1) covers
                      (ground arith) o q' high)
            ]
          ]
        ]
