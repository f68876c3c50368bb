-- ===== src/Mining/Bootstrap/Tests.antt =====
-- The sequence against two nodes, of which one lags until it is read.
use native.Mathlib.Nat.{le_refl}
use simchain.Base.{
  ℕ, ◌-◌, ◌≤◌, ◌≡◌, refl, ap, sym, ◌∙◌, arith, true, append_assoc, Bool-cases, inl, inr, some, List,
  [], ◌++◌, append-nil, Result, String, ok, err, leb, if◌then◌else◌, length, length-append,
  replicate,
}
use simchain.Mining.Bootstrap.{
  Address, Node, node2, node3, Network, Begins, finished, run, attempts, wait_for_height, synced,
  run_stage, run_stages, closing_read, bootstrap_end,
}
use simchain.Mining.Bootstrap.Plan.{plan}

abbrev Chains : Type 0
Chains = List Address × List Address

abbrev chain_of : Node → Chains → List Address
chain_of node2 s = s.0
chain_of node3 s = s.1

-- a node takes over the longer chain
abbrev longer : (own other : List Address) → List Address
longer own other = if leb (length other) (length own) then own else other

abbrev take_over : Node → Chains → Chains
take_over node2 s = (longer s.0 s.1, s.1)
take_over node3 s = (s.0, longer s.1 s.0)

abbrev put : Node → List Address → Chains → Chains
put node2 c s = (c, s.1)
put node3 c s = (s.0, c)

-- the longer one of a chain and a beginning of it
longer-own : (own other : List Address) → Begins other own → longer own other ≡ own
longer-own own other (post, e) =
    let le : leb (length other) (length own) ≡ true =
      ground (arith, length-append other post, ap length e) in
    rw le refl

longer-Begins : (own other : List Address) → Begins own other → Begins (longer own other) other
longer-Begins own other b = elim (Bool-cases (leb (length other) (length own))) [
  | inl q ↦ rw q b
  | inr q ↦ rw q ([], append-nil other)
]

longer-high : (own other : List Address) → length own ≤ length (longer own other)
longer-high own other = ground arith

by_node : (P : Node → Type 0) → P node2 → P node3 → (n : Node) → P n
by_node P p q node2 = p
by_node P p q node3 = q

reads_keep :
    (n m : Node) (s : Chains)
    → ((k : Node) → Begins (chain_of k s) (chain_of n s))
    → (chain_of n (take_over m s) ≡ chain_of n s)
      × ((k : Node) → Begins (chain_of k (take_over m s)) (chain_of n (take_over m s)))
reads_keep node2 node2 s l = let e = longer-own s.0 s.1 (l node3) in (e, λ k. rw e (l k))
reads_keep node2 node3 s l = (
  refl,
  by_node (λ k. Begins (chain_of k (take_over node3 s)) s.0) (l node2)
      (longer-Begins s.1 s.0 (l node3)),
)
reads_keep node3 node3 s l = let e = longer-own s.1 s.0 (l node2) in (e, λ k. rw e (l k))
reads_keep node3 node2 s l = (
  refl,
  by_node (λ k. Begins (chain_of k (take_over node2 s)) s.1) (longer-Begins s.0 s.1 (l node2))
      (l node3),
)

reads_height :
    (n : Node) (s : Chains) (h : ℕ)
    → some (length (chain_of n (take_over n s))) ≡ some h
    → (length (chain_of n s) ≤ h) × (h ≤ length (chain_of n (take_over n s)))
reads_height node2 s h q =
    let e : length (longer s.0 s.1) ≡ h = cc in
    (omega (arith, e, longer-high s.0 s.1), omega (arith, e))
reads_height node3 s h q =
    let e : length (longer s.1 s.0) ≡ h = cc in
    (omega (arith, e, longer-high s.1 s.0), omega (arith, e))

Begins-append : (c own more : List Address) → Begins c own → Begins c (own ++ more)
Begins-append c own more (post, e) =
    (post ++ more, sym (append_assoc c post more) ∙ ap (λ x. x ++ more) e)

mined_leads :
    (n : Node) (more : List Address) (s : Chains)
    → ((m : Node) → Begins (chain_of m s) (chain_of n s))
    → (chain_of n (put n (chain_of n s ++ more) s) ≡ chain_of n s ++ more)
      × ((m : Node)
          → Begins
              (chain_of m (put n (chain_of n s ++ more) s))
              (chain_of n (put n (chain_of n s ++ more) s)))
mined_leads node2 more s l = (
  refl,
  by_node (λ m. Begins (chain_of m (s.0 ++ more, s.1)) (s.0 ++ more)) ([], append-nil (s.0 ++ more))
      (Begins-append s.1 s.0 more (l node3)),
)
mined_leads node3 more s l = (
  refl,
  by_node (λ m. Begins (chain_of m (s.0, s.1 ++ more)) (s.1 ++ more))
      (Begins-append s.0 s.1 more (l node2)) ([], append-nil (s.1 ++ more)),
)

not_ok : (k : ℕ) → ◌≡◌ {A = Result String (Unit {0})} (err "timeout") (ok tt) → k - 1 ≡ k
not_ok k e = cc

fewer : (k : ℕ) → k - 1 ≤ k
fewer k = omega arith

-- nodes that do what they are told
abbrev obedient : Network
obedient = record {
  State = Chains;
  chain = chain_of;
  get_block_count = λ n s. (some (length (chain_of n (take_over n s))), take_over n s);
  generate_to_address = λ n k a s. (ok tt, put n (chain_of n s ++ replicate k a) s);
  read_keeps = reads_keep;
  read_height = reads_height;
  generate_mines = λ n k a s l.
      let (grown, leads) = mined_leads n (replicate k a) s l in
      (k, le_refl k, grown, leads, λ _. refl);
}

-- nodes whose generate calls time out after they mined one block less than asked for
abbrev timing_out : Network
timing_out = record {
  State = Chains;
  chain = chain_of;
  get_block_count = λ n s. (some (length (chain_of n (take_over n s))), take_over n s);
  generate_to_address = λ n k a s. (err "timeout", put n (chain_of n s ++ replicate (k - 1) a) s);
  read_keeps = reads_keep;
  read_height = reads_height;
  generate_mines = λ n k a s l.
      let (grown, leads) = mined_leads n (replicate (k - 1) a) s l in
      (k - 1, fewer k, grown, leads, not_ok k);
}

-- the table ends where the source's assertion says
length-plan : length plan ≡ bootstrap_end
length-plan = refl

finishes_from_nothing : (run obedient 1 ([], [])).0 ≡ finished
unfolding run run_stages run_stage attempts wait_for_height synced closing_read
finishes_from_nothing = refl
