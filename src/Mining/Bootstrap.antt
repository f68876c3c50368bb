-- ===== src/Mining/Bootstrap.antt =====
-- crates/mining-controller/src/bootstrap.rs: the funding sequence from block 1 to block 204.
-- The two nodes and their RPCs are not the program's: they are the parameter `Network`, with a
-- chain for each node. A call made through `rpc_retry` gives `none` where that function panics. The
-- polls of `wait_for_height` are a number of rounds for each wait, after which the sequence is taken
-- as it stands, still waiting. Sleeps, `safe_point` and the log are not modelled.
pub mod Plan
pub mod Stages
pub mod Progress
pub mod Tests
use simchain.Base.{
  ℕ, zero, suc, Bool, true, false, ◌+◌, ◌-◌, ◌≤◌, ◌≡◌, Option, none, some, List, [], ◌∷◌, ◌++◌, leb,
  if◌then◌else◌, Result, ok, err, length, replicate, String,
}

pub data Node : Type 0 where
  node2 node3 : Node

-- whose address a block's reward goes to
pub data Address : Type 0 where
  addr2 addr3 user_address : Address

-- one chain begins with the other
abbrev pub Begins : List Address → List Address → Type 0
Begins xs ys = (post : List Address) × (xs ++ post ≡ ys)

-- Bitcoin Core as the sequence uses it: a chain for each node, given by the reward address of each
-- block from block 1 up, a height read, and a generate call that may fail after it mined some of the
-- blocks. A node takes over blocks from the other at any time, within a call: while the chain of `n`
-- is the longest and the other one begins it, reads of either node leave it alone, a generate call to
-- `n` adds to it alone, and the other node has a beginning of it. A read answers a height that the
-- node has during the call.
pub record Network : Type 1 where
  pub State : Type 0
  pub chain : Node → State → List Address
  pub get_block_count : Node → State → Option ℕ × State
  pub generate_to_address : Node → ℕ → Address → State → Result String (Unit {0}) × State
  pub read_keeps :
      (n m : Node) (s : State)
      → ((k : Node) → Begins (chain k s) (chain n s))
      → (chain n (get_block_count m s).1 ≡ chain n s)
        × ((k : Node) → Begins (chain k (get_block_count m s).1) (chain n (get_block_count m s).1))
  pub read_height :
      (n : Node) (s : State) (h : ℕ)
      → (get_block_count n s).0 ≡ some h
      → (length (chain n s) ≤ h) × (h ≤ length (chain n (get_block_count n s).1))
  pub generate_mines :
      (n : Node) (k : ℕ) (a : Address) (s : State)
      → ((m : Node) → Begins (chain m s) (chain n s))
      → (j : ℕ) × (j ≤ k)
        × (chain n (generate_to_address n k a s).1 ≡ chain n s ++ replicate j a)
        × ((m : Node)
            → Begins
                (chain m (generate_to_address n k a s).1)
                (chain n (generate_to_address n k a s).1))
        × ((generate_to_address n k a s).0 ≡ ok tt → j ≡ k)

abbrev pub bootstrap_end : ℕ
bootstrap_end = 204

abbrev pub rpc_retry_attempts : ℕ
rpc_retry_attempts = 8

pub record Stage : Type 0 where
  pub target : ℕ
  pub miner : Node
  pub witness : Node
  pub addr : Address
  pub label : String

abbrev pub stages : List Stage
stages =
    record {
      target = 1;
      miner = node2;
      witness = node3;
      addr = addr2;
      label = "node2 wallet block";
    }
    ∷ record {
      target = 2;
      miner = node3;
      witness = node2;
      addr = addr3;
      label = "node3 wallet block";
    }
    ∷ record {
      target = 3;
      miner = node2;
      witness = node3;
      addr = user_address;
      label = "user funding block 3";
    }
    ∷ record {
      target = 4;
      miner = node3;
      witness = node2;
      addr = user_address;
      label = "user funding block 4";
    }
    ∷ record {
      target = 54;
      miner = node2;
      witness = node3;
      addr = addr2;
      label = "node2 funding batch";
    }
    ∷ record {
      target = 104;
      miner = node3;
      witness = node2;
      addr = addr3;
      label = "node3 funding batch";
    }
    ∷ record {
      target = 154;
      miner = node2;
      witness = node3;
      addr = addr2;
      label = "node2 maturity batch";
    }
    ∷ record {
      target = 204;
      miner = node3;
      witness = node2;
      addr = addr3;
      label = "node3 maturity batch";
    }
    ∷ []

-- how the sequence ends
pub data Outcome : Type 0 where
  finished : Outcome
  stage_failed : (label : String) (last_error : Option String) → Outcome
  panicked : Outcome
  still_waiting : Outcome

module _ (net : Network) where
  open net use {State, get_block_count, generate_to_address}

  -- the error of a generate call, kept for the message of a failed stage
  abbrev pub note_error : Option String → Result String (Unit {0}) → Option String
  note_error last (ok _) = last
  note_error last (err e) = some e

  -- The loop over the attempts of one stage: `none` is a panic, `some` the last error.
  unfoldable pub attempts : ℕ → Stage → Option String → State → (Option (Option String)) × State
  attempts zero stage last s = (some last, s)
  attempts (suc k) stage last s =
      let (height, s') = get_block_count stage.miner s in
      elim height [
        | none ↦ (none, s')
        | some h ↦
            let (answer, s'') = generate_to_address stage.miner (stage.target - h) stage.addr s' in
            let rest = attempts k stage (note_error last answer) s'' in
            if leb stage.target h then (some last, s') else rest
      ]

  -- the polls of `wait_for_height`: was the height reached
  unfoldable pub wait_for_height : (rounds : ℕ) → Node → (height : ℕ) → State → Bool × State
  wait_for_height zero witness height s = (false, s)
  wait_for_height (suc rounds) witness height s =
      let (current, s') = get_block_count witness s in
      let rest = wait_for_height rounds witness height s' in
      elim current [ none ↦ rest | some c ↦ if leb height c then (true, s') else rest ]

  -- the end of a stage that has reached its target: the other node takes over its blocks
  unfoldable pub synced : ℕ → Bool × State → Result Outcome ℕ × State
  synced height (true, s) = (ok height, s)
  synced height (false, s) = (err still_waiting, s)

  -- One stage that is not yet reached: the attempts, one more read of the height, and the wait.
  unfoldable pub run_stage : (rounds : ℕ) → Stage → State → Result Outcome ℕ × State
  run_stage rounds stage s =
      let (done, s') = attempts rpc_retry_attempts stage none s in
      elim done [
        | none ↦ (err panicked, s')
        | some last_error ↦
            let (height, s'') = get_block_count stage.miner s' in
            elim height [
              | none ↦ (err panicked, s'')
              | some h ↦
                  if leb stage.target h
                  then synced h (wait_for_height rounds stage.witness h s'')
                  else (err (stage_failed stage.label last_error), s'')
            ]
      ]

  -- `for (target, ...) in stages`; a stage whose target is reached is skipped
  unfoldable pub run_stages : (rounds : ℕ) → List Stage → (height : ℕ) → State → Outcome × State
  run_stages rounds [] height s = (finished, s)
  run_stages rounds (stage ∷ rest) height s =
      let skipped = run_stages rounds rest height s in
      let (reached, s') = run_stage rounds stage s in
      let mined : Outcome × State = elim reached [
        | err e ↦ (e, s')
        | ok h ↦ run_stages rounds rest h s'
      ] in
      if leb stage.target height then skipped else mined

  -- the last read, for the log
  unfoldable pub closing_read : Outcome × State → Outcome × State
  closing_read (finished, s) =
      let (height, s') = get_block_count node2 s in
      elim height [ none ↦ (panicked, s') | some h ↦ (finished, s') ]
  closing_read (stage_failed label last_error, s) = (stage_failed label last_error, s)
  closing_read (panicked, s) = (panicked, s)
  closing_read (still_waiting, s) = (still_waiting, s)

  unfoldable pub run : (rounds : ℕ) → State → Outcome × State
  run rounds s =
      let (height, s') = get_block_count node2 s in
      elim height [ none ↦ (panicked, s') | some h ↦ closing_read (run_stages rounds stages h s') ]
