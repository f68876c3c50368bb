-- ===== src/Mining/Bootstrap/Progress.antt =====
-- crates/mining-controller/src/bootstrap.rs: what the whole sequence leaves on the chains of both nodes.
use simchain.Base.{◌≤◌, ◌≡◌, List, length}
use simchain.Mining.Bootstrap.{Address, Node, Network, Outcome, finished}
use simchain.Mining.Bootstrap.Stages.{Together, Settled}

module _ (net : Network) where
  open net use {State, chain, get_block_count, read_keeps}

  -- every chain begins the plan, and has all of it where the stages finished
  abbrev Planned : List Address → Outcome × State → Type 0
  Planned whole out =
      Settled net whole out.1
      × (out.0 ≡ finished
          → Together net out.1 × ((n : Node) → length whole ≤ length (chain n out.1)))
