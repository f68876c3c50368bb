-- ===== src/ControlPlane/Rewind.antt =====
-- crates/control-plane/src/rewind_job.rs: the data of a coordinated rewind of the three nodes, the
-- nodes and the observer behind an interface, and the questions that the coordinator asks of the chain.
-- Progress lines and JSON are left out, and the texts of messages are shortened.
pub mod Rollback
pub mod Execute
pub mod Recover
pub mod Trace
pub mod Ahead
pub mod Truth
pub mod Outcome
pub mod Safety
pub mod Recovery
pub mod Tests
use simchain.Base.{
  ℕ, zero, suc, ◌+◌, ◌-◌, Bool, true, false, not, ◌&&◌, ◌||◌, String, String-eq, Option, none, some,
  List, [], ◌∷◌, ◌++◌, ltb, leb, nat_eq, if◌then◌else◌, all, ◌==◌, Result, ok, err, ok_or, ensure,
  ◌>>=◌, ◌>>◌,
}

pub data RewindNode : Type 0 where
  node1 node2 node3 : RewindNode

abbrev pub all_nodes : List RewindNode
all_nodes = node1 ∷ node2 ∷ node3 ∷ []

abbrev pub invalidation_order : List RewindNode
invalidation_order = node2 ∷ node3 ∷ node1 ∷ []

-- `BTreeMap<RewindNode, _>`: its keys are the three nodes, in this order
pub record NodeMap (A : Type 0) : Type 0 where
  pub at_node1 : Option A
  pub at_node2 : Option A
  pub at_node3 : Option A

abbrev pub get : {A : Type 0} → RewindNode → NodeMap A → Option A
get node1 m = m.at_node1
get node2 m = m.at_node2
get node3 m = m.at_node3

abbrev pub insert : {A : Type 0} → RewindNode → A → NodeMap A → NodeMap A
insert node1 a m = record m { at_node1 = some a }
insert node2 a m = record m { at_node2 = some a }
insert node3 a m = record m { at_node3 = some a }

abbrev pub cons_some : {A : Type 0} → Option A → List A → List A
cons_some none xs = xs
cons_some (some x) xs = x ∷ xs

abbrev pub values : {A : Type 0} → NodeMap A → List A
values m = cons_some m.at_node1 (cons_some m.at_node2 (cons_some m.at_node3 []))

pub record RewindNodeTip : Type 0 where
  pub height : ℕ
  pub best_hash : String

pub data RewindNodeState : Type 0 where
  pending invalidated restored : RewindNodeState

pub record RewindJobRequest : Type 0 where
  pub blocks : ℕ

pub record RewindRecoveryContext : Type 0 where
  pub request : Option RewindJobRequest
  pub original_height : Option ℕ
  pub original_tip : Option String
  pub target_height : Option ℕ
  pub target_tip : Option String
  pub boundary_hash : Option String
  pub per_node_state : NodeMap RewindNodeState
  pub resolved : Bool

pub record RequiredRecovery : Type 0 where
  pub original_height : ℕ
  pub original_tip : String
  pub target_height : ℕ
  pub target_tip : String
  pub boundary_hash : String

abbrev pub max_rewind_blocks : ℕ
max_rewind_blocks = 100

abbrev pub min_rewind_target_height : ℕ
min_rewind_target_height = 204

-- the context before the first mutation, of what `execute` has found out
abbrev pub prepared : RewindJobRequest → RequiredRecovery → RewindRecoveryContext
prepared request plan = record {
  request = some request;
  original_height = some plan.original_height;
  original_tip = some plan.original_tip;
  target_height = some plan.target_height;
  target_tip = some plan.target_tip;
  boundary_hash = some plan.boundary_hash;
  per_node_state = record {
    at_node1 = some pending;
    at_node2 = some pending;
    at_node3 = some pending;
  };
  resolved = false;
}

unfoldable pub required : RewindRecoveryContext → Result String RequiredRecovery
required c = ok_or c.original_height "rewind original height is missing" >>= λ oh.
    ok_or c.original_tip "rewind original tip is missing" >>= λ ot.
    ok_or c.target_height "rewind target height is missing" >>= λ th.
    ok_or c.target_tip "rewind target tip is missing" >>= λ tt'.
    ok_or c.boundary_hash "rewind boundary hash is missing" >>= λ bh. ok (record {
      original_height = oh;
      original_tip = ot;
      target_height = th;
      target_tip = tt';
      boundary_hash = bh;
    })

-- The traits `RewindBackend` and `RewindObserver`. What a question answers is read off the world; a
-- mutation answers and leaves another world, and so do the passing of time and the question whether
-- an abort was requested, since other threads run. Saving the context leaves the chain alone.
pub record RewindBackend (World : Type 0) : Type 0 where
  pub tips : World → Result String (NodeMap RewindNodeTip)
  pub block_hash : RewindNode → (height : ℕ) → World → Result String String
  pub invalidate_block : RewindNode → (hash : String) → World → Result String (Unit {0}) × World
  pub reconsider_block : RewindNode → (hash : String) → World → Result String (Unit {0}) × World
  pub mempool_size : RewindNode → World → Result String ℕ
  pub wait : (milliseconds : ℕ) → World → World
  pub persist : RewindRecoveryContext → World → Result String (Unit {0})
  pub abort_requested : World → Bool × World

-- what leaves a trace: a context that was saved, and a mutation that was asked for
pub data Event : Type 0 where
  persisted : RewindRecoveryContext → Event
  invalidates : RewindNode → (hash : String) → Event
  reconsiders : RewindNode → (hash : String) → Event

-- the world, and what has happened, the last first
pub record Run (World : Type 0) : Type 0 where
  pub world : World
  pub trace : List Event

abbrev pub is_tip : (height : ℕ) (hash : String) → RewindNodeTip → Bool
is_tip height hash tip = nat_eq tip.height height && tip.best_hash == hash

-- every node that is asked for has the tip
unfoldable pub agree :
    RewindNodeTip → NodeMap RewindNodeTip → List RewindNode → Result String (Unit {0})
agree tip tips [] = ok tt
agree tip tips (node ∷ nodes) = elim (get node tips) [
  | none ↦ err "tip is missing"
  | some other ↦
      if is_tip tip.height tip.best_hash other
      then agree tip tips nodes
      else err "rewind_precondition_failed: nodes are not converged"
]

module _ {World : Type 0} (backend : RewindBackend World) where
  unfoldable pub common_tip : World → Result String RewindNodeTip
  common_tip w = backend.tips w >>= λ tips.
      ok_or tips.at_node1 "node1 tip is missing" >>= λ tip. agree tip tips all_nodes >> ok tip

  unfoldable pub tips_equal : (height : ℕ) (hash : String) → World → Result String Bool
  tips_equal height hash w = backend.tips w >>= λ tips. ok (all (is_tip height hash) (values tips))

  -- every node has the hash at the height
  unfoldable pub hashes_match :
      (height : ℕ) (hash : String) → List RewindNode → World → Result String Bool
  hashes_match height hash [] w = ok true
  hashes_match height hash (node ∷ nodes) w = elim (backend.block_hash node height w) [
    | err e ↦ err e
    | ok h ↦ if h == hash then hashes_match height hash nodes w else ok false
  ]

  unfoldable pub common_chain_contains : (height : ℕ) (hash : String) → World → Result String Bool
  common_chain_contains height hash w = elim (backend.tips w) [
    | err e ↦ err e
    | ok tips ↦ elim (values tips) [
      | [] ↦ ok false
      | first ∷ rest ↦
          if not (all (is_tip first.height first.best_hash) rest) || ltb first.height height
          then ok false
          else hashes_match height hash all_nodes w
    ]
  ]

  -- the rounds of `wait_for_exact_tip`
  unfoldable pub await_tip :
      (rounds height : ℕ) (hash : String) → World → Result String (Unit {0}) × World
  await_tip zero height hash w = (err "rewind_convergence_failed", w)
  await_tip (suc rounds) height hash w = elim (tips_equal height hash w) [
    | err e ↦ (err e, w)
    | ok true ↦ (ok tt, w)
    | ok false ↦ await_tip rounds height hash (backend.wait 250 w)
  ]

  unfoldable pub wait_for_exact_tip :
      (height : ℕ) (hash : String) → World → Result String (Unit {0}) × World
  wait_for_exact_tip = await_tip 40
