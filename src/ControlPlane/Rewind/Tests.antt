-- ===== src/ControlPlane/Rewind/Tests.antt =====
-- crates/control-plane/src/rewind_job.rs: runs on three nodes whose chain ends at height 210.
use simchain.Base.{
  ℕ, nat_eq, Bool, true, false, String, some, [], ◌∷◌, ◌≡◌, ◌⊎◌, refl, Result, ok, err,
  if◌then◌else◌,
}
use simchain.ControlPlane.Rewind.{
  RewindNode, node1, node2, node3, RewindNodeTip, RewindJobRequest, RequiredRecovery, required,
  prepared, RewindBackend, Run, common_tip, agree, tips_equal, hashes_match, common_chain_contains,
  await_tip, wait_for_exact_tip,
}
use simchain.ControlPlane.Rewind.Rollback.{
  save, reconsider, reconsider_all, await_original, rollback_once,
}
use simchain.ControlPlane.Rewind.Execute.{
  NodeReport, rewound, answered, prepare, invalidate, verify, report_nodes, conclude, finish,
  invalidate_all, execute_planned, execute,
}
use simchain.ControlPlane.Rewind.Recover.{built_on_target, completed_rewind_is_safe, recover}
use simchain.ControlPlane.Rewind.Safety.{IsSafe}
use simchain.ControlPlane.Rewind.Trace.{Ahead}
use simchain.ControlPlane.Rewind.Truth.{BranchIsBack}
use simchain.ControlPlane.Rewind.Ahead.{execute-Ahead}
use simchain.ControlPlane.Rewind.Outcome.{IsTrue, execute-IsTrue}
use simchain.ControlPlane.Rewind.Recovery.{recover_lem}

-- whether each node has lost the blocks from 209 on
record Nodes : Type 0 where
  at1 : Bool
  at2 : Bool
  at3 : Bool

abbrev tip : Bool → RewindNodeTip
tip true = record { height = 208; best_hash = "b208" }
tip false = record { height = 210; best_hash = "b210" }

abbrev hash_at : ℕ → Result String String
hash_at h =
    if nat_eq h 208
    then ok "b208"
    else (if nat_eq h 209 then ok "b209" else (if nat_eq h 210 then ok "b210" else err "no block"))

abbrev put : RewindNode → Bool → Nodes → Nodes
put node1 lost w = record w { at1 = lost }
put node2 lost w = record w { at2 = lost }
put node3 lost w = record w { at3 = lost }

abbrev three_nodes : RewindBackend Nodes
three_nodes = record {
  tips = λ w. ok (record {
    at_node1 = some (tip w.at1);
    at_node2 = some (tip w.at2);
    at_node3 = some (tip w.at3);
  });
  block_hash = λ node h w. hash_at h;
  invalidate_block = λ node hash w. (ok tt, put node true w);
  reconsider_block = λ node hash w. (ok tt, put node false w);
  mempool_size = λ node w. ok 0;
  wait = λ milliseconds w. w;
  persist = λ context w. ok tt;
  abort_requested = λ w. (false, w);
}

abbrev whole : Nodes
whole = record { at1 = false; at2 = false; at3 = false }

-- interrupted after the second node
abbrev halfway : Nodes
halfway = record { at1 = false; at2 = true; at3 = true }

abbrev two_blocks : RewindJobRequest
two_blocks = record { blocks = 2 }

abbrev down_to_208 : RequiredRecovery
down_to_208 = record {
  original_height = 210;
  original_tip = "b210";
  target_height = 208;
  target_tip = "b208";
  boundary_hash = "b209";
}

abbrev report : RewindNode → NodeReport
report node = record { node = node; height = 208; best_hash = "b208"; mempool_size = 0 }

execute_two :
    (execute three_nodes 1 two_blocks (record { world = whole; trace = [] })).0
    ≡ answered (
        ok (record {
          result = rewound 2 down_to_208 (report node1 ∷ report node2 ∷ report node3 ∷ []);
          chain_changed = true;
          aborted = false;
        }))
unfolding execute prepare common_tip agree execute_planned save invalidate_all invalidate verify
    finish wait_for_exact_tip await_tip tips_equal conclude report_nodes
execute_two = refl

execute-Ahead_example :
    (let done = execute three_nodes 1 two_blocks (record { world = whole; trace = [] }) in
      (done.1.trace ≡ [])
      ⊎ ((plan : RequiredRecovery) × (prepare three_nodes two_blocks whole ≡ ok plan)
          × Ahead plan done.1.trace))
execute-Ahead_example = execute-Ahead three_nodes 1 two_blocks whole

execute-IsTrue_example :
    (let start : Run Nodes = record { world = whole; trace = [] } in
      let done = execute three_nodes 1 two_blocks start in
      ((message : String) × (prepare three_nodes two_blocks whole ≡ err message)
        × (done ≡ (answered (err message), start)))
      ⊎ ((plan : RequiredRecovery) × (prepare three_nodes two_blocks whole ≡ ok plan)
          × IsTrue three_nodes two_blocks plan done.0 done.1))
execute-IsTrue_example = execute-IsTrue three_nodes 1 two_blocks whole

recover_lem_example :
    (let saved = prepared two_blocks down_to_208 in
      let run : Run Nodes = record { world = halfway; trace = [] } in
      let w = (recover three_nodes saved run).1.world in
      (IsSafe three_nodes down_to_208 halfway × (w ≡ halfway))
      ⊎ ((¬ IsSafe three_nodes down_to_208 halfway) × BranchIsBack three_nodes down_to_208 w))
unfolding recover completed_rewind_is_safe required tips_equal built_on_target rollback_once
    reconsider_all reconsider save await_original common_chain_contains hashes_match
recover_lem_example =
    recover_lem three_nodes down_to_208 (prepared two_blocks down_to_208)
      (record { world = halfway; trace = [] }) refl refl
