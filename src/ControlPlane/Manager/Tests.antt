-- ===== src/ControlPlane/Manager/Tests.antt =====
-- crates/control-plane/src/jobs.rs: a job that mines beside a degraded node, and a store that is full.
use simchain.Base.{
  true, false, String, String-eq, none, some, List, [], ◌∷◌, ◌≡◌, inl, refl, arith, err,
}
use simchain.Base.Table.{lookup, insert, remove, retain}
use simchain.ControlPlane.Manager.{
  degrade, mine, reorg, succeeded, cleanup_succeeded, internal, operation_in_progress, find_stored,
  update, jobs_are_compatible, by_age, ensure_idle,
}
use simchain.ControlPlane.Manager.Operations.{
  Answers, new_job, start_job, trim_history, reserve_action_job, set_running, finish_job,
}
use simchain.ControlPlane.Manager.History.{Kept}
use simchain.ControlPlane.Manager.Serving.{
  Request, reserves, runs, finishes, serve_all, serve_all-Kept,
}
use simchain.ControlPlane.Manager.Stuck.{idle, unsaved, reserve_action_job-save_failed}

abbrev fine : (id : String) → Answers
fine id = record {
  new_id = id;
  now = 7;
  faucet_pending = false;
  events_removed = true;
  saved = true;
  emitted = true;
}

abbrev requests : List Request
requests =
    reserves (fine "job-1") mine none "3 blocks" none
    ∷ reserves (fine "job-2") degrade (some "node1") "slow" none
    ∷ runs 8 "job-1" "mining"
    ∷ finishes 9 "job-1" succeeded "complete" none cleanup_succeeded
    ∷ []

serve_all-Kept_example : Kept (serve_all requests (idle [] []))
unfolding find_stored update by_age jobs_are_compatible reserve_action_job start_job trim_history
    set_running finish_job insert remove lookup retain
serve_all-Kept_example =
    serve_all-Kept requests (idle [] [])
      (refl, (refl, ((new_job (fine "job-1") mine "3 blocks" none, refl, refl), (refl, tt))))
      (record { settled = tt; distinct = tt; exclusive = tt; degraded = tt; compatible = inl refl })

reserve_action_job-save_failed_example :
    (let answers = unsaved "job-1" 7 true true in
      let (answer, s) = reserve_action_job answers reorg none "depth 3" none (idle [] []) in
      (answer ≡ err internal)
      × (find_stored "job-1" s.jobs ≡ some (new_job answers reorg "depth 3" none))
      × (ensure_idle s ≡ some (operation_in_progress "job-1")))
unfolding find_stored
reserve_action_job-save_failed_example =
    reserve_action_job-save_failed "job-1" "depth 3" 7 true true reorg [] [] (omega arith) refl refl
