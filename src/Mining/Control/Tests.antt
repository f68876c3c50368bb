-- ===== src/Mining/Control/Tests.antt =====
-- crates/mining-controller/src/control.rs: a control whose policy is a number, in short runs.
use simchain.Base.{
  ℕ, ◌+◌, String-eq, true, false, none, some, List, [], ◌∷◌, ◌≡◌, refl, nat_eq, ltb, ok, is_some,
}
use simchain.Base.Text.{is_blank}
use simchain.Base.Table.{lookup, insert, remove, retain}
use simchain.Api.{
  DesiredState, WorkerPhase, LeaseRequest, SetStateRequest, SetPolicyRequest, CommandAck,
}
use simchain.Requests.{completed_request, trim, remember_within, completed_request_limit}
use simchain.Requests.Ledger.{IsLedger}
use simchain.Mining.Rng
use simchain.Mining.Control.{
  PolicyOps, Clock, Inner, LeaseEntry, new_inner, expire_leases, apply_pending_policy,
  pause_requested, is_effectively_paused, ack_of, safe_point_timeout,
}
use simchain.Mining.Control.Waiting.{
  Codec, for_pause, for_generation, waits, answered, finish, unless_completed, await_pause, resume,
  fingerprint_of,
}
use simchain.Mining.Control.Commands.{set_state, acquire_lease, requested_lease, set_policy}
use simchain.Mining.Control.Worker.{
  Scheduler, observe, mining_safe_point, begin_generate, finish_generate,
}
use simchain.Mining.Control.Step.{
  Turn, sets_state, acquires, at_safe_point, begins, finishes, take, take_all,
}
use simchain.Mining.Control.Pause.{Requested, take_all-pause_holds}
use simchain.Mining.Control.Leases.{AllUndisturbed, take_all-lease_holds}
use simchain.Mining.Control.Answers.{
  resume-grants_pause, acquire_lease-grants, begin_generate-guards,
}
use simchain.Mining.Control.Effects.{set_policy-takes_effect}
use simchain.Mining.Control.History.{run-IsLedger}
use simchain.Mining.Control.Rollback.{rollback-acknowledged_early}

abbrev ops : PolicyOps ℕ
ops = record { rng_seed = λ _. none; same = nat_eq; validate = ltb 0 }

abbrev codec : Codec ℕ
codec = record {
  state_json = λ r. r.request_id;
  lease_json = λ r. r.lease_id;
  renew_json = λ r. r.request_id;
  release_json = λ r. r.request_id;
  policy_json = λ r. r.request_id;
}

abbrev at : ℕ → Clock
at t = record { now = t; now_ms = t }

abbrev scheduler : Scheduler
scheduler = record { rng = Rng.new 7; toggle = true; observed_generation = 0 }

abbrev leased : LeaseEntry
leased = record {
  view = record {
    lease_id = "reorg";
    owner_job_id = "job-1";
    purpose = "reorg";
    expires_at_ms = 60000;
  };
  deadline = 60000;
}

abbrev request : LeaseRequest
request = record {
  lease_id = "spam";
  owner_job_id = "job-2";
  purpose = "apply";
  ttl_secs = 30;
  request_id = "r-1";
}

abbrev idle : Inner ℕ
idle = record {
  desired_state = DesiredState.running;
  leases = ("reorg", leased) ∷ [];
  policy = 1;
  generation = 0;
  pending_policy = none;
  phase = WorkerPhase.paused;
  effective_rng_seed = 7;
  height = none;
  next_scheduled_attempt_ms = none;
  last_mined_block = none;
  in_flight = false;
  last_error = none;
  started = 0;
  requests = record { completed = []; order = [] };
}

abbrev resumed : SetStateRequest
resumed = record { state = DesiredState.running; request_id = "r-2" }

abbrev turns : List (Turn ℕ)
turns =
    sets_state (at 10) resumed
    ∷ begins (at 20) 0
    ∷ at_safe_point (at 30) 5 scheduler
    ∷ acquires (at 40) safe_point_timeout request
    ∷ finishes none (some 3)
    ∷ []

turns-AllUndisturbed : AllUndisturbed ops codec "reorg" leased turns
unfolding AllUndisturbed
turns-AllUndisturbed = (refl, (refl, (refl, ((refl, refl), (tt, tt)))))

idle-holds : lookup "reorg" idle.leases ≡ some leased
unfolding lookup
idle-holds = refl

take_all-lease_holds_example :
    (lookup "reorg" (take_all ops codec turns idle).leases ≡ some leased)
    × (is_effectively_paused (take_all ops codec turns idle) ≡ true)
take_all-lease_holds_example =
    take_all-lease_holds ops codec "reorg" leased turns idle turns-AllUndisturbed idle-holds refl

turns-Requested : Requested ops codec turns idle
unfolding Requested take set_state begin_generate mining_safe_point acquire_lease finish_generate
    expire_leases apply_pending_policy observe unless_completed finish await_pause completed_request
    remember_within trim lookup insert remove retain is_blank
turns-Requested = (refl, (refl, (refl, (refl, (refl, tt)))))

take_all-pause_holds_example : is_effectively_paused (take_all ops codec turns idle) ≡ true
take_all-pause_holds_example = take_all-pause_holds ops codec turns idle refl turns-Requested

abbrev acknowledgement : CommandAck
acknowledgement = record {
  request_id = "r-1";
  phase = WorkerPhase.paused;
  effective_generation = 0;
}

request-unseen :
    completed_request idle.requests "r-1"
      (fingerprint_of "lease-acquire" (codec.lease_json request))
    ≡ ok none
unfolding completed_request lookup
request-unseen = refl

acquire_lease-ok :
    (acquire_lease codec (at 40) safe_point_timeout request idle).1 ≡ answered (ok acknowledgement)
unfolding acquire_lease expire_leases unless_completed finish await_pause completed_request
    remember_within trim lookup insert remove retain is_blank
acquire_lease-ok = refl

acquire_lease-grants_example :
    (is_effectively_paused (acquire_lease codec (at 40) safe_point_timeout request idle).0 ≡ true)
    × (lookup "spam" (acquire_lease codec (at 40) safe_point_timeout request idle).0.leases
        ≡ some (requested_lease (at 40) request))
acquire_lease-grants_example =
    acquire_lease-grants codec (at 40) safe_point_timeout request idle acknowledgement
      request-unseen acquire_lease-ok

resume-ok :
    (resume (at 50) false (for_pause 90 "r-1" "f" none) idle).1 ≡ answered (ok acknowledgement)
unfolding resume finish await_pause remember_within trim lookup insert remove
resume-ok = refl

resume-grants_pause_example :
    is_effectively_paused (resume (at 50) false (for_pause 90 "r-1" "f" none) idle).0 ≡ true
resume-grants_pause_example =
    resume-grants_pause (at 50) false 90 "r-1" "f" none idle acknowledgement resume-ok

abbrev running : Inner ℕ
running = record idle { phase = WorkerPhase.running; leases = [] }

begin_generate-ok : (begin_generate (at 20) 0 running).1 ≡ true
unfolding begin_generate expire_leases retain
begin_generate-ok = refl

begin_generate-guards_example :
    (pause_requested (begin_generate (at 20) 0 running).0 ≡ false)
    × (is_some (begin_generate (at 20) 0 running).0.pending_policy ≡ false)
    × ((begin_generate (at 20) 0 running).0.generation ≡ 0)
    × ((begin_generate (at 20) 0 running).0.in_flight ≡ true)
begin_generate-guards_example = begin_generate-guards (at 20) 0 running begin_generate-ok

abbrev second_policy : SetPolicyRequest ℕ
second_policy = record { generation = 1; policy = 4; request_id = "p-1"; rollback = false }

policy_id-written : is_blank "p-1" ≡ false
unfolding is_blank
policy_id-written = refl

policy-unseen : completed_request running.requests "p-1" (fingerprint_of "policy" "p-1") ≡ ok none
unfolding completed_request lookup
policy-unseen = refl

abbrev queued : Inner ℕ
queued = (set_policy codec ops (at 10) second_policy running).0

abbrev switched : Inner ℕ
switched = (mining_safe_point ops (at 30) 5 scheduler queued).0

set_policy-takes_effect_example :
    (queued.policy ≡ 1)
    × ((set_policy codec ops (at 10) second_policy running).1
        ≡ waits (for_generation 1 (10 + safe_point_timeout) "p-1" (fingerprint_of "policy" "p-1")))
    × (switched.policy ≡ 4)
    × (switched.generation ≡ 1)
    × ((resume (at 50) false (for_generation 1 90 "p-1" "f") switched).1
        ≡ answered (ok (ack_of switched "p-1")))
set_policy-takes_effect_example =
    set_policy-takes_effect ops codec (at 10) (at 30) (at 50) 5 scheduler second_policy running
      false 90 "f" policy_id-written refl policy-unseen refl refl

run-IsLedger_example :
    IsLedger completed_request_limit (take_all ops codec turns (new_inner 1 7 0)).requests
run-IsLedger_example = run-IsLedger ops codec turns 1 7 0

abbrev other_policy : SetPolicyRequest ℕ
other_policy = record { generation = 0; policy = 4; request_id = "p-1"; rollback = true }

rollback-acknowledged_early_example :
    ((set_policy codec ops (at 10) other_policy running).1 ≡ answered (ok (ack_of running "p-1")))
    × ((set_policy codec ops (at 10) other_policy running).0.policy ≡ 1)
    × ((set_policy codec ops (at 10) other_policy running).0.pending_policy
        ≡ some (record { generation = 0; policy = 4 }))
rollback-acknowledged_early_example =
    rollback-acknowledged_early ops codec (at 10) other_policy running policy_id-written refl
      policy-unseen refl refl refl refl
