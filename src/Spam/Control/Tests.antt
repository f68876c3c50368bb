-- ===== src/Spam/Control/Tests.antt =====
-- crates/spammer/src/control.rs: a control whose policy is a number, enabled unless it is zero.
use simchain.Base.{
  ℕ, String-eq, true, false, none, some, [], ◌≡◌, refl, nat_eq, ltb, ok, is_some, ◌||◌,
}
use simchain.Base.Text.{is_blank}
use simchain.Base.Table.{lookup, retain}
use simchain.Api.{DesiredState, WorkerPhase, LeaseRequest, CommandAck}
use simchain.Requests.{completed_request}
use simchain.Mining.Control.{Clock}
use simchain.Mining.Control.Waiting.{Codec, fingerprint_of}
use simchain.Mining.Control.Commands.{requested_lease, is_owned_elsewhere}
use simchain.Spam.Control.{SpamOps, Inner, expire_leases, pause_requested, work_interrupted}
use simchain.Spam.Control.Requests.{answered, acquire_lease}
use simchain.Spam.Control.Worker.{apply_policy, safe_point, begin_cycle}
use simchain.Spam.Control.Race.{acquire_lease-policy_race}
use simchain.Spam.Control.Cycle.{begin_cycle-guards}

abbrev ops : SpamOps ℕ
ops = record { enabled = ltb 0; same = nat_eq; validate = λ _. true }

abbrev codec : Codec ℕ
codec = record {
  state_json = λ r. r.request_id;
  lease_json = λ r. r.lease_id;
  renew_json = λ r. r.request_id;
  release_json = λ r. r.request_id;
  policy_json = λ r. r.request_id;
}

abbrev at : ℕ → Clock
at t = record { now = t; now_ms = t }

abbrev request : LeaseRequest
request = record {
  lease_id = "reorg";
  owner_job_id = "job-2";
  purpose = "reorg";
  ttl_secs = 30;
  request_id = "r-1";
}

-- the worker waits for a block
abbrev waiting : Inner ℕ
waiting = record {
  desired_state = DesiredState.running;
  leases = [];
  policy = 1;
  generation = 4;
  pending_policy = none;
  policy_failure = none;
  initialization_pending = false;
  reconciliation_pending = false;
  reconciliation_reason = none;
  reconciliation_count = 0;
  last_reconciliation_reason = none;
  capacity = none;
  phase = WorkerPhase.active;
  observed_height = none;
  cycle_phase = some "waiting_for_block";
  accepted_transactions = 0;
  last_cycle_duration_ms = none;
  in_flight = false;
  last_error = none;
  started = 0;
  requests = record { completed = []; order = [] };
}

-- a policy has just been queued, and the worker has not woken up
abbrev queued : Inner ℕ
queued = record waiting { pending_policy = some (record { generation = 5; policy = 7 }) }

request-written :
    (is_blank request.lease_id
      || is_blank request.owner_job_id
      || is_blank request.purpose
      || is_blank request.request_id)
    ≡ false
unfolding is_blank
request-written = refl

request-unseen :
    completed_request queued.requests "r-1"
      (fingerprint_of "lease-acquire" (codec.lease_json request))
    ≡ ok none
unfolding completed_request lookup
request-unseen = refl

lease-free :
    is_owned_elsewhere request (lookup "reorg" (expire_leases (at 40) queued).leases) ≡ false
unfolding lookup expire_leases retain
lease-free = refl

acquire_lease-policy_race_example :
    ((ack : CommandAck) × ((acquire_lease codec (at 40) 30000 request queued).1
        ≡ answered (ok ack)))
    × (lookup "reorg" (acquire_lease codec (at 40) 30000 request queued).0.leases
        ≡ some (requested_lease (at 40) request))
    × ((safe_point ops (at 50) (acquire_lease codec (at 40) 30000 request queued).0).1
        ≡ some (apply_policy 5 7))
    × ((safe_point ops (at 50) (acquire_lease codec (at 40) 30000 request queued).0).0.in_flight
        ≡ true)
acquire_lease-policy_race_example =
    acquire_lease-policy_race ops codec (at 40) (at 50) 30000 request queued
      (record { generation = 5; policy = 7 }) request-written refl request-unseen lease-free refl
      refl

begin_cycle-ok : (begin_cycle ops (at 10) 4 100 waiting).1 ≡ true
unfolding begin_cycle expire_leases retain work_interrupted
begin_cycle-ok = refl

begin_cycle-guards_example :
    (pause_requested (begin_cycle ops (at 10) 4 100 waiting).0 ≡ false)
    × (is_some (begin_cycle ops (at 10) 4 100 waiting).0.pending_policy ≡ false)
    × ((begin_cycle ops (at 10) 4 100 waiting).0.reconciliation_pending ≡ false)
    × ((begin_cycle ops (at 10) 4 100 waiting).0.initialization_pending ≡ false)
    × ((begin_cycle ops (at 10) 4 100 waiting).0.generation ≡ 4)
    × (ops.enabled (begin_cycle ops (at 10) 4 100 waiting).0.policy ≡ true)
    × ((begin_cycle ops (at 10) 4 100 waiting).0.in_flight ≡ true)
begin_cycle-guards_example = begin_cycle-guards ops (at 10) 4 100 waiting begin_cycle-ok
