-- ===== src/ControlPlane/Reconcile/Tests.antt =====
-- crates/control-plane/src/reconcile.rs: two workers that were restarted with their boot policies.
use simchain.Base.{ℕ, true, false, none, ok, ◌≡◌, ◌↔◌, refl, ℕ-eq}
use simchain.Api.{running, paused, WorkerPhase}
use simchain.ControlPlane.Apply.{
  ControlState, ControlBackend, LiveTuning, RuntimeSnapshot, WorkerStatus,
}
use simchain.ControlPlane.Reconcile.{Findings, no_change, reconcile_once}
use simchain.ControlPlane.Reconcile.Pass.{Proceeds, Converged, reconcile_once-rests}

abbrev Workers : Type 0
Workers = RuntimeSnapshot ℕ ℕ

abbrev under : (generation policy : ℕ) → WorkerStatus ℕ → WorkerStatus ℕ
under generation policy s = record s { effective_generation = generation; policy = policy }

abbrev miner : ControlBackend ℕ Workers
miner = record {
  status = λ w. ok w.mining;
  set_policy = λ g p w. (ok tt, record w { mining = under g p w.mining });
  restore_policy = λ g p w. (ok tt, record w { mining = under g p w.mining });
  set_state = λ s w. (ok tt, record w { mining = record w.mining { desired_state = s } });
}

abbrev spammer : ControlBackend ℕ Workers
spammer = record {
  status = λ w. ok w.spam;
  set_policy = λ g p w. (ok tt, record w { spam = under g p w.spam });
  restore_policy = λ g p w. (ok tt, record w { spam = under g p w.spam });
  set_state = λ s w. (ok tt, record w { spam = record w.spam { desired_state = s } });
}

abbrev booted : ℕ → WorkerStatus ℕ
booted policy = record {
  phase = WorkerPhase.running;
  desired_state = running;
  effective_generation = 0;
  policy = policy;
  last_error = none;
}

abbrev stored : ControlState ℕ
stored = record {
  schema_version = 1;
  generation = 6;
  desired = 70;
  mining_state = running;
  spam_state = paused;
  last_apply = none;
}

abbrev tuned : LiveTuning ℕ ℕ
tuned = record { mining = 7; spam = 8 }

abbrev idle : Findings ℕ ℕ ℕ
idle = record {
  apply_lock_is_free = true;
  has_active_job = false;
  file_lock = ok true;
  load_current = ok stored;
  from_source = λ desired. ok tuned;
}

idle-Proceeds : Proceeds idle stored tuned
idle-Proceeds = record {
  lock_is_free = refl;
  is_idle = refl;
  file_is_free = refl;
  loaded = refl;
  parsed = refl;
}

abbrev restarted : Workers
restarted = record { mining = booted 1; spam = booted 2 }

reconcile_once-rests_example :
    (let pass = reconcile_once miner spammer idle stored restarted in
      (pass.1 ≡ stored)
      × ((pass.0 ≡ ok no_change) ↔ Converged miner spammer stored tuned restarted)
      × ((pass.0 ≡ ok no_change) ↔ (pass ≡ (ok no_change, stored, restarted))))
reconcile_once-rests_example =
    reconcile_once-rests miner spammer idle stored tuned stored restarted idle-Proceeds
