-- ===== src/ControlPlane/Apply/Tests.antt =====
-- crates/control-plane/src/apply.rs: two workers that take every policy but one that the spammer
-- refuses.
use simchain.Base.{
  ℕ, true, String, none, some, List, [], ◌∷◌, ◌≡◌, refl, if◌then◌else◌, Result, ok, err, ℕ-eq, ◌⊎◌,
  nat_eq, ltb,
}
use simchain.Api.{DesiredState, WorkerPhase}
use simchain.ControlPlane.Apply.{
  ServiceScope, WorkerStatus, ControlState, RuntimeSnapshot, RollbackReport, ErrorCode, refused,
  ApplyContext, Store, LiveTuning, set_scope, set_scopes, successful_apply, restored_scope,
  errors_of,
}
use simchain.ControlPlane.Apply.Transaction.{
  rollback_polls, restore_scope, restore_scopes, verify_rollback, rollback_runtime, fail_with,
  apply_tuning, apply_scopes, after_commands,
}
use simchain.ControlPlane.Apply.Report.{IsTrue, apply_tuning-IsTrue}
use simchain.ControlPlane.Apply.Restoration.{Commanded, now, later, apply_scopes-restores}
use simchain.ControlPlane.Apply.Checks.{Restored}

abbrev Workers : Type 0
Workers = RuntimeSnapshot ℕ ℕ

abbrev with_policy : (generation policy : ℕ) → WorkerStatus ℕ
with_policy generation policy = record {
  phase = WorkerPhase.running;
  desired_state = DesiredState.running;
  effective_generation = generation;
  policy = policy;
  last_error = none;
}

abbrev set_mining : ℕ → ℕ → Workers → Result String (Unit {0}) × Workers
set_mining g p w = (ok tt, record w { mining = with_policy g p })

abbrev set_spam : ℕ → ℕ → Workers → Result String (Unit {0}) × Workers
set_spam g p w =
    if nat_eq p 13 then (err "refused", w) else (ok tt, record w { spam = with_policy g p })

abbrev workers : ApplyContext ℕ ℕ ℕ Workers
workers = record {
  mining = record {
    status = λ w. ok w.mining;
    set_policy = set_mining;
    restore_policy = set_mining;
    set_state = λ s w. (ok tt, record w { mining = record w.mining { desired_state = s } });
  };
  spam = record {
    status = λ w. ok w.spam;
    set_policy = set_spam;
    restore_policy = set_spam;
    set_state = λ s w. (ok tt, record w { spam = record w.spam { desired_state = s } });
  };
  spam_enabled = ltb 0;
  node1_is_reachable = λ w. true;
  wait = λ w. w;
  save = λ next w. ok tt;
}

abbrev running_state : ControlState ℕ
running_state = record {
  schema_version = 1;
  generation = 4;
  desired = 40;
  mining_state = DesiredState.running;
  spam_state = DesiredState.running;
  last_apply = none;
}

abbrev at_four : Workers
at_four = record { mining = with_policy 4 7; spam = with_policy 4 8 }

abbrev store : Store ℕ Workers
store = record { stored = running_state; control_state = running_state; world = at_four }

abbrev both : List ServiceScope
both = ServiceScope.mining_controller ∷ ServiceScope.spammer ∷ []

apply_tuning-IsTrue_example :
    (let done = apply_tuning workers 1000 41 (record { mining = 9; spam = 13 }) store in
      IsTrue workers
        (successful_apply 1000 running_state 41)
        (record { mining = 9; spam = 13 })
        store
        done.1
        done.0)
apply_tuning-IsTrue_example =
    apply_tuning-IsTrue workers 1000 41 (record { mining = 9; spam = 13 }) store

abbrev restored_report : RollbackReport
restored_report = record { desired_state_preserved = true; runtime_restored = true; messages = [] }

abbrev asked_next : ControlState ℕ
asked_next = successful_apply 1000 running_state 41

-- a policy that the spammer refuses, once the mining worker has taken its own
abbrev asked_tuning : LiveTuning ℕ ℕ
asked_tuning = record { mining = 9; spam = 13 }

spammer-refused :
    (apply_scopes workers asked_next asked_tuning both at_four store).0
    ≡ refused ErrorCode.component_unavailable ("refused" ∷ []) (some restored_report)
unfolding apply_scopes set_scopes set_scope after_commands fail_with rollback_runtime restore_scopes
    restore_scope verify_rollback rollback_polls errors_of restored_scope
spammer-refused = refl

spammer-Commanded :
    Commanded workers asked_tuning asked_next.generation both at_four ServiceScope.spammer
unfolding set_scope
spammer-Commanded = later refl now

apply_scopes-restores_example :
    ((ErrorCode.component_unavailable ≡ ErrorCode.component_unavailable)
      ⊎ (ErrorCode.component_unavailable ≡ ErrorCode.internal))
    × Restored workers at_four
        (apply_scopes workers asked_next asked_tuning both at_four store).1.world
        ServiceScope.spammer
apply_scopes-restores_example =
    apply_scopes-restores workers asked_next asked_tuning both at_four store
      ErrorCode.component_unavailable ("refused" ∷ []) restored_report ServiceScope.spammer
      spammer-refused refl spammer-Commanded
