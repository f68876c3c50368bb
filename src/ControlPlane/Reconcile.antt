-- ===== src/ControlPlane/Reconcile.antt =====
-- crates/control-plane/src/reconcile.rs: one pass of the reconciliation, which brings restarted workers
-- back to the stored configuration. What the locks, the jobs, the file and the parser answer are
-- parameters of a pass.
pub mod Turn
pub mod Pass
pub mod Tests
use simchain.Base.{
  ℕ, Bool, true, false, not, ◌&&◌, ◌||◌, String, List, [], ◌∷◌, ◌++◌, ltb, if◌then◌else◌, Result,
  ok, err, Eq,
}
use simchain.Api.{DesiredState, running, paused}
use simchain.ControlPlane.Apply.{ControlState, ControlBackend, LiveTuning, has_policy}

pub record ReconcileOutcome : Type 0 where
  pub mining_policy_applied : Bool
  pub mining_state_applied : Bool
  pub spam_policy_applied : Bool
  pub spam_state_applied : Bool

abbrev pub no_change : ReconcileOutcome
no_change = record {
  mining_policy_applied = false;
  mining_state_applied = false;
  spam_policy_applied = false;
  spam_state_applied = false;
}

abbrev pub same_state : DesiredState → DesiredState → Bool
same_state running running = true
same_state paused paused = true
same_state _ _ = false

-- what the pass finds before it asks the workers
pub record Findings (Desired Mining Spam : Type 0) : Type 0 where
  pub apply_lock_is_free : Bool
  pub has_active_job : Bool
  pub file_lock : Result String Bool
  pub load_current : Result String (ControlState Desired)
  pub from_source : Desired → Result String (LiveTuning Mining Spam)

module _ {Policy World : Type 0} ⦃p : Eq Policy⦄ (worker : ControlBackend Policy World) where
  -- `apply_mining_policy` and `apply_spam_policy`
  unfoldable pub apply_policy :
      (generation : ℕ)
      → Policy
      → (effective_generation : ℕ) → World
      → Result String (Unit {0}) × World
  apply_policy generation policy effective_generation w =
      if ltb effective_generation generation
      then worker.set_policy generation policy w
      else worker.restore_policy generation policy w

  -- the second half of a worker's turn: its state, after the policy
  unfoldable pub reconcile_state :
      (policy_applied : Bool) (current desired : DesiredState)
      → World
      → Result String (Bool × Bool) × World
  reconcile_state policy_applied current desired w =
      if same_state current desired
      then (ok (policy_applied, false), w)
      else (let (answer, w') = worker.set_state desired w in
          elim answer [ ok _ ↦ (ok (policy_applied, true), w') | err e ↦ (err e, w') ])

  -- one worker's turn: has the policy been applied, has the state
  unfoldable pub reconcile_worker :
      (generation : ℕ) → Policy → DesiredState → World → Result String (Bool × Bool) × World
  reconcile_worker generation policy desired w = elim (worker.status w) [
    | err e ↦ (err e, w)
    | ok status ↦
        if has_policy generation policy status
        then reconcile_state false status.desired_state desired w
        else (let (answer, w') = apply_policy generation policy status.effective_generation w in
            elim answer [
              | ok _ ↦ reconcile_state true status.desired_state desired w'
              | err e ↦ (err e, w')
            ])
  ]

-- the outcome of the pass, by what the two turns answer
abbrev pub outcome_of :
    Result String (Bool × Bool)
    → Result String (Bool × Bool)
    → Result (List String) ReconcileOutcome
outcome_of (ok (mp, ms)) (ok (sp, ss)) = ok (record {
  mining_policy_applied = mp;
  mining_state_applied = ms;
  spam_policy_applied = sp;
  spam_state_applied = ss;
})
outcome_of (ok _) (err e) = err (e ∷ [])
outcome_of (err e) (ok _) = err (e ∷ [])
outcome_of (err e) (err e') = err (e ∷ e' ∷ [])

module _ {Mining Spam Desired World : Type 0} ⦃m : Eq Mining⦄ ⦃s : Eq Spam⦄
    (mining : ControlBackend Mining World) (spam : ControlBackend Spam World) where
  -- the two turns, mining first
  unfoldable pub reconcile_workers :
      ControlState Desired
      → LiveTuning Mining Spam
      → World
      → Result (List String) ReconcileOutcome × World
  reconcile_workers desired tuning w =
      let (of_mining, w') =
        reconcile_worker mining desired.generation tuning.mining desired.mining_state w in
      let (of_spam, w'') =
        reconcile_worker spam desired.generation tuning.spam desired.spam_state w' in
      (outcome_of of_mining of_spam, w'')

  -- the pass: the mirror of the stored state in memory, and the world
  unfoldable pub reconcile_once :
      Findings Desired Mining Spam
      → (mirror : ControlState Desired) → World
      → Result (List String) ReconcileOutcome × ControlState Desired × World
  reconcile_once found mirror w =
      if not found.apply_lock_is_free || found.has_active_job
      then (ok no_change, mirror, w)
      else elim found.file_lock [
        | err e ↦ (err (e ∷ []), mirror, w)
        | ok false ↦ (ok no_change, mirror, w)
        | ok true ↦ elim found.load_current [
          | err e ↦ (err (e ∷ []), mirror, w)
          | ok desired ↦ elim (found.from_source desired.desired) [
            | err e ↦ (err (e ∷ []), desired, w)
            | ok tuning ↦
                let (outcome, w') = reconcile_workers desired tuning w in (outcome, desired, w')
          ]
        ]
      ]
