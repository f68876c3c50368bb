-- ===== src/ControlPlane/Apply.antt =====
-- crates/control-plane/src/apply.rs: the transaction that brings a validated configuration to the two
-- workers, from the snapshot of their state on: apply, verify, persist, and restore on failure. With
-- the store of crates/control-plane/src/control_state.rs. Log lines and
-- warnings are left out, and the texts of messages are shortened.
pub mod Transaction
pub mod Checks
pub mod Report
pub mod Restoration
pub mod Tests
use simchain.Base.{
  ℕ, zero, suc, ◌+◌, Bool, true, false, not, ◌&&◌, ◌||◌, String, Option, none, some, List, [], ◌∷◌,
  ◌++◌, nat_eq, if◌then◌else◌, Result, ok, err, Eq, ◌==◌, ◌≡◌, unwrap_or,
}
use simchain.Api.{DesiredState, WorkerPhase}

pub data ServiceScope : Type 0 where
  mining_controller spammer : ServiceScope

pub record ApplyOutcome : Type 0 where
  pub status : String
  pub updated_at_ms : ℕ
  pub message : Option String

-- `desired` is a map from keys to values, which no operation here looks into: a type of its own
pub record ControlState (Desired : Type 0) : Type 0 where
  pub schema_version : ℕ
  pub generation : ℕ
  pub desired : Desired
  pub mining_state : DesiredState
  pub spam_state : DesiredState
  pub last_apply : Option ApplyOutcome

-- of the status of a worker, what the transaction and the reconciliation read
pub record WorkerStatus (Policy : Type 0) : Type 0 where
  pub phase : WorkerPhase
  pub desired_state : DesiredState
  pub effective_generation : ℕ
  pub policy : Policy
  pub last_error : Option String

pub record LiveTuning (Mining Spam : Type 0) : Type 0 where
  pub mining : Mining
  pub spam : Spam

pub record RuntimeSnapshot (Mining Spam : Type 0) : Type 0 where
  pub mining : WorkerStatus Mining
  pub spam : WorkerStatus Spam

pub record RollbackReport : Type 0 where
  pub desired_state_preserved : Bool
  pub runtime_restored : Bool
  pub messages : List String

pub data ErrorCode : Type 0 where
  validation_failed stale_revision operation_in_progress apply_in_progress : ErrorCode
  component_unavailable faucet_delivery_pending insufficient_faucet_funds : ErrorCode
  prepared_inputs_conflicted faucet_unavailable faucet_priority_invariant_failed : ErrorCode
  job_not_found checkpoint_conflict rollback_failed rpc_unavailable unauthorized : ErrorCode
  internal : ErrorCode

-- the report of the transaction
pub data Applied : Type 0 where
  unchanged : (generation : ℕ) → Applied
  committed : (generation : ℕ) (components_applied : List ServiceScope) → Applied
  refused : ErrorCode → (messages : List String) → Option RollbackReport → Applied

-- One side of the transaction's world: a worker, reached by its internal interface. What it answers to
-- `status` is read off the world; a command answers and leaves another world.
pub record ControlBackend (Policy World : Type 0) : Type 0 where
  pub status : World → Result String (WorkerStatus Policy)
  pub set_policy : ℕ → Policy → World → Result String (Unit {0}) × World
  pub restore_policy : ℕ → Policy → World → Result String (Unit {0}) × World
  pub set_state : DesiredState → World → Result String (Unit {0}) × World

-- `ApplyContext`, less its locks, with the file of the control state: what writing it answers
pub record ApplyContext (Mining Spam Desired World : Type 0) : Type 0 where
  pub mining : ControlBackend Mining World
  pub spam : ControlBackend Spam World
  pub spam_enabled : Spam → Bool
  pub node1_is_reachable : World → Bool
  pub wait : World → World
  pub save : ControlState Desired → World → Result String (Unit {0})

-- the stored state, the mirror of it in memory, and the world
pub record Store (Desired World : Type 0) : Type 0 where
  pub stored : ControlState Desired
  pub control_state : ControlState Desired
  pub world : World

abbrev pub state_schema_version : ℕ
state_schema_version = 1

abbrev pub stabilize_polls : ℕ
stabilize_polls = 4

abbrev pub is_error : WorkerPhase → Bool
is_error WorkerPhase.error = true
is_error _ = false

abbrev pub is_disabled : WorkerPhase → Bool
is_disabled WorkerPhase.disabled = true
is_disabled _ = false

unfoldable pub successful_apply :
    {Desired : Type 0} ⦃d : Eq Desired⦄
    → (now_ms : ℕ) → ControlState Desired
    → Desired
    → ControlState Desired
successful_apply now_ms previous desired = record {
  schema_version = state_schema_version;
  generation = previous.generation + (if previous.desired == desired then 0 else 1);
  desired = desired;
  mining_state = previous.mining_state;
  spam_state = previous.spam_state;
  last_apply = some (record { status = "succeeded"; updated_at_ms = now_ms; message = none });
}

-- has the worker this policy in effect, under this generation
abbrev pub has_policy : {P : Type 0} ⦃p : Eq P⦄ → ℕ → P → WorkerStatus P → Bool
has_policy generation policy s = nat_eq s.effective_generation generation && s.policy == policy

-- the checks that `verify_mining` and `verify_spam` share
unfoldable pub verify_worker :
    {P : Type 0} ⦃p : Eq P⦄ → ℕ → P → WorkerStatus P → Result String (Unit {0})
verify_worker generation policy s =
    if is_error s.phase
    then err (unwrap_or s.last_error "worker entered the error phase")
    else if not (nat_eq s.effective_generation generation)
    then err "effective generation differs"
    else if not (s.policy == policy)
    then err "effective policy does not match desired policy"
    else ok tt

-- the message of a failure, if it is one
abbrev pub failures_of : Result String (Unit {0}) → List String
failures_of (ok _) = []
failures_of (err e) = e ∷ []

abbrev pub answer_to :
    {P : Type 0} → (P → Result String (Unit {0})) → Result String P → Result String (Unit {0})
answer_to f (ok s) = f s
answer_to f (err e) = err e

-- the messages that a check of each scope gives
unfoldable pub errors_of :
    (ServiceScope → Result String (Unit {0})) → List ServiceScope → List String
errors_of check [] = []
errors_of check (scope ∷ scopes) = failures_of (check scope) ++ errors_of check scopes

module _ {Mining Spam Desired World : Type 0} ⦃m : Eq Mining⦄ ⦃s : Eq Spam⦄ ⦃d : Eq Desired⦄
    (context : ApplyContext Mining Spam Desired World) where
  unfoldable pub verify_spam : ℕ → Spam → WorkerStatus Spam → Result String (Unit {0})
  verify_spam generation policy status = elim (verify_worker generation policy status) [
    | err e ↦ err e
    | ok _ ↦
        if not (context.spam_enabled policy) && not (is_disabled status.phase)
        then err "disabled policy is active"
        else ok tt
  ]

  unfoldable pub scopes_needing_apply :
      RuntimeSnapshot Mining Spam → LiveTuning Mining Spam → ℕ → List ServiceScope
  scopes_needing_apply runtime desired generation =
      (if has_policy generation desired.mining runtime.mining
        then []
        else ServiceScope.mining_controller ∷ [])
      ++ (if has_policy generation desired.spam runtime.spam then [] else ServiceScope.spammer ∷ [])

  unfoldable pub set_scope :
      LiveTuning Mining Spam → ℕ → ServiceScope → World → Result String (Unit {0}) × World
  set_scope tuning generation ServiceScope.mining_controller w =
      context.mining.set_policy generation tuning.mining w
  set_scope tuning generation ServiceScope.spammer w =
      context.spam.set_policy generation tuning.spam w

  -- the loop over the scopes: the scopes attempted, and the error that ended it
  unfoldable pub set_scopes :
      LiveTuning Mining Spam
      → ℕ
      → (scopes attempted : List ServiceScope) → World
      → List ServiceScope × Option String × World
  set_scopes tuning generation [] attempted w = (attempted, none, w)
  set_scopes tuning generation (scope ∷ scopes) attempted w =
      let (answer, w') = set_scope tuning generation scope w in
      elim answer [
        | ok _ ↦ set_scopes tuning generation scopes (attempted ++ scope ∷ []) w'
        | err e ↦ (attempted ++ scope ∷ [], some e, w')
      ]

  -- what `verify_runtime` asks of a scope
  unfoldable pub verify_scope :
      LiveTuning Mining Spam → ℕ → World → ServiceScope → Result String (Unit {0})
  verify_scope tuning generation w ServiceScope.mining_controller =
      answer_to (verify_worker generation tuning.mining) (context.mining.status w)
  verify_scope tuning generation w ServiceScope.spammer =
      answer_to (verify_spam generation tuning.spam) (context.spam.status w)

  -- what `verify_rollback` asks of a scope
  unfoldable pub restored_scope :
      RuntimeSnapshot Mining Spam → World → ServiceScope → Result String (Unit {0})
  restored_scope before w ServiceScope.mining_controller =
      answer_to
        (λ s.
          if has_policy before.mining.effective_generation before.mining.policy s
          then ok tt
          else err "mining rollback policy has not converged")
        (context.mining.status w)
  restored_scope before w ServiceScope.spammer =
      answer_to
        (λ s.
          if has_policy before.spam.effective_generation before.spam.policy s
          then ok tt
          else err "spam rollback policy has not converged")
        (context.spam.status w)
