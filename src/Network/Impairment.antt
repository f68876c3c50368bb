-- ===== src/Network/Impairment.antt =====
-- crates/simchain-common/src/internal_api.rs: the messages of the network agent, and
-- crates/network-agent/src/control.rs, `validate_acquire`. A loss percentage is an `f64`, a type
-- with the tests that the code makes on it.
use simchain.Base.{
  ℕ, Bool, true, false, ◌||◌, ◌&&◌, not, String, ltb, leb, nat_eq, if◌then◌else◌, String-eq, Option,
  none, some,
}
use simchain.Base.Text.{is_blank}

-- `is_finite`, `(0.0..=100.0).contains`, `> 0.0` and `==`
pub record FloatOps (F : Type 0) : Type 0 where
  pub is_finite : F → Bool
  pub is_percentage : F → Bool
  pub is_positive : F → Bool
  pub same : F → F → Bool

pub data NetworkImpairment (F : Type 0) : Type 0 where
  netem : (delay_ms : ℕ) (loss_pct : F) → NetworkImpairment F
  partition : (ingress_drop egress_drop : Bool) → NetworkImpairment F

pub record NetworkLeaseRequest (F : Type 0) : Type 0 where
  pub lease_id : String
  pub owner_job_id : String
  pub purpose : String
  pub ttl_secs : ℕ
  pub request_id : String
  pub impairment : NetworkImpairment F

pub record NetworkLeaseReleaseRequest : Type 0 where
  pub request_id : String

pub record NetworkImpairmentLease (F : Type 0) : Type 0 where
  pub lease_id : String
  pub owner_job_id : String
  pub purpose : String
  pub expires_at_ms : ℕ
  pub impairment : NetworkImpairment F

pub record NetworkCommandAck : Type 0 where
  pub request_id : String
  pub effective_generation : ℕ
  pub impairment_active : Bool

abbrev pub max_lease_ttl_secs : ℕ
max_lease_ttl_secs = 3600

-- the messages of the agent's refusals, and the system's own
pub data Refusal : Type 0 where
  blank_field zero_ttl long_ttl long_delay loss_not_finite loss_out_of_range : Refusal
  netem_without_effect partition_without_drop blank_lease_id blank_request_id : Refusal
  request_id_reused another_lease_active lease_not_found different_lease_active : Refusal
  system_failed : String → Refusal

abbrev pub same_bool : Bool → Bool → Bool
same_bool true b = b
same_bool false b = not b

module _ {F : Type 0} (float : FloatOps F) where
  -- `NetworkImpairment == NetworkImpairment`
  unfoldable pub same_impairment : NetworkImpairment F → NetworkImpairment F → Bool
  same_impairment (netem d l) (netem d' l') = nat_eq d d' && float.same l l'
  same_impairment (partition i e) (partition i' e') = same_bool i i' && same_bool e e'
  same_impairment _ _ = false

  unfoldable pub validate_impairment : NetworkImpairment F → Option Refusal
  validate_impairment (netem delay_ms loss_pct) =
      if not (leb delay_ms 600000)
      then some long_delay
      else if not (float.is_finite loss_pct)
      then some loss_not_finite
      else if not (float.is_percentage loss_pct)
      then some loss_out_of_range
      else if ltb 0 delay_ms || float.is_positive loss_pct
      then none
      else some netem_without_effect
  validate_impairment (partition ingress_drop egress_drop) =
      if ingress_drop || egress_drop then none else some partition_without_drop

  -- `none` is `Ok(())`
  unfoldable pub validate_acquire : NetworkLeaseRequest F → Option Refusal
  validate_acquire request =
      if is_blank request.lease_id
        || is_blank request.owner_job_id
        || is_blank request.purpose
        || is_blank request.request_id
      then some blank_field
      else if not (ltb 0 request.ttl_secs)
      then some zero_ttl
      else if not (leb request.ttl_secs max_lease_ttl_secs)
      then some long_ttl
      else validate_impairment request.impairment
