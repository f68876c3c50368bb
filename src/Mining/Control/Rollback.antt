-- ===== src/Mining/Control/Rollback.antt =====
-- crates/mining-controller/src/control.rs, `set_policy` with `rollback`: where its acknowledgement
-- comes before the policy that was asked for.
use simchain.Base.{true, false, none, some, ◌≡◌, refl, arith, ok, nat_eq, ltb, ap, ◌∙◌, String-eq}
use simchain.Base.Text.{is_blank}
use simchain.Api.{SetPolicyRequest}
use simchain.Requests.{completed_request}
use simchain.Mining.Control.{PolicyOps, Clock, Inner, ack_of}
use simchain.Mining.Control.Waiting.{Codec, answered, fingerprint_of, await_generation, finish}
use simchain.Mining.Control.Commands.{set_policy, enqueue_policy, enqueue_behind}
use simchain.Mining.Control.Answers.{unless_completed-fresh}

module _ {P : Type 0} (ops : PolicyOps P) (codec : Codec P) (clock : Clock) where
  set_policy-finishes :
      (r : SetPolicyRequest P) (inner : Inner P)
      → is_blank r.request_id ≡ false
      → ops.validate r.policy ≡ true
      → completed_request inner.requests r.request_id
          (fingerprint_of "policy" (codec.policy_json r))
        ≡ ok none
      → r.rollback ≡ true
      → r.generation ≡ inner.generation
      → ops.same r.policy inner.policy ≡ false
      → inner.pending_policy ≡ none
      → set_policy codec ops clock r inner
        ≡ finish r.request_id (fingerprint_of "policy" (codec.policy_json r)) (record inner {
          pending_policy = some (record { generation = r.generation; policy = r.policy });
        })
  unfolding set_policy enqueue_policy enqueue_behind await_generation
  set_policy-finishes r inner b v fresh back same other n =
      let e1 : ltb r.generation inner.generation ≡ false = ground arith in
      let e2 : nat_eq r.generation inner.generation ≡ true = ground arith in
      let e3 : nat_eq inner.generation r.generation ≡ true = ground arith in
      rw (b, v)
        (unless_completed-fresh r.request_id _ inner _ fresh
          ∙ rw (e1, e2, other, back)
              (ap (enqueue_behind codec ops clock r _ inner) n ∙ rw (e3) refl))

  -- A rollback to another policy under the generation that is in effect, with no policy pending, is
  -- acknowledged at once, under the lock: the policy in effect when the acknowledgement is given is
  -- still the old one, and the one that was asked for is only pending.
  pub rollback-acknowledged_early :
      (r : SetPolicyRequest P) (inner : Inner P)
      → is_blank r.request_id ≡ false
      → ops.validate r.policy ≡ true
      → completed_request inner.requests r.request_id
          (fingerprint_of "policy" (codec.policy_json r))
        ≡ ok none
      → r.rollback ≡ true
      → r.generation ≡ inner.generation
      → ops.same r.policy inner.policy ≡ false
      → inner.pending_policy ≡ none
      → ((set_policy codec ops clock r inner).1 ≡ answered (ok (ack_of inner r.request_id)))
        × ((set_policy codec ops clock r inner).0.policy ≡ inner.policy)
        × ((set_policy codec ops clock r inner).0.pending_policy
            ≡ some (record { generation = r.generation; policy = r.policy }))
  unfolding finish
  rollback-acknowledged_early r inner b v fresh back same other n =
      let q = set_policy-finishes r inner b v fresh back same other n in
      (ap (λ out. out.1) q, ap (λ out. out.0.policy) q, ap (λ out. out.0.pending_policy) q)
