-- ===== src/Mining/Control/Effects.antt =====
-- crates/mining-controller/src/control.rs: a request that waits is answered once the worker reaches
-- its safe point.
use simchain.Base.{
  ℕ, String, Bool, true, false, Option, none, some, ◌≡◌, refl, arith, if-intro, String-eq, ok, leb,
  ltb, nat_eq, ◌∙◌, ap, ◌+◌, unwrap_or,
}
use simchain.Base.Text.{is_blank}
use simchain.Api.{SetPolicyRequest, WorkerPhase}
use simchain.Requests.{completed_request}
use simchain.Mining.Control.{
  PolicyOps, Clock, Inner, PendingPolicy, expire_leases, pause_requested, ack_of,
  apply_pending_policy, safe_point_timeout,
}
use simchain.Mining.Control.Waiting.{
  Codec, for_generation, answered, waits, resume, finish, await_generation, fingerprint_of,
}
use simchain.Mining.Control.Commands.{set_policy, enqueue_policy, enqueue_behind}
use simchain.Mining.Control.Worker.{Scheduler, observe, pause_now, mining_safe_point}
use simchain.Mining.Control.Answers.{unless_completed-fresh}

module _ {P : Type 0} where
  resume-generation :
      (clock : Clock) (timed_out : Bool) (d : ℕ) (g : ℕ) (id f : String) (inner : Inner P)
      → inner.generation ≡ g
      → (resume clock timed_out (for_generation g d id f) inner).1 ≡ answered (ok (ack_of inner id))
  unfolding resume await_generation finish
  resume-generation clock timed_out d g id f inner p = ground arith

  abbrev taken_up : PolicyOps P → ℕ → PendingPolicy P → Inner P → Inner P
  taken_up ops entropy asked inner = record inner {
    pending_policy = none;
    policy = asked.policy;
    generation = asked.generation;
    effective_rng_seed = unwrap_or (ops.rng_seed asked.policy) entropy;
  }

  apply_pending-some :
      (ops : PolicyOps P) (entropy : ℕ) (inner : Inner P) (asked : PendingPolicy P)
      → inner.pending_policy ≡ some asked
      → apply_pending_policy ops entropy inner ≡ taken_up ops entropy asked inner
  unfolding apply_pending_policy
  apply_pending-some ops entropy inner asked q = rw (q, apply_pending_policy) refl

  safe_point-applies :
      (ops : PolicyOps P) (clock : Clock) (entropy : ℕ) (s : Scheduler) (inner : Inner P)
      (asked : PendingPolicy P)
      → inner.pending_policy ≡ some asked
      → ((mining_safe_point ops clock entropy s inner).0.generation ≡ asked.generation)
        × ((mining_safe_point ops clock entropy s inner).0.policy ≡ asked.policy)
  unfolding mining_safe_point apply_pending_policy expire_leases
  safe_point-applies ops clock entropy s inner asked q =
      let current = apply_pending_policy ops entropy (expire_leases clock inner) in
      let e : current ≡ taken_up ops entropy asked (expire_leases clock inner) =
        apply_pending-some ops entropy (expire_leases clock inner) asked q in
      if-intro {A = Inner P × (Scheduler × Option P)}
        (λ out. (out.0.generation ≡ asked.generation) × (out.0.policy ≡ asked.policy))
        (pause_requested current) (pause_now current, (observe current s, none))
        (record current { phase = WorkerPhase.running }, (observe current s, some current.policy))
        (λ _. (ap (λ c. c.generation) e, ap (λ c. c.policy) e))
        (λ _. (ap (λ c. c.generation) e, ap (λ c. c.policy) e))

  abbrev asked_policy : SetPolicyRequest P → PendingPolicy P
  asked_policy r = record { generation = r.generation; policy = r.policy }

  set_policy-queues :
      (ops : PolicyOps P) (codec : Codec P) (clock : Clock) (r : SetPolicyRequest P)
      (inner : Inner P)
      → is_blank r.request_id ≡ false
      → ops.validate r.policy ≡ true
      → completed_request inner.requests r.request_id
          (fingerprint_of "policy" (codec.policy_json r))
        ≡ ok none
      → ltb inner.generation r.generation ≡ true
      → inner.pending_policy ≡ none
      → set_policy codec ops clock r inner ≡ (
        record inner { pending_policy = some (asked_policy r) },
        waits (
            for_generation r.generation
              (clock.now + safe_point_timeout)
              r.request_id
              (fingerprint_of "policy" (codec.policy_json r))),
      )
  unfolding set_policy enqueue_policy enqueue_behind await_generation
  set_policy-queues ops codec clock r inner b v fresh newer n =
      let e1 : ltb r.generation inner.generation ≡ false = ground arith in
      let e2 : nat_eq r.generation inner.generation ≡ false = ground arith in
      let e3 : nat_eq inner.generation r.generation ≡ false = ground arith in
      let e4 : leb (clock.now + safe_point_timeout) clock.now ≡ false = ground arith in
      rw (b, v)
        (unless_completed-fresh r.request_id _ inner _ fresh
          ∙ rw (e1, e2) (ap (enqueue_behind codec ops clock r _ inner) n ∙ rw (e3, e4) refl))

  -- A policy of a newer generation that `set_policy` accepts, with no other policy pending, is put
  -- off: the request waits and the policy in effect stays. If the next turn after it is the safe point
  -- of the worker, whatever its clock, its schedule and the random seed, the policy and its generation
  -- are in effect after it; and if the request then wakes up before another turn, it is acknowledged,
  -- timed out or not.
  pub set_policy-takes_effect :
      (ops : PolicyOps P) (codec : Codec P) (clock at later : Clock) (entropy : ℕ) (s : Scheduler)
      (r : SetPolicyRequest P) (inner : Inner P) (timed_out : Bool) (d : ℕ) (f : String)
      → is_blank r.request_id ≡ false
      → ops.validate r.policy ≡ true
      → completed_request inner.requests r.request_id
          (fingerprint_of "policy" (codec.policy_json r))
        ≡ ok none
      → ltb inner.generation r.generation ≡ true
      → inner.pending_policy ≡ none
      → let set = set_policy codec ops clock r inner in
        let reached = (mining_safe_point ops at entropy s set.0).0 in
        (set.0.policy ≡ inner.policy)
        × (set.1
            ≡ waits (
                for_generation r.generation
                  (clock.now + safe_point_timeout)
                  r.request_id
                  (fingerprint_of "policy" (codec.policy_json r))))
        × (reached.policy ≡ r.policy)
        × (reached.generation ≡ r.generation)
        × ((resume later timed_out (for_generation r.generation d r.request_id f) reached).1
            ≡ answered (ok (ack_of reached r.request_id)))
  set_policy-takes_effect ops codec clock at later entropy s r inner timed_out d f b v fresh newer
        n =
      let q = set_policy-queues ops codec clock r inner b v fresh newer n in
      let (g, p) =
        safe_point-applies ops at entropy s (set_policy codec ops clock r inner).0 (asked_policy r)
          (ap (λ out. out.0.pending_policy) q) in
      (
        ap (λ out. out.0.policy) q,
        ap (λ out. out.1) q,
        p,
        g,
        resume-generation later timed_out d r.generation r.request_id f _ g,
      )
