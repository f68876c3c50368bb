-- ===== src/Spam/Control/Race.antt =====
-- crates/spammer/src/control.rs: `set_policy` refuses a policy while a lease is active, and
-- `acquire_lease` does not look for a policy that is pending.
use simchain.Base.{
  ℕ, Bool, true, false, ◌||◌, String, String-eq, Option, none, some, ◌≡◌, refl, ap, ◌∙◌, ok,
  if-intro, nat_eq, length,
}
use simchain.Base.Text.{is_blank}
use simchain.Base.Table.{lookup, insert, lookup-insert_self}
use simchain.Api.{LeaseRequest, CommandAck}
use simchain.Requests.{completed_request}
use simchain.Mining.Control.{Clock, PendingPolicy}
use simchain.Mining.Control.Waiting.{Codec, fingerprint_of, Tentative}
use simchain.Mining.Control.Commands.{is_owned_elsewhere, requested_lease}
use simchain.Spam.Control.{
  SpamOps, Inner, expire_leases, mark_pause_requested, is_effectively_paused, live_leases, ack_of,
}
use simchain.Spam.Control.Requests.{
  Progress, answered, acquire_lease, await_pause, finish, unless_completed,
}
use simchain.Spam.Control.Worker.{apply_policy, safe_point, safe_point_beside}

module _ {P : Type 0} where
  -- an expiry changes the leases and asks for a reconciliation, and nothing else
  expire-field :
      {B : Type 0} (field : Inner P → B) (clock : Clock) (inner : Inner P)
      → ((b : Bool) (r : Option String)
          → field (record inner {
            leases = live_leases clock inner;
            reconciliation_pending = b;
            reconciliation_reason = r;
          })
            ≡ field inner)
      → field (expire_leases clock inner) ≡ field inner
  unfolding expire_leases
  expire-field field clock inner same =
      if-intro (λ out. field out ≡ field inner)
        (nat_eq (length (live_leases clock inner)) (length inner.leases))
        (record inner { leases = live_leases clock inner })
        (record inner {
          leases = live_leases clock inner;
          reconciliation_pending = true;
          reconciliation_reason = some "pause lease expired";
        })
        (λ _. same inner.reconciliation_pending inner.reconciliation_reason)
        (λ _. same true (some "pause lease expired"))

  pub expire-requests :
      (clock : Clock) (inner : Inner P) → (expire_leases clock inner).requests ≡ inner.requests
  expire-requests clock inner = expire-field (λ x. x.requests) clock inner (λ _ _. refl)

  pub expire-in_flight :
      (clock : Clock) (inner : Inner P) → (expire_leases clock inner).in_flight ≡ inner.in_flight
  expire-in_flight clock inner = expire-field (λ x. x.in_flight) clock inner (λ _ _. refl)

  pub expire-pending :
      (clock : Clock) (inner : Inner P)
      → (expire_leases clock inner).pending_policy ≡ inner.pending_policy
  expire-pending clock inner = expire-field (λ x. x.pending_policy) clock inner (λ _ _. refl)

  unless_completed-fresh :
      (id f : String) (inner : Inner P) (rest : Inner P × Progress P)
      → completed_request inner.requests id f ≡ ok none
      → unless_completed id f inner rest ≡ rest
  unfolding unless_completed
  unless_completed-fresh id f inner rest fresh = rw (fresh, unless_completed) refl

  -- a worker that is not in flight is effectively paused at once
  mark-paused :
      (inner : Inner P)
      → inner.in_flight ≡ false
      → is_effectively_paused (mark_pause_requested inner) ≡ true
  unfolding mark_pause_requested
  mark-paused inner q = rw (q) refl

  await_pause-at_once :
      (clock : Clock) (d : ℕ) (id f : String) (t : Option Tentative) (inner : Inner P)
      → is_effectively_paused inner ≡ true
      → await_pause clock d id f t inner ≡ finish id f inner
  unfolding await_pause
  await_pause-at_once clock d id f t inner p = rw (p) refl

  -- the state in which a lease is granted at once
  abbrev leased : Clock → LeaseRequest → Inner P → Inner P
  leased clock r inner =
      let live = expire_leases clock inner in
      mark_pause_requested
        (record live { leases = insert r.lease_id (requested_lease clock r) live.leases })

  acquire_lease-at_once :
      (codec : Codec P) (clock : Clock) (timeout : ℕ) (r : LeaseRequest) (inner : Inner P)
      → (is_blank r.lease_id
          || is_blank r.owner_job_id
          || is_blank r.purpose
          || is_blank r.request_id)
        ≡ false
      → nat_eq r.ttl_secs 0 ≡ false
      → completed_request inner.requests r.request_id
          (fingerprint_of "lease-acquire" (codec.lease_json r))
        ≡ ok none
      → is_owned_elsewhere r (lookup r.lease_id (expire_leases clock inner).leases) ≡ false
      → inner.in_flight ≡ false
      → acquire_lease codec clock timeout r inner
        ≡ finish r.request_id
            (fingerprint_of "lease-acquire" (codec.lease_json r))
            (leased clock r inner)
  unfolding acquire_lease
  acquire_lease-at_once codec clock timeout r inner b ttl fresh free idle =
      let live = expire_leases clock inner in
      let print = fingerprint_of "lease-acquire" (codec.lease_json r) in
      let seen = ap (λ q. completed_request q r.request_id print) (expire-requests clock inner) in
      rw (b, ttl)
        (unless_completed-fresh r.request_id print live _ (seen ∙ fresh)
          ∙ rw (free) (
              await_pause-at_once clock _ r.request_id print _ (leased clock r inner)
                (mark-paused _ (expire-in_flight clock inner ∙ idle))))

  safe_point-applies :
      (ops : SpamOps P) (clock : Clock) (inner : Inner P) (pending : PendingPolicy P)
      → inner.pending_policy ≡ some pending
      → ((safe_point ops clock inner).1 ≡ some (apply_policy pending.generation pending.policy))
        × ((safe_point ops clock inner).0.in_flight ≡ true)
  unfolding safe_point safe_point_beside
  safe_point-applies ops clock inner pending q =
      let live = expire_leases clock inner in
      let p = expire-pending clock inner ∙ q in
      (
        ap (λ x. (safe_point_beside ops live x).1) p,
        ap (λ x. (safe_point_beside ops live x).0.in_flight) p,
      )

  -- Let the worker be between two units of work while a policy is pending. A valid lease request that
  -- it has not seen, for a lease that is free, is then acknowledged at once; yet at the next safe
  -- point the worker takes up the pending policy, and is in flight although the lease was granted.
  pub acquire_lease-policy_race :
      (ops : SpamOps P) (codec : Codec P) (clock later : Clock) (timeout : ℕ) (r : LeaseRequest)
      (inner : Inner P) (pending : PendingPolicy P)
      → (is_blank r.lease_id
          || is_blank r.owner_job_id
          || is_blank r.purpose
          || is_blank r.request_id)
        ≡ false
      → nat_eq r.ttl_secs 0 ≡ false
      → completed_request inner.requests r.request_id
          (fingerprint_of "lease-acquire" (codec.lease_json r))
        ≡ ok none
      → is_owned_elsewhere r (lookup r.lease_id (expire_leases clock inner).leases) ≡ false
      → inner.in_flight ≡ false
      → inner.pending_policy ≡ some pending
      → ((ack : CommandAck) × ((acquire_lease codec clock timeout r inner).1 ≡ answered (ok ack)))
        × (lookup r.lease_id (acquire_lease codec clock timeout r inner).0.leases
            ≡ some (requested_lease clock r))
        × ((safe_point ops later (acquire_lease codec clock timeout r inner).0).1
            ≡ some (apply_policy pending.generation pending.policy))
        × ((safe_point ops later (acquire_lease codec clock timeout r inner).0).0.in_flight ≡ true)
  unfolding finish mark_pause_requested
  acquire_lease-policy_race ops codec clock later timeout r inner pending b ttl fresh free idle q =
      let e = acquire_lease-at_once codec clock timeout r inner b ttl fresh free idle in
      let out = (acquire_lease codec clock timeout r inner).0 in
      let held = ap (λ o. o.0.pending_policy) e ∙ expire-pending clock inner ∙ q in
      let taken = safe_point-applies ops later out pending held in
      (
        (ack_of (leased clock r inner) r.request_id, ap (λ o. o.1) e),
        ap (λ o. lookup r.lease_id o.0.leases) e
            ∙ lookup-insert_self r.lease_id (requested_lease clock r)
                (expire_leases clock inner).leases,
        taken.0,
        taken.1,
      )
