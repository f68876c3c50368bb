-- ===== src/Mining/Control/Answers.antt =====
-- crates/mining-controller/src/control.rs: what an acknowledgement says of the state that it leaves.
use simchain.Base.{
  ℕ, String, String-eq, Bool, true, false, ◌||◌, ◌&&◌, not, Option, none, some, ◌≡◌, refl, arith,
  if-intro, ok, leb, nat_eq, Bool-cases, inl, inr, is_some,
}
use simchain.Base.Text.{is_blank}
use simchain.Base.Table.{lookup, insert, lookup-insert_self}
use simchain.Api.{LeaseRequest, CommandAck}
use simchain.Requests.{completed_request, remember_request}
use simchain.Mining.Control.{
  Clock, Inner, expire_leases, is_effectively_paused, pause_requested, ack_of,
}
use simchain.Mining.Control.Waiting.{
  Codec, Waiting, for_pause, Progress, answered, waits, Tentative, resume, finish, unless_completed,
  await_pause, give_up, refuse, fingerprint_of, Error,
}
use simchain.Mining.Control.Commands.{
  acquire_lease, requested_lease, is_owned_elsewhere, start_pausing,
}
use simchain.Mining.Control.Worker.{begin_generate, must_yield}

module _ {P : Type 0} where
  pub unless_completed-fresh :
      (id f : String) (inner : Inner P) (rest : Inner P × Progress)
      → completed_request inner.requests id f ≡ ok none
      → unless_completed id f inner rest ≡ rest
  unfolding unless_completed
  unless_completed-fresh id f inner rest fresh = rw (fresh, unless_completed) refl

  -- what holds of the state that an acknowledgement leaves
  unfoldable Granted : (Inner P → Type 0) → Inner P × Progress → Type 0
  Granted Q out = (ack : CommandAck) → out.1 ≡ answered (ok ack) → Q out.0

  granted :
      (Q : Inner P → Type 0) (out : Inner P × Progress) (ack : CommandAck)
      → Granted Q out
      → out.1 ≡ answered (ok ack)
      → Q out.0
  unfolding Granted
  granted Q out ack g e = g ack e

  refuse-Granted : (Q : Inner P → Type 0) (e : Error) (inner : Inner P) → Granted Q (refuse e inner)
  unfolding Granted
  refuse-Granted Q e inner ack q = absurd (cc)

  waits-Granted :
      (Q : Inner P → Type 0) (w : Waiting) (inner : Inner P) → Granted Q (inner, waits w)
  unfolding Granted
  waits-Granted Q w inner ack q = absurd (cc)

  finish-Granted :
      (Q : Inner P → Type 0) (id f : String) (inner : Inner P)
      → Q (record inner { requests = remember_request inner.requests id f (ack_of inner id) })
      → Granted Q (finish id f inner)
  unfolding Granted finish
  finish-Granted Q id f inner h ack q = h

  give_up-Granted :
      (Q : Inner P → Type 0) (t : Option Tentative) (inner : Inner P) → Granted Q (give_up t inner)
  give_up-Granted Q none inner = refuse-Granted Q _ inner
  give_up-Granted Q (some t) inner = waits-Granted Q _ inner

  await_pause-Granted :
      (Q : Inner P → Type 0) (clock : Clock) (d : ℕ) (id f : String) (t : Option Tentative)
      (inner : Inner P)
      → (is_effectively_paused inner ≡ true
          → Q (record inner { requests = remember_request inner.requests id f (ack_of inner id) }))
      → Granted Q (await_pause clock d id f t inner)
  unfolding await_pause
  await_pause-Granted Q clock d id f t inner h =
      if-intro (Granted Q) (is_effectively_paused inner) _ _
        (λ p. finish-Granted Q id f inner (h p))
        λ _.
          if-intro (Granted Q) (leb d clock.now) _ _ (λ _. give_up-Granted Q t inner)
            λ _. waits-Granted Q _ inner

  fresh-Granted :
      (Q : Inner P → Type 0) (id f : String) (inner : Inner P) (rest : Inner P × Progress)
      → completed_request inner.requests id f ≡ ok none
      → Granted Q rest
      → Granted Q (unless_completed id f inner rest)
  fresh-Granted Q id f inner rest fresh h = rw (unless_completed-fresh id f inner rest fresh) h

  AtRest : Inner P → Type 0
  AtRest inner = is_effectively_paused inner ≡ true

  -- A request for a pause or for a lease that waited for the safe point is acknowledged only in a
  -- state in which the worker is effectively paused.
  pub resume-grants_pause :
      (clock : Clock) (timed_out : Bool) (d : ℕ) (id f : String) (t : Option Tentative)
      (inner : Inner P) (ack : CommandAck)
      → (resume clock timed_out (for_pause d id f t) inner).1 ≡ answered (ok ack)
      → is_effectively_paused (resume clock timed_out (for_pause d id f t) inner).0 ≡ true
  unfolding resume AtRest
  resume-grants_pause clock timed_out d id f t inner ack =
      granted AtRest (resume clock timed_out (for_pause d id f t) inner) ack (
        if-intro (Granted AtRest) (timed_out && not (is_effectively_paused inner)) _ _
          (λ _. give_up-Granted AtRest t inner)
          (λ _. await_pause-Granted AtRest clock d id f t inner (λ p. p)))

  -- If `acquire_lease` acknowledges a request that it has not seen before, then the worker is
  -- effectively paused in the state that it leaves, and the lease that was asked for stands in the
  -- table with the deadline of the request.
  pub acquire_lease-grants :
      (codec : Codec P) (clock : Clock) (timeout : ℕ) (r : LeaseRequest) (inner : Inner P)
      (ack : CommandAck)
      → completed_request inner.requests r.request_id
          (fingerprint_of "lease-acquire" (codec.lease_json r))
        ≡ ok none
      → (acquire_lease codec clock timeout r inner).1 ≡ answered (ok ack)
      → (is_effectively_paused (acquire_lease codec clock timeout r inner).0 ≡ true)
        × (lookup r.lease_id (acquire_lease codec clock timeout r inner).0.leases
            ≡ some (requested_lease clock r))
  unfolding acquire_lease expire_leases
  acquire_lease-grants codec clock timeout r inner ack fresh =
      let live = expire_leases clock inner in
      let lease = requested_lease clock r in
      let taken = record live { leases = insert r.lease_id lease live.leases } in
      let Q : Inner P → Type 0 =
        λ out. (is_effectively_paused out ≡ true) × (lookup r.lease_id out.leases ≡ some lease) in
      granted Q (acquire_lease codec clock timeout r inner) ack (
        if-intro (Granted Q)
          (is_blank r.lease_id
            || is_blank r.owner_job_id
            || is_blank r.purpose
            || is_blank r.request_id)
          _ _ (λ _. refuse-Granted Q _ inner)
          λ _.
            if-intro (Granted Q) (nat_eq r.ttl_secs 0) _ _ (λ _. refuse-Granted Q _ inner)
              λ _. fresh-Granted Q r.request_id _ live _ fresh (
                if-intro (Granted Q) (is_owned_elsewhere r (lookup r.lease_id live.leases)) _ _
                  (λ _. refuse-Granted Q _ live)
                  λ _.
                    await_pause-Granted Q clock _ r.request_id _ _ (start_pausing taken)
                      (λ p. (p, lookup-insert_self r.lease_id lease live.leases))))

  must_yield-false :
      (g : ℕ) (inner : Inner P)
      → must_yield g inner ≡ false
      → (pause_requested inner ≡ false)
        × (is_some inner.pending_policy ≡ false)
        × (inner.generation ≡ g)
  must_yield-false g inner h = ground arith

  -- If `begin_generate` lets a round begin, then in the state that it leaves no pause is requested,
  -- no policy is pending, the policy is still the one of the round's generation, and the round is in
  -- flight.
  pub begin_generate-guards :
      (clock : Clock) (g : ℕ) (inner : Inner P)
      → (begin_generate clock g inner).1 ≡ true
      → (pause_requested (begin_generate clock g inner).0 ≡ false)
        × (is_some (begin_generate clock g inner).0.pending_policy ≡ false)
        × ((begin_generate clock g inner).0.generation ≡ g)
        × ((begin_generate clock g inner).0.in_flight ≡ true)
  unfolding begin_generate
  begin_generate-guards clock g inner h =
      let live = expire_leases clock inner in
      elim (Bool-cases (must_yield g live)) [
        | inl y ↦ absurd (cc)
        | inr n ↦
            let (a, b, c) = must_yield-false g live n in rw (n, begin_generate) (a, b, c, refl)
      ]
