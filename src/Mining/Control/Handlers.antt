-- ===== src/Mining/Control/Handlers.antt =====
-- crates/mining-controller/src/control.rs: what the handlers of requests preserve. A property that
-- the elementary changes preserve is preserved by each handler, on each of its branches.
use simchain.Base.{
  ℕ, String-eq, Bool, ◌||◌, ◌&&◌, not, String, Option, none, some, if-intro, Option-cases, inl, inr,
  leb, ltb, nat_eq,
}
use simchain.Api.{
  DesiredState, SetStateRequest, LeaseRequest, LeaseRenewRequest, LeaseReleaseRequest,
  SetPolicyRequest, is_paused_state,
}
use simchain.Base.Text.{is_blank}
use simchain.Base.Table.{lookup, insert, remove}
use simchain.Requests.{remember_request}
use simchain.Mining.Control.{
  LeaseEntry, PolicyOps, Clock, Inner, PendingPolicy, expire_leases, is_effectively_paused, ack_of,
}
use simchain.Mining.Control.Waiting.{
  Codec, Waiting, for_pause, for_generation, to_roll_back, Progress, resume, finish,
  unless_completed-intro, await_pause, await_generation, rollback_unacquired_lease, rolled_back,
  give_up, Tentative, refuse, lease_eq, restore, Error,
}
use simchain.Mining.Control.Commands.{
  set_state, acquire_lease, renew_lease, release_lease, set_policy, enqueue_policy, enqueue_behind,
  start_pausing, requested_lease, renewed, is_owned_elsewhere,
}

-- A property of the control's state that a handler's elementary changes preserve, where the clock
-- and the leases that the handler names meet a condition.
pub record Preserved {P : Type 0} (Timely : Clock → Type 0) (Free : String → Type 0)
    (Q : Inner P → Type 0) : Type 0 where
  pub expiring :
      (clock : Clock) (inner : Inner P) → Timely clock → Q inner → Q (expire_leases clock inner)
  pub remembering :
      (id f : String) (inner : Inner P)
      → Q inner
      → Q (record inner { requests = remember_request inner.requests id f (ack_of inner id) })
  pub desiring :
      (s : DesiredState) (inner : Inner P) → Q inner → Q (record inner { desired_state = s })
  pub pausing : (inner : Inner P) → Q inner → Q (start_pausing inner)
  pub inserting :
      (id : String) (lease : LeaseEntry) (inner : Inner P)
      → Free id
      → Q inner
      → Q (record inner { leases = insert id lease inner.leases })
  pub removing :
      (id : String) (inner : Inner P)
      → Free id
      → Q inner
      → Q (record inner { leases = remove id inner.leases })
  pub queueing :
      (p : PendingPolicy P) (inner : Inner P)
      → Q inner
      → Q (record inner { pending_policy = some p })

-- a property of the state that a handler leaves
unfoldable pub After : {P : Type 0} → (Inner P → Type 0) → Inner P × Progress → Type 0
After Q out = Q out.0

-- the leases that a waiting request may change when it wakes
abbrev pub MayRestore : (String → Type 0) → Waiting → Type 0
MayRestore Free (for_pause d id f t) = Unit
MayRestore Free (for_generation g d id f) = Unit
MayRestore Free (to_roll_back t e) = Free t.lease_id

module _ {P : Type 0} (Timely : Clock → Type 0) (Free : String → Type 0) (Q : Inner P → Type 0)
    (kept : Preserved Timely Free Q) where
  pub before : (out : Inner P × Progress) → After Q out → Q out.0
  unfolding After
  before out h = h

  ends : (inner : Inner P) (p : Progress) → Q inner → After Q (inner, p)
  unfolding After
  ends inner p h = h

  finish-After : (id f : String) (inner : Inner P) → Q inner → After Q (finish id f inner)
  unfolding finish
  finish-After id f inner h =
      ends (record inner { requests = remember_request inner.requests id f (ack_of inner id) }) _
        (kept.remembering id f inner h)

  give_up-After : (t : Option Tentative) (inner : Inner P) → Q inner → After Q (give_up t inner)
  give_up-After none inner h = ends inner _ h
  give_up-After (some t) inner h = ends inner _ h

  await_pause-After :
      (clock : Clock) (d : ℕ) (id f : String) (t : Option Tentative) (inner : Inner P)
      → Q inner
      → After Q (await_pause clock d id f t inner)
  unfolding await_pause
  await_pause-After clock d id f t inner h =
      if-intro (After Q) (is_effectively_paused inner) _ _ (λ _. finish-After id f inner h)
        λ _.
          if-intro (After Q) (leb d clock.now) _ _ (λ _. give_up-After t inner h)
            λ _. ends inner _ h

  await_generation-After :
      (clock : Clock) (g d : ℕ) (id f : String) (inner : Inner P)
      → Q inner
      → After Q (await_generation clock g d id f inner)
  unfolding await_generation
  await_generation-After clock g d id f inner h =
      if-intro (After Q) (nat_eq inner.generation g) _ _ (λ _. finish-After id f inner h)
        λ _. if-intro (After Q) (leb d clock.now) _ _ (λ _. ends inner _ h) λ _. ends inner _ h

  restore-keeps :
      (t : Tentative) (previous : Option LeaseEntry) (inner : Inner P)
      → Free t.lease_id
      → Q inner
      → Q (record inner { leases = restore (record t { previous = previous }) inner.leases })
  restore-keeps t none inner free h = kept.removing t.lease_id inner free h
  restore-keeps t (some lease) inner free h = kept.inserting t.lease_id lease inner free h

  rolled_back-keeps :
      (clock : Clock) (t : Tentative) (inner : Inner P) (current : Option LeaseEntry)
      → Timely clock
      → Free t.lease_id
      → Q inner
      → Q (rolled_back clock t inner current)
  unfolding rolled_back
  rolled_back-keeps clock t inner none timely free h = h
  rolled_back-keeps clock t inner (some c) timely free h =
      let back = record inner { leases = restore t inner.leases } in
      if-intro Q (lease_eq c t.lease) (expire_leases clock back) inner
        (λ _. kept.expiring clock back timely (restore-keeps t t.previous inner free h)) (λ _. h)

  pub resume-After :
      (clock : Clock) (timed_out : Bool) (w : Waiting) (inner : Inner P)
      → Timely clock
      → MayRestore Free w
      → Q inner
      → After Q (resume clock timed_out w inner)
  unfolding resume rollback_unacquired_lease
  resume-After clock timed_out (for_pause d id f t) inner _ _ h =
      if-intro (After Q) (timed_out && not (is_effectively_paused inner)) _ _
        (λ _. give_up-After t inner h) (λ _. await_pause-After clock d id f t inner h)
  resume-After clock timed_out (for_generation g d id f) inner _ _ h =
      if-intro (After Q) (timed_out && not (nat_eq inner.generation g)) _ _ (λ _. ends inner _ h)
        (λ _. await_generation-After clock g d id f inner h)
  resume-After clock timed_out (to_roll_back t e) inner timely free h =
      ends (rollback_unacquired_lease clock t inner) _
        (rolled_back-keeps clock t inner (lookup t.lease_id inner.leases) timely free h)

  module _ (codec : Codec P) (clock : Clock) where
    pub set_state-After :
        (r : SetStateRequest) (inner : Inner P) → Q inner → After Q (set_state codec clock r inner)
    unfolding set_state
    set_state-After r inner h =
        let desired = record inner { desired_state = r.state } in
        let h' = kept.desiring r.state inner h in
        if-intro (After Q) (is_blank r.request_id) _ _ (λ _. ends inner _ h)
          λ _.
            unless_completed-intro (After Q) inner r.request_id _ _ (ends inner _ h)
              (λ _. ends inner _ h)
              (if-intro (After Q) (is_paused_state r.state) _ _
                (λ _.
                  await_pause-After clock _ r.request_id _ none (start_pausing desired)
                    (kept.pausing desired h'))
                (λ _. finish-After r.request_id _ desired h'))

    pub acquire_lease-After :
        (timeout : ℕ) (r : LeaseRequest) (inner : Inner P)
        → Timely clock
        → Free r.lease_id
        → Q inner
        → After Q (acquire_lease codec clock timeout r inner)
    unfolding acquire_lease
    acquire_lease-After timeout r inner timely free h =
        let live = expire_leases clock inner in
        let hl = kept.expiring clock inner timely h in
        let lease = requested_lease clock r in
        let taken = record live { leases = insert r.lease_id lease live.leases } in
        if-intro (After Q)
          (is_blank r.lease_id
            || is_blank r.owner_job_id
            || is_blank r.purpose
            || is_blank r.request_id)
          _ _ (λ _. ends inner _ h)
          λ _.
            if-intro (After Q) (nat_eq r.ttl_secs 0) _ _ (λ _. ends inner _ h)
              λ _.
                unless_completed-intro (After Q) live r.request_id _ _ (ends live _ hl)
                  (λ _. ends live _ hl)
                  (if-intro (After Q) (is_owned_elsewhere r (lookup r.lease_id live.leases)) _ _
                    (λ _. ends live _ hl)
                    λ _.
                      await_pause-After clock _ r.request_id _ _ (start_pausing taken)
                        (kept.pausing taken (kept.inserting r.lease_id lease live free hl)))

    pub renew_lease-After :
        (id : String) (r : LeaseRenewRequest) (inner : Inner P)
        → Timely clock
        → Free id
        → Q inner
        → After Q (renew_lease codec clock id r inner)
    unfolding renew_lease
    renew_lease-After id r inner timely free h =
        let live = expire_leases clock inner in
        let hl = kept.expiring clock inner timely h in
        if-intro (After Q) (is_blank r.request_id) _ _ (λ _. ends inner _ h)
          λ _.
            if-intro (After Q) (nat_eq r.ttl_secs 0) _ _ (λ _. ends inner _ h)
              λ _.
                unless_completed-intro (After Q) live r.request_id _ _ (ends live _ hl)
                  (λ _. ends live _ hl)
                  (elim (Option-cases (lookup id live.leases)) [
                    | inl n ↦ rw (n) (ends live _ hl)
                    | inr (c, n) ↦ rw (n) (
                        finish-After r.request_id _ _
                          (kept.inserting id (renewed clock r.ttl_secs c) live free hl))
                  ])

    pub release_lease-After :
        (id : String) (r : LeaseReleaseRequest) (inner : Inner P)
        → Timely clock
        → Free id
        → Q inner
        → After Q (release_lease codec clock id r inner)
    unfolding release_lease
    release_lease-After id r inner timely free h =
        let live = expire_leases clock inner in
        let hl = kept.expiring clock inner timely h in
        if-intro (After Q) (is_blank r.request_id) _ _ (λ _. ends inner _ h)
          λ _.
            unless_completed-intro (After Q) live r.request_id _ _ (ends live _ hl)
              (λ _. ends live _ hl) (finish-After r.request_id _ _ (kept.removing id live free hl))

    module _ (ops : PolicyOps P) where
      enqueue_behind-After :
          (r : SetPolicyRequest P) (f : String) (inner : Inner P)
          (pending : Option (PendingPolicy P))
          → Q inner
          → After Q (enqueue_behind codec ops clock r f inner pending)
      unfolding enqueue_behind
      enqueue_behind-After r f inner none h =
          let asked : PendingPolicy P = record { generation = r.generation; policy = r.policy } in
          await_generation-After clock r.generation _ r.request_id f
            (record inner { pending_policy = some asked }) (kept.queueing asked inner h)
      enqueue_behind-After r f inner (some c) h =
          if-intro (After Q) (nat_eq c.generation r.generation && ops.same c.policy r.policy) _ _
            (λ _. await_generation-After clock r.generation _ r.request_id f inner h)
            (λ _. ends inner _ h)

      pub set_policy-After :
          (r : SetPolicyRequest P) (inner : Inner P)
          → Q inner
          → After Q (set_policy codec ops clock r inner)
      unfolding set_policy enqueue_policy
      set_policy-After r inner h =
          let refused : (e : Error) → After Q (refuse e inner) = λ e. ends inner _ h in
          let queued : (f : String) → After Q (enqueue_policy codec ops clock r f inner) =
            λ f. enqueue_behind-After r f inner inner.pending_policy h in
          if-intro (After Q) (is_blank r.request_id) _ _ (λ _. refused _)
            λ _.
              if-intro (After Q) (not (ops.validate r.policy)) _ _ (λ _. refused _)
                λ _.
                  unless_completed-intro (After Q) inner r.request_id _ _ (refused _)
                    (λ _. ends inner _ h)
                    (if-intro (After Q) (ltb r.generation inner.generation && not r.rollback) _ _
                      (λ _. refused _)
                      λ _.
                        if-intro (After Q) (nat_eq r.generation inner.generation) _ _
                          (λ _.
                            if-intro (After Q) (ops.same r.policy inner.policy) _ _
                              (λ _. finish-After r.request_id _ inner h)
                              λ _.
                                if-intro (After Q) r.rollback _ _ (λ _. queued _) (λ _. refused _))
                          (λ _. queued _))
