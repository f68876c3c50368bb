-- ===== src/Mining/Control/Turns.antt =====
-- crates/mining-controller/src/control.rs: what one turn preserves, of a request or of the worker.
use simchain.Base.{
  min, ◌+◌, if◌then◌else◌, ℕ, String, true, false, Option, none, some, ◌≡◌, refl, inl, inr,
  Option-cases, if-intro, leb,
}
use simchain.Api.{WorkerPhase, LastMinedBlock}
use simchain.Mining.Control.{
  PolicyOps, Clock, Inner, u64_max, expire_leases, apply_pending_policy, pause_requested,
}
use simchain.Mining.Control.Waiting.{Waiting, for_pause, for_generation, to_roll_back, Codec}
use simchain.Mining.Control.Worker.{
  Scheduler, bootstrap_safe_point, bootstrap_turn, mining_safe_point, begin_generate, observe,
  finish_generate, record_error, wait_interval, wait_turn, note_mined, note_height, pause_now,
  must_yield, ready, interrupted,
}
use simchain.Mining.Control.Step.{
  Turn, status, sets_state, acquires, renews, releases, sets_policy, resumes, at_bootstrap,
  at_bootstrap_again, at_safe_point, begins, finishes, fails, begins_interval, waits_interval,
  is_worker, take,
}
use simchain.Mining.Control.Handlers.{
  Preserved, MayRestore, before, set_state-After, acquire_lease-After, renew_lease-After,
  release_lease-After, set_policy-After, resume-After,
}

-- the clock of a turn, and the leases that it names
abbrev pub Allows : {P : Type 0} → (Clock → Type 0) → (String → Type 0) → Turn P → Type 0
Allows T F (status clock) = T clock
Allows T F (sets_state clock r) = T clock
Allows T F (acquires clock d r) = T clock × F r.lease_id
Allows T F (renews clock id r) = T clock × F id
Allows T F (releases clock id r) = T clock × F id
Allows T F (sets_policy clock r) = T clock
Allows T F (resumes clock b w) = T clock × MayRestore F w
Allows T F (at_bootstrap clock e h) = T clock
Allows T F (at_bootstrap_again clock e) = T clock
Allows T F (at_safe_point clock e s) = T clock
Allows T F (begins clock g) = T clock
Allows T F (finishes mined h) = Unit
Allows T F (fails m) = Unit
Allows T F (begins_interval clock d g) = T clock
Allows T F (waits_interval clock d g) = T clock

-- no condition on the clock or on a lease
abbrev pub Anything : {A : Type 0} → A → Type 0
Anything _ = Unit

pub wakes : (w : Waiting) → MayRestore Anything w
wakes (for_pause _ _ _ _) = tt
wakes (for_generation _ _ _ _) = tt
wakes (to_roll_back _ _) = tt

pub anything : {P : Type 0} (t : Turn P) → Allows Anything Anything t
anything (status _) = tt
anything (sets_state _ _) = tt
anything (acquires _ _ _) = (tt, tt)
anything (renews _ _ _) = (tt, tt)
anything (releases _ _ _) = (tt, tt)
anything (sets_policy _ _) = tt
anything (resumes _ _ w) = (tt, wakes w)
anything (at_bootstrap _ _ _) = tt
anything (at_bootstrap_again _ _) = tt
anything (at_safe_point _ _ _) = tt
anything (begins _ _) = tt
anything (finishes _ _) = tt
anything (fails _) = tt
anything (begins_interval _ _ _) = tt
anything (waits_interval _ _ _) = tt

module _ {P : Type 0} (ops : PolicyOps P) (codec : Codec P) (T : Clock → Type 0)
    (F : String → Type 0) (Q : Inner P → Type 0) (kept : Preserved T F Q) where
  pub request-keeps :
      (t : Turn P) (inner : Inner P)
      → is_worker t ≡ false
      → Allows T F t
      → Q inner
      → Q (take ops codec t inner)
  unfolding take
  request-keeps (status clock) inner _ a h = kept.expiring clock inner a h
  request-keeps (sets_state clock r) inner _ a h =
      before T F Q kept _ (set_state-After T F Q kept codec clock r inner h)
  request-keeps (acquires clock d r) inner _ (a, f) h =
      before T F Q kept _ (acquire_lease-After T F Q kept codec clock d r inner a f h)
  request-keeps (renews clock id r) inner _ (a, f) h =
      before T F Q kept _ (renew_lease-After T F Q kept codec clock id r inner a f h)
  request-keeps (releases clock id r) inner _ (a, f) h =
      before T F Q kept _ (release_lease-After T F Q kept codec clock id r inner a f h)
  request-keeps (sets_policy clock r) inner _ a h =
      before T F Q kept _ (set_policy-After T F Q kept codec clock ops r inner h)
  request-keeps (resumes clock b w) inner _ (a, f) h =
      before T F Q kept _ (resume-After T F Q kept clock b w inner a f h)
  request-keeps (at_bootstrap _ _ _) inner w a h = absurd (cc)
  request-keeps (at_bootstrap_again _ _) inner w a h = absurd (cc)
  request-keeps (at_safe_point _ _ _) inner w a h = absurd (cc)
  request-keeps (begins _ _) inner w a h = absurd (cc)
  request-keeps (finishes _ _) inner w a h = absurd (cc)
  request-keeps (fails _) inner w a h = absurd (cc)
  request-keeps (begins_interval _ _ _) inner w a h = absurd (cc)
  request-keeps (waits_interval _ _ _) inner w a h = absurd (cc)

-- the properties that read the leases and the remembered requests alone
abbrev pub ReadsBooks : {P : Type 0} → (Inner P → Type 0) → Type 0
ReadsBooks {P} Q = (a b : Inner P) → a.leases ≡ b.leases → a.requests ≡ b.requests → Q a → Q b

module _ {P : Type 0} where
  pending-leases :
      (ops : PolicyOps P) (entropy : ℕ) (inner : Inner P)
      → inner.leases ≡ (apply_pending_policy ops entropy inner).leases
  unfolding apply_pending_policy
  pending-leases ops entropy inner = elim (Option-cases inner.pending_policy) [
    | inl n ↦ rw (apply_pending_policy, n) refl
    | inr (c, n) ↦ rw (apply_pending_policy, n) refl
  ]

  pending-requests :
      (ops : PolicyOps P) (entropy : ℕ) (inner : Inner P)
      → inner.requests ≡ (apply_pending_policy ops entropy inner).requests
  unfolding apply_pending_policy
  pending-requests ops entropy inner = elim (Option-cases inner.pending_policy) [
    | inl n ↦ rw (apply_pending_policy, n) refl
    | inr (c, n) ↦ rw (apply_pending_policy, n) refl
  ]

  landed-leases :
      (mined : Option LastMinedBlock) (height : Option ℕ) (inner : Inner P)
      → inner.leases ≡ (note_height height (note_mined mined inner)).leases
  landed-leases none none inner = refl
  landed-leases none (some _) inner = refl
  landed-leases (some _) none inner = refl
  landed-leases (some _) (some _) inner = refl

  landed-requests :
      (mined : Option LastMinedBlock) (height : Option ℕ) (inner : Inner P)
      → inner.requests ≡ (note_height height (note_mined mined inner)).requests
  landed-requests none none inner = refl
  landed-requests none (some _) inner = refl
  landed-requests (some _) none inner = refl
  landed-requests (some _) (some _) inner = refl

module _ {P : Type 0} (ops : PolicyOps P) (codec : Codec P) (T : Clock → Type 0)
    (F : String → Type 0) (Q : Inner P → Type 0) (kept : Preserved T F Q)
    (reads : ReadsBooks Q) where
  Out : {B : Type 0} → Inner P × B → Type 0
  Out out = Q out.0

  decides :
      {B : Type 0} (current : Inner P) (phase : WorkerPhase) (waiting returned : B)
      → Q current
      → Out (
          if pause_requested current
          then (pause_now current, waiting)
          else (record current { phase = phase }, returned))
  unfolding Out
  decides current phase waiting returned h =
      if-intro Out (pause_requested current) (pause_now current, waiting)
        (record current { phase = phase }, returned)
        (λ _. reads current (pause_now current) refl refl h)
        (λ _. reads current (record current { phase = phase }) refl refl h)

  applies : (entropy : ℕ) (inner : Inner P) → Q inner → Q (apply_pending_policy ops entropy inner)
  applies entropy inner h =
      reads inner (apply_pending_policy ops entropy inner) (pending-leases ops entropy inner)
        (pending-requests ops entropy inner) h

  bootstrap_turn-keeps :
      (clock : Clock) (e : ℕ) (inner : Inner P)
      → T clock
      → Q inner
      → Q (bootstrap_turn ops clock e inner).0
  unfolding bootstrap_turn Out
  bootstrap_turn-keeps clock e inner a h =
      let current = apply_pending_policy ops e inner in
      decides (expire_leases clock current) WorkerPhase.bootstrapping false true
        (kept.expiring clock current a (applies e inner h))

  wait_turn-keeps :
      (clock : Clock) (d g : ℕ) (inner : Inner P)
      → T clock
      → Q inner
      → Q (wait_turn clock d g inner).0
  unfolding wait_turn Out
  wait_turn-keeps clock d g inner a h =
      let live = expire_leases clock inner in
      let over = record live { next_scheduled_attempt_ms = none } in
      let hl = kept.expiring clock inner a h in
      let ho = reads live over refl refl hl in
      if-intro Out (must_yield g live) (over, some interrupted)
        (if leb d clock.now then (over, some ready) else (live, none)) (λ _. ho)
        (λ _. if-intro Out (leb d clock.now) (over, some ready) (live, none) (λ _. ho) (λ _. hl))

  pub take-keeps :
      (t : Turn P) (inner : Inner P) → Allows T F t → Q inner → Q (take ops codec t inner)
  unfolding take bootstrap_safe_point mining_safe_point begin_generate finish_generate record_error
      wait_interval Out
  take-keeps (at_bootstrap clock e height) inner a h =
      let seen = record inner { height = some height } in
      bootstrap_turn-keeps clock e seen a (reads inner seen refl refl h)
  take-keeps (at_bootstrap_again clock e) inner a h = bootstrap_turn-keeps clock e inner a h
  take-keeps (at_safe_point clock e s) inner a h =
      let live = expire_leases clock inner in
      let current = apply_pending_policy ops e live in
      decides {B = Scheduler × Option P} current WorkerPhase.running (observe current s, none)
        (observe current s, some current.policy) (applies e live (kept.expiring clock inner a h))
  take-keeps (begins clock g) inner a h =
      let live = expire_leases clock inner in
      let hl = kept.expiring clock inner a h in
      let started = record live { in_flight = true; next_scheduled_attempt_ms = none } in
      if-intro Out (must_yield g live) (live, false) (started, true) (λ _. hl)
        (λ _. reads live started refl refl hl)
  take-keeps (finishes mined height) inner a h =
      reads inner (finish_generate mined height inner)
        (landed-leases mined height (record inner { in_flight = false }))
        (landed-requests mined height (record inner { in_flight = false })) h
  take-keeps (fails m) inner a h = reads inner (record inner { last_error = some m }) refl refl h
  take-keeps (begins_interval clock d g) inner a h =
      let shown = record inner {
        next_scheduled_attempt_ms = some (min (clock.now_ms + d) u64_max);
      } in
      wait_turn-keeps clock (clock.now + d) g shown a (reads inner shown refl refl h)
  take-keeps (waits_interval clock d g) inner a h = wait_turn-keeps clock d g inner a h
  take-keeps (status c) inner a h = request-keeps ops codec T F Q kept (status c) inner refl a h
  take-keeps (sets_state c r) inner a h =
      request-keeps ops codec T F Q kept (sets_state c r) inner refl a h
  take-keeps (acquires c d r) inner a h =
      request-keeps ops codec T F Q kept (acquires c d r) inner refl a h
  take-keeps (renews c id r) inner a h =
      request-keeps ops codec T F Q kept (renews c id r) inner refl a h
  take-keeps (releases c id r) inner a h =
      request-keeps ops codec T F Q kept (releases c id r) inner refl a h
  take-keeps (sets_policy c r) inner a h =
      request-keeps ops codec T F Q kept (sets_policy c r) inner refl a h
  take-keeps (resumes c b w) inner a h =
      request-keeps ops codec T F Q kept (resumes c b w) inner refl a h
