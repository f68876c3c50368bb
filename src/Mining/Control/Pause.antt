-- ===== src/Mining/Control/Pause.antt =====
-- crates/mining-controller/src/control.rs: what a pause promises across the turns of the worker and of
-- any number of requests.
pub mod Turns
use simchain.Base.{
  ℕ, String, Bool, true, false, not, Option, none, some, List, [], ◌∷◌, ◌≡◌, refl, All, arith,
}
use simchain.Mining.Control.{
  PolicyOps, Clock, Inner, expire_leases, is_effectively_paused, pause_requested,
}
use simchain.Mining.Control.Waiting.{
  Codec, resume, Waiting, for_pause, for_generation, to_roll_back,
}
use simchain.Mining.Control.Commands.{start_pausing}
use simchain.Mining.Control.Worker.{
  bootstrap_safe_point, mining_safe_point, begin_generate, bootstrap_turn, finish_generate,
  record_error, wait_interval, wait_turn,
}
use simchain.Mining.Control.Step.{
  Turn, status, sets_state, acquires, renews, releases, sets_policy, resumes, at_bootstrap,
  at_bootstrap_again, at_safe_point, begins, finishes, fails, begins_interval, waits_interval,
  is_worker, take, take_all,
}
use simchain.Mining.Control.Handlers.{Preserved, MayRestore}
use simchain.Mining.Control.Turns.{Allows, Anything, wakes, request-keeps}
use simchain.Mining.Control.Pause.Turns.{
  bootstrap_turn-Holds, mining_safe_point-Holds, begin_generate-Holds, finish_generate-Holds,
  wait_turn-Holds,
}

module _ {P : Type 0} where
  abbrev AtRest : Inner P → Type 0
  AtRest inner = is_effectively_paused inner ≡ true

  AtRest-Preserved : Preserved Anything Anything AtRest
  unfolding expire_leases
  AtRest-Preserved = record {
    expiring = λ clock inner _ h. h;
    remembering = λ id f inner h. h;
    desiring = λ s inner h. h;
    pausing = λ inner h. ground arith;
    inserting = λ id lease inner _ h. h;
    removing = λ id inner _ h. h;
    queueing = λ p inner h. h;
  }

module _ {P : Type 0} (ops : PolicyOps P) (codec : Codec P) where
  request-rest :
      (t : Turn P) (inner : Inner P)
      → is_worker t ≡ false
      → Allows Anything Anything t
      → AtRest inner
      → AtRest (take ops codec t inner)
  request-rest = request-keeps ops codec Anything Anything AtRest AtRest-Preserved

  -- Once the worker is effectively paused (its phase is a paused one and no generation is in
  -- flight), one more turn of the worker or of a request leaves it effectively paused, provided
  -- that a pause is requested at the end of that turn.
  pub take-pause_holds :
      (t : Turn P) (inner : Inner P)
      → is_effectively_paused inner ≡ true
      → pause_requested (take ops codec t inner) ≡ true
      → is_effectively_paused (take ops codec t inner) ≡ true
  unfolding take wait_interval bootstrap_safe_point record_error
  take-pause_holds (status clock) inner h _ = request-rest (status clock) inner refl tt h
  take-pause_holds (sets_state c r) inner h _ = request-rest (sets_state c r) inner refl tt h
  take-pause_holds (acquires c d r) inner h _ = request-rest (acquires c d r) inner refl (tt, tt) h
  take-pause_holds (renews c id r) inner h _ = request-rest (renews c id r) inner refl (tt, tt) h
  take-pause_holds (releases c id r) inner h _ =
      request-rest (releases c id r) inner refl (tt, tt) h
  take-pause_holds (sets_policy c r) inner h _ = request-rest (sets_policy c r) inner refl tt h
  take-pause_holds (resumes c b w) inner h _ =
      request-rest (resumes c b w) inner refl (tt, wakes w) h
  take-pause_holds (at_bootstrap clock e height) inner h r =
      bootstrap_turn-Holds clock ops e (record inner { height = some height }) h r
  take-pause_holds (at_bootstrap_again clock e) inner h r =
      bootstrap_turn-Holds clock ops e inner h r
  take-pause_holds (at_safe_point clock e s) inner h r =
      mining_safe_point-Holds clock ops e s inner h r
  take-pause_holds (begins clock g) inner h r = begin_generate-Holds clock g inner h r
  take-pause_holds (finishes mined height) inner h r = finish_generate-Holds mined height inner r
  take-pause_holds (fails message) inner h r = h
  take-pause_holds (begins_interval clock d g) inner h r = wait_turn-Holds clock _ g _ h r
  take-pause_holds (waits_interval clock d g) inner h r = wait_turn-Holds clock d g inner h r

  -- a pause is requested after each of these turns
  unfoldable pub Requested : List (Turn P) → Inner P → Type 0
  Requested [] inner = Unit
  Requested (t ∷ ts) inner =
      (pause_requested (take ops codec t inner) ≡ true) × Requested ts (take ops codec t inner)

  -- From a state in which the worker is effectively paused, after any sequence of turns of the
  -- worker and of requests, at the end of each of which some pause is requested, the worker is
  -- still effectively paused: no generation is in flight.
  pub take_all-pause_holds :
      (ts : List (Turn P)) (inner : Inner P)
      → is_effectively_paused inner ≡ true
      → Requested ts inner
      → is_effectively_paused (take_all ops codec ts inner) ≡ true
  unfolding take_all Requested
  take_all-pause_holds [] inner h _ = h
  take_all-pause_holds (t ∷ ts) inner h r =
      take_all-pause_holds ts (take ops codec t inner) (take-pause_holds t inner h (r.0)) r.1
