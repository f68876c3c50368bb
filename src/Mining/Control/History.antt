-- ===== src/Mining/Control/History.antt =====
-- crates/mining-controller/src/control.rs: the remembered requests, over the life of the control.
use simchain.Base.{ℕ, List, [], ◌∷◌, subst}
use simchain.Requests.{completed_request_limit}
use simchain.Requests.Ledger.{IsLedger, no_requests-IsLedger, remember-IsLedger}
use simchain.Mining.Control.{PolicyOps, Inner, new_inner, expire_leases, ack_of}
use simchain.Mining.Control.Waiting.{Codec}
use simchain.Mining.Control.Step.{Turn, take, take_all}
use simchain.Mining.Control.Handlers.{Preserved}
use simchain.Mining.Control.Turns.{Anything, anything, take-keeps}

module _ {P : Type 0} where
  abbrev Recorded : Inner P → Type 0
  Recorded inner = IsLedger completed_request_limit inner.requests

  Recorded-Preserved : Preserved Anything Anything Recorded
  unfolding expire_leases
  Recorded-Preserved = record {
    expiring = λ clock inner _ h. h;
    remembering = λ id f inner h.
        remember-IsLedger completed_request_limit inner.requests id f (ack_of inner id) h;
    desiring = λ s inner h. h;
    pausing = λ inner h. h;
    inserting = λ id lease inner _ h. h;
    removing = λ id inner _ h. h;
    queueing = λ p inner h. h;
  }

module _ {P : Type 0} (ops : PolicyOps P) (codec : Codec P) where
  run-Recorded :
      (ts : List (Turn P)) (inner : Inner P)
      → Recorded inner
      → Recorded (take_all ops codec ts inner)
  unfolding take_all
  run-Recorded [] inner h = h
  run-Recorded (t ∷ ts) inner h = run-Recorded ts (take ops codec t inner) (
      take-keeps ops codec Anything Anything Recorded Recorded-Preserved
        (λ a b _ q k. subst (IsLedger completed_request_limit) q k) t inner (anything t) h)

  -- From the control's first state, after any sequence of turns of the worker and of requests, at
  -- most 1,024 requests are remembered, each stands once in the queue, and the map holds exactly
  -- the requests of the queue.
  pub run-IsLedger :
      (ts : List (Turn P)) (policy : P) (seed started : ℕ)
      → IsLedger completed_request_limit
          (take_all ops codec ts (new_inner policy seed started)).requests
  unfolding new_inner
  run-IsLedger ts policy seed started =
      run-Recorded ts (new_inner policy seed started) (no_requests-IsLedger completed_request_limit)
