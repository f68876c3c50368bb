-- ===== src/Requests.antt =====
-- The completed requests that a worker keeps so that a repeated command is answered again and not
-- run again: crates/mining-controller/src/control.rs (`completed_request`, `remember_request`) and
-- the same two functions of crates/spammer/src/control.rs. The two fields of `Inner`, the map and
-- the queue of its keys, are one record here.
pub mod Ledger
pub mod Replay
pub mod Tests
use simchain.Base.{
  ℕ, suc, String, Bool, true, false, Option, none, some, List, [], ◌∷◌, ◌++◌, length, leb,
  if◌then◌else◌, ◌==◌, String-eq, is_some, Result, ok, err,
}
use simchain.Base.Table.{lookup, insert, remove}

pub record Completed (A : Type 0) : Type 0 where
  pub fingerprint : String
  pub ack : A

pub record Requests (A : Type 0) : Type 0 where
  pub completed : List (String × Completed A)
  pub order : List String

abbrev pub completed_request_limit : ℕ
completed_request_limit = 1024

module _ {A : Type 0} where
  abbrev pub no_requests : Requests A
  no_requests = record { completed = []; order = [] }

  -- `completed_request`: `err` is the refusal of an identifier that another command used
  unfoldable pub completed_request :
      Requests A → (request_id fingerprint : String) → Result (Unit {0}) (Option A)
  completed_request r request_id fingerprint = elim (lookup request_id r.completed) [
    | none ↦ ok none
    | some c ↦ if c.fingerprint == fingerprint then ok (some c.ack) else err tt
  ]

  -- `while order.len() > limit { order.pop_front() .. completed.remove(..) }`
  unfoldable pub trim : ℕ → List (String × Completed A) → List String → Requests A
  trim limit completed [] = record { completed = completed; order = [] }
  trim limit completed (oldest ∷ order) =
      let rest = trim limit (remove oldest completed) order in
      if leb (length (oldest ∷ order)) limit
      then record { completed = completed; order = oldest ∷ order }
      else rest

  unfoldable pub remember_within :
      ℕ → Requests A → (request_id fingerprint : String) → A → Requests A
  unfolding trim
  remember_within limit r request_id fingerprint ack =
      if is_some (lookup request_id r.completed)
      then r
      else trim limit
          (insert request_id (record { fingerprint = fingerprint; ack = ack }) r.completed)
          (r.order ++ request_id ∷ [])

  abbrev pub remember_request : Requests A → (request_id fingerprint : String) → A → Requests A
  remember_request = remember_within completed_request_limit
