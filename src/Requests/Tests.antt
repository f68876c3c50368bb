-- ===== src/Requests/Tests.antt =====
-- A ledger that holds two requests at most.
use simchain.Base.{ℕ, ◌≡◌, refl, none, some, [], ◌∷◌, arith, ok, err, String-eq}
use simchain.Base.Table.{lookup, insert, remove}
use simchain.Requests.{Requests, no_requests, completed_request, remember_within}
use simchain.Requests.Ledger.{IsLedger, remember-IsLedger}
use simchain.Requests.Replay.{remember_all, completed_request-remember}

abbrev one : Requests ℕ
one = record { completed = ("a", record { fingerprint = "x"; ack = 1 }) ∷ []; order = "a" ∷ [] }

evicts_oldest :
    (remember_within 2 (remember_within 2 one "b" "y" 2) "c" "z" 3).order ≡ "b" ∷ "c" ∷ []
unfolding remember_within lookup insert remove
evicts_oldest = refl

-- the first answer stays
answers_again : completed_request (remember_within 2 one "a" "x" 7) "a" "x" ≡ ok (some 1)
unfolding remember_within completed_request lookup
answers_again = refl

no_requests-IsLedger : IsLedger {A = ℕ} 2 no_requests
unfolding lookup
no_requests-IsLedger = record { keyed = λ k. refl; distinct = tt; bounded = omega arith }

remember-IsLedger_example : IsLedger {A = ℕ} 2 (remember_within 2 (no_requests {A = ℕ}) "a" "x" 1)
remember-IsLedger_example = remember-IsLedger 2 (no_requests {A = ℕ}) "a" "x" 1 no_requests-IsLedger

fresh_a : lookup "a" (no_requests {A = ℕ}).completed ≡ none
unfolding lookup
fresh_a = refl

completed_request-remember_example :
    completed_request
      (remember_all 2 (("b", "y", 2) ∷ []) (remember_within 2 (no_requests {A = ℕ}) "a" "x" 1))
      "a"
      "z"
    ≡ err tt
completed_request-remember_example =
    completed_request-remember 2 (no_requests {A = ℕ}) "a" "x" 1 (("b", "y", 2) ∷ []) "z"
      no_requests-IsLedger fresh_a (omega arith)
