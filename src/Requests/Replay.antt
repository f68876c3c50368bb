-- ===== src/Requests/Replay.antt =====
-- A repeated request is answered as the first time, and an identifier is good for one command.
use simchain.Base.{
  ℕ, ◌+◌, ◌≤◌, ◌<◌, ◌≡◌, ap, sym, ◌∙◌, subst, String, false, none, some, List, [], ◌∷◌, ◌++◌,
  append_assoc, length, length-append, if◌then◌else◌, ◌==◌, String-eq, is_some, ok, err, arith,
  Bool-cases, inl, inr,
}
use simchain.Base.Table.{lookup, insert, lookup-insert_self, lookup-insert}
use simchain.Requests.{Completed, Requests, completed_request, remember_within}
use simchain.Requests.Ledger.{
  Distinct, Distinct-append, IsLedger, remember-IsLedger, Recent, trim-Recent,
}

-- a request that was answered later: its identifier, fingerprint and answer
abbrev pub Answered : Type 0 → Type 0
Answered A = String × String × A

module _ {A : Type 0} (limit : ℕ) where
  pub remember_all : List (Answered A) → Requests A → Requests A
  remember_all [] r = r
  remember_all ((id, fingerprint, ack) ∷ later) r =
      remember_all later (remember_within limit r id fingerprint ack)

  remember-Recent_new :
      (r : Requests A) (id fingerprint : String) (ack : A)
      → 0 < limit
      → IsLedger limit r
      → is_some (lookup id r.completed) ≡ false
      → Recent [] id
          (record { fingerprint = fingerprint; ack = ack })
          (remember_within limit r id fingerprint ack)
  unfolding remember_within
  remember-Recent_new r id fingerprint ack lt l fresh =
      let entry : Completed A = record { fingerprint = fingerprint; ack = ack } in
      rw (fresh, remember_within)
        (trim-Recent limit (insert id entry r.completed) r.order [] id entry
          (lookup-insert_self id entry r.completed)
          (Distinct-append id r.order (sym (l.keyed id) ∙ fresh) l.distinct) lt)

  remember-Recent_old :
      (r : Requests A) (k : String) (c : Completed A) (post : List String) (id fingerprint : String)
      (ack : A)
      → length post + 1 < limit
      → IsLedger limit r
      → Recent post k c r
      → (post' : List String) × (length post' ≤ length post + 1)
        × Recent post' k c (remember_within limit r id fingerprint ack)
  unfolding remember_within
  remember-Recent_old r k c post id fingerprint ack lt l recent =
      elim (Bool-cases (is_some (lookup id r.completed))) [
        | inl known ↦ rw known (post, omega arith, recent)
        | inr fresh ↦
            let (pre, at) = recent.placed in
            let entry : Completed A = record { fingerprint = fingerprint; ack = ack } in
            let order : r.order ++ id ∷ [] ≡ pre ++ k ∷ (post ++ id ∷ []) =
              ap (λ o. o ++ id ∷ []) at ∙ append_assoc pre (k ∷ post) (id ∷ []) in
            let distinct : Distinct (pre ++ k ∷ (post ++ id ∷ [])) =
              subst Distinct order
                (Distinct-append id r.order (sym (l.keyed id) ∙ fresh) l.distinct) in
            let found : lookup k (insert id entry r.completed) ≡ some c = ground (
              arith,
              lookup-insert id k entry r.completed,
              recent.found,
              fresh,
              String-eq.is_equal_iff id k,
            ) in
            rw (fresh, order)
              (
                post ++ id ∷ [],
                omega (arith, length-append post (id ∷ [])),
                trim-Recent limit (insert id entry r.completed) pre (post ++ id ∷ []) k c found
                    distinct (omega (arith, length-append post (id ∷ []))),
              )
      ]

  remember_all-Recent :
      (later : List (Answered A)) (r : Requests A) (k : String) (c : Completed A)
      (post : List String)
      → length post + length later < limit
      → IsLedger limit r
      → Recent post k c r
      → lookup k (remember_all later r).completed ≡ some c
  unfolding remember_all
  remember_all-Recent [] r k c post lt l recent = recent.found
  remember_all-Recent ((id, fingerprint, ack) ∷ later) r k c post lt l recent =
      let (post', le, recent') =
        remember-Recent_old r k c post id fingerprint ack (omega arith) l recent in
      remember_all-Recent later (remember_within limit r id fingerprint ack) k c post' (omega arith)
        (remember-IsLedger limit r id fingerprint ack l) recent'

-- After a new identifier is remembered, and then any requests, fewer than the limit, the
-- same command under it is answered with the first answer, and any other command is refused.
pub completed_request-remember :
    {A : Type 0} (limit : ℕ) (r : Requests A) (id fingerprint : String) (ack : A)
    (later : List (Answered A)) (other : String)
    → IsLedger limit r
    → lookup id r.completed ≡ none
    → length later < limit
    → completed_request
        (remember_all limit later (remember_within limit r id fingerprint ack))
        id
        other
      ≡ (if fingerprint == other then ok (some ack) else err tt)
unfolding completed_request
completed_request-remember limit r id fingerprint ack later other l fresh lt =
    let missing : is_some (lookup id r.completed) ≡ false = rw fresh in
    let first = remember-Recent_new limit r id fingerprint ack (omega arith) l missing in
    let kept =
      remember_all-Recent limit later (remember_within limit r id fingerprint ack) id _ []
        (omega arith) (remember-IsLedger limit r id fingerprint ack l) first in
    rw (kept, completed_request)
