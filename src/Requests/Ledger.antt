-- ===== src/Requests/Ledger.antt =====
-- The queue names exactly the keys of the map, each once, and never more than the limit.
use simchain.Base.{
  ℕ, ◌≤◌, ◌<◌, ◌≡◌, refl, sym, ◌∙◌, String, Bool, true, false, some, List, [], ◌∷◌, ◌++◌, length,
  leb, if◌then◌else◌, ◌==◌, ==_refl, String-eq, is_some, arith, Bool-cases, inl, inr,
}
use simchain.Base.Table.{lookup, insert, remove, lookup-insert, lookup-remove}
use simchain.Requests.{no_requests, Completed, Requests, trim, remember_within}

abbrev pub member : String → List String → Bool
member k [] = false
member k (x ∷ xs) = if x == k then true else member k xs

abbrev pub Distinct : List String → Type 0
Distinct [] = Unit {0}
Distinct (x ∷ xs) = (member x xs ≡ false) × Distinct xs

member-append :
    (k x : String) (xs : List String)
    → member k (xs ++ x ∷ []) ≡ (if member k xs then true else x == k)
member-append k x [] = ground arith
member-append k x (y ∷ ys) = ground (arith, member-append k x ys)

pub Distinct-append :
    (x : String) (xs : List String) → member x xs ≡ false → Distinct xs → Distinct (xs ++ x ∷ [])
Distinct-append x [] m d = (refl, tt)
Distinct-append x (y ∷ ys) m d = (
  ground (arith, member-append y x ys, String-eq.is_equal_iff x y, String-eq.is_equal_iff y x),
  Distinct-append x ys (ground arith) d.1,
)

member_middle : (k : String) (pre post : List String) → member k (pre ++ k ∷ post) ≡ true
member_middle k [] post = rw (==_refl k)
member_middle k (x ∷ pre) post = ground (arith, member_middle k pre post)

module _ {A : Type 0} where
  pub record IsLedger (limit : ℕ) (r : Requests A) : Type 0 where
    pub keyed : (k : String) → is_some (lookup k r.completed) ≡ member k r.order
    pub distinct : Distinct r.order
    pub bounded : length r.order ≤ limit

  -- cutting to the limit from a ledger that is over it
  trim-IsLedger :
      (limit : ℕ) (completed : List (String × Completed A)) (order : List String)
      → ((k : String) → is_some (lookup k completed) ≡ member k order)
      → Distinct order
      → IsLedger limit (trim limit completed order)
  unfolding trim
  trim-IsLedger limit completed [] keyed d = record {
    keyed = keyed;
    distinct = tt;
    bounded = omega arith;
  }
  trim-IsLedger limit completed (x ∷ xs) keyed d = elim (Bool-cases (leb (length (x ∷ xs)) limit)) [
    | inl fits ↦ rw fits (record { keyed = keyed; distinct = d; bounded = ground arith })
    | inr over ↦ rw over (
        trim-IsLedger limit (remove x completed) xs
          (λ k.
            ground (arith, lookup-remove x k completed, keyed k, String-eq.is_equal_iff x k, d.0))
          d.1)
  ]

  pub no_requests-IsLedger : (limit : ℕ) → IsLedger limit no_requests
  unfolding lookup
  no_requests-IsLedger limit = record { keyed = λ k. refl; distinct = tt; bounded = ground arith }

  -- Remembering keeps the queue and the map in step, and within the limit.
  pub remember-IsLedger :
      (limit : ℕ) (r : Requests A) (id fingerprint : String) (ack : A)
      → IsLedger limit r
      → IsLedger limit (remember_within limit r id fingerprint ack)
  unfolding remember_within
  remember-IsLedger limit r id fingerprint ack l =
      elim (Bool-cases (is_some (lookup id r.completed))) [
        | inl known ↦ rw known l
        | inr fresh ↦
            let entry : Completed A = record { fingerprint = fingerprint; ack = ack } in
            let absent : member id r.order ≡ false = sym (l.keyed id) ∙ fresh in
            rw (fresh, remember_within)
              (trim-IsLedger limit (insert id entry r.completed) (r.order ++ id ∷ [])
                (λ k. ground (
                  arith,
                  lookup-insert id k entry r.completed,
                  l.keyed k,
                  member-append k id r.order,
                ))
                (Distinct-append id r.order absent l.distinct))
      ]

  -- `k` is remembered, and the requests of `post` were remembered after it
  pub record Recent (post : List String) (k : String) (c : Completed A) (r : Requests A)
      : Type 0 where
    pub found : lookup k r.completed ≡ some c
    pub placed : (pre : List String) × (r.order ≡ pre ++ k ∷ post)

  pub trim-Recent :
      (limit : ℕ) (completed : List (String × Completed A)) (pre post : List String) (k : String)
      (c : Completed A)
      → lookup k completed ≡ some c
      → Distinct (pre ++ k ∷ post)
      → length post < limit
      → Recent post k c (trim limit completed (pre ++ k ∷ post))
  unfolding trim
  trim-Recent limit completed [] post k c found d lt =
      let fits : leb (length (k ∷ post)) limit ≡ true = ground arith in
      rw fits (record { found = found; placed = ([], refl) })
  trim-Recent limit completed (x ∷ pre) post k c found d lt =
      elim (Bool-cases (leb (length (x ∷ (pre ++ k ∷ post))) limit)) [
        | inl fits ↦ rw fits (record { found = found; placed = (x ∷ pre, refl) })
        | inr over ↦ rw over (
            trim-Recent limit (remove x completed) pre post k c
              (ground (
                arith,
                lookup-remove x k completed,
                String-eq.is_equal_iff x k,
                member_middle k pre post,
                d.0,
              ))
              d.1 lt)
      ]
