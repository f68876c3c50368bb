-- ===== src/ControlPlane/Faucet/Count.antt =====
-- crates/control-plane/src/faucet_store.rs: how the list operations of the store change what passes
-- a test, and what its pruning leaves.
use simchain.Base.{
  ℕ, zero, suc, ◌+◌, ◌-◌, ◌≤◌, Bool, true, false, not, none, some, List, [], ◌∷◌, ◌++◌, ◌≡◌, refl,
  arith, ltb, length, All, Bool-cases, inl, inr,
}
use simchain.ControlPlane.Faucet.{
  StoredFaucetTransfer, find, update_first, remove_first, count_where, is_pending, is_terminal,
  max_terminal_history, trim_within, trim,
}

abbrev pub one_if : Bool → ℕ
one_if true = 1
one_if false = 0

module _ {A : Type 0} where
  pub count_where-update_first :
      (q p : A → Bool) (f : A → A) (r : A) (xs : List A)
      → find p xs ≡ some r
      → count_where q (update_first p f xs) + one_if (q r) ≡ count_where q xs + one_if (q (f r))
  unfolding count_where update_first find
  count_where-update_first q p f r [] h = absurd (cc)
  count_where-update_first q p f r (x ∷ xs) h = ground (arith, count_where-update_first q p f r xs)

  pub count_where-append :
      (q : A → Bool) (xs : List A) (y : A)
      → count_where q (xs ++ y ∷ []) ≡ count_where q xs + one_if (q y)
  unfolding count_where
  count_where-append q [] y = ground arith
  count_where-append q (x ∷ xs) y = ground (arith, count_where-append q xs y)

  pub find-count_where : (q : A → Bool) (xs : List A) → find q xs ≡ none → count_where q xs ≡ 0
  unfolding find count_where
  find-count_where q [] h = refl
  find-count_where q (x ∷ xs) h = ground (arith, find-count_where q xs)

  pub found-count_where :
      (q : A → Bool) (r : A) (xs : List A) → find q xs ≡ some r → 1 ≤ count_where q xs
  unfolding find count_where
  found-count_where q r [] h = absurd (cc)
  found-count_where q r (x ∷ xs) h = ground (arith, found-count_where q r xs)

  pub find_passes : (p : A → Bool) (r : A) (xs : List A) → find p xs ≡ some r → p r ≡ true
  unfolding find
  find_passes p r [] h = absurd (cc)
  find_passes p r (x ∷ xs) h = ground (arith, find_passes p r xs)

  -- an update that neither takes nor makes a passing element leaves the first one
  pub find-update_first :
      (q p : A → Bool) (f : A → A) (r : A) (xs : List A)
      → find p xs ≡ some r
      → q r ≡ false
      → q (f r) ≡ false
      → find q (update_first p f xs) ≡ find q xs
  unfolding find update_first
  find-update_first q p f r [] h n m = refl
  find-update_first q p f r (x ∷ xs) h n m = ground (arith, find-update_first q p f r xs)

  none_passes :
      (q p : A → Bool) (r : A) (xs : List A)
      → count_where q xs ≡ 0
      → find p xs ≡ some r
      → q r ≡ false
  unfolding find count_where
  none_passes q p r [] z h = absurd (cc)
  none_passes q p r (x ∷ xs) z h = ground (arith, none_passes q p r xs)

  -- where one element passes at most, it is the one
  pub find_unique :
      (q p : A → Bool) (t r : A) (xs : List A)
      → count_where q xs ≤ 1
      → find q xs ≡ some t
      → find p xs ≡ some r
      → q r ≡ true
      → r ≡ t
  unfolding find count_where
  find_unique q p t r [] one ht hr y = absurd (cc)
  find_unique q p t r (x ∷ xs) one ht hr y =
      ground (arith, find_unique q p t r xs, none_passes q p r xs)

  count_where-remove_first :
      (p : A → Bool) (xs : List A) → count_where p (remove_first p xs) ≡ count_where p xs - 1
  unfolding count_where remove_first
  count_where-remove_first p [] = omega arith
  count_where-remove_first p (x ∷ xs) = ground (arith, count_where-remove_first p xs)

  count_where-le : (p : A → Bool) (xs : List A) → count_where p xs ≤ length xs
  unfolding count_where
  count_where-le p [] = omega arith
  count_where-le p (x ∷ xs) = ground (arith, count_where-le p xs)

  count_others-remove_first :
      (p : A → Bool) (xs : List A)
      → count_where (λ x. not (p x)) (remove_first p xs) ≡ count_where (λ x. not (p x)) xs
  unfolding count_where remove_first
  count_others-remove_first p [] = refl
  count_others-remove_first p (x ∷ xs) = ground (arith, count_others-remove_first p xs)

  pub All-update_first :
      (P : A → Type 0) (p : A → Bool) (f : A → A) (xs : List A)
      → ((x : A) → P x → P (f x))
      → All P xs
      → All P (update_first p f xs)
  unfolding update_first
  All-update_first P p f [] keep h = h
  All-update_first P p f (x ∷ xs) keep (hx, hs) = elim (Bool-cases (p x)) [
    | inl t ↦ rw (t, update_first) (keep x hx, hs)
    | inr t ↦ rw (t, update_first) (hx, All-update_first P p f xs keep hs)
  ]

  All-remove_first :
      (P : A → Type 0) (p : A → Bool) (xs : List A) → All P xs → All P (remove_first p xs)
  unfolding remove_first
  All-remove_first P p [] h = h
  All-remove_first P p (x ∷ xs) (hx, hs) = elim (Bool-cases (p x)) [
    | inl t ↦ rw (t, remove_first) hs
    | inr t ↦ rw (t, remove_first) (hx, All-remove_first P p xs hs)
  ]

module _ {Delta : Type 0} where
  pending-remove_first :
      (ts : List (StoredFaucetTransfer Delta))
      → count_where is_pending (remove_first is_terminal ts) ≡ count_where is_pending ts
  unfolding count_where remove_first
  pending-remove_first [] = refl
  pending-remove_first (t ∷ ts) = ground (arith, pending-remove_first ts)

  found-remove_first :
      (ts : List (StoredFaucetTransfer Delta))
      → find is_pending (remove_first is_terminal ts) ≡ find is_pending ts
  unfolding find remove_first
  found-remove_first [] = refl
  found-remove_first (t ∷ ts) = ground (arith, found-remove_first ts)

  trim_within-history :
      (fuel : ℕ) (ts : List (StoredFaucetTransfer Delta))
      → count_where is_terminal ts ≤ fuel + max_terminal_history
      → count_where is_terminal (trim_within fuel ts) ≤ max_terminal_history
  unfolding trim_within
  trim_within-history zero ts h = omega (arith, h)
  trim_within-history (suc fuel) ts h = ground (
    arith,
    count_where-remove_first is_terminal ts,
    trim_within-history fuel (remove_first is_terminal ts),
  )

  trim_within-pending :
      (fuel : ℕ) (ts : List (StoredFaucetTransfer Delta))
      → count_where is_pending (trim_within fuel ts) ≡ count_where is_pending ts
  unfolding trim_within
  trim_within-pending zero ts = refl
  trim_within-pending (suc fuel) ts =
      ground
        (arith, pending-remove_first ts, trim_within-pending fuel (remove_first is_terminal ts))

  trim_within-found :
      (fuel : ℕ) (ts : List (StoredFaucetTransfer Delta))
      → find is_pending (trim_within fuel ts) ≡ find is_pending ts
  unfolding trim_within
  trim_within-found zero ts = refl
  trim_within-found (suc fuel) ts =
      ground (arith, found-remove_first ts, trim_within-found fuel (remove_first is_terminal ts))

  trim_within-All :
      (P : StoredFaucetTransfer Delta → Type 0) (fuel : ℕ) (ts : List (StoredFaucetTransfer Delta))
      → All P ts
      → All P (trim_within fuel ts)
  unfolding trim_within
  trim_within-All P zero ts h = h
  trim_within-All P (suc fuel) ts h =
      elim (Bool-cases (ltb max_terminal_history (count_where is_terminal ts))) [
        | inl t ↦
            rw (t, trim_within)
              (trim_within-All P fuel (remove_first is_terminal ts)
                (All-remove_first P is_terminal ts h))
        | inr t ↦ rw (t, trim_within) h
      ]

  pub trim-history :
      (ts : List (StoredFaucetTransfer Delta))
      → count_where is_terminal (trim ts) ≤ max_terminal_history
  unfolding trim
  trim-history ts =
      trim_within-history (length ts) ts (omega (arith, count_where-le is_terminal ts))

  pub trim-pending :
      (ts : List (StoredFaucetTransfer Delta))
      → count_where is_pending (trim ts) ≡ count_where is_pending ts
  unfolding trim
  trim-pending ts = trim_within-pending (length ts) ts

  pub trim-found :
      (ts : List (StoredFaucetTransfer Delta)) → find is_pending (trim ts) ≡ find is_pending ts
  unfolding trim
  trim-found ts = trim_within-found (length ts) ts

  pub trim-All :
      (P : StoredFaucetTransfer Delta → Type 0) (ts : List (StoredFaucetTransfer Delta))
      → All P ts
      → All P (trim ts)
  unfolding trim
  trim-All P ts h = trim_within-All P (length ts) ts h
