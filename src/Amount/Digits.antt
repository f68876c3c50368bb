-- ===== src/Amount/Digits.antt =====
-- crates/simchain-common/src/amount.rs: the number that a sequence of digits writes.
use simchain.Base.{
  ℕ, zero, suc, ◌+◌, ◌-◌, ◌*◌, ◌/◌, ◌%◌, ◌^◌, ◌≤◌, ◌<◌, Bool, true, [], ◌∷◌, ◌++◌, ◌≡◌, refl, sym,
  ap, ◌∙◌, arith, all, length, length-append,
}
use simchain.Base.Text.{Text}
use simchain.Amount.{is_ascii_digit, byte_len, read_digits}

pub byte_len-digits : (t : Text) → all is_ascii_digit t ≡ true → byte_len t ≡ length t
unfolding byte_len
byte_len-digits [] h = refl
byte_len-digits (c ∷ cs) h = ground (arith, byte_len-digits cs)

read_digits-append :
    (n : ℕ) (xs ys : Text) → read_digits n (xs ++ ys) ≡ read_digits (read_digits n xs) ys
unfolding read_digits
read_digits-append n [] ys = refl
read_digits-append n (c ∷ cs) ys = read_digits-append (n * 10 + (c - 48)) cs ys

pow_suc : (k : ℕ) → 10 ^ suc k ≡ 10 * 10 ^ k
pow_suc k = omega arith

pub pow_pos : (k : ℕ) → 1 ≤ 10 ^ k
pow_pos zero = omega arith
pow_pos (suc k) = omega (arith, pow_pos k, pow_suc k)

shifted : (n d p v : ℕ) → (n * 10 + d) * p + v ≡ n * (10 * p) + (d * p + v)
shifted n d p v = omega arith

plain : (d : ℕ) → d ≡ 0 + d
plain d = omega arith

read_digits_shift : (n : ℕ) (t : Text) → read_digits n t ≡ n * 10 ^ length t + read_digits 0 t
unfolding read_digits
read_digits_shift n [] = omega arith
read_digits_shift n (c ∷ cs) =
    read_digits_shift (n * 10 + (c - 48)) cs
    ∙ shifted n (c - 48) (10 ^ length cs) (read_digits 0 cs)
    ∙ ap (λ p. n * p + ((c - 48) * 10 ^ length cs + read_digits 0 cs)) (sym (pow_suc (length cs)))
    ∙ ap (λ v. n * 10 ^ suc (length cs) + v)
        (sym (read_digits_shift (c - 48) cs) ∙ ap (λ d. read_digits d cs) (plain (c - 48)))

scaled : (w p f q : ℕ) → (w * p + f) * q ≡ w * (p * q) + f * q
scaled w p f q = omega arith

one_times : (p : ℕ) → 10 ^ 0 * p ≡ p
one_times p = omega arith

regroup : (p r : ℕ) → 10 * p * r ≡ 10 * (p * r)
regroup p r = omega arith

times_assoc : (q p r : ℕ) → q ≡ 10 * p → q * r ≡ 10 * (p * r)
times_assoc q p r h = ap (λ x. x * r) h ∙ regroup p r

suc_sum : (k m : ℕ) → suc (k + m) ≡ suc k + m
suc_sum k m = omega arith

pow_add : (k m : ℕ) → 10 ^ k * 10 ^ m ≡ 10 ^ (k + m)
pow_add zero m = one_times (10 ^ m) ∙ ap (λ e. 10 ^ e) (plain m)
pow_add (suc k) m =
    times_assoc (10 ^ suc k) (10 ^ k) (10 ^ m) (pow_suc k)
    ∙ ap (λ p. 10 * p) (pow_add k m)
    ∙ sym (pow_suc (k + m))
    ∙ ap (λ e. 10 ^ e) (suc_sum k m)

eight : (k : ℕ) → k ≤ 8 → k + (8 - k) ≡ 8
eight k h = omega arith

pow_complement : (k : ℕ) → k ≤ 8 → 10 ^ k * 10 ^ (8 - k) ≡ 100000000
pow_complement k h = pow_add k (8 - k) ∙ ap (λ e. 10 ^ e) (eight k h)

pub read_digits-append_digits :
    (w f : Text) → read_digits 0 (w ++ f) ≡ read_digits 0 w * 10 ^ length f + read_digits 0 f
read_digits-append_digits w f = read_digits-append 0 w f ∙ read_digits_shift (read_digits 0 w) f

-- the digits before and after the dot, read as one number and scaled to eight places
pub read_digits_scaled :
    (w f : Text)
    → length f ≤ 8
    → read_digits 0 (w ++ f) * 10 ^ (8 - length f)
      ≡ read_digits 0 w * 100000000 + read_digits 0 f * 10 ^ (8 - length f)
read_digits_scaled w f h =
    ap (λ v. v * 10 ^ (8 - length f)) (read_digits-append_digits w f)
    ∙ scaled (read_digits 0 w) (10 ^ length f) (read_digits 0 f) (10 ^ (8 - length f))
    ∙ ap (λ p. read_digits 0 w * p + read_digits 0 f * 10 ^ (8 - length f))
        (pow_complement (length f) h)

-- the last `k` decimal digits of a number, in code points
unfoldable pub print_digits : ℕ → ℕ → Text
print_digits zero n = []
print_digits (suc k) n = print_digits k (n / 10) ++ (48 + n % 10) ∷ []

pub length-print_digits : (k n : ℕ) → length (print_digits k n) ≡ k
unfolding print_digits
length-print_digits zero n = refl
length-print_digits (suc k) n =
    length-append (print_digits k (n / 10)) ((48 + n % 10) ∷ [])
    ∙ omega (arith, length-print_digits k (n / 10))

pub all-append :
    (p : ℕ → Bool) (xs ys : Text) → all p xs ≡ true → all p ys ≡ true → all p (xs ++ ys) ≡ true
all-append p [] ys h k = k
all-append p (x ∷ xs) ys h k = ground (arith, all-append p xs ys)

last_digit : (n : ℕ) → is_ascii_digit (48 + n % 10) ≡ true
last_digit n = ground arith

pub print_digits-digits : (k n : ℕ) → all is_ascii_digit (print_digits k n) ≡ true
unfolding print_digits
print_digits-digits zero n = refl
print_digits-digits (suc k) n =
    all-append is_ascii_digit (print_digits k (n / 10)) ((48 + n % 10) ∷ [])
      (print_digits-digits k (n / 10)) (ground (arith, last_digit n))

below : (n p q : ℕ) → q ≡ 10 * p → n < q → n / 10 < p
below n p q e h = omega (arith, e, h)

pub read_digits-print_digits : (k n : ℕ) → n < 10 ^ k → read_digits 0 (print_digits k n) ≡ n
unfolding print_digits read_digits
read_digits-print_digits zero n h = omega (arith, h)
read_digits-print_digits (suc k) n h =
    read_digits-append 0 (print_digits k (n / 10)) ((48 + n % 10) ∷ [])
    ∙ ap (λ v. v * 10 + (48 + n % 10 - 48))
        (read_digits-print_digits k (n / 10) (below n (10 ^ k) (10 ^ suc k) (pow_suc k) h))
    ∙ omega arith
