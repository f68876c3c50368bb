-- ===== src/Network/System/Clearing.antt =====
-- crates/network-agent/src/system.rs: what `clear` and `apply` leave on an interface.
use simchain.Base.{
  ℕ, Bool, true, false, String, Option, none, some, List, ◌≡◌, ◌⊎◌, refl, ◌∙◌, ap, Result, ok, err,
  Bool-cases, Result-cases, inl, inr,
}
use simchain.Network.Impairment.{NetworkImpairment, netem, partition}
use simchain.Network.System.{
  Exit, success, failure, broken, is_success, Programs, is_acceptable, missing_table, missing_qdisc,
  validate_interface, run, clear, impair, apply,
}

-- What the agent relies on `nft` and `tc` for: `qdisc` is the discipline at the root of an interface,
-- `table` the drops of the agent's table for it. A command that succeeds does what it says, where a
-- table is loaded only if there is none. One that does not succeed changes nothing. Neither program
-- touches what the other one keeps, and a deletion complains with the expected text only where there
-- is nothing to delete.
pub record Shaping {F W : Type 0} (programs : Programs F W) (qdisc : String → W → Option (ℕ × F))
    (table : String → W → Option (Bool × Bool)) : Type 0 where
  pub delete_table_apart : (i : String) (w : W) → qdisc i (programs.delete_table w).1 ≡ qdisc i w
  pub delete_table_done :
      (i : String) (w : W)
      → (programs.delete_table w).0 ≡ success
      → table i (programs.delete_table w).1 ≡ none
  pub delete_table_failed :
      (i : String) (w : W)
      → is_success (programs.delete_table w).0 ≡ false
      → table i (programs.delete_table w).1 ≡ table i w
  pub delete_table_missing :
      (i : String) (w : W) (e : String)
      → (programs.delete_table w).0 ≡ failure e
      → is_acceptable missing_table e ≡ true
      → table i w ≡ none
  pub delete_qdisc_apart : (i : String) (w : W) → table i (programs.delete_qdisc i w).1 ≡ table i w
  pub delete_qdisc_done :
      (i : String) (w : W)
      → (programs.delete_qdisc i w).0 ≡ success
      → qdisc i (programs.delete_qdisc i w).1 ≡ none
  pub delete_qdisc_failed :
      (i : String) (w : W)
      → is_success (programs.delete_qdisc i w).0 ≡ false
      → qdisc i (programs.delete_qdisc i w).1 ≡ qdisc i w
  pub delete_qdisc_missing :
      (i : String) (w : W) (e : String)
      → (programs.delete_qdisc i w).0 ≡ failure e
      → is_acceptable missing_qdisc e ≡ true
      → qdisc i w ≡ none
  pub replace_qdisc_apart :
      (i : String) (d : ℕ) (l : F) (w : W) → table i (programs.replace_qdisc i d l w).1 ≡ table i w
  pub replace_qdisc_done :
      (i : String) (d : ℕ) (l : F) (w : W)
      → (programs.replace_qdisc i d l w).0 ≡ success
      → qdisc i (programs.replace_qdisc i d l w).1 ≡ some (d, l)
  pub replace_qdisc_failed :
      (i : String) (d : ℕ) (l : F) (w : W)
      → is_success (programs.replace_qdisc i d l w).0 ≡ false
      → qdisc i (programs.replace_qdisc i d l w).1 ≡ qdisc i w
  pub load_table_apart :
      (i : String) (a b : Bool) (w : W) → qdisc i (programs.load_table i a b w).1 ≡ qdisc i w
  pub load_table_done :
      (i : String) (a b : Bool) (w : W)
      → table i w ≡ none
      → (programs.load_table i a b w).0 ≡ success
      → table i (programs.load_table i a b w).1 ≡ some (a, b)
  pub load_table_failed :
      (i : String) (a b : Bool) (w : W)
      → is_success (programs.load_table i a b w).0 ≡ false
      → table i (programs.load_table i a b w).1 ≡ table i w

abbrev pub qdisc_of : {F : Type 0} → Option (NetworkImpairment F) → Option (ℕ × F)
qdisc_of (some (netem d l)) = some (d, l)
qdisc_of _ = none

abbrev pub table_of : {F : Type 0} → Option (NetworkImpairment F) → Option (Bool × Bool)
table_of (some (partition a b)) = some (a, b)
table_of _ = none

-- a deletion whose expected complaint counts as done
Deleted : {A W : Type 0} → (W → Option A) → (w : W) → Result String (Unit {0}) × W → Type 0
Deleted part w out =
    (out.0 ≡ ok tt → part out.1 ≡ none) × ((e : String) → out.0 ≡ err e → part out.1 ≡ part w)

run-Deleted :
    {A W : Type 0} (part : W → Option A) (texts : List String) (w : W) (out : Exit × W)
    → (out.0 ≡ success → part out.1 ≡ none)
    → (is_success out.0 ≡ false → part out.1 ≡ part w)
    → ((e : String) → out.0 ≡ failure e → is_acceptable texts e ≡ true → part w ≡ none)
    → Deleted part w (run texts out)
unfolding run Deleted
run-Deleted part texts w (success, w') done failed missing = (λ _. done refl, λ e q. absurd (cc))
run-Deleted part texts w (broken e, w') done failed missing =
    (λ q. absurd (cc), λ e' q. failed refl)
run-Deleted part texts w (failure e, w') done failed missing =
    elim (Bool-cases (is_acceptable texts e)) [
      | inl known ↦ rw (known, run) (λ _. failed refl ∙ missing e refl known, λ e' q. absurd (cc))
      | inr new ↦ rw (new, run) (λ q. absurd (cc), λ e' q. failed refl)
    ]

run-world : {W : Type 0} (texts : List String) (out : Exit × W) → (run texts out).1 ≡ out.1
unfolding run
run-world texts (success, w) = refl
run-world texts (failure e, w) = refl
run-world texts (broken e, w) = refl

module _ {F W : Type 0} (programs : Programs F W) (qdisc : String → W → Option (ℕ × F))
    (table : String → W → Option (Bool × Bool)) (laws : Shaping programs qdisc table) where
  -- the interface carries exactly this impairment
  abbrev pub Carries : (interface : String) → W → Option (NetworkImpairment F) → Type 0
  Carries i w m = (qdisc i w ≡ qdisc_of m) × (table i w ≡ table_of m)

  -- clearing half of an impairment leaves it or nothing
  half_cleared :
      (i : String) (w w' : W) (m : Option (NetworkImpairment F))
      → qdisc i w' ≡ qdisc i w
      → table i w' ≡ none
      → Carries i w m
      → Carries i w' m ⊎ Carries i w' none
  half_cleared i w w' none q t (a, b) = inl (q ∙ a, t)
  half_cleared i w w' (some (netem d l)) q t (a, b) = inl (q ∙ a, t)
  half_cleared i w w' (some (partition x y)) q t (a, b) = inr (q ∙ a, t)

  -- what `clear` leaves, by its answer
  abbrev pub Cleared : (interface : String) → W → Result String (Unit {0}) × W → Type 0
  Cleared i w out =
      (out.0 ≡ ok tt → Carries i out.1 none)
      × ((e : String) (m : Option (NetworkImpairment F))
          → out.0 ≡ err e
          → Carries i w m
          → Carries i out.1 m ⊎ Carries i out.1 none)

  pub clear-Cleared : (i : String) (w : W) → Cleared i w (clear programs i w)
  unfolding clear Deleted
  clear-Cleared i w =
      let first = run missing_table (programs.delete_table w) in
      let w' = first.1 in
      let t =
        run-Deleted (table i) missing_table w (programs.delete_table w) (laws.delete_table_done i w)
          (laws.delete_table_failed i w) (laws.delete_table_missing i w) in
      let q_kept : qdisc i w' ≡ qdisc i w =
        ap (qdisc i) (run-world missing_table (programs.delete_table w))
        ∙ laws.delete_table_apart i w in
      let second = run missing_qdisc (programs.delete_qdisc i w') in
      let q =
        run-Deleted (qdisc i) missing_qdisc w' (programs.delete_qdisc i w')
          (laws.delete_qdisc_done i w') (laws.delete_qdisc_failed i w')
          (laws.delete_qdisc_missing i w') in
      let t_kept : table i second.1 ≡ table i w' =
        ap (table i) (run-world missing_qdisc (programs.delete_qdisc i w'))
        ∙ laws.delete_qdisc_apart i w' in
      elim (Bool-cases (validate_interface i)) [
        | inr bad ↦ rw (bad, clear) (λ r. absurd (cc), λ e m r h. inl h)
        | inl good ↦ elim (Result-cases first.0) [
          | inr (e, r) ↦
              rw (good, r, clear)
                (λ r'. absurd (cc), λ e' m r' h. inl (q_kept ∙ h.0, t.1 e r ∙ h.1))
          | inl (u, r) ↦
              rw (good, r, clear)
                (
                  λ r'. (q.0 r', t_kept ∙ t.0 r),
                  λ e m r' h. half_cleared i w second.1 m (q.1 e r' ∙ q_kept) (t_kept ∙ t.0 r) h,
                )
        ]
      ]

  clear-none : (i : String) (w : W) → Carries i w none → Carries i (clear programs i w).1 none
  clear-none i w h =
      let (good, bad) = clear-Cleared i w in
      elim (Result-cases (clear programs i w).0) [
        | inl (u, r) ↦ good r
        | inr (e, r) ↦ elim (bad e none r h) [ inl c ↦ c | inr c ↦ c ]
      ]

  -- one command on a clean interface: it sets the impairment, or nothing
  Impaired : (interface : String) → NetworkImpairment F → Exit × W → Type 0
  Impaired i m out =
      (out.0 ≡ success → Carries i out.1 (some m))
      × (is_success out.0 ≡ false → Carries i out.1 none)

  impair-Impaired :
      (i : String) (m : NetworkImpairment F) (w : W)
      → Carries i w none
      → Impaired i m (impair programs i m w)
  unfolding impair Impaired
  impair-Impaired i (netem d l) w (q, t) =
      let kept = laws.replace_qdisc_apart i d l w ∙ t in
      (
        λ r. (laws.replace_qdisc_done i d l w r, kept),
        λ r. (laws.replace_qdisc_failed i d l w r ∙ q, kept),
      )
  impair-Impaired i (partition a b) w (q, t) =
      let kept = laws.load_table_apart i a b w ∙ q in
      (
        λ r. (kept, laws.load_table_done i a b w t r),
        λ r. (kept, laws.load_table_failed i a b w r ∙ t),
      )

  run-Impaired :
      (i : String) (m : NetworkImpairment F) (out : Exit × W)
      → Impaired i m out
      → ((run List.[] out).0 ≡ ok tt → Carries i (run List.[] out).1 (some m))
        × ((e : String) → (run List.[] out).0 ≡ err e → Carries i (run List.[] out).1 none)
  unfolding run Impaired
  run-Impaired i m (success, w) (done, failed) = (λ _. done refl, λ e r. absurd (cc))
  run-Impaired i m (failure e, w) (done, failed) = (λ r. absurd (cc), λ e' r. failed refl)
  run-Impaired i m (broken e, w) (done, failed) = (λ r. absurd (cc), λ e' r. failed refl)

  -- what `apply` leaves, by its answer
  abbrev pub Shaped :
      (interface : String) → NetworkImpairment F → W → Result String (Unit {0}) × W → Type 0
  Shaped i m w out =
      (out.0 ≡ ok tt → Carries i out.1 (some m))
      × ((e : String) → out.0 ≡ err e → Carries i w none → Carries i out.1 none)

  pub apply-Shaped :
      (i : String) (m : NetworkImpairment F) (w : W) → Shaped i m w (apply programs i m w)
  unfolding apply
  apply-Shaped i m w =
      let first = clear programs i w in
      let second = run List.[] (impair programs i m first.1) in
      elim (Bool-cases (validate_interface i)) [
        | inr bad ↦ rw (bad, apply) (λ r. absurd (cc), λ e r h. h)
        | inl good ↦ elim (Result-cases first.0) [
          | inr (e, r) ↦ rw (good, r, apply) (λ r'. absurd (cc), λ e' r' h. clear-none i w h)
          | inl (u, r) ↦
              let clean = (clear-Cleared i w).0 r in
              let (done, failed) =
                run-Impaired i m (impair programs i m first.1)
                  (impair-Impaired i m first.1 clean) in
              elim (Result-cases second.0) [
                | inl (v, k) ↦ rw (good, r, k, apply) (λ r'. done k, λ e r'. absurd (cc))
                | inr (e, k) ↦
                    rw (good, r, k, apply)
                      (λ r'. absurd (cc), λ e' r' h. clear-none i second.1 (failed e k))
              ]
        ]
      ]
