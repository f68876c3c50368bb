-- ===== src/ControlPlane/Jobs/Order.antt =====
-- crates/control-plane/src/job_store.rs: events with rising sequence numbers are read as they stand.
use simchain.Base.{ℕ, ◌<◌, List, [], ◌∷◌, ◌++◌, ◌≡◌, refl, ap, ◌∙◌, arith, All}
use simchain.ControlPlane.Jobs.{
  JobEvent, insert_by_sequence, sort_by_sequence, dedup_after, dedup_by_sequence,
}

module _ {Value : Type 0} where
  -- the sequence numbers rise
  abbrev pub Rising : List (JobEvent Value) → Type 0
  Rising [] = Unit
  Rising (e ∷ es) = All (λ f. e.sequence < f.sequence) es × Rising es

  dedup_after-Rising :
      (k : ℕ) (es : List (JobEvent Value))
      → All (λ f. k < f.sequence) es
      → Rising es
      → dedup_after k es ≡ es
  unfolding dedup_after
  dedup_after-Rising k [] h r = refl
  dedup_after-Rising k (e ∷ es) (h, hs) (r, rs) =
      ground (arith, dedup_after-Rising e.sequence es r rs)

  pub dedup-Rising : (es : List (JobEvent Value)) → Rising es → dedup_by_sequence es ≡ es
  unfolding dedup_by_sequence
  dedup-Rising [] r = refl
  dedup-Rising (e ∷ es) (r, rs) = ap (λ fs. e ∷ fs) (dedup_after-Rising e.sequence es r rs)

  insert-Rising :
      (e : JobEvent Value) (es : List (JobEvent Value))
      → All (λ f. e.sequence < f.sequence) es
      → insert_by_sequence e es ≡ e ∷ es
  unfolding insert_by_sequence
  insert-Rising e [] h = refl
  insert-Rising e (f ∷ fs) (h, hs) = ground arith

  pub sort-Rising : (es : List (JobEvent Value)) → Rising es → sort_by_sequence es ≡ es
  unfolding sort_by_sequence
  sort-Rising [] r = refl
  sort-Rising (e ∷ es) (r, rs) =
      ap (insert_by_sequence e) (sort-Rising es rs) ∙ insert-Rising e es r

  pub Rising-drop : (xs ys : List (JobEvent Value)) → Rising (xs ++ ys) → Rising ys
  Rising-drop [] ys r = r
  Rising-drop (x ∷ xs) ys (r, rs) = Rising-drop xs ys rs
