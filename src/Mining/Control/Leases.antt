-- ===== src/Mining/Control/Leases.antt =====
-- crates/mining-controller/src/control.rs: a lease excludes block generation until its deadline,
-- whatever other requests arrive.
use simchain.Base.{
  String, String-eq, Bool, true, false, not, some, List, [], ◌∷◌, ◌≡◌, refl, arith, ltb, ◌==◌, ◌∙◌,
  sym, ap,
}
use simchain.Base.Table.{lookup, retain, lookup-insert, lookup-remove}
use simchain.Mining.Control.{
  PolicyOps, Clock, Inner, LeaseEntry, expire_leases, is_effectively_paused, pause_requested,
  is_empty,
}
use simchain.Mining.Control.Waiting.{Codec}
use simchain.Mining.Control.Step.{Turn, take, take_all}
use simchain.Mining.Control.Handlers.{Preserved}
use simchain.Mining.Control.Turns.{Allows, take-keeps}
use simchain.Mining.Control.Pause.{take-pause_holds}

lookup-retain :
    (p : LeaseEntry → Bool) (id : String) (lease : LeaseEntry) (m : List (String × LeaseEntry))
    → lookup id m ≡ some lease
    → p lease ≡ true
    → lookup id (retain p m) ≡ some lease
unfolding lookup retain
lookup-retain p id lease [] h k = absurd (cc)
lookup-retain p id lease ((j, v) ∷ m) h k = ground (arith, lookup-retain p id lease m)

not_empty :
    (id : String) (lease : LeaseEntry) (m : List (String × LeaseEntry))
    → lookup id m ≡ some lease
    → not (is_empty m) ≡ true
unfolding lookup
not_empty id lease [] h = absurd (cc)
not_empty id lease (_ ∷ m) h = refl

-- the lease has time left
abbrev pub Before : (lease : LeaseEntry) → Clock → Type 0
Before lease clock = ltb clock.now lease.deadline ≡ true

abbrev pub Other : (id j : String) → Type 0
Other id j = (j == id) ≡ false

module _ {P : Type 0} (id : String) (lease : LeaseEntry) where
  abbrev pub Holding : Inner P → Type 0
  Holding inner = lookup id inner.leases ≡ some lease

  Holding-Preserved : Preserved (Before lease) (Other id) Holding
  unfolding expire_leases
  Holding-Preserved = record {
    expiring = λ clock inner b h. lookup-retain _ id lease inner.leases h b;
    remembering = λ _ f inner h. h;
    desiring = λ s inner h. h;
    pausing = λ inner h. h;
    inserting = λ j other inner o h. lookup-insert j id other inner.leases ∙ rw (o) h;
    removing = λ j inner o h. lookup-remove j id inner.leases ∙ rw (o) h;
    queueing = λ p inner h. h;
  }

  held : (inner : Inner P) → Holding inner → pause_requested inner ≡ true
  held inner h = let n = not_empty id lease inner.leases h in ground arith

module _ {P : Type 0} (ops : PolicyOps P) (codec : Codec P) (id : String) (lease : LeaseEntry) where
  abbrev pub Undisturbed : Turn P → Type 0
  Undisturbed = Allows (Before lease) (Other id)

  take-Holding :
      (t : Turn P) (inner : Inner P)
      → Undisturbed t
      → Holding id lease inner
      → Holding id lease (take ops codec t inner)
  take-Holding t inner u h =
      take-keeps ops codec (Before lease) (Other id) (Holding id lease) (Holding-Preserved id lease)
        (λ a b l _ k. ap (lookup id) (sym l) ∙ k) t inner u h

  unfoldable pub AllUndisturbed : List (Turn P) → Type 0
  AllUndisturbed [] = Unit
  AllUndisturbed (t ∷ ts) = Undisturbed t × AllUndisturbed ts

  -- Let the worker be effectively paused while a lease stands in the table. After any sequence of
  -- turns of the worker and of requests, none of which acquires, renews, releases or rolls back
  -- that lease and each of which reads the clock before its deadline, the lease stands in the
  -- table unchanged and the worker is still effectively paused.
  pub take_all-lease_holds :
      (ts : List (Turn P)) (inner : Inner P)
      → AllUndisturbed ts
      → lookup id inner.leases ≡ some lease
      → is_effectively_paused inner ≡ true
      → (lookup id (take_all ops codec ts inner).leases ≡ some lease)
        × (is_effectively_paused (take_all ops codec ts inner) ≡ true)
  unfolding take_all AllUndisturbed
  take_all-lease_holds [] inner _ h p = (h, p)
  take_all-lease_holds (t ∷ ts) inner (u, us) h p =
      let h' = take-Holding t inner u h in
      take_all-lease_holds ts (take ops codec t inner) us h'
        (take-pause_holds ops codec t inner p (held id lease (take ops codec t inner) h'))
