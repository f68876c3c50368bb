-- ===== src/Network/Control/Isolation.antt =====
-- crates/network-agent/src/control.rs: only its own holder changes an unexpired lease.
use simchain.Base.{
  ℕ, Bool, true, false, String, String-eq, Option, none, some, List, ◌≡◌, sym, ◌∙◌, ap, ◌==◌, leb,
}
use simchain.Network.Impairment.{FloatOps}
use simchain.Network.Control.{
  NetworkSystem, Clock, Codec, ActiveLease, NetworkControl, expire_locked, has_expired,
}
use simchain.Network.Control.Serving.{Command, serve_all, Preserved, AllAllowed, serve_all-keeps}

module _ {F W : Type 0} (system : NetworkSystem F W) (a : ActiveLease F) (w : W) (g : ℕ) where
  abbrev Untouched : NetworkControl F W → Type 0
  Untouched c = (c.active ≡ some a) × (c.network ≡ w) × (c.generation ≡ g)

  -- the lease has time left
  abbrev pub Before : Clock → Type 0
  Before clock = leb a.deadline clock.now ≡ false

  abbrev pub Other : String → Type 0
  Other id = (a.view.lease_id == id) ≡ false

  expiring-Untouched :
      (clock : Clock) (c : NetworkControl F W)
      → Before clock
      → Untouched c
      → Untouched (expire_locked system clock c)
  unfolding expire_locked
  expiring-Untouched clock c b (q, n, e) =
      let late : has_expired clock c.active ≡ false = ap (has_expired clock) q ∙ b in
      rw (late) (q, n, e)

  inactive : (c : NetworkControl F W) → c.active ≡ none → c.active ≡ some a → ⊥
  inactive c n q = let x = sym n ∙ q in cc

  -- does the active lease have this identifier
  abbrev is_named : String → Option (ActiveLease F) → Bool
  is_named id none = false
  is_named id (some x) = x.view.lease_id == id

  unnamed :
      (id : String) (b : ActiveLease F) (c : NetworkControl F W)
      → c.active ≡ some b
      → (b.view.lease_id == id) ≡ true
      → Other id
      → c.active ≡ some a
      → ⊥
  unnamed id b c qb same other qa = let x = sym same ∙ ap (is_named id) (sym qb ∙ qa) ∙ other in cc

  Untouched-Preserved : Preserved system Before Other Untouched
  Untouched-Preserved = record {
    recording = λ r c h. h;
    expiring = expiring-Untouched;
    acquiring = λ clock r print c n h. absurd (inactive c n (h.0));
    renewing = λ clock id ttl b c q same other h. absurd (unnamed id b c q same other (h.0));
    releasing = λ id rid print b c q same other h. absurd (unnamed id b c q same other (h.0));
  }

  -- While a lease is active, no sequence of commands that read the clock before its deadline changes
  -- the lease, the network or the generation, where it renews and releases other leases only and
  -- acquires any, this one included.
  pub serve_all-isolates :
      (float : FloatOps F) (codec : Codec F) (xs : List (Command F)) (c : NetworkControl F W)
      → AllAllowed Before Other xs
      → c.active ≡ some a
      → c.network ≡ w
      → c.generation ≡ g
      → ((serve_all system float codec xs c).active ≡ some a)
        × ((serve_all system float codec xs c).network ≡ w)
        × ((serve_all system float codec xs c).generation ≡ g)
  serve_all-isolates float codec xs c allowed q n e =
      serve_all-keeps system float codec Before Other Untouched Untouched-Preserved xs c allowed
        (q, n, e)
