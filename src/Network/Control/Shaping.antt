-- ===== src/Network/Control/Shaping.antt =====
-- crates/network-agent/src/control.rs: the impairment of the interface is the one of the lease, or the
-- agent shows an error.
use Prim.Native.String.{◌++◌ as append}
use simchain.Base.{
  ℕ, Bool, true, subst, String, Option, none, some, is_some, List, ◌≡◌, ◌⊎◌, inl, inr, refl, ◌∙◌,
  ap, Result, ok, err, if-intro,
}
use simchain.Network.Impairment.{FloatOps, NetworkImpairment, NetworkLeaseRequest, system_failed}
use simchain.Network.System.{Programs, command_network_system}
use simchain.Network.System.Clearing.{
  Shaping, qdisc_of, table_of, Carries, Cleared, Shaped, clear-Cleared, apply-Shaped,
}
use simchain.Network.Control.{
  Clock, Codec, ActiveLease, NetworkControl, acknowledge, expire_locked, has_expired, healed,
  applied, cleared, new, detected, started,
}
use simchain.Network.Control.Serving.{
  Command, serve_all, After, ends, Preserved, AllAllowed, acquires, renews, releases, expires,
  serve_all-keeps,
}

-- the impairment that a lease asks for
abbrev pub impairment_of : {F : Type 0} → Option (ActiveLease F) → Option (NetworkImpairment F)
impairment_of none = none
impairment_of (some active) = some active.view.impairment

module _ {F W : Type 0} (programs : Programs F W) (qdisc : String → W → Option (ℕ × F))
    (table : String → W → Option (Bool × Bool)) (laws : Shaping programs qdisc table) where
  -- The interface carries exactly the impairment of the active lease, and none where no lease is
  -- active; or the agent shows an error, and the interface carries none.
  abbrev pub Agrees : NetworkControl F W → Type 0
  Agrees c =
      ((qdisc c.interface c.network ≡ qdisc_of (impairment_of c.active))
        × (table c.interface c.network ≡ table_of (impairment_of c.active)))
      ⊎ ((is_some c.last_error ≡ true)
          × (qdisc c.interface c.network ≡ none)
          × (table c.interface c.network ≡ none))

  abbrev Carried : String → W → Option (NetworkImpairment F) → Type 0
  Carried = Carries programs qdisc table laws

  -- an error of the system, which the agent shows, while the lease stays
  kept-Agrees :
      (c : NetworkControl F W) (e message : String) (w : W)
      → ((m : Option (NetworkImpairment F))
          → Carried c.interface c.network m
          → Carried c.interface w m ⊎ Carried c.interface w none)
      → Agrees c
      → Agrees (record c { network = w; last_error = some message })
  kept-Agrees c e message w bad (inl h) = elim (bad (impairment_of c.active) h) [
    | inl k ↦ inl k
    | inr k ↦ inr (refl, k.0, k.1)
  ]
  kept-Agrees c e message w bad (inr (_, q, t)) = elim (bad none (q, t)) [
    | inl k ↦ inr (refl, k.0, k.1)
    | inr k ↦ inr (refl, k.0, k.1)
  ]

  healed-Agrees :
      (c : NetworkControl F W) (out : Result String (Unit {0}) × W)
      → Cleared programs qdisc table laws c.interface c.network out
      → Agrees c
      → Agrees (healed c out)
  unfolding healed
  healed-Agrees c (ok _, w) (good, bad) h = inl (good refl)
  healed-Agrees c (err e, w) (good, bad) h = kept-Agrees c e e w (λ m. bad e m refl) h

  cleared-Agrees :
      (id print : String) (c : NetworkControl F W) (out : Result String (Unit {0}) × W)
      → Cleared programs qdisc table laws c.interface c.network out
      → Agrees c
      → After Agrees (cleared id print c out)
  unfolding cleared acknowledge
  cleared-Agrees id print c (ok _, w) (good, bad) h = ends Agrees _ _ (inl (good refl))
  cleared-Agrees id print c (err e, w) (good, bad) h =
      ends Agrees _ _ (kept-Agrees c e e w (λ m. bad e m refl) h)

  -- without a lease the interface carries nothing
  idle-carries :
      (c : NetworkControl F W) → c.active ≡ none → Agrees c → Carried c.interface c.network none
  idle-carries c n (inl (q, t)) =
      (q ∙ ap (λ a. qdisc_of (impairment_of a)) n, t ∙ ap (λ a. table_of (impairment_of a)) n)
  idle-carries c n (inr (_, q, t)) = (q, t)

  applied-Agrees :
      (clock : Clock) (r : NetworkLeaseRequest F) (print : String) (c : NetworkControl F W)
      (out : Result String (Unit {0}) × W)
      → Shaped programs qdisc table laws c.interface r.impairment c.network out
      → c.active ≡ none
      → Agrees c
      → After Agrees (applied clock r print c out)
  unfolding applied acknowledge
  applied-Agrees clock r print c (ok _, w) (good, bad) n h = ends Agrees _ _ (inl (good refl))
  applied-Agrees clock r print c (err e, w) (good, bad) n h =
      let clean = bad e refl (idle-carries c n h) in
      ends Agrees
        (record c { network = w; last_error = some (append "failed to apply impairment: " e) })
        (err (system_failed e)) (inr (refl, clean.0, clean.1))

  abbrev Anything : {A : Type 0} → A → Type 0
  Anything _ = Unit

  renewed-Agrees :
      (c : NetworkControl F W) (lease : Option (ActiveLease F))
      → impairment_of c.active ≡ impairment_of lease
      → Agrees c
      → Agrees (record c { active = lease })
  renewed-Agrees c lease q (inl (a, b)) = inl (a ∙ ap qdisc_of q, b ∙ ap table_of q)
  renewed-Agrees c lease q (inr h) = inr h

  Agrees-Preserved : Preserved (command_network_system programs) Anything Anything Agrees
  unfolding expire_locked
  Agrees-Preserved = record {
    recording = λ r c h. h;
    expiring = λ clock c _ h.
        if-intro Agrees (has_expired clock c.active)
          (healed c ((command_network_system programs).clear c.interface c.network)) c
          (λ _.
            healed-Agrees c ((command_network_system programs).clear c.interface c.network)
              (clear-Cleared programs qdisc table laws c.interface c.network) h)
          (λ _. h);
    acquiring = λ clock r print c n h.
        applied-Agrees clock r print c
          ((command_network_system programs).apply c.interface r.impairment c.network)
          (apply-Shaped programs qdisc table laws c.interface r.impairment c.network) n h;
    renewing = λ clock id ttl a c q same _ h. renewed-Agrees c (some a) (ap impairment_of q) h;
    releasing = λ id rid print a c q same _ h.
        cleared-Agrees rid print c ((command_network_system programs).clear c.interface c.network)
          (clear-Cleared programs qdisc table laws c.interface c.network) h;
  }

  anything : (xs : List (Command F)) → AllAllowed Anything Anything xs
  unfolding AllAllowed
  anything List.[] = tt
  anything (List.◌∷◌ (acquires _ _) xs) = (tt, anything xs)
  anything (List.◌∷◌ (renews _ _ _) xs) = ((tt, tt), anything xs)
  anything (List.◌∷◌ (releases _ _ _) xs) = ((tt, tt), anything xs)
  anything (List.◌∷◌ (expires _) xs) = (tt, anything xs)

  AgreesWhere : Result String (NetworkControl F W) → Type 0
  AgreesWhere (ok c) = Agrees c
  AgreesWhere (err e) = Unit

  started-Agrees :
      (i : String) (out : Result String (Unit {0}) × W) (c : NetworkControl F W)
      → (out.0 ≡ ok tt → Carried i out.1 none)
      → started i out ≡ ok c
      → Agrees c
  unfolding started AgreesWhere
  started-Agrees i (err e, w) c good q = absurd (cc)
  started-Agrees i (ok _, w) c good q = subst AgreesWhere q (inl (good refl))

  detected-Agrees :
      (out : Result String String × W) (c : NetworkControl F W)
      → detected (command_network_system programs) out ≡ ok c
      → Agrees c
  unfolding detected
  detected-Agrees (err e, w) c q = absurd (cc)
  detected-Agrees (ok i, w) c q =
      started-Agrees i ((command_network_system programs).clear i w) c
        (clear-Cleared programs qdisc table laws i w).0 q

  -- Let `nft` and `tc` keep their laws. An agent that starts, whatever the interface carried before,
  -- and then serves any sequence of requests and expiries, each with any reading of the clock and any
  -- success or failure of the programs, has on its interface exactly the impairment of its active
  -- lease, and none where no lease is active; or it shows an error, and the interface carries none.
  pub serve_all-Agrees :
      (float : FloatOps F) (codec : Codec F) (w : W) (c : NetworkControl F W)
      (xs : List (Command F))
      → new (command_network_system programs) w ≡ ok c
      → Agrees (serve_all (command_network_system programs) float codec xs c)
  unfolding new
  serve_all-Agrees float codec w c xs q =
      serve_all-keeps (command_network_system programs) float codec Anything Anything Agrees
        Agrees-Preserved xs c (anything xs) (detected-Agrees (programs.route_interface w) c q)
