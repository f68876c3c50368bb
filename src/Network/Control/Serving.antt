-- ===== src/Network/Control/Serving.antt =====
-- crates/network-agent/src/control.rs: the agent under any sequence of requests and of the expiry
-- worker's turns, and what such a sequence preserves.
use simchain.Base.{
  ℕ, Bool, true, false, ◌&&◌, not, String, String-eq, Option, none, some, List, [], ◌∷◌, ◌≡◌, refl,
  Result, ok, err, ltb, leb, if-intro, ◌==◌,
}
use simchain.Base.Text.{is_blank}
use simchain.Api.{LeaseRenewRequest}
use simchain.Requests.{Requests}
use simchain.Network.Impairment.{
  FloatOps, NetworkLeaseRequest, NetworkLeaseReleaseRequest, NetworkCommandAck, Refusal,
  max_lease_ttl_secs, same_impairment, validate_acquire,
}
use simchain.Network.Control.{
  NetworkSystem, Clock, Codec, ActiveLease, NetworkControl, Answer, acknowledge, unless_replayed,
  expire_locked, applied, acquire_beside, acquire_valid, acquire, renewed, renew_beside, renew,
  cleared, release_beside, release,
}

pub data Command (F : Type 0) : Type 0 where
  acquires : Clock → NetworkLeaseRequest F → Command F
  renews : Clock → (lease_id : String) → LeaseRenewRequest → Command F
  releases : Clock → (lease_id : String) → NetworkLeaseReleaseRequest → Command F
  -- `expire_if_needed`, of the expiry worker and of `status`
  expires : Clock → Command F

module _ {F W : Type 0} (system : NetworkSystem F W) (float : FloatOps F) (codec : Codec F) where
  unfoldable pub serve : Command F → NetworkControl F W → NetworkControl F W
  serve (acquires clock request) c = (acquire system float codec clock request c).0
  serve (renews clock lease_id request) c = (renew system codec clock lease_id request c).0
  serve (releases clock lease_id request) c = (release system codec clock lease_id request c).0
  serve (expires clock) c = expire_locked system clock c

  unfoldable pub serve_all : List (Command F) → NetworkControl F W → NetworkControl F W
  serve_all [] c = c
  serve_all (x ∷ xs) c = serve_all xs (serve x c)

-- a property of the state that a handler leaves
unfoldable pub After : {F W : Type 0} → (NetworkControl F W → Type 0) → Answer F W → Type 0
After Q out = Q out.0

pub after :
    {F W : Type 0} (Q : NetworkControl F W → Type 0) (out : Answer F W) → After Q out → Q out.0
unfolding After
after Q out h = h

pub ends :
    {F W : Type 0} (Q : NetworkControl F W → Type 0) (c : NetworkControl F W)
    (r : Result Refusal NetworkCommandAck)
    → Q c
    → After Q (c, r)
unfolding After
ends Q c r h = h

-- A property that each change of the state preserves, where the clock and the lease that a command
-- names meet a condition.
pub record Preserved {F W : Type 0} (system : NetworkSystem F W) (Timely : Clock → Type 0)
    (Free : String → Type 0) (Q : NetworkControl F W → Type 0) : Type 0 where
  pub recording :
      (r : Requests NetworkCommandAck) (c : NetworkControl F W)
      → Q c
      → Q (record c { requests = r })
  pub expiring :
      (clock : Clock) (c : NetworkControl F W)
      → Timely clock
      → Q c
      → Q (expire_locked system clock c)
  pub acquiring :
      (clock : Clock) (request : NetworkLeaseRequest F) (print : String) (c : NetworkControl F W)
      → c.active ≡ none
      → Q c
      → After Q
          (applied clock request print c (system.apply c.interface request.impairment c.network))
  pub renewing :
      (clock : Clock) (id : String) (ttl_secs : ℕ) (a : ActiveLease F) (c : NetworkControl F W)
      → c.active ≡ some a
      → (a.view.lease_id == id) ≡ true
      → Free id
      → Q c
      → Q (record c { active = some (renewed clock ttl_secs a) })
  pub releasing :
      (id request_id print : String) (a : ActiveLease F) (c : NetworkControl F W)
      → c.active ≡ some a
      → (a.view.lease_id == id) ≡ true
      → Free id
      → Q c
      → After Q (cleared request_id print c (system.clear c.interface c.network))

abbrev pub Allows : {F : Type 0} → (Clock → Type 0) → (String → Type 0) → Command F → Type 0
Allows T R (acquires clock request) = T clock
Allows T R (renews clock id request) = T clock × R id
Allows T R (releases clock id request) = T clock × R id
Allows T R (expires clock) = T clock

unfoldable pub AllAllowed :
    {F : Type 0} → (Clock → Type 0) → (String → Type 0) → List (Command F) → Type 0
AllAllowed T R [] = Unit
AllAllowed T R (x ∷ xs) = Allows T R x × AllAllowed T R xs

module _ {F W : Type 0} (system : NetworkSystem F W) (float : FloatOps F) (codec : Codec F)
    (T : Clock → Type 0) (R : String → Type 0) (Q : NetworkControl F W → Type 0)
    (kept : Preserved system T R Q) where
  acknowledge-After :
      (id print : String) (b : Bool) (c : NetworkControl F W)
      → Q c
      → After Q (acknowledge id print b c)
  unfolding acknowledge
  acknowledge-After id print b c h = ends Q _ _ (kept.recording _ c h)

  unless_replayed-After :
      (found : Result Refusal (Option NetworkCommandAck)) (c : NetworkControl F W)
      (rest : Answer F W)
      → Q c
      → After Q rest
      → After Q (unless_replayed found c rest)
  unfolding unless_replayed
  unless_replayed-After (err e) c rest h r = ends Q c _ h
  unless_replayed-After (ok (some ack)) c rest h r = ends Q c _ h
  unless_replayed-After (ok none) c rest h r = r

  acquire_beside-After :
      (clock : Clock) (request : NetworkLeaseRequest F) (print : String) (c : NetworkControl F W)
      (active : Option (ActiveLease F))
      → c.active ≡ active
      → Q c
      → After Q (acquire_beside system float clock request print c active)
  unfolding acquire_beside
  acquire_beside-After clock request print c none q h = kept.acquiring clock request print c q h
  acquire_beside-After clock request print c (some a) q h =
      if-intro (After Q)
        (a.view.lease_id == request.lease_id
          && a.view.owner_job_id == request.owner_job_id
          && a.view.purpose == request.purpose
          && same_impairment float a.view.impairment request.impairment)
        _ _ (λ _. acknowledge-After request.request_id print true c h) (λ _. ends Q c _ h)

  acquire_valid-After :
      (clock : Clock) (request : NetworkLeaseRequest F) (c : NetworkControl F W)
      (refusal : Option Refusal)
      → T clock
      → Q c
      → After Q (acquire_valid system float codec clock request c refusal)
  unfolding acquire_valid
  acquire_valid-After clock request c (some e) t h = ends Q c _ h
  acquire_valid-After clock request c none t h =
      let live = expire_locked system clock c in
      let hl = kept.expiring clock c t h in
      unless_replayed-After _ live _ hl
        (acquire_beside-After clock request _ live live.active refl hl)

  renew_beside-After :
      (clock : Clock) (id : String) (request : LeaseRenewRequest) (print : String)
      (c : NetworkControl F W) (active : Option (ActiveLease F))
      → c.active ≡ active
      → R id
      → Q c
      → After Q (renew_beside clock id request print c active)
  unfolding renew_beside
  renew_beside-After clock id request print c none q r h = ends Q c _ h
  renew_beside-After clock id request print c (some a) q r h =
      if-intro (After Q) (a.view.lease_id == id) _ _
        (λ same.
          acknowledge-After request.request_id print true
            (record c { active = some (renewed clock request.ttl_secs a) })
            (kept.renewing clock id request.ttl_secs a c q same r h))
        (λ _. ends Q c _ h)

  release_beside-After :
      (id request_id print : String) (c : NetworkControl F W) (active : Option (ActiveLease F))
      → c.active ≡ active
      → R id
      → Q c
      → After Q (release_beside system id request_id print c active)
  unfolding release_beside
  release_beside-After id request_id print c none q r h =
      acknowledge-After request_id print false c h
  release_beside-After id request_id print c (some a) q r h =
      if-intro (After Q) (a.view.lease_id == id) _ _
        (λ same. kept.releasing id request_id print a c q same r h) (λ _. ends Q c _ h)

  renew-After :
      (clock : Clock) (id : String) (request : LeaseRenewRequest) (c : NetworkControl F W)
      → T clock
      → R id
      → Q c
      → After Q (renew system codec clock id request c)
  unfolding renew
  renew-After clock id request c t r h =
      let live = expire_locked system clock c in
      let hl = kept.expiring clock c t h in
      if-intro (After Q) (is_blank id) _ _ (λ _. ends Q c _ h)
        λ _.
          if-intro (After Q) (not (ltb 0 request.ttl_secs)) _ _ (λ _. ends Q c _ h)
            λ _.
              if-intro (After Q) (not (leb request.ttl_secs max_lease_ttl_secs)) _ _
                (λ _. ends Q c _ h)
                λ _.
                  if-intro (After Q) (is_blank request.request_id) _ _ (λ _. ends Q c _ h)
                    λ _.
                      unless_replayed-After _ live _ hl
                        (renew_beside-After clock id request _ live live.active refl r hl)

  release-After :
      (clock : Clock) (id : String) (request : NetworkLeaseReleaseRequest) (c : NetworkControl F W)
      → T clock
      → R id
      → Q c
      → After Q (release system codec clock id request c)
  unfolding release
  release-After clock id request c t r h =
      let live = expire_locked system clock c in
      let hl = kept.expiring clock c t h in
      if-intro (After Q) (is_blank id) _ _ (λ _. ends Q c _ h)
        λ _.
          if-intro (After Q) (is_blank request.request_id) _ _ (λ _. ends Q c _ h)
            λ _.
              unless_replayed-After _ live _ hl
                (release_beside-After id request.request_id _ live live.active refl r hl)

  serve-keeps :
      (x : Command F) (c : NetworkControl F W)
      → Allows T R x
      → Q c
      → Q (serve system float codec x c)
  unfolding serve acquire
  serve-keeps (acquires clock request) c a h =
      after Q _ (acquire_valid-After clock request c (validate_acquire float request) a h)
  serve-keeps (renews clock id request) c (a, r) h =
      after Q _ (renew-After clock id request c a r h)
  serve-keeps (releases clock id request) c (a, r) h =
      after Q _ (release-After clock id request c a r h)
  serve-keeps (expires clock) c a h = kept.expiring clock c a h

  pub serve_all-keeps :
      (xs : List (Command F)) (c : NetworkControl F W)
      → AllAllowed T R xs
      → Q c
      → Q (serve_all system float codec xs c)
  unfolding serve_all AllAllowed
  serve_all-keeps [] c a h = h
  serve_all-keeps (x ∷ xs) c (a, more) h =
      serve_all-keeps xs (serve system float codec x c) more (serve-keeps x c a h)
