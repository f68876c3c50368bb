-- ===== src/Network/Control/Tests.antt =====
-- crates/network-agent/src/control.rs: an agent whose system keeps the impairment, and one beside the
-- programs of its host.
use simchain.Base.{
  ℕ, true, false, String, String-eq, Option, none, some, List, [], ◌∷◌, ◌≡◌, refl, ok, leb, nat_eq,
  ltb, Bool, Bool-cases, inl, inr, ap, arith, if◌then◌else◌,
}
use simchain.Network.Impairment.{FloatOps, NetworkImpairment, netem, partition, NetworkLeaseRequest}
use simchain.Network.Control.{
  NetworkSystem, Clock, Codec, NetworkControl, new, detected, started, granted,
}
use simchain.Network.Control.Serving.{
  Command, acquires, renews, releases, expires, serve_all, AllAllowed,
}
use simchain.Network.Control.Shaping.{Agrees, serve_all-Agrees}
use simchain.Network.System.{
  Exit, success, failure, is_success, Programs, is_acceptable, missing_qdisc, run, clear,
  command_network_system,
}
use simchain.Network.System.Clearing.{Shaping}
use simchain.Network.Control.Isolation.{Before, Other, serve_all-isolates}

-- a percentage is a natural number
abbrev percent : FloatOps ℕ
percent = record {
  is_finite = λ _. true;
  is_percentage = λ p. leb p 100;
  is_positive = ltb 0;
  same = nat_eq;
}

abbrev Shape : Type 0
Shape = Option (NetworkImpairment ℕ)

abbrev working : NetworkSystem ℕ Shape
working = record {
  detect_p2p_interface = λ w. (ok "eth1", w);
  apply = λ i m w. (ok tt, some m);
  clear = λ i w. (ok tt, none);
}

abbrev codec : Codec ℕ
codec = record {
  acquire_json = λ r. r.request_id;
  renew_json = λ r. r.request_id;
  release_json = λ r. r.request_id;
}

abbrev at : ℕ → Clock
at t = record { now = t; now_ms = t }

abbrev slow : NetworkLeaseRequest ℕ
slow = record {
  lease_id = "slow";
  owner_job_id = "job-1";
  purpose = "scenario";
  ttl_secs = 10;
  request_id = "r-1";
  impairment = netem 200 5;
}

abbrev cut : NetworkLeaseRequest ℕ
cut = record {
  lease_id = "cut";
  owner_job_id = "job-2";
  purpose = "scenario";
  ttl_secs = 10;
  request_id = "r-2";
  impairment = partition true false;
}

abbrev idle : NetworkControl ℕ Shape
idle = record {
  interface = "eth1";
  network = none;
  generation = 0;
  active = none;
  last_error = none;
  requests = record { completed = []; order = [] };
}

abbrev busy : NetworkControl ℕ Shape
busy = record idle {
  active = some (granted (at 0) slow);
  network = some (netem 200 5);
  generation = 1;
}

abbrev others : List (Command ℕ)
others =
    acquires (at 10) cut
    ∷ renews (at 15) "cut" (record { ttl_secs = 9; request_id = "r-4" })
    ∷ releases (at 20) "cut" (record { request_id = "r-3" })
    ∷ expires (at 9999)
    ∷ []

others-Allowed :
    AllAllowed
      (Before working (granted (at 0) slow) (some (netem 200 5)) 1)
      (Other working (granted (at 0) slow) (some (netem 200 5)) 1)
      others
unfolding AllAllowed
others-Allowed = (refl, ((refl, refl), ((refl, refl), (refl, tt))))

serve_all-isolates_example :
    ((serve_all working percent codec others busy).active ≡ some (granted (at 0) slow))
    × ((serve_all working percent codec others busy).network ≡ some (netem 200 5))
    × ((serve_all working percent codec others busy).generation ≡ 1)
serve_all-isolates_example =
    serve_all-isolates working (granted (at 0) slow) (some (netem 200 5)) 1 percent codec others
      busy others-Allowed refl refl refl

-- the discipline and the drops of the one interface
abbrev Kernel : Type 0
Kernel = Option (ℕ × ℕ) × Option (Bool × Bool)

abbrev delete_drops : Kernel → Exit × Kernel
delete_drops (q, none) = (failure "No such file or directory", (q, none))
delete_drops (q, some t) = (success, (q, none))

-- a discipline with a delay of 13 cannot be deleted
abbrev delete_discipline : Kernel → Exit × Kernel
delete_discipline (none, t) = (failure "Cannot delete qdisc with handle of zero", (none, t))
delete_discipline (some (d, l), t) =
    if nat_eq d 13
    then (failure "Operation not permitted", (some (d, l), t))
    else (success, (none, t))

abbrev linux : Programs ℕ Kernel
linux = record {
  route_interface = λ w. (ok "eth1", w);
  replace_qdisc = λ i d l w. (success, (some (d, l), w.1));
  load_table = λ i a b w. (success, (w.0, some (a, b)));
  delete_table = delete_drops;
  delete_qdisc = λ i. delete_discipline;
}

not_failure : (e : String) → success ≡ failure e → ⊥
not_failure e q = cc

drops_apart : (w : Kernel) → (delete_drops w).1.0 ≡ w.0
drops_apart (q, none) = refl
drops_apart (q, some t) = refl

drops_done : (w : Kernel) → (delete_drops w).0 ≡ success → (delete_drops w).1.1 ≡ none
drops_done (q, none) h = refl
drops_done (q, some t) h = refl

drops_failed : (w : Kernel) → is_success (delete_drops w).0 ≡ false → (delete_drops w).1.1 ≡ w.1
drops_failed (q, none) h = refl
drops_failed (q, some t) h = absurd (cc)

drops_missing : (w : Kernel) (e : String) → (delete_drops w).0 ≡ failure e → w.1 ≡ none
drops_missing (q, none) e h = refl
drops_missing (q, some t) e h = absurd (not_failure e h)

discipline_apart : (w : Kernel) → (delete_discipline w).1.1 ≡ w.1
discipline_apart (none, t) = refl
discipline_apart (some (d, l), t) = ground arith

discipline_done :
    (w : Kernel) → (delete_discipline w).0 ≡ success → (delete_discipline w).1.0 ≡ none
discipline_done (none, t) h = refl
discipline_done (some (d, l), t) h = ground arith

discipline_failed :
    (w : Kernel) → is_success (delete_discipline w).0 ≡ false → (delete_discipline w).1.0 ≡ w.0
discipline_failed (none, t) h = refl
discipline_failed (some (d, l), t) h = ground arith

refused_differently :
    (e : String)
    → failure "Operation not permitted" ≡ failure e
    → is_acceptable missing_qdisc e ≡ true
    → ⊥
refused_differently e q h =
    let same : "Operation not permitted" ≡ e = cc in
    absurd (cc (h, ap (is_acceptable missing_qdisc) same))

discipline_missing :
    (w : Kernel) (e : String)
    → (delete_discipline w).0 ≡ failure e
    → is_acceptable missing_qdisc e ≡ true
    → w.0 ≡ none
discipline_missing (none, t) e h known = refl
discipline_missing (some (d, l), t) e h known = elim (Bool-cases (nat_eq d 13)) [
  | inl q ↦ absurd (refused_differently e (rw q at h) known)
  | inr q ↦ absurd (not_failure e (rw q at h))
]

linux-Shaping : Shaping linux (λ i w. w.0) (λ i w. w.1)
linux-Shaping = record {
  delete_table_apart = λ i w. drops_apart w;
  delete_table_done = λ i w h. drops_done w h;
  delete_table_failed = λ i w h. drops_failed w h;
  delete_table_missing = λ i w e h known. drops_missing w e h;
  delete_qdisc_apart = λ i w. discipline_apart w;
  delete_qdisc_done = λ i w h. discipline_done w h;
  delete_qdisc_failed = λ i w h. discipline_failed w h;
  delete_qdisc_missing = λ i w e h known. discipline_missing w e h known;
  replace_qdisc_apart = λ i d l w. refl;
  replace_qdisc_done = λ i d l w h. refl;
  replace_qdisc_failed = λ i d l w h. absurd (cc);
  load_table_apart = λ i a b w. refl;
  load_table_done = λ i a b w n h. refl;
  load_table_failed = λ i a b w h. absurd (cc);
}

-- the agent starts on an interface that still drops everything
abbrev fresh : NetworkControl ℕ Kernel
fresh = record {
  interface = "eth1";
  network = (none, none);
  generation = 0;
  active = none;
  last_error = none;
  requests = record { completed = []; order = [] };
}

fresh-started : new (command_network_system linux) (none, some (true, true)) ≡ ok fresh
unfolding new detected started clear run
fresh-started = refl

abbrev commands : List (Command ℕ)
commands =
    acquires (at 0) slow
    ∷ acquires (at 10) cut
    ∷ releases (at 20) "cut" (record { request_id = "r-3" })
    ∷ expires (at 20000)
    ∷ acquires (at 20001) cut
    ∷ []

serve_all-Agrees_example :
    Agrees linux
      (λ i w. w.0)
      (λ i w. w.1)
      linux-Shaping
      (serve_all (command_network_system linux) percent codec commands fresh)
serve_all-Agrees_example =
    serve_all-Agrees linux (λ i w. w.0) (λ i w. w.1) linux-Shaping percent codec
      (none, some (true, true)) fresh commands fresh-started
