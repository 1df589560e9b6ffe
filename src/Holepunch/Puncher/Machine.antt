-- ===== src/Holepunch/Puncher/Machine.antt =====
-- What the timer, the probes that arrive and the caller make of a `Holepuncher` of holepunch.cpp.
use hyperdht_cpp.Prelude.{
  ℕ, ◌+◌, Bool, true, false, ◌&&◌, ◌||◌, not, Option, none, some, is_some, List, [], ◌∷◌,
  if◌then◌else◌, ltb, leb, ◌==◌,
}
use mathlib.Core.List.{reverse}
use hyperdht_cpp.Compact.Address.{Address}
use hyperdht_cpp.Routing.Id.{id_eq}
use hyperdht_cpp.Holepunch.Puncher.{
  PunchStats, Puncher, Surroundings, birthday_sockets, count_consistent, count_random,
  decrement_randomized, destroy, firewall_random, firewall_unknown, increment_randomized, is_done,
  is_throttled, max_reopens, random_probes_count, send_probe, stop, update_from, verified_remote,
}
use hyperdht_cpp.Holepunch.Puncher.Strategy.{
  consistent_probe, keep_alive_random_nat, open_birthday_sockets, random_probes,
}

abbrev pub is_host : Option (List ℕ) → List ℕ → Bool
is_host none host = false
is_host (some verified_host) host = id_eq host verified_host

abbrev pub update_remote : List Address → Option (List ℕ) → Puncher → Puncher
update_remote addrs verified_host p = record p {
  remote_addresses = reverse (update_from [] addrs (is_host verified_host));
}

abbrev pub keep_winner : Bool → Puncher → Puncher
keep_winner has_ref p = if has_ref && ltb 0 p.holders then record p { holders = 1 } else p

abbrev pub report : Address → Puncher → Puncher
report from p =
    if p.on_connect
    then record p {
      on_connect = false;
      results = record { address = from; firewall = p.remote_firewall } ∷ p.results;
    }
    else p

-- A probe has come in, at a holder or not.
unfoldable pub on_message : ℕ → Address → Bool → Puncher → Puncher
on_message now from has_ref p =
    if p.connected || p.destroyed
    then p
    else if not p.is_initiator
    then send_probe from p
    else report from (
        decrement_randomized now
          (keep_winner has_ref (record p { connected = true; punching = false; armed = false })))

-- Which of the phases the timer goes on with.
unfoldable pub on_punch_timer : Surroundings → Puncher → Puncher
on_punch_timer env p =
    if is_done p
    then p
    else if ltb 0 p.holders
        && (ltb p.holders birthday_sockets && (p.local_firewall == firewall_random))
    then open_birthday_sockets env p
    else if leb birthday_sockets p.holders
    then keep_alive_random_nat env p
    else if ltb 0 p.random_probes_left
    then random_probes env p
    else consistent_probe env.now p

abbrev pub is_consistent : ℕ → Bool
is_consistent firewall = not (firewall == firewall_random)

abbrev pub punch_consistent : ℕ → Puncher → Puncher
punch_consistent now p =
    consistent_probe now
      (record p { stats = count_consistent p.stats; punching = true; punch_round = 0 })

abbrev pub punch_random : Surroundings → Puncher → Puncher
punch_random env p =
    let counted = increment_randomized (record p { stats = count_random p.stats }) in
    random_probes env (record counted { punching = true; random_probes_left = random_probes_count })

abbrev pub punch_birthday : Surroundings → Puncher → Puncher
punch_birthday env p =
    open_birthday_sockets env
      (record (increment_randomized (record p { stats = count_random p.stats })) {
        punching = true;
      })

-- `RANDOM` on the other side: unless the stats hold it back.
unfoldable pub try_random : Surroundings → Puncher → Bool × Puncher
try_random env p = if is_throttled p.stats env.now then (false, p) else (true, punch_random env p)

-- `RANDOM` on this side.
unfoldable pub try_birthday : Surroundings → Puncher → Bool × Puncher
try_birthday env p =
    if not (is_some (verified_remote p.remote_addresses))
      || (not p.has_pool || is_throttled p.stats env.now)
    then (false, p)
    else (true, punch_birthday env p)

-- By the two firewalls.
unfoldable pub choose : Surroundings → Puncher → Bool × Puncher
choose env p =
    if is_consistent p.local_firewall
    then (if is_consistent p.remote_firewall
        then (true, punch_consistent env.now p)
        else try_random env p)
    else if is_consistent p.remote_firewall
    then try_birthday env p
    else (false, p)

-- Whether it is punching now, and the puncher.
unfoldable pub punch : Surroundings → Puncher → Bool × Puncher
punch env p = if p.connected then (true, p) else choose env p

abbrev pub is_unstable : Puncher → Bool
is_unstable p =
    (leb firewall_random p.remote_firewall && leb firewall_random p.local_firewall)
    || (p.local_firewall == firewall_unknown)

abbrev pub reopen : Puncher → Puncher
reopen p = record p { reopen_count = p.reopen_count + 1; resets = p.resets + 1 }

abbrev pub refuses_reopen : Bool → Puncher → Bool
refuses_reopen allow_reopen p =
    not allow_reopen || (leb max_reopens p.reopen_count || (is_done p || p.punching))

-- What `on_done` is told, and the puncher; the caller of `on_reset_` is told by `resets`.
unfoldable pub analyze : Bool → Puncher → Bool × Puncher
analyze allow_reopen p =
    if is_unstable p
    then (false, if refuses_reopen allow_reopen p then p else reopen p)
    else (true, p)

pub data Event : Type 0 where
  timer : Event
  message : Address → Bool → Event
  punched : Event
  analyzed : Bool → Event
  stopped : Event
  destroyed_by : Event
  remote : List Address → Option (List ℕ) → Event
  firewalls : ℕ → ℕ → Event

-- The timer fires when it runs, and does not run on.
unfoldable pub step : Surroundings → Event → Puncher → Puncher
step env timer p = if p.armed then on_punch_timer env (record p { armed = false }) else p
step env (message from has_ref) p = on_message env.now from has_ref p
step env punched p = (punch env p).1
step env (analyzed allow_reopen) p = (analyze allow_reopen p).1
step env stopped p = stop p
step env destroyed_by p = destroy env.now p
step env (remote addrs verified_host) p = update_remote addrs verified_host p
step env (firewalls mine theirs) p = record p { local_firewall = mine; remote_firewall = theirs }

unfoldable pub run : Puncher → List (Surroundings × Event) → Puncher
run p [] = p
run p (e ∷ es) = run (step e.0 e.1 p) es

-- A puncher as its constructor and the setters of the callbacks leave it.
abbrev pub create : Bool → Bool → Option PunchStats → Puncher
create is_initiator has_pool stats = record {
  is_initiator = is_initiator;
  connected = false;
  punching = false;
  destroyed = false;
  randomized = false;
  local_firewall = firewall_unknown;
  remote_firewall = firewall_unknown;
  remote_addresses = [];
  punch_round = 0;
  random_probes_left = 0;
  birthday_index = 0;
  low_ttl_rounds = 1;
  on_connect = true;
  on_abort = true;
  has_pool = has_pool;
  stats = stats;
  holders = 0;
  reopen_count = 0;
  sends = true;
  armed = false;
  probes = [];
  results = [];
  aborts = 0;
  resets = 0;
}
