-- ===== src/Holepunch/Puncher.antt =====
-- `Holepuncher`, as a machine that its timer, the probes that arrive and its caller drive. The sockets that it holds
-- are counted in `holders`; the probes that it sends, the results and the aborts that it reports are recorded.
pub mod Strategy
pub mod Machine
pub mod Invariant
pub mod Reports
pub mod Ticks
pub mod Ending
use hyperdht_cpp.Prelude.{
  ℕ, zero, suc, ◌+◌, ◌-◌, ◌%◌, Bool, true, false, ◌&&◌, ◌||◌, not, Option, none, some, is_some,
  List, [], ◌∷◌, if◌then◌else◌, ltb, leb, ◌==◌, bit_and,
}
use mathlib.Core.List.{reverse}
use hyperdht_cpp.Compact.Address.{Address}
use hyperdht_cpp.Routing.Id.{id_eq}

abbrev pub firewall_unknown : ℕ
firewall_unknown = 0

abbrev pub firewall_random : ℕ
firewall_random = 3

abbrev pub birthday_sockets : ℕ
birthday_sockets = 256

abbrev pub holepunch_ttl : ℕ
holepunch_ttl = 5

abbrev pub default_ttl : ℕ
default_ttl = 64

abbrev pub max_reopens : ℕ
max_reopens = 3

abbrev pub random_probes_count : ℕ
random_probes_count = 1750

pub record RemoteAddr : Type 0 where
  pub addr : Address
  pub verified : Bool

pub record PunchStats : Type 0 where
  pub random_punches : ℕ
  pub last_random_punch : ℕ
  pub punches_consistent : ℕ
  pub punches_random : ℕ
  pub random_punch_limit : ℕ
  pub random_punch_interval : ℕ

pub record PunchResult : Type 0 where
  pub address : Address
  pub firewall : ℕ

-- A probe, with its time to live if it has one of its own.
pub record Probe : Type 0 where
  pub to : Address
  pub ttl : Option ℕ

-- `sends` is whether the functions that send are still set, `armed` whether the timer runs.
pub record Puncher : Type 0 where
  pub is_initiator : Bool
  pub connected : Bool
  pub punching : Bool
  pub destroyed : Bool
  pub randomized : Bool
  pub local_firewall : ℕ
  pub remote_firewall : ℕ
  pub remote_addresses : List RemoteAddr
  pub punch_round : ℕ
  pub random_probes_left : ℕ
  pub birthday_index : ℕ
  pub low_ttl_rounds : ℕ
  pub on_connect : Bool
  pub on_abort : Bool
  pub has_pool : Bool
  pub stats : Option PunchStats
  pub holders : ℕ
  pub reopen_count : ℕ
  pub sends : Bool
  pub armed : Bool
  pub probes : List Probe
  pub results : List PunchResult
  pub aborts : ℕ
  pub resets : ℕ

-- What an event meets: the clock, whether the pool has a socket, whether the next holder is closed, and the number
-- that is drawn for a port.
pub record Surroundings : Type 0 where
  pub now : ℕ
  pub acquired : Bool
  pub closed : Bool
  pub drawn : ℕ

abbrev pub is_done : Puncher → Bool
is_done p = p.destroyed || p.connected

-- `now - last_random_punch` wraps around.
abbrev pub can_random_punch : PunchStats → ℕ → Bool
can_random_punch s now =
    if leb s.random_punch_limit s.random_punches
    then false
    else not (
        ltb 0 s.last_random_punch
        && ltb ((now + (18446744073709551616 - s.last_random_punch)) % 18446744073709551616)
            s.random_punch_interval)

abbrev pub is_throttled : Option PunchStats → ℕ → Bool
is_throttled none now = false
is_throttled (some s) now = not (can_random_punch s now)

abbrev pub count_consistent : Option PunchStats → Option PunchStats
count_consistent none = none
count_consistent (some s) = some (record s { punches_consistent = s.punches_consistent + 1 })

abbrev pub count_random : Option PunchStats → Option PunchStats
count_random none = none
count_random (some s) = some (record s { punches_random = s.punches_random + 1 })

abbrev pub begin_random : Option PunchStats → Option PunchStats
begin_random none = none
begin_random (some s) = some (record s { random_punches = s.random_punches + 1 })

abbrev pub end_random : Option PunchStats → ℕ → Option PunchStats
end_random none now = none
end_random (some s) now =
    some (record s { last_random_punch = now; random_punches = s.random_punches - 1 })

unfoldable pub increment_randomized : Puncher → Puncher
increment_randomized p =
    if p.randomized then p else record p { randomized = true; stats = begin_random p.stats }

unfoldable pub decrement_randomized : ℕ → Puncher → Puncher
decrement_randomized now p =
    if p.randomized then record p { randomized = false; stats = end_random p.stats now } else p

abbrev pub verified_remote : List RemoteAddr → Option Address
verified_remote [] = none
verified_remote (r ∷ rs) = if r.verified then some r.addr else verified_remote rs

abbrev pub is_verified : List RemoteAddr → List ℕ → Bool
is_verified [] host = false
is_verified (r ∷ rs) host = (r.verified && id_eq r.addr.host host) || is_verified rs host

-- The loop of `update_remote`: `done` is what it has put into the list, which was cleared before, the last in front.
abbrev pub update_from : List RemoteAddr → List Address → (List ℕ → Bool) → List RemoteAddr
update_from done [] given = done
update_from done (a ∷ as') given =
    update_from (record { addr = a; verified = given a.host || is_verified done a.host } ∷ done) as'
      given

unfoldable pub send_probe : Address → Puncher → Puncher
send_probe a p =
    if p.sends then record p { probes = record { to = a; ttl = none } ∷ p.probes } else p

unfoldable pub send_probe_ttl : Address → ℕ → Puncher → Puncher
send_probe_ttl a ttl p =
    if p.sends then record p { probes = record { to = a; ttl = some ttl } ∷ p.probes } else p

abbrev pub open_session : Address → Puncher → Puncher
open_session a p = send_probe_ttl a holepunch_ttl p

abbrev pub fire_abort : Puncher → Puncher
fire_abort p = if p.on_abort then record p { on_abort = false; aborts = p.aborts + 1 } else p

-- All functions that the puncher was given are dropped at the end.
abbrev pub cut_off : Puncher → Puncher
cut_off p = record p { sends = false; on_connect = false; on_abort = false }

unfoldable pub destroy : ℕ → Puncher → Puncher
destroy now p =
    let stopped = record p { destroyed = true; punching = false; holders = 0; armed = false } in
    if p.destroyed
    then p
    else cut_off (if p.connected then stopped else fire_abort (decrement_randomized now stopped))

abbrev pub stop : Puncher → Puncher
stop p = record p { punching = false; armed = false }
