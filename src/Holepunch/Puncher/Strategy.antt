-- ===== src/Holepunch/Puncher/Strategy.antt =====
-- The three ways in which `Holepuncher` of holepunch.cpp sends its probes.
use hyperdht_cpp.Prelude.{
  ℕ, ◌+◌, ◌%◌, ◌-◌, Bool, true, false, ◌&&◌, ◌||◌, not, Option, none, some, List, [], ◌∷◌,
  if◌then◌else◌, ltb, leb, ◌==◌, bit_and,
}
use hyperdht_cpp.Compact.Address.{Address}
use hyperdht_cpp.Holepunch.Puncher.{
  Puncher, RemoteAddr, Surroundings, birthday_sockets, default_ttl, destroy, holepunch_ttl, is_done,
  random_probes_count, send_probe, send_probe_ttl, verified_remote,
}

abbrev pub probe_one : RemoteAddr → Puncher → Puncher
probe_one r p =
    if not r.verified && not (bit_and p.punch_round 3 == 0)
    then p
    else if r.addr.port == 0
    then p
    else send_probe r.addr p

abbrev pub probe_all : List RemoteAddr → Puncher → Puncher
probe_all [] p = p
probe_all (r ∷ rs) p = probe_all rs (probe_one r p)

abbrev pub next_round : Puncher → Puncher
next_round p = record p { punch_round = p.punch_round + 1; armed = true }

unfoldable pub consistent_probe : ℕ → Puncher → Puncher
consistent_probe now p =
    if not p.punching || (p.connected || leb 10 p.punch_round)
    then if p.punching && not p.connected then destroy now (record p { punching = false }) else p
    else if not p.is_initiator && (p.punch_round == 0)
    then next_round p
    else next_round (probe_all p.remote_addresses p)

-- `static_cast<uint16_t>(1000 + randombytes_uniform(64536))`.
abbrev pub random_target : List RemoteAddr → ℕ → Option Address
random_target [] drawn = none
random_target (r ∷ rs) drawn = some (record { host = r.addr.host; port = (1000 + drawn) % 65536 })

abbrev pub probe_random : Option Address → Puncher → Puncher
probe_random none p = p
probe_random (some a) p = send_probe a p

abbrev pub next_probe : Puncher → Puncher
next_probe p = record p { random_probes_left = p.random_probes_left - 1; armed = true }

unfoldable pub random_probes : Surroundings → Puncher → Puncher
random_probes env p =
    if not p.punching || p.connected
    then p
    else if leb p.random_probes_left 0
    then destroy env.now (record p { punching = false })
    else next_probe (probe_random (random_target p.remote_addresses env.drawn) p)

-- A socket more, and a probe from it.
abbrev pub acquire : Bool → Address → Puncher → Puncher
acquire acquired a p =
    if acquired && ltb p.holders birthday_sockets
    then send_probe_ttl a holepunch_ttl (record p { holders = p.holders + 1 })
    else p

abbrev pub more_sockets : Puncher → Puncher
more_sockets p = if ltb p.holders birthday_sockets then record p { armed = true } else record p {
  birthday_index = 0;
  low_ttl_rounds = 1;
  random_probes_left = random_probes_count;
  armed = true;
}

abbrev pub open_to : Option Address → Surroundings → Puncher → Puncher
open_to none env p = record p { punching = false }
open_to (some a) env p = more_sockets (acquire env.acquired a p)

unfoldable pub open_birthday_sockets : Surroundings → Puncher → Puncher
open_birthday_sockets env p =
    if not p.punching || (is_done p || not p.has_pool)
    then p
    else open_to (verified_remote p.remote_addresses) env p

abbrev pub wrap_index : Puncher → Puncher
wrap_index p =
    if leb p.holders p.birthday_index
    then record p { birthday_index = 0; low_ttl_rounds = p.low_ttl_rounds - 1 }
    else p

abbrev pub probe_holder : Bool → Address → Puncher → Puncher
probe_holder closed a p =
    let next = record p { birthday_index = p.birthday_index + 1 } in
    if closed
    then next
    else send_probe_ttl a (if ltb 0 p.low_ttl_rounds then holepunch_ttl else default_ttl) next

abbrev pub keep_alive_to : Option Address → Surroundings → Puncher → Puncher
keep_alive_to none env p = record p { punching = false }
keep_alive_to (some a) env p =
    if p.holders == 0
    then record p { punching = false }
    else next_probe (probe_holder env.closed a (wrap_index p))

unfoldable pub keep_alive_random_nat : Surroundings → Puncher → Puncher
keep_alive_random_nat env p =
    if not p.punching || is_done p
    then p
    else if leb p.random_probes_left 0
    then destroy env.now (record p { punching = false })
    else keep_alive_to (verified_remote p.remote_addresses) env p
