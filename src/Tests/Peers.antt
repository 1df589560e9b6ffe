-- ===== src/Tests/Peers.antt =====
-- A server that listens, the messages that reach it, and a prober of three addresses.
use hyperdht_cpp.Prelude.{
  ℕ, ◌≡◌, refl, ap, true, false, none, some, List, [], ◌∷◌, replicate, length-replicate, arith,
  IsArray, IsU64, IsByte, All, zero, suc, length,
}
use hyperdht_cpp.Compact.State.{le16}
use hyperdht_cpp.Compact.Address.{Address, IsAddress}
use hyperdht_cpp.Messages.Flags.{seven_flags, five_flags}
use hyperdht_cpp.Messages.Request.{Request, blank_request}
use hyperdht_cpp.Routing.Id.{id_eq}
use hyperdht_cpp.Handshake.{
  HandshakeMessage, blank_handshake, decode_handshake_msg, encode_handshake_msg, mode_from_server,
  mode_reply,
}
use hyperdht_cpp.Handshake.RoundTrip.{IsHandshake, decode_handshake_msg-encode}
use hyperdht_cpp.Handshake.RoundTrip
use hyperdht_cpp.Holepunch.Message.{HolepunchMessage, decode_holepunch_msg, encode_holepunch_msg}
use hyperdht_cpp.Holepunch.Message.RoundTrip.{IsHolepunch, decode_holepunch_msg-encode}
use hyperdht_cpp.Holepunch.Message
use hyperdht_cpp.Holepunch.Match.Laws.{IsMatch, match_address-IsMatch}
use hyperdht_cpp.Holepunch.Match.{match_address}
use hyperdht_cpp.Holepunch.Payload.{
  HolepunchPayload, blank_payload, payload_flags, encode_holepunch_payload,
  decode_holepunch_payload,
}
use hyperdht_cpp.Holepunch.Payload.RoundTrip.{IsPayload, decode_holepunch_payload-encode}
use hyperdht_cpp.Holepunch.Payload
use hyperdht_cpp.Holepunch.Puncher.{PunchStats, Puncher, Surroundings}
use hyperdht_cpp.Holepunch.Puncher.Machine.{
  Event, create, destroyed_by, firewalls, message, punch, choose, try_random, punched, remote, run,
  timer,
}
use hyperdht_cpp.Holepunch.Puncher.Invariant.{IsPuncher}
use hyperdht_cpp.Holepunch.Puncher.Reports.{run-IsPuncher}
use hyperdht_cpp.Holepunch.Puncher.Ending.{ticks, punch-ends}
use hyperdht_cpp.Router.{
  Call, call_handshake, reply_handshake, Forward, ForwardEntry, handle_peer_handshake,
  handle_peer_holepunch,
}
use hyperdht_cpp.Router.Sent.{answered, observed, handshake-IsU64, holepunch-IsU64}
use hyperdht_cpp.Router.Handshakes.{
  handle_peer_handshake-encode, IsServed, handle_peer_handshake-IsServed,
}
use hyperdht_cpp.Router.Holepunches.{handle_peer_holepunch-encode}

abbrev home : Address
home = record { host = 127 ∷ (0 ∷ (0 ∷ (1 ∷ []))); port = 49737 }

home-IsAddress : IsAddress 4 home
home-IsAddress = record {
  host_array = record {
    sized = refl;
    bytes = (omega arith, (omega arith, (omega arith, (omega arith, tt))));
  };
  port_range = omega arith;
}

abbrev key : List ℕ
key = replicate 32 5

abbrev server : ForwardEntry
server = record { on_peer_handshake = true; on_peer_holepunch = true; peer_record = [] }

abbrev forwards : List Forward
forwards = record { target = key; entry = server } ∷ []

abbrev hello : HandshakeMessage
hello = record blank_handshake { noise = 1 ∷ (2 ∷ (3 ∷ [])) }

hello-IsHandshake : IsHandshake hello
hello-IsHandshake = record {
  mode_range = ground arith;
  noise_cap = ground arith;
  peer_range = tt;
  relay_range = tt;
}

abbrev hello_request : Request
hello_request = record blank_request {
  from = home;
  target = some key;
  value = some (encode_handshake_msg hello);
}

decode_handshake_msg-encode_example :
    (encode_handshake_msg hello ≡ RoundTrip.wire hello)
    × (decode_handshake_msg (encode_handshake_msg hello) ≡ hello)
decode_handshake_msg-encode_example =
    decode_handshake_msg-encode hello hello-IsHandshake (handshake-IsU64 hello hello-IsHandshake)

handle_peer_handshake-encode_example :
    observed decode_handshake_msg (9 ∷ []) (handle_peer_handshake forwards hello_request)
    ≡ some (
      hello.noise,
      (
        home,
        answered hello_request 0
            (record blank_handshake { mode = mode_reply; noise = 9 ∷ [] })
            (record blank_handshake {
              mode = mode_from_server;
              noise = 9 ∷ [];
              peer_address = some home;
            }),
      ),
    )
unfolding id_eq
handle_peer_handshake-encode_example =
    handle_peer_handshake-encode forwards hello_request key server hello (9 ∷ []) refl refl refl
      refl (ground arith) hello-IsHandshake (ground arith) home-IsAddress

abbrev hello_call : Call
hello_call = record {
  argument = hello.noise;
  peer_address = home;
  reply_fn = reply_handshake hello_request home 0;
}

hello_served : handle_peer_handshake forwards hello_request ≡ some hello_call
unfolding handle_peer_handshake id_eq
hello_served =
    ap (call_handshake hello_request)
      (decode_handshake_msg-encode hello hello-IsHandshake
        (handshake-IsU64 hello hello-IsHandshake)).1

handle_peer_handshake-IsServed_example :
    IsServed forwards (some key) (some (encode_handshake_msg hello)) hello_call
handle_peer_handshake-IsServed_example =
    handle_peer_handshake-IsServed forwards hello_request hello_call hello_served

abbrev probing : HolepunchMessage
probing = record { mode = 0; id = 7; payload = 4 ∷ []; peer_address = none }

probing-IsHolepunch : IsHolepunch probing
probing-IsHolepunch = record {
  mode_range = ground arith;
  id_range = ground arith;
  payload_cap = ground arith;
  peer_range = tt;
}

abbrev probing_request : Request
probing_request = record blank_request {
  from = home;
  target = some key;
  value = some (encode_holepunch_msg probing);
}

decode_holepunch_msg-encode_example :
    (encode_holepunch_msg probing ≡ Message.RoundTrip.wire probing)
    × (decode_holepunch_msg (encode_holepunch_msg probing) ≡ probing)
decode_holepunch_msg-encode_example =
    decode_holepunch_msg-encode probing probing-IsHolepunch
      (holepunch-IsU64 probing probing-IsHolepunch)

handle_peer_holepunch-encode_example :
    observed decode_holepunch_msg
      (encode_holepunch_msg probing)
      (handle_peer_holepunch forwards probing_request)
    ≡ some (
      encode_holepunch_msg probing,
      (
        home,
        answered probing_request 0
            (record probing { mode = mode_reply; peer_address = none })
            (record probing { mode = mode_from_server; peer_address = some home }),
      ),
    )
unfolding id_eq
handle_peer_holepunch-encode_example =
    handle_peer_holepunch-encode forwards probing_request key server probing probing refl refl refl
      refl probing-IsHolepunch probing-IsHolepunch home-IsAddress

abbrev stats : PunchStats
stats = record {
  random_punches = 0;
  last_random_punch = 0;
  punches_consistent = 0;
  punches_random = 0;
  random_punch_limit = 1;
  random_punch_interval = 20000;
}

abbrev surroundings : Surroundings
surroundings = record { now = 5; acquired = true; closed = false; drawn = 17 }

abbrev fresh : Puncher
fresh = create true true (some stats)

fresh-IsPuncher : IsPuncher 0 fresh
fresh-IsPuncher = record {
  balanced = refl;
  reported = record {
    results_once = ground arith;
    aborts_once = ground arith;
    unconnected = λ e. refl;
    alive = λ e. refl;
    exclusive = ground arith;
  };
  reopens = ground arith;
}

abbrev events : List (Surroundings × Event)
events =
    (surroundings, firewalls 2 3)
    ∷ ((surroundings, remote (home ∷ []) none)
        ∷ ((surroundings, punched)
            ∷ ((surroundings, timer)
                ∷ ((surroundings, message home false) ∷ ((surroundings, destroyed_by) ∷ [])))))

run-IsPuncher_example : IsPuncher 0 (run fresh events)
run-IsPuncher_example = run-IsPuncher 0 fresh events fresh-IsPuncher

abbrev ready : Puncher
ready = record fresh { local_firewall = 2; remote_firewall = 3 }

ready_punches : (punch surroundings ready).0 ≡ true
unfolding punch choose try_random
ready_punches = refl

punch-ends_example :
    ((ticks (replicate 1760 surroundings) (punch surroundings ready).1).destroyed ≡ true)
    × ((ticks (replicate 1760 surroundings) (punch surroundings ready).1).aborts ≡ 1)
punch-ends_example =
    punch-ends surroundings ready (replicate 1760 surroundings) refl refl refl refl (ground arith)
      ready_punches (omega (arith, length-replicate {A = Surroundings} 1760 surroundings))

fives-IsByte : (n : ℕ) → All IsByte (replicate n 5)
fives-IsByte zero = tt
fives-IsByte (suc n) = (omega arith, fives-IsByte n)

key-IsArray : IsArray 32 key
key-IsArray = record { sized = refl; bytes = fives-IsByte 32 }

abbrev answer : HolepunchPayload
answer = record blank_payload {
  punching = true;
  firewall = 2;
  round = 1;
  addresses = home ∷ [];
  token = some key;
}

answer-IsPayload : IsPayload answer
answer-IsPayload = record {
  error_range = ground arith;
  firewall_range = ground arith;
  round_range = ground arith;
  addresses_range = (ground arith, (home-IsAddress, tt));
  remote_range = tt;
  token_array = key-IsArray;
  remote_token_array = tt;
}

answer_small : IsU64 (length (Payload.RoundTrip.wire answer))
unfolding payload_flags seven_flags five_flags le16
answer_small = omega arith

decode_holepunch_payload-encode_example :
    (encode_holepunch_payload answer ≡ Payload.RoundTrip.wire answer)
    × (decode_holepunch_payload (encode_holepunch_payload answer) ≡ answer)
decode_holepunch_payload-encode_example =
    decode_holepunch_payload-encode answer answer-IsPayload answer_small

abbrev neighbour : Address
neighbour = record { host = 127 ∷ (0 ∷ (9 ∷ (4 ∷ []))); port = 9 }

abbrev stranger : Address
stranger = record { host = 9 ∷ (0 ∷ (0 ∷ (1 ∷ []))); port = 9 }

match_address-IsMatch_example :
    IsMatch
      (home ∷ [])
      (stranger ∷ (neighbour ∷ []))
      (match_address (home ∷ []) (stranger ∷ (neighbour ∷ [])))
match_address-IsMatch_example = match_address-IsMatch (home ∷ []) (stranger ∷ (neighbour ∷ []))
