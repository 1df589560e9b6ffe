-- ===== src/Router.antt =====
-- router.hpp and router.cpp: the table of the servers that listen, and the messages that reach them.
pub mod Laws
pub mod Sent
pub mod Handshakes
pub mod Holepunches
use hyperdht_cpp.Prelude.{
  ℕ, Bool, true, false, ◌||◌, not, Option, none, some, is_some, List, [], ◌∷◌, if◌then◌else◌, ◌==◌,
  length,
}
use hyperdht_cpp.Compact.Address.{Address}
use hyperdht_cpp.Messages.Request.{Request, blank_request}
use hyperdht_cpp.Messages.Response.{Response, blank_response}
use hyperdht_cpp.Routing.Id.{id_eq}
use hyperdht_cpp.Handshake.{
  HandshakeMessage, blank_handshake, decode_handshake_msg, encode_handshake_msg, mode_from_client,
  mode_from_relay, mode_from_second_relay, mode_from_server, mode_reply,
}
use hyperdht_cpp.Holepunch.Message.{HolepunchMessage, decode_holepunch_msg, encode_holepunch_msg}

-- Which of the two handlers are set, and the encoded record.
pub record ForwardEntry : Type 0 where
  pub on_peer_handshake : Bool
  pub on_peer_holepunch : Bool
  pub peer_record : List ℕ

pub record Forward : Type 0 where
  pub target : List ℕ
  pub entry : ForwardEntry

-- What a reply function sends: a response to the client, or a request to the relay.
pub data Outgoing : Type 0 where
  reply : Response → Outgoing
  relay : Request → Outgoing

-- A call of a handler: its arguments, the last one the function that it answers with.
pub record Call : Type 0 where
  pub argument : List ℕ
  pub peer_address : Address
  pub reply_fn : List ℕ → Outgoing

abbrev pub get : List Forward → List ℕ → Option ForwardEntry
get [] k = none
get (f ∷ fs) k = if id_eq f.target k then some f.entry else get fs k

abbrev pub set : List Forward → List ℕ → ForwardEntry → List Forward
set [] k e = record { target = k; entry = e } ∷ []
set (f ∷ fs) k e = if id_eq f.target k then record f { entry = e } ∷ fs else f ∷ set fs k e

-- The keys of the map are distinct: the first that is equal is the only one.
abbrev pub remove : List Forward → List ℕ → List Forward
remove [] k = []
remove (f ∷ fs) k = if id_eq f.target k then remove fs k else f ∷ remove fs k

abbrev pub has : List Forward → List ℕ → Bool
has fs k = is_some (get fs k)

abbrev pub record_in : Option ForwardEntry → Option (List ℕ)
record_in none = none
record_in (some e) = if length e.peer_record == 0 then none else some e.peer_record

abbrev pub record_of : List Forward → List ℕ → Option (List ℕ)
record_of fs k = record_in (get fs k)

-- `value_or`.
abbrev pub address_or : Option Address → Address → Address
address_or none a = a
address_or (some b) a = b

abbrev pub is_incoming : ℕ → Bool
is_incoming mode =
    (mode == mode_from_client) || ((mode == mode_from_relay) || (mode == mode_from_second_relay))

abbrev pub response_to : Request → List ℕ → Response
response_to req value = record blank_response { tid = req.tid; from = req.from; value = some value }

-- Back to the relay node, under the same transaction.
abbrev pub relay_to : Request → List ℕ → Request
relay_to req value = record blank_request {
  tid = req.tid;
  to = req.from;
  command = req.command;
  target = req.target;
  internal = false;
  value = some value;
}

unfoldable pub reply_handshake : Request → Address → ℕ → List ℕ → Outgoing
reply_handshake req client mode noise =
    if mode == mode_from_client
    then reply (
        response_to req
          (encode_handshake_msg (record blank_handshake { mode = mode_reply; noise = noise })))
    else relay (
        relay_to req (
          encode_handshake_msg (record blank_handshake {
            mode = mode_from_server;
            noise = noise;
            peer_address = some client;
          })))

abbrev pub call_handshake : Request → HandshakeMessage → Option Call
call_handshake req m =
    if (length m.noise == 0) || not (is_incoming m.mode)
    then none
    else some (record {
      argument = m.noise;
      peer_address = address_or m.peer_address req.from;
      reply_fn = reply_handshake req (address_or m.peer_address req.from) m.mode;
    })

abbrev pub enter_handshake : Option ForwardEntry → Request → List ℕ → Option Call
enter_handshake none req value = none
enter_handshake (some e) req value =
    if e.on_peer_handshake then call_handshake req (decode_handshake_msg value) else none

abbrev pub dispatch_handshake :
    List Forward → Request → Option (List ℕ) → Option (List ℕ) → Option Call
dispatch_handshake fs req none value = none
dispatch_handshake fs req (some target) none = none
dispatch_handshake fs req (some target) (some value) = enter_handshake (get fs target) req value

-- `none` is the result `false`; else the handler is called.
unfoldable pub handle_peer_handshake : List Forward → Request → Option Call
handle_peer_handshake fs req = dispatch_handshake fs req req.target req.value

unfoldable pub reply_holepunch : Request → Address → ℕ → List ℕ → Outgoing
reply_holepunch req client mode value =
    let m = decode_holepunch_msg value in
    if mode == mode_from_client
    then reply (
        response_to req
          (encode_holepunch_msg (record m { mode = mode_reply; peer_address = none })))
    else relay (
        relay_to req
          (encode_holepunch_msg (record m { mode = mode_from_server; peer_address = some client })))

abbrev pub call_holepunch : Request → List ℕ → HolepunchMessage → Call
call_holepunch req value m = record {
  argument = value;
  peer_address = address_or m.peer_address req.from;
  reply_fn = reply_holepunch req (address_or m.peer_address req.from) m.mode;
}

abbrev pub enter_holepunch : Option ForwardEntry → Request → List ℕ → Option Call
enter_holepunch none req value = none
enter_holepunch (some e) req value =
    if e.on_peer_holepunch
    then some (call_holepunch req value (decode_holepunch_msg value))
    else none

abbrev pub dispatch_holepunch :
    List Forward → Request → Option (List ℕ) → Option (List ℕ) → Option Call
dispatch_holepunch fs req none value = none
dispatch_holepunch fs req (some target) none = none
dispatch_holepunch fs req (some target) (some value) = enter_holepunch (get fs target) req value

unfoldable pub handle_peer_holepunch : List Forward → Request → Option Call
handle_peer_holepunch fs req = dispatch_holepunch fs req req.target req.value
