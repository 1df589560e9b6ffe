-- ===== src/Router/Sent.antt =====
-- What the reply functions of router.cpp send, as the one who receives it reads it.
use hyperdht_cpp.Prelude.{
  ℕ, ◌≤◌, ◌≡◌, ap, Option, none, some, Bool, true, false, List, [], ◌∷◌, ◌++◌, length,
  length-append, if◌then◌else◌, leb, ◌==◌, IsU64, arith, if_cases,
}
use hyperdht_cpp.Compact.State.{le16, le32, le64}
use hyperdht_cpp.Compact.Address.{Address, IsAddress, length-wire}
use hyperdht_cpp.Compact.Sequence.{wire_option, ValidOption}
use hyperdht_cpp.Compact.Address
use hyperdht_cpp.Compact.Uint
use hyperdht_cpp.Messages.Request.{Request}
use hyperdht_cpp.Messages.Field.{IsValue, wire_value}
use hyperdht_cpp.Handshake.{
  HandshakeMessage, decode_handshake_msg, encode_handshake_msg, handshake_flags, mode_from_client,
}
use hyperdht_cpp.Handshake.RoundTrip.{IsHandshake, decode_handshake_msg-encode}
use hyperdht_cpp.Holepunch.Message.{HolepunchMessage, decode_holepunch_msg, encode_holepunch_msg}
use hyperdht_cpp.Holepunch.Message.RoundTrip.{IsHolepunch, decode_holepunch_msg-encode}
use hyperdht_cpp.Handshake.RoundTrip
use hyperdht_cpp.Holepunch.Message
use hyperdht_cpp.Router.{Call, Outgoing, address_or, relay, relay_to, reply, response_to}

pub length-uint : (v : ℕ) → length (Uint.wire v) ≤ 9
unfolding le16 le32 le64
length-uint v =
    if_cases _ _ (λ (bytes : List ℕ). length bytes ≤ 9) (leb v 0xfc) (λ _. omega arith)
      (λ _.
        if_cases _ _ (λ (bytes : List ℕ). length bytes ≤ 9) (leb v 0xffff) (λ _. omega arith)
          (λ _.
            if_cases _ _ (λ (bytes : List ℕ). length bytes ≤ 9) (leb v 0xffffffff)
              (λ _. omega arith) (λ _. omega arith)))

pub length-value : (bytes : List ℕ) → IsValue bytes → length (wire_value bytes) ≤ 65545
length-value [] h = omega arith
length-value (b ∷ bytes) h = omega (
  arith,
  length-append (Uint.wire (length (b ∷ bytes))) (b ∷ bytes),
  length-uint (length (b ∷ bytes)),
)

pub length-address :
    (o : Option Address) → ValidOption (IsAddress 4) o → length (wire_option Address.wire o) ≤ 6
length-address none h = omega arith
length-address (some a) h = omega (arith, length-wire 4 a h)

-- A valid message is far from the limit of `size_t`.
pub handshake-IsU64 : (m : HandshakeMessage) → IsHandshake m → IsU64 (length (RoundTrip.wire m))
handshake-IsU64 m h =
    let a = Uint.wire (handshake_flags m) in
    let b = Uint.wire m.mode in
    let c = wire_value m.noise in
    let d = wire_option Address.wire m.peer_address in
    let e = wire_option Address.wire m.relay_address in
    omega (
      arith,
      length-append a (((b ++ c) ++ d) ++ e),
      length-append ((b ++ c) ++ d) e,
      length-append (b ++ c) d,
      length-append b c,
      length-uint (handshake_flags m),
      length-uint m.mode,
      length-value m.noise h.noise_cap,
      length-address m.peer_address h.peer_range,
      length-address m.relay_address h.relay_range,
    )

pub decode_handshake-sent :
    (m : HandshakeMessage) → IsHandshake m → decode_handshake_msg (encode_handshake_msg m) ≡ m
decode_handshake-sent m h = (decode_handshake_msg-encode m h (handshake-IsU64 m h)).1

-- What leaves the node, with its value read back by `read`.
pub record Sent (M : Type 0) : Type 0 where
  pub is_response : Bool
  pub tid : ℕ
  pub to : Address
  pub command : ℕ
  pub target : Option (List ℕ)
  pub message : Option M

module _ {M : Type 0} (read : List ℕ → M) where
  abbrev pub read_value : Option (List ℕ) → Option M
  read_value none = none
  read_value (some bytes) = some (read bytes)

  abbrev pub sent_by : Outgoing → Sent M
  sent_by (reply r) = record {
    is_response = true;
    tid = r.tid;
    to = r.from;
    command = 0;
    target = none;
    message = read_value r.value;
  }
  sent_by (relay r) = record {
    is_response = false;
    tid = r.tid;
    to = r.to;
    command = r.command;
    target = r.target;
    message = read_value r.value;
  }

  -- The arguments of the handler that is called, and what its answer makes the node send.
  abbrev pub observed : List ℕ → Option Call → Option (List ℕ × (Address × Sent M))
  observed answer none = none
  observed answer (some c) = some (c.argument, (c.peer_address, sent_by (c.reply_fn answer)))

abbrev pub sent_reply : {M : Type 0} → Request → M → Sent M
sent_reply req m = record {
  is_response = true;
  tid = req.tid;
  to = req.from;
  command = 0;
  target = none;
  message = some m;
}

abbrev pub sent_relay : {M : Type 0} → Request → M → Sent M
sent_relay req m = record {
  is_response = false;
  tid = req.tid;
  to = req.from;
  command = req.command;
  target = req.target;
  message = some m;
}

-- To a client a response, to a relay node a request.
abbrev pub answered : {M : Type 0} → Request → ℕ → (reply_message relay_message : M) → Sent M
answered req mode a b = if mode == mode_from_client then sent_reply req a else sent_relay req b

pub sent_if :
    {M : Type 0} (read : List ℕ → M) (req : Request) (direct : Bool) (x y : List ℕ) (a b : M)
    → read x ≡ a
    → read y ≡ b
    → sent_by read (if direct then reply (response_to req x) else relay (relay_to req y))
      ≡ (if direct then sent_reply req a else sent_relay req b)
sent_if read req true x y a b p q = ap (sent_reply req) p
sent_if read req false x y a b p q = ap (sent_relay req) q

pub client_IsAddress :
    (o : Option Address) (a : Address)
    → ValidOption (IsAddress 4) o
    → IsAddress 4 a
    → IsAddress 4 (address_or o a)
client_IsAddress none a h k = k
client_IsAddress (some b) a h k = h

pub holepunch-IsU64 :
    (m : HolepunchMessage) → IsHolepunch m → IsU64 (length (Message.RoundTrip.wire m))
holepunch-IsU64 m h =
    let a = Uint.wire (Message.holepunch_flags m) in
    let b = Uint.wire m.mode in
    let c = Uint.wire m.id in
    let d = wire_value m.payload in
    let e = wire_option Address.wire m.peer_address in
    omega (
      arith,
      length-append a (((b ++ c) ++ d) ++ e),
      length-append ((b ++ c) ++ d) e,
      length-append (b ++ c) d,
      length-append b c,
      length-uint (Message.holepunch_flags m),
      length-uint m.mode,
      length-uint m.id,
      length-value m.payload h.payload_cap,
      length-address m.peer_address h.peer_range,
    )

pub decode_holepunch-sent :
    (m : HolepunchMessage) → IsHolepunch m → decode_holepunch_msg (encode_holepunch_msg m) ≡ m
decode_holepunch-sent m h = (decode_holepunch_msg-encode m h (holepunch-IsU64 m h)).1
