-- ===== src/Handshake.antt =====
-- `HandshakeMessage` of peer_connect.hpp, its encoder and its decoder.
pub mod RoundTrip
use hyperdht_cpp.Prelude.{
  ℕ, ◌%◌, Bool, true, false, Option, none, some, List, [], ◌∷◌, if◌then◌else◌, is_some,
}
use hyperdht_cpp.Compact.State.{State, for_decode}
use hyperdht_cpp.Compact.Address.{Address, ipv4_addr}
use hyperdht_cpp.Compact.Buffer.{contents}
use hyperdht_cpp.Compact.Sequence.{run, if_present}
use hyperdht_cpp.Compact.Buffer
use hyperdht_cpp.Compact.Uint
use hyperdht_cpp.Messages.Flags.{five_flags, has_flag}
use hyperdht_cpp.Messages.Field.{preencode_value, encode_value}
use hyperdht_cpp.DhtMessages.Partial.{Partial, result, assign, assign_checked, only_if, ◌>>=◌}

abbrev pub mode_from_client : ℕ
mode_from_client = 0

abbrev pub mode_from_server : ℕ
mode_from_server = 1

abbrev pub mode_from_relay : ℕ
mode_from_relay = 2

abbrev pub mode_from_second_relay : ℕ
mode_from_second_relay = 3

abbrev pub mode_reply : ℕ
mode_reply = 4

pub record HandshakeMessage : Type 0 where
  pub mode : ℕ
  pub noise : List ℕ
  pub peer_address : Option Address
  pub relay_address : Option Address

abbrev pub blank_handshake : HandshakeMessage
blank_handshake = record {
  mode = mode_from_client;
  noise = [];
  peer_address = none;
  relay_address = none;
}

unfoldable pub handshake_flags : HandshakeMessage → ℕ
handshake_flags m = five_flags (is_some m.peer_address) (is_some m.relay_address) false false false

unfoldable pub preencode_handshake : HandshakeMessage → State → State
preencode_handshake m s0 =
    let s1 = Uint.preencode s0 (handshake_flags m) in
    let s2 = Uint.preencode s1 m.mode in
    let s3 = preencode_value s2 m.noise in
    let s4 = if_present ipv4_addr.preencode s3 m.peer_address in
    if_present ipv4_addr.preencode s4 m.relay_address

unfoldable pub encode_handshake : HandshakeMessage → State → State
encode_handshake m s0 =
    let s1 = Uint.encode s0 (handshake_flags m) in
    let s2 = Uint.encode s1 m.mode in
    let s3 = encode_value s2 m.noise in
    let s4 = if_present ipv4_addr.encode s3 m.peer_address in
    if_present ipv4_addr.encode s4 m.relay_address

unfoldable pub encode_handshake_msg : HandshakeMessage → List ℕ
encode_handshake_msg m = run (preencode_handshake m) (encode_handshake m)

abbrev pub put_mode : HandshakeMessage → ℕ → HandshakeMessage
put_mode m v = record m { mode = v % 4294967296 }

abbrev pub put_noise : HandshakeMessage → Option (List ℕ) → HandshakeMessage
put_noise m v = record m { noise = contents v }

abbrev pub put_peer : HandshakeMessage → Address → HandshakeMessage
put_peer m a = record m { peer_address = some a }

abbrev pub put_relay : HandshakeMessage → Address → HandshakeMessage
put_relay m a = record m { relay_address = some a }

abbrev pub peer_step : ℕ → HandshakeMessage → State → Partial HandshakeMessage
peer_step flags = only_if (has_flag flags 1) (assign ipv4_addr.decode put_peer)

abbrev pub relay_step : ℕ → HandshakeMessage → State → Partial HandshakeMessage
relay_step flags = only_if (has_flag flags 2) (assign ipv4_addr.decode put_relay)

unfoldable pub fill_handshake : ℕ → HandshakeMessage → State → Partial HandshakeMessage
fill_handshake flags m s =
    ((assign Uint.decode put_mode m s >>= assign_checked Buffer.decode put_noise)
      >>= peer_step flags)
    >>= relay_step flags

-- The flags are cut to a byte.
abbrev pub decode_behind : ℕ → State → HandshakeMessage
decode_behind raw s =
    if s.error then blank_handshake else result (fill_handshake (raw % 256) blank_handshake s)

unfoldable pub decode_handshake_msg : List ℕ → HandshakeMessage
decode_handshake_msg bytes = let (raw, s) = Uint.decode (for_decode bytes) in decode_behind raw s
