-- ===== src/Holepunch/Payload.antt =====
-- `HolepunchPayload`, its encoder and its decoder.
pub mod RoundTrip
use hyperdht_cpp.Prelude.{
  ℕ, ◌%◌, Bool, true, false, Option, none, some, is_some, List, [], ◌∷◌, if◌then◌else◌, ltb,
}
use hyperdht_cpp.Compact.State.{State, for_decode}
use hyperdht_cpp.Compact.Address.{Address, ipv4_addr}
use hyperdht_cpp.Compact.Fixed.{fixed32}
use hyperdht_cpp.Compact.Parts.{ipv4_array}
use hyperdht_cpp.Compact.Sequence.{run, if_present}
use hyperdht_cpp.Compact.Uint
use hyperdht_cpp.Messages.Flags.{seven_flags, has_flag}
use hyperdht_cpp.Messages.Response.{has_nodes, if_nodes}
use hyperdht_cpp.DhtMessages.Partial.{Partial, halted, going, result, assign, only_if, ◌>>=◌}

pub record HolepunchPayload : Type 0 where
  pub connected : Bool
  pub punching : Bool
  pub error : ℕ
  pub firewall : ℕ
  pub round : ℕ
  pub addresses : List Address
  pub remote_address : Option Address
  pub token : Option (List ℕ)
  pub remote_token : Option (List ℕ)

abbrev pub blank_payload : HolepunchPayload
blank_payload = record {
  connected = false;
  punching = false;
  error = 0;
  firewall = 0;
  round = 0;
  addresses = [];
  remote_address = none;
  token = none;
  remote_token = none;
}

unfoldable pub payload_flags : HolepunchPayload → ℕ
payload_flags p =
    seven_flags p.connected p.punching (has_nodes p.addresses) (is_some p.remote_address)
      (is_some p.token) (is_some p.remote_token) false

unfoldable pub preencode_payload : HolepunchPayload → State → State
preencode_payload p s0 =
    let s1 = Uint.preencode s0 (payload_flags p) in
    let s2 = Uint.preencode s1 p.error in
    let s3 = Uint.preencode s2 p.firewall in
    let s4 = Uint.preencode s3 p.round in
    let s5 = if_nodes ipv4_array.preencode s4 p.addresses in
    let s6 = if_present ipv4_addr.preencode s5 p.remote_address in
    let s7 = if_present fixed32.preencode s6 p.token in
    if_present fixed32.preencode s7 p.remote_token

unfoldable pub encode_payload : HolepunchPayload → State → State
encode_payload p s0 =
    let s1 = Uint.encode s0 (payload_flags p) in
    let s2 = Uint.encode s1 p.error in
    let s3 = Uint.encode s2 p.firewall in
    let s4 = Uint.encode s3 p.round in
    let s5 = if_nodes ipv4_array.encode s4 p.addresses in
    let s6 = if_present ipv4_addr.encode s5 p.remote_address in
    let s7 = if_present fixed32.encode s6 p.token in if_present fixed32.encode s7 p.remote_token

unfoldable pub encode_holepunch_payload : HolepunchPayload → List ℕ
encode_holepunch_payload p = run (preencode_payload p) (encode_payload p)

-- One step of the decoder behind another.
abbrev pub and_then :
    {M : Type 0} → (M → State → Partial M) → (M → State → Partial M) → M → State → Partial M
and_then f g m s = f m s >>= g

-- `static_cast<uint32_t>(Uint::decode(state))`.
abbrev pub assign_word : {M : Type 0} → (M → ℕ → M) → M → State → Partial M
assign_word put = assign Uint.decode (λ m v. put m (v % 4294967296))

abbrev pub put_error : HolepunchPayload → ℕ → HolepunchPayload
put_error p v = record p { error = v }

abbrev pub put_firewall : HolepunchPayload → ℕ → HolepunchPayload
put_firewall p v = record p { firewall = v }

abbrev pub put_round : HolepunchPayload → ℕ → HolepunchPayload
put_round p v = record p { round = v }

abbrev pub put_addresses : HolepunchPayload → List Address → HolepunchPayload
put_addresses p v = record p { addresses = v }

abbrev pub put_remote : HolepunchPayload → Address → HolepunchPayload
put_remote p v = record p { remote_address = some v }

abbrev pub put_token : HolepunchPayload → List ℕ → HolepunchPayload
put_token p v = record p { token = some v }

abbrev pub put_remote_token : HolepunchPayload → List ℕ → HolepunchPayload
put_remote_token p v = record p { remote_token = some v }

-- A firewall above `RANDOM` ends the decoding.
abbrev pub check_firewall : HolepunchPayload → State → Partial HolepunchPayload
check_firewall p s = if ltb 3 p.firewall then halted p else going p s

abbrev pub addresses_step : ℕ → HolepunchPayload → State → Partial HolepunchPayload
addresses_step flags = only_if (has_flag flags 4) (assign ipv4_array.decode put_addresses)

abbrev pub remote_step : ℕ → HolepunchPayload → State → Partial HolepunchPayload
remote_step flags = only_if (has_flag flags 8) (assign ipv4_addr.decode put_remote)

abbrev pub token_step : ℕ → HolepunchPayload → State → Partial HolepunchPayload
token_step flags = only_if (has_flag flags 16) (assign fixed32.decode put_token)

abbrev pub remote_token_step : ℕ → HolepunchPayload → State → Partial HolepunchPayload
remote_token_step flags = only_if (has_flag flags 32) (assign fixed32.decode put_remote_token)

abbrev pub from_token : ℕ → HolepunchPayload → State → Partial HolepunchPayload
from_token flags = and_then (token_step flags) (remote_token_step flags)

abbrev pub from_remote : ℕ → HolepunchPayload → State → Partial HolepunchPayload
from_remote flags = and_then (remote_step flags) (from_token flags)

abbrev pub from_addresses : ℕ → HolepunchPayload → State → Partial HolepunchPayload
from_addresses flags = and_then (addresses_step flags) (from_remote flags)

abbrev pub from_round : ℕ → HolepunchPayload → State → Partial HolepunchPayload
from_round flags = and_then (assign_word put_round) (from_addresses flags)

abbrev pub from_check : ℕ → HolepunchPayload → State → Partial HolepunchPayload
from_check flags = and_then check_firewall (from_round flags)

abbrev pub from_firewall : ℕ → HolepunchPayload → State → Partial HolepunchPayload
from_firewall flags = and_then (assign_word put_firewall) (from_check flags)

unfoldable pub fill_payload : ℕ → HolepunchPayload → State → Partial HolepunchPayload
fill_payload flags = and_then (assign_word put_error) (from_firewall flags)

-- The two bits of the payload itself are kept before anything else is read.
abbrev pub flagged : ℕ → HolepunchPayload
flagged flags = record blank_payload { connected = has_flag flags 1; punching = has_flag flags 2 }

abbrev pub decode_behind : ℕ → State → HolepunchPayload
decode_behind raw s =
    if s.error
    then blank_payload
    else result (fill_payload (raw % 4294967296) (flagged (raw % 4294967296)) s)

unfoldable pub decode_holepunch_payload : List ℕ → HolepunchPayload
decode_holepunch_payload bytes =
    let (raw, s) = Uint.decode (for_decode bytes) in decode_behind raw s
