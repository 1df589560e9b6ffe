-- ===== src/Holepunch/Message.antt =====
-- `HolepunchMessage`, its encoder and its decoder.
pub mod RoundTrip
use hyperdht_cpp.Prelude.{
  ℕ, ◌%◌, Bool, true, false, ◌||◌, Option, none, some, List, [], ◌∷◌, if◌then◌else◌, ltb, is_some,
}
use hyperdht_cpp.Compact.State.{State, for_decode}
use hyperdht_cpp.Compact.Address.{Address, ipv4_addr}
use hyperdht_cpp.Compact.Buffer.{contents}
use hyperdht_cpp.Compact.Sequence.{run, if_present}
use hyperdht_cpp.Compact.Buffer
use hyperdht_cpp.Compact.Uint
use hyperdht_cpp.Messages.Flags.{five_flags, has_flag}
use hyperdht_cpp.Messages.Field.{preencode_value, encode_value}
use hyperdht_cpp.DhtMessages.Partial.{
  Partial, halted, going, result, assign, assign_checked, only_if, ◌>>=◌,
}

pub record HolepunchMessage : Type 0 where
  pub mode : ℕ
  pub id : ℕ
  pub payload : List ℕ
  pub peer_address : Option Address

abbrev pub blank_holepunch : HolepunchMessage
blank_holepunch = record { mode = 0; id = 0; payload = []; peer_address = none }

unfoldable pub holepunch_flags : HolepunchMessage → ℕ
holepunch_flags m = five_flags (is_some m.peer_address) false false false false

unfoldable pub preencode_holepunch : HolepunchMessage → State → State
preencode_holepunch m s0 =
    let s1 = Uint.preencode s0 (holepunch_flags m) in
    let s2 = Uint.preencode s1 m.mode in
    let s3 = Uint.preencode s2 m.id in
    let s4 = preencode_value s3 m.payload in if_present ipv4_addr.preencode s4 m.peer_address

unfoldable pub encode_holepunch : HolepunchMessage → State → State
encode_holepunch m s0 =
    let s1 = Uint.encode s0 (holepunch_flags m) in
    let s2 = Uint.encode s1 m.mode in
    let s3 = Uint.encode s2 m.id in
    let s4 = encode_value s3 m.payload in if_present ipv4_addr.encode s4 m.peer_address

unfoldable pub encode_holepunch_msg : HolepunchMessage → List ℕ
encode_holepunch_msg m = run (preencode_holepunch m) (encode_holepunch m)

-- `if (state.error || raw > limit) { state.error = true; return m; }`, and then the field is set.
abbrev pub assign_bounded :
    {M : Type 0} → ℕ → (State → ℕ × State) → (M → ℕ → M) → M → State → Partial M
assign_bounded limit read put m s =
    let p = read s in if p.1.error || ltb limit p.0 then halted m else going (put m p.0) p.1

abbrev pub put_mode : HolepunchMessage → ℕ → HolepunchMessage
put_mode m v = record m { mode = v }

abbrev pub put_id : HolepunchMessage → ℕ → HolepunchMessage
put_id m v = record m { id = v }

abbrev pub put_payload : HolepunchMessage → Option (List ℕ) → HolepunchMessage
put_payload m v = record m { payload = contents v }

abbrev pub put_peer : HolepunchMessage → Address → HolepunchMessage
put_peer m a = record m { peer_address = some a }

abbrev pub peer_step : ℕ → HolepunchMessage → State → Partial HolepunchMessage
peer_step flags = only_if (has_flag flags 1) (assign ipv4_addr.decode put_peer)

unfoldable pub fill_holepunch : ℕ → HolepunchMessage → State → Partial HolepunchMessage
fill_holepunch flags m s =
    ((assign_bounded 0xff Uint.decode put_mode m s >>= assign_bounded 0xffffffff Uint.decode put_id)
      >>= assign_checked Buffer.decode put_payload)
    >>= peer_step flags

abbrev pub decode_behind : ℕ → State → HolepunchMessage
decode_behind raw s =
    if s.error || ltb 0xff raw
    then blank_holepunch
    else result (fill_holepunch raw blank_holepunch s)

unfoldable pub decode_holepunch_msg : List ℕ → HolepunchMessage
decode_holepunch_msg bytes = let (raw, s) = Uint.decode (for_decode bytes) in decode_behind raw s
