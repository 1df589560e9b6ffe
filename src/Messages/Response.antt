-- ===== src/Messages/Response.antt =====
-- `Response`, `encode_response` and `decode_response` of messages.cpp.
pub mod RoundTrip
use hyperdht_cpp.Prelude.{
  ℕ, ◌%◌, Bool, true, false, not, Option, none, some, List, [], ◌∷◌, if◌then◌else◌, is_some,
}
use hyperdht_cpp.Compact.State.{State, for_decode}
use hyperdht_cpp.Compact.Address.{Address, ipv4_addr, blank}
use hyperdht_cpp.Compact.Fixed.{fixed32}
use hyperdht_cpp.Compact.Parts.{ipv4_array}
use hyperdht_cpp.Compact.Sequence.{run, if_present, Decoder, ◌>>=◌, pure, checked, outcome}
use hyperdht_cpp.Compact.Uint
use hyperdht_cpp.Compact.Uint16
use hyperdht_cpp.Messages.Flags.{response_id, five_flags, has_flag}
use hyperdht_cpp.Messages.Field.{
  preencode_value, encode_value, announced, announced_value, decode_flags,
}

pub record Response : Type 0 where
  pub flags : ℕ
  pub tid : ℕ
  pub from : Address
  pub id : Option (List ℕ)
  pub token : Option (List ℕ)
  pub closer_nodes : List Address
  pub error : Option ℕ
  pub value : Option (List ℕ)

abbrev pub blank_response : Response
blank_response = record {
  flags = 0;
  tid = 0;
  from = blank 4;
  id = none;
  token = none;
  closer_nodes = [];
  error = none;
  value = none;
}

-- `!closer_nodes.empty()`.
abbrev pub has_nodes : List Address → Bool
has_nodes [] = false
has_nodes (n ∷ ns) = true

-- `if (!closer_nodes.empty()) step(state, closer_nodes)`.
abbrev pub if_nodes : (State → List Address → State) → State → List Address → State
if_nodes step s [] = s
if_nodes step s (n ∷ ns) = step s (n ∷ ns)

unfoldable pub response_flags : Response → ℕ
response_flags r =
    five_flags (is_some r.id) (is_some r.token) (has_nodes r.closer_nodes) (is_some r.error)
      (is_some r.value)

unfoldable pub preencode_response : Response → State → State
preencode_response r s0 =
    let s1 = Uint.preencode s0 (response_flags r) in
    let s2 = Uint16.preencode s1 r.tid in
    let s3 = ipv4_addr.preencode s2 r.from in
    let s4 = if_present fixed32.preencode s3 r.id in
    let s5 = if_present fixed32.preencode s4 r.token in
    let s6 = if_nodes ipv4_array.preencode s5 r.closer_nodes in
    let s7 = if_present Uint.preencode s6 r.error in if_present preencode_value s7 r.value

unfoldable pub encode_response_fields : Response → State → State
encode_response_fields r s0 =
    let s1 = Uint.encode s0 (response_flags r) in
    let s2 = Uint16.encode s1 r.tid in
    let s3 = ipv4_addr.encode s2 r.from in
    let s4 = if_present fixed32.encode s3 r.id in
    let s5 = if_present fixed32.encode s4 r.token in
    let s6 = if_nodes ipv4_array.encode s5 r.closer_nodes in
    let s7 = if_present Uint.encode s6 r.error in if_present encode_value s7 r.value

unfoldable pub encode_response : Response → List ℕ
encode_response r = response_id ∷ run (preencode_response r) (encode_response_fields r)

-- The nodes that the flags announce; without the flag they stay as they are.
abbrev pub announced_nodes : Bool → List Address → Decoder (List Address)
announced_nodes true old = checked ipv4_array.decode
announced_nodes false old = pure old

-- `static_cast<uint32_t>(Uint::decode(state))`.
abbrev pub announced_error : Bool → Option ℕ → Decoder (Option ℕ)
announced_error true old = checked Uint.decode >>= λ v. pure (some (v % 4294967296))
announced_error false old = pure old

unfoldable pub decode_response_fields : Response → Decoder Response
decode_response_fields r = do
  flags ← decode_flags
  tid ← checked Uint16.decode
  from ← checked ipv4_addr.decode
  id ← announced (has_flag flags 1) fixed32.decode r.id
  token ← announced (has_flag flags 2) fixed32.decode r.token
  closer_nodes ← announced_nodes (has_flag flags 4) r.closer_nodes
  error ← announced_error (has_flag flags 8) r.error
  value ← announced_value (has_flag flags 16) r.value
  pure (record {
    flags = flags;
    tid = tid;
    from = from;
    id = id;
    token = token;
    closer_nodes = closer_nodes;
    error = error;
    value = value;
  })

unfoldable pub decode_response : List ℕ → Response → Option Response
decode_response bytes r = outcome (decode_response_fields r (for_decode bytes))
