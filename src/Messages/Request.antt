-- ===== src/Messages/Request.antt =====
-- `Request`, `encode_request` and `decode_request`.
pub mod RoundTrip
use hyperdht_cpp.Prelude.{
  ℕ, ◌%◌, Bool, true, false, Option, none, some, List, [], ◌∷◌, if◌then◌else◌, ltb, is_some,
}
use hyperdht_cpp.Compact.State.{State, for_decode}
use hyperdht_cpp.Compact.Address.{Address, ipv4_addr, blank}
use hyperdht_cpp.Compact.Fixed.{fixed32}
use hyperdht_cpp.Compact.Sequence.{run, if_present, Decoder, ◌>>=◌, pure, checked, outcome}
use hyperdht_cpp.Compact.Uint
use hyperdht_cpp.Compact.Uint16
use hyperdht_cpp.Messages.Flags.{request_id, five_flags, has_flag}
use hyperdht_cpp.Messages.Field.{
  preencode_value, encode_value, announced, announced_value, decode_flags,
}

pub record Request : Type 0 where
  pub flags : ℕ
  pub tid : ℕ
  pub to : Address
  pub from : Address
  pub id : Option (List ℕ)
  pub token : Option (List ℕ)
  pub command : ℕ
  pub target : Option (List ℕ)
  pub value : Option (List ℕ)
  pub internal : Bool
  pub from_server : Bool

abbrev pub blank_request : Request
blank_request = record {
  flags = 0;
  tid = 0;
  to = blank 4;
  from = blank 4;
  id = none;
  token = none;
  command = 0;
  target = none;
  value = none;
  internal = false;
  from_server = false;
}

unfoldable pub request_flags : Request → ℕ
request_flags r =
    five_flags (is_some r.id) (is_some r.token) r.internal (is_some r.target) (is_some r.value)

unfoldable pub preencode_request : Request → State → State
preencode_request r s0 =
    let s1 = Uint.preencode s0 (request_flags r) in
    let s2 = Uint16.preencode s1 r.tid in
    let s3 = ipv4_addr.preencode s2 r.to in
    let s4 = if_present fixed32.preencode s3 r.id in
    let s5 = if_present fixed32.preencode s4 r.token in
    let s6 = Uint.preencode s5 r.command in
    let s7 = if_present fixed32.preencode s6 r.target in if_present preencode_value s7 r.value

unfoldable pub encode_request_fields : Request → State → State
encode_request_fields r s0 =
    let s1 = Uint.encode s0 (request_flags r) in
    let s2 = Uint16.encode s1 r.tid in
    let s3 = ipv4_addr.encode s2 r.to in
    let s4 = if_present fixed32.encode s3 r.id in
    let s5 = if_present fixed32.encode s4 r.token in
    let s6 = Uint.encode s5 r.command in
    let s7 = if_present fixed32.encode s6 r.target in if_present encode_value s7 r.value

-- The type byte, then the body.
unfoldable pub encode_request : Request → List ℕ
encode_request r = request_id ∷ run (preencode_request r) (encode_request_fields r)

unfoldable pub decode_request_fields : Request → Decoder Request
decode_request_fields r = do
  flags ← decode_flags
  tid ← checked Uint16.decode
  to ← checked ipv4_addr.decode
  id ← announced (has_flag flags 1) fixed32.decode r.id
  token ← announced (has_flag flags 2) fixed32.decode r.token
  command ← checked Uint.decode
  target ← announced (has_flag flags 8) fixed32.decode r.target
  value ← announced_value (has_flag flags 16) r.value
  pure (record r {
    flags = flags;
    tid = tid;
    to = to;
    id = id;
    token = token;
    command = command % 4294967296;
    target = target;
    value = value;
    internal = has_flag flags 4;
  })

-- `none` is the result `false`.
unfoldable pub decode_request : List ℕ → Request → Option Request
decode_request bytes r = outcome (decode_request_fields r (for_decode bytes))
