-- ===== src/Messages/Request/RoundTrip.antt =====
-- `encode_request` against `decode_request` of messages.cpp.
use hyperdht_cpp.Prelude.{
  ℕ, ◌%◌, ◌≡◌, ap, Bool, some, List, ◌∷◌, ◌++◌, length, arith, is_some, IsU16, IsU32, IsU64,
  IsArray,
}
use hyperdht_cpp.Compact.State.{le16}
use hyperdht_cpp.Compact.Address.{Address, ipv4_addr, IsAddress}
use hyperdht_cpp.Compact.Fixed.{fixed32, fixed-IsLawful}
use hyperdht_cpp.Compact.Parts.{
  plain, Piece-uint, Piece-uint16, Piece-ipv4, Piece-fixed_option, Parses-uint, Parses-uint16,
  Parses-ipv4,
}
use hyperdht_cpp.Compact.Sequence.{
  run_lem, Piece, Piece-append, Parses, Parses-bind, Parses-map, Parses-outcome, wire_option,
  ValidOption,
}
use hyperdht_cpp.Compact.Uint
use hyperdht_cpp.Compact.Address
use hyperdht_cpp.Messages.Flags.{request_id, five_flags-Reads, Reads, has_flag}
use hyperdht_cpp.Messages.Field.{
  wire_value, IsValue, Parses-announced, Parses-announced_value, Piece-announced_value,
  Parses-flags,
}
use hyperdht_cpp.Messages.Request.{
  Request, blank_request, request_flags, preencode_request, encode_request_fields, encode_request,
  decode_request_fields, decode_request,
}

-- The body of a request on the wire.
abbrev pub wire : Request → List ℕ
wire r =
    Uint.wire (request_flags r)
    ++ (le16 r.tid
        ++ (Address.wire r.to
            ++ (wire_option plain r.id
                ++ (wire_option plain r.token
                    ++ (Uint.wire r.command
                        ++ (wire_option plain r.target ++ wire_option wire_value r.value))))))

-- A request that the envelope can carry.
pub record IsRequest (r : Request) : Type 0 where
  pub tid_range : IsU16 r.tid
  pub to_range : IsAddress 4 r.to
  pub id_array : ValidOption (IsArray 32) r.id
  pub token_array : ValidOption (IsArray 32) r.token
  pub command_range : IsU32 r.command
  pub target_array : ValidOption (IsArray 32) r.target
  pub value_cap : ValidOption IsValue r.value

pub flag_bits :
    (r : Request)
    → Reads
        (is_some r.id)
        (is_some r.token)
        r.internal
        (is_some r.target)
        (is_some r.value)
        (request_flags r)
unfolding request_flags
flag_bits r = five_flags-Reads _ _ _ _ _

Piece-request :
    (r : Request) → IsRequest r → Piece (preencode_request r) (encode_request_fields r) (wire r)
unfolding preencode_request encode_request_fields
Piece-request r h =
    Piece-append (Piece-uint (request_flags r) (omega (arith, (flag_bits r).small))) (
      Piece-append (Piece-uint16 r.tid h.tid_range) (
        Piece-append (Piece-ipv4 r.to h.to_range) (
          Piece-append (Piece-fixed_option 32 r.id h.id_array) (
            Piece-append (Piece-fixed_option 32 r.token h.token_array) (
              Piece-append (Piece-uint r.command (omega (arith, h.command_range))) (
                Piece-append (Piece-fixed_option 32 r.target h.target_array)
                  (Piece-announced_value r.value h.value_cap)))))))

-- What is read into a request that has none of the optional fields yet.
abbrev pub received : Request → Request → Request
received r old = record r {
  flags = request_flags r;
  from = old.from;
  from_server = old.from_server;
}

Parses-request :
    (r : Request) (from : Address) (from_server : Bool)
    → IsRequest r
    → let old = record blank_request { from = from; from_server = from_server } in
      Parses (decode_request_fields old) (received r old) (wire r)
unfolding decode_request_fields
Parses-request r from from_server h =
    let bits = flag_bits r in
    Parses-bind _ _ _ _ _ _ (Parses-flags (request_flags r) bits.small) (
      Parses-bind _ _ _ _ _ _ (Parses-uint16 r.tid h.tid_range) (
        Parses-bind _ _ _ _ _ _ (Parses-ipv4 r.to h.to_range) (
          Parses-bind _ _ _ _ _ _
            (Parses-announced fixed32 plain (IsArray 32) (fixed-IsLawful 32) _ r.id bits.bit0
              h.id_array)
            (Parses-bind _ _ _ _ _ _
              (Parses-announced fixed32 plain (IsArray 32) (fixed-IsLawful 32) _ r.token bits.bit1
                h.token_array)
              (Parses-bind _ _ _ _ _ _ (Parses-uint r.command (omega (arith, h.command_range))) (
                Parses-bind _ _ _ _ _ _
                  (Parses-announced fixed32 plain (IsArray 32) (fixed-IsLawful 32) _ r.target
                    bits.bit3 h.target_array)
                  (Parses-map _ _ _ _ _ (Parses-announced_value _ r.value bits.bit4 h.value_cap)
                    (λ s. ap (λ (q : Request). some (q, s)) (final bits)))))))))
  where
    final :
        Reads
          (is_some r.id)
          (is_some r.token)
          r.internal
          (is_some r.target)
          (is_some r.value)
          (request_flags r)
        → record r {
          flags = request_flags r;
          from = from;
          command = r.command % 4294967296;
          internal = has_flag (request_flags r) 4;
          from_server = from_server;
        }
          ≡ record r { flags = request_flags r; from = from; from_server = from_server }
    final bits =
        let e : r.command % 4294967296 ≡ r.command = omega (arith, h.command_range) in
        λ i. record r {
          flags = request_flags r;
          from = from;
          command = e i;
          internal = bits.bit2 i;
          from_server = from_server;
        }

-- A request whose fields fit the envelope is encoded as its type byte and then the fields that
-- it has, in the order of the protocol.
pub encode_request_lem :
    (r : Request) → IsRequest r → IsU64 (length (wire r)) → encode_request r ≡ request_id ∷ wire r
unfolding encode_request
encode_request_lem r h k = ap (◌∷◌ request_id) (run_lem (Piece-request r h) k)

-- The body reads back: all fields of the wire, and the flags that they give.
pub decode_request-wire :
    (r : Request) (from : Address) (from_server : Bool)
    → IsRequest r
    → let old = record blank_request { from = from; from_server = from_server } in
      decode_request (wire r) old ≡ some (received r old)
unfolding decode_request
decode_request-wire r from from_server h =
    Parses-outcome _ _ (wire r) (Parses-request r from from_server h)
