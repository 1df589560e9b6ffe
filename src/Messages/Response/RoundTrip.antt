-- ===== src/Messages/Response/RoundTrip.antt =====
-- `encode_response` against `decode_response` of messages.cpp.
use hyperdht_cpp.Prelude.{
  ℕ, ◌%◌, ◌≡◌, refl, ap, Bool, true, false, Option, none, some, List, [], ◌∷◌, ◌++◌, length, arith,
  is_some, IsU16, IsU32, IsU64, IsArray,
}
use hyperdht_cpp.Compact.State.{le16}
use hyperdht_cpp.Compact.Address.{Address, ipv4_addr, IsAddress}
use hyperdht_cpp.Compact.Fixed.{fixed32, fixed-IsLawful}
use hyperdht_cpp.Compact.Parts.{
  plain, ipv4_array, wire_addresses, AreAddresses, Piece-ipv4_array, Parses-ipv4_array, Piece-uint,
  Piece-uint16, Piece-ipv4, Piece-fixed_option, Parses-uint, Parses-uint16, Parses-ipv4,
}
use hyperdht_cpp.Compact.Sequence.{
  run_lem, if_present, Piece, Piece-nil, Piece-append, Parses, Parses-bind, Parses-map, Parses-pure,
  Parses-outcome, wire_option, ValidOption,
}
use hyperdht_cpp.Compact.Uint
use hyperdht_cpp.Compact.Address
use hyperdht_cpp.Messages.Flags.{response_id, five_flags-Reads, Reads}
use hyperdht_cpp.Messages.Field.{
  wire_value, IsValue, Parses-announced, Parses-announced_value, Piece-announced_value,
  Parses-flags,
}
use hyperdht_cpp.Messages.Response.{
  Response, blank_response, has_nodes, if_nodes, response_flags, preencode_response,
  encode_response_fields, encode_response, announced_nodes, announced_error, decode_response_fields,
  decode_response,
}

abbrev pub wire_nodes : List Address → List ℕ
wire_nodes [] = []
wire_nodes (n ∷ ns) = wire_addresses (n ∷ ns)

-- The body of a response on the wire.
abbrev pub wire : Response → List ℕ
wire r =
    Uint.wire (response_flags r)
    ++ (le16 r.tid
        ++ (Address.wire r.from
            ++ (wire_option plain r.id
                ++ (wire_option plain r.token
                    ++ (wire_nodes r.closer_nodes
                        ++ (wire_option Uint.wire r.error ++ wire_option wire_value r.value))))))

-- A response that the envelope can carry.
pub record IsResponse (r : Response) : Type 0 where
  pub tid_range : IsU16 r.tid
  pub from_range : IsAddress 4 r.from
  pub id_array : ValidOption (IsArray 32) r.id
  pub token_array : ValidOption (IsArray 32) r.token
  pub nodes_range : AreAddresses r.closer_nodes
  pub error_range : ValidOption IsU32 r.error
  pub value_cap : ValidOption IsValue r.value

pub flag_bits :
    (r : Response)
    → Reads
        (is_some r.id)
        (is_some r.token)
        (has_nodes r.closer_nodes)
        (is_some r.error)
        (is_some r.value)
        (response_flags r)
unfolding response_flags
flag_bits r = five_flags-Reads _ _ _ _ _

pub Piece-nodes :
    (ns : List Address)
    → AreAddresses ns
    → Piece
        (λ s. if_nodes ipv4_array.preencode s ns)
        (λ s. if_nodes ipv4_array.encode s ns)
        (wire_nodes ns)
Piece-nodes [] h = Piece-nil
Piece-nodes (n ∷ ns) h = Piece-ipv4_array (n ∷ ns) h

Parses-nodes :
    (flag : Bool) (ns : List Address)
    → flag ≡ has_nodes ns
    → AreAddresses ns
    → Parses (announced_nodes flag []) ns (wire_nodes ns)
Parses-nodes true [] e h = cc
Parses-nodes false [] e h = Parses-pure []
Parses-nodes true (n ∷ ns) e h = Parses-ipv4_array (n ∷ ns) h
Parses-nodes false (n ∷ ns) e h = cc

Piece-error :
    (o : Option ℕ)
    → ValidOption IsU32 o
    → Piece
        (λ s. if_present Uint.preencode s o)
        (λ s. if_present Uint.encode s o)
        (wire_option Uint.wire o)
Piece-error none h = Piece-nil
Piece-error (some v) h = Piece-uint v (omega arith)

Parses-error :
    (flag : Bool) (o : Option ℕ)
    → flag ≡ is_some o
    → ValidOption IsU32 o
    → Parses (announced_error flag none) o (wire_option Uint.wire o)
Parses-error true none e h = cc
Parses-error false none e h = Parses-pure none
Parses-error false (some v) e h = cc
Parses-error true (some v) e h =
    let small : v % 4294967296 ≡ v = omega arith in
    Parses-map _ _ _ _ _ (Parses-uint v (omega arith)) (λ s. ap (λ (w : ℕ). some (some w, s)) small)

Piece-response :
    (r : Response) → IsResponse r → Piece (preencode_response r) (encode_response_fields r) (wire r)
unfolding preencode_response encode_response_fields
Piece-response r h =
    Piece-append (Piece-uint (response_flags r) (omega (arith, (flag_bits r).small))) (
      Piece-append (Piece-uint16 r.tid h.tid_range) (
        Piece-append (Piece-ipv4 r.from h.from_range) (
          Piece-append (Piece-fixed_option 32 r.id h.id_array) (
            Piece-append (Piece-fixed_option 32 r.token h.token_array) (
              Piece-append (Piece-nodes r.closer_nodes h.nodes_range) (
                Piece-append (Piece-error r.error h.error_range)
                  (Piece-announced_value r.value h.value_cap)))))))

Parses-response :
    (r : Response)
    → IsResponse r
    → Parses
        (decode_response_fields blank_response)
        (record r { flags = response_flags r })
        (wire r)
unfolding decode_response_fields
Parses-response r h =
    let bits = flag_bits r in
    Parses-bind _ _ _ _ _ _ (Parses-flags (response_flags r) bits.small) (
      Parses-bind _ _ _ _ _ _ (Parses-uint16 r.tid h.tid_range) (
        Parses-bind _ _ _ _ _ _ (Parses-ipv4 r.from h.from_range) (
          Parses-bind _ _ _ _ _ _
            (Parses-announced fixed32 plain (IsArray 32) (fixed-IsLawful 32) _ r.id bits.bit0
              h.id_array)
            (Parses-bind _ _ _ _ _ _
              (Parses-announced fixed32 plain (IsArray 32) (fixed-IsLawful 32) _ r.token bits.bit1
                h.token_array)
              (Parses-bind _ _ _ _ _ _ (Parses-nodes _ r.closer_nodes bits.bit2 h.nodes_range) (
                Parses-bind _ _ _ _ _ _ (Parses-error _ r.error bits.bit3 h.error_range) (
                  Parses-map _ _ _ _ _ (Parses-announced_value _ r.value bits.bit4 h.value_cap)
                    (λ s. refl))))))))

-- A response whose fields fit the envelope is encoded as its type byte and then the fields
-- that it has, in the order of the protocol.
pub encode_response_lem :
    (r : Response)
    → IsResponse r
    → IsU64 (length (wire r))
    → encode_response r ≡ response_id ∷ wire r
unfolding encode_response
encode_response_lem r h k = ap (◌∷◌ response_id) (run_lem (Piece-response r h) k)

-- The body reads back: all fields, and the flags that they give.
pub decode_response-wire :
    (r : Response)
    → IsResponse r
    → decode_response (wire r) blank_response ≡ some (record r { flags = response_flags r })
unfolding decode_response
decode_response-wire r h = Parses-outcome _ _ (wire r) (Parses-response r h)
