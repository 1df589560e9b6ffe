-- ===== src/Holepunch/Payload/RoundTrip.antt =====
-- `encode_holepunch_payload` against `decode_holepunch_payload` of holepunch.cpp.
use hyperdht_cpp.Prelude.{
  ℕ, ◌%◌, ◌≤◌, ◌≡◌, refl, ap, sym, ◌∙◌, Option, none, some, Bool, true, false, List, [], ◌∷◌, ◌++◌,
  append-nil, length, ltb, is_some, IsArray, IsU32, IsU64, arith, if-false,
}
use hyperdht_cpp.Compact.State.{State, for_decode, advance}
use hyperdht_cpp.Compact.Cursor.{Unread-advance, advance-zero}
use hyperdht_cpp.Compact.Address.{Address, IsAddress}
use hyperdht_cpp.Compact.Fixed.{fixed32}
use hyperdht_cpp.Compact.Parts.{
  plain, ipv4_array, AreAddresses, Piece-uint, Piece-fixed_option, fixed_reads, uint_reads,
  ipv4_array_reads,
}
use hyperdht_cpp.Compact.Sequence.{
  run_lem, Piece, Piece-append, wire_option, ValidOption, for_decode-Unread,
}
use hyperdht_cpp.Compact.Address
use hyperdht_cpp.Compact.Uint
use hyperdht_cpp.Messages.Flags.{seven_flags-Reads, ReadsSeven, has_flag}
use hyperdht_cpp.Messages.Response.{has_nodes}
use hyperdht_cpp.Messages.Response.RoundTrip.{wire_nodes, Piece-nodes}
use hyperdht_cpp.DhtMessages.Partial.{
  going, result, assign, only_if, Fills, Fills-bind, Fills-assign, Fills-announced, Fills-nothing,
}
use hyperdht_cpp.Handshake.RoundTrip.{Fills-address, Piece-address}
use hyperdht_cpp.Holepunch.Payload.{
  HolepunchPayload, assign_word, blank_payload, check_firewall, decode_behind,
  decode_holepunch_payload, encode_holepunch_payload, encode_payload, fill_payload, flagged,
  addresses_step, remote_step, token_step, remote_token_step, from_token, from_remote,
  from_addresses, from_round, from_check, from_firewall, payload_flags, preencode_payload,
  put_addresses, put_error, put_firewall, put_remote, put_remote_token, put_round, put_token,
}

abbrev pub wire_optional : HolepunchPayload → List ℕ
wire_optional p =
    wire_nodes p.addresses
    ++ (wire_option Address.wire p.remote_address
        ++ (wire_option plain p.token ++ wire_option plain p.remote_token))

abbrev pub wire_fields : HolepunchPayload → List ℕ
wire_fields p =
    Uint.wire p.error ++ (Uint.wire p.firewall ++ (Uint.wire p.round ++ wire_optional p))

abbrev pub wire : HolepunchPayload → List ℕ
wire p = Uint.wire (payload_flags p) ++ wire_fields p

pub record IsPayload (p : HolepunchPayload) : Type 0 where
  pub error_range : IsU32 p.error
  pub firewall_range : p.firewall ≤ 3
  pub round_range : IsU32 p.round
  pub addresses_range : AreAddresses p.addresses
  pub remote_range : ValidOption (IsAddress 4) p.remote_address
  pub token_array : ValidOption (IsArray 32) p.token
  pub remote_token_array : ValidOption (IsArray 32) p.remote_token

flag_bits :
    (p : HolepunchPayload)
    → ReadsSeven p.connected p.punching
        (has_nodes p.addresses)
        (is_some p.remote_address)
        (is_some p.token)
        (is_some p.remote_token)
        false
        (payload_flags p)
unfolding payload_flags
flag_bits p = seven_flags-Reads _ _ _ _ _ _ _

Piece-payload :
    (p : HolepunchPayload) → IsPayload p → Piece (preencode_payload p) (encode_payload p) (wire p)
unfolding preencode_payload encode_payload
Piece-payload p h =
    Piece-append (Piece-uint (payload_flags p) (omega (arith, (flag_bits p).small))) (
      Piece-append (Piece-uint p.error (omega (arith, h.error_range))) (
        Piece-append (Piece-uint p.firewall (omega (arith, h.firewall_range))) (
          Piece-append (Piece-uint p.round (omega (arith, h.round_range))) (
            Piece-append (Piece-nodes p.addresses h.addresses_range) (
              Piece-append (Piece-address p.remote_address h.remote_range) (
                Piece-append (Piece-fixed_option 32 p.token h.token_array)
                  (Piece-fixed_option 32 p.remote_token h.remote_token_array)))))))

pub Fills-word :
    {M : Type 0} (put : M → ℕ → M) (m : M) (v : ℕ)
    → IsU32 v
    → Fills (assign_word put) m (put m v) (Uint.wire v)
Fills-word put m v h s rest u =
    let small : v % 4294967296 ≡ v = omega arith in
    Fills-assign Uint.decode (λ m v. put m (v % 4294967296)) m v (Uint.wire v)
      (uint_reads v (omega arith)) s rest u
    ∙ ap (λ (k : ℕ). going (put m k) (advance s (length (Uint.wire v)))) small

-- The addresses behind their flag, which is not set when there are none.
pub Fills-nodes :
    {M : Type 0} (put : M → List Address → M) (m : M) (given : List Address → M) (flag : Bool)
    (ns : List Address)
    → flag ≡ has_nodes ns
    → AreAddresses ns
    → m ≡ given []
    → ((v : List Address) → put m v ≡ given v)
    → Fills (only_if flag (assign ipv4_array.decode put)) m (given ns) (wire_nodes ns)
Fills-nodes put m given true [] e h p q = absurd cc
Fills-nodes put m given false [] e h p q =
    λ s rest u. Fills-nothing m s rest u ∙ ap (λ x. going x (advance s 0)) p
Fills-nodes put m given false (n ∷ ns) e h p q = absurd cc
Fills-nodes put m given true (n ∷ ns) e h p q = λ s rest u.
    Fills-assign ipv4_array.decode put m (n ∷ ns) (wire_nodes (n ∷ ns))
      (ipv4_array_reads (n ∷ ns) h) s rest u
    ∙ ap (λ x. going x (advance s (length (wire_nodes (n ∷ ns))))) (q (n ∷ ns))

pub Fills-array :
    {M : Type 0} (put : M → List ℕ → M) (m : M) (given : Option (List ℕ) → M) (flag : Bool)
    (o : Option (List ℕ))
    → flag ≡ is_some o
    → ValidOption (IsArray 32) o
    → m ≡ given none
    → ((v : List ℕ) → put m v ≡ given (some v))
    → Fills (only_if flag (assign fixed32.decode put)) m (given o) (wire_option plain o)
Fills-array = Fills-announced fixed32.decode plain (IsArray 32) (fixed_reads 32)

Fills-firewall : (p : HolepunchPayload) → p.firewall ≤ 3 → Fills check_firewall p p []
Fills-firewall p h s rest u =
    if-false _ _ (ltb 3 p.firewall) (ground arith) ∙ ap (going p) (sym (advance-zero s))

Fills-optional :
    (p : HolepunchPayload) (flags : ℕ)
    → ReadsSeven p.connected p.punching
        (has_nodes p.addresses)
        (is_some p.remote_address)
        (is_some p.token)
        (is_some p.remote_token)
        false
        flags
    → IsPayload p
    → Fills
        (from_addresses flags)
        (record p { addresses = []; remote_address = none; token = none; remote_token = none })
        p
        (wire_optional p)
Fills-optional p flags b h =
    let bare = record p {
      addresses = [];
      remote_address = none;
      token = none;
      remote_token = none;
    } in
    let reached = record bare { addresses = p.addresses } in
    let remote = record reached { remote_address = p.remote_address } in
    let known = record remote { token = p.token } in
    Fills-bind (addresses_step flags) (from_remote flags) bare reached p _ _
      (Fills-nodes put_addresses bare (λ v. record bare { addresses = v }) _ p.addresses b.bit2
        h.addresses_range refl (λ v. refl))
      (Fills-bind (remote_step flags) (from_token flags) reached remote p _ _
        (Fills-address put_remote reached (λ v. record reached { remote_address = v }) _
          p.remote_address b.bit3 h.remote_range refl (λ v. refl))
        (Fills-bind (token_step flags) (remote_token_step flags) remote known p _ _
          (Fills-array put_token remote (λ v. record remote { token = v }) _ p.token b.bit4
            h.token_array refl (λ v. refl))
          (Fills-array put_remote_token known (λ v. record known { remote_token = v }) _
            p.remote_token b.bit5 h.remote_token_array refl (λ v. refl))))

Fills-payload :
    (p : HolepunchPayload)
    → IsPayload p
    → Fills
        (fill_payload (payload_flags p))
        (record blank_payload { connected = p.connected; punching = p.punching })
        p
        (wire_fields p)
unfolding fill_payload
Fills-payload p h =
    let flags = payload_flags p in
    let zeroth = record blank_payload { connected = p.connected; punching = p.punching } in
    let first = record zeroth { error = p.error } in
    let second = record first { firewall = p.firewall } in
    let third = record second { round = p.round } in
    Fills-bind (assign_word put_error) (from_firewall flags) zeroth first p (Uint.wire p.error)
      (Uint.wire p.firewall ++ (Uint.wire p.round ++ wire_optional p))
      (Fills-word put_error zeroth p.error h.error_range)
      (Fills-bind (assign_word put_firewall) (from_check flags) first second p
        (Uint.wire p.firewall) (Uint.wire p.round ++ wire_optional p)
        (Fills-word put_firewall first p.firewall (omega (arith, h.firewall_range)))
        (Fills-bind check_firewall (from_round flags) second second p []
          (Uint.wire p.round ++ wire_optional p) (Fills-firewall second h.firewall_range)
          (Fills-bind (assign_word put_round) (from_addresses flags) second third p
            (Uint.wire p.round) (wire_optional p)
            (Fills-word put_round second p.round h.round_range)
            (Fills-optional p flags (flag_bits p) h))))

behind_flags :
    (p : HolepunchPayload) (s : State)
    → s.error ≡ false
    → decode_behind (payload_flags p) s
      ≡ result (
          fill_payload
            (payload_flags p)
            (record blank_payload { connected = p.connected; punching = p.punching })
            s)
behind_flags p s e =
    let flags = payload_flags p in
    let b = flag_bits p in
    let small : flags % 4294967296 ≡ flags = omega (arith, b.small) in
    if-false _ _ s.error e
    ∙ ap (λ (f : ℕ). result (fill_payload f (flagged f) s)) small
    ∙ ap
        (λ (c : Bool). result (
          fill_payload flags (record blank_payload { connected = c; punching = has_flag flags 2 })
            s))
        b.bit0
    ∙ ap
        (λ (c : Bool).
          result
            (fill_payload flags (record blank_payload { connected = p.connected; punching = c }) s))
        b.bit1

-- A holepunch payload whose error and round fit 32 bits, whose firewall is one of the four, and whose addresses and tokens are
-- valid is encoded as its flags, these three numbers and the optional fields that it has, and reads back.
pub decode_holepunch_payload-encode :
    (p : HolepunchPayload)
    → IsPayload p
    → IsU64 (length (wire p))
    → (encode_holepunch_payload p ≡ wire p)
      × (decode_holepunch_payload (encode_holepunch_payload p) ≡ p)
unfolding encode_holepunch_payload decode_holepunch_payload
decode_holepunch_payload-encode p h k =
    let flags = payload_flags p in
    let written = run_lem (Piece-payload p h) k in
    let behind = advance (for_decode (wire p)) (length (Uint.wire flags)) in
    let all = for_decode-Unread (wire p) in
    (
      written,
      ap
            (λ (bytes : List ℕ).
              decode_behind (Uint.decode (for_decode bytes)).0 (Uint.decode (for_decode bytes)).1)
            written
          ∙ ap (λ (q : ℕ × State). decode_behind q.0 q.1)
              (uint_reads flags (omega (arith, (flag_bits p).small)) (for_decode (wire p))
                (wire_fields p) all)
          ∙ behind_flags p behind refl
          ∙ ap result (
              Fills-payload p h behind [] (
                rw append-nil
                  (Unread-advance (for_decode (wire p)) (Uint.wire flags) (wire_fields p) all))),
    )
