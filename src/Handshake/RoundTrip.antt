-- ===== src/Handshake/RoundTrip.antt =====
-- `encode_handshake_msg` against `decode_handshake_msg` of peer_connect.cpp.
use hyperdht_cpp.Prelude.{
  ℕ, ◌%◌, ◌≡◌, ◌<◌, refl, ap, ◌∙◌, Option, none, some, Bool, false, List, [], ◌∷◌, ◌++◌, append-nil,
  length, is_some, IsU32, IsU64, arith, if-false,
}
use hyperdht_cpp.Compact.State.{State, for_decode, advance}
use hyperdht_cpp.Compact.Cursor.{Unread-advance}
use hyperdht_cpp.Compact.Address.{Address, ipv4_addr, IsAddress, address-IsLawful}
use hyperdht_cpp.Compact.Buffer.{buffer-IsLawful}
use hyperdht_cpp.Compact.Parts.{Piece-uint, ReadsAs, uint_reads}
use hyperdht_cpp.Compact.Sequence.{
  run_lem, if_present, Piece, Piece-append, Piece-codec_option, wire_option, ValidOption,
  for_decode-Unread,
}
use hyperdht_cpp.Compact.Address
use hyperdht_cpp.Compact.Buffer
use hyperdht_cpp.Compact.Uint
use hyperdht_cpp.Messages.Flags.{five_flags-Reads, Reads}
use hyperdht_cpp.Messages.Field.{IsValue, wire_value, Piece-value}
use hyperdht_cpp.DhtMessages.Partial.{
  Partial, result, assign, assign_checked, only_if, ◌>>=◌, Fills, Fills-bind, Fills-assign,
  Fills-assign_checked, Fills-announced,
}
use hyperdht_cpp.Handshake.{
  HandshakeMessage, blank_handshake, handshake_flags, preencode_handshake, encode_handshake,
  encode_handshake_msg, put_mode, put_noise, put_peer, put_relay, peer_step, relay_step,
  fill_handshake, decode_behind, decode_handshake_msg,
}

-- What reads back of a vector behind its length.
pub Fills-contents :
    {M : Type 0} (put : M → List ℕ → M) (m : M) (bytes : List ℕ)
    → IsValue bytes
    → Fills
        (assign_checked Buffer.decode (λ m v. put m (Buffer.contents v)))
        m
        (put m bytes)
        (wire_value bytes)
Fills-contents put m [] h =
    Fills-assign_checked Buffer.decode (λ m v. put m (Buffer.contents v)) m none (wire_value [])
      (λ s rest u. buffer-IsLawful.decode_lem s none rest tt u)
Fills-contents put m (b ∷ bytes) h =
    Fills-assign_checked Buffer.decode (λ m v. put m (Buffer.contents v)) m (some (b ∷ bytes))
      (wire_value (b ∷ bytes))
      (λ s rest u. buffer-IsLawful.decode_lem s (some (b ∷ bytes)) rest (omega arith) u)

pub ipv4_reads : (a : Address) → IsAddress 4 a → ReadsAs ipv4_addr.decode a (Address.wire a)
ipv4_reads a h s rest u = (address-IsLawful 4).decode_lem s a rest h u

-- An optional address that follows its flag.
pub Fills-address :
    {M : Type 0} (put : M → Address → M) (m : M) (given : Option Address → M) (flag : Bool)
    (o : Option Address)
    → flag ≡ is_some o
    → ValidOption (IsAddress 4) o
    → m ≡ given none
    → ((a : Address) → put m a ≡ given (some a))
    → Fills (only_if flag (assign ipv4_addr.decode put)) m (given o) (wire_option Address.wire o)
Fills-address = Fills-announced ipv4_addr.decode Address.wire (IsAddress 4) ipv4_reads

pub Piece-address :
    (o : Option Address)
    → ValidOption (IsAddress 4) o
    → Piece
        (λ s. if_present ipv4_addr.preencode s o)
        (λ s. if_present ipv4_addr.encode s o)
        (wire_option Address.wire o)
Piece-address = Piece-codec_option ipv4_addr Address.wire (IsAddress 4) (address-IsLawful 4)

abbrev pub wire_fields : HandshakeMessage → List ℕ
wire_fields m =
    ((Uint.wire m.mode ++ wire_value m.noise) ++ wire_option Address.wire m.peer_address)
    ++ wire_option Address.wire m.relay_address

abbrev pub wire : HandshakeMessage → List ℕ
wire m = Uint.wire (handshake_flags m) ++ wire_fields m

pub record IsHandshake (m : HandshakeMessage) : Type 0 where
  pub mode_range : IsU32 m.mode
  pub noise_cap : IsValue m.noise
  pub peer_range : ValidOption (IsAddress 4) m.peer_address
  pub relay_range : ValidOption (IsAddress 4) m.relay_address

flag_bits :
    (m : HandshakeMessage)
    → Reads (is_some m.peer_address) (is_some m.relay_address) false false false (handshake_flags m)
unfolding handshake_flags
flag_bits m = five_flags-Reads _ _ _ _ _

Piece-handshake :
    (m : HandshakeMessage)
    → IsHandshake m
    → Piece (preencode_handshake m) (encode_handshake m) (wire m)
unfolding preencode_handshake encode_handshake
Piece-handshake m h =
    Piece-append (Piece-uint (handshake_flags m) (omega (arith, (flag_bits m).small))) (
      Piece-append
        (Piece-append
          (Piece-append (Piece-uint m.mode (omega (arith, h.mode_range)))
            (Piece-value m.noise h.noise_cap))
          (Piece-address m.peer_address h.peer_range))
        (Piece-address m.relay_address h.relay_range))

Fills-mode :
    (n : ℕ)
    → IsU32 n
    → Fills
        (assign Uint.decode put_mode)
        blank_handshake
        (record blank_handshake { mode = n })
        (Uint.wire n)
Fills-mode n h s rest u =
    let small : n % 4294967296 ≡ n = omega arith in
    Fills-assign Uint.decode put_mode blank_handshake n (Uint.wire n) (uint_reads n (omega arith)) s
      rest u
    ∙ ap
        (λ (k : ℕ).
          Partial.going (record blank_handshake { mode = k }) (advance s (length (Uint.wire n))))
        small

Fills-handshake :
    (m : HandshakeMessage)
    → IsHandshake m
    → Fills (fill_handshake (handshake_flags m)) blank_handshake m (wire_fields m)
unfolding fill_handshake
Fills-handshake m h =
    Fills-bind
      (λ x s.
        (assign Uint.decode put_mode x s >>= assign_checked Buffer.decode put_noise)
        >>= peer_step flags)
      (relay_step flags) blank_handshake (record m { relay_address = none }) m _ _
      (Fills-bind
        (λ x s. assign Uint.decode put_mode x s >>= assign_checked Buffer.decode put_noise)
        (peer_step flags) blank_handshake upto_noise (record m { relay_address = none }) _ _
        (Fills-bind (assign Uint.decode put_mode) (assign_checked Buffer.decode put_noise)
          blank_handshake (record blank_handshake { mode = m.mode }) upto_noise _ _
          (Fills-mode m.mode h.mode_range)
          (Fills-contents (λ x v. record x { noise = v }) (record blank_handshake { mode = m.mode })
            m.noise h.noise_cap))
        (Fills-address put_peer upto_noise (λ o. record upto_noise { peer_address = o }) _
          m.peer_address bits.bit0 h.peer_range refl (λ a. refl)))
      (Fills-address put_relay (record m { relay_address = none })
        (λ o. record m { relay_address = o }) _ m.relay_address bits.bit1 h.relay_range refl
        (λ a. refl))
  where
    flags : ℕ
    flags = handshake_flags m

    bits : Reads (is_some m.peer_address) (is_some m.relay_address) false false false flags
    bits = flag_bits m

    upto_noise : HandshakeMessage
    upto_noise = record blank_handshake { mode = m.mode; noise = m.noise }

behind_flags :
    (flags : ℕ) (s : State)
    → flags < 32
    → s.error ≡ false
    → decode_behind flags s ≡ result (fill_handshake flags blank_handshake s)
behind_flags flags s h e =
    let small : flags % 256 ≡ flags = omega arith in
    if-false _ _ s.error e ∙ ap (λ (f : ℕ). result (fill_handshake f blank_handshake s)) small

-- A handshake message whose mode fits 32 bits, whose Noise bytes are at most 65536 and whose addresses are valid
-- is encoded as its flags, its mode, the Noise bytes behind their length and the addresses that it has, and reads back.
pub decode_handshake_msg-encode :
    (m : HandshakeMessage)
    → IsHandshake m
    → IsU64 (length (wire m))
    → (encode_handshake_msg m ≡ wire m) × (decode_handshake_msg (encode_handshake_msg m) ≡ m)
unfolding encode_handshake_msg decode_handshake_msg
decode_handshake_msg-encode m h k =
    let flags = handshake_flags m in
    let written = run_lem (Piece-handshake m h) k in
    let behind = advance (for_decode (wire m)) (length (Uint.wire flags)) in
    let all = for_decode-Unread (wire m) in
    (
      written,
      ap
            (λ (bytes : List ℕ).
              decode_behind (Uint.decode (for_decode bytes)).0 (Uint.decode (for_decode bytes)).1)
            written
          ∙ ap (λ (p : ℕ × State). decode_behind p.0 p.1)
              (uint_reads flags (omega (arith, (flag_bits m).small)) (for_decode (wire m))
                (wire_fields m) all)
          ∙ behind_flags flags behind (flag_bits m).small refl
          ∙ ap result (
              Fills-handshake m h behind [] (
                rw append-nil
                  (Unread-advance (for_decode (wire m)) (Uint.wire flags) (wire_fields m) all))),
    )
