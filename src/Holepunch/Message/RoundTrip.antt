-- ===== src/Holepunch/Message/RoundTrip.antt =====
-- `encode_holepunch_msg` against `decode_holepunch_msg` of holepunch.cpp.
use hyperdht_cpp.Prelude.{
  ℕ, ◌≤◌, ◌≡◌, ◌<◌, refl, ap, ◌∙◌, none, false, ◌||◌, List, [], ◌++◌, append-nil, length,
  if◌then◌else◌, ltb, is_some, IsU32, IsU64, arith, if-false,
}
use hyperdht_cpp.Compact.State.{State, for_decode, advance}
use hyperdht_cpp.Compact.Cursor.{Unread-advance}
use hyperdht_cpp.Compact.Address.{Address, IsAddress}
use hyperdht_cpp.Compact.Parts.{Piece-uint, uint_reads}
use hyperdht_cpp.Compact.Sequence.{
  run_lem, Piece, Piece-append, wire_option, ValidOption, for_decode-Unread,
}
use hyperdht_cpp.Compact.Address
use hyperdht_cpp.Compact.Buffer
use hyperdht_cpp.Compact.Uint
use hyperdht_cpp.Messages.Flags.{five_flags-Reads, Reads}
use hyperdht_cpp.Messages.Field.{IsValue, wire_value, Piece-value}
use hyperdht_cpp.DhtMessages.Partial.{
  Partial, halted, going, result, assign_checked, ◌>>=◌, Fills, Fills-bind,
}
use hyperdht_cpp.Handshake.RoundTrip.{Fills-address, Fills-contents, Piece-address}
use hyperdht_cpp.Holepunch.Message.{
  HolepunchMessage, assign_bounded, blank_holepunch, decode_behind, decode_holepunch_msg,
  encode_holepunch, encode_holepunch_msg, fill_holepunch, holepunch_flags, peer_step,
  preencode_holepunch, put_id, put_mode, put_payload, put_peer,
}

abbrev pub wire_fields : HolepunchMessage → List ℕ
wire_fields m =
    ((Uint.wire m.mode ++ Uint.wire m.id) ++ wire_value m.payload)
    ++ wire_option Address.wire m.peer_address

abbrev pub wire : HolepunchMessage → List ℕ
wire m = Uint.wire (holepunch_flags m) ++ wire_fields m

pub record IsHolepunch (m : HolepunchMessage) : Type 0 where
  pub mode_range : m.mode ≤ 255
  pub id_range : IsU32 m.id
  pub payload_cap : IsValue m.payload
  pub peer_range : ValidOption (IsAddress 4) m.peer_address

flag_bits :
    (m : HolepunchMessage)
    → Reads (is_some m.peer_address) false false false false (holepunch_flags m)
unfolding holepunch_flags
flag_bits m = five_flags-Reads _ _ _ _ _

pub Fills-bounded :
    {M : Type 0} (limit : ℕ) (put : M → ℕ → M) (m : M) (v : ℕ)
    → v ≤ limit
    → IsU64 v
    → Fills (assign_bounded limit Uint.decode put) m (put m v) (Uint.wire v)
Fills-bounded limit put m v l h s rest u =
    let t = advance s (length (Uint.wire v)) in
    let ok : (t.error || ltb limit v) ≡ false = rw u.fine (ground arith) in
    ap (λ (p : ℕ × State). if p.1.error || ltb limit p.0 then halted m else going (put m p.0) p.1)
      (uint_reads v h s rest u)
    ∙ if-false _ _ (t.error || ltb limit v) ok

Piece-holepunch :
    (m : HolepunchMessage)
    → IsHolepunch m
    → Piece (preencode_holepunch m) (encode_holepunch m) (wire m)
unfolding preencode_holepunch encode_holepunch
Piece-holepunch m h =
    Piece-append (Piece-uint (holepunch_flags m) (omega (arith, (flag_bits m).small))) (
      Piece-append
        (Piece-append
          (Piece-append (Piece-uint m.mode (omega (arith, h.mode_range)))
            (Piece-uint m.id (omega (arith, h.id_range))))
          (Piece-value m.payload h.payload_cap))
        (Piece-address m.peer_address h.peer_range))

Fills-holepunch :
    (m : HolepunchMessage)
    → IsHolepunch m
    → Fills (fill_holepunch (holepunch_flags m)) blank_holepunch m (wire_fields m)
unfolding fill_holepunch
Fills-holepunch m h =
    Fills-bind (λ x s. two x s >>= assign_checked Buffer.decode put_payload) (peer_step flags)
      blank_holepunch (record m { peer_address = none }) m _ _
      (Fills-bind two (assign_checked Buffer.decode put_payload) blank_holepunch upto_id
        (record m { peer_address = none }) _ _
        (Fills-bind (assign_bounded 0xff Uint.decode put_mode)
          (assign_bounded 0xffffffff Uint.decode put_id) blank_holepunch
          (record blank_holepunch { mode = m.mode }) upto_id _ _
          (Fills-bounded 0xff put_mode blank_holepunch m.mode h.mode_range
            (omega (arith, h.mode_range)))
          (Fills-bounded 0xffffffff put_id (record blank_holepunch { mode = m.mode }) m.id
            (omega (arith, h.id_range)) (omega (arith, h.id_range))))
        (Fills-contents (λ x v. record x { payload = v }) upto_id m.payload h.payload_cap))
      (Fills-address put_peer (record m { peer_address = none })
        (λ o. record m { peer_address = o }) _ m.peer_address (flag_bits m).bit0 h.peer_range refl
        (λ a. refl))
  where
    flags : ℕ
    flags = holepunch_flags m

    two : HolepunchMessage → State → Partial HolepunchMessage
    two x s =
        assign_bounded 0xff Uint.decode put_mode x s
        >>= assign_bounded 0xffffffff Uint.decode put_id

    upto_id : HolepunchMessage
    upto_id = record blank_holepunch { mode = m.mode; id = m.id }

behind_flags :
    (flags : ℕ) (s : State)
    → flags < 32
    → s.error ≡ false
    → decode_behind flags s ≡ result (fill_holepunch flags blank_holepunch s)
behind_flags flags s h e =
    let ok : (s.error || ltb 0xff flags) ≡ false = rw e (ground arith) in
    if-false _ _ (s.error || ltb 0xff flags) ok

-- A holepunch message whose mode fits a byte, whose id fits 32 bits, whose payload is at most 65536 bytes and
-- whose address is valid is encoded as its flags, its mode, its id, the payload behind its length and the
-- address if it has one, and reads back.
pub decode_holepunch_msg-encode :
    (m : HolepunchMessage)
    → IsHolepunch m
    → IsU64 (length (wire m))
    → (encode_holepunch_msg m ≡ wire m) × (decode_holepunch_msg (encode_holepunch_msg m) ≡ m)
unfolding encode_holepunch_msg decode_holepunch_msg
decode_holepunch_msg-encode m h k =
    let flags = holepunch_flags m in
    let written = run_lem (Piece-holepunch m h) k in
    let behind = advance (for_decode (wire m)) (length (Uint.wire flags)) in
    let all = for_decode-Unread (wire m) in
    (
      written,
      ap
            (λ (bytes : List ℕ).
              decode_behind (Uint.decode (for_decode bytes)).0 (Uint.decode (for_decode bytes)).1)
            written
          ∙ ap (λ (p : ℕ × State). decode_behind p.0 p.1)
              (uint_reads flags (omega (arith, (flag_bits m).small)) (for_decode (wire m))
                (wire_fields m) all)
          ∙ behind_flags flags behind (flag_bits m).small refl
          ∙ ap result (
              Fills-holepunch m h behind [] (
                rw append-nil
                  (Unread-advance (for_decode (wire m)) (Uint.wire flags) (wire_fields m) all))),
    )
