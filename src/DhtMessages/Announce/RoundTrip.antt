-- ===== src/DhtMessages/Announce/RoundTrip.antt =====
-- `encode_announce_msg` against `decode_announce_msg` of dht_messages.cpp.
use hyperdht_cpp.Prelude.{
  ℕ, zero, suc, ◌%◌, ◌≡◌, ◌<◌, refl, ap, sym, ◌∙◌, Option, none, some, Bool, true, false, ◌||◌,
  List, [], ◌++◌, append_assoc, append-nil, length, length-append, if◌then◌else◌, ltb, is_some,
  IsArray, IsU64, arith, if-false, lt→ltb,
}
use hyperdht_cpp.Compact.State.{State, for_decode, advance}
use hyperdht_cpp.Compact.Cursor.{Unread, Unread-advance, advance-advance}
use hyperdht_cpp.Compact.Fixed.{fixed32, fixed64}
use hyperdht_cpp.Compact.Parts.{
  plain, ipv4_array, wire_addresses, Piece-uint, Piece-fixed_option, ReadsAs, fixed_reads,
  uint_reads, ipv4_array_reads,
}
use hyperdht_cpp.Compact.Sequence.{
  run, run_lem, if_present, Piece, Piece-nil, Piece-append, wire_option, ValidOption,
  for_decode-Unread,
}
use hyperdht_cpp.Compact.Address.{Address}
use hyperdht_cpp.Compact.Uint
use hyperdht_cpp.Messages.Flags.{five_flags-Reads, Reads}
use hyperdht_cpp.DhtMessages.Peer.{PeerRecord, IsPeer, preencode_peer, encode_peer, Piece-peer}
use hyperdht_cpp.DhtMessages.Peer
use hyperdht_cpp.DhtMessages.Partial.{
  Partial, result, assign, assign_checked, only_if, ◌>>=◌, Fills, Fills-bind, Fills-assign,
  Fills-assign_checked, Fills-nothing,
}
use hyperdht_cpp.DhtMessages.Announce.{
  AnnounceMessage, blank_announce, is_set, if_set, announce_flags, preencode_one, encode_one,
  preencode_announce, encode_announce, encode_announce_msg, read_peer, put_peer, put_refresh,
  put_signature, put_bump, peer_step, refresh_step, signature_step, bump_step, fill_announce,
  decode_behind, decode_announce_msg,
}

abbrev pub wire_bump : ℕ → List ℕ
wire_bump zero = []
wire_bump (suc n) = Uint.wire (suc n)

abbrev pub wire_fields : AnnounceMessage → List ℕ
wire_fields m =
    ((wire_option Peer.wire m.peer ++ wire_option plain m.refresh) ++ wire_option plain m.signature)
    ++ wire_bump m.bump

abbrev pub wire : AnnounceMessage → List ℕ
wire m = Uint.wire (announce_flags m) ++ wire_fields m

pub record IsAnnounce (m : AnnounceMessage) : Type 0 where
  pub peer_range : ValidOption IsPeer m.peer
  pub refresh_array : ValidOption (IsArray 32) m.refresh
  pub signature_array : ValidOption (IsArray 64) m.signature
  pub bump_range : IsU64 m.bump

flag_bits :
    (m : AnnounceMessage)
    → Reads
        (is_some m.peer)
        (is_some m.refresh)
        (is_some m.signature)
        (is_set m.bump)
        false
        (announce_flags m)
unfolding announce_flags
flag_bits m = five_flags-Reads _ _ _ _ _

Piece-one :
    (o : Option PeerRecord)
    → ValidOption IsPeer o
    → Piece
        (λ s. if_present preencode_one s o)
        (λ s. if_present encode_one s o)
        (wire_option Peer.wire o)
Piece-one none h = Piece-nil
Piece-one (some p) h = Piece-peer p h

Piece-bump :
    (n : ℕ)
    → IsU64 n
    → Piece (λ s. if_set Uint.preencode s n) (λ s. if_set Uint.encode s n) (wire_bump n)
Piece-bump zero h = Piece-nil
Piece-bump (suc n) h = rw (lt→ltb 0 (suc n) (omega arith)) (Piece-uint (suc n) h)

Piece-announce :
    (m : AnnounceMessage) → IsAnnounce m → Piece (preencode_announce m) (encode_announce m) (wire m)
unfolding preencode_announce encode_announce
Piece-announce m h =
    Piece-append (Piece-uint (announce_flags m) (omega (arith, (flag_bits m).small))) (
      Piece-append
        (Piece-append
          (Piece-append (Piece-one m.peer h.peer_range)
            (Piece-fixed_option 32 m.refresh h.refresh_array))
          (Piece-fixed_option 64 m.signature h.signature_array))
        (Piece-bump m.bump h.bump_range))

peer_reads : (p : PeerRecord) → IsPeer p → ReadsAs read_peer p (Peer.wire p)
unfolding read_peer
peer_reads p h s rest u =
    ap (λ (k : List ℕ × State). then_addresses k.0 k.1)
      (fixed_reads 32 key h.key_array s (addresses ++ rest) all)
    ∙ if-false _ _ s.error u.fine
    ∙ ap (λ (a : List Address × State). (record { public_key = key; relay_addresses = a.0 }, a.1))
        (ipv4_array_reads p.relay_addresses h.addresses_range (advance s (length key)) rest
          (Unread-advance s key (addresses ++ rest) all))
    ∙ ap (λ (t : State). (p, t))
        (advance-advance s (length key) (length addresses) _ (sym (length-append key addresses)))
  where
    key : List ℕ
    key = p.public_key

    addresses : List ℕ
    addresses = wire_addresses p.relay_addresses

    all : Unread s (key ++ (addresses ++ rest))
    all = rw (← append_assoc key addresses rest) u

    then_addresses : List ℕ → State → PeerRecord × State
    then_addresses k t = if t.error then (record { public_key = k; relay_addresses = [] }, t) else (
      record { public_key = k; relay_addresses = (ipv4_array.decode t).0 },
      (ipv4_array.decode t).1,
    )

fill_peer :
    (flag : Bool) (o : Option PeerRecord)
    → flag ≡ is_some o
    → ValidOption IsPeer o
    → Fills
        (only_if flag (assign_checked read_peer put_peer))
        blank_announce
        (record blank_announce { peer = o })
        (wire_option Peer.wire o)
fill_peer true none e h = cc
fill_peer false none e h = Fills-nothing blank_announce
fill_peer false (some p) e h = cc
fill_peer true (some p) e h =
    Fills-assign_checked read_peer put_peer blank_announce p (Peer.wire p) (peer_reads p h)

module _ (p : Option PeerRecord) where
  fill_refresh :
      (flag : Bool) (o : Option (List ℕ))
      → flag ≡ is_some o
      → ValidOption (IsArray 32) o
      → Fills
          (only_if flag (assign fixed32.decode put_refresh))
          (record blank_announce { peer = p })
          (record blank_announce { peer = p; refresh = o })
          (wire_option plain o)
  fill_refresh true none e h = cc
  fill_refresh false none e h = Fills-nothing _
  fill_refresh false (some v) e h = cc
  fill_refresh true (some v) e h =
      Fills-assign fixed32.decode put_refresh (record blank_announce { peer = p }) v v
        (fixed_reads 32 v h)

  fill_signature :
      (r : Option (List ℕ)) (flag : Bool) (o : Option (List ℕ))
      → flag ≡ is_some o
      → ValidOption (IsArray 64) o
      → Fills
          (only_if flag (assign fixed64.decode put_signature))
          (record blank_announce { peer = p; refresh = r })
          (record blank_announce { peer = p; refresh = r; signature = o })
          (wire_option plain o)
  fill_signature r true none e h = cc
  fill_signature r false none e h = Fills-nothing _
  fill_signature r false (some v) e h = cc
  fill_signature r true (some v) e h =
      Fills-assign fixed64.decode put_signature (record blank_announce { peer = p; refresh = r }) v
        v (fixed_reads 64 v h)

  fill_bump :
      (r g : Option (List ℕ)) (flag : Bool) (n : ℕ)
      → flag ≡ is_set n
      → IsU64 n
      → Fills
          (only_if flag (assign Uint.decode put_bump))
          (record blank_announce { peer = p; refresh = r; signature = g })
          (record { peer = p; refresh = r; signature = g; bump = n })
          (wire_bump n)
  fill_bump r g true zero e h = absurd (ground arith)
  fill_bump r g false zero e h = Fills-nothing _
  fill_bump r g false (suc n) e h = absurd (ground (arith, lt→ltb 0 (suc n)))
  fill_bump r g true (suc n) e h =
      Fills-assign Uint.decode put_bump
        (record blank_announce { peer = p; refresh = r; signature = g }) (suc n) (Uint.wire (suc n))
        (uint_reads (suc n) h)

Fills-announce :
    (m : AnnounceMessage)
    → IsAnnounce m
    → Fills (fill_announce (announce_flags m)) blank_announce m (wire_fields m)
unfolding fill_announce
Fills-announce m h =
    Fills-bind three (bump_step flags) blank_announce upto_signature m _ _
      (Fills-bind two (signature_step flags) blank_announce upto_refresh upto_signature _ _
        (Fills-bind (peer_step flags) (refresh_step flags) blank_announce upto_peer upto_refresh _ _
          (fill_peer _ m.peer bits.bit0 h.peer_range)
          (fill_refresh m.peer _ m.refresh bits.bit1 h.refresh_array))
        (fill_signature m.peer m.refresh _ m.signature bits.bit2 h.signature_array))
      (fill_bump m.peer m.refresh m.signature _ m.bump bits.bit3 h.bump_range)
  where
    flags : ℕ
    flags = announce_flags m

    bits :
        Reads (is_some m.peer) (is_some m.refresh) (is_some m.signature) (is_set m.bump) false flags
    bits = flag_bits m

    two : AnnounceMessage → State → Partial AnnounceMessage
    two m s = peer_step flags m s >>= refresh_step flags

    three : AnnounceMessage → State → Partial AnnounceMessage
    three m s = two m s >>= signature_step flags

    upto_peer : AnnounceMessage
    upto_peer = record blank_announce { peer = m.peer }

    upto_refresh : AnnounceMessage
    upto_refresh = record blank_announce { peer = m.peer; refresh = m.refresh }

    upto_signature : AnnounceMessage
    upto_signature = record m { bump = 0 }

behind_flags :
    (flags : ℕ) (s : State)
    → flags < 32
    → s.error ≡ false
    → decode_behind flags s ≡ result (fill_announce flags blank_announce s)
behind_flags flags s h e =
    let small : flags % 256 ≡ flags = omega arith in
    if-false _ _ (s.error || ltb 0xff flags) (ground arith)
    ∙ ap (λ (f : ℕ). result (fill_announce f blank_announce s)) small

-- An announce message with valid fields has the documented format and reads back: every field
-- that is there, and the absent ones absent.
pub decode_announce_msg-encode :
    (m : AnnounceMessage)
    → IsAnnounce m
    → IsU64 (length (wire m))
    → (encode_announce_msg m ≡ wire m) × (decode_announce_msg (encode_announce_msg m) ≡ m)
unfolding encode_announce_msg decode_announce_msg
decode_announce_msg-encode m h k = (
  written,
  ap
        (λ (bytes : List ℕ).
          decode_behind (Uint.decode (for_decode bytes)).0 (Uint.decode (for_decode bytes)).1)
        written
      ∙ ap (λ (p : ℕ × State). decode_behind p.0 p.1)
          (uint_reads flags (omega (arith, (flag_bits m).small)) (for_decode (wire m))
            (wire_fields m) (for_decode-Unread (wire m)))
      ∙ behind_flags flags behind (flag_bits m).small refl
      ∙ ap result (Fills-announce m h behind [] (rw append-nil rest)),
)
  where
    flags : ℕ
    flags = announce_flags m

    written : run (preencode_announce m) (encode_announce m) ≡ wire m
    written = run_lem (Piece-announce m h) k

    behind : State
    behind = advance (for_decode (wire m)) (length (Uint.wire flags))

    rest : Unread behind (wire_fields m)
    rest =
        Unread-advance (for_decode (wire m)) (Uint.wire flags) (wire_fields m)
          (for_decode-Unread (wire m))
