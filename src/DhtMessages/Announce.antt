-- ===== src/DhtMessages/Announce.antt =====
-- `AnnounceMessage`, its encoder and its decoder.
pub mod RoundTrip
use hyperdht_cpp.Prelude.{
  ℕ, zero, suc, ◌+◌, ◌%◌, ◌≡◌, ◌≤◌, ◌<◌, refl, ap, sym, ◌∙◌, Option, none, some, Bool, true, false,
  ◌||◌, List, [], ◌∷◌, ◌++◌, append_assoc, length, length-append, if◌then◌else◌, ltb, is_some,
  IsArray, IsU64, arith, if-false, lt→ltb,
}
use hyperdht_cpp.Compact.State.{State, for_decode, advance}
use hyperdht_cpp.Compact.Cursor.{Unread, Unread-advance, advance-advance}
use hyperdht_cpp.Compact.Fixed.{fixed, fixed32, fixed64}
use hyperdht_cpp.Compact.Parts.{
  plain, ipv4_array, wire_addresses, Piece-uint, Piece-fixed_option, ReadsAs, fixed_reads,
  uint_reads, ipv4_array_reads,
}
use hyperdht_cpp.Compact.Sequence.{
  run, run_lem, if_present, Piece, Piece-nil, Piece-append, wire_option, ValidOption,
  for_decode-Unread,
}
use hyperdht_cpp.Compact.Uint
use hyperdht_cpp.Messages.Flags.{five_flags, five_flags-Reads, Reads, has_flag}
use hyperdht_cpp.DhtMessages.Peer.{PeerRecord, IsPeer, preencode_peer, encode_peer, Piece-peer}
use hyperdht_cpp.DhtMessages.Peer
use hyperdht_cpp.DhtMessages.Partial.{
  Partial, going, halted, result, assign, assign_checked, only_if, ◌>>=◌, Fills, Fills-bind,
  Fills-assign, Fills-assign_checked, Fills-nothing, Fills-result,
}

-- `bump` 0 is "not set".
pub record AnnounceMessage : Type 0 where
  pub peer : Option PeerRecord
  pub refresh : Option (List ℕ)
  pub signature : Option (List ℕ)
  pub bump : ℕ

abbrev pub blank_announce : AnnounceMessage
blank_announce = record { peer = none; refresh = none; signature = none; bump = 0 }

abbrev pub is_set : ℕ → Bool
is_set bump = ltb 0 bump

unfoldable pub announce_flags : AnnounceMessage → ℕ
announce_flags m =
    five_flags (is_some m.peer) (is_some m.refresh) (is_some m.signature) (is_set m.bump) false

-- `if (m.bump > 0) step(state, m.bump)`.
abbrev pub if_set : (State → ℕ → State) → State → ℕ → State
if_set step s bump = if is_set bump then step s bump else s

abbrev preencode_one : State → PeerRecord → State
preencode_one s p = preencode_peer p s

abbrev encode_one : State → PeerRecord → State
encode_one s p = encode_peer p s

unfoldable pub preencode_announce : AnnounceMessage → State → State
preencode_announce m s0 =
    let s1 = Uint.preencode s0 (announce_flags m) in
    let s2 = if_present preencode_one s1 m.peer in
    let s3 = if_present fixed32.preencode s2 m.refresh in
    let s4 = if_present fixed64.preencode s3 m.signature in if_set Uint.preencode s4 m.bump

unfoldable pub encode_announce : AnnounceMessage → State → State
encode_announce m s0 =
    let s1 = Uint.encode s0 (announce_flags m) in
    let s2 = if_present encode_one s1 m.peer in
    let s3 = if_present fixed32.encode s2 m.refresh in
    let s4 = if_present fixed64.encode s3 m.signature in if_set Uint.encode s4 m.bump

unfoldable pub encode_announce_msg : AnnounceMessage → List ℕ
encode_announce_msg m = run (preencode_announce m) (encode_announce m)

-- The peer inside of an announce message: the addresses are read only behind a good key.
unfoldable pub read_peer : State → PeerRecord × State
read_peer s =
    let (key, t) = fixed32.decode s in
    if t.error
    then (record { public_key = key; relay_addresses = [] }, t)
    else let (addresses, u) = ipv4_array.decode t in
      (record { public_key = key; relay_addresses = addresses }, u)

abbrev put_peer : AnnounceMessage → PeerRecord → AnnounceMessage
put_peer m p = record m { peer = some p }

abbrev put_refresh : AnnounceMessage → List ℕ → AnnounceMessage
put_refresh m v = record m { refresh = some v }

abbrev put_signature : AnnounceMessage → List ℕ → AnnounceMessage
put_signature m v = record m { signature = some v }

abbrev put_bump : AnnounceMessage → ℕ → AnnounceMessage
put_bump m v = record m { bump = v }

-- The four `if (flags & bit)` of the decoder.
abbrev pub peer_step : ℕ → AnnounceMessage → State → Partial AnnounceMessage
peer_step flags = only_if (has_flag flags 1) (assign_checked read_peer put_peer)

abbrev pub refresh_step : ℕ → AnnounceMessage → State → Partial AnnounceMessage
refresh_step flags = only_if (has_flag flags 2) (assign fixed32.decode put_refresh)

abbrev pub signature_step : ℕ → AnnounceMessage → State → Partial AnnounceMessage
signature_step flags = only_if (has_flag flags 4) (assign fixed64.decode put_signature)

abbrev pub bump_step : ℕ → AnnounceMessage → State → Partial AnnounceMessage
bump_step flags = only_if (has_flag flags 8) (assign Uint.decode put_bump)

unfoldable pub fill_announce : ℕ → AnnounceMessage → State → Partial AnnounceMessage
fill_announce flags m s =
    ((peer_step flags m s >>= refresh_step flags) >>= signature_step flags) >>= bump_step flags

-- Flags above a byte are refused.
abbrev decode_behind : ℕ → State → AnnounceMessage
decode_behind raw s =
    if s.error || ltb 0xff raw
    then blank_announce
    else result (fill_announce (raw % 256) blank_announce s)

unfoldable pub decode_announce_msg : List ℕ → AnnounceMessage
decode_announce_msg bytes = let (raw, s) = Uint.decode (for_decode bytes) in decode_behind raw s
