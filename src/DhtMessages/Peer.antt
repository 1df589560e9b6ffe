-- ===== src/DhtMessages/Peer.antt =====
-- `PeerRecord`, its encoder and its decoder.
use hyperdht_cpp.Prelude.{ℕ, ◌≡◌, ap, ◌∙◌, List, [], ◌++◌, length, replicate, IsArray, IsU64}
use hyperdht_cpp.Compact.State.{State, for_decode}
use hyperdht_cpp.Compact.Address.{Address}
use hyperdht_cpp.Compact.Fixed.{fixed32}
use hyperdht_cpp.Compact.Parts.{
  ipv4_array, wire_addresses, AreAddresses, Piece-fixed, Piece-ipv4_array, fixed_reads,
  ipv4_array_reads,
}
use hyperdht_cpp.Compact.Sequence.{run, run_lem, Piece, Piece-append}
use hyperdht_cpp.DhtMessages.Partial.{
  Partial, result, assign, ◌>>=◌, Fills, Fills-bind, Fills-assign, Fills-result,
}

pub record PeerRecord : Type 0 where
  pub public_key : List ℕ
  pub relay_addresses : List Address

abbrev pub blank_peer : PeerRecord
blank_peer = record { public_key = replicate 32 0; relay_addresses = [] }

unfoldable pub preencode_peer : PeerRecord → State → State
preencode_peer p s0 =
    let s1 = fixed32.preencode s0 p.public_key in ipv4_array.preencode s1 p.relay_addresses

unfoldable pub encode_peer : PeerRecord → State → State
encode_peer p s0 = let s1 = fixed32.encode s0 p.public_key in ipv4_array.encode s1 p.relay_addresses

unfoldable pub encode_peer_record : PeerRecord → List ℕ
encode_peer_record p = run (preencode_peer p) (encode_peer p)

abbrev pub put_key : PeerRecord → List ℕ → PeerRecord
put_key p key = record p { public_key = key }

abbrev pub put_addresses : PeerRecord → List Address → PeerRecord
put_addresses p addresses = record p { relay_addresses = addresses }

unfoldable pub fill_peer : PeerRecord → State → Partial PeerRecord
fill_peer p s = assign fixed32.decode put_key p s >>= assign ipv4_array.decode put_addresses

unfoldable pub decode_peer_record : List ℕ → PeerRecord
decode_peer_record bytes = result (fill_peer blank_peer (for_decode bytes))

abbrev pub wire : PeerRecord → List ℕ
wire p = p.public_key ++ wire_addresses p.relay_addresses

pub record IsPeer (p : PeerRecord) : Type 0 where
  pub key_array : IsArray 32 p.public_key
  pub addresses_range : AreAddresses p.relay_addresses

pub Piece-peer : (p : PeerRecord) → IsPeer p → Piece (preencode_peer p) (encode_peer p) (wire p)
unfolding preencode_peer encode_peer
Piece-peer p h =
    Piece-append (Piece-fixed 32 p.public_key h.key_array)
      (Piece-ipv4_array p.relay_addresses h.addresses_range)

pub Fills-peer : (p : PeerRecord) → IsPeer p → Fills fill_peer blank_peer p (wire p)
unfolding fill_peer
Fills-peer p h =
    Fills-bind (assign fixed32.decode put_key) (assign ipv4_array.decode put_addresses) blank_peer
      (put_key blank_peer p.public_key) p p.public_key (wire_addresses p.relay_addresses)
      (Fills-assign fixed32.decode put_key blank_peer p.public_key p.public_key
        (fixed_reads 32 p.public_key h.key_array))
      (Fills-assign ipv4_array.decode put_addresses (put_key blank_peer p.public_key)
        p.relay_addresses (wire_addresses p.relay_addresses)
        (ipv4_array_reads p.relay_addresses h.addresses_range))

-- A peer record with a key of 32 bytes and valid relay addresses is encoded as those, and
-- reads back.
pub decode_peer_record-encode :
    (p : PeerRecord)
    → IsPeer p
    → IsU64 (length (wire p))
    → (encode_peer_record p ≡ wire p) × (decode_peer_record (encode_peer_record p) ≡ p)
unfolding encode_peer_record decode_peer_record
decode_peer_record-encode p h k =
    let written = run_lem (Piece-peer p h) k in
    (
      written,
      ap (λ (bytes : List ℕ). result (fill_peer blank_peer (for_decode bytes))) written
          ∙ Fills-result fill_peer blank_peer p (wire p) (Fills-peer p h),
    )
