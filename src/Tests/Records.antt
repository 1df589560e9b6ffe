-- ===== src/Tests/Records.antt =====
-- A peer record, an announcement, a mutable value and a lookup reply.
use hyperdht_cpp.Prelude.{
  ℕ, zero, suc, ◌≡◌, refl, none, some, [], ◌∷◌, ◌++◌, length, replicate, All, arith, IsArray,
  IsByte, IsU64,
}
use hyperdht_cpp.Compact.Address.{Address, IsAddress}
use hyperdht_cpp.Compact.State.{le16}
use hyperdht_cpp.Messages.Flags.{five_flags}
use hyperdht_cpp.DhtMessages.Peer.{
  PeerRecord, IsPeer, encode_peer_record, decode_peer_record, decode_peer_record-encode,
}
use hyperdht_cpp.DhtMessages.Announce.{
  AnnounceMessage, announce_flags, encode_announce_msg, decode_announce_msg,
}
use hyperdht_cpp.DhtMessages.Announce.RoundTrip.{IsAnnounce, decode_announce_msg-encode}
use hyperdht_cpp.DhtMessages.Mutable.{
  MutableGetResponse, MutablePutRequest, encode_mutable_get_resp, decode_mutable_get_resp,
  encode_mutable_signable,
}
use hyperdht_cpp.DhtMessages.Mutable.RoundTrip.{
  IsGet, IsPut, wire_get, wire_put, wire_signable, decode_mutable_get_resp-encode,
}
use hyperdht_cpp.DhtMessages.Lookup.{LookupRawReply, encode_lookup_reply, decode_lookup_reply}
use hyperdht_cpp.DhtMessages.Lookup.RoundTrip.{IsReply, decode_lookup_reply-encode}
use hyperdht_cpp.DhtMessages.Lookup.RoundTrip as LookupTrip
use hyperdht_cpp.DhtMessages.Peer
use hyperdht_cpp.DhtMessages.Announce.RoundTrip

replicate-IsByte : (n : ℕ) → All IsByte (replicate n 7)
replicate-IsByte zero = tt
replicate-IsByte (suc n) = (omega arith, replicate-IsByte n)

key-IsArray : IsArray 32 (replicate 32 7)
key-IsArray = record { sized = refl; bytes = replicate-IsByte 32 }

signature-IsArray : IsArray 64 (replicate 64 7)
signature-IsArray = record { sized = refl; bytes = replicate-IsByte 64 }

abbrev relay : Address
relay = record { host = 192 ∷ (168 ∷ (1 ∷ (9 ∷ []))); port = 4433 }

relay-IsAddress : IsAddress 4 relay
relay-IsAddress = record {
  host_array = record {
    sized = refl;
    bytes = (omega arith, (omega arith, (omega arith, (omega arith, tt))));
  };
  port_range = omega arith;
}

abbrev peer : PeerRecord
peer = record { public_key = replicate 32 7; relay_addresses = relay ∷ [] }

peer-IsPeer : IsPeer peer
peer-IsPeer = record {
  key_array = key-IsArray;
  addresses_range = (omega arith, (relay-IsAddress, tt));
}

peer_size : IsU64 (length (Peer.wire peer))
unfolding le16
peer_size = omega arith

abbrev announcement : AnnounceMessage
announcement = record {
  peer = some peer;
  refresh = none;
  signature = some (replicate 64 7);
  bump = 1000;
}

announcement-IsAnnounce : IsAnnounce announcement
announcement-IsAnnounce = record {
  peer_range = peer-IsPeer;
  refresh_array = tt;
  signature_array = signature-IsArray;
  bump_range = omega arith;
}

announcement_size : IsU64 (length (RoundTrip.wire announcement))
unfolding le16 announce_flags five_flags
announcement_size = omega arith

decode_announce_msg-encode_example :
    (encode_announce_msg announcement ≡ RoundTrip.wire announcement)
    × (decode_announce_msg (encode_announce_msg announcement) ≡ announcement)
decode_announce_msg-encode_example =
    decode_announce_msg-encode announcement announcement-IsAnnounce announcement_size

abbrev stored : MutableGetResponse
stored = record { seq = 300; value = 1 ∷ (2 ∷ []); signature = replicate 64 7 }

stored-IsGet : IsGet stored
stored-IsGet = record {
  seq_range = omega arith;
  value_cap = omega arith;
  signature_array = signature-IsArray;
}

stored_size : IsU64 (length (wire_get stored))
unfolding le16
stored_size = omega arith

signed_size : IsU64 (length (wire_signable stored.seq stored.value))
unfolding le16
signed_size = omega arith

decode_mutable_get_resp-encode_example :
    (decode_mutable_get_resp (encode_mutable_get_resp stored) ≡ stored)
    × (encode_mutable_get_resp stored
        ≡ encode_mutable_signable stored.seq stored.value ++ stored.signature)
decode_mutable_get_resp-encode_example =
    decode_mutable_get_resp-encode stored stored-IsGet stored_size signed_size

abbrev written : MutablePutRequest
written = record {
  public_key = replicate 32 7;
  seq = 300;
  value = 1 ∷ (2 ∷ []);
  signature = replicate 64 7;
}

written-IsPut : IsPut written
written-IsPut = record {
  key_array = key-IsArray;
  seq_range = omega arith;
  value_cap = omega arith;
  signature_array = signature-IsArray;
}

written_size : IsU64 (length (wire_put written))
unfolding le16
written_size = omega arith

abbrev reply : LookupRawReply
reply = record { peers = (1 ∷ (2 ∷ [])) ∷ ((3 ∷ []) ∷ []); bump = 1000 }

reply-IsReply : IsReply reply
reply-IsReply = record {
  count_cap = omega arith;
  peers_range = ((omega arith, omega arith), ((omega arith, omega arith), tt));
  bump_range = omega arith;
}

reply_size : IsU64 (length (LookupTrip.wire reply))
unfolding le16
reply_size = omega arith

decode_lookup_reply-encode_example :
    (encode_lookup_reply reply ≡ LookupTrip.wire reply)
    × (decode_lookup_reply (encode_lookup_reply reply) ≡ reply)
decode_lookup_reply-encode_example = decode_lookup_reply-encode reply reply-IsReply reply_size
