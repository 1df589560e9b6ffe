-- ===== src/DhtMessages/Lookup.antt =====
-- `LookupRawReply` of dht_messages.hpp, its encoder and its decoder.
pub mod RoundTrip
use hyperdht_cpp.Prelude.{
  ℕ, zero, suc, Bool, true, false, ◌||◌, Option, none, some, List, [], ◌∷◌, map, length,
  if◌then◌else◌, ltb,
}
use hyperdht_cpp.Compact.State.{State, for_decode}
use hyperdht_cpp.Compact.Sequence.{run}
use hyperdht_cpp.Compact.Buffer.{buffer}
use hyperdht_cpp.Compact.Array
use hyperdht_cpp.Compact.Buffer
use hyperdht_cpp.Compact.Uint

pub record LookupRawReply : Type 0 where
  pub peers : List (List ℕ)
  pub bump : ℕ

abbrev pub blank_reply : LookupRawReply
blank_reply = record { peers = []; bump = 0 }

-- The count and the buffers go out as an array does.
unfoldable pub preencode_reply : LookupRawReply → State → State
preencode_reply r s = Uint.preencode (Array.preencode buffer s (map some r.peers)) r.bump

unfoldable pub encode_reply : LookupRawReply → State → State
encode_reply r s = Uint.encode (Array.encode buffer s (map some r.peers)) r.bump

unfoldable pub encode_lookup_reply : LookupRawReply → List ℕ
encode_lookup_reply r = run (preencode_reply r) (encode_reply r)

abbrev pub max_reply_peers : ℕ
max_reply_peers = 1024

-- A null buffer is left out.
abbrev pub keep : Option (List ℕ) → List (List ℕ) → List (List ℕ)
keep none ps = ps
keep (some bytes) ps = bytes ∷ ps

-- The loop over the buffers, with the rounds that are left; it ends at the first error.
unfoldable pub decode_peers : ℕ → State → List (List ℕ) × State
decode_peers zero s = ([], s)
decode_peers (suc n) s =
    let next = Buffer.decode s in
    let rest = decode_peers n next.1 in
    if s.error then ([], s) else if next.1.error then ([], next.1) else (keep next.0 rest.0, rest.1)

-- The bump is optional, and not read behind an error.
abbrev pub decode_bump : State → ℕ
decode_bump s = if s.error then 0 else if ltb s.start s.end then (Uint.decode s).0 else 0

abbrev pub reply_of : List (List ℕ) × State → LookupRawReply
reply_of p = record { peers = p.0; bump = decode_bump p.1 }

abbrev pub decode_counted : ℕ → State → LookupRawReply
decode_counted count s =
    if s.error || ltb max_reply_peers count then blank_reply else reply_of (decode_peers count s)

unfoldable pub decode_lookup_reply : List ℕ → LookupRawReply
decode_lookup_reply bytes =
    let (count, s) = Uint.decode (for_decode bytes) in decode_counted count s
