-- ===== src/DhtMessages/Lookup/RoundTrip.antt =====
-- `encode_lookup_reply` against `decode_lookup_reply` of dht_messages.cpp.
use hyperdht_cpp.Prelude.{
  ℕ, suc, ◌+◌, ◌<◌, ◌≤◌, ◌≡◌, refl, ap, sym, ◌∙◌, Bool, true, false, ◌||◌, Option, some, List, [],
  ◌∷◌, ◌++◌, map, length, length-append, append_assoc, append-nil, if◌then◌else◌, ltb, leb,
  if_cases, All, IsU64, arith, if-false, if-true, lt→ltb,
}
use hyperdht_cpp.Compact.State.{State, for_decode, advance, le16, le32, le64}
use hyperdht_cpp.Compact.Cursor.{Unread, Unread-advance, advance-advance, advance-zero}
use hyperdht_cpp.Compact.Sequence.{for_decode-Unread, run_lem, Piece, Piece-append, Piece-codec}
use hyperdht_cpp.Compact.Buffer.{buffer, buffer-IsLawful, IsBuffer, max_buffer_decode}
use hyperdht_cpp.Compact.Array.{array, wire_items}
use hyperdht_cpp.Compact.Array.Laws.{array-IsLawful}
use hyperdht_cpp.Compact.Parts.{Piece-uint, uint_reads}
use hyperdht_cpp.Compact.Array
use hyperdht_cpp.Compact.Buffer
use hyperdht_cpp.Compact.Uint
use hyperdht_cpp.DhtMessages.Lookup.{
  LookupRawReply, preencode_reply, encode_reply, encode_lookup_reply, max_reply_peers, keep,
  decode_peers, decode_bump, reply_of, decode_counted, decode_lookup_reply,
}

abbrev pub wire_peers : List (List ℕ) → List ℕ
wire_peers ps = wire_items Buffer.wire (map some ps)

abbrev pub wire : LookupRawReply → List ℕ
wire r = Array.wire Buffer.wire (map some r.peers) ++ Uint.wire r.bump

abbrev pub ArePeers : List (List ℕ) → Type 0
ArePeers ps = All (λ p. IsBuffer (some p)) ps

pub record IsReply (r : LookupRawReply) : Type 0 where
  pub count_cap : length r.peers ≤ max_reply_peers
  pub peers_range : ArePeers r.peers
  pub bump_range : IsU64 r.bump

length-map-some : (ps : List (List ℕ)) → length (map some ps) ≡ length ps
length-map-some [] = refl
length-map-some (p ∷ ps) = ap suc (length-map-some ps)

map-some-All : (ps : List (List ℕ)) → ArePeers ps → All IsBuffer (map some ps)
map-some-All [] h = tt
map-some-All (p ∷ ps) h = (h.0, map-some-All ps h.1)

Piece-reply : (r : LookupRawReply) → IsReply r → Piece (preencode_reply r) (encode_reply r) (wire r)
unfolding preencode_reply encode_reply
Piece-reply r h =
    Piece-append
      (Piece-codec (array buffer) (Array.wire Buffer.wire) _
        (array-IsLawful buffer Buffer.wire IsBuffer buffer-IsLawful) (map some r.peers)
        (omega (arith, length-map-some r.peers, h.count_cap), map-some-All r.peers h.peers_range))
      (Piece-uint r.bump h.bump_range)

decode_peers_lem :
    (ps : List (List ℕ)) (s : State) (rest : List ℕ)
    → ArePeers ps
    → Unread s (wire_peers ps ++ rest)
    → decode_peers (length ps) s ≡ (ps, advance s (length (wire_peers ps)))
unfolding decode_peers
decode_peers_lem [] s rest h u = ap (λ (t : State). ([], t)) (sym (advance-zero s))
decode_peers_lem (p ∷ ps) s rest h u =
    if-false _ _ s.error u.fine
    ∙ ap then_peers (buffer-IsLawful.decode_lem s (some p) (wire_peers ps ++ rest) h.0 all)
    ∙ if-false _ _ s.error u.fine
    ∙ ap (λ (q : List (List ℕ) × State). (p ∷ q.0, q.1))
        (decode_peers_lem ps (advance s (length (Buffer.wire (some p)))) rest h.1
          (Unread-advance s (Buffer.wire (some p)) (wire_peers ps ++ rest) all))
    ∙ ap (λ (t : State). (p ∷ ps, t))
        (advance-advance s (length (Buffer.wire (some p))) (length (wire_peers ps)) _
          (sym (length-append (Buffer.wire (some p)) (wire_peers ps))))
  where
    all : Unread s (Buffer.wire (some p) ++ (wire_peers ps ++ rest))
    all = rw (← append_assoc (Buffer.wire (some p)) (wire_peers ps) rest) u

    then_peers : Option (List ℕ) × State → List (List ℕ) × State
    then_peers q =
        if q.1.error
        then ([], q.1)
        else (keep q.0 (decode_peers (length ps) q.1).0, (decode_peers (length ps) q.1).1)

wire_some : (v : ℕ) → 0 < length (Uint.wire v)
unfolding le16 le32 le64
wire_some v =
    if_cases _ _ (λ (bytes : List ℕ). 0 < length bytes) (leb v 0xfc) (λ _. omega arith)
      (λ _.
        if_cases _ _ (λ (bytes : List ℕ). 0 < length bytes) (leb v 0xffff) (λ _. omega arith)
          (λ _.
            if_cases _ _ (λ (bytes : List ℕ). 0 < length bytes) (leb v 0xffffffff)
              (λ _. omega arith) (λ _. omega arith)))

decode_bump_lem : (s : State) (b : ℕ) → IsU64 b → Unread s (Uint.wire b ++ []) → decode_bump s ≡ b
decode_bump_lem s b h u =
    let limit : s.end ≡ s.start + length (Uint.wire b ++ []) = u.limit in
    let more : ltb s.start s.end ≡ true =
      lt→ltb s.start s.end (omega (arith, limit, length-append (Uint.wire b) [], wire_some b)) in
    if-false _ _ s.error u.fine
    ∙ if-true _ _ (ltb s.start s.end) more
    ∙ ap (λ (p : ℕ × State). p.0) (uint_reads b h s [] u)

decode_counted_lem :
    (r : LookupRawReply) (s : State)
    → IsReply r
    → Unread s (wire_peers r.peers ++ (Uint.wire r.bump ++ []))
    → decode_counted (length r.peers) s ≡ r
decode_counted_lem r s h u =
    let few : ltb max_reply_peers (length r.peers) ≡ false = ground (arith, h.count_cap) in
    if-false _ _ (s.error || ltb max_reply_peers (length r.peers))
      (ap (λ (b : Bool). b || ltb max_reply_peers (length r.peers)) u.fine ∙ few)
    ∙ ap reply_of (decode_peers_lem r.peers s (Uint.wire r.bump ++ []) h.peers_range u)
    ∙ ap (λ (b : ℕ). record r { bump = b })
        (decode_bump_lem (advance s (length (wire_peers r.peers))) r.bump h.bump_range
          (Unread-advance s (wire_peers r.peers) (Uint.wire r.bump ++ []) u))

-- A lookup reply of at most 1024 peers, each of 1 to 65536 bytes, whose bump fits 64 bits and whose encoding has a
-- length that does, is encoded as the count of its peers, each peer as a buffer, that is its length and its bytes, and
-- the bump; and it reads back.
pub decode_lookup_reply-encode :
    (r : LookupRawReply)
    → IsReply r
    → IsU64 (length (wire r))
    → (encode_lookup_reply r ≡ wire r) × (decode_lookup_reply (encode_lookup_reply r) ≡ r)
unfolding encode_lookup_reply decode_lookup_reply
decode_lookup_reply-encode r h k =
    let n = length (map some r.peers) in
    let s = for_decode (wire r) in
    let rest = wire_peers r.peers ++ (Uint.wire r.bump ++ []) in
    let written = run_lem (Piece-reply r h) k in
    let all : Unread s (Uint.wire n ++ rest) =
      rw (append-nil, ← append_assoc (Uint.wire n) (wire_peers r.peers) (Uint.wire r.bump))
        (for_decode-Unread (wire r)) in
    (
      written,
      ap
            (λ (bytes : List ℕ).
              decode_counted (Uint.decode (for_decode bytes)).0 (Uint.decode (for_decode bytes)).1)
            written
          ∙ ap (λ (p : ℕ × State). decode_counted p.0 p.1)
              (uint_reads n (omega (arith, length-map-some r.peers, h.count_cap)) s rest all)
          ∙ ap (λ (m : ℕ). decode_counted m (advance s (length (Uint.wire n))))
              (length-map-some r.peers)
          ∙ decode_counted_lem r (advance s (length (Uint.wire n))) h
              (Unread-advance s (Uint.wire n) rest all),
    )
