-- ===== src/Compact/Buffer.antt =====
-- `Buffer` of compact.cpp: bytes behind a varint length. The null pointer and the empty buffer are
-- the single byte 0, and read as null.
use hyperdht_cpp.Prelude.{
  ℕ, ◌+◌, ◌≤◌, ◌<◌, ◌≡◌, refl, ap, sym, ◌∙◌, Bool, true, false, ◌||◌, not, Option, none, some, List,
  [], ◌∷◌, ◌++◌, append_assoc, length, length-append, if◌then◌else◌, ltb, ◌==◌, arith,
}
use hyperdht_cpp.Compact.State.{
  State, no_buffer, fail, grow, advance, has_bytes, write_bytes, read_bytes,
}
use hyperdht_cpp.Compact.Sized.{guarded_write, guarded_write_lem}
use hyperdht_cpp.Compact.Cursor.{
  Room, Unread, Within, Room-ready, Room-write, Room-less, Unread-has, Unread-read, Unread-advance,
  Within-trans, write_bytes-append, advance-advance, grow-grow,
}
use hyperdht_cpp.Compact.Codec.{Codec, IsLawful}
use hyperdht_cpp.Compact.Uint
use hyperdht_cpp.Compact.Uint.Laws.{uint-IsLawful}
use hyperdht_cpp.Compact.Uint8
use hyperdht_cpp.Compact.Uint8.{uint8-IsLawful}

abbrev pub max_buffer_decode : ℕ
max_buffer_decode = 65536

-- `data == nullptr || len == 0`.
abbrev pub is_nothing : Option (List ℕ) → Bool
is_nothing none = true
is_nothing (some []) = true
is_nothing (some (b ∷ bytes)) = false

abbrev pub contents : Option (List ℕ) → List ℕ
contents none = []
contents (some bytes) = bytes

unfoldable pub preencode : State → Option (List ℕ) → State
preencode s v =
    if is_nothing v
    then grow s 1
    else grow (Uint.preencode s (length (contents v))) (length (contents v))

unfoldable pub encode : State → Option (List ℕ) → State
encode s v =
    if s.error || no_buffer s
    then fail s
    else if is_nothing v
    then Uint8.encode s 0
    else guarded_write (Uint.encode s (length (contents v))) (length (contents v)) (contents v)

-- What `decode` does with the length that it has read.
abbrev pub decode_body : ℕ → State → Option (List ℕ) × State
decode_body len s =
    if s.error
    then (none, s)
    else if len == 0
    then (none, s)
    else if ltb max_buffer_decode len
    then (none, fail s)
    else if not (has_bytes s len)
    then (none, fail s)
    else (some (read_bytes s len), advance s len)

unfoldable pub decode : State → Option (List ℕ) × State
decode s = let (len, t) = Uint.decode s in decode_body len t

abbrev pub buffer : Codec (Option (List ℕ))
buffer = record { preencode = preencode; encode = encode; decode = decode }

abbrev pub wire : Option (List ℕ) → List ℕ
wire none = 0 ∷ []
wire (some []) = 0 ∷ []
wire (some (b ∷ bytes)) = Uint.wire (length (b ∷ bytes)) ++ (b ∷ bytes)

-- What reads back: null, or a buffer that is not empty and within the cap.
abbrev pub IsBuffer : Option (List ℕ) → Type 0
IsBuffer none = Unit {0}
IsBuffer (some bytes) = (0 < length bytes) × (length bytes ≤ max_buffer_decode)

preencode_lem :
    (s : State) (v : Option (List ℕ)) → IsBuffer v → preencode s v ≡ grow s (length (wire v))
unfolding preencode
preencode_lem s none h = refl
preencode_lem s (some []) h = refl
preencode_lem s (some (b ∷ bytes)) h =
    ap (λ (t : State). grow t (length (b ∷ bytes)))
      (uint-IsLawful.preencode_lem s (length (b ∷ bytes)) (omega arith))
    ∙ grow-grow s (Uint.wire (length (b ∷ bytes))) (b ∷ bytes)

encode_lem :
    (s : State) (v : Option (List ℕ))
    → IsBuffer v
    → Room s (length (wire v))
    → encode s v ≡ write_bytes s (wire v)
unfolding encode
encode_lem s none h r = rw (Room-ready s 1 r) (uint8-IsLawful.encode_lem s 0 (omega arith) r)
encode_lem s (some []) h r = absurd (omega arith)
encode_lem s (some (b ∷ bytes)) h r =
    rw
      (
        Room-ready s _ r,
        uint-IsLawful.encode_lem s n (omega arith)
            (Room-less s _ (length prefix) r (omega (arith, total))),
      )
      (guarded_write_lem (write_bytes s prefix) n (b ∷ bytes)
          (Room-write s _ n prefix r (omega (arith, total)))
        ∙ write_bytes-append s prefix (b ∷ bytes))
  where
    n : ℕ
    n = length (b ∷ bytes)

    prefix : List ℕ
    prefix = Uint.wire n

    total : length (wire (some (b ∷ bytes))) ≡ length prefix + n
    total = length-append prefix (b ∷ bytes)

decode_body_lem :
    (s : State) (v rest : List ℕ)
    → 0 < length v
    → length v ≤ max_buffer_decode
    → Unread s (v ++ rest)
    → decode_body (length v) s ≡ (some v, advance s (length v))
decode_body_lem s v rest pos cap u =
    let has : has_bytes s (length v) ≡ true =
      Unread-has s (v ++ rest) (length v) u (omega (arith, length-append v rest)) in
    ground (arith, Unread-read s v rest u)

decode_null : (s : State) → s.error ≡ false → decode_body 0 s ≡ (none, s)
decode_null s e = ground arith

decode_lem :
    (s : State) (v : Option (List ℕ)) (rest : List ℕ)
    → IsBuffer v
    → Unread s (wire v ++ rest)
    → decode s ≡ (v, advance s (length (wire v)))
unfolding decode
decode_lem s none rest h u =
    ap (λ (p : ℕ × State). decode_body p.0 p.1) (uint-IsLawful.decode_lem s 0 rest (omega arith) u)
    ∙ decode_null (advance s 1) u.fine
decode_lem s (some []) rest h u = absurd (omega arith)
decode_lem s (some (b ∷ bytes)) rest h u =
    ap (λ (p : ℕ × State). decode_body p.0 p.1)
      (uint-IsLawful.decode_lem s n (v ++ rest) (omega arith) all)
    ∙ decode_body_lem (advance s (length prefix)) v rest h.0 h.1
        (Unread-advance s prefix (v ++ rest) all)
    ∙ ap (λ (t : State). (some v, t))
        (advance-advance s (length prefix) n _ (sym (length-append prefix v)))
  where
    v : List ℕ
    v = b ∷ bytes

    n : ℕ
    n = length v

    prefix : List ℕ
    prefix = Uint.wire n

    all : Unread s (prefix ++ (v ++ rest))
    all = rw (← append_assoc prefix v rest) u

decode_body-Within : (len : ℕ) (s : State) → Within s (decode_body len s).1
unfolding has_bytes
decode_body-Within len s = ground arith

decode-Within : (s : State) → Within s (decode s).1
unfolding decode
decode-Within s =
    Within-trans s (Uint.decode s).1 (decode s).1 (uint-IsLawful.decode_Within s)
      (decode_body-Within (Uint.decode s).0 (Uint.decode s).1)

-- Null, and every buffer of 1 to 65536 bytes, has the format of its length and its bytes: the
-- size pass adds the length of that format, encoding into enough room writes it, decoding it
-- gives the value back and stops behind it, and no input makes the decoder leave it.
pub buffer-IsLawful : IsLawful buffer wire IsBuffer
buffer-IsLawful = record {
  preencode_lem = preencode_lem;
  encode_lem = encode_lem;
  decode_lem = decode_lem;
  decode_Within = decode-Within;
}
