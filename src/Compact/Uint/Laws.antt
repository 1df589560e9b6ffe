-- ===== src/Compact/Uint/Laws.antt =====
-- The laws of the varint `Uint` of compact.cpp.
use hyperdht_cpp.Prelude.{
  ℕ, ◌+◌, ◌%◌, ◌≡◌, refl, ap, ◌∙◌, suc, List, [], ◌∷◌, ◌++◌, leb, arith, length, IsU64, Bool-cases,
  inl, inr, leb→le, length-append,
}
use mathlib.Core.Path.{ap₂}
use hyperdht_cpp.Compact.State.{
  State, fail, grow, advance, has_bytes, write_bytes, peek, le16, le32, le64, read_le16, read_le32,
  read_le64,
}
use hyperdht_cpp.Compact.Cursor.{
  Unread, Room, Within, Unread-has, Unread-peek, Unread-read, Unread-advance, Room-has, Within-fail,
  Within-guarded, advance-advance, Room-ready, Unread-ready, write_bytes-append,
}
use hyperdht_cpp.Compact.Codec.{IsLawful}
use hyperdht_cpp.Compact.Word.{read_le16-le16, read_le32-le32, read_le64-le64}
use hyperdht_cpp.Compact.Uint.{
  preencode, encode, decode, decode_first, marked, word_behind, uint, wire,
}

preencode-wire : (s : State) (v : ℕ) → preencode s v ≡ grow s (length (wire v))
unfolding preencode le16 le32 le64
preencode-wire s v = ground arith

marked_lem :
    (s : State) (size marker : ℕ) (word : List ℕ)
    → Room s size
    → size ≡ 1 + length word
    → marked s size marker word ≡ write_bytes s (marker ∷ word)
marked_lem s size marker word r e =
    rw (Room-has s size size r (omega arith)) (write_bytes-append s (marker ∷ []) word)

encode-wire :
    (s : State) (v : ℕ) → IsU64 v → Room s (length (wire v)) → encode s v ≡ write_bytes s (wire v)
unfolding encode
encode-wire s v h r = elim (Bool-cases (leb v 0xfc)) [
  | inl a ↦
      let r' : Room s 1 = rw a at r in
      rw (Room-ready s 1 r', a, Room-has s 1 1 r' (omega arith))
        (ap (λ (t : ℕ). write_bytes s (t ∷ [])) (omega (arith, leb→le v 0xfc a)))
  | inr a ↦ elim (Bool-cases (leb v 0xffff)) [
    | inl b ↦
        let r' : Room s 3 = unfold le16 in rw (a, b) at r in
        rw (Room-ready s 3 r', a, b)
          (marked_lem s 3 0xfd (le16 (v % 65536)) r' (unfold le16 in refl)
            ∙ ap (λ (t : ℕ). write_bytes s (0xfd ∷ le16 t)) (omega (arith, leb→le v 0xffff b)))
    | inr b ↦ elim (Bool-cases (leb v 0xffffffff)) [
      | inl c ↦
          let r' : Room s 5 = unfold le32 in rw (a, b, c) at r in
          rw (Room-ready s 5 r', a, b, c)
            (marked_lem s 5 0xfe (le32 (v % 4294967296)) r' (unfold le32 in refl)
              ∙ ap (λ (t : ℕ). write_bytes s (0xfe ∷ le32 t))
                  (omega (arith, leb→le v 0xffffffff c)))
      | inr c ↦
          let r' : Room s 9 = unfold le64 in rw (a, b, c) at r in
          rw (Room-ready s 9 r', a, b, c) (marked_lem s 9 0xff (le64 v) r' (unfold le64 in refl))
    ]
  ]
]

word_behind_lem :
    (s : State) (read : List ℕ → ℕ) (word rest : List ℕ) (n : ℕ)
    → Unread s (word ++ rest)
    → length word ≡ n
    → word_behind s n read ≡ (read word, advance s n)
word_behind_lem s read word rest n u e = rw (
  ← e,
  Unread-has s (word ++ rest) (length word) u (omega (arith, length-append word rest)),
  Unread-read s word rest u,
)

decode_marked :
    (s : State) (first : ℕ) (word rest : List ℕ)
    → Unread s (first ∷ (word ++ rest))
    → decode s ≡ decode_first first (advance s 1)
unfolding decode
decode_marked s first word rest u =
    rw (Unread-ready s _ 1 u (omega arith), Unread-peek s first (word ++ rest) u)

-- A marker byte followed by its word.
word_lem :
    (s : State) (first v n : ℕ) (read : List ℕ → ℕ) (word rest : List ℕ)
    → Unread s ((first ∷ word) ++ rest)
    → length word ≡ n
    → read word ≡ v
    → word_behind (advance s 1) n read ≡ (v, advance s (suc n))
word_lem s first v n read word rest u size e =
    word_behind_lem (advance s 1) read word rest n (Unread-advance s (first ∷ []) (word ++ rest) u)
      size
    ∙ ap₂ (λ (w : ℕ) (t : State). (w, t)) e (advance-advance s 1 n (suc n) (omega arith))

decode-wire :
    (s : State) (v : ℕ) (rest : List ℕ)
    → IsU64 v
    → Unread s (wire v ++ rest)
    → decode s ≡ (v, advance s (length (wire v)))
unfolding decode_first le16 le32 le64
decode-wire s v rest h u = elim (Bool-cases (leb v 0xfc)) [
  | inl a ↦ let u' : Unread s (v ∷ rest) = rw a at u in decode_marked s v [] rest u' ∙ rw a
  | inr a ↦ elim (Bool-cases (leb v 0xffff)) [
    | inl b ↦
        let u' : Unread s ((0xfd ∷ le16 v) ++ rest) = rw (a, b) at u in
        decode_marked s 0xfd (le16 v) rest u'
        ∙ rw (a, b)
            (word_lem s 0xfd v 2 read_le16 (le16 v) rest u' refl
              (read_le16-le16 v (omega (arith, leb→le v 0xffff b))))
    | inr b ↦ elim (Bool-cases (leb v 0xffffffff)) [
      | inl c ↦
          let u' : Unread s ((0xfe ∷ le32 v) ++ rest) = rw (a, b, c) at u in
          decode_marked s 0xfe (le32 v) rest u'
          ∙ rw (a, b, c)
              (word_lem s 0xfe v 4 read_le32 (le32 v) rest u' refl
                (read_le32-le32 v (omega (arith, leb→le v 0xffffffff c))))
      | inr c ↦
          let u' : Unread s ((0xff ∷ le64 v) ++ rest) = rw (a, b, c) at u in
          decode_marked s 0xff (le64 v) rest u'
          ∙ rw (a, b, c) (word_lem s 0xff v 8 read_le64 (le64 v) rest u' refl (read_le64-le64 v h))
    ]
  ]
]

word_behind-Within : (s : State) (n : ℕ) (read : List ℕ → ℕ) → Within s (word_behind s n read).1
unfolding has_bytes
word_behind-Within s n read = ground arith

first-Within : (first : ℕ) (s : State) → Within s (decode_first first s).1
unfolding decode_first has_bytes
first-Within first s = ground arith

decode-Within : (s : State) → Within s (decode s).1
unfolding decode
decode-Within s =
    Within-guarded s 1 (decode_first (peek s) (advance s 1)) (0, fail s)
      (first-Within (peek s) (advance s 1)) (Within-fail s)

-- Every number below 2^64 has the documented format of 1, 3, 5 or 9 bytes: the size pass adds
-- the length of that format, encoding into enough room writes it, decoding it gives the value
-- back and stops behind it, and no input makes the decoder leave it.
pub uint-IsLawful : IsLawful uint wire IsU64
uint-IsLawful = record {
  preencode_lem = λ s v _. preencode-wire s v;
  encode_lem = encode-wire;
  decode_lem = decode-wire;
  decode_Within = decode-Within;
}
