-- ===== src/Compact/Uint.antt =====
-- The varint `Uint` of compact.cpp.
pub mod Laws
use hyperdht_cpp.Prelude.{
  ℕ, ◌+◌, ◌%◌, ◌≤◌, ◌<◌, ◌≡◌, refl, sym, ap, ◌∙◌, Bool, true, false, ◌||◌, List, [], ◌∷◌, ◌++◌,
  if◌then◌else◌, leb, ◌==◌, not, arith, length, add64, IsU64, Bool-cases, inl, inr, leb→le,
  append_assoc,
}
use hyperdht_cpp.Compact.State.{
  State, no_buffer, fail, grow, advance, has_bytes, write_bytes, peek, read_bytes, le16, le32, le64,
  read_le16, read_le32, read_le64,
}
use hyperdht_cpp.Compact.Cursor.{
  Unread, Room, Within, Unread-has, Unread-peek, Unread-read, Unread-advance, Room-has, Room-write,
  write_bytes-append,
}
use hyperdht_cpp.Compact.Codec.{Codec, IsLawful}
use hyperdht_cpp.Compact.Word.{read_le16-le16, read_le32-le32, read_le64-le64}

unfoldable pub preencode : State → ℕ → State
preencode s v =
    if leb v 0xfc
    then grow s 1
    else if leb v 0xffff
    then grow s 3
    else if leb v 0xffffffff
    then grow s 5
    else grow s 9

-- One branch of `encode`: the marker byte, then the word behind it.
abbrev marked : State → ℕ → ℕ → List ℕ → State
marked s size marker word =
    if has_bytes s size then write_bytes (write_bytes s (marker ∷ [])) word else fail s

unfoldable pub encode : State → ℕ → State
encode s v =
    if s.error || no_buffer s
    then fail s
    else if leb v 0xfc
    then if has_bytes s 1 then write_bytes s ((v % 256) ∷ []) else fail s
    else if leb v 0xffff
    then marked s 3 0xfd (le16 (v % 65536))
    else if leb v 0xffffffff
    then marked s 5 0xfe (le32 (v % 4294967296))
    else marked s 9 0xff (le64 v)

-- One branch of `decode`: `size` bytes behind the marker, read by `read`.
abbrev word_behind : State → ℕ → (List ℕ → ℕ) → ℕ × State
word_behind s size read =
    if has_bytes s size then (read (read_bytes s size), advance s size) else (0, fail s)

decode_first : ℕ → State → ℕ × State
decode_first first s =
    if leb first 0xfc
    then (first, s)
    else if first == 0xfd
    then word_behind s 2 read_le16
    else if first == 0xfe
    then word_behind s 4 read_le32
    else word_behind s 8 read_le64

unfoldable pub decode : State → ℕ × State
unfolding decode_first
decode s =
    if s.error || not (has_bytes s 1) then (0, fail s) else decode_first (peek s) (advance s 1)

abbrev pub uint : Codec ℕ
uint = record { preencode = preencode; encode = encode; decode = decode }

-- The format that compact.hpp documents.
abbrev pub wire : ℕ → List ℕ
wire v =
    if leb v 0xfc
    then v ∷ []
    else if leb v 0xffff
    then 0xfd ∷ le16 v
    else if leb v 0xffffffff
    then 0xfe ∷ le32 v
    else 0xff ∷ le64 v
