-- ===== src/Compact/State.antt =====
-- The cursor of compact.hpp (`State`) and the byte access of compact.cpp.
use hyperdht_cpp.Prelude.{
  ℕ, zero, suc, ◌+◌, ◌-◌, ◌*◌, ◌/◌, ◌%◌, bit_or, Bool, true, false, ◌&&◌, Option, none, some, List,
  [], ◌∷◌, ◌++◌, leb, add64, length, get_or, take, drop,
}
use mathlib.Core.Option

-- `buffer` is the memory from the pointer on; `none` is the null pointer.
pub record State : Type 0 where
  pub start : ℕ
  pub end : ℕ
  pub buffer : Option (List ℕ)
  pub error : Bool
  pub read_buffer : Option (List ℕ)

abbrev pub empty_state : State
empty_state = record { start = 0; end = 0; buffer = none; error = false; read_buffer = none }

abbrev pub for_decode : List ℕ → State
for_decode bytes = record empty_state { read_buffer = some bytes; end = length bytes }

-- The memory that `data()` points to. A null pointer has no bytes.
abbrev pub memory : State → List ℕ
memory s = elim s.read_buffer [
  | some bytes ↦ bytes
  | none ↦ elim s.buffer [ some bytes ↦ bytes | none ↦ [] ]
]

-- `s.buffer == nullptr`.
abbrev pub no_buffer : State → Bool
no_buffer s = elim s.buffer [ some bytes ↦ false | none ↦ true ]

abbrev pub fail : State → State
fail s = record s { error = true }

-- `s.end += n` on `size_t`.
abbrev pub grow : State → ℕ → State
grow s n = record s { end = add64 s.end n }

-- `s.start += n` behind a `has_bytes` test, so that the sum is at most `end`.
abbrev pub advance : State → ℕ → State
advance s n = record s { start = s.start + n }

unfoldable pub has_bytes : State → ℕ → Bool
has_bytes s n = leb s.start s.end && leb n (s.end - s.start)

-- `memcpy(buffer + i, bytes)`; what lies outside of the buffer is not written.
unfoldable pub copy_at : List ℕ → ℕ → List ℕ → List ℕ
copy_at [] i bytes = []
copy_at (x ∷ xs) zero [] = x ∷ xs
copy_at (x ∷ xs) zero (b ∷ bytes) = b ∷ copy_at xs zero bytes
copy_at (x ∷ xs) (suc i) bytes = x ∷ copy_at xs i bytes

-- A write at the cursor, which moves behind it.
unfoldable pub write_bytes : State → List ℕ → State
write_bytes s bytes = record s {
  buffer = Option.map (λ b. copy_at b s.start bytes) s.buffer;
  start = s.start + length bytes;
}

-- `data()[start]` and the `n` bytes at `data() + start`.
unfoldable pub peek : State → ℕ
peek s = get_or (drop s.start (memory s)) 0 0

unfoldable pub read_bytes : State → ℕ → List ℕ
read_bytes s n = take n (drop s.start (memory s))

-- The bytes of `write_le16`, `write_le32` and `write_le64`.
unfoldable pub le16 : ℕ → List ℕ
le16 v = (v % 256) ∷ (v / 256 % 256) ∷ []

unfoldable pub le32 : ℕ → List ℕ
le32 v = (v % 256) ∷ (v / 256 % 256) ∷ (v / 65536 % 256) ∷ (v / 16777216 % 256) ∷ []

unfoldable pub le64 : ℕ → List ℕ
unfolding le32
le64 v = le32 (v % 4294967296) ++ le32 (v / 4294967296 % 4294967296)

unfoldable pub read_le16 : List ℕ → ℕ
read_le16 p = bit_or (get_or p 0 0) (get_or p 1 0 * 256)

unfoldable pub read_le32 : List ℕ → ℕ
read_le32 p =
    bit_or (bit_or (bit_or (get_or p 0 0) (get_or p 1 0 * 256)) (get_or p 2 0 * 65536))
      (get_or p 3 0 * 16777216)

unfoldable pub read_le64 : List ℕ → ℕ
unfolding read_le32
read_le64 p = bit_or (read_le32 p) (read_le32 (drop 4 p) * 4294967296)
