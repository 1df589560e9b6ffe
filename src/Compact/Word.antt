-- ===== src/Compact/Word.antt =====
-- The little-endian words of compact.cpp: `write_le16`, `read_le16` and their kin.
use hyperdht_cpp.Prelude.{
  ℕ, ◌+◌, ◌*◌, ◌/◌, ◌%◌, ◌<◌, ◌≡◌, refl, ap, ◌∙◌, bit_or, List, [], ◌++◌, drop, arith, length,
  IsU16, IsU32, IsU64,
}
use hyperdht_cpp.Prelude.Bits.{bit_or_shifted}
use hyperdht_cpp.Compact.State.{le16, le32, le64, read_le16, read_le32, read_le64}

pub read_le16-le16 : (v : ℕ) → IsU16 v → read_le16 (le16 v) ≡ v
unfolding read_le16 le16
read_le16-le16 v h = omega (arith, bit_or_shifted 8 (v % 256) (v / 256 % 256) (omega arith))

-- Four bytes joined by `|`.
join32 :
    (a b c d : ℕ)
    → a < 256
    → b < 256
    → c < 256
    → bit_or (bit_or (bit_or a (b * 256)) (c * 65536)) (d * 16777216)
      ≡ a + b * 256 + c * 65536 + d * 16777216
join32 a b c d ha hb hc =
    ap (λ (t : ℕ). bit_or (bit_or t (c * 65536)) (d * 16777216)) (bit_or_shifted 8 a b ha)
    ∙ ap (λ (t : ℕ). bit_or t (d * 16777216)) (bit_or_shifted 16 (a + b * 256) c (omega arith))
    ∙ bit_or_shifted 24 (a + b * 256 + c * 65536) d (omega arith)

read_le32_front : (v : ℕ) (rest : List ℕ) → IsU32 v → read_le32 (le32 v ++ rest) ≡ v
unfolding read_le32 le32
read_le32_front v rest h = omega (
  arith,
  join32 (v % 256) (v / 256 % 256) (v / 65536 % 256) (v / 16777216 % 256) (omega arith)
      (omega arith) (omega arith),
)

pub read_le32-le32 : (v : ℕ) → IsU32 v → read_le32 (le32 v) ≡ v
unfolding le32
read_le32-le32 v h = read_le32_front v [] h

pub read_le64-le64 : (v : ℕ) → IsU64 v → read_le64 (le64 v) ≡ v
unfolding read_le64 le64
read_le64-le64 v h =
    ap (λ (t : ℕ). bit_or t (read_le32 (drop 4 (le64 v)) * 4294967296))
      (read_le32_front (v % 4294967296) (le32 (v / 4294967296 % 4294967296)) (omega arith))
    ∙ ap (λ (t : ℕ). bit_or (v % 4294967296) (t * 4294967296)) upper
    ∙ bit_or_shifted 32 (v % 4294967296) (v / 4294967296) (omega arith)
    ∙ omega arith
  where
    upper : read_le32 (drop 4 (le64 v)) ≡ v / 4294967296
    upper = omega (arith, read_le32-le32 (v / 4294967296 % 4294967296) (omega arith))

pub length-le64 : (v : ℕ) → length (le64 v) ≡ 8
unfolding le64
length-le64 v = refl
