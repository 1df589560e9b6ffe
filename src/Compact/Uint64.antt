-- ===== src/Compact/Uint64.antt =====
-- `Uint64` of compact.cpp: eight bytes, little endian.
use hyperdht_cpp.Prelude.{ℕ, ◌+◌, refl, ap, ◌∙◌, IsU64}
use hyperdht_cpp.Compact.State.{State, grow, le16, le32, le64, read_le64}
use hyperdht_cpp.Compact.Sized.{
  checked_write, guarded_read, checked_write_lem, guarded_read_lem, guarded_read-Within,
}
use hyperdht_cpp.Compact.Codec.{Codec, IsLawful}
use hyperdht_cpp.Compact.Word.{read_le64-le64}

unfoldable pub preencode : State → ℕ → State
preencode s v = grow s 8

unfoldable pub encode : State → ℕ → State
encode s v = checked_write s 8 (le64 v)

unfoldable pub decode : State → ℕ × State
decode s = guarded_read s 8 0 read_le64

abbrev pub uint64 : Codec ℕ
uint64 = record { preencode = preencode; encode = encode; decode = decode }

-- Every number below 2^64 has the format of 8 little-endian bytes: the size pass adds the
-- length of that format, encoding into enough room writes it, decoding it gives the value back
-- and stops behind it, and no input makes the decoder leave it.
pub uint64-IsLawful : IsLawful uint64 le64 IsU64
unfolding preencode encode decode le16 le32 le64
uint64-IsLawful = record {
  preencode_lem = λ s v h. refl;
  encode_lem = λ s v h r. checked_write_lem s 8 (le64 v) r;
  decode_lem = λ s v rest h u.
      guarded_read_lem s 8 0 read_le64 (le64 v) rest u refl
      ∙ ap (λ (w : ℕ). (w, record s { start = s.start + 8 })) (read_le64-le64 v h);
  decode_Within = λ s. guarded_read-Within s 8 0 read_le64;
}
