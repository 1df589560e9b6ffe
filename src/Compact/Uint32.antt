-- ===== src/Compact/Uint32.antt =====
-- `Uint32` of compact.cpp: four bytes, little endian.
use hyperdht_cpp.Prelude.{ℕ, ◌+◌, refl, ap, ◌∙◌, IsU32}
use hyperdht_cpp.Compact.State.{State, grow, le16, le32, le64, read_le32}
use hyperdht_cpp.Compact.Sized.{
  checked_write, guarded_read, checked_write_lem, guarded_read_lem, guarded_read-Within,
}
use hyperdht_cpp.Compact.Codec.{Codec, IsLawful}
use hyperdht_cpp.Compact.Word.{read_le32-le32}

unfoldable pub preencode : State → ℕ → State
preencode s v = grow s 4

unfoldable pub encode : State → ℕ → State
encode s v = checked_write s 4 (le32 v)

unfoldable pub decode : State → ℕ × State
decode s = guarded_read s 4 0 read_le32

abbrev pub uint32 : Codec ℕ
uint32 = record { preencode = preencode; encode = encode; decode = decode }

-- Every number below 2^32 has the format of 4 little-endian bytes: the size pass adds the
-- length of that format, encoding into enough room writes it, decoding it gives the value back
-- and stops behind it, and no input makes the decoder leave it.
pub uint32-IsLawful : IsLawful uint32 le32 IsU32
unfolding preencode encode decode le16 le32 le64
uint32-IsLawful = record {
  preencode_lem = λ s v h. refl;
  encode_lem = λ s v h r. checked_write_lem s 4 (le32 v) r;
  decode_lem = λ s v rest h u.
      guarded_read_lem s 4 0 read_le32 (le32 v) rest u refl
      ∙ ap (λ (w : ℕ). (w, record s { start = s.start + 4 })) (read_le32-le32 v h);
  decode_Within = λ s. guarded_read-Within s 4 0 read_le32;
}
