-- ===== src/Compact/Uint16.antt =====
-- `Uint16` of compact.cpp: two bytes, little endian.
use hyperdht_cpp.Prelude.{ℕ, ◌+◌, refl, ap, ◌∙◌, IsU16}
use hyperdht_cpp.Compact.State.{State, grow, le16, le32, le64, read_le16}
use hyperdht_cpp.Compact.Sized.{
  checked_write, guarded_read, checked_write_lem, guarded_read_lem, guarded_read-Within,
}
use hyperdht_cpp.Compact.Codec.{Codec, IsLawful}
use hyperdht_cpp.Compact.Word.{read_le16-le16}

unfoldable pub preencode : State → ℕ → State
preencode s v = grow s 2

unfoldable pub encode : State → ℕ → State
encode s v = checked_write s 2 (le16 v)

unfoldable pub decode : State → ℕ × State
decode s = guarded_read s 2 0 read_le16

abbrev pub uint16 : Codec ℕ
uint16 = record { preencode = preencode; encode = encode; decode = decode }

-- Every number below 2^16 has the format of 2 little-endian bytes: the size pass adds the
-- length of that format, encoding into enough room writes it, decoding it gives the value back
-- and stops behind it, and no input makes the decoder leave it.
pub uint16-IsLawful : IsLawful uint16 le16 IsU16
unfolding preencode encode decode le16 le32 le64
uint16-IsLawful = record {
  preencode_lem = λ s v h. refl;
  encode_lem = λ s v h r. checked_write_lem s 2 (le16 v) r;
  decode_lem = λ s v rest h u.
      guarded_read_lem s 2 0 read_le16 (le16 v) rest u refl
      ∙ ap (λ (w : ℕ). (w, record s { start = s.start + 2 })) (read_le16-le16 v h);
  decode_Within = λ s. guarded_read-Within s 2 0 read_le16;
}
