-- ===== src/Compact/Uint8.antt =====
-- `Uint8` of compact.cpp: one byte.
use hyperdht_cpp.Prelude.{ℕ, ◌+◌, refl, ap, ◌∙◌, List, [], ◌∷◌, get_or, IsByte}
use hyperdht_cpp.Compact.State.{State, grow, le16, le32, le64}
use hyperdht_cpp.Compact.Sized.{
  checked_write, guarded_read, checked_write_lem, guarded_read_lem, guarded_read-Within,
}
use hyperdht_cpp.Compact.Codec.{Codec, IsLawful}

abbrev pub byte : ℕ → List ℕ
byte v = v ∷ []

abbrev first_byte : List ℕ → ℕ
first_byte p = get_or p 0 0

unfoldable pub preencode : State → ℕ → State
preencode s v = grow s 1

unfoldable pub encode : State → ℕ → State
encode s v = checked_write s 1 (byte v)

unfoldable pub decode : State → ℕ × State
decode s = guarded_read s 1 0 first_byte

abbrev pub uint8 : Codec ℕ
uint8 = record { preencode = preencode; encode = encode; decode = decode }

-- Every number below 2^8 has the format of 1 little-endian byte: the size pass adds the length
-- of that format, encoding into enough room writes it, decoding it gives the value back and
-- stops behind it, and no input makes the decoder leave it.
pub uint8-IsLawful : IsLawful uint8 byte IsByte
unfolding preencode encode decode le16 le32 le64
uint8-IsLawful = record {
  preencode_lem = λ s v h. refl;
  encode_lem = λ s v h r. checked_write_lem s 1 (byte v) r;
  decode_lem = λ s v rest h u.
      guarded_read_lem s 1 0 first_byte (byte v) rest u refl
      ∙ ap (λ (w : ℕ). (w, record s { start = s.start + 1 })) (refl);
  decode_Within = λ s. guarded_read-Within s 1 0 first_byte;
}
