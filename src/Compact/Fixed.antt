-- ===== src/Compact/Fixed.antt =====
-- `Fixed32` and `Fixed64` of compact.cpp: `std::array<uint8_t, size>`, with no prefix.
use hyperdht_cpp.Prelude.{ℕ, ap, sym, ◌∙◌, List, replicate, IsArray}
use hyperdht_cpp.Compact.State.{State, grow, advance}
use hyperdht_cpp.Compact.Sized.{
  guarded_write, guarded_read, guarded_write_lem, guarded_read_lem, guarded_read-Within,
}
use hyperdht_cpp.Compact.Codec.{Codec, IsLawful}

abbrev same : List ℕ → List ℕ
same bytes = bytes

unfoldable pub preencode : ℕ → State → List ℕ → State
preencode size s v = grow s size

unfoldable pub encode : ℕ → State → List ℕ → State
encode size s v = guarded_write s size v

unfoldable pub decode : ℕ → State → List ℕ × State
decode size s = guarded_read s size (replicate size 0) (λ v. v)

abbrev pub fixed : ℕ → Codec (List ℕ)
fixed size = record { preencode = preencode size; encode = encode size; decode = decode size }

abbrev pub fixed32 : Codec (List ℕ)
fixed32 = fixed 32

abbrev pub fixed64 : Codec (List ℕ)
fixed64 = fixed 64

-- An array of the codec's size is its own format: the size pass adds the length of that
-- format, encoding into enough room writes it, decoding it gives the value back and stops
-- behind it, and no input makes the decoder leave it.
pub fixed-IsLawful : (size : ℕ) → IsLawful (fixed size) (λ v. v) (IsArray size)
unfolding preencode encode decode
fixed-IsLawful size = record {
  preencode_lem = λ s v h. ap (grow s) (sym h.sized);
  encode_lem = λ s v h r. guarded_write_lem s size v (rw h.sized at r);
  decode_lem = λ s v rest h u.
      guarded_read_lem s size (replicate size 0) (λ w. w) v rest u h.sized
      ∙ ap (λ (n : ℕ). (v, advance s n)) (sym h.sized);
  decode_Within = λ s. guarded_read-Within s size (replicate size 0) (λ w. w);
}
