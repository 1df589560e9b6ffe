-- ===== src/Compact/Boolean.antt =====
-- `Bool` of compact.cpp: one byte, 0 or 1; any other byte reads as true.
use hyperdht_cpp.Prelude.{
  ℕ, ◌≡◌, refl, ap, ◌∙◌, Bool, true, false, ◌||◌, not, List, if◌then◌else◌, ◌==◌, arith, IsByte,
}
use hyperdht_cpp.Compact.State.{State, no_buffer, fail, grow, advance}
use hyperdht_cpp.Compact.Cursor.{Room-ready}
use hyperdht_cpp.Compact.Codec.{Codec, IsLawful}
use hyperdht_cpp.Compact.Uint8
use hyperdht_cpp.Compact.Uint8.{byte, uint8, uint8-IsLawful}

abbrev pub as_byte : Bool → ℕ
as_byte v = if v then 1 else 0

unfoldable pub preencode : State → Bool → State
preencode s v = grow s 1

unfoldable pub encode : State → Bool → State
encode s v = if s.error || no_buffer s then fail s else Uint8.encode s (as_byte v)

unfoldable pub decode : State → Bool × State
decode s = let (b, t) = Uint8.decode s in (not (b == 0), t)

abbrev pub boolean : Codec Bool
boolean = record { preencode = preencode; encode = encode; decode = decode }

abbrev pub wire : Bool → List ℕ
wire v = byte (as_byte v)

as_byte-IsByte : (v : Bool) → IsByte (as_byte v)
as_byte-IsByte true = omega arith
as_byte-IsByte false = omega arith

as_byte_back : (v : Bool) → not (as_byte v == 0) ≡ v
as_byte_back true = refl
as_byte_back false = refl

-- A flag has the format of the byte 0 or 1: the size pass adds the length of that format,
-- encoding into enough room writes it, decoding it gives the value back and stops behind it,
-- and no input makes the decoder leave it.
pub boolean-IsLawful : IsLawful boolean wire (λ v. Unit {0})
unfolding preencode encode decode
boolean-IsLawful = record {
  preencode_lem = λ s v h. refl;
  encode_lem = λ s v h r.
      rw (Room-ready s 1 r) (uint8-IsLawful.encode_lem s (as_byte v) (as_byte-IsByte v) r);
  decode_lem = λ s v rest h u.
      ap (λ (p : ℕ × State). (not (p.0 == 0), p.1))
        (uint8-IsLawful.decode_lem s (as_byte v) rest (as_byte-IsByte v) u)
      ∙ ap (λ (b : Bool). (b, advance s 1)) (as_byte_back v);
  decode_Within = λ s. uint8-IsLawful.decode_Within s;
}
