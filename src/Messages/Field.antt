-- ===== src/Messages/Field.antt =====
-- The fields that messages share: optional ones, the value, the flags.
use hyperdht_cpp.Prelude.{
  ℕ, ◌%◌, ◌≤◌, ◌<◌, ◌≡◌, refl, ◌∙◌, Bool, true, false, Option, none, some, List, [], ◌∷◌,
  if◌then◌else◌, ltb, is_some, length, arith, IsU64,
}
use hyperdht_cpp.Compact.State.{State}
use hyperdht_cpp.Compact.Codec.{Codec, IsLawful}
use hyperdht_cpp.Compact.Buffer.{contents, max_buffer_decode, IsBuffer, buffer, buffer-IsLawful}
use hyperdht_cpp.Compact.Uint.{uint}
use hyperdht_cpp.Compact.Uint.Laws.{uint-IsLawful}
use hyperdht_cpp.Compact.Sequence.{
  Decoder, ◌>>=◌, bind-some, pure, checked, if_present, Piece, Piece-nil, Parses, Parses-codec,
  Parses-pure, wire_option, ValidOption,
}
use hyperdht_cpp.Compact.Buffer
use hyperdht_cpp.Compact.Uint

-- `Buffer::preencode(state, value->data(), value->size())`.
abbrev pub preencode_value : State → List ℕ → State
preencode_value s bytes = Buffer.preencode s (some bytes)

abbrev pub encode_value : State → List ℕ → State
encode_value s bytes = Buffer.encode s (some bytes)

-- A field that the flags announce; without its flag it keeps the value that it has.
abbrev pub announced : {A : Type 0} → Bool → (State → A × State) → Option A → Decoder (Option A)
announced true read old = checked read >>= λ v. pure (some v)
announced false read old = pure old

-- A null buffer is stored as an empty vector.
abbrev pub announced_value : Bool → Option (List ℕ) → Decoder (Option (List ℕ))
announced_value true old = checked Buffer.decode >>= λ v. pure (some (contents v))
announced_value false old = pure old

-- `flags_raw > 0xFF` is refused.
abbrev pub decode_flags : Decoder ℕ
decode_flags = checked Uint.decode >>= λ raw s. if ltb 0xff raw then none else some (raw % 256, s)

-- A value reads back if it keeps to the cap of `Buffer::decode`; it may be empty.
abbrev pub IsValue : List ℕ → Type 0
IsValue bytes = length bytes ≤ max_buffer_decode

abbrev pub wire_value : List ℕ → List ℕ
wire_value bytes = Buffer.wire (some bytes)

null_or_empty : (s : State) → Buffer.encode s (some []) ≡ Buffer.encode s none
unfolding Buffer.encode
null_or_empty s = refl

pub Piece-value :
    (bytes : List ℕ)
    → IsValue bytes
    → Piece (λ s. preencode_value s bytes) (λ s. encode_value s bytes) (wire_value bytes)
Piece-value [] h = record {
  size = λ s k. unfold Buffer.preencode in refl;
  content = λ s r. null_or_empty s ∙ buffer-IsLawful.encode_lem s none tt r;
}
Piece-value (b ∷ bytes) h = record {
  size = λ s k. buffer-IsLawful.preencode_lem s (some (b ∷ bytes)) (omega arith);
  content = λ s r. buffer-IsLawful.encode_lem s (some (b ∷ bytes)) (omega arith) r;
}

pub Parses-value :
    (bytes : List ℕ)
    → IsValue bytes
    → Parses
        (checked Buffer.decode >>= λ v. pure (some (contents v)))
        (some bytes)
        (wire_value bytes)
Parses-value [] h s rest u =
    bind-some (checked Buffer.decode) (λ v. pure (some (contents v))) s
      (Parses-codec buffer Buffer.wire IsBuffer buffer-IsLawful none tt s rest u)
Parses-value (b ∷ bytes) h s rest u =
    bind-some (checked Buffer.decode) (λ v. pure (some (contents v))) s
      (Parses-codec buffer Buffer.wire IsBuffer buffer-IsLawful (some (b ∷ bytes)) (omega arith) s
        rest u)

pub Parses-flags : (flags : ℕ) → flags < 32 → Parses decode_flags flags (Uint.wire flags)
Parses-flags flags h s rest u =
    bind-some (checked Uint.decode) (λ raw s. if ltb 0xff raw then none else some (raw % 256, s)) s
      (Parses-codec uint Uint.wire IsU64 uint-IsLawful flags (omega arith) s rest u)
    ∙ ground arith

-- An optional field follows its flag.
pub Parses-announced :
    {A : Type 0} (c : Codec A) (w : A → List ℕ) (Valid : A → Type 0)
    → IsLawful c w Valid
    → (flag : Bool) (o : Option A) → flag ≡ is_some o
    → ValidOption Valid o
    → Parses (announced flag c.decode none) o (wire_option w o)
Parses-announced c w Valid laws true none e h = cc
Parses-announced c w Valid laws false none e h = Parses-pure none
Parses-announced c w Valid laws false (some v) e h = cc
Parses-announced c w Valid laws true (some v) e h = λ s rest u.
    bind-some (checked c.decode) (λ v. pure (some v)) s (Parses-codec c w Valid laws v h s rest u)

pub Parses-announced_value :
    (flag : Bool) (o : Option (List ℕ))
    → flag ≡ is_some o
    → ValidOption IsValue o
    → Parses (announced_value flag none) o (wire_option wire_value o)
Parses-announced_value true none e h = cc
Parses-announced_value false none e h = Parses-pure none
Parses-announced_value false (some v) e h = cc
Parses-announced_value true (some v) e h = Parses-value v h

pub Piece-announced_value :
    (o : Option (List ℕ))
    → ValidOption IsValue o
    → Piece
        (λ s. if_present preencode_value s o)
        (λ s. if_present encode_value s o)
        (wire_option wire_value o)
Piece-announced_value none h = Piece-nil
Piece-announced_value (some v) h = Piece-value v h
