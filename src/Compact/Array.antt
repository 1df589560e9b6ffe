-- ===== src/Compact/Array.antt =====
-- The template `Array<Enc, T>` of compact.hpp: a varint count, then the elements. It is generic
-- in the codec of the elements.
pub mod Laws
use hyperdht_cpp.Prelude.{
  ℕ, zero, suc, ◌+◌, ◌≤◌, ◌≡◌, refl, ap, sym, ◌∙◌, Bool, true, false, ◌||◌, List, [], ◌∷◌, ◌++◌,
  append_assoc, length, length-append, if◌then◌else◌, ltb, arith, All, Bool-cases, inl, inr,
}
use hyperdht_cpp.Compact.State.{State, fail, grow, advance, write_bytes}
use hyperdht_cpp.Compact.Cursor.{
  Room, Unread, Within, Room-write, Room-less, Unread-advance, Within-trans, Within-refl,
  Within-fail, write_bytes-append, advance-advance, grow-grow,
}
use hyperdht_cpp.Compact.Codec.{Codec, IsLawful}
use hyperdht_cpp.Compact.Uint
use hyperdht_cpp.Compact.Uint.Laws.{uint-IsLawful}

abbrev pub array_max_length : ℕ
array_max_length = 4096

module _ {A : Type 0} (c : Codec A) where
  unfoldable pub preencode_items : State → List A → State
  preencode_items s [] = s
  preencode_items s (v ∷ vs) = preencode_items (c.preencode s v) vs

  unfoldable pub encode_items : State → List A → State
  encode_items s [] = s
  encode_items s (v ∷ vs) = encode_items (c.encode s v) vs

  -- `for (i = 0; i < count && !s.error; ++i)`, with the rounds that are left.
  unfoldable pub decode_items : ℕ → State → List A × State
  decode_items zero s = ([], s)
  decode_items (suc n) s =
      let next = c.decode s in
      let rest = decode_items n next.1 in if s.error then ([], s) else (next.0 ∷ rest.0, rest.1)

  unfoldable pub preencode : State → List A → State
  preencode s vs = preencode_items (Uint.preencode s (length vs)) vs

  unfoldable pub encode : State → List A → State
  encode s vs = encode_items (Uint.encode s (length vs)) vs

  abbrev pub decode_body : ℕ → State → List A × State
  decode_body count s =
      if s.error || ltb array_max_length count then ([], fail s) else decode_items count s

  unfoldable pub decode : State → List A × State
  decode s = let (count, t) = Uint.decode s in decode_body count t

  abbrev pub array : Codec (List A)
  array = record { preencode = preencode; encode = encode; decode = decode }

module _ {A : Type 0} (w : A → List ℕ) where
  abbrev pub wire_items : List A → List ℕ
  wire_items [] = []
  wire_items (v ∷ vs) = w v ++ wire_items vs

  abbrev pub wire : List A → List ℕ
  wire vs = Uint.wire (length vs) ++ wire_items vs

-- At most as many elements as `decode` accepts.
abbrev pub IsArrayOf : {A : Type 0} → (A → Type 0) → List A → Type 0
IsArrayOf Valid vs = (length vs ≤ array_max_length) × All Valid vs
