-- ===== src/Compact/Array/Laws.antt =====
-- The laws of the template `Array<Enc, T>` of compact.hpp.
use hyperdht_cpp.Prelude.{
  ℕ, zero, suc, ◌+◌, ◌≡◌, ap, sym, ◌∙◌, false, ◌||◌, List, [], ◌∷◌, ◌++◌, append_assoc, length,
  length-append, ltb, arith, All, IsU64, if-false, if_cases,
}
use hyperdht_cpp.Compact.State.{State, grow, advance, write_bytes}
use hyperdht_cpp.Compact.Cursor.{
  Room, Unread, Within, Room-write, Room-less, Unread-advance, Within-trans, Within-refl,
  Within-fail, write_bytes-append, advance-advance, advance-zero, grow-zero, write_bytes-nil,
  grow-grow,
}
use hyperdht_cpp.Compact.Codec.{Codec, IsLawful}
use hyperdht_cpp.Compact.Uint
use hyperdht_cpp.Compact.Uint.Laws.{uint-IsLawful}
use hyperdht_cpp.Compact.Array.{
  array_max_length, preencode_items, encode_items, decode_items, preencode, encode, decode,
  decode_body, array, wire_items, wire, IsArrayOf,
}

module _ {A : Type 0} (c : Codec A) (w : A → List ℕ) (Valid : A → Type 0)
    (laws : IsLawful c w Valid) where
  decode_items_lem :
      (vs : List A) (s : State) (rest : List ℕ)
      → All Valid vs
      → Unread s (wire_items w vs ++ rest)
      → decode_items c (length vs) s ≡ (vs, advance s (length (wire_items w vs)))
  unfolding decode_items
  decode_items_lem [] s rest h u = ap (λ (t : State). ([], t)) (sym (advance-zero s))
  decode_items_lem (v ∷ vs) s rest (hv, hvs) u =
      if-false _ _ s.error u.fine
      ∙ ap then_items (laws.decode_lem s v (wire_items w vs ++ rest) hv all)
      ∙ ap (λ (q : List A × State). (v ∷ q.0, q.1))
          (decode_items_lem vs (advance s (length (w v))) rest hvs
            (Unread-advance s (w v) (wire_items w vs ++ rest) all))
      ∙ ap (λ (t : State). (v ∷ vs, t))
          (advance-advance s (length (w v)) (length (wire_items w vs)) _
            (sym (length-append (w v) (wire_items w vs))))
    where
      all : Unread s (w v ++ (wire_items w vs ++ rest))
      all = rw (← append_assoc (w v) (wire_items w vs) rest) u

      then_items : A × State → List A × State
      then_items p = (p.0 ∷ (decode_items c (length vs) p.1).0, (decode_items c (length vs) p.1).1)

  decode_items-Within : (n : ℕ) (s : State) → Within s (decode_items c n s).1
  unfolding decode_items
  decode_items-Within zero s = Within-refl s
  decode_items-Within (suc n) s =
      if_cases _ _ (λ (p : List A × State). Within s p.1) s.error (λ _. Within-refl s)
        (λ _.
          Within-trans s (c.decode s).1 (decode_items c n (c.decode s).1).1 (laws.decode_Within s)
            (decode_items-Within n (c.decode s).1))

  encode_items_lem :
      (vs : List A) (s : State)
      → All Valid vs
      → Room s (length (wire_items w vs))
      → encode_items c s vs ≡ write_bytes s (wire_items w vs)
  unfolding encode_items
  encode_items_lem [] s h r = sym (write_bytes-nil s)
  encode_items_lem (v ∷ vs) s (hv, hvs) r =
      ap (λ (t : State). encode_items c t vs)
        (laws.encode_lem s v hv (Room-less s _ (length (w v)) r (omega (arith, total))))
      ∙ encode_items_lem vs (write_bytes s (w v)) hvs
          (Room-write s _ (length (wire_items w vs)) (w v) r (omega (arith, total)))
      ∙ write_bytes-append s (w v) (wire_items w vs)
    where
      total : length (w v ++ wire_items w vs) ≡ length (w v) + length (wire_items w vs)
      total = length-append (w v) (wire_items w vs)

  preencode_items_lem :
      (vs : List A) (s : State)
      → All Valid vs
      → IsU64 s.end
      → preencode_items c s vs ≡ grow s (length (wire_items w vs))
  unfolding preencode_items
  preencode_items_lem [] s h k = sym (grow-zero s k)
  preencode_items_lem (v ∷ vs) s (hv, hvs) k =
      ap (λ (t : State). preencode_items c t vs) (laws.preencode_lem s v hv)
      ∙ preencode_items_lem vs (grow s (length (w v))) hvs (omega arith)
      ∙ grow-grow s (w v) (wire_items w vs)

  preencode_lem :
      (s : State) (vs : List A)
      → IsArrayOf Valid vs
      → preencode c s vs ≡ grow s (length (wire w vs))
  unfolding preencode
  preencode_lem s vs h =
      ap (λ (t : State). preencode_items c t vs)
        (uint-IsLawful.preencode_lem s (length vs) (omega arith))
      ∙ preencode_items_lem vs (grow s (length (Uint.wire (length vs)))) h.1 (omega arith)
      ∙ grow-grow s (Uint.wire (length vs)) (wire_items w vs)

  encode_lem :
      (s : State) (vs : List A)
      → IsArrayOf Valid vs
      → Room s (length (wire w vs))
      → encode c s vs ≡ write_bytes s (wire w vs)
  unfolding encode
  encode_lem s vs h r =
      ap (λ (t : State). encode_items c t vs)
        (uint-IsLawful.encode_lem s (length vs) (omega arith)
          (Room-less s _ (length (Uint.wire (length vs))) r (omega (arith, total))))
      ∙ encode_items_lem vs (write_bytes s (Uint.wire (length vs))) h.1 (
          Room-write s _ (length (wire_items w vs)) (Uint.wire (length vs)) r
            (omega (arith, total)))
      ∙ write_bytes-append s (Uint.wire (length vs)) (wire_items w vs)
    where
      total : length (wire w vs) ≡ length (Uint.wire (length vs)) + length (wire_items w vs)
      total = length-append (Uint.wire (length vs)) (wire_items w vs)

  decode_body_lem :
      (s : State) (vs : List A) (rest : List ℕ)
      → IsArrayOf Valid vs
      → Unread s (wire_items w vs ++ rest)
      → decode_body c (length vs) s ≡ (vs, advance s (length (wire_items w vs)))
  decode_body_lem s vs rest h u =
      if-false _ _ (s.error || ltb array_max_length (length vs)) allowed
      ∙ decode_items_lem vs s rest h.1 u
    where
      allowed : (s.error || ltb array_max_length (length vs)) ≡ false
      allowed = let e : s.error ≡ false = u.fine in ground arith

  decode_lem :
      (s : State) (vs : List A) (rest : List ℕ)
      → IsArrayOf Valid vs
      → Unread s (wire w vs ++ rest)
      → decode c s ≡ (vs, advance s (length (wire w vs)))
  unfolding decode
  decode_lem s vs rest h u =
      ap (λ (p : ℕ × State). decode_body c p.0 p.1)
        (uint-IsLawful.decode_lem s (length vs) (wire_items w vs ++ rest) (omega arith) all)
      ∙ decode_body_lem (advance s (length prefix)) vs rest h
          (Unread-advance s prefix (wire_items w vs ++ rest) all)
      ∙ ap (λ (t : State). (vs, t))
          (advance-advance s (length prefix) (length (wire_items w vs)) _
            (sym (length-append prefix (wire_items w vs))))
    where
      prefix : List ℕ
      prefix = Uint.wire (length vs)

      all : Unread s (prefix ++ (wire_items w vs ++ rest))
      all = rw (← append_assoc prefix (wire_items w vs) rest) u

  decode-Within : (s : State) → Within s (decode c s).1
  unfolding decode
  decode-Within s = Within-trans s t (decode_body c n t).1 (uint-IsLawful.decode_Within s) (
      if_cases _ _ (λ (p : List A × State). Within t p.1) (t.error || ltb array_max_length n)
        (λ _. Within-fail t) (λ _. decode_items-Within n t))
    where
      n : ℕ
      n = (Uint.decode s).0

      t : State
      t = (Uint.decode s).1

  -- If the codec of the elements is lawful, then an array of at most 4096 valid elements has the
  -- format of its length and its elements: the size pass adds the length of that format,
  -- encoding into enough room writes it, decoding it gives the value back and stops behind it,
  -- and no input makes the decoder leave it.
  pub array-IsLawful : IsLawful (array c) (wire w) (IsArrayOf Valid)
  array-IsLawful = record {
    preencode_lem = preencode_lem;
    encode_lem = encode_lem;
    decode_lem = decode_lem;
    decode_Within = decode-Within;
  }
