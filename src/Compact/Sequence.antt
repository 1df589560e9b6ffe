-- ===== src/Compact/Sequence.antt =====
-- How the message codecs use the cursor: `preencode` everything for the size, allocate, `encode`
-- everything; and decode one field after the other, giving up at the first error.
use hyperdht_cpp.Prelude.{
  ℕ, ◌≡◌, refl, ap, sym, ◌∙◌, Option, none, some, List, [], ◌++◌, append_assoc, append-nil, length,
  length-append, length-replicate, replicate, if◌then◌else◌, arith, IsU64, add64, if-false,
}
use hyperdht_cpp.Compact.State.{State, empty_state, for_decode, memory, grow, advance, write_bytes}
use hyperdht_cpp.Compact.Cursor.{
  Unread, Room, Room-write, Room-less, Unread-advance, write_bytes-append, write_bytes-nil,
  advance-advance, advance-zero, grow-grow, grow-zero, copy_at_whole,
}
use hyperdht_cpp.Compact.Codec.{Codec, IsLawful}

-- `State state; <preencode>; std::vector<uint8_t> buf(state.end); <encode>; return buf;`
unfoldable pub run : (State → State) → (State → State) → List ℕ
run pre enc =
    let s = pre empty_state in
    memory (enc (record s { buffer = some (replicate s.end 0); start = 0 }))

-- `if (field.has_value()) step(state, *field)`.
abbrev pub if_present : {A : Type 0} → (State → A → State) → State → Option A → State
if_present step s none = s
if_present step s (some v) = step s v

-- A part of a message: its two passes, and the bytes that they come to.
pub record Piece (pre enc : State → State) (bytes : List ℕ) : Type 0 where
  pub size : (s : State) → IsU64 s.end → pre s ≡ grow s (length bytes)
  pub content : (s : State) → Room s (length bytes) → enc s ≡ write_bytes s bytes

pub Piece-nil : Piece (λ s. s) (λ s. s) []
Piece-nil = record { size = λ s h. sym (grow-zero s h); content = λ s r. sym (write_bytes-nil s) }

pub Piece-append :
    {p e p' e' : State → State} {xs ys : List ℕ}
    → Piece p e xs
    → Piece p' e' ys
    → Piece (λ s. p' (p s)) (λ s. e' (e s)) (xs ++ ys)
Piece-append {p} {e} {p'} {e'} {xs} {ys} a b = record {
  size = λ s h. ap p' (a.size s h) ∙ b.size (grow s (length xs)) (omega arith) ∙ grow-grow s xs ys;
  content = λ s r.
      ap e' (a.content s (Room-less s _ (length xs) r (omega (arith, length-append xs ys))))
      ∙ b.content (write_bytes s xs)
          (Room-write s _ (length ys) xs r (omega (arith, length-append xs ys)))
      ∙ write_bytes-append s xs ys;
}

abbrev pub wire_option : {A : Type 0} → (A → List ℕ) → Option A → List ℕ
wire_option w none = []
wire_option w (some v) = w v

abbrev pub ValidOption : {A : Type 0} → (A → Type 0) → Option A → Type 0
ValidOption Valid none = Unit {0}
ValidOption Valid (some v) = Valid v

module _ {A : Type 0} (c : Codec A) (w : A → List ℕ) (Valid : A → Type 0)
    (laws : IsLawful c w Valid) where
  pub Piece-codec : (v : A) → Valid v → Piece (λ s. c.preencode s v) (λ s. c.encode s v) (w v)
  Piece-codec v h = record {
    size = λ s k. laws.preencode_lem s v h;
    content = λ s r. laws.encode_lem s v h r;
  }

  pub Piece-codec_option :
      (o : Option A)
      → ValidOption Valid o
      → Piece (λ s. if_present c.preencode s o) (λ s. if_present c.encode s o) (wire_option w o)
  Piece-codec_option none h = Piece-nil
  Piece-codec_option (some v) h = Piece-codec v h

fresh_write :
    (n : ℕ) (bytes : List ℕ)
    → length bytes ≡ n
    → memory (write_bytes (record empty_state { end = n; buffer = some (replicate n 0) }) bytes)
      ≡ bytes
unfolding write_bytes
fresh_write n bytes e = copy_at_whole (replicate n 0) bytes (length-replicate n 0 ∙ sym e)

-- The two passes over a fresh buffer leave exactly the bytes of the message.
pub run_lem :
    {p e : State → State} {bytes : List ℕ}
    → Piece p e bytes
    → IsU64 (length bytes)
    → run p e ≡ bytes
unfolding run
run_lem {p} {e} {bytes} a h =
    ap (λ (t : State). memory (e t)) allocated
    ∙ ap memory (a.content fresh room)
    ∙ fresh_write n bytes refl
  where
    n : ℕ
    n = length bytes

    fresh : State
    fresh = record empty_state { end = n; buffer = some (replicate n 0) }

    exact : add64 0 n ≡ n
    exact = omega arith

    counted : p empty_state ≡ record empty_state { end = n }
    counted = a.size empty_state (omega arith) ∙ λ i. record empty_state { end = exact i }

    allocated :
        record (p empty_state) { buffer = some (replicate (p empty_state).end 0); start = 0 }
        ≡ fresh
    allocated =
        ap (λ (s : State). record s { buffer = some (replicate s.end 0); start = 0 }) counted

    room : Room fresh n
    room = record { fine = refl; room = omega arith; target = replicate n 0; writable = refl }

-- A decoder with its `if (state.error) return false;`.
abbrev pub Decoder : Type 0 → Type 0
Decoder A = State → Option (A × State)

infixl 5 ◌>>=◌
abbrev pub ◌>>=◌ : {A B : Type 0} → Decoder A → (A → Decoder B) → Decoder B
◌>>=◌ d f s = elim (d s) [ none ↦ none | some (v, t) ↦ f v t ]

pub bind-some :
    {A B : Type 0} (d : Decoder A) (f : A → Decoder B) (s : State) {v : A} {t : State}
    → d s ≡ some (v, t)
    → (d >>= f) s ≡ f v t
bind-some d f s e = rw (e, ◌>>=◌)

abbrev pub pure : {A : Type 0} → A → Decoder A
pure v s = some (v, s)

abbrev pub checked : {A : Type 0} → (State → A × State) → Decoder A
checked read s = let p = read s in if p.1.error then none else some p

-- Reads `bytes` as `v`, whatever follows.
abbrev pub Parses : {A : Type 0} → Decoder A → A → List ℕ → Type 0
Parses {A} d v bytes =
    (s : State) (rest : List ℕ)
    → Unread s (bytes ++ rest)
    → d s ≡ some (v, advance s (length bytes))

pub Parses-pure : {A : Type 0} (v : A) → Parses (pure v) v []
Parses-pure v s rest u = ap (λ (t : State). some (v, t)) (sym (advance-zero s))

pub Parses-bind :
    {A B : Type 0} (d : Decoder A) (f : A → Decoder B) (v : A) (x : B) (xs ys : List ℕ)
    → Parses d v xs
    → Parses (f v) x ys
    → Parses (d >>= f) x (xs ++ ys)
Parses-bind d f v x xs ys p q s rest u =
    bind-some d f s (p s (ys ++ rest) all)
    ∙ (q (advance s (length xs)) rest (Unread-advance s xs (ys ++ rest) all)
        ∙ ap (λ (t : State). some (x, t))
            (advance-advance s (length xs) (length ys) _ (sym (length-append xs ys))))
  where
    all : Unread s (xs ++ (ys ++ rest))
    all = rw (← append_assoc xs ys rest) u

-- The last step of a decoder, which reads nothing more.
pub Parses-map :
    {A B : Type 0} (d : Decoder A) (f : A → Decoder B) (v : A) (x : B) (xs : List ℕ)
    → Parses d v xs
    → ((s : State) → f v s ≡ some (x, s))
    → Parses (d >>= f) x xs
Parses-map d f v x xs p q s rest u = bind-some d f s (p s rest u) ∙ q (advance s (length xs))

pub Parses-codec :
    {A : Type 0} (c : Codec A) (w : A → List ℕ) (Valid : A → Type 0)
    → IsLawful c w Valid
    → (v : A) → Valid v
    → Parses (checked c.decode) v (w v)
Parses-codec c w Valid laws v h s rest u =
    rw (laws.decode_lem s v rest h u) (if-false _ _ s.error u.fine)

-- A fresh input is all unread.
pub for_decode-Unread : (bytes : List ℕ) → Unread (for_decode bytes) bytes
for_decode-Unread bytes = record {
  fine = refl;
  limit = omega arith;
  beyond = [];
  content = sym (append-nil bytes);
}

-- What a decoder returns when its cursor is dropped.
abbrev pub outcome : {A : Type 0} → Option (A × State) → Option A
outcome none = none
outcome (some (v, s)) = some v

pub Parses-outcome :
    {A : Type 0} (d : Decoder A) (v : A) (bytes : List ℕ)
    → Parses d v bytes
    → outcome (d (for_decode bytes)) ≡ some v
Parses-outcome d v bytes p =
    ap outcome (p (for_decode bytes) [] (rw append-nil (for_decode-Unread bytes)))
