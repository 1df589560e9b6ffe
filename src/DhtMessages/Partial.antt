-- ===== src/DhtMessages/Partial.antt =====
-- The decoders of dht_messages.cpp have no error result: at the first error they return the struct
-- as far as it is filled. `halted m` is such a return, `going m s` goes on.
use hyperdht_cpp.Prelude.{
  ℕ, ◌≡◌, ap, sym, ◌∙◌, Bool, true, false, List, [], ◌++◌, append_assoc, append-nil, length,
  length-append, if◌then◌else◌, if-false, Option, none, some, is_some,
}
use hyperdht_cpp.Compact.State.{State, for_decode, advance}
use hyperdht_cpp.Compact.Cursor.{Unread, Unread-advance, advance-advance, advance-zero}
use hyperdht_cpp.Compact.Sequence.{for_decode-Unread, ValidOption, wire_option}

pub data Partial (M : Type 0) : Type 0 where
  halted : M → Partial M
  going : M → State → Partial M

infixl 5 ◌>>=◌
abbrev pub ◌>>=◌ : {M : Type 0} → Partial M → (M → State → Partial M) → Partial M
halted m >>= f = halted m
going m s >>= f = f m s

abbrev pub result : {M : Type 0} → Partial M → M
result (halted m) = m
result (going m s) = m

-- `m.field = Enc::decode(state); if (state.error) return m;`: the field is set, error or not.
abbrev pub assign : {A M : Type 0} → (State → A × State) → (M → A → M) → M → State → Partial M
assign read put m s =
    let p = read s in if p.1.error then halted (put m p.0) else going (put m p.0) p.1

-- `auto v = Enc::decode(state); if (state.error) return m;`, and then the field is set.
abbrev pub assign_checked :
    {A M : Type 0} → (State → A × State) → (M → A → M) → M → State → Partial M
assign_checked read put m s =
    let p = read s in if p.1.error then halted m else going (put m p.0) p.1

-- `if (flag) { ... }`.
abbrev pub only_if : {M : Type 0} → Bool → (M → State → Partial M) → M → State → Partial M
only_if true f m s = f m s
only_if false f m s = going m s

-- Reads `bytes` and turns `m` into `m'`, whatever follows.
abbrev pub Fills : {M : Type 0} → (M → State → Partial M) → M → M → List ℕ → Type 0
Fills f m m' bytes =
    (s : State) (rest : List ℕ)
    → Unread s (bytes ++ rest)
    → f m s ≡ going m' (advance s (length bytes))

module _ {M : Type 0} where
  pub Fills-nothing : (m : M) → Fills (λ m s. going m s) m m []
  Fills-nothing m s rest u = ap (λ (t : State). going m t) (sym (advance-zero s))

  pub Fills-bind :
      (f g : M → State → Partial M) (m m' m'' : M) (xs ys : List ℕ)
      → Fills f m m' xs
      → Fills g m' m'' ys
      → Fills (λ m s. f m s >>= g) m m'' (xs ++ ys)
  Fills-bind f g m m' m'' xs ys p q s rest u =
      ap (λ (r : Partial M). r >>= g) (p s (ys ++ rest) all)
      ∙ q (advance s (length xs)) rest (Unread-advance s xs (ys ++ rest) all)
      ∙ ap (λ (t : State). going m'' t)
          (advance-advance s (length xs) (length ys) _ (sym (length-append xs ys)))
    where
      all : Unread s (xs ++ (ys ++ rest))
      all = rw (← append_assoc xs ys rest) u

  module _ {A : Type 0} (read : State → A × State) (put : M → A → M) (m : M) (v : A)
      (bytes : List ℕ)
      (reads : (s : State) (rest : List ℕ)
        → Unread s (bytes ++ rest)
        → read s ≡ (v, advance s (length bytes))) where
    pub Fills-assign : Fills (assign read put) m (put m v) bytes
    Fills-assign s rest u =
        ap (λ (p : A × State). if p.1.error then halted (put m p.0) else going (put m p.0) p.1)
          (reads s rest u)
        ∙ if-false _ _ s.error u.fine

    pub Fills-assign_checked : Fills (assign_checked read put) m (put m v) bytes
    Fills-assign_checked s rest u =
        ap (λ (p : A × State). if p.1.error then halted m else going (put m p.0) p.1)
          (reads s rest u)
        ∙ if-false _ _ s.error u.fine

  pub Fills-result :
      (f : M → State → Partial M) (m m' : M) (bytes : List ℕ)
      → Fills f m m' bytes
      → result (f m (for_decode bytes)) ≡ m'
  Fills-result f m m' bytes p =
      ap result (p (for_decode bytes) [] (rw append-nil (for_decode-Unread bytes)))

  -- An optional field behind its flag: `given o` is the message with the field `o`.
  pub Fills-announced :
      {A : Type 0} (read : State → A × State) (wire : A → List ℕ) (Valid : A → Type 0)
      → ((a : A)
          → Valid a
          → (s : State) (rest : List ℕ) → Unread s (wire a ++ rest)
          → read s ≡ (a, advance s (length (wire a))))
      → (put : M → A → M) (m : M) (given : Option A → M) (flag : Bool) (o : Option A)
      → flag ≡ is_some o
      → ValidOption Valid o
      → m ≡ given none
      → ((a : A) → put m a ≡ given (some a))
      → Fills (only_if flag (assign read put)) m (given o) (wire_option wire o)
  Fills-announced read wire Valid reads put m given true none e h p q = absurd cc
  Fills-announced read wire Valid reads put m given false none e h p q =
      λ s rest u. Fills-nothing m s rest u ∙ ap (λ (x : M). going x (advance s 0)) p
  Fills-announced read wire Valid reads put m given false (some a) e h p q = absurd cc
  Fills-announced read wire Valid reads put m given true (some a) e h p q = λ s rest u.
      Fills-assign read put m a (wire a) (reads a h) s rest u
      ∙ ap (λ (x : M). going x (advance s (length (wire a)))) (q a)
