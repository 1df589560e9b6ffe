-- ===== src/Compact/Raw.antt =====
-- `Raw` of compact.cpp: no prefix; reading takes all that is left up to `end`.
use hyperdht_cpp.Prelude.{
  ℕ, ◌+◌, ◌-◌, ◌%◌, ◌≡◌, sym, ◌∙◌, ◌||◌, not, List, [], ◌∷◌, length, if◌then◌else◌, ltb, arith,
  append-nil, if-true, if-false, lt→ltb, IsU64,
}
use mathlib.Core.Path.{ap₂}
use hyperdht_cpp.Compact.State.{State, grow, advance, write_bytes, read_bytes, fail, has_bytes}
use hyperdht_cpp.Compact.Cursor.{Room, Unread, Unread-read, Room-guarded, write_bytes-nil}

unfoldable pub preencode : State → List ℕ → State
preencode s v = grow s (length v)

-- No bytes, no `memcpy`.
unfoldable pub encode : State → List ℕ → State
encode s v =
    if s.error || not (has_bytes s (length v))
    then fail s
    else if ltb 0 (length v)
    then write_bytes s v
    else s

-- `end - start` on `size_t` wraps around when the cursor stands behind `end`.
unfoldable pub decode : State → List ℕ × State
decode s =
    if s.error
    then ([], s)
    else let remaining = (s.end + 18446744073709551616 - s.start) % 18446744073709551616 in
      (read_bytes s remaining, record s { start = s.end })

write_some :
    (s : State) (v : List ℕ) → (if ltb 0 (length v) then write_bytes s v else s) ≡ write_bytes s v
write_some s [] = sym (write_bytes-nil s)
write_some s (b ∷ v) = if-true _ _ (ltb 0 (length (b ∷ v))) (lt→ltb _ _ (omega arith))

-- `Raw` writes its bytes as they are when there is room.
pub encode_lem : (s : State) (v : List ℕ) → Room s (length v) → encode s v ≡ write_bytes s v
unfolding encode
encode_lem s v r =
    if-false _ _ _ (Room-guarded s (length v) (length v) r (omega arith)) ∙ write_some s v

-- Reading takes exactly what is left.
pub decode_lem :
    (s : State) (v : List ℕ) → IsU64 (length v) → Unread s v → decode s ≡ (v, advance s (length v))
unfolding decode
decode_lem s v h u =
    if-false _ _ s.error u.fine
    ∙ ap₂ (λ (w : List ℕ) (e : ℕ). (w, record s { start = e })) all u.limit
  where
    remaining : (s.end + 18446744073709551616 - s.start) % 18446744073709551616 ≡ length v
    remaining = let e : s.end ≡ s.start + length v = u.limit in omega arith

    all : read_bytes s ((s.end + 18446744073709551616 - s.start) % 18446744073709551616) ≡ v
    all = rw remaining (Unread-read s v [] (rw append-nil u))
