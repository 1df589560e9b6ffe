-- ===== src/Compact/Sized.antt =====
-- The test that the fixed-size codecs of compact.cpp begin with, and what they do behind it.
use hyperdht_cpp.Prelude.{
  ℕ, ◌≡◌, ◌||◌, not, List, ◌++◌, if◌then◌else◌, length, length-append, arith,
}
use hyperdht_cpp.Compact.State.{State, no_buffer, fail, advance, has_bytes, write_bytes, read_bytes}
use hyperdht_cpp.Compact.Cursor.{
  Unread, Room, Within, Unread-ready, Unread-read, Room-ready, Room-has, Within-refl, Within-fail,
  Within-guarded,
}

-- `if (s.error || !has_bytes(s, n)) { s.error = true; return; }`, then the write.
abbrev pub guarded_write : State → ℕ → List ℕ → State
guarded_write s n bytes = if s.error || not (has_bytes s n) then fail s else write_bytes s bytes

-- The same with a test of the pointer in between.
abbrev pub checked_write : State → ℕ → List ℕ → State
checked_write s n bytes =
    if (s.error || no_buffer s) || not (has_bytes s n) then fail s else write_bytes s bytes

-- The test in front of a read; `refused` is the value that is returned on an error.
abbrev pub guarded_read : {A : Type 0} → State → ℕ → A → (List ℕ → A) → A × State
guarded_read s n refused read =
    if s.error || not (has_bytes s n)
    then (refused, fail s)
    else (read (read_bytes s n), advance s n)

pub guarded_write_lem :
    (s : State) (n : ℕ) (bytes : List ℕ) → Room s n → guarded_write s n bytes ≡ write_bytes s bytes
guarded_write_lem s n bytes r = rw (Room-has s n n r (omega arith), r.fine)

pub checked_write_lem :
    (s : State) (n : ℕ) (bytes : List ℕ) → Room s n → checked_write s n bytes ≡ write_bytes s bytes
checked_write_lem s n bytes r = rw (Room-ready s n r, Room-has s n n r (omega arith))

pub guarded_read_lem :
    {A : Type 0} (s : State) (n : ℕ) (refused : A) (read : List ℕ → A) (word rest : List ℕ)
    → Unread s (word ++ rest)
    → length word ≡ n
    → guarded_read s n refused read ≡ (read word, advance s n)
guarded_read_lem s n refused read word rest u e = rw (
  ← e,
  Unread-ready s (word ++ rest) (length word) u (omega (arith, length-append word rest)),
  Unread-read s word rest u,
)

pub guarded_read-Within :
    {A : Type 0} (s : State) (n : ℕ) (refused : A) (read : List ℕ → A)
    → Within s (guarded_read s n refused read).1
guarded_read-Within s n refused read =
    Within-guarded s n (read (read_bytes s n), advance s n) (refused, fail s)
      (Within-refl (advance s n)) (Within-fail s)
