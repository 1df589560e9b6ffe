-- ===== src/Compact/Codec.antt =====
-- The interface that the structs of compact.hpp share (`preencode`, `encode`, `decode`), which the
-- templates `Array` and `Frame` and the message codecs are built on, and the laws of a codec.
use hyperdht_cpp.Prelude.{ℕ, ◌≡◌, List, ◌++◌, length}
use hyperdht_cpp.Compact.State.{State, grow, advance, write_bytes}
use hyperdht_cpp.Compact.Cursor.{Unread, Room, Within}

pub record Codec (A : Type 0) : Type 0 where
  pub preencode : State → A → State
  pub encode : State → A → State
  pub decode : State → A × State

-- `wire v` is what stands on the wire for `v`, for the values that satisfy `Valid`.
pub record IsLawful {A : Type 0} (c : Codec A) (wire : A → List ℕ) (Valid : A → Type 0)
    : Type 0 where
  pub preencode_lem : (s : State) (v : A) → Valid v → c.preencode s v ≡ grow s (length (wire v))
  pub encode_lem :
      (s : State) (v : A)
      → Valid v
      → Room s (length (wire v))
      → c.encode s v ≡ write_bytes s (wire v)
  pub decode_lem :
      (s : State) (v : A) (rest : List ℕ)
      → Valid v
      → Unread s (wire v ++ rest)
      → c.decode s ≡ (v, advance s (length (wire v)))
  pub decode_Within : (s : State) → Within s (c.decode s).1
