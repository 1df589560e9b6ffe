-- ===== src/Prelude/Bytes.antt =====
-- Bytes, machine words of the source, and tables of facts about one byte.
use Prim.Native.Nat.{ℕ, zero, suc, ◌+◌, ◌%◌, ◌<◌}
use mathlib.Core.Path.{◌≡◌}
use mathlib.Core.Bool.{Bool, true, ◌&&◌}
use mathlib.Core.List.{List}
use native.Mathlib.Omega.{arith}
use hyperdht_cpp.Prelude.Lists.{All, length}

abbrev pub IsByte : ℕ → Type 0
IsByte b = b < 256

abbrev pub IsU16 : ℕ → Type 0
IsU16 v = v < 65536

abbrev pub IsU32 : ℕ → Type 0
IsU32 v = v < 4294967296

abbrev pub IsU64 : ℕ → Type 0
IsU64 v = v < 18446744073709551616

-- `size_t` addition.
abbrev pub add64 : ℕ → ℕ → ℕ
add64 a b = (a + b) % 18446744073709551616

-- `std::array<uint8_t, n>`.
pub record IsArray (n : ℕ) (bs : List ℕ) : Type 0 where
  pub sized : length bs ≡ n
  pub bytes : All IsByte bs

pub all_below : ℕ → (ℕ → Bool) → Bool
all_below zero p = true
all_below (suc n) p = p n && all_below n p

pub all_below_sound : (n : ℕ) (p : ℕ → Bool) (x : ℕ) → all_below n p ≡ true → x < n → p x ≡ true
unfolding all_below
all_below_sound zero p x h lt = elim lt [ ]
all_below_sound (suc n) p x h lt = ground (arith, all_below_sound n p x)
