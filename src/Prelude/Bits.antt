-- ===== src/Prelude/Bits.antt =====
-- `|` of disjoint fields and `^` at variables, from the recursion on binary digits.
use Prim.Native.Nat.{
  ℕ, zero, suc, ◌+◌, ◌*◌, ◌/◌, ◌%◌, ◌^◌, ◌≤◌, ◌<◌, max, digits, bitwise, differ, bit_or, bit_xor,
  bit_or-bitwise, bit_xor-bitwise,
}
use mathlib.Core.Path.{◌≡◌, refl, sym, ap, ◌∙◌}
use native.Mathlib.Nat.{pow-suc, le_refl}
use native.Mathlib.Omega.{arith}

module _ (op : ℕ → ℕ → ℕ) where
  -- The recursion that keeps the second number once the first has run out of digits.
  abbrev joined : ℕ → ℕ → ℕ → ℕ
  joined = digits (λ d. d) op

  joined_zero : (fuel y : ℕ) → joined fuel 0 y ≡ y
  joined_zero zero y = refl
  joined_zero (suc fuel) y = refl

  -- More fuel than the first number changes nothing.
  joined_fuel : (fuel spare x y : ℕ) → x ≤ fuel → x ≤ spare → joined fuel x y ≡ joined spare x y
  joined_fuel fuel spare zero y lo hi = joined_zero fuel y ∙ sym (joined_zero spare y)
  joined_fuel zero spare (suc x) y lo hi = absurd (omega arith)
  joined_fuel (suc fuel) zero (suc x) y lo hi = absurd (omega arith)
  joined_fuel (suc fuel) (suc spare) (suc x) y lo hi =
      ap (λ (upper : ℕ). upper * 2 + op (suc x % 2) (y % 2))
        (joined_fuel fuel spare (suc x / 2) (y / 2) (omega arith) (omega arith))

  split_digit :
      (x y : ℕ)
      → bitwise (λ d. d) op (suc x) y
        ≡ bitwise (λ d. d) op (suc x / 2) (y / 2) * 2 + op (suc x % 2) (y % 2)
  split_digit x y =
      let half : suc x / 2 ≤ x = omega arith in
      ap (λ (upper : ℕ). upper * 2 + op (suc x % 2) (y % 2))
        (joined_fuel x (suc x / 2) (suc x / 2) (y / 2) half (le_refl _))

or_digit : (x y : ℕ) → bit_or x y ≡ bit_or (x / 2) (y / 2) * 2 + max (x % 2) (y % 2)
or_digit (suc x) y = simp bit_or-bitwise (split_digit max x y)
or_digit zero y = simp bit_or-bitwise (omega arith)

differ-zero : (d : ℕ) → differ 0 d ≡ d
differ-zero d = refl

xor_digit : (a b : ℕ) → bit_xor a b ≡ bit_xor (a / 2) (b / 2) * 2 + differ (a % 2) (b % 2)
xor_digit zero b = simp bit_xor-bitwise (omega (arith, differ-zero (b % 2)))
xor_digit (suc a) b = simp bit_xor-bitwise (split_digit differ a b)

differ-lt : (a b : ℕ) → a < 2 → b < 2 → differ a b < 2
differ-lt zero b p q = q
differ-lt (suc a) zero p q = p
differ-lt (suc zero) (suc zero) p q = omega arith
differ-lt (suc zero) (suc (suc b)) p q = absurd (omega arith)
differ-lt (suc (suc a)) (suc b) p q = absurd (omega arith)

differ_cancel : (t a b : ℕ) → t < 2 → a < 2 → b < 2 → differ t a ≡ differ t b → a ≡ b
differ_cancel zero a b p q r e = e
differ_cancel (suc zero) zero zero p q r e = refl
differ_cancel (suc zero) zero (suc zero) p q r e = absurd (omega arith)
differ_cancel (suc zero) (suc zero) zero p q r e = absurd (omega arith)
differ_cancel (suc zero) (suc zero) (suc zero) p q r e = refl
differ_cancel (suc zero) (suc (suc a)) b p q r e = absurd (omega arith)
differ_cancel (suc zero) a (suc (suc b)) p q r e = absurd (omega arith)
differ_cancel (suc (suc t)) a b p q r e = absurd (omega arith)

times_two_pow : (q k : ℕ) → q * 2 ^ suc k ≡ 2 * (q * 2 ^ k)
times_two_pow q k = omega (arith, ap (λ (t : ℕ). q * t) (pow-suc 2 k))

bit_or-zero_fuel : (n a : ℕ) → a ≤ n → bit_or a 0 ≡ a
bit_or-zero_fuel n zero h = refl
bit_or-zero_fuel zero (suc a) h = absurd (omega arith)
bit_or-zero_fuel (suc n) (suc a) h =
    omega (arith, or_digit (suc a) 0, bit_or-zero_fuel n (suc a / 2) (omega arith))

zero-bit_or : (b : ℕ) → bit_or 0 b ≡ b
zero-bit_or b = bit_or-bitwise 0 b

-- `low | (high << k)` is a sum when `low` fits `k` bits.
pub bit_or_shifted : (k low high : ℕ) → low < 2 ^ k → bit_or low (high * 2 ^ k) ≡ low + high * 2 ^ k
bit_or_shifted zero zero high h = omega (arith, zero-bit_or (high * 2 ^ 0))
bit_or_shifted zero (suc low) high h = absurd (omega arith)
bit_or_shifted (suc k) low high h =
    let half : high * 2 ^ suc k / 2 ≡ high * 2 ^ k = omega (arith, times_two_pow high k) in
    omega (
      arith,
      or_digit low (high * 2 ^ suc k),
      times_two_pow high k,
      ap (bit_or (low / 2)) half,
      bit_or_shifted k (low / 2) high (omega (arith, pow-suc 2 k)),
    )

-- Exclusive or by one number agrees on the upper digits and on the lowest.
bit_xor_split :
    (t a b : ℕ)
    → bit_xor t a ≡ bit_xor t b
    → (bit_xor (t / 2) (a / 2) ≡ bit_xor (t / 2) (b / 2)) × (a % 2 ≡ b % 2)
bit_xor_split t a b e =
    let da : differ (t % 2) (a % 2) < 2 = differ-lt (t % 2) (a % 2) (omega arith) (omega arith) in
    let db : differ (t % 2) (b % 2) < 2 = differ-lt (t % 2) (b % 2) (omega arith) (omega arith) in
    (
      omega (arith, xor_digit t a, xor_digit t b),
      differ_cancel (t % 2) (a % 2) (b % 2) (omega arith) (omega arith) (omega arith)
          (omega (arith, xor_digit t a, xor_digit t b)),
    )

bit_xor_cancel_fuel : (n t a b : ℕ) → a + b ≤ n → bit_xor t a ≡ bit_xor t b → a ≡ b
bit_xor_cancel_fuel zero t a b h e = omega arith
bit_xor_cancel_fuel (suc n) t zero zero h e = refl
bit_xor_cancel_fuel (suc n) t a b h e =
    let (upper, lowest) = bit_xor_split t a b e in
    omega (arith, lowest, bit_xor_cancel_fuel n (t / 2) (a / 2) (b / 2) (omega arith) upper)

pub bit_xor_cancel : (t a b : ℕ) → bit_xor t a ≡ bit_xor t b → a ≡ b
bit_xor_cancel t a b e = bit_xor_cancel_fuel (a + b) t a b (le_refl _) e

differ_self : (d : ℕ) → differ d d ≡ 0
differ_self zero = refl
differ_self (suc d) = differ_self d

bit_xor_self_fuel : (n a : ℕ) → a ≤ n → bit_xor a a ≡ 0
bit_xor_self_fuel n zero h = refl
bit_xor_self_fuel zero (suc a) h = absurd (omega arith)
bit_xor_self_fuel (suc n) (suc a) h = omega (
  arith,
  xor_digit (suc a) (suc a),
  differ_self (suc a % 2),
  bit_xor_self_fuel n (suc a / 2) (omega arith),
)

-- The exclusive or is zero on equal numbers only.
pub bit_xor_zero : (a b : ℕ) → bit_xor a b ≡ 0 → a ≡ b
bit_xor_zero a b e = bit_xor_cancel a a b (omega (arith, bit_xor_self_fuel a a (le_refl _)))
