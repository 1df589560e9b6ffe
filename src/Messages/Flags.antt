-- ===== src/Messages/Flags.antt =====
-- The flag bits of messages.hpp, and how they are set and tested.
use hyperdht_cpp.Prelude.{
  ℕ, ◌≡◌, ◌<◌, refl, Bool, true, false, not, if◌then◌else◌, bit_and, bit_or, ◌==◌, both, both_sound,
  ltb, ltb→lt,
}

abbrev pub request_id : ℕ
request_id = 0x03

abbrev pub response_id : ℕ
response_id = 0x13

-- `if (present) flags |= bit;`
abbrev pub set_flag : Bool → ℕ → ℕ → ℕ
set_flag present bit flags = if present then bit_or flags bit else flags

-- `flags & bit`, as a condition.
abbrev pub has_flag : ℕ → ℕ → Bool
has_flag flags bit = not (bit_and flags bit == 0)

-- The five bits are set in the order of the sources, from the lowest to the highest.
unfoldable pub five_flags : Bool → Bool → Bool → Bool → Bool → ℕ
five_flags a b c d e = set_flag e 16 (set_flag d 8 (set_flag c 4 (set_flag b 2 (set_flag a 1 0))))

-- What the five bits say, as one test that evaluates.
same : Bool → Bool → Bool
same true b = b
same false b = not b

same_sound : (a b : Bool) → same a b ≡ true → b ≡ a
unfolding same
same_sound true true e = refl
same_sound true false e = cc
same_sound false true e = cc
same_sound false false e = refl

all_flags : (Bool → Bool → Bool → Bool → Bool → Bool) → Bool
all_flags p = both λ a. both λ b. both λ c. both λ d. both λ e. p a b c d e

all_flags_sound :
    (p : Bool → Bool → Bool → Bool → Bool → Bool)
    → all_flags p ≡ true
    → (a b c d e : Bool) → p a b c d e ≡ true
unfolding all_flags
all_flags_sound p h a b c d e =
    both_sound (p a b c d)
      (both_sound (λ x. both λ e. p a b c x e)
        (both_sound (λ x. both λ d. both λ e. p a b x d e)
          (both_sound (λ x. both λ c. both λ d. both λ e. p a x c d e)
            (both_sound (λ x. both λ b. both λ c. both λ d. both λ e. p x b c d e) h a) b)
          c)
        d)
      e

-- Each bit is read back as it was set, and the flags fit a byte.
pub record Reads (a b c d e : Bool) (flags : ℕ) : Type 0 where
  pub bit0 : has_flag flags 1 ≡ a
  pub bit1 : has_flag flags 2 ≡ b
  pub bit2 : has_flag flags 4 ≡ c
  pub bit3 : has_flag flags 8 ≡ d
  pub bit4 : has_flag flags 16 ≡ e
  pub small : flags < 32

pub five_flags-Reads : (a b c d e : Bool) → Reads a b c d e (five_flags a b c d e)
unfolding five_flags same all_flags
five_flags-Reads a b c d e = record {
  bit0 =
      same_sound a _
        (all_flags_sound (λ a b c d e. same a (has_flag (five_flags a b c d e) 1)) refl a b c d e);
  bit1 =
      same_sound b _
        (all_flags_sound (λ a b c d e. same b (has_flag (five_flags a b c d e) 2)) refl a b c d e);
  bit2 =
      same_sound c _
        (all_flags_sound (λ a b c d e. same c (has_flag (five_flags a b c d e) 4)) refl a b c d e);
  bit3 =
      same_sound d _
        (all_flags_sound (λ a b c d e. same d (has_flag (five_flags a b c d e) 8)) refl a b c d e);
  bit4 =
      same_sound e _
        (all_flags_sound (λ a b c d e. same e (has_flag (five_flags a b c d e) 16)) refl a b c d e);
  small = ltb→lt _ _ (all_flags_sound (λ a b c d e. ltb (five_flags a b c d e) 32) refl a b c d e);
}

-- Two bits more, as the payloads of the peers have them.
unfoldable pub seven_flags : Bool → Bool → Bool → Bool → Bool → Bool → Bool → ℕ
seven_flags a b c d e f g = set_flag g 64 (set_flag f 32 (five_flags a b c d e))

-- Seven bits are read back, and fit a byte.
pub record ReadsSeven (a b c d e f g : Bool) (flags : ℕ) : Type 0 where
  pub bit0 : has_flag flags 1 ≡ a
  pub bit1 : has_flag flags 2 ≡ b
  pub bit2 : has_flag flags 4 ≡ c
  pub bit3 : has_flag flags 8 ≡ d
  pub bit4 : has_flag flags 16 ≡ e
  pub bit5 : has_flag flags 32 ≡ f
  pub bit6 : has_flag flags 64 ≡ g
  pub small : flags < 128

seven_sound :
    (p : Bool → Bool → Bool → Bool → Bool → Bool → Bool → Bool)
    → (both λ f. both λ g. all_flags λ a b c d e. p a b c d e f g) ≡ true
    → (a b c d e f g : Bool) → p a b c d e f g ≡ true
seven_sound p h a b c d e f g =
    all_flags_sound (λ a b c d e. p a b c d e f g)
      (both_sound (λ g. all_flags λ a b c d e. p a b c d e f g)
        (both_sound (λ f. both λ g. all_flags λ a b c d e. p a b c d e f g) h f) g)
      a b c d e

module _ (a b c d e f g : Bool) where
  seven_bit :
      (bit : ℕ) (pick : Bool → Bool → Bool → Bool → Bool → Bool → Bool → Bool)
      → (both λ f. both λ g.
          all_flags
            λ a b c d e. same (pick a b c d e f g) (has_flag (seven_flags a b c d e f g) bit))
        ≡ true
      → has_flag (seven_flags a b c d e f g) bit ≡ pick a b c d e f g
  seven_bit bit pick h = same_sound (pick a b c d e f g) _ (
      seven_sound
        (λ a b c d e f g. same (pick a b c d e f g) (has_flag (seven_flags a b c d e f g) bit)) h a
        b c d e f g)

  pub seven_flags-Reads : ReadsSeven a b c d e f g (seven_flags a b c d e f g)
  unfolding seven_flags five_flags same all_flags
  seven_flags-Reads = record {
    bit0 = seven_bit 1 (λ a b c d e f g. a) refl;
    bit1 = seven_bit 2 (λ a b c d e f g. b) refl;
    bit2 = seven_bit 4 (λ a b c d e f g. c) refl;
    bit3 = seven_bit 8 (λ a b c d e f g. d) refl;
    bit4 = seven_bit 16 (λ a b c d e f g. e) refl;
    bit5 = seven_bit 32 (λ a b c d e f g. f) refl;
    bit6 = seven_bit 64 (λ a b c d e f g. g) refl;
    small =
        ltb→lt _ _
          (seven_sound (λ a b c d e f g. ltb (seven_flags a b c d e f g) 128) refl a b c d e f g);
  }
