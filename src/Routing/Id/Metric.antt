-- ===== src/Routing/Id/Metric.antt =====
-- The order of identifiers, and their distances in routing_table.cpp.
use Prim.Native.Nat.{Ordering}
use hyperdht_cpp.Prelude.{
  ℕ, ◌+◌, ◌≡◌, ◌<◌, refl, ◌≢◌, sym, ◌∙◌, true, false, List, [], ◌∷◌, ◌==◌, bit_xor, arith, length,
  Bool-cases, inl, inr, ==_refl,
}
use mathlib.Core.Path.{ap, ap₂}
use hyperdht_cpp.Prelude.Bits.{bit_xor_cancel, bit_xor_zero}
use hyperdht_cpp.Routing.Id.{
  id_bits, countl_zero, bucket_index_from, bucket_index, compare_distance, id_lt, id_eq,
}

pub id_eq_sound : (as' bs : List ℕ) → id_eq as' bs ≡ true → as' ≡ bs
unfolding id_eq
id_eq_sound [] [] e = refl
id_eq_sound [] (b ∷ bs) e = cc
id_eq_sound (a ∷ as') [] e = cc
id_eq_sound (a ∷ as') (b ∷ bs) e = ap₂ ◌∷◌ (ground arith) (id_eq_sound as' bs (ground arith))

pub id_eq_refl : (as' : List ℕ) → id_eq as' as' ≡ true
unfolding id_eq
id_eq_refl [] = refl
id_eq_refl (a ∷ as') = rw (==_refl a) (id_eq_refl as')

pub id_lt_irrefl : (as' : List ℕ) → id_lt as' as' ≡ false
unfolding id_lt
id_lt_irrefl [] = refl
id_lt_irrefl (a ∷ as') = ground (arith, id_lt_irrefl as')

pub id_lt_trans :
    (as' bs cs : List ℕ) → id_lt as' bs ≡ true → id_lt bs cs ≡ true → id_lt as' cs ≡ true
unfolding id_lt
id_lt_trans as' bs [] p q = cc
id_lt_trans [] bs (c ∷ cs) p q = refl
id_lt_trans (a ∷ as') [] (c ∷ cs) p q = cc
id_lt_trans (a ∷ as') (b ∷ bs) (c ∷ cs) p q = ground (arith, id_lt_trans as' bs cs)

-- Of two different identifiers one is smaller.
pub id_lt_total :
    (as' bs : List ℕ) → id_lt as' bs ≡ false → id_eq as' bs ≡ false → id_lt bs as' ≡ true
unfolding id_lt id_eq
id_lt_total [] [] p q = cc
id_lt_total [] (b ∷ bs) p q = cc
id_lt_total (a ∷ as') [] p q = refl
id_lt_total (a ∷ as') (b ∷ bs) p q = ground (arith, id_lt_total as' bs)

-- Two identifiers of the target's length at the same distance from it are one.
pub compare_distance_eq :
    (ts as' bs : List ℕ)
    → length as' ≡ length ts
    → length bs ≡ length ts
    → compare_distance ts as' bs ≡ Ordering.eq
    → as' ≡ bs
unfolding compare_distance
compare_distance_eq [] [] [] la lb e = refl
compare_distance_eq [] [] (b ∷ bs) la lb e = absurd (omega arith)
compare_distance_eq [] (a ∷ as') bs la lb e = absurd (omega arith)
compare_distance_eq (t ∷ ts) [] bs la lb e = absurd (omega arith)
compare_distance_eq (t ∷ ts) (a ∷ as') [] la lb e = absurd (omega arith)
compare_distance_eq (t ∷ ts) (a ∷ as') (b ∷ bs) la lb e =
    ap₂ ◌∷◌ (bit_xor_cancel t a b (ground arith))
      (compare_distance_eq ts as' bs (omega arith) (omega arith) (ground arith))

abbrev pub flip : Ordering → Ordering
flip Ordering.lt = Ordering.gt
flip Ordering.eq = Ordering.eq
flip Ordering.gt = Ordering.lt

-- Exchanging the two identifiers turns the comparison of their distances round.
pub compare_distance-flip :
    (ts as' bs : List ℕ) → compare_distance ts bs as' ≡ flip (compare_distance ts as' bs)
unfolding compare_distance
compare_distance-flip [] as' bs = refl
compare_distance-flip (t ∷ ts) [] [] = refl
compare_distance-flip (t ∷ ts) [] (b ∷ bs) = refl
compare_distance-flip (t ∷ ts) (a ∷ as') [] = refl
compare_distance-flip (t ∷ ts) (a ∷ as') (b ∷ bs) = ground (arith, compare_distance-flip ts as' bs)

clz_small : (v : ℕ) → v ≢ 0 → countl_zero v < 8
unfolding countl_zero
clz_small v h = ground arith

bucket_index_from-lt :
    (i : ℕ) (xs ys : List ℕ)
    → i + length xs ≡ 32
    → length ys ≡ length xs
    → xs ≢ ys
    → bucket_index_from i xs ys < id_bits
unfolding bucket_index_from
bucket_index_from-lt i [] [] e l h = absurd (h refl)
bucket_index_from-lt i [] (y ∷ ys) e l h = absurd (omega arith)
bucket_index_from-lt i (x ∷ xs) [] e l h = absurd (omega arith)
bucket_index_from-lt i (x ∷ xs) (y ∷ ys) e l h = elim (Bool-cases (bit_xor x y == 0)) [
  | inl same ↦ rw same (
      bucket_index_from-lt (i + 1) xs ys (omega arith) (omega arith)
        (λ t. h (ap₂ ◌∷◌ (same_byte same) t)))
  | inr other ↦ rw other (omega (arith, clz_small (bit_xor x y) (ground arith)))
]
  where
    same_byte : (bit_xor x y == 0) ≡ true → x ≡ y
    same_byte s = bit_xor_zero x y (ground arith)

-- Two different identifiers of 32 bytes have a bucket index below 256.
pub bucket_index-lt :
    (local remote : List ℕ)
    → length local ≡ 32
    → length remote ≡ 32
    → local ≢ remote
    → bucket_index local remote < id_bits
unfolding bucket_index
bucket_index-lt local remote l r h =
    bucket_index_from-lt 0 local remote (omega arith) (omega arith) h

pub id_lt-ne : (as' bs : List ℕ) → id_lt as' bs ≡ true → id_eq as' bs ≡ false
unfolding id_lt id_eq
id_lt-ne as' [] h = cc
id_lt-ne [] (b ∷ bs) h = refl
id_lt-ne (a ∷ as') (b ∷ bs) h = ground (arith, id_lt-ne as' bs)

pub id_lt-ne_flip : (as' bs : List ℕ) → id_lt as' bs ≡ true → id_eq bs as' ≡ false
unfolding id_lt id_eq
id_lt-ne_flip as' [] h = cc
id_lt-ne_flip [] (b ∷ bs) h = refl
id_lt-ne_flip (a ∷ as') (b ∷ bs) h = ground (arith, id_lt-ne_flip as' bs)

-- The distances of identifiers of the target's length are transitive.
pub compare_distance_trans :
    (ts as' bs cs : List ℕ)
    → length as' ≡ length ts
    → length bs ≡ length ts
    → length cs ≡ length ts
    → compare_distance ts as' bs ≡ Ordering.lt
    → compare_distance ts bs cs ≡ Ordering.lt
    → compare_distance ts as' cs ≡ Ordering.lt
unfolding compare_distance
compare_distance_trans [] as' bs cs la lb lc p q = p
compare_distance_trans (t ∷ ts) [] bs cs la lb lc p q = absurd (omega arith)
compare_distance_trans (t ∷ ts) (a ∷ as') [] cs la lb lc p q = absurd (omega arith)
compare_distance_trans (t ∷ ts) (a ∷ as') (b ∷ bs) [] la lb lc p q = absurd (omega arith)
compare_distance_trans (t ∷ ts) (a ∷ as') (b ∷ bs) (c ∷ cs) la lb lc p q =
    ground (arith, compare_distance_trans ts as' bs cs)

pub compare_distance_trans_eq :
    (ts as' bs cs : List ℕ)
    → length as' ≡ length ts
    → length bs ≡ length ts
    → length cs ≡ length ts
    → compare_distance ts as' bs ≡ Ordering.lt
    → compare_distance ts bs cs ≡ Ordering.eq
    → compare_distance ts as' cs ≡ Ordering.lt
compare_distance_trans_eq ts as' bs cs la lb lc p q =
    ap (compare_distance ts as') (sym (compare_distance_eq ts bs cs lb lc q)) ∙ p
