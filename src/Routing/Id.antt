-- ===== src/Routing/Id.antt =====
-- Node identifiers and their XOR metric (`bucket_index`, `compare_distance`, and `<` and `==` of
-- `std::array<uint8_t, 32>`).
pub mod Metric
use Prim.Native.Nat.{Ordering}
use hyperdht_cpp.Prelude.{
  ℕ, ◌+◌, ◌*◌, Bool, true, false, ◌&&◌, List, [], ◌∷◌, if◌then◌else◌, ltb, leb, ◌==◌, bit_xor,
}

abbrev pub id_len : ℕ
id_len = 32

abbrev pub id_bits : ℕ
id_bits = 256

-- `std::countl_zero` of a byte.
unfoldable pub countl_zero : ℕ → ℕ
countl_zero v =
    if leb 128 v
    then 0
    else if leb 64 v
    then 1
    else if leb 32 v
    then 2
    else if leb 16 v
    then 3
    else if leb 8 v
    then 4
    else if leb 4 v
    then 5
    else if leb 2 v
    then 6
    else if leb 1 v
    then 7
    else 8

-- The loop from byte `i` on.
unfoldable pub bucket_index_from : ℕ → List ℕ → List ℕ → ℕ
bucket_index_from i (x ∷ xs) (y ∷ ys) =
    let rest = bucket_index_from (i + 1) xs ys in
    if bit_xor x y == 0 then rest else i * 8 + countl_zero (bit_xor x y)
bucket_index_from i [] ys = id_bits
bucket_index_from i (x ∷ xs) [] = id_bits

unfoldable pub bucket_index : List ℕ → List ℕ → ℕ
unfolding bucket_index_from
bucket_index local remote = bucket_index_from 0 local remote

-- Negative, zero and positive results are `lt`, `eq` and `gt`.
unfoldable pub compare_distance : List ℕ → List ℕ → List ℕ → Ordering
compare_distance (t ∷ ts) (a ∷ as') (b ∷ bs) =
    let rest = compare_distance ts as' bs in
    if ltb (bit_xor t a) (bit_xor t b)
    then Ordering.lt
    else if ltb (bit_xor t b) (bit_xor t a)
    then Ordering.gt
    else rest
compare_distance [] as' bs = Ordering.eq
compare_distance (t ∷ ts) [] bs = Ordering.eq
compare_distance (t ∷ ts) (a ∷ as') [] = Ordering.eq

-- `a < b`, lexicographically.
unfoldable pub id_lt : List ℕ → List ℕ → Bool
id_lt as' [] = false
id_lt [] (b ∷ bs) = true
id_lt (a ∷ as') (b ∷ bs) =
    let rest = id_lt as' bs in if ltb a b then true else if ltb b a then false else rest

unfoldable pub id_eq : List ℕ → List ℕ → Bool
id_eq [] [] = true
id_eq [] (b ∷ bs) = false
id_eq (a ∷ as') [] = false
id_eq (a ∷ as') (b ∷ bs) = (a == b) && id_eq as' bs
