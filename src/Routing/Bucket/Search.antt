-- ===== src/Routing/Bucket/Search.antt =====
-- The binary search of `Bucket::find_index` in routing_table.cpp.
use hyperdht_cpp.Prelude.{
  ℕ, zero, suc, ◌+◌, ◌-◌, ◌/◌, ◌≤◌, ◌<◌, ◌≡◌, true, false, List, [], ◌∷◌, if◌then◌else◌, ltb,
  length, All, arith, Bool-cases, inl, inr,
}
use hyperdht_cpp.Routing.Id.{id_lt}
use hyperdht_cpp.Routing.Id.Metric.{id_lt_trans}
use hyperdht_cpp.Routing.Bucket.{Node, id_at, search_from, find_index}

-- Strictly ascending identifiers.
abbrev pub IsAbove : List ℕ → List Node → Type 0
IsAbove id ns = All (λ m. id_lt id m.id ≡ true) ns

abbrev pub IsSorted : List Node → Type 0
IsSorted [] = Unit {0}
IsSorted (n ∷ ns) = IsAbove n.id ns × IsSorted ns

-- The number of nodes in front that are below the identifier.
abbrev pub rank : List Node → List ℕ → ℕ
rank [] id = 0
rank (n ∷ ns) id = if id_lt n.id id then suc (rank ns id) else 0

pub rank-le : (ns : List Node) (id : List ℕ) → rank ns id ≤ length ns
rank-le [] id = omega arith
rank-le (n ∷ ns) id = ground (arith, rank-le ns id)

above_at :
    (id : List ℕ) (ns : List Node) (i : ℕ)
    → IsAbove id ns
    → i < length ns
    → id_lt id (id_at ns i) ≡ true
above_at id [] i a h = elim h [ ]
above_at id (n ∷ ns) zero a h = a.0
above_at id (n ∷ ns) (suc i) a h = above_at id ns i a.1 (omega arith)

not_below : (x y id : List ℕ) → id_lt x y ≡ true → id_lt x id ≡ false → id_lt y id ≡ false
not_below x y id h e = ground (arith, id_lt_trans x y id)

-- In a sorted bucket the test of the search says on which side of the rank a node stands.
test_rank :
    (ns : List Node) (id : List ℕ) (i : ℕ)
    → IsSorted ns
    → i < length ns
    → id_lt (id_at ns i) id ≡ ltb i (rank ns id)
test_rank [] id i s h = elim h [ ]
test_rank (n ∷ ns) id zero s h = ground arith
test_rank (n ∷ ns) id (suc i) s h = elim (Bool-cases (id_lt n.id id)) [
  | inl e ↦ rw e (ground (arith, test_rank ns id i s.1))
  | inr e ↦ rw e (ground (arith, not_below n.id (id_at ns i) id, above_at n.id ns i s.0))
]

search_from_lem :
    (fuel : ℕ) (ns : List Node) (id : List ℕ) (lo hi : ℕ)
    → IsSorted ns
    → lo ≤ rank ns id
    → rank ns id ≤ hi
    → hi ≤ length ns
    → hi - lo ≤ fuel
    → search_from fuel ns id lo hi ≡ rank ns id
unfolding search_from
search_from_lem zero ns id lo hi s l h b f = omega arith
search_from_lem (suc fuel) ns id lo hi s l h b f =
    let mid = lo + (hi - lo) / 2 in
    ground (
      arith,
      test_rank ns id mid s,
      search_from_lem fuel ns id (mid + 1) hi s,
      search_from_lem fuel ns id lo mid s,
    )

-- In a bucket in strictly ascending order the binary search ends, and its result is the number
-- of nodes below the identifier.
pub find_index-rank : (ns : List Node) (id : List ℕ) → IsSorted ns → find_index ns id ≡ rank ns id
unfolding find_index
find_index-rank ns id s =
    search_from_lem (length ns) ns id 0 (length ns) s (omega arith) (rank-le ns id) (omega arith)
      (omega arith)
