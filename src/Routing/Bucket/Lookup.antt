-- ===== src/Routing/Bucket/Lookup.antt =====
-- About `Bucket::get` and `Bucket::has_id` of routing_table.cpp.
use hyperdht_cpp.Prelude.{
  ℕ, ◌≡◌, refl, true, Option, none, some, is_some, List, [], ◌∷◌, if◌then◌else◌, arith, get_elem?,
  Bool-cases, inl, inr,
}
use hyperdht_cpp.Routing.Id.{id_lt, id_eq}
use hyperdht_cpp.Routing.Id.Metric.{id_lt_trans, id_lt_total, id_lt-ne, id_lt-ne_flip}
use hyperdht_cpp.Routing.Bucket.{Node, matches_at, has_id, get}
use hyperdht_cpp.Routing.Bucket.Search.{IsAbove, IsSorted, rank, find_index-rank}

-- The node with the identifier, by a walk through the whole bucket.
abbrev pub lookup : List Node → List ℕ → Option Node
lookup [] id = none
lookup (n ∷ ns) id = if id_eq n.id id then some n else lookup ns id

pub lookup_above : (id : List ℕ) (ns : List Node) → IsAbove id ns → lookup ns id ≡ none
lookup_above id [] a = refl
lookup_above id (n ∷ ns) a = rw (id_lt-ne_flip id n.id a.0) (lookup_above id ns a.1)

pub IsAbove-trans :
    (id id' : List ℕ) (ns : List Node) → id_lt id id' ≡ true → IsAbove id' ns → IsAbove id ns
IsAbove-trans id id' [] h a = tt
IsAbove-trans id id' (n ∷ ns) h a = (id_lt_trans id id' n.id h a.0, IsAbove-trans id id' ns h a.1)

abbrev found_at : List Node → ℕ → List ℕ → Option Node
found_at ns i id = if matches_at ns i id then get_elem? ns i else none

pub found_at-rank :
    (ns : List Node) (id : List ℕ) → IsSorted ns → found_at ns (rank ns id) id ≡ lookup ns id
found_at-rank [] id s = refl
found_at-rank (n ∷ ns) id s = elim (Bool-cases (id_lt n.id id)) [
  | inl e ↦ rw (e, id_lt-ne n.id id e) (ground (arith, found_at-rank ns id s.1))
  | inr e ↦ elim (Bool-cases (id_eq n.id id)) [
    | inl q ↦ rw (e, q) (ground arith)
    | inr q ↦
        rw (e, q)
          (ground
            (arith, lookup_above id ns (IsAbove-trans id n.id ns (id_lt_total n.id id e q) s.0)))
  ]
]

pub matches_at-rank :
    (ns : List Node) (id : List ℕ)
    → IsSorted ns
    → matches_at ns (rank ns id) id ≡ is_some (lookup ns id)
matches_at-rank [] id s = refl
matches_at-rank (n ∷ ns) id s = elim (Bool-cases (id_lt n.id id)) [
  | inl e ↦ rw (e, id_lt-ne n.id id e) (ground (arith, matches_at-rank ns id s.1))
  | inr e ↦ elim (Bool-cases (id_eq n.id id)) [
    | inl q ↦ rw (e, q) (ground arith)
    | inr q ↦
        rw (e, q)
          (ground
            (arith, lookup_above id ns (IsAbove-trans id n.id ns (id_lt_total n.id id e q) s.0)))
  ]
]

-- In a bucket in strictly ascending order the binary search of `get` finds what a walk through
-- the bucket finds.
pub get-lookup : (ns : List Node) (id : List ℕ) → IsSorted ns → get ns id ≡ lookup ns id
unfolding get
get-lookup ns id s = rw (find_index-rank ns id s) (found_at-rank ns id s)

pub has_id-lookup :
    (ns : List Node) (id : List ℕ) → IsSorted ns → has_id ns id ≡ is_some (lookup ns id)
unfolding has_id
has_id-lookup ns id s = rw (find_index-rank ns id s) (matches_at-rank ns id s)
