-- ===== src/Tests/Tables.antt =====
-- Identifiers, buckets of two nodes, and tables.
use hyperdht_cpp.Prelude.{
  ℕ, ◌≡◌, ◌≤◌, refl, false, ◌&&◌, not, none, some, is_some, List, [], ◌∷◌, length, replicate, arith,
  if◌then◌else◌, ltb, take, ◌++◌, subst,
}
use hyperdht_cpp.Routing.Id.{bucket_index, bucket_index_from, countl_zero, id_lt, id_eq}
use hyperdht_cpp.Routing.Bucket.{Node, bucket_size, find_index, has_id, search_from, insert_at}
use hyperdht_cpp.Routing.Bucket.Search.{IsSorted}
use hyperdht_cpp.Routing.Bucket.Lookup.{lookup}
use hyperdht_cpp.Routing.Bucket.Laws.{IsBucket, add_lem, remove_lem}
use hyperdht_cpp.Routing.Table.{
  Table, new_table, add, remove, closest, start_bucket, sort_by_distance,
}
use hyperdht_cpp.Routing.Table.Invariant.{IsTable, new_table-IsTable, add-IsTable, remove-IsTable}
use hyperdht_cpp.Routing.Table.Nearest.{IsOrdered, closest-IsOrdered}
use hyperdht_cpp.Routing.Table.Collected.{closest-first}
use mathlib.Core.List.{flatten, reverse}
use hyperdht_cpp.Routing.Bucket

abbrev own_id : List ℕ
own_id = replicate 32 0

abbrev node : List ℕ → Node
node id = record {
  id = id;
  host = 127 ∷ (0 ∷ (0 ∷ (1 ∷ [])));
  port = 49737;
  token = [];
  round_trip_time = 0;
  added_at = 0;
  added = 0;
  pinged = 0;
  seen = 0;
  sampled = 0;
  down_hints = 0;
}

abbrev low : Node
low = node (replicate 32 3)

abbrev high : Node
high = node (replicate 32 5)

abbrev two : List Node
two = low ∷ (high ∷ [])

two-IsSorted : IsSorted two
unfolding id_lt
two-IsSorted = ((refl, tt), (tt, tt))

two-IsBucket : IsBucket two
two-IsBucket = record { sorted = two-IsSorted; bounded = omega arith }

add_lem_example :
    ((Bucket.add two (node own_id)).1
      ≡ (not (is_some (lookup two own_id)) && ltb (length two) bucket_size))
    × IsBucket (Bucket.add two (node own_id)).0
    × ((j : List ℕ)
        → lookup (Bucket.add two (node own_id)).0 j ≡ (
            if (Bucket.add two (node own_id)).1 && id_eq own_id j
            then some (node own_id)
            else lookup two j))
add_lem_example = add_lem two (node own_id) two-IsBucket

remove_lem_example :
    ((Bucket.remove two low.id).1 ≡ is_some (lookup two low.id))
    × IsBucket (Bucket.remove two low.id).0
    × ((j : List ℕ)
        → lookup (Bucket.remove two low.id).0 j ≡ (if id_eq low.id j then none else lookup two j))
remove_lem_example = remove_lem two low.id two-IsBucket

abbrev one : Table
one = (add (new_table own_id) low).table

add-IsTable_example : IsTable one
add-IsTable_example = add-IsTable (new_table own_id) low (new_table-IsTable own_id)

remove-IsTable_example : IsTable (remove one low.id).0
remove-IsTable_example =
    remove-IsTable one low.id (add-IsTable (new_table own_id) low (new_table-IsTable own_id))

one_size : one.size ≡ 1
unfolding add bucket_index bucket_index_from countl_zero id_eq Bucket.add has_id find_index
    search_from insert_at
one_size = refl

closest-IsOrdered_example :
    IsOrdered high.id (closest one high.id 20) × (length (closest one high.id 20) ≤ 20)
closest-IsOrdered_example = closest-IsOrdered one high.id 20

abbrev far : ℕ → Node
far first = node (first ∷ replicate 31 0)

-- The target is the identifier of the second node.
abbrev crowded : Table
crowded = record {
  id = own_id;
  buckets = (far 129 ∷ (far 130 ∷ [])) ∷ replicate 255 [];
  size = 2;
  on_full = false;
}

crowded_lem : (add (add (new_table own_id) (far 129)).table (far 130)).table ≡ crowded
unfolding add bucket_index bucket_index_from countl_zero id_eq id_lt Bucket.add has_id find_index
    search_from insert_at
crowded_lem = refl

crowded-IsTable : IsTable crowded
crowded-IsTable = subst IsTable crowded_lem (
    add-IsTable (add (new_table own_id) (far 129)).table (far 130)
      (add-IsTable (new_table own_id) (far 129) (new_table-IsTable own_id)))

closest-first_example :
    (closest crowded (far 130).id 1
      ≡ sort_by_distance (far 130).id (
          take 1 (
            (far 129 ∷ (far 130 ∷ []))
            ++ (flatten (replicate 255 [])
                ++ flatten (reverse (take (start_bucket crowded (far 130).id) crowded.buckets))))))
    × IsSorted (far 129 ∷ (far 130 ∷ []))
unfolding bucket_index bucket_index_from countl_zero
closest-first_example =
    closest-first crowded (far 130).id 1 (far 129 ∷ (far 130 ∷ [])) (replicate 255 [])
      crowded-IsTable refl
