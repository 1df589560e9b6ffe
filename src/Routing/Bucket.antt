-- ===== src/Routing/Bucket.antt =====
-- `Node` and `Bucket` of routing_table.hpp: the nodes of one bucket, searched by halves.
pub mod Search
pub mod Lookup
pub mod Edits
pub mod Laws
use hyperdht_cpp.Prelude.{
  ℕ, zero, suc, ◌+◌, ◌-◌, ◌/◌, Bool, true, false, ◌&&◌, Option, none, some, List, [], ◌∷◌,
  if◌then◌else◌, ltb, leb, length, get_elem?,
}
use hyperdht_cpp.Routing.Id.{id_lt, id_eq}

abbrev pub bucket_size : ℕ
bucket_size = 20

pub record Node : Type 0 where
  pub id : List ℕ
  pub host : List ℕ
  pub port : ℕ
  pub token : List ℕ
  pub round_trip_time : ℕ
  pub added_at : ℕ
  pub added : ℕ
  pub pinged : ℕ
  pub seen : ℕ
  pub sampled : ℕ
  pub down_hints : ℕ

-- `nodes_[i].id`, for an `i` in range.
abbrev pub id_at : List Node → ℕ → List ℕ
id_at [] i = []
id_at (n ∷ ns) zero = n.id
id_at (n ∷ ns) (suc i) = id_at ns i

-- `while (lo < hi)`; each round takes one from `hi - lo` at least, which is the fuel.
unfoldable pub search_from : ℕ → List Node → List ℕ → ℕ → ℕ → ℕ
search_from zero ns id lo hi = lo
search_from (suc fuel) ns id lo hi =
    let mid = lo + (hi - lo) / 2 in
    elim (ltb lo hi) [
      | true ↦ elim (id_lt (id_at ns mid) id) [
        | true ↦ search_from fuel ns id (mid + 1) hi
        | false ↦ search_from fuel ns id lo mid
      ]
      | false ↦ lo
    ]

unfoldable pub find_index : List Node → List ℕ → ℕ
find_index ns id = search_from (length ns) ns id 0 (length ns)

-- `idx < nodes_.size() && nodes_[idx].id == id`.
abbrev pub matches_at : List Node → ℕ → List ℕ → Bool
matches_at ns i id = ltb i (length ns) && id_eq (id_at ns i) id

unfoldable pub has_id : List Node → List ℕ → Bool
has_id ns id = matches_at ns (find_index ns id) id

abbrev pub is_full : List Node → Bool
is_full ns = leb bucket_size (length ns)

-- `nodes_.insert(nodes_.begin() + i, node)` and `nodes_.erase(nodes_.begin() + i)`.
unfoldable pub insert_at : ℕ → Node → List Node → List Node
insert_at zero n ns = n ∷ ns
insert_at (suc i) n [] = n ∷ []
insert_at (suc i) n (m ∷ ns) = m ∷ insert_at i n ns

unfoldable pub erase_at : ℕ → List Node → List Node
erase_at i [] = []
erase_at zero (m ∷ ns) = ns
erase_at (suc i) (m ∷ ns) = m ∷ erase_at i ns

unfoldable pub add : List Node → Node → List Node × Bool
add ns node =
    if has_id ns node.id
    then (ns, false)
    else if is_full ns
    then (ns, false)
    else (insert_at (find_index ns node.id) node ns, true)

unfoldable pub remove : List Node → List ℕ → List Node × Bool
remove ns id =
    let i = find_index ns id in if matches_at ns i id then (erase_at i ns, true) else (ns, false)

unfoldable pub get : List Node → List ℕ → Option Node
get ns id = let i = find_index ns id in if matches_at ns i id then get_elem? ns i else none

unfoldable pub oldest : List Node → Option Node
oldest [] = none
oldest (n ∷ ns) = some n
