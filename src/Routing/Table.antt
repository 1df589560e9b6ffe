-- ===== src/Routing/Table.antt =====
-- `RoutingTable`: 256 buckets by the first bit in which an identifier differs from the own one.
pub mod Placed
pub mod Invariant
pub mod Nearest
pub mod Collected
use Prim.Native.Nat.{Ordering}
use mathlib.Core.List.{reverse, flatten}
use hyperdht_cpp.Prelude.{
  ℕ, zero, suc, ◌+◌, ◌-◌, Bool, true, false, ◌||◌, Option, none, some, is_some, List, [], ◌∷◌, ◌++◌,
  if◌then◌else◌, ltb, leb, ◌==◌, length, get_or, get_elem?, set, take, drop, replicate,
}
use hyperdht_cpp.Routing.Id.{id_bits, id_eq, bucket_index, compare_distance}
use hyperdht_cpp.Routing.Bucket.{Node}
use hyperdht_cpp.Routing.Bucket

-- `on_full` tells whether a callback is installed.
pub record Table : Type 0 where
  pub id : List ℕ
  pub buckets : List (List Node)
  pub size : ℕ
  pub on_full : Bool

-- What `add` answers: the table, the result, and the arguments of the callback if it is called.
pub record Added : Type 0 where
  pub table : Table
  pub added : Bool
  pub rejected : Option (ℕ × Node)

abbrev pub new_table : List ℕ → Table
new_table id = record { id = id; buckets = replicate id_bits []; size = 0; on_full = false }

abbrev pub bucket_at : Table → ℕ → List Node
bucket_at t i = get_or t.buckets i []

abbrev unchanged : Table → Added
unchanged t = record { table = t; added = false; rejected = none }

-- `if (on_full_) on_full_(idx, node);` when the bucket did not take the node.
abbrev pub reject : Table → ℕ → Node → Added
reject t i node = record {
  table = t;
  added = false;
  rejected = if t.on_full then some (i, node) else none;
}

abbrev pub add_at : Table → ℕ → Node → Added
add_at t i node =
    let (bucket, done) = Bucket.add (bucket_at t i) node in
    if done
    then record {
      table = record t { buckets = set t.buckets i bucket; size = t.size + 1 };
      added = true;
      rejected = none;
    }
    else reject t i node

unfoldable pub add : Table → Node → Added
add t node =
    if id_eq node.id t.id
    then unchanged t
    else if leb id_bits (bucket_index t.id node.id)
    then unchanged t
    else add_at t (bucket_index t.id node.id) node

abbrev pub remove_at : Table → ℕ → List ℕ → Table × Bool
remove_at t i id =
    let (bucket, done) = Bucket.remove (bucket_at t i) id in
    if done
    then (record t { buckets = set t.buckets i bucket; size = t.size - 1 }, true)
    else (t, false)

unfoldable pub remove : Table → List ℕ → Table × Bool
remove t id =
    if leb id_bits (bucket_index t.id id) then (t, false) else remove_at t (bucket_index t.id id) id

unfoldable pub get : Table → List ℕ → Option Node
get t id =
    if leb id_bits (bucket_index t.id id)
    then none
    else Bucket.get (bucket_at t (bucket_index t.id id)) id

unfoldable pub has : Table → List ℕ → Bool
has t id = is_some (get t id)

-- One bucket: `if (result.size() >= count) return; result.push_back(&node);`.
unfoldable pub collect_from : ℕ → List Node → List Node → List Node
collect_from count result [] = result
collect_from count result (n ∷ ns) =
    let rest = collect_from count (result ++ (n ∷ [])) ns in
    if leb count (length result) then result else rest

-- The buckets in the order of a loop, while `result.size() < count`.
unfoldable pub collect : ℕ → List Node → List (List Node) → List Node
collect count result [] = result
collect count result (b ∷ bs) =
    let rest = collect count (collect_from count result b) bs in
    if ltb (length result) count then rest else result

-- `compare_distance(...) < 0`.
abbrev pub is_negative : Ordering → Bool
is_negative Ordering.lt = true
is_negative Ordering.eq = false
is_negative Ordering.gt = false

abbrev pub is_nearer : List ℕ → Node → Node → Bool
is_nearer target a b = is_negative (compare_distance target a.id b.id)

-- `std::sort` by the distance to the target, as an insertion sort.
unfoldable pub insert_by_distance : List ℕ → Node → List Node → List Node
insert_by_distance target n [] = n ∷ []
insert_by_distance target n (m ∷ ns) =
    let rest = insert_by_distance target n ns in
    if is_nearer target n m then n ∷ (m ∷ ns) else m ∷ rest

unfoldable pub sort_by_distance : List ℕ → List Node → List Node
sort_by_distance target [] = []
sort_by_distance target (n ∷ ns) = insert_by_distance target n (sort_by_distance target ns)

abbrev pub start_bucket : Table → List ℕ → ℕ
start_bucket t target = let d = bucket_index t.id target in if leb id_bits d then id_bits - 1 else d

-- From the target's bucket up to the last one, then from there down to the first one.
unfoldable pub visit : Table → List ℕ → ℕ → List Node
visit t target count =
    let d = start_bucket t target in
    let upward = collect count [] (drop d t.buckets) in
    collect count upward (reverse (take d t.buckets))

unfoldable pub closest : Table → List ℕ → ℕ → List Node
closest t target count =
    let sorted = sort_by_distance target (visit t target count) in
    if ltb count (length sorted) then take count sorted else sorted

-- The walk of `random`, for the number `n` that the generator has drawn.
unfoldable pub nth_node : List (List Node) → ℕ → Option Node
nth_node [] n = none
nth_node (b ∷ bs) n =
    let rest = nth_node bs (n - length b) in if ltb n (length b) then get_elem? b n else rest

unfoldable pub random : Table → ℕ → Option Node
random t n = if t.size == 0 then none else nth_node t.buckets n

-- `for (const auto& node : all_nodes) add(node);`
unfoldable pub add_all : Table → List Node → Table
add_all t [] = t
add_all t (n ∷ ns) = add_all (add t n).table ns

unfoldable pub rebuild_with_id : Table → List ℕ → Table
rebuild_with_id t new_id =
    let rebuilt = add_all (new_table new_id) (flatten t.buckets) in
    record rebuilt { on_full = t.on_full }
