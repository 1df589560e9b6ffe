-- ===== src/Routing/Table/Invariant.antt =====
-- The state of `RoutingTable` in routing_table.cpp, and `add`, `remove`, `random` and
-- `rebuild_with_id`.
use hyperdht_cpp.Prelude.{
  ℕ, zero, suc, ◌+◌, ◌-◌, ◌≡◌, ◌<◌, refl, ap, sym, ◌∙◌, Bool, true, Option, is_some, List, [], ◌∷◌,
  ltb, leb, ◌==◌, length, length-replicate, get_or, get_elem?, set, replicate, All, arith,
  Bool-cases, inl, inr, if_cases, ltb→lt, ltb→le,
}
use mathlib.Core.List.{flatten}
use hyperdht_cpp.Routing.Id.{id_bits, id_eq, bucket_index}
use hyperdht_cpp.Routing.Bucket.{Node, insert_at, erase_at, has_id, is_full, find_index, matches_at}
use hyperdht_cpp.Routing.Bucket.Laws.{IsBucket}
use hyperdht_cpp.Routing.Bucket.Laws
use hyperdht_cpp.Routing.Bucket
use hyperdht_cpp.Routing.Table.Placed.{
  ArePlaced, set-ArePlaced, get-AreAt, add-AreAt, remove-AreAt, replicate-ArePlaced,
}
use hyperdht_cpp.Routing.Table.{
  Table, Added, new_table, bucket_at, add, add_at, remove, remove_at, random, nth_node, add_all,
  rebuild_with_id,
}

abbrev pub total : List (List Node) → ℕ
total [] = 0
total (b ∷ bs) = length b + total bs

pub record IsTable (t : Table) : Type 0 where
  pub width : length t.buckets ≡ id_bits
  pub counted : t.size ≡ total t.buckets
  pub ordered : All IsBucket t.buckets
  pub placed : ArePlaced t.id 0 t.buckets

total-set :
    (bs : List (List Node)) (i : ℕ) (b : List Node)
    → i < length bs
    → total (set bs i b) + length (get_or bs i []) ≡ total bs + length b
total-set [] i b h = elim h [ ]
total-set (c ∷ bs) zero b h = omega arith
total-set (c ∷ bs) (suc i) b h = omega (arith, total-set bs i b)

length-set : (bs : List (List Node)) (i : ℕ) (b : List Node) → length (set bs i b) ≡ length bs
length-set [] i b = refl
length-set (c ∷ bs) zero b = refl
length-set (c ∷ bs) (suc i) b = ap suc (length-set bs i b)

All-set :
    (bs : List (List Node)) (i : ℕ) (b : List Node)
    → All IsBucket bs
    → IsBucket b
    → All IsBucket (set bs i b)
All-set [] i b h k = tt
All-set (c ∷ bs) zero b h k = (k, h.1)
All-set (c ∷ bs) (suc i) b h k = (h.0, All-set bs i b h.1 k)

nil-IsBucket : IsBucket []
nil-IsBucket = record { sorted = tt; bounded = omega arith }

All-get : (bs : List (List Node)) (i : ℕ) → All IsBucket bs → IsBucket (get_or bs i [])
All-get [] i h = nil-IsBucket
All-get (c ∷ bs) zero h = h.0
All-get (c ∷ bs) (suc i) h = All-get bs i h.1

add_at-IsTable :
    (t : Table) (i : ℕ) (n : Node)
    → IsTable t
    → i < id_bits
    → bucket_index t.id n.id ≡ i
    → IsTable (add_at t i n).table
add_at-IsTable t i n v h q = elim (Bool-cases (Bucket.add (bucket_at t i) n).1) [
  | inl done ↦ rw done (record {
    width = length-set t.buckets i _ ∙ v.width;
    counted = omega (
      arith,
      v.counted,
      v.width,
      total-set t.buckets i (Bucket.add (bucket_at t i) n).0 (omega (arith, v.width)),
      Laws.length-add (bucket_at t i) n done,
    );
    ordered =
        All-set t.buckets i _ v.ordered
          (Laws.add_lem (bucket_at t i) n (All-get t.buckets i v.ordered)).1;
    placed = set-ArePlaced t.id t.buckets 0 i i _ (omega arith) v.placed (
        add-AreAt t.id i n (bucket_at t i) q
          (get-AreAt t.id t.buckets 0 i i (omega arith) v.placed));
  })
  | inr kept ↦ rw kept v
]

-- A table is right if it has 256 buckets, each in order and within its size, its size is the
-- number of its nodes, and every node stands in the bucket of its own index. Adding a node keeps
-- the table right, whether the node is taken or not.
pub add-IsTable : (t : Table) (n : Node) → IsTable t → IsTable (add t n).table
unfolding add
add-IsTable t n v =
    if_cases _ _ (λ (a : Added). IsTable a.table) (id_eq n.id t.id) (λ _. v)
      (λ _.
        if_cases _ _ (λ (a : Added). IsTable a.table) (leb id_bits (bucket_index t.id n.id))
          (λ _. v) (λ h. add_at-IsTable t (bucket_index t.id n.id) n v (ground arith) refl))

remove_at-IsTable :
    (t : Table) (i : ℕ) (id : List ℕ) → IsTable t → i < id_bits → IsTable (remove_at t i id).0
remove_at-IsTable t i id v h = elim (Bool-cases (Bucket.remove (bucket_at t i) id).1) [
  | inl done ↦ rw done (record {
    width = length-set t.buckets i _ ∙ v.width;
    counted = omega (
      arith,
      v.counted,
      v.width,
      total-set t.buckets i (Bucket.remove (bucket_at t i) id).0 (omega (arith, v.width)),
      Laws.length-remove (bucket_at t i) id done,
    );
    ordered =
        All-set t.buckets i _ v.ordered
          (Laws.remove_lem (bucket_at t i) id (All-get t.buckets i v.ordered)).1;
    placed = set-ArePlaced t.id t.buckets 0 i i _ (omega arith) v.placed (
        remove-AreAt t.id i id (bucket_at t i)
          (get-AreAt t.id t.buckets 0 i i (omega arith) v.placed));
  })
  | inr kept ↦ rw kept v
]

-- Removing an identifier keeps the table right, as `add-IsTable` says it, whether a node had the
-- identifier or not.
pub remove-IsTable : (t : Table) (id : List ℕ) → IsTable t → IsTable (remove t id).0
unfolding remove
remove-IsTable t id v =
    if_cases _ _ (λ (r : Table × Bool). IsTable r.0) (leb id_bits (bucket_index t.id id)) (λ _. v)
      (λ h. remove_at-IsTable t (bucket_index t.id id) id v (ground arith))

total-replicate : (n : ℕ) → total (replicate n []) ≡ 0
total-replicate zero = refl
total-replicate (suc n) = omega (arith, total-replicate n)

All-replicate : (n : ℕ) → All IsBucket (replicate n [])
All-replicate zero = tt
All-replicate (suc n) = (nil-IsBucket, All-replicate n)

pub new_table-IsTable : (id : List ℕ) → IsTable (new_table id)
new_table-IsTable id = record {
  width = length-replicate {A = List Node} id_bits [];
  counted = sym (total-replicate id_bits);
  ordered = All-replicate id_bits;
  placed = replicate-ArePlaced id id_bits 0;
}

add_all-IsTable : (t : Table) (ns : List Node) → IsTable t → IsTable (add_all t ns)
unfolding add_all
add_all-IsTable t [] v = v
add_all-IsTable t (n ∷ ns) v = add_all-IsTable (add t n).table ns (add-IsTable t n v)

-- A rebuilt table is right, as `add-IsTable` says it, whatever the old one was, and keeps the old
-- callback.
pub rebuild_with_id-IsTable :
    (t : Table) (id : List ℕ)
    → IsTable (rebuild_with_id t id) × ((rebuild_with_id t id).on_full ≡ t.on_full)
unfolding rebuild_with_id
rebuild_with_id-IsTable t id =
    let v = add_all-IsTable (new_table id) (flatten t.buckets) (new_table-IsTable id) in
    (record { width = v.width; counted = v.counted; ordered = v.ordered; placed = v.placed }, refl)

get_elem-in_range : (b : List Node) (n : ℕ) → n < length b → is_some (get_elem? b n) ≡ true
get_elem-in_range [] n h = elim h [ ]
get_elem-in_range (m ∷ b) zero h = refl
get_elem-in_range (m ∷ b) (suc n) h = get_elem-in_range b n (omega arith)

nth_node-is_some : (bs : List (List Node)) (n : ℕ) → n < total bs → is_some (nth_node bs n) ≡ true
unfolding nth_node
nth_node-is_some [] n h = absurd (omega arith)
nth_node-is_some (b ∷ bs) n h =
    if_cases _ _ (λ (o : Option Node). is_some o ≡ true) (ltb n (length b))
      (λ e. get_elem-in_range b n (ltb→lt n (length b) e))
      (λ e. nth_node-is_some bs (n - length b) (omega (arith, ltb→le n (length b) e)))

-- In a right table, for every number below the size, the walk of `random` ends at a node, so that the return behind
-- its loop is not reached.
pub random-is_some : (t : Table) (n : ℕ) → IsTable t → n < t.size → is_some (random t n) ≡ true
unfolding random
random-is_some t n v h =
    if_cases _ _ (λ (o : Option Node). is_some o ≡ true) (t.size == 0) (λ e. absurd (ground arith))
      (λ _. nth_node-is_some t.buckets n (omega (arith, v.counted)))
