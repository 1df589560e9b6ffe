-- ===== src/Routing/Bucket/Laws.antt =====
-- About `Bucket::add` and `Bucket::remove` of routing_table.cpp.
use hyperdht_cpp.Prelude.{
  ℕ, ◌+◌, ◌≤◌, ◌<◌, ◌≡◌, refl, ap, sym, ◌∙◌, Bool, true, false, ◌&&◌, not, Option, none, some,
  is_some, List, if◌then◌else◌, ltb, length, arith, Bool-cases, inl, inr, if_cases,
}
use hyperdht_cpp.Routing.Id.{id_eq}
use hyperdht_cpp.Routing.Id.Metric.{id_eq_sound}
use hyperdht_cpp.Routing.Bucket.{
  Node, find_index, matches_at, has_id, is_full, bucket_size, add, remove,
}
use hyperdht_cpp.Routing.Bucket.Search.{IsSorted, rank, find_index-rank}
use hyperdht_cpp.Routing.Bucket.Lookup.{lookup, matches_at-rank, has_id-lookup}
use hyperdht_cpp.Routing.Bucket.Edits.{
  insert-IsSorted, lookup-insert, length-insert, erase-IsSorted, length-erase, lookup-erase,
}

-- A bucket as the class keeps it: in order, and never above its size.
pub record IsBucket (ns : List Node) : Type 0 where
  pub sorted : IsSorted ns
  pub bounded : length ns ≤ bucket_size

absent_of : (o : Option Node) → is_some o ≡ false → o ≡ none
absent_of none e = refl
absent_of (some n) e = cc

-- In a bucket in order and within its size, a node is added exactly if it is new and there is
-- room; the bucket stays in order and within its size; and every identifier finds what it
-- found before, an added node's identifier that node.
pub add_lem :
    (ns : List Node) (n : Node)
    → IsBucket ns
    → ((add ns n).1 ≡ (not (is_some (lookup ns n.id)) && ltb (length ns) bucket_size))
      × IsBucket (add ns n).0
      × ((j : List ℕ)
          → lookup (add ns n).0 j ≡ (if (add ns n).1 && id_eq n.id j then some n else lookup ns j))
unfolding add
add_lem ns n b =
    rw (has_id-lookup ns n.id b.sorted, find_index-rank ns n.id b.sorted)
      (elim (Bool-cases (is_some (lookup ns n.id))) [
        | inl here ↦ rw here (refl, b, λ j. refl)
        | inr absent ↦ rw absent (elim (Bool-cases (is_full ns)) [
          | inl full ↦ rw full (ground arith, b, λ j. refl)
          | inr free ↦ rw free (
            ground arith,
            record {
              sorted = insert-IsSorted n ns b.sorted (absent_of _ absent);
              bounded = omega (arith, length-insert (rank ns n.id) n ns, ground_free free);
            },
            λ j. lookup-insert n ns j (absent_of _ absent),
          )
        ])
      ])
  where
    ground_free : is_full ns ≡ false → length ns < bucket_size
    ground_free f = ground arith

pub matches_in_range :
    (ns : List Node) (i : ℕ) (id : List ℕ) → matches_at ns i id ≡ true → i < length ns
matches_in_range ns i id h = ground arith

lookup_absent :
    (ns : List Node) (id j : List ℕ)
    → lookup ns id ≡ none
    → lookup ns j ≡ (if id_eq id j then none else lookup ns j)
lookup_absent ns id j h = elim (Bool-cases (id_eq id j)) [
  | inl e ↦ rw e (ap (lookup ns) (sym (id_eq_sound id j e)) ∙ h)
  | inr e ↦ rw e
]

-- From a bucket in order and within its size, exactly the node with the identifier is taken
-- out, if there is one; order and bound stay, and every other identifier finds what it found
-- before.
pub remove_lem :
    (ns : List Node) (id : List ℕ)
    → IsBucket ns
    → ((remove ns id).1 ≡ is_some (lookup ns id))
      × IsBucket (remove ns id).0
      × ((j : List ℕ) → lookup (remove ns id).0 j ≡ (if id_eq id j then none else lookup ns j))
unfolding remove
remove_lem ns id b =
    rw (find_index-rank ns id b.sorted) (elim (Bool-cases (matches_at ns (rank ns id) id)) [
      | inl here ↦ rw here (
        sym here ∙ matches_at-rank ns id b.sorted,
        record {
          sorted = erase-IsSorted (rank ns id) ns b.sorted;
          bounded = omega (
            arith,
            b.bounded,
            length-erase (rank ns id) ns (matches_in_range ns (rank ns id) id here),
          );
        },
        λ j. lookup-erase ns id j b.sorted (sym (matches_at-rank ns id b.sorted) ∙ here),
      )
      | inr absent ↦
          let none_there = sym (matches_at-rank ns id b.sorted) ∙ absent in
          rw absent (sym none_there, b, λ j. lookup_absent ns id j (absent_of _ none_there))
    ])

bool_absurd {ℓ} : {A : Type ℓ} → false ≡ true → A
bool_absurd h = absurd (cc h)

pub length-add : (b : List Node) (n : Node) → (add b n).1 ≡ true → length (add b n).0 ≡ length b + 1
unfolding add
length-add b n =
    if_cases _ _ (λ (r : List Node × Bool). r.1 ≡ true → length r.0 ≡ length b + 1) (has_id b n.id)
      (λ _ h. bool_absurd h)
      (λ _.
        if_cases _ _ (λ (r : List Node × Bool). r.1 ≡ true → length r.0 ≡ length b + 1) (is_full b)
          (λ _ h. bool_absurd h) (λ _ _. length-insert (find_index b n.id) n b))

pub length-remove :
    (b : List Node) (id : List ℕ) → (remove b id).1 ≡ true → length (remove b id).0 + 1 ≡ length b
unfolding remove
length-remove b id =
    if_cases _ _ (λ (r : List Node × Bool). r.1 ≡ true → length r.0 + 1 ≡ length b)
      (matches_at b (find_index b id) id)
      (λ here _. length-erase (find_index b id) b (matches_in_range b (find_index b id) id here))
      (λ _ h. bool_absurd h)
