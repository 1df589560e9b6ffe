-- ===== src/Routing/Bucket/Edits.antt =====
-- An insertion at the rank, and an erasure, in a sorted bucket.
use hyperdht_cpp.Prelude.{
  ℕ, zero, suc, ◌+◌, ◌<◌, ◌≡◌, refl, ap, subst, ◌∙◌, true, false, none, some, is_some, List, [],
  ◌∷◌, if◌then◌else◌, length, arith, Bool-cases, inl, inr,
}
use hyperdht_cpp.Routing.Id.{id_lt, id_eq}
use hyperdht_cpp.Routing.Id.Metric.{id_lt_total, id_eq_sound, id_eq_refl, id_lt-ne}
use hyperdht_cpp.Routing.Bucket.{Node, insert_at, erase_at}
use hyperdht_cpp.Routing.Bucket.Search.{IsAbove, IsSorted, rank}
use hyperdht_cpp.Routing.Bucket.Lookup.{lookup, lookup_above, IsAbove-trans}

insert-IsAbove :
    (id : List ℕ) (i : ℕ) (n : Node) (ns : List Node)
    → id_lt id n.id ≡ true
    → IsAbove id ns
    → IsAbove id (insert_at i n ns)
unfolding insert_at
insert-IsAbove id zero n ns h a = (h, a)
insert-IsAbove id (suc i) n [] h a = (h, a)
insert-IsAbove id (suc i) n (m ∷ ns) h a = (a.0, insert-IsAbove id i n ns h a.1)

pub insert-IsSorted :
    (n : Node) (ns : List Node)
    → IsSorted ns
    → lookup ns n.id ≡ none
    → IsSorted (insert_at (rank ns n.id) n ns)
unfolding insert_at
insert-IsSorted n [] s h = (tt, tt)
insert-IsSorted n (m ∷ ns) s h = elim (Bool-cases (id_lt m.id n.id)) [
  | inl e ↦ rw e (
    insert-IsAbove m.id (rank ns n.id) n ns e s.0,
    insert-IsSorted n ns s.1 (ground (arith, id_lt-ne m.id n.id e)),
  )
  | inr e ↦
      let below : id_lt n.id m.id ≡ true = id_lt_total m.id n.id e (ground arith) in
      rw e ((below, IsAbove-trans n.id m.id ns below s.0), s)
]

pub same_id : (a b j : List ℕ) → id_eq a j ≡ true → id_eq b j ≡ true → id_eq a b ≡ true
same_id a b j p q = rw (id_eq_sound a j p, id_eq_sound b j q) (id_eq_refl j)

pub lookup-insert :
    (n : Node) (ns : List Node) (j : List ℕ)
    → lookup ns n.id ≡ none
    → lookup (insert_at (rank ns n.id) n ns) j ≡ (if id_eq n.id j then some n else lookup ns j)
unfolding insert_at
lookup-insert n [] j h = refl
lookup-insert n (m ∷ ns) j h = elim (Bool-cases (id_lt m.id n.id)) [
  | inl e ↦ rw e (ground (arith, lookup-insert n ns j, same_id m.id n.id j, id_lt-ne m.id n.id e))
  | inr e ↦ rw e
]

pub length-insert : (i : ℕ) (n : Node) (ns : List Node) → length (insert_at i n ns) ≡ length ns + 1
unfolding insert_at
length-insert zero n ns = omega arith
length-insert (suc i) n [] = omega arith
length-insert (suc i) n (m ∷ ns) = omega (arith, length-insert i n ns)

erase-IsAbove : (id : List ℕ) (i : ℕ) (ns : List Node) → IsAbove id ns → IsAbove id (erase_at i ns)
unfolding erase_at
erase-IsAbove id zero [] a = a
erase-IsAbove id (suc i) [] a = a
erase-IsAbove id zero (m ∷ ns) a = a.1
erase-IsAbove id (suc i) (m ∷ ns) a = (a.0, erase-IsAbove id i ns a.1)

pub erase-IsSorted : (i : ℕ) (ns : List Node) → IsSorted ns → IsSorted (erase_at i ns)
unfolding erase_at
erase-IsSorted zero [] s = s
erase-IsSorted (suc i) [] s = s
erase-IsSorted zero (m ∷ ns) s = s.1
erase-IsSorted (suc i) (m ∷ ns) s = (erase-IsAbove m.id i ns s.0, erase-IsSorted i ns s.1)

pub length-erase : (i : ℕ) (ns : List Node) → i < length ns → length (erase_at i ns) + 1 ≡ length ns
unfolding erase_at
length-erase i [] h = elim h [ ]
length-erase zero (m ∷ ns) h = omega arith
length-erase (suc i) (m ∷ ns) h = omega (arith, length-erase i ns)

-- Behind the first node there is no other of its identifier.
erase_first :
    (m : Node) (ns : List Node) (id j : List ℕ)
    → IsSorted (m ∷ ns)
    → m.id ≡ id
    → lookup ns j ≡ (if id_eq id j then none else lookup (m ∷ ns) j)
erase_first m ns id j s q = elim (Bool-cases (id_eq id j)) [
  | inl r ↦ rw r (lookup_above j ns (subst (λ k. IsAbove k ns) (q ∙ id_eq_sound id j r) s.0))
  | inr r ↦ let other : id_eq m.id j ≡ false = ap (λ (k : List ℕ). id_eq k j) q ∙ r in rw (r, other)
]

pub lookup-erase :
    (ns : List Node) (id j : List ℕ)
    → IsSorted ns
    → is_some (lookup ns id) ≡ true
    → lookup (erase_at (rank ns id) ns) j ≡ (if id_eq id j then none else lookup ns j)
unfolding erase_at
lookup-erase [] id j s h = cc
lookup-erase (m ∷ ns) id j s h = elim (Bool-cases (id_lt m.id id)) [
  | inl e ↦ rw e (ground (arith, lookup-erase ns id j s.1, same_id m.id id j, id_lt-ne m.id id e))
  | inr e ↦ elim (Bool-cases (id_eq m.id id)) [
    | inl q ↦ rw e (erase_first m ns id j s (id_eq_sound m.id id q))
    | inr q ↦
        cc
          ((rw q at h), lookup_above id ns (IsAbove-trans id m.id ns (id_lt_total m.id id e q) s.0))
  ]
]
