-- ===== src/Routing/Table/Nearest.antt =====
-- `RoutingTable::closest` of routing_table.cpp.
use Prim.Native.Nat.{Ordering}
use hyperdht_cpp.Prelude.{
  ℕ, zero, suc, ◌≤◌, ◌≡◌, refl, ap, ◌∙◌, true, false, List, [], ◌∷◌, ltb, length, take,
  length-take-le, if_cases, ltb→le,
}
use hyperdht_cpp.Routing.Id.{compare_distance}
use hyperdht_cpp.Routing.Id.Metric.{flip, compare_distance-flip}
use hyperdht_cpp.Routing.Bucket.{Node}
use hyperdht_cpp.Routing.Table.{
  Table, is_negative, is_nearer, visit, insert_by_distance, sort_by_distance, closest,
}

-- The first node of the list, if there is one, is not nearer than `n`.
abbrev pub IsBehind : List ℕ → Node → List Node → Type 0
IsBehind target n [] = Unit
IsBehind target n (m ∷ ns) = is_nearer target m n ≡ false

abbrev pub IsOrdered : List ℕ → List Node → Type 0
IsOrdered target [] = Unit
IsOrdered target (n ∷ ns) = IsBehind target n ns × IsOrdered target ns

not_behind : (o : Ordering) → is_negative o ≡ true → is_negative (flip o) ≡ false
not_behind Ordering.lt h = refl
not_behind Ordering.eq h = refl
not_behind Ordering.gt h = absurd (cc h)

is_nearer_asym :
    (target : List ℕ) (n x : Node) → is_nearer target n x ≡ true → is_nearer target x n ≡ false
is_nearer_asym target n x h =
    ap is_negative (compare_distance-flip target n.id x.id)
    ∙ not_behind (compare_distance target n.id x.id) h

insert-IsBehind :
    (target : List ℕ) (m n : Node) (ns : List Node)
    → IsBehind target m ns
    → is_nearer target n m ≡ false
    → IsBehind target m (insert_by_distance target n ns)
unfolding insert_by_distance
insert-IsBehind target m n [] h k = k
insert-IsBehind target m n (x ∷ ns) h k =
    if_cases _ _ (IsBehind target m) (is_nearer target n x) (λ _. k) (λ _. h)

insert-IsOrdered :
    (target : List ℕ) (n : Node) (ns : List Node)
    → IsOrdered target ns
    → IsOrdered target (insert_by_distance target n ns)
unfolding insert_by_distance
insert-IsOrdered target n [] h = (tt, tt)
insert-IsOrdered target n (x ∷ ns) h =
    if_cases _ _ (IsOrdered target) (is_nearer target n x) (λ e. (is_nearer_asym target n x e, h))
      (λ e. (insert-IsBehind target x n ns h.0 e, insert-IsOrdered target n ns h.1))

sort-IsOrdered : (target : List ℕ) (ns : List Node) → IsOrdered target (sort_by_distance target ns)
unfolding sort_by_distance
sort-IsOrdered target [] = tt
sort-IsOrdered target (n ∷ ns) =
    insert-IsOrdered target n (sort_by_distance target ns) (sort-IsOrdered target ns)

take-IsBehind :
    (target : List ℕ) (m : Node) (k : ℕ) (ns : List Node)
    → IsBehind target m ns
    → IsBehind target m (take k ns)
take-IsBehind target m zero ns h = tt
take-IsBehind target m (suc k) [] h = tt
take-IsBehind target m (suc k) (n ∷ ns) h = h

take-IsOrdered :
    (target : List ℕ) (k : ℕ) (ns : List Node) → IsOrdered target ns → IsOrdered target (take k ns)
take-IsOrdered target zero ns h = tt
take-IsOrdered target (suc k) [] h = tt
take-IsOrdered target (suc k) (n ∷ ns) h =
    (take-IsBehind target n k ns h.0, take-IsOrdered target k ns h.1)

-- The answer holds at most as many nodes as are asked for, and no node in it is nearer to the
-- target than the one in front of it.
pub closest-IsOrdered :
    (t : Table) (target : List ℕ) (count : ℕ)
    → IsOrdered target (closest t target count) × (length (closest t target count) ≤ count)
unfolding closest
closest-IsOrdered t target count =
    let sorted = sort_by_distance target (visit t target count) in
    let ordered = sort-IsOrdered target (visit t target count) in
    if_cases _ _ (λ (r : List Node). IsOrdered target r × (length r ≤ count))
      (ltb count (length sorted))
      (λ _. (take-IsOrdered target count sorted ordered, length-take-le count sorted))
      (λ e. (ordered, ltb→le count (length sorted) e))
