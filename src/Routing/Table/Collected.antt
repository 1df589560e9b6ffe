-- ===== src/Routing/Table/Collected.antt =====
-- `RoutingTable::closest` of routing_table.cpp, and the nodes that it collects.
use mathlib.Core.List.{reverse, flatten}
use hyperdht_cpp.Prelude.{
  ℕ, zero, suc, ◌-◌, ◌≤◌, ◌≡◌, refl, ap, sym, ◌∙◌, false, List, [], ◌∷◌, ◌++◌, append_assoc,
  append-nil, ltb, leb, length, length-append, length-take-le, take, drop, All, arith, if_cases,
  if-false, leb→le, ltb→le, subst,
}
use hyperdht_cpp.Routing.Bucket.{Node}
use hyperdht_cpp.Routing.Bucket.Search.{IsSorted}
use hyperdht_cpp.Routing.Bucket.Laws.{IsBucket}
use hyperdht_cpp.Routing.Table.{
  Table, collect_from, collect, start_bucket, is_nearer, visit, insert_by_distance,
  sort_by_distance, closest,
}
use hyperdht_cpp.Routing.Table.Invariant.{IsTable}

take_append :
    (c : ℕ) (xs ys : List Node) → take c xs ++ take (c - length (take c xs)) ys ≡ take c (xs ++ ys)
take_append zero xs ys = refl
take_append (suc c) [] ys = let e : suc c - 0 ≡ suc c = omega arith in ap (λ (k : ℕ). take k ys) e
take_append (suc c) (x ∷ xs) ys =
    let e : suc c - suc (length (take c xs)) ≡ c - length (take c xs) = omega arith in
    ap (λ (k : ℕ). x ∷ (take c xs ++ take k ys)) e
    ∙ ap (λ (l : List Node). x ∷ l) (take_append c xs ys)

take_nil : (k : ℕ) → take {A = Node} k [] ≡ []
take_nil zero = refl
take_nil (suc k) = refl

take_none : (c n : ℕ) (xs : List Node) → c ≤ n → take (c - n) xs ≡ []
take_none c n xs h = let z : c - n ≡ 0 = omega (arith, h) in ap (λ (k : ℕ). take k xs) z

-- What the loops collect behind `result`: the first nodes, as many as are missing.
abbrev fill_up : ℕ → List Node → List Node → List Node
fill_up count result ns = result ++ take (count - length result) ns

fill_up_full :
    (count : ℕ) (result ns : List Node) → count ≤ length result → fill_up count result ns ≡ result
fill_up_full count result ns h =
    ap (λ (l : List Node). result ++ l) (take_none count (length result) ns h) ∙ append-nil result

fill_up_more :
    (count : ℕ) (result : List Node) (n : Node) (ns : List Node)
    → leb count (length result) ≡ false
    → fill_up count (result ++ (n ∷ [])) ns ≡ fill_up count result (n ∷ ns)
fill_up_more count result n ns h =
    let m : count - length result ≡ suc (count - length (result ++ (n ∷ []))) =
      ground (arith, length-append result (n ∷ [])) in
    append_assoc result (n ∷ []) (take (count - length (result ++ (n ∷ []))) ns)
    ∙ ap (λ (k : ℕ). result ++ take k (n ∷ ns)) (sym m)

collect_from-fill_up :
    (count : ℕ) (result ns : List Node) → collect_from count result ns ≡ fill_up count result ns
unfolding collect_from
collect_from-fill_up count result [] =
    sym (ap (λ (l : List Node). result ++ l) (take_nil (count - length result)) ∙ append-nil result)
collect_from-fill_up count result (n ∷ ns) =
    if_cases result (collect_from count (result ++ (n ∷ [])) ns)
      (λ (l : List Node). l ≡ fill_up count result (n ∷ ns)) (leb count (length result))
      (λ e. sym (fill_up_full count result (n ∷ ns) (leb→le count (length result) e)))
      (λ e. collect_from-fill_up count (result ++ (n ∷ [])) ns ∙ fill_up_more count result n ns e)

fill_up_append :
    (count : ℕ) (result xs ys : List Node)
    → fill_up count (fill_up count result xs) ys ≡ fill_up count result (xs ++ ys)
fill_up_append count result xs ys =
    let k = count - length result in
    let e : count - length (result ++ take k xs) ≡ k - length (take k xs) =
      omega (arith, length-append result (take k xs)) in
    ap (λ (j : ℕ). (result ++ take k xs) ++ take j ys) e
    ∙ append_assoc result (take k xs) (take (k - length (take k xs)) ys)
    ∙ ap (λ (l : List Node). result ++ l) (take_append k xs ys)

collect-fill_up :
    (count : ℕ) (result : List Node) (bs : List (List Node))
    → collect count result bs ≡ fill_up count result (flatten bs)
unfolding collect flatten
collect-fill_up count result [] =
    sym (ap (λ (l : List Node). result ++ l) (take_nil (count - length result)) ∙ append-nil result)
collect-fill_up count result (b ∷ bs) =
    if_cases (collect count (collect_from count result b) bs) result
      (λ (l : List Node). l ≡ fill_up count result (b ++ flatten bs)) (ltb (length result) count)
      (λ e.
        collect-fill_up count (collect_from count result b) bs
        ∙ ap (λ (l : List Node). fill_up count l (flatten bs)) (collect_from-fill_up count result b)
        ∙ fill_up_append count result b (flatten bs))
      (λ e. sym (fill_up_full count result (b ++ flatten bs) (ltb→le (length result) count e)))

-- All nodes, in the order of the walk: from the start bucket up, and then below it down.
abbrev pub walk_from : ℕ → List (List Node) → List Node
walk_from d bs = flatten (drop d bs) ++ flatten (reverse (take d bs))

visit-take :
    (t : Table) (target : List ℕ) (count : ℕ)
    → visit t target count ≡ take count (walk_from (start_bucket t target) t.buckets)
unfolding visit
visit-take t target count =
    let d = start_bucket t target in
    let up = drop d t.buckets in
    let down = reverse (take d t.buckets) in
    let e : count - 0 ≡ count = omega arith in
    collect-fill_up count (collect count [] up) down
    ∙ ap (λ (l : List Node). fill_up count l (flatten down)) (collect-fill_up count [] up)
    ∙ fill_up_append count [] (flatten up) (flatten down)
    ∙ ap (λ (k : ℕ). take k (flatten up ++ flatten down)) e

length-insert_by_distance :
    (target : List ℕ) (n : Node) (ns : List Node)
    → length (insert_by_distance target n ns) ≡ suc (length ns)
unfolding insert_by_distance
length-insert_by_distance target n [] = refl
length-insert_by_distance target n (m ∷ ns) =
    if_cases (n ∷ (m ∷ ns)) (m ∷ insert_by_distance target n ns)
      (λ (l : List Node). length l ≡ suc (suc (length ns))) (is_nearer target n m) (λ e. refl)
      (λ e. ap suc (length-insert_by_distance target n ns))

length-sort_by_distance :
    (target : List ℕ) (ns : List Node) → length (sort_by_distance target ns) ≡ length ns
unfolding sort_by_distance
length-sort_by_distance target [] = refl
length-sort_by_distance target (n ∷ ns) =
    length-insert_by_distance target n (sort_by_distance target ns)
    ∙ ap suc (length-sort_by_distance target ns)

-- For any table, target and count: the answer is the first `count` nodes of the walk through the buckets, sorted by their
-- distance to the target.
pub closest-walk :
    (t : Table) (target : List ℕ) (count : ℕ)
    → closest t target count
      ≡ sort_by_distance target (take count (walk_from (start_bucket t target) t.buckets))
unfolding closest
closest-walk t target count =
    let found = visit t target count in
    let sorted = sort_by_distance target found in
    let few : length found ≤ count =
      rw (visit-take t target count)
        (length-take-le count (walk_from (start_bucket t target) t.buckets)) in
    let short : ltb count (length sorted) ≡ false =
      ground (arith, length-sort_by_distance target found, few) in
    if-false (take count sorted) sorted (ltb count (length sorted)) short
    ∙ ap (sort_by_distance target) (visit-take t target count)

drop-IsBucket : (d : ℕ) (bs : List (List Node)) → All IsBucket bs → All IsBucket (drop d bs)
drop-IsBucket zero bs h = h
drop-IsBucket (suc d) [] h = h
drop-IsBucket (suc d) (b ∷ bs) h = drop-IsBucket d bs h.1

-- Of a table that satisfies its invariant, for any target and count: the answer is the first `count` nodes, sorted by
-- their distance to the target, of all nodes in this order: first those of the bucket at which the search starts, in
-- strictly ascending order of their identifiers, then those of the buckets above it upward, then those of the
-- buckets below it downward. So of a start bucket with at least `count` nodes, the lowest identifiers are answered.
pub closest-first :
    (t : Table) (target : List ℕ) (count : ℕ) (b : List Node) (bs : List (List Node))
    → IsTable t
    → drop (start_bucket t target) t.buckets ≡ b ∷ bs
    → (closest t target count
        ≡ sort_by_distance target (
            take count
              (b ++ (flatten bs ++ flatten (reverse (take (start_bucket t target) t.buckets))))))
      × IsSorted b
unfolding flatten
closest-first t target count b bs w e =
    let d = start_bucket t target in
    let below = flatten (reverse (take d t.buckets)) in
    let buckets : All IsBucket (b ∷ bs) =
      subst (All IsBucket) e (drop-IsBucket d t.buckets w.ordered) in
    (
      closest-walk t target count
          ∙ ap
              (λ (up : List (List Node)).
                sort_by_distance target (take count (flatten up ++ below)))
              e
          ∙ ap (λ (ns : List Node). sort_by_distance target (take count ns))
              (append_assoc b (flatten bs) below),
      buckets.0.sorted,
    )
