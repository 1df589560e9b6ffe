-- ===== src/Routing/Table/Placed.antt =====
-- In which bucket of `RoutingTable` a node stands.
use hyperdht_cpp.Prelude.{
  ℕ, zero, suc, ◌+◌, ◌≡◌, subst, Bool, List, [], ◌∷◌, get_or, set, replicate, All, arith, if_cases,
}
use hyperdht_cpp.Routing.Id.{bucket_index}
use hyperdht_cpp.Routing.Bucket.{Node, insert_at, erase_at, has_id, is_full, find_index, matches_at}
use hyperdht_cpp.Routing.Bucket

-- Every node of a bucket has the index `i` with respect to `id`.
abbrev pub AreAt : List ℕ → ℕ → List Node → Type 0
AreAt id i b = All (λ n. bucket_index id n.id ≡ i) b

-- The buckets from index `k` on hold the nodes of their own index.
abbrev pub ArePlaced : List ℕ → ℕ → List (List Node) → Type 0
ArePlaced id k [] = Unit
ArePlaced id k (b ∷ bs) = AreAt id k b × ArePlaced id (suc k) bs

pub set-ArePlaced :
    (id : List ℕ) (bs : List (List Node)) (k i j : ℕ) (b : List Node)
    → j ≡ k + i
    → ArePlaced id k bs
    → AreAt id j b
    → ArePlaced id k (set bs i b)
set-ArePlaced id [] k i j b e p a = tt
set-ArePlaced id (c ∷ bs) k zero j b e p a =
    let same : j ≡ k = omega (arith, e) in (subst (λ m. AreAt id m b) same a, p.1)
set-ArePlaced id (c ∷ bs) k (suc i) j b e p a =
    (p.0, set-ArePlaced id bs (suc k) i j b (omega (arith, e)) p.1 a)

pub get-AreAt :
    (id : List ℕ) (bs : List (List Node)) (k i j : ℕ)
    → j ≡ k + i
    → ArePlaced id k bs
    → AreAt id j (get_or bs i [])
get-AreAt id [] k i j e p = tt
get-AreAt id (c ∷ bs) k zero j e p =
    let same : k ≡ j = omega (arith, e) in subst (λ m. AreAt id m c) same p.0
get-AreAt id (c ∷ bs) k (suc i) j e p = get-AreAt id bs (suc k) i j (omega (arith, e)) p.1

insert-AreAt :
    (id : List ℕ) (i at : ℕ) (n : Node) (b : List Node)
    → bucket_index id n.id ≡ i
    → AreAt id i b
    → AreAt id i (insert_at at n b)
unfolding insert_at
insert-AreAt id i zero n b h a = (h, a)
insert-AreAt id i (suc at) n [] h a = (h, a)
insert-AreAt id i (suc at) n (m ∷ b) h a = (a.0, insert-AreAt id i at n b h a.1)

erase-AreAt : (id : List ℕ) (i at : ℕ) (b : List Node) → AreAt id i b → AreAt id i (erase_at at b)
unfolding erase_at
erase-AreAt id i zero [] a = a
erase-AreAt id i (suc at) [] a = a
erase-AreAt id i zero (m ∷ b) a = a.1
erase-AreAt id i (suc at) (m ∷ b) a = (a.0, erase-AreAt id i at b a.1)

pub add-AreAt :
    (id : List ℕ) (i : ℕ) (n : Node) (b : List Node)
    → bucket_index id n.id ≡ i
    → AreAt id i b
    → AreAt id i (Bucket.add b n).0
unfolding Bucket.add
add-AreAt id i n b h a =
    if_cases _ _ (λ (r : List Node × Bool). AreAt id i r.0) (has_id b n.id) (λ _. a)
      (λ _.
        if_cases _ _ (λ (r : List Node × Bool). AreAt id i r.0) (is_full b) (λ _. a)
          (λ _. insert-AreAt id i (find_index b n.id) n b h a))

pub remove-AreAt :
    (id : List ℕ) (i : ℕ) (j : List ℕ) (b : List Node)
    → AreAt id i b
    → AreAt id i (Bucket.remove b j).0
unfolding Bucket.remove
remove-AreAt id i j b a =
    if_cases _ _ (λ (r : List Node × Bool). AreAt id i r.0) (matches_at b (find_index b j) j)
      (λ _. erase-AreAt id i (find_index b j) b a) (λ _. a)

pub replicate-ArePlaced : (id : List ℕ) (n k : ℕ) → ArePlaced id k (replicate n [])
replicate-ArePlaced id zero k = tt
replicate-ArePlaced id (suc n) k = (tt, replicate-ArePlaced id n (suc k))
