-- ===== src/Query/Closest.antt =====
-- `Query::push_closest` of query.cpp against an insertion from the front.
use Prim.Native.Nat.{Ordering}
use hyperdht_cpp.Prelude.{
  ℕ, zero, suc, ◌-◌, ◌≡◌, ◌≤◌, refl, ap, sym, ◌∙◌, List, [], ◌∷◌, ltb, length, take, length-take-le,
  All, arith, subst, ltb→lt, ltb→le, if_cases,
}
use hyperdht_cpp.Routing.Id.{compare_distance}
use hyperdht_cpp.Routing.Id.Metric.{
  flip, compare_distance-flip, compare_distance_trans, compare_distance_trans_eq,
}
use hyperdht_cpp.Routing.Bucket.{bucket_size}
use hyperdht_cpp.Query.{
  QueryReply, Placed, moving, settled, duplicate, place_before, place_step, place, trim, pushed,
  push_closest,
}

module _ (target : List ℕ) where
  abbrev pub order : QueryReply → QueryReply → Ordering
  order c d = compare_distance target c.from_id d.from_id

  -- Nearer to the target than every reply of the list.
  abbrev pub IsBefore : QueryReply → List QueryReply → Type 0
  IsBefore c cs = All (λ d. order c d ≡ Ordering.lt) cs

  abbrev pub IsAscending : List QueryReply → Type 0
  IsAscending [] = Unit
  IsAscending (c ∷ cs) = IsBefore c cs × IsAscending cs

  abbrev pub IsReply : QueryReply → Type 0
  IsReply c = length c.from_id ≡ length target

  abbrev pub insert_at_front :
      Ordering → QueryReply → List QueryReply → List QueryReply → QueryReply → List QueryReply
  insert_at_front Ordering.lt c cs rest r = c ∷ rest
  insert_at_front Ordering.eq c cs rest r = c ∷ cs
  insert_at_front Ordering.gt c cs rest r = r ∷ (c ∷ cs)

  -- The reply in front of the first that is farther, unless one of its identifier is met before.
  unfoldable pub insert_nearest : List QueryReply → QueryReply → List QueryReply
  insert_nearest [] r = r ∷ []
  insert_nearest (c ∷ cs) r = insert_at_front (order c r) c cs (insert_nearest cs r) r

  abbrev IsFarther : QueryReply → List QueryReply → Type 0
  IsFarther r cs = All (λ c. order c r ≡ Ordering.gt) cs

  -- Whatever is before the whole list is before the reply.
  abbrev Precedes : List QueryReply → QueryReply → Type 0
  Precedes cs r = (x : QueryReply) → IsReply x → IsBefore x cs → order x r ≡ Ordering.lt

  abbrev Agrees : Placed → List QueryReply → QueryReply → Type 0
  Agrees moving cs r = IsFarther r cs
  Agrees (settled l) cs r = (l ≡ insert_nearest cs r) × Precedes cs r
  Agrees duplicate cs r = (insert_nearest cs r ≡ cs) × Precedes cs r

  insert_farther :
      (cs : List QueryReply) (r : QueryReply) → IsFarther r cs → insert_nearest cs r ≡ r ∷ cs
  unfolding insert_nearest
  insert_farther [] r h = refl
  insert_farther (c ∷ cs) r h = ap (λ o. insert_at_front o c cs (insert_nearest cs r) r) h.0

  insert_behind :
      (c : QueryReply) (cs : List QueryReply) (r : QueryReply) (o : Ordering)
      → order c r ≡ o
      → insert_nearest (c ∷ cs) r ≡ insert_at_front o c cs (insert_nearest cs r) r
  unfolding insert_nearest
  insert_behind c cs r o e = ap (λ (p : Ordering). insert_at_front p c cs (insert_nearest cs r) r) e

  place_before-Agrees :
      (o : Ordering) (c : QueryReply) (cs : List QueryReply) (r : QueryReply)
      → IsReply c
      → IsReply r
      → order c r ≡ o
      → IsFarther r cs
      → Agrees (place_before o c cs r) (c ∷ cs) r
  place_before-Agrees Ordering.lt c cs r v w e f = (
    sym (insert_behind c cs r Ordering.lt e ∙ ap (◌∷◌ c) (insert_farther cs r f)),
    λ x u b. compare_distance_trans target x.from_id c.from_id r.from_id u v w b.0 e,
  )
  place_before-Agrees Ordering.eq c cs r v w e f = (
    insert_behind c cs r Ordering.eq e,
    λ x u b. compare_distance_trans_eq target x.from_id c.from_id r.from_id u v w b.0 e,
  )
  place_before-Agrees Ordering.gt c cs r v w e f = (e, f)

  place_step-Agrees :
      (p : Placed) (c : QueryReply) (cs : List QueryReply) (r : QueryReply)
      → IsReply c
      → IsReply r
      → IsBefore c cs
      → Agrees p cs r
      → Agrees (place_step target p c cs r) (c ∷ cs) r
  place_step-Agrees moving c cs r v w b a = place_before-Agrees (order c r) c cs r v w refl a
  place_step-Agrees (settled l) c cs r v w b a =
      (ap (◌∷◌ c) a.0 ∙ sym (insert_behind c cs r Ordering.lt (a.1 c v b)), λ x u g. a.1 x u g.1)
  place_step-Agrees duplicate c cs r v w b a =
      (insert_behind c cs r Ordering.lt (a.1 c v b) ∙ ap (◌∷◌ c) a.0, λ x u g. a.1 x u g.1)

  place-Agrees :
      (cs : List QueryReply) (r : QueryReply)
      → IsAscending cs
      → All IsReply cs
      → IsReply r
      → Agrees (place target cs r) cs r
  unfolding place
  place-Agrees [] r s v w = tt
  place-Agrees (c ∷ cs) r s v w =
      place_step-Agrees (place target cs r) c cs r v.0 w s.0 (place-Agrees cs r s.1 v.1 w)

  insert_at_front-All :
      (P : QueryReply → Type 0) (o : Ordering) (c : QueryReply) (cs rest : List QueryReply)
      (r : QueryReply)
      → All P (c ∷ cs)
      → All P rest
      → P r
      → All P (insert_at_front o c cs rest r)
  insert_at_front-All P Ordering.lt c cs rest r h k p = (h.0, k)
  insert_at_front-All P Ordering.eq c cs rest r h k p = h
  insert_at_front-All P Ordering.gt c cs rest r h k p = (p, h)

  insert_nearest-All :
      (P : QueryReply → Type 0) (cs : List QueryReply) (r : QueryReply)
      → All P cs
      → P r
      → All P (insert_nearest cs r)
  unfolding insert_nearest
  insert_nearest-All P [] r h p = (p, tt)
  insert_nearest-All P (c ∷ cs) r h p =
      insert_at_front-All P (order c r) c cs (insert_nearest cs r) r h
        (insert_nearest-All P cs r h.1 p) p

  IsBefore-trans :
      (r c : QueryReply) (cs : List QueryReply)
      → IsReply r
      → IsReply c
      → All IsReply cs
      → order r c ≡ Ordering.lt
      → IsBefore c cs
      → IsBefore r cs
  IsBefore-trans r c [] u v w e b = tt
  IsBefore-trans r c (d ∷ ds) u v w e b = (
    compare_distance_trans target r.from_id c.from_id d.from_id u v w.0 e b.0,
    IsBefore-trans r c ds u v w.1 e b.1,
  )

  order_flip : (c r : QueryReply) → order c r ≡ Ordering.gt → order r c ≡ Ordering.lt
  order_flip c r e = compare_distance-flip target c.from_id r.from_id ∙ ap flip e

  insert_at_front-IsAscending :
      (o : Ordering) (c : QueryReply) (cs rest : List QueryReply) (r : QueryReply)
      → order c r ≡ o
      → IsAscending (c ∷ cs)
      → All IsReply (c ∷ cs)
      → IsReply r
      → (order c r ≡ Ordering.lt → IsBefore c rest)
      → IsAscending rest
      → IsAscending (insert_at_front o c cs rest r)
  insert_at_front-IsAscending Ordering.lt c cs rest r e s v w b a = (b e, a)
  insert_at_front-IsAscending Ordering.eq c cs rest r e s v w b a = s
  insert_at_front-IsAscending Ordering.gt c cs rest r e s v w b a =
      ((order_flip c r e, IsBefore-trans r c cs w v.0 v.1 (order_flip c r e) s.0), s)

  insert_nearest-IsAscending :
      (cs : List QueryReply) (r : QueryReply)
      → IsAscending cs
      → All IsReply cs
      → IsReply r
      → IsAscending (insert_nearest cs r)
  unfolding insert_nearest
  insert_nearest-IsAscending [] r s v w = (tt, tt)
  insert_nearest-IsAscending (c ∷ cs) r s v w =
      insert_at_front-IsAscending (order c r) c cs (insert_nearest cs r) r refl s v w
        (λ e. insert_nearest-All (λ d. order c d ≡ Ordering.lt) cs r s.0 e)
        (insert_nearest-IsAscending cs r s.1 v.1 w)

  take-All : (P : QueryReply → Type 0) (n : ℕ) (cs : List QueryReply) → All P cs → All P (take n cs)
  take-All P zero cs h = tt
  take-All P (suc n) [] h = tt
  take-All P (suc n) (c ∷ cs) h = (h.0, take-All P n cs h.1)

  take-IsAscending : (n : ℕ) (cs : List QueryReply) → IsAscending cs → IsAscending (take n cs)
  take-IsAscending zero cs h = tt
  take-IsAscending (suc n) [] h = tt
  take-IsAscending (suc n) (c ∷ cs) h =
      (take-All (λ d. order c d ≡ Ordering.lt) n cs h.0, take-IsAscending n cs h.1)

  length-insert_at_front :
      (o : Ordering) (c : QueryReply) (cs rest : List QueryReply) (r : QueryReply)
      → length rest ≤ suc (length cs)
      → length (insert_at_front o c cs rest r) ≤ suc (length (c ∷ cs))
  length-insert_at_front Ordering.lt c cs rest r h = omega arith
  length-insert_at_front Ordering.eq c cs rest r h = omega arith
  length-insert_at_front Ordering.gt c cs rest r h = omega arith

  length-insert_nearest :
      (cs : List QueryReply) (r : QueryReply) → length (insert_nearest cs r) ≤ suc (length cs)
  unfolding insert_nearest
  length-insert_nearest [] r = omega arith
  length-insert_nearest (c ∷ cs) r =
      length-insert_at_front (order c r) c cs (insert_nearest cs r) r (length-insert_nearest cs r)

  take_all : (n : ℕ) (cs : List QueryReply) → length cs ≤ n → take n cs ≡ cs
  take_all zero [] h = refl
  take_all zero (c ∷ cs) h = absurd (omega arith)
  take_all (suc n) [] h = refl
  take_all (suc n) (c ∷ cs) h = ap (◌∷◌ c) (take_all n cs (omega arith))

  trim-take : (l : List QueryReply) → length l ≤ 21 → trim l ≡ take bucket_size l
  trim-take l h =
      if_cases _ _ (λ t. t ≡ take bucket_size l) (ltb bucket_size (length l))
        (λ e.
          let n : length l - 1 ≡ bucket_size = omega (arith, ltb→lt bucket_size (length l) e) in
          ap (λ (n : ℕ). take n l) n)
        (λ e. sym (take_all bucket_size l (ltb→le bucket_size (length l) e)))

  pushed-insert :
      (p : Placed) (cs : List QueryReply) (r : QueryReply)
      → Agrees p cs r
      → length cs ≤ bucket_size
      → pushed p cs r ≡ take bucket_size (insert_nearest cs r)
  pushed-insert moving cs r a h =
      trim-take (r ∷ cs) (omega arith) ∙ ap (take bucket_size) (sym (insert_farther cs r a))
  pushed-insert (settled l) cs r a h =
      trim-take l (omega (arith, ap length a.0, length-insert_nearest cs r))
      ∙ ap (take bucket_size) a.0
  pushed-insert duplicate cs r a h = sym (ap (take bucket_size) a.0 ∙ take_all bucket_size cs h)

  -- Sorted, of identifiers of the target's length, and no longer than a bucket.
  pub record IsClosest (cs : List QueryReply) : Type 0 where
    pub ascending : IsAscending cs
    pub lengths : All IsReply cs
    pub short : length cs ≤ bucket_size

  insert-IsClosest :
      (cs : List QueryReply) (r : QueryReply)
      → IsClosest cs
      → IsReply r
      → IsClosest (take bucket_size (insert_nearest cs r))
  insert-IsClosest cs r c w = record {
    ascending =
        take-IsAscending bucket_size (insert_nearest cs r)
          (insert_nearest-IsAscending cs r c.ascending c.lengths w);
    lengths =
        take-All IsReply bucket_size (insert_nearest cs r)
          (insert_nearest-All IsReply cs r c.lengths w);
    short = length-take-le bucket_size (insert_nearest cs r);
  }

  -- On closest replies that are sorted, of the target's length and at most 20, `push_closest` is the insertion of
  -- the reply in front of the first that is farther from the target, cut at 20, where a reply at the
  -- same distance as one that is there is left out; the outcome is again sorted, of the target's length and at most 20.
  pub push_closest-insert :
      (cs : List QueryReply) (r : QueryReply)
      → IsClosest cs
      → IsReply r
      → (push_closest target cs r ≡ take bucket_size (insert_nearest cs r))
        × IsClosest (push_closest target cs r)
  unfolding push_closest
  push_closest-insert cs r c w =
      let e : pushed (place target cs r) cs r ≡ take bucket_size (insert_nearest cs r) =
        pushed-insert (place target cs r) cs r (place-Agrees cs r c.ascending c.lengths w)
          c.short in
      (e, subst IsClosest (sym e) (insert-IsClosest cs r c w))
