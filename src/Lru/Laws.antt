-- ===== src/Lru/Laws.antt =====
-- About `put` and `gc` of lru_cache.hpp.
use hyperdht_cpp.Prelude.{
  ℕ, ◌+◌, ◌-◌, ◌≡◌, ◌≤◌, ◌<◌, refl, ap, sym, subst, ◌∙◌, Bool, true, false, Option, none, some,
  is_some, List, [], ◌∷◌, if◌then◌else◌, leb, length, length-take-le, arith, Bool-cases, inl, inr,
  if_cases,
}
use hyperdht_cpp.Lru.{Entry, find, without, evict, put_found, put, get, expired, gc}

module _ {K V : Type 0} (same : K → K → Bool) where
  found_pos : (es : List (Entry K V)) (k : K) → is_some (find same es k) ≡ true → 0 < length es
  found_pos [] k h = absurd (cc h)
  found_pos (e ∷ es) k h = omega arith

  length-without :
      (es : List (Entry K V)) (k : K)
      → length (without same es k) ≡ (if is_some (find same es k) then length es - 1 else length es)
  length-without [] k = refl
  length-without (e ∷ es) k = elim (Bool-cases (same e.key k)) [
    | inl q ↦ rw q (omega arith)
    | inr q ↦ rw q (ground (arith, length-without es k, found_pos es k))
  ]

  find-same :
      (es : List (Entry K V)) (k : K) (e : Entry K V)
      → find same es k ≡ some e
      → same e.key k ≡ true
  find-same [] k e h = absurd (cc h)
  find-same (d ∷ es) k e h = elim (Bool-cases (same d.key k)) [
    | inl q ↦
        let first : ◌≡◌ {A = Option (Entry K V)} (some d) (some e) = (rw q at h) in
        ap (λ (o : Option (Entry K V)). same (elim o [ none ↦ d.key | some c ↦ c.key ]) k)
          (sym first)
        ∙ q
    | inr q ↦ find-same es k e (rw q at h)
  ]

  evict_bound : (max : ℕ) (es : List (Entry K V)) → 0 < max → length (evict same max es) + 1 ≤ max
  evict_bound max es h =
      if_cases _ _ (λ (r : List (Entry K V)). length r + 1 ≤ max) (leb max (length es))
        (λ _. omega (arith, length-take-le (max - 1) es)) (λ room. ground (arith, room))

  put_found_lem :
      (o : Option (Entry K V)) (max : ℕ) (es : List (Entry K V)) (k : K) (v : V) (now : ℕ)
      → find same es k ≡ o
      → same k k ≡ true
      → 0 < max
      → length es ≤ max
      → (length (put_found same o max es k v now) ≤ max)
        × ((get same (put_found same o max es k v now) k).0 ≡ some v)
  unfolding get
  put_found_lem none max es k v now f r h b = (omega (arith, evict_bound max es h), rw r refl)
  put_found_lem (some e) max es k v now f r h b =
      let known : is_some (find same es k) ≡ true = ap is_some f in
      (ground (arith, length-without es k, found_pos es k, known, b), rw (find-same es k e f) refl)

  -- In a cache with room for an entry at least and none above its limit, a key that was put is found
  -- with the value that was put, and the limit holds again.
  pub put_lem :
      (max : ℕ) (es : List (Entry K V)) (k : K) (v : V) (now : ℕ)
      → same k k ≡ true
      → 0 < max
      → length es ≤ max
      → (length (put same max es k v now) ≤ max)
        × ((get same (put same max es k v now) k).0 ≡ some v)
  unfolding put
  put_lem max es k v now r h b = put_found_lem (find same es k) max es k v now refl r h b

  abbrev pub keep_unexpired : ℕ → ℕ → Option (Entry K V) → Option (Entry K V)
  keep_unexpired now max_age none = none
  keep_unexpired now max_age (some e) = if expired same now max_age e then none else some e

  -- No two entries have the same key.
  abbrev pub IsAbsent : K → List (Entry K V) → Type 0
  IsAbsent k [] = Unit
  IsAbsent k (e ∷ es) = (same e.key k ≡ false) × IsAbsent k es

  abbrev pub IsCache : List (Entry K V) → Type 0
  IsCache [] = Unit
  IsCache (e ∷ es) = IsAbsent e.key es × IsCache es

  find_absent : (k : K) (es : List (Entry K V)) → IsAbsent k es → find same es k ≡ none
  find_absent k [] h = refl
  find_absent k (e ∷ es) h = rw h.0 (find_absent k es h.1)

  gc-IsAbsent :
      (k : K) (es : List (Entry K V)) (now max_age : ℕ)
      → IsAbsent k es
      → IsAbsent k (gc same es now max_age)
  unfolding gc
  gc-IsAbsent k [] now max_age h = tt
  gc-IsAbsent k (e ∷ es) now max_age h =
      if_cases _ _ (λ (r : List (Entry K V)). IsAbsent k r) (expired same now max_age e)
        (λ _. gc-IsAbsent k es now max_age h.1) (λ _. (h.0, gc-IsAbsent k es now max_age h.1))

  -- If equal keys are one, then after `gc` exactly the entries that were not expired are found, wherever
  -- they stood in the list, and no two entries have the same key.
  pub gc-find :
      (es : List (Entry K V)) (now max_age : ℕ)
      → ((a b : K) → same a b ≡ true → a ≡ b)
      → IsCache es
      → IsCache (gc same es now max_age)
        × ((k : K)
            → find same (gc same es now max_age) k ≡ keep_unexpired now max_age (find same es k))
  unfolding gc
  gc-find [] now max_age sound c = (tt, λ k. refl)
  gc-find (e ∷ es) now max_age sound c =
      let rest = gc-find es now max_age sound c.1 in
      elim (Bool-cases (expired same now max_age e)) [
        | inl old ↦ rw old (
          rest.0,
          λ k. elim (Bool-cases (same e.key k)) [
            | inl q ↦
                let absent = subst (λ (j : K). IsAbsent j es) (sound e.key k q) c.0 in
                rw (q, old)
                  (find_absent k (gc same es now max_age) (gc-IsAbsent k es now max_age absent))
            | inr q ↦ rw q (rest.1 k)
          ],
        )
        | inr young ↦ rw young (
          (gc-IsAbsent e.key es now max_age c.0, rest.0),
          λ k. elim (Bool-cases (same e.key k)) [
            | inl q ↦ rw (q, young) refl
            | inr q ↦ rw q (rest.1 k)
          ],
        )
      ]
