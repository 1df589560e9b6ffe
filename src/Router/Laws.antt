-- ===== src/Router/Laws.antt =====
-- The table of `Router` of router.cpp.
use hyperdht_cpp.Prelude.{
  ℕ, ◌≡◌, refl, ap, sym, ◌∙◌, Bool, true, false, Option, none, some, List, [], ◌∷◌, if◌then◌else◌,
  if_cases,
}
use hyperdht_cpp.Routing.Id.{id_eq}
use hyperdht_cpp.Routing.Id.Metric.{id_eq_sound}
use hyperdht_cpp.Router.{Forward, ForwardEntry, get, set, remove}

module _ {A : Type 0} where
  overwritten :
      (c d : Bool) (x y z : A)
      → d ≡ c
      → (if d then x else z) ≡ (if c then x else (if d then y else z))
  overwritten true true x y z h = refl
  overwritten true false x y z h = cc
  overwritten false true x y z h = cc
  overwritten false false x y z h = refl

  passed :
      (c d : Bool) (x y z w : A)
      → (c ≡ true → d ≡ false)
      → w ≡ (if c then x else z)
      → (if d then y else w) ≡ (if c then x else (if d then y else z))
  passed true true x y z w h e = let k : true ≡ false = h refl in absurd cc
  passed true false x y z w h e = e
  passed false true x y z w h e = refl
  passed false false x y z w h e = e

dropped :
    (c d : Bool) (y z : Option ForwardEntry)
    → d ≡ c
    → (if c then none else z) ≡ (if c then none else (if d then y else z))
dropped true d y z h = refl
dropped false true y z h = cc
dropped false false y z h = refl

same_key : (t k q : List ℕ) → id_eq t k ≡ true → id_eq t q ≡ id_eq k q
same_key t k q h = ap (λ (x : List ℕ). id_eq x q) (id_eq_sound t k h)

other_key : (t k q : List ℕ) → id_eq t k ≡ false → id_eq k q ≡ true → id_eq t q ≡ false
other_key t k q h e = sym (ap (id_eq t) (id_eq_sound k q e)) ∙ h

get-set :
    (fs : List Forward) (k : List ℕ) (e : ForwardEntry) (q : List ℕ)
    → get (set fs k e) q ≡ (if id_eq k q then some e else get fs q)
get-set [] k e q = refl
get-set (f ∷ fs) k e q =
    let old = if id_eq f.target q then some f.entry else get fs q in
    if_cases _ _ (λ (x : List Forward). get x q ≡ (if id_eq k q then some e else old))
      (id_eq f.target k)
      (λ h.
        overwritten (id_eq k q) (id_eq f.target q) (some e) (some f.entry) (get fs q)
          (same_key f.target k q h))
      (λ h.
        passed (id_eq k q) (id_eq f.target q) (some e) (some f.entry) (get fs q)
          (get (set fs k e) q) (other_key f.target k q h) (get-set fs k e q))

get-remove :
    (fs : List Forward) (k q : List ℕ)
    → get (remove fs k) q ≡ (if id_eq k q then none else get fs q)
get-remove [] k q =
    if_cases _ _ (λ (x : Option ForwardEntry). none ≡ x) (id_eq k q) (λ h. refl) (λ h. refl)
get-remove (f ∷ fs) k q =
    let old = if id_eq f.target q then some f.entry else get fs q in
    if_cases _ _ (λ (x : List Forward). get x q ≡ (if id_eq k q then none else old))
      (id_eq f.target k)
      (λ h.
        get-remove fs k q
        ∙ dropped (id_eq k q) (id_eq f.target q) (some f.entry) (get fs q)
            (same_key f.target k q h))
      (λ h.
        passed (id_eq k q) (id_eq f.target q) none (some f.entry) (get fs q) (get (remove fs k) q)
          (other_key f.target k q h) (get-remove fs k q))

-- A look-up behind `set` finds the new entry under its target and the old ones under every other; behind `remove`
-- it finds nothing under the target and the old entries under every other.
pub forwards_lem :
    (fs : List Forward) (k : List ℕ) (e : ForwardEntry) (q : List ℕ)
    → (get (set fs k e) q ≡ (if id_eq k q then some e else get fs q))
      × (get (remove fs k) q ≡ (if id_eq k q then none else get fs q))
forwards_lem fs k e q = (get-set fs k e q, get-remove fs k q)
