-- ===== src/Nat/Hits.antt =====
-- The hits of the samples: `add_sample` of nat_sampler.cpp.
use hyperdht_cpp.Prelude.{
  ℕ, zero, suc, ◌+◌, ◌<◌, ◌≡◌, refl, ap, sym, ◌∙◌, true, false, ◌&&◌, Option, none, some, List, [],
  ◌∷◌, ◌++◌, if◌then◌else◌, leb, ◌==◌, length, get_or, set, arith, Bool-cases, inl, inr, if_cases,
}
use hyperdht_cpp.Routing.Id.{id_eq}
use hyperdht_cpp.Routing.Id.Metric.{id_eq_sound}
use hyperdht_cpp.Nat.{
  Sample, blank_sample, is_sample, hits_at, swap, bubble, bump, find_sample, after_first, add_found,
  add_sample,
}

abbrev pub hits_of : List ℕ → ℕ → Sample → ℕ
hits_of host port s = if is_sample host port s then s.hits else 0

-- All hits of an address.
abbrev pub tally : List ℕ → ℕ → List Sample → ℕ
tally host port [] = 0
tally host port (s ∷ ss) = hits_of host port s + tally host port ss

abbrev pub total : List Sample → ℕ
total [] = 0
total (s ∷ ss) = s.hits + total ss

swap-total : (ss : List Sample) (i : ℕ) → total (swap ss i) ≡ total ss
unfolding swap
swap-total [] i = refl
swap-total (a ∷ []) i = refl
swap-total (a ∷ (b ∷ ss)) zero = omega arith
swap-total (a ∷ (b ∷ ss)) (suc i) = omega (arith, swap-total (b ∷ ss) i)

swap-tally : (h : List ℕ) (p : ℕ) (ss : List Sample) (i : ℕ) → tally h p (swap ss i) ≡ tally h p ss
unfolding swap
swap-tally h p [] i = refl
swap-tally h p (a ∷ []) i = refl
swap-tally h p (a ∷ (b ∷ ss)) zero = omega arith
swap-tally h p (a ∷ (b ∷ ss)) (suc i) = omega (arith, swap-tally h p (b ∷ ss) i)

bubble-total : (i found : ℕ) (ss : List Sample) → total (bubble i found ss) ≡ total ss
unfolding bubble
bubble-total zero found ss = refl
bubble-total (suc i) found ss =
    if_cases _ _ (λ (r : List Sample). total r ≡ total ss) (leb (hits_at ss found) (hits_at ss i))
      (λ _. refl) (λ _. bubble-total i found (swap ss i) ∙ swap-total ss i)

bubble-tally :
    (h : List ℕ) (p i found : ℕ) (ss : List Sample) → tally h p (bubble i found ss) ≡ tally h p ss
unfolding bubble
bubble-tally h p zero found ss = refl
bubble-tally h p (suc i) found ss =
    if_cases _ _ (λ (r : List Sample). tally h p r ≡ tally h p ss)
      (leb (hits_at ss found) (hits_at ss i)) (λ _. refl)
      (λ _. bubble-tally h p i found (swap ss i) ∙ swap-tally h p ss i)

total-set :
    (ss : List Sample) (i : ℕ) (s : Sample)
    → i < length ss
    → total (set ss i s) + hits_at ss i ≡ total ss + s.hits
total-set [] i s h = elim h [ ]
total-set (r ∷ ss) zero s h = omega arith
total-set (r ∷ ss) (suc i) s h = omega (arith, total-set ss i s)

tally-set :
    (h : List ℕ) (p : ℕ) (ss : List Sample) (i : ℕ) (s : Sample)
    → i < length ss
    → tally h p (set ss i s) + hits_of h p (get_or ss i blank_sample) ≡ tally h p ss + hits_of h p s
tally-set h p [] i s l = elim l [ ]
tally-set h p (r ∷ ss) zero s l = omega arith
tally-set h p (r ∷ ss) (suc i) s l = omega (arith, tally-set h p ss i s)

total-append : (ss : List Sample) (s : Sample) → total (ss ++ (s ∷ [])) ≡ total ss + s.hits
total-append [] s = omega arith
total-append (r ∷ ss) s = omega (arith, total-append ss s)

tally-append :
    (h : List ℕ) (p : ℕ) (ss : List Sample) (s : Sample)
    → tally h p (ss ++ (s ∷ [])) ≡ tally h p ss + hits_of h p s
tally-append h p [] s = omega arith
tally-append h p (r ∷ ss) s = omega (arith, tally-append h p ss s)

-- The sample at a found index has the address.
abbrev IsFound : List ℕ → ℕ → List Sample → Option ℕ → Type 0
IsFound host port ss none = Unit
IsFound host port ss (some i) =
    (i < length ss) × (is_sample host port (get_or ss i blank_sample) ≡ true)

after_first-IsFound :
    (host : List ℕ) (port : ℕ) (s : Sample) (ss : List Sample) (o : Option ℕ)
    → IsFound host port ss o
    → IsFound host port (s ∷ ss) (after_first o)
after_first-IsFound host port s ss none f = tt
after_first-IsFound host port s ss (some i) f = (omega (arith, f.0), f.1)

find_sample-IsFound :
    (ss : List Sample) (host : List ℕ) (port : ℕ) → IsFound host port ss (find_sample ss host port)
unfolding find_sample
find_sample-IsFound [] host port = tt
find_sample-IsFound (s ∷ ss) host port =
    if_cases _ _ (IsFound host port (s ∷ ss)) (is_sample host port s) (λ e. (omega arith, e))
      (λ _.
        after_first-IsFound host port s ss (find_sample ss host port)
          (find_sample-IsFound ss host port))

abbrev new_sample : List ℕ → ℕ → Sample
new_sample host port = record { host = host; port = port; hits = 1 }

is_sample_same :
    (host : List ℕ) (port : ℕ) (s : Sample) (h : List ℕ) (p : ℕ)
    → is_sample host port s ≡ true
    → is_sample h p s ≡ is_sample h p (new_sample host port)
is_sample_same host port s h p e =
    let ports : s.port ≡ port = ground arith in
    let hosts : id_eq s.host host ≡ true = ground arith in
    ap (λ (k : List ℕ). id_eq k h && (s.port == p)) (id_eq_sound s.host host hosts)
    ∙ ap (λ (k : ℕ). id_eq host h && (k == p)) ports

hits_of_bumped :
    (host : List ℕ) (port : ℕ) (s : Sample) (h : List ℕ) (p : ℕ)
    → is_sample host port s ≡ true
    → hits_of h p (record s { hits = s.hits + 1 })
      ≡ hits_of h p s + hits_of h p (new_sample host port)
hits_of_bumped host port s h p e =
    let same = is_sample_same host port s h p e in
    elim (Bool-cases (is_sample h p s)) [
      | inl q ↦
          let new : is_sample h p (new_sample host port) ≡ true = sym same ∙ q in rw (q, new) refl
      | inr q ↦
          let new : is_sample h p (new_sample host port) ≡ false = sym same ∙ q in rw (q, new) refl
    ]

bump_lem :
    (i : ℕ) (ss : List Sample) (host : List ℕ) (port : ℕ) (h : List ℕ) (p : ℕ)
    → IsFound host port ss (some i)
    → (tally h p (bump i ss) ≡ tally h p ss + hits_of h p (new_sample host port))
      × (total (bump i ss) ≡ total ss + 1)
unfolding bump
bump_lem i ss host port h p f =
    let s = get_or ss i blank_sample in
    let t = record s { hits = s.hits + 1 } in
    (
      bubble-tally h p i i (set ss i t)
          ∙ omega (arith, tally-set h p ss i t f.0, hits_of_bumped host port s h p f.1),
      bubble-total i i (set ss i t) ∙ omega (arith, total-set ss i t f.0),
    )

add_found_lem :
    (o : Option ℕ) (ss : List Sample) (host : List ℕ) (port : ℕ) (h : List ℕ) (p : ℕ)
    → IsFound host port ss o
    → (tally h p (add_found o ss host port) ≡ tally h p ss + hits_of h p (new_sample host port))
      × (total (add_found o ss host port) ≡ total ss + 1)
add_found_lem none ss host port h p f =
    (tally-append h p ss (new_sample host port), total-append ss (new_sample host port))
add_found_lem (some i) ss host port h p f = bump_lem i ss host port h p f

-- A sample adds one hit to its own address, none to any other, and one to the sum of all.
pub add_sample_lem :
    (ss : List Sample) (host : List ℕ) (port : ℕ) (h : List ℕ) (p : ℕ)
    → (tally h p (add_sample ss host port)
        ≡ tally h p ss + (if id_eq host h && (port == p) then 1 else 0))
      × (total (add_sample ss host port) ≡ total ss + 1)
unfolding add_sample
add_sample_lem ss host port h p =
    add_found_lem (find_sample ss host port) ss host port h p (find_sample-IsFound ss host port)

-- A sample found third behind two others of as many hits is moved up by one place only, so that the
-- list is not in the order of its hits.
pub add_sample_third :
    (a b c : Sample) (ss : List Sample)
    → is_sample c.host c.port a ≡ false
    → is_sample c.host c.port b ≡ false
    → is_sample c.host c.port c ≡ true
    → a.hits ≡ c.hits
    → b.hits ≡ c.hits
    → add_sample (a ∷ (b ∷ (c ∷ ss))) c.host c.port
      ≡ (a ∷ (record c { hits = c.hits + 1 } ∷ (b ∷ ss)))
unfolding add_sample find_sample bump bubble swap
add_sample_third a b c ss pa pb pc ha hb =
    let first : leb (c.hits + 1) b.hits ≡ false = ground (arith, hb) in
    let second : leb b.hits a.hits ≡ true = ground (arith, ha, hb) in
    rw (pa, pb, pc, first, second) refl
