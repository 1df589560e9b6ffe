-- ===== src/Holepunch/Match/Laws.antt =====
-- What `match_address` of holepunch.cpp finds.
use hyperdht_cpp.Prelude.{
  ◌∙◌, ℕ, ◌≤◌, ◌<◌, ◌≡◌, refl, subst, sym, false, Option, none, some, List, [], ◌∷◌, All, ltb, ◌==◌,
  ==_iff, arith, if_cases, ◌⊎◌, inl, inr, ltb→lt, ltb→le,
}
use hyperdht_cpp.Compact.Address.{Address}
use hyperdht_cpp.Holepunch.Match.{improve, match_address, match_locals, match_remotes, shared}

shared_le : (as' xs : List ℕ) → shared as' xs ≤ 3
shared_le [] xs = omega arith
shared_le (a ∷ []) xs = omega arith
shared_le (a ∷ (b ∷ [])) xs = omega arith
shared_le (a ∷ (b ∷ (c ∷ as'))) [] = omega arith
shared_le (a ∷ (b ∷ (c ∷ as'))) (x ∷ []) = omega arith
shared_le (a ∷ (b ∷ (c ∷ as'))) (x ∷ (y ∷ [])) = omega arith
shared_le (a ∷ (b ∷ (c ∷ as'))) (x ∷ (y ∷ (z ∷ xs))) = ground arith

abbrev pub Some : (Address → Type 0) → List Address → Type 0
Some P [] = ⊥
Some P (a ∷ as') = P a ⊎ Some P as'

-- One host against all the remote addresses, from `best` on.
record IsFound (k : ℕ) (o : Option Address) (host : List ℕ) (rs : List Address) (n : ℕ)
    (found : Option Address) : Type 0 where
  grows : k ≤ n
  small : n ≤ 3
  over : All (λ r. shared host r.host ≤ n) rs
  origin :
      ((n ≡ k) × (found ≡ o))
      ⊎ ((k < n) × Some (λ r. (found ≡ some r) × (shared host r.host ≡ n)) rs)

abbrev Finds : ℕ × Option Address → List ℕ → List Address → ℕ × Option Address → Type 0
Finds best host rs result = IsFound best.0 best.1 host rs result.0 result.1

three_above : (host : List ℕ) (rs : List Address) → All (λ r. shared host r.host ≤ 3) rs
three_above host [] = tt
three_above host (r ∷ rs) = (shared_le host r.host, three_above host rs)

below_three : (n : ℕ) → (n == 3) ≡ false → n ≤ 3 → n < 3
below_three n e h = ground arith

match_remotes_lem :
    (host : List ℕ) (rs : List Address) (best : ℕ × Option Address)
    → best.0 < 3
    → Finds best host rs (match_remotes host rs best)
match_remotes_lem host [] best h = record {
  grows = omega arith;
  small = omega arith;
  over = tt;
  origin = inl (refl, refl);
}
match_remotes_lem host (r ∷ rs) best h =
    let s = shared host r.host in
    if_cases (3, some r) (match_remotes host rs (improve s r best)) (Finds best host (r ∷ rs))
      (s == 3)
      (λ e. record {
        grows = omega arith;
        small = omega arith;
        over = (shared_le host r.host, three_above host rs);
        origin = inr (h, inl (refl, (==_iff s 3).0 e));
      })
      (λ e.
        if_cases (s, some r) best
          (λ (b : ℕ × Option Address). Finds best host (r ∷ rs) (match_remotes host rs b))
          (ltb best.0 s)
          (λ l.
            let f =
              match_remotes_lem host rs (s, some r) (below_three s e (shared_le host r.host)) in
            let k : best.0 < s = ltb→lt best.0 s l in
            let g : s ≤ (match_remotes host rs (s, some r)).0 = f.grows in
            record {
              grows = omega arith;
              small = f.small;
              over = (g, f.over);
              origin = elim f.origin [
                | inl x ↦ inr (omega arith, inl (x.1, sym x.0))
                | inr y ↦ inr (omega arith, inr y.1)
              ];
            })
          (λ l.
            let f = match_remotes_lem host rs best h in
            let k : s ≤ best.0 = ltb→le best.0 s l in
            let g : best.0 ≤ (match_remotes host rs best).0 = f.grows in
            record {
              grows = g;
              small = f.small;
              over = (omega arith, f.over);
              origin = elim f.origin [ inl x ↦ inl x | inr y ↦ inr (y.0, inr y.1) ];
            }))

-- All the local addresses, from `best` on.
abbrev pub AllShared : ℕ → List Address → List Address → Type 0
AllShared n ls rs = All (λ l. All (λ r. shared l.host r.host ≤ n) rs) ls

record IsBest (k : ℕ) (o : Option Address) (ls rs : List Address) (n : ℕ) (found : Option Address)
    : Type 0 where
  grows : k ≤ n
  over : AllShared n ls rs
  origin :
      ((n ≡ k) × (found ≡ o))
      ⊎ ((k < n) × Some (λ l. Some (λ r. (found ≡ some r) × (shared l.host r.host ≡ n)) rs) ls)

three_above_all : (ls rs : List Address) → AllShared 3 ls rs
three_above_all [] rs = tt
three_above_all (l ∷ ls) rs = (three_above l.host rs, three_above_all ls rs)

weaker :
    (host : List ℕ) (rs : List Address) (m n : ℕ)
    → m ≤ n
    → All (λ r. shared host r.host ≤ m) rs
    → All (λ r. shared host r.host ≤ n) rs
weaker host [] m n l h = tt
weaker host (r ∷ rs) m n l h =
    let k : shared host r.host ≤ m = h.0 in (omega arith, weaker host rs m n l h.1)

moved :
    {m n : ℕ} {o p : Option Address}
    → (host : List ℕ) (rs : List Address) → n ≡ m
    → p ≡ o
    → Some (λ r. (o ≡ some r) × (shared host r.host ≡ m)) rs
    → Some (λ r. (p ≡ some r) × (shared host r.host ≡ n)) rs
moved host [] e q h = h
moved host (r ∷ rs) e q (inl h) = inl (q ∙ h.0, h.1 ∙ sym e)
moved host (r ∷ rs) e q (inr h) = inr (moved host rs e q h)

match_locals_lem :
    (ls rs : List Address) (best : ℕ × Option Address)
    → best.0 < 3
    → IsBest best.0 best.1 ls rs (match_locals ls rs best).0 (match_locals ls rs best).1
match_locals_lem [] rs best h = record { grows = omega arith; over = tt; origin = inl (refl, refl) }
match_locals_lem (l ∷ ls) rs best h =
    let found = match_remotes l.host rs best in
    let f = match_remotes_lem l.host rs best h in
    if_cases found (match_locals ls rs found)
      (λ (x : ℕ × Option Address). IsBest best.0 best.1 (l ∷ ls) rs x.0 x.1) (found.0 == 3)
      (λ e. record {
        grows = f.grows;
        over = (
          f.over,
          subst (λ (n : ℕ). AllShared n ls rs) (sym ((==_iff found.0 3).0 e))
              (three_above_all ls rs),
        );
        origin = elim f.origin [ inl x ↦ inl x | inr y ↦ inr (y.0, inl y.1) ];
      })
      (λ e.
        let w = match_locals_lem ls rs found (below_three found.0 e f.small) in
        let g : best.0 ≤ found.0 = f.grows in
        let v : found.0 ≤ (match_locals ls rs found).0 = w.grows in
        record {
          grows = omega arith;
          over = (weaker l.host rs found.0 (match_locals ls rs found).0 v f.over, w.over);
          origin = elim w.origin [
            | inl x ↦ elim f.origin [
              | inl y ↦ inl (x.0 ∙ y.0, x.1 ∙ y.1)
              | inr y ↦ inr (omega (arith, x.0), inl (moved l.host rs x.0 x.1 y.1))
            ]
            | inr y ↦ inr (omega arith, inr y.1)
          ];
        })

-- The best match that there is: none if no two addresses share their first byte, and else a remote address that shares
-- with a local one as many of the first three bytes as any two of them share.
abbrev pub IsMatch : List Address → List Address → Option Address → Type 0
IsMatch ls rs o =
    ((o ≡ none) × AllShared 0 ls rs)
    ⊎ Some
        (λ l.
          Some
            (λ r.
              (o ≡ some r) × ((0 < shared l.host r.host) × AllShared (shared l.host r.host) ls rs))
            rs)
        ls

Some-map :
    (P Q : Address → Type 0) (as' : List Address)
    → ((a : Address) → P a → Q a)
    → Some P as'
    → Some Q as'
Some-map P Q [] f h = h
Some-map P Q (a ∷ as') f (inl h) = inl (f a h)
Some-map P Q (a ∷ as') f (inr h) = inr (Some-map P Q as' f h)

-- Of any local and remote addresses: `match_address` finds nothing if no two of them share their first byte, and else a
-- remote address that shares with a local one at least as many of the first three bytes as any two of them do.
pub match_address-IsMatch : (ls rs : List Address) → IsMatch ls rs (match_address ls rs)
unfolding match_address
match_address-IsMatch ls rs =
    let n = (match_locals ls rs (0, none)).0 in
    let o = (match_locals ls rs (0, none)).1 in
    let w = match_locals_lem ls rs (0, none) (omega arith) in
    elim w.origin [
      | inl x ↦ inl (x.1, subst (λ (m : ℕ). AllShared m ls rs) x.0 w.over)
      | inr y ↦ inr (
          Some-map (λ l. Some (λ r. (o ≡ some r) × (shared l.host r.host ≡ n)) rs)
            (λ l.
              Some
                (λ r.
                  (o ≡ some r)
                  × ((0 < shared l.host r.host) × AllShared (shared l.host r.host) ls rs))
                rs)
            ls
            (λ l h.
              Some-map (λ r. (o ≡ some r) × (shared l.host r.host ≡ n))
                (λ r.
                  (o ≡ some r)
                  × ((0 < shared l.host r.host) × AllShared (shared l.host r.host) ls rs))
                rs
                (λ r g.
                  let p : 0 < n = y.0 in
                  (
                    g.0,
                    (omega (arith, g.1), subst (λ (m : ℕ). AllShared m ls rs) (sym g.1) w.over),
                  ))
                h)
            y.1)
    ]
