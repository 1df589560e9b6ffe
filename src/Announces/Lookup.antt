-- ===== src/Announces/Lookup.antt =====
-- About `AnnounceStore::put` and `get` of announce.cpp, and the searches of the map.
use hyperdht_cpp.Prelude.{
  ℕ, ◌≡◌, refl, ap, sym, subst, ◌∙◌, true, false, ◌&&◌, not, none, some, is_some, List, [], ◌∷◌,
  if◌then◌else◌, leb, length, Bool-cases, inl, inr, ◌⊎◌, ◌≤◌, ◌<◌, Bool, Option, false, arith,
  leb→le, if-true, if-false, if_cases,
}
use hyperdht_cpp.Routing.Id.{id_eq}
use hyperdht_cpp.Routing.Id.Metric.{id_eq_sound}
use hyperdht_cpp.Announces.{
  Entry, PeerAnnouncement, max_total_targets, find, write, erase, put_peer, peers_or_none, put, get,
}
use hyperdht_cpp.Announces.Placing.{IsPlaced, put_peer-IsPlaced}
use hyperdht_cpp.Announces.Expiry.{IsAbsent, IsMap, find_absent}

pub same_key : (a k j : List ℕ) → id_eq a k ≡ true → id_eq a j ≡ id_eq k j
same_key a k j q = ap (λ (i : List ℕ). id_eq i j) (id_eq_sound a k q)

pub other_key : (a k j : List ℕ) → id_eq a k ≡ false → id_eq a j ≡ true → id_eq k j ≡ false
other_key a k j q r = elim (Bool-cases (id_eq k j)) [
  | inl s ↦ absurd (cc (sym q ∙ ap (id_eq a) (id_eq_sound k j s) ∙ r))
  | inr s ↦ s
]

pub find-write :
    (es : List Entry) (k j : List ℕ) (ps : List PeerAnnouncement)
    → find (write es k ps) j ≡ (if id_eq k j then some ps else find es j)
find-write [] k j ps = refl
find-write (e ∷ es) k j ps = elim (Bool-cases (id_eq e.target k)) [
  | inl q ↦
      rw (q, same_key e.target k j q)
        (elim (Bool-cases (id_eq k j)) [ inl r ↦ rw r refl | inr r ↦ rw r refl ])
  | inr q ↦ rw q (elim (Bool-cases (id_eq e.target j)) [
    | inl r ↦ rw (r, other_key e.target k j q r) refl
    | inr r ↦ rw r (find-write es k j ps)
  ])
]

pub find-erase :
    (es : List Entry) (k j : List ℕ)
    → IsMap es
    → find (erase es k) j ≡ (if id_eq k j then none else find es j)
find-erase [] k j m = elim (Bool-cases (id_eq k j)) [ inl r ↦ rw r refl | inr r ↦ rw r refl ]
find-erase (e ∷ es) k j m = elim (Bool-cases (id_eq e.target k)) [
  | inl q ↦
      rw (q, same_key e.target k j q)
        (elim (Bool-cases (id_eq k j)) [
          | inl r ↦ rw r (
              find_absent j es
                (subst (λ i. IsAbsent i es) (id_eq_sound e.target k q ∙ id_eq_sound k j r) m.0))
          | inr r ↦ rw r refl
        ])
  | inr q ↦ rw q (elim (Bool-cases (id_eq e.target j)) [
    | inl r ↦ rw (r, other_key e.target k j q r) refl
    | inr r ↦ rw r (find-erase es k j m.1)
  ])
]

-- What a lookup of `j` answers behind `put es k ann`: `was` is what it answered before, and `seen` what it answers now.
abbrev pub IsPut :
    List Entry
    → List ℕ
    → List ℕ
    → PeerAnnouncement
    → List PeerAnnouncement
    → List PeerAnnouncement
    → Type 0
IsPut es k j ann was seen =
    ((id_eq k j ≡ false) × (seen ≡ was))
    ⊎ ((id_eq k j ≡ true)
        × (((max_total_targets ≤ length es) × (find es k ≡ none) × (seen ≡ []))
            ⊎ (((length es < max_total_targets) ⊎ (is_some (find es k) ≡ true))
                × IsPlaced was ann seen)))

none_of : (o : Option (List PeerAnnouncement)) → not (is_some o) ≡ true → o ≡ none
none_of none h = refl
none_of (some ps) h = absurd cc

refused : (a b : Bool) → (a && not b) ≡ false → (a ≡ false) ⊎ (b ≡ true)
refused true true h = inr refl
refused true false h = absurd cc
refused false b h = inl refl

both_of : (a b : Bool) → (a && b) ≡ true → (a ≡ true) × (b ≡ true)
both_of true b h = (refl, h)
both_of false b h = absurd cc

below_limit : (n : ℕ) → leb max_total_targets n ≡ false → n < max_total_targets
below_limit n h = ground arith

find_same : (es : List Entry) (k j : List ℕ) → id_eq k j ≡ true → find es j ≡ find es k
find_same es k j r = ap (find es) (sym (id_eq_sound k j r))

-- An announcement changes only its target's peers. It is dropped if 65536 targets are kept and its target is not
-- among them, which then has no peers. Else it overwrites the first announcement of its source, if there is one;
-- else it comes behind the others, if they are less than 20; else it overwrites the first of the oldest ones. All
-- others stay where they are.
pub put-get :
    (es : List Entry) (k j : List ℕ) (ann : PeerAnnouncement)
    → IsPut es k j ann (get es j) (get (put es k ann) j)
unfolding put get
put-get es k j ann =
    let peers = put_peer (peers_or_none (find es k)) ann in
    let full = leb max_total_targets (length es) in
    let Q =
      λ (x : List Entry). IsPut es k j ann (peers_or_none (find es j)) (peers_or_none (find x j)) in
    elim (Bool-cases (id_eq k j)) [
      | inl r ↦
          if_cases es (write es k peers) Q (full && not (is_some (find es k)))
            (λ e.
              let absent : find es k ≡ none = none_of (find es k) (both_of full _ e).1 in
              inr (
                r,
                inl (
                  leb→le max_total_targets (length es) (both_of full _ e).0,
                  absent,
                  ap peers_or_none (find_same es k j r ∙ absent),
                ),
              ))
            (λ e.
              let room : (length es < max_total_targets) ⊎ (is_some (find es k) ≡ true) =
                elim (refused full (is_some (find es k)) e) [
                  | inl f ↦ inl (below_limit (length es) f)
                  | inr h ↦ inr h
                ] in
              let now : find (write es k peers) j ≡ some peers =
                find-write es k j peers ∙ if-true _ _ (id_eq k j) r in
              inr (
                r,
                inr (
                  room,
                  subst
                      (λ (o : Option (List PeerAnnouncement)).
                        IsPlaced (peers_or_none (find es j)) ann (peers_or_none o))
                      (sym now)
                      (subst
                        (λ (o : Option (List PeerAnnouncement)).
                          IsPlaced (peers_or_none o) ann peers)
                        (sym (find_same es k j r))
                        (put_peer-IsPlaced (peers_or_none (find es k)) ann)),
                ),
              ))
      | inr r ↦
          if_cases es (write es k peers) Q (full && not (is_some (find es k))) (λ e. inl (r, refl))
            (λ e. inl (r, ap peers_or_none (find-write es k j peers ∙ if-false _ _ (id_eq k j) r)))
    ]
