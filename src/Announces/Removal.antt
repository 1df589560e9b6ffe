-- ===== src/Announces/Removal.antt =====
-- About `AnnounceStore::remove` of announce.cpp.
use hyperdht_cpp.Prelude.{
  ℕ, suc, ◌≤◌, ◌≡◌, refl, ap, sym, ◌∙◌, Bool, true, false, Option, none, some, is_some, List, [],
  ◌∷◌, if◌then◌else◌, ◌==◌, length, arith, Bool-cases, inl, inr, if_cases,
}
use hyperdht_cpp.Compact.Address.{Address}
use hyperdht_cpp.Routing.Id.{id_eq}
use hyperdht_cpp.Routing.Id.Metric.{id_eq_sound}
use hyperdht_cpp.Announces.{
  Entry, PeerAnnouncement, max_peers_per_target, find, write, erase, same_source, peers_or_none,
  without, remove_found, remove, get,
}
use hyperdht_cpp.Announces.Expiry.{empty_of, IsAbsent, IsMap}
use hyperdht_cpp.Announces.Invariant.{
  IsStore, IsFilled, write-IsMap, write-IsFilled, length-write, find-IsFilled,
}
use hyperdht_cpp.Announces.Lookup.{find-write, find-erase}

without_le : (ps : List PeerAnnouncement) (a : Address) → length (without ps a) ≤ length ps
without_le [] a = omega arith
without_le (p ∷ ps) a = elim (Bool-cases (same_source p.source a)) [
  | inl e ↦ rw e (omega (arith, without_le ps a))
  | inr e ↦ rw e (omega (arith, without_le ps a))
]

without_none :
    (ps : List PeerAnnouncement) (a : Address)
    → (length (without ps a) == length ps) ≡ true
    → without ps a ≡ ps
without_none [] a h = refl
without_none (p ∷ ps) a h = elim (Bool-cases (same_source p.source a)) [
  | inl e ↦
      let short : (length (without ps a) == suc (length ps)) ≡ true = (rw e at h) in
      absurd (ground (arith, without_le ps a, short))
  | inr e ↦
      let same : (suc (length (without ps a)) == suc (length ps)) ≡ true = (rw e at h) in
      rw e (ap (◌∷◌ p) (without_none ps a (ground (arith, same))))
]

erase-IsAbsent : (k j : List ℕ) (es : List Entry) → IsAbsent j es → IsAbsent j (erase es k)
erase-IsAbsent k j [] h = tt
erase-IsAbsent k j (e ∷ es) h = elim (Bool-cases (id_eq e.target k)) [
  | inl q ↦ rw q h.1
  | inr q ↦ rw q (h.0, erase-IsAbsent k j es h.1)
]

erase-IsStore :
    (es : List Entry) (k : List ℕ)
    → IsMap es
    → IsFilled es
    → IsMap (erase es k) × IsFilled (erase es k) × (length (erase es k) ≤ length es)
erase-IsStore [] k m f = (tt, tt, omega arith)
erase-IsStore (e ∷ es) k m f =
    let rest = erase-IsStore es k m.1 f.2 in
    elim (Bool-cases (id_eq e.target k)) [
      | inl q ↦ rw q (m.1, f.2, omega arith)
      | inr q ↦
          rw q
            ((erase-IsAbsent k e.target es m.0, rest.0), (f.0, f.1, rest.1), omega (arith, rest.2))
    ]

-- What `remove` promises of its result, for the peers that it finds.
abbrev Removed : List Entry → List ℕ → Address → List Entry × Bool → Type 0
Removed es k a r =
    IsStore r.0
    × ((j : List ℕ) → get r.0 j ≡ (if id_eq k j then without (get es j) a else get es j))

get_same : (es : List Entry) (k j : List ℕ) → id_eq k j ≡ true → get es j ≡ get es k
get_same es k j q = ap (get es) (sym (id_eq_sound k j q))

get_found :
    (es : List Entry) (k : List ℕ) (ps : List PeerAnnouncement)
    → find es k ≡ some ps
    → get es k ≡ ps
unfolding get
get_found es k ps w = ap peers_or_none w

get_missing : (es : List Entry) (k : List ℕ) → find es k ≡ none → get es k ≡ []
unfolding get
get_missing es k w = ap peers_or_none w

push_peers :
    (b : Bool) (x y : Option (List PeerAnnouncement))
    → peers_or_none (if b then x else y) ≡ (if b then peers_or_none x else peers_or_none y)
push_peers true x y = refl
push_peers false x y = refl

kept-Removed :
    (es : List Entry) (k : List ℕ) (a : Address)
    → IsStore es
    → without (get es k) a ≡ get es k
    → (b : Bool) → Removed es k a (es, b)
kept-Removed es k a v w b = (
  v,
  λ j. elim (Bool-cases (id_eq k j)) [
    | inl q ↦ rw q (sym (ap (λ ps. without ps a) (get_same es k j q) ∙ w ∙ sym (get_same es k j q)))
    | inr q ↦ rw q refl
  ],
)

get-erase :
    (es : List Entry) (k j : List ℕ)
    → IsMap es
    → get (erase es k) j ≡ (if id_eq k j then [] else get es j)
unfolding get
get-erase es k j m = rw (find-erase es k j m) (push_peers (id_eq k j) none (find es j))

get-write :
    (es : List Entry) (k j : List ℕ) (ps : List PeerAnnouncement)
    → get (write es k ps) j ≡ (if id_eq k j then ps else get es j)
unfolding get
get-write es k j ps = rw (find-write es k j ps) (push_peers (id_eq k j) (some ps) (find es j))

-- Two results that agree on the target's peers agree everywhere.
at_target :
    (es : List Entry) (k j : List ℕ) (a : Address) (ps : List PeerAnnouncement)
    → without (get es k) a ≡ ps
    → (if id_eq k j then ps else get es j) ≡ (if id_eq k j then without (get es j) a else get es j)
at_target es k j a ps w = elim (Bool-cases (id_eq k j)) [
  | inl q ↦ rw q (sym w ∙ ap (λ qs. without qs a) (sym (get_same es k j q)))
  | inr q ↦ rw q refl
]

erased-Removed :
    (es : List Entry) (k : List ℕ) (a : Address)
    → IsStore es
    → without (get es k) a ≡ []
    → Removed es k a (erase es k, true)
erased-Removed es k a v w =
    let parts = erase-IsStore es k v.keys v.filled in
    (
      record { keys = parts.0; filled = parts.1; bounded = omega (arith, parts.2, v.bounded) },
      λ j. get-erase es k j v.keys ∙ at_target es k j a [] w,
    )

written-Removed :
    (es : List Entry) (k : List ℕ) (a : Address) (ps : List PeerAnnouncement)
    → IsStore es
    → find es k ≡ some ps
    → (length (without ps a) == 0) ≡ false
    → Removed es k a (write es k (without ps a), true)
written-Removed es k a ps v w n =
    let few : length (peers_or_none (find es k)) ≤ max_peers_per_target =
      find-IsFilled es k v.filled in
    let listed : length (peers_or_none (find es k)) ≡ length ps =
      ap (λ (o : Option (List PeerAnnouncement)). length (peers_or_none o)) w in
    let known : is_some (find es k) ≡ true = ap is_some w in
    (
      record {
        keys = write-IsMap es k _ v.keys;
        filled =
            write-IsFilled es k (without ps a) v.filled (ground (arith, n))
              (omega (arith, without_le ps a, few, listed));
        bounded = ground (arith, length-write es k (without ps a), v.bounded, known);
      },
      λ j.
          get-write es k j (without ps a)
          ∙ at_target es k j a (without ps a) (ap (λ qs. without qs a) (get_found es k ps w)),
    )

Removed-found :
    (es : List Entry) (k : List ℕ) (a : Address) (o : Option (List PeerAnnouncement))
    → IsStore es
    → find es k ≡ o
    → Removed es k a (remove_found o es k a)
Removed-found es k a none v w =
    kept-Removed es k a v (ap (λ qs. without qs a) (get_missing es k w) ∙ sym (get_missing es k w))
      false
Removed-found es k a (some ps) v w =
    let here = get_found es k ps w in
    if_cases _ _ (Removed es k a) (length (without ps a) == length ps)
      (λ same.
        kept-Removed es k a v (ap (λ qs. without qs a) here ∙ without_none ps a same ∙ sym here)
          false)
      (λ _.
        if_cases _ _ (Removed es k a) (length (without ps a) == 0)
          (λ all.
            erased-Removed es k a v (ap (λ qs. without qs a) here ∙ empty_of (without ps a) all))
          (written-Removed es k a ps v w))

-- Removing takes out exactly the target's announcements from the source, keeps all others in their
-- order, and keeps the bounds of the store.
pub remove-get :
    (es : List Entry) (k : List ℕ) (a : Address)
    → IsStore es
    → IsStore (remove es k a).0
      × ((j : List ℕ)
          → get (remove es k a).0 j ≡ (if id_eq k j then without (get es j) a else get es j))
unfolding remove
remove-get es k a v = Removed-found es k a (find es k) v refl
