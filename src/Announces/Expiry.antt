-- ===== src/Announces/Expiry.antt =====
-- About `AnnounceStore::gc` of announce.cpp.
use hyperdht_cpp.Prelude.{
  ℕ, ◌≡◌, refl, ap, sym, subst, ◌∙◌, true, false, none, List, [], ◌∷◌, ◌==◌, length, arith,
  Bool-cases, inl, inr,
}
use hyperdht_cpp.Routing.Id.{id_eq}
use hyperdht_cpp.Routing.Id.Metric.{id_eq_sound}
use hyperdht_cpp.Announces.{Entry, PeerAnnouncement, find, gc, get, unexpired, peers_or_none}

-- No two entries of the map have the same key.
abbrev pub IsAbsent : List ℕ → List Entry → Type 0
IsAbsent k [] = Unit
IsAbsent k (e ∷ es) = (id_eq e.target k ≡ false) × IsAbsent k es

abbrev pub IsMap : List Entry → Type 0
IsMap [] = Unit
IsMap (e ∷ es) = IsAbsent e.target es × IsMap es

pub find_absent : (k : List ℕ) (es : List Entry) → IsAbsent k es → find es k ≡ none
find_absent k [] h = refl
find_absent k (e ∷ es) h = rw h.0 (find_absent k es h.1)

gc-IsAbsent : (k : List ℕ) (es : List Entry) (now : ℕ) → IsAbsent k es → IsAbsent k (gc es now)
unfolding gc
gc-IsAbsent k [] now h = tt
gc-IsAbsent k (e ∷ es) now h = elim (Bool-cases (length (unexpired now e.peers) == 0)) [
  | inl b ↦ rw b (gc-IsAbsent k es now h.1)
  | inr b ↦ rw b (h.0, gc-IsAbsent k es now h.1)
]

pub empty_of : (ps : List PeerAnnouncement) → (length ps == 0) ≡ true → ps ≡ []
empty_of [] h = refl
empty_of (p ∷ ps) h = absurd (ground arith)

gone :
    (e : Entry) (es : List Entry) (now : ℕ) (k : List ℕ)
    → IsMap (e ∷ es)
    → (length (unexpired now e.peers) == 0) ≡ true
    → id_eq e.target k ≡ true
    → peers_or_none (find (gc es now) k) ≡ unexpired now e.peers
gone e es now k m b q =
    let absent = subst (λ j. IsAbsent j es) (id_eq_sound e.target k q) m.0 in
    ap peers_or_none (find_absent k (gc es now) (gc-IsAbsent k es now absent))
    ∙ sym (empty_of (unexpired now e.peers) b)

-- After `gc`, a target has exactly those of its announcements that have not expired, in their
-- order, and the map still has one entry for a key.
pub gc-get :
    (es : List Entry) (now : ℕ)
    → IsMap es
    → IsMap (gc es now) × ((k : List ℕ) → get (gc es now) k ≡ unexpired now (get es k))
unfolding gc get
gc-get [] now m = (tt, λ k. refl)
gc-get (e ∷ es) now m =
    let rest = gc-get es now m.1 in
    elim (Bool-cases (length (unexpired now e.peers) == 0)) [
      | inl b ↦ rw b (
        rest.0,
        λ k. elim (Bool-cases (id_eq e.target k)) [
          | inl q ↦ rw q (gone e es now k m b q)
          | inr q ↦ rw q (rest.1 k)
        ],
      )
      | inr b ↦ rw b (
        (gc-IsAbsent e.target es now m.0, rest.0),
        λ k. elim (Bool-cases (id_eq e.target k)) [ inl q ↦ rw q refl | inr q ↦ rw q (rest.1 k) ],
      )
    ]
