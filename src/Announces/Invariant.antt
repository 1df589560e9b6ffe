-- ===== src/Announces/Invariant.antt =====
-- The bounds of the store of announce.cpp, and `AnnounceStore::put`.
use hyperdht_cpp.Prelude.{
  ℕ, suc, ◌+◌, ◌≤◌, ◌<◌, ◌≡◌, refl, ap, sym, ◌∙◌, false, ◌&&◌, not, Option, none, some, is_some,
  List, [], ◌∷◌, if◌then◌else◌, leb, ◌==◌, length, length-append, arith, Bool-cases, inl, inr,
  if_cases,
}
use hyperdht_cpp.Routing.Id.{id_eq}
use hyperdht_cpp.Routing.Id.Metric.{id_eq_sound, id_eq_refl}
use hyperdht_cpp.Announces.{
  Entry, PeerAnnouncement, max_total_targets, max_peers_per_target, find, write, same_source,
  replace, oldest_time, overwrite_time, overwrite_oldest, put_peer, peers_or_none, behind, placed,
  put,
}
use hyperdht_cpp.Announces.Expiry.{IsAbsent, IsMap}

abbrev HasLength : ℕ → Option (List PeerAnnouncement) → Type 0
HasLength n none = Unit
HasLength n (some qs) = length qs ≡ n

length-behind :
    (p : PeerAnnouncement) (n : ℕ) (o : Option (List PeerAnnouncement))
    → HasLength n o
    → HasLength (suc n) (behind p o)
length-behind p n none h = tt
length-behind p n (some qs) h = ap suc h

length-replace :
    (ps : List PeerAnnouncement) (ann : PeerAnnouncement) → HasLength (length ps) (replace ps ann)
unfolding replace
length-replace [] ann = tt
length-replace (p ∷ ps) ann = elim (Bool-cases (same_source p.source ann.source)) [
  | inl e ↦ rw e refl
  | inr e ↦ rw e (length-behind p (length ps) (replace ps ann) (length-replace ps ann))
]

length-overwrite_time :
    (t : ℕ) (ps : List PeerAnnouncement) (ann : PeerAnnouncement)
    → length (overwrite_time t ps ann) ≡ length ps
unfolding overwrite_time
length-overwrite_time t [] ann = refl
length-overwrite_time t (p ∷ ps) ann = elim (Bool-cases (p.created_at == t)) [
  | inl e ↦ rw e refl
  | inr e ↦ rw e (ap suc (length-overwrite_time t ps ann))
]

length-overwrite_oldest :
    (ps : List PeerAnnouncement) (ann : PeerAnnouncement)
    → length (overwrite_oldest ps ann) ≡ length ps
unfolding overwrite_oldest
length-overwrite_oldest [] ann = refl
length-overwrite_oldest (p ∷ ps) ann =
    length-overwrite_time (oldest_time p.created_at ps) (p ∷ ps) ann

replace_nil : (ann : PeerAnnouncement) → replace [] ann ≡ none
unfolding replace
replace_nil ann = refl

placed_bounds :
    (ps : List PeerAnnouncement) (ann : PeerAnnouncement) (o : Option (List PeerAnnouncement))
    → length ps ≤ max_peers_per_target
    → HasLength (length ps) o
    → replace ps ann ≡ o
    → (0 < length (placed o ps ann)) × (length (placed o ps ann) ≤ max_peers_per_target)
placed_bounds [] ann (some qs) h l e = absurd (cc (sym e ∙ replace_nil ann))
placed_bounds (p ∷ ps) ann (some qs) h l e = (omega (arith, l), omega (arith, l))
placed_bounds ps ann none h l e = elim (Bool-cases (leb max_peers_per_target (length ps))) [
  | inl full ↦
      let n = length-overwrite_oldest ps ann in
      let big : max_peers_per_target ≤ length ps = ground arith in
      rw full (omega (arith, n), omega (arith, n))
  | inr free ↦
      let n = length-append ps (ann ∷ []) in
      let small : length ps < max_peers_per_target = ground arith in
      rw free (omega (arith, n), omega (arith, n))
]

-- A target's peers after an announcement: at least one, and at most twenty as before.
put_peer_bounds :
    (ps : List PeerAnnouncement) (ann : PeerAnnouncement)
    → length ps ≤ max_peers_per_target
    → (0 < length (put_peer ps ann)) × (length (put_peer ps ann) ≤ max_peers_per_target)
unfolding put_peer
put_peer_bounds ps ann h = placed_bounds ps ann (replace ps ann) h (length-replace ps ann) refl

abbrev pub IsFilled : List Entry → Type 0
IsFilled [] = Unit
IsFilled (e ∷ es) = (0 < length e.peers) × (length e.peers ≤ max_peers_per_target) × IsFilled es

pub record IsStore (es : List Entry) : Type 0 where
  pub keys : IsMap es
  pub filled : IsFilled es
  pub bounded : length es ≤ max_total_targets

write-IsAbsent :
    (k j : List ℕ) (es : List Entry) (ps : List PeerAnnouncement)
    → id_eq j k ≡ false
    → IsAbsent k es
    → IsAbsent k (write es j ps)
write-IsAbsent k j [] ps h a = (h, tt)
write-IsAbsent k j (e ∷ es) ps h a = elim (Bool-cases (id_eq e.target j)) [
  | inl q ↦ rw q (a.0, a.1)
  | inr q ↦ rw q (a.0, write-IsAbsent k j es ps h a.1)
]

id_eq_flip : (a b : List ℕ) → id_eq a b ≡ false → id_eq b a ≡ false
id_eq_flip a b h = elim (Bool-cases (id_eq b a)) [
  | inl e ↦ absurd (cc (sym h ∙ ap (id_eq a) (id_eq_sound b a e) ∙ id_eq_refl a))
  | inr e ↦ e
]

pub write-IsMap :
    (es : List Entry) (k : List ℕ) (ps : List PeerAnnouncement) → IsMap es → IsMap (write es k ps)
write-IsMap [] k ps m = (tt, tt)
write-IsMap (e ∷ es) k ps m = elim (Bool-cases (id_eq e.target k)) [
  | inl q ↦ rw q m
  | inr q ↦
      rw q (write-IsAbsent e.target k es ps (id_eq_flip e.target k q) m.0, write-IsMap es k ps m.1)
]

pub write-IsFilled :
    (es : List Entry) (k : List ℕ) (ps : List PeerAnnouncement)
    → IsFilled es
    → 0 < length ps
    → length ps ≤ max_peers_per_target
    → IsFilled (write es k ps)
write-IsFilled [] k ps f lo hi = (lo, hi, tt)
write-IsFilled (e ∷ es) k ps f lo hi = elim (Bool-cases (id_eq e.target k)) [
  | inl q ↦ rw q (lo, hi, f.2)
  | inr q ↦ rw q (f.0, f.1, write-IsFilled es k ps f.2 lo hi)
]

pub length-write :
    (es : List Entry) (k : List ℕ) (ps : List PeerAnnouncement)
    → length (write es k ps) ≡ (if is_some (find es k) then length es else length es + 1)
length-write [] k ps = refl
length-write (e ∷ es) k ps = elim (Bool-cases (id_eq e.target k)) [
  | inl q ↦ rw q refl
  | inr q ↦ rw q (ground (arith, length-write es k ps))
]

pub find-IsFilled :
    (es : List Entry) (k : List ℕ)
    → IsFilled es
    → length (peers_or_none (find es k)) ≤ max_peers_per_target
find-IsFilled [] k f = omega arith
find-IsFilled (e ∷ es) k f = elim (Bool-cases (id_eq e.target k)) [
  | inl q ↦ rw q f.1
  | inr q ↦ rw q (find-IsFilled es k f.2)
]

-- An announcement keeps the bounds: at most 65536 targets, one entry for each, and at least one and
-- at most twenty peers under each.
pub put-IsStore :
    (es : List Entry) (k : List ℕ) (ann : PeerAnnouncement) → IsStore es → IsStore (put es k ann)
unfolding put
put-IsStore es k ann v =
    let b = put_peer_bounds (peers_or_none (find es k)) ann (find-IsFilled es k v.filled) in
    if_cases _ _ IsStore (leb max_total_targets (length es) && not (is_some (find es k))) (λ _. v)
      (λ room. record {
        keys = write-IsMap es k _ v.keys;
        filled = write-IsFilled es k _ v.filled b.0 b.1;
        bounded =
            ground (arith, length-write es k (put_peer (peers_or_none (find es k)) ann), v.bounded);
      })
