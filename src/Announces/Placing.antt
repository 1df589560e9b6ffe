-- ===== src/Announces/Placing.antt =====
-- Where an announcement goes among the peers of its target, in `AnnounceStore::put` of announce.cpp.
use hyperdht_cpp.Prelude.{
  ℕ, ◌≤◌, ◌<◌, ◌≡◌, refl, ap, sym, true, false, Option, none, some, List, [], ◌∷◌, ◌++◌, leb, ltb,
  ◌==◌, ==_iff, length, All, arith, if_cases, ◌⊎◌, inl, inr, leb→le, ltb→lt, ltb→le,
}
use hyperdht_cpp.Announces.{
  PeerAnnouncement, max_peers_per_target, same_source, replace, behind, oldest_time, overwrite_time,
  overwrite_oldest, placed, put_peer,
}

-- `qs` is `ps` with one announcement, that satisfies `M`, overwritten by `ann`; those in front of it satisfy `P` and those
-- behind it `R`.
pub record IsSwapped (P M R : PeerAnnouncement → Type 0) (ps : List PeerAnnouncement)
    (ann : PeerAnnouncement) (qs : List PeerAnnouncement) : Type 0 where
  pub front : List PeerAnnouncement
  pub old : PeerAnnouncement
  pub back : List PeerAnnouncement
  pub given : ps ≡ front ++ (old ∷ back)
  pub written : qs ≡ front ++ (ann ∷ back)
  pub before : All P front
  pub met : M old
  pub after : All R back

abbrev pub IsSame : PeerAnnouncement → PeerAnnouncement → Type 0
IsSame ann p = same_source p.source ann.source ≡ true

abbrev pub IsOther : PeerAnnouncement → PeerAnnouncement → Type 0
IsOther ann p = same_source p.source ann.source ≡ false

-- The first announcement of the same source is overwritten.
abbrev pub IsRenewed : List PeerAnnouncement → PeerAnnouncement → List PeerAnnouncement → Type 0
IsRenewed ps ann qs = IsSwapped (IsOther ann) (IsSame ann) (λ p. Unit) ps ann qs

-- The first of the oldest announcements, of the time `t`, is overwritten.
abbrev pub IsEvictedAt :
    ℕ → List PeerAnnouncement → PeerAnnouncement → List PeerAnnouncement → Type 0
IsEvictedAt t ps ann qs =
    IsSwapped (λ p. t < p.created_at) (λ p. p.created_at ≡ t) (λ p. t ≤ p.created_at) ps ann qs

-- No announcement has the source: the new one is put at the end, or in place of the oldest if there are 20.
abbrev pub IsJoined : List PeerAnnouncement → PeerAnnouncement → List PeerAnnouncement → Type 0
IsJoined ps ann qs =
    ((length ps < max_peers_per_target) × (qs ≡ ps ++ (ann ∷ [])))
    ⊎ ((max_peers_per_target ≤ length ps) × ((t : ℕ) × IsEvictedAt t ps ann qs))

abbrev pub IsPlaced : List PeerAnnouncement → PeerAnnouncement → List PeerAnnouncement → Type 0
IsPlaced ps ann qs = IsRenewed ps ann qs ⊎ (All (IsOther ann) ps × IsJoined ps ann qs)

behind-IsSwapped :
    (P M R : PeerAnnouncement → Type 0) (p ann : PeerAnnouncement) (ps qs : List PeerAnnouncement)
    → P p
    → IsSwapped P M R ps ann qs
    → IsSwapped P M R (p ∷ ps) ann (p ∷ qs)
behind-IsSwapped P M R p ann ps qs h w = record {
  front = p ∷ w.front;
  old = w.old;
  back = w.back;
  given = ap (λ (l : List PeerAnnouncement). p ∷ l) w.given;
  written = ap (λ (l : List PeerAnnouncement). p ∷ l) w.written;
  before = (h, w.before);
  met = w.met;
  after = w.after;
}

-- What the loop of `replace` answers.
abbrev IsTried : List PeerAnnouncement → PeerAnnouncement → Option (List PeerAnnouncement) → Type 0
IsTried ps ann none = All (IsOther ann) ps
IsTried ps ann (some qs) = IsRenewed ps ann qs

rest_any : (ps : List PeerAnnouncement) → All (λ (p : PeerAnnouncement). Unit {0}) ps
rest_any [] = tt
rest_any (p ∷ ps) = (tt, rest_any ps)

behind-IsTried :
    (p ann : PeerAnnouncement) (ps : List PeerAnnouncement) (o : Option (List PeerAnnouncement))
    → IsOther ann p
    → IsTried ps ann o
    → IsTried (p ∷ ps) ann (behind p o)
behind-IsTried p ann ps none h w = (h, w)
behind-IsTried p ann ps (some qs) h w =
    behind-IsSwapped (IsOther ann) (IsSame ann) (λ p. Unit) p ann ps qs h w

replace-IsTried :
    (ps : List PeerAnnouncement) (ann : PeerAnnouncement) → IsTried ps ann (replace ps ann)
unfolding replace
replace-IsTried [] ann = tt
replace-IsTried (p ∷ ps) ann =
    if_cases (some (ann ∷ ps)) (behind p (replace ps ann)) (IsTried (p ∷ ps) ann)
      (same_source p.source ann.source)
      (λ e. record {
        front = [];
        old = p;
        back = ps;
        given = refl;
        written = refl;
        before = tt;
        met = e;
        after = rest_any ps;
      })
      (λ e. behind-IsTried p ann ps (replace ps ann) e (replace-IsTried ps ann))

-- A list with an announcement of the time `t`, and no older one.
abbrev IsReached : ℕ → List PeerAnnouncement → Type 0
IsReached t [] = ⊥
IsReached t (p ∷ ps) = (p.created_at ≡ t) ⊎ IsReached t ps

abbrev IsFrom : ℕ → List PeerAnnouncement → Type 0
IsFrom t ps = All (λ p. t ≤ p.created_at) ps

oldest_time_lem :
    (t : ℕ) (ps : List PeerAnnouncement)
    → (oldest_time t ps ≤ t)
      × IsFrom (oldest_time t ps) ps
      × ((oldest_time t ps ≡ t) ⊎ IsReached (oldest_time t ps) ps)
oldest_time_lem t [] = (omega arith, tt, inl refl)
oldest_time_lem t (p ∷ ps) =
    if_cases p.created_at t
      (λ (u : ℕ).
        (oldest_time u ps ≤ t)
        × (IsFrom (oldest_time u ps) (p ∷ ps))
        × ((oldest_time u ps ≡ t) ⊎ IsReached (oldest_time u ps) (p ∷ ps)))
      (ltb p.created_at t)
      (λ e.
        let k : p.created_at < t = ltb→lt p.created_at t e in
        let w = oldest_time_lem p.created_at ps in
        (
          omega (arith, w.0),
          (w.0, w.1),
          elim w.2 [ inl h ↦ inr (inl (sym h)) | inr h ↦ inr (inr h) ],
        ))
      (λ e.
        let k : t ≤ p.created_at = ltb→le p.created_at t e in
        let w = oldest_time_lem t ps in
        (w.0, (omega (arith, w.0), w.1), elim w.2 [ inl h ↦ inl h | inr h ↦ inr (inr h) ]))

overwrite_time-IsEvicted :
    (t : ℕ) (ps : List PeerAnnouncement) (ann : PeerAnnouncement)
    → IsFrom t ps
    → IsReached t ps
    → IsEvictedAt t ps ann (overwrite_time t ps ann)
unfolding overwrite_time
overwrite_time-IsEvicted t [] ann h r = elim r [ ]
overwrite_time-IsEvicted t (p ∷ ps) ann h r =
    if_cases (ann ∷ ps) (p ∷ overwrite_time t ps ann) (IsEvictedAt t (p ∷ ps) ann)
      (p.created_at == t)
      (λ e. record {
        front = [];
        old = p;
        back = ps;
        given = refl;
        written = refl;
        before = tt;
        met = (==_iff p.created_at t).0 e;
        after = h.1;
      })
      (λ e.
        let later : t < p.created_at = ground (arith, h.0) in
        let reached : IsReached t ps = elim r [
          | inl q ↦ absurd (omega (arith, later, q))
          | inr q ↦ q
        ] in
        behind-IsSwapped (λ p. t < p.created_at) (λ p. p.created_at ≡ t) (λ p. t ≤ p.created_at) p
          ann ps (overwrite_time t ps ann) later (overwrite_time-IsEvicted t ps ann h.1 reached))

overwrite_oldest-IsEvicted :
    (ps : List PeerAnnouncement) (ann : PeerAnnouncement)
    → 0 < length ps
    → (t : ℕ) × IsEvictedAt t ps ann (overwrite_oldest ps ann)
unfolding overwrite_oldest
overwrite_oldest-IsEvicted [] ann l = absurd (omega (arith, l))
overwrite_oldest-IsEvicted (p ∷ ps) ann l =
    let t = oldest_time p.created_at ps in
    let w = oldest_time_lem p.created_at ps in
    (
      t,
      overwrite_time-IsEvicted t (p ∷ ps) ann (w.0, w.1)
          (elim w.2 [ inl h ↦ inl (sym h) | inr h ↦ inr h ]),
    )

placed-IsPlaced :
    (ps : List PeerAnnouncement) (ann : PeerAnnouncement) (o : Option (List PeerAnnouncement))
    → IsTried ps ann o
    → IsPlaced ps ann (placed o ps ann)
placed-IsPlaced ps ann (some qs) w = inl w
placed-IsPlaced ps ann none w =
    if_cases (overwrite_oldest ps ann) (ps ++ (ann ∷ [])) (IsPlaced ps ann)
      (leb max_peers_per_target (length ps))
      (λ e.
        let full : max_peers_per_target ≤ length ps = leb→le max_peers_per_target (length ps) e in
        inr (w, inr (full, overwrite_oldest-IsEvicted ps ann (omega arith))))
      (λ e. let room : length ps < max_peers_per_target = ground arith in inr (w, inl (room, refl)))

pub put_peer-IsPlaced :
    (ps : List PeerAnnouncement) (ann : PeerAnnouncement) → IsPlaced ps ann (put_peer ps ann)
unfolding put_peer
put_peer-IsPlaced ps ann = placed-IsPlaced ps ann (replace ps ann) (replace-IsTried ps ann)
