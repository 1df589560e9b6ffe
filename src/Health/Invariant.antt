-- ===== src/Health/Invariant.antt =====
-- The window of `HealthMonitor` in health.cpp and its two counts.
use hyperdht_cpp.Prelude.{
  ℕ, zero, suc, ◌+◌, ◌≤◌, ◌<◌, ◌≡◌, refl, ap, ◌∙◌, Bool, true, false, ◌||◌, Option, none, some,
  List, [], ◌∷◌, ◌==◌, length, get_or, set, arith, Bool-cases, inl, inr, if_cases,
}
use hyperdht_cpp.Health.{
  Snapshot, Monitor, window_size, blank_snapshot, slot, is_cold, is_idle, forget, advance_window,
  tick_degraded, count_verdict, classify, update,
}

abbrev pub is_verdict : Bool → Option Bool → ℕ
is_verdict b none = 0
is_verdict true (some true) = 1
is_verdict true (some false) = 0
is_verdict false (some true) = 0
is_verdict false (some false) = 1

-- How many snapshots have the verdict.
abbrev pub tally : Bool → List Snapshot → ℕ
tally b [] = 0
tally b (s ∷ w) = is_verdict b s.verdict + tally b w

pub record IsMonitor (m : Monitor) : Type 0 where
  pub width : length m.window ≡ window_size
  pub filled : m.count ≤ window_size
  pub degraded_counted : m.degraded_ticks ≡ tally true m.window
  pub healthy_counted : m.healthy_ticks ≡ tally false m.window
  pub cold : m.count < window_size → m.degraded_ticks + m.healthy_ticks ≡ 0

tally-set :
    (b : Bool) (w : List Snapshot) (i : ℕ) (s : Snapshot)
    → i < length w
    → tally b (set w i s) + is_verdict b (get_or w i blank_snapshot).verdict
      ≡ tally b w + is_verdict b s.verdict
tally-set b [] i s h = elim h [ ]
tally-set b (t ∷ w) zero s h = omega arith
tally-set b (t ∷ w) (suc i) s h = omega (arith, tally-set b w i s)

length-set : (w : List Snapshot) (i : ℕ) (s : Snapshot) → length (set w i s) ≡ length w
length-set [] i s = refl
length-set (t ∷ w) zero s = refl
length-set (t ∷ w) (suc i) s = ap suc (length-set w i s)

slot_inside : (m : Monitor) → IsMonitor m → slot m < length m.window
slot_inside m v = omega (arith, v.width)

abbrev fresh : ℕ → ℕ → Snapshot
fresh r t = record { responses = r; timeouts = t; verdict = none }

abbrev written : Monitor → Monitor → Snapshot → Monitor
written m kept s = record kept { head = slot m + 1; window = set m.window (slot m) s }

tally-forget :
    (b : Bool) (m : Monitor) (s : Snapshot) (o : Option Bool)
    → IsMonitor m
    → s.verdict ≡ none
    → (get_or m.window (slot m) blank_snapshot).verdict ≡ o
    → tally b (set m.window (slot m) s) + is_verdict b o ≡ tally b m.window
tally-forget b m s o v f q = omega (
  arith,
  tally-set b m.window (slot m) s (slot_inside m v),
  ap (is_verdict b) f,
  ap (is_verdict b) q,
)

forget-IsMonitor :
    (m : Monitor) (s : Snapshot) (o : Option Bool)
    → IsMonitor m
    → m.count ≡ window_size
    → s.verdict ≡ none
    → (get_or m.window (slot m) blank_snapshot).verdict ≡ o
    → IsMonitor (written m (forget o m) s)
forget-IsMonitor m s none v e f q = record {
  width = length-set m.window (slot m) s ∙ v.width;
  filled = v.filled;
  degraded_counted = omega (arith, v.degraded_counted, tally-forget true m s none v f q);
  healthy_counted = omega (arith, v.healthy_counted, tally-forget false m s none v f q);
  cold = v.cold;
}
forget-IsMonitor m s (some true) v e f q = record {
  width = length-set m.window (slot m) s ∙ v.width;
  filled = v.filled;
  degraded_counted = omega (arith, v.degraded_counted, tally-forget true m s (some true) v f q);
  healthy_counted = omega (arith, v.healthy_counted, tally-forget false m s (some true) v f q);
  cold = λ h. absurd (omega (arith, e));
}
forget-IsMonitor m s (some false) v e f q = record {
  width = length-set m.window (slot m) s ∙ v.width;
  filled = v.filled;
  degraded_counted = omega (arith, v.degraded_counted, tally-forget true m s (some false) v f q);
  healthy_counted = omega (arith, v.healthy_counted, tally-forget false m s (some false) v f q);
  cold = λ h. absurd (omega (arith, e));
}

fill-IsMonitor :
    (m : Monitor) (s : Snapshot)
    → IsMonitor m
    → (m.count == window_size) ≡ false
    → s.verdict ≡ none
    → IsMonitor (written m (record m { count = m.count + 1 }) s)
fill-IsMonitor m s v e f =
    let room : m.count < window_size = ground (arith, v.filled) in
    let none_bad : m.degraded_ticks ≡ 0 = omega (arith, v.cold room) in
    let none_good : m.healthy_ticks ≡ 0 = omega (arith, v.cold room) in
    let bad = tally-set true m.window (slot m) s (slot_inside m v) in
    let good = tally-set false m.window (slot m) s (slot_inside m v) in
    record {
      width = length-set m.window (slot m) s ∙ v.width;
      filled = omega arith;
      degraded_counted = omega (arith, bad, v.degraded_counted, none_bad, ap (is_verdict true) f);
      healthy_counted = omega (arith, good, v.healthy_counted, none_good, ap (is_verdict false) f);
      cold = λ h. v.cold room;
    }

pub advance_window-IsMonitor :
    (m : Monitor) (r t : ℕ) → IsMonitor m → IsMonitor (advance_window m r t)
unfolding advance_window
advance_window-IsMonitor m r t v =
    if_cases _ _ (λ k. IsMonitor (written m k (fresh r t))) (m.count == window_size)
      (λ full. forget-IsMonitor m (fresh r t) _ v (ground arith) refl refl)
      (λ room. fill-IsMonitor m (fresh r t) v room refl)

advanced_window :
    (m : Monitor) (r t : ℕ) → (advance_window m r t).window ≡ set m.window (slot m) (fresh r t)
unfolding advance_window
advanced_window m r t = refl

abbrev judged : Bool → ℕ → ℕ → Snapshot
judged b r t = record { responses = r; timeouts = t; verdict = some b }

judge-IsMonitor :
    (b : Bool) (m : Monitor) (i r t : ℕ)
    → IsMonitor m
    → i < length m.window
    → m.count ≡ window_size
    → (get_or m.window i blank_snapshot).verdict ≡ none
    → IsMonitor (record (count_verdict b m) { window = set m.window i (judged b r t) })
judge-IsMonitor true m i r t v inside e q =
    let bad = tally-set true m.window i (judged true r t) inside in
    let good = tally-set false m.window i (judged true r t) inside in
    record {
      width = length-set m.window i _ ∙ v.width;
      filled = v.filled;
      degraded_counted = omega (arith, v.degraded_counted, bad, ap (is_verdict true) q);
      healthy_counted = omega (arith, v.healthy_counted, good, ap (is_verdict false) q);
      cold = λ h. absurd (omega (arith, e));
    }
judge-IsMonitor false m i r t v inside e q =
    let bad = tally-set true m.window i (judged false r t) inside in
    let good = tally-set false m.window i (judged false r t) inside in
    record {
      width = length-set m.window i _ ∙ v.width;
      filled = v.filled;
      degraded_counted = omega (arith, v.degraded_counted, bad, ap (is_verdict true) q);
      healthy_counted = omega (arith, v.healthy_counted, good, ap (is_verdict false) q);
      cold = λ h. absurd (omega (arith, e));
    }

get-set :
    (w : List Snapshot) (i : ℕ) (s : Snapshot)
    → i < length w
    → get_or (set w i s) i blank_snapshot ≡ s
get-set [] i s h = elim h [ ]
get-set (t ∷ w) zero s h = refl
get-set (t ∷ w) (suc i) s h = get-set w i s (omega arith)

pub classify-IsMonitor :
    (m : Monitor) (r t : ℕ)
    → IsMonitor m
    → is_cold (advance_window m r t) ≡ false
    → IsMonitor (classify (advance_window m r t) (slot m) r t)
unfolding classify
classify-IsMonitor m r t v warm =
    let w = advance_window-IsMonitor m r t v in
    let same : length (advance_window m r t).window ≡ length m.window =
      ap length (advanced_window m r t) ∙ length-set m.window (slot m) (fresh r t) in
    judge-IsMonitor (tick_degraded r t) (advance_window m r t) (slot m) r t w
      (omega (arith, same, slot_inside m v)) (ground (arith, w.filled))
      (ap (λ (u : List Snapshot). (get_or u (slot m) blank_snapshot).verdict)
          (advanced_window m r t)
        ∙ ap (λ (u : Snapshot). u.verdict)
            (get-set m.window (slot m) (fresh r t) (slot_inside m v)))

-- Every update keeps four snapshots and the two counts equal to the verdicts among them, so that
-- the count of a verdict that leaves the window is never zero.
pub update-IsMonitor : (m : Monitor) (r t : ℕ) → IsMonitor m → IsMonitor (update m r t)
unfolding update
update-IsMonitor m r t v =
    let advanced = advance_window m r t in
    elim (Bool-cases (is_cold advanced)) [
      | inl cold ↦ rw cold (advance_window-IsMonitor m r t v)
      | inr warm ↦
          let w = classify-IsMonitor m r t v warm in
          if_cases _ _ IsMonitor (is_cold advanced || is_idle advanced)
            (λ _. advance_window-IsMonitor m r t v)
            (λ _. record {
              width = w.width;
              filled = w.filled;
              degraded_counted = w.degraded_counted;
              healthy_counted = w.healthy_counted;
              cold = w.cold;
            })
    ]
