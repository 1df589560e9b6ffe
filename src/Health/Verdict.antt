-- ===== src/Health/Verdict.antt =====
-- The state that `HealthMonitor::update` of health.cpp leaves.
use hyperdht_cpp.Prelude.{
  ℕ, ◌≤◌, ◌≡◌, refl, ap, sym, ◌∙◌, Bool, true, false, ◌&&◌, ◌||◌, not, Option, none, some, List, [],
  ◌∷◌, if◌then◌else◌, ltb, ◌==◌, length, arith, Bool-cases, inl, inr, if_cases,
}
use hyperdht_cpp.Health.{
  Health, online, degraded, offline, Snapshot, Monitor, window_size, slot, is_cold, is_idle,
  total_responses, forget, advance_window, count_verdict, classify, next_state, update,
  tick_degraded,
}
use hyperdht_cpp.Health.Invariant.{IsMonitor, tally, is_verdict, classify-IsMonitor}

abbrev pub all_are : Bool → List Snapshot → Bool
all_are b [] = true
all_are b (s ∷ w) = (is_verdict b s.verdict == 1) && all_are b w

-- What the header promises of a window that is neither cold nor idle.
abbrev pub state_of : List Snapshot → Bool → Health → Health
state_of w has_responses old =
    if not has_responses
    then offline
    else if all_are true w
    then degraded
    else if all_are false w
    then online
    else old

is_verdict_le : (b : Bool) (o : Option Bool) → is_verdict b o ≤ 1
is_verdict_le b none = omega arith
is_verdict_le true (some true) = omega arith
is_verdict_le true (some false) = omega arith
is_verdict_le false (some true) = omega arith
is_verdict_le false (some false) = omega arith

tally_le : (b : Bool) (w : List Snapshot) → tally b w ≤ length w
tally_le b [] = omega arith
tally_le b (s ∷ w) = omega (arith, tally_le b w, is_verdict_le b s.verdict)

tally-all_are : (b : Bool) (w : List Snapshot) → (tally b w == length w) ≡ all_are b w
tally-all_are b [] = refl
tally-all_are b (s ∷ w) = ground (arith, tally-all_are b w, tally_le b w, is_verdict_le b s.verdict)

forget_state : (o : Option Bool) (m : Monitor) → (forget o m).state ≡ m.state
forget_state none m = refl
forget_state (some true) m = refl
forget_state (some false) m = refl

advance_window_state : (m : Monitor) (r t : ℕ) → (advance_window m r t).state ≡ m.state
unfolding advance_window
advance_window_state m r t =
    if_cases _ _ (λ (k : Monitor). k.state ≡ m.state) (m.count == window_size)
      (λ _. forget_state _ m) (λ _. refl)

count_verdict_state : (b : Bool) (m : Monitor) → (count_verdict b m).state ≡ m.state
count_verdict_state true m = refl
count_verdict_state false m = refl

classify_state : (m : Monitor) (i r t : ℕ) → (classify m i r t).state ≡ m.state
unfolding classify
classify_state m i r t = count_verdict_state (tick_degraded r t) m

branches :
    (has bad good : Bool) (old : Health)
    → (if has && bad
        then degraded
        else if not has
        then offline
        else if has && good
        then online
        else old)
      ≡ (if not has then offline else if bad then degraded else if good then online else old)
branches true true good old = refl
branches true false good old = refl
branches false bad good old = refl

next_state_lem :
    (m : Monitor)
    → IsMonitor m
    → next_state m ≡ state_of m.window (ltb 0 (total_responses m)) m.state
unfolding next_state
next_state_lem m v =
    let bad : (m.degraded_ticks == window_size) ≡ all_are true m.window =
      ap (λ (n : ℕ). n == window_size) v.degraded_counted
      ∙ ap (◌==◌ (tally true m.window)) (sym v.width)
      ∙ tally-all_are true m.window in
    let good : (m.healthy_ticks == window_size) ≡ all_are false m.window =
      ap (λ (n : ℕ). n == window_size) v.healthy_counted
      ∙ ap (◌==◌ (tally false m.window)) (sym v.width)
      ∙ tally-all_are false m.window in
    branches (ltb 0 (total_responses m)) (m.degraded_ticks == window_size)
      (m.healthy_ticks == window_size) m.state
    ∙ ap
        (λ (b : Bool).
          if not (ltb 0 (total_responses m))
          then offline
          else if b
          then degraded
          else if m.healthy_ticks == window_size
          then online
          else m.state)
        bad
    ∙ ap
        (λ (b : Bool).
          if not (ltb 0 (total_responses m))
          then offline
          else if all_are true m.window
          then degraded
          else if b
          then online
          else m.state)
        good

left_false : (a b : Bool) → (a || b) ≡ false → a ≡ false
left_false true b h = cc
left_false false b h = refl

active_state :
    (m : Monitor) (r t : ℕ)
    → IsMonitor m
    → is_cold (advance_window m r t) ≡ false
    → next_state (classify (advance_window m r t) (slot m) r t)
      ≡ state_of
          (classify (advance_window m r t) (slot m) r t).window
          (ltb 0 (total_responses (classify (advance_window m r t) (slot m) r t)))
          m.state
active_state m r t v warm =
    let judged = classify (advance_window m r t) (slot m) r t in
    next_state_lem judged (classify-IsMonitor m r t v warm)
    ∙ ap (state_of judged.window (ltb 0 (total_responses judged)))
        (classify_state (advance_window m r t) (slot m) r t ∙ advance_window_state m r t)

-- Once four ticks are in the window and it is not idle, the state is offline if it holds no
-- answer, else degraded if all four ticks are, else online if all four are healthy, else as
-- before; while the window is cold or idle the state does not change.
pub update_state :
    (m : Monitor) (r t : ℕ)
    → IsMonitor m
    → (update m r t).state ≡ (
        if is_cold (advance_window m r t) || is_idle (advance_window m r t)
        then m.state
        else state_of (update m r t).window (ltb 0 (total_responses (update m r t))) m.state)
unfolding update total_responses
update_state m r t v =
    elim (Bool-cases (is_cold (advance_window m r t) || is_idle (advance_window m r t))) [
      | inl resting ↦ rw resting (advance_window_state m r t)
      | inr active ↦ rw active (active_state m r t v (left_false _ _ active))
    ]
