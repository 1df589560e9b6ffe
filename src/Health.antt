-- ===== src/Health.antt =====
-- health.hpp and health.cpp: the network's state from the answers and timeouts of four ticks.
pub mod Invariant
pub mod Verdict
use hyperdht_cpp.Prelude.{
  ℕ, ◌+◌, ◌-◌, ◌*◌, ◌%◌, ◌^◌, Bool, true, false, ◌&&◌, ◌||◌, not, Option, none, some, List, [], ◌∷◌,
  if◌then◌else◌, ltb, ◌==◌, get_or, set, replicate, take,
}

abbrev pub window_size : ℕ
window_size = 4

abbrev pub idle_threshold : ℕ
idle_threshold = 4

pub data Health : Type 0 where
  online : Health
  degraded : Health
  offline : Health

-- `degraded` is -1 (none), 0 (some false) or 1 (some true).
pub record Snapshot : Type 0 where
  pub responses : ℕ
  pub timeouts : ℕ
  pub verdict : Option Bool

-- `head` is `head_ + 1`, so that it starts at 0.
pub record Monitor : Type 0 where
  pub window : List Snapshot
  pub head : ℕ
  pub count : ℕ
  pub degraded_ticks : ℕ
  pub healthy_ticks : ℕ
  pub state : Health

abbrev pub blank_snapshot : Snapshot
blank_snapshot = record { responses = 0; timeouts = 0; verdict = none }

-- The members' initial values, and what `reset` writes.
abbrev pub reset : Monitor
reset = record {
  window = replicate window_size blank_snapshot;
  head = 0;
  count = 0;
  degraded_ticks = 0;
  healthy_ticks = 0;
  state = online;
}

-- Sums of `uint32_t`.
abbrev pub sum_responses : List Snapshot → ℕ
sum_responses [] = 0
sum_responses (s ∷ w) = (s.responses + sum_responses w) % 2 ^ 32

abbrev pub sum_timeouts : List Snapshot → ℕ
sum_timeouts [] = 0
sum_timeouts (s ∷ w) = (s.timeouts + sum_timeouts w) % 2 ^ 32

unfoldable pub total_responses : Monitor → ℕ
total_responses m = sum_responses (take m.count m.window)

unfoldable pub total_timeouts : Monitor → ℕ
total_timeouts m = sum_timeouts (take m.count m.window)

unfoldable pub is_idle : Monitor → Bool
is_idle m = ltb ((total_responses m + total_timeouts m) % 2 ^ 32) idle_threshold

abbrev pub is_cold : Monitor → Bool
is_cold m = ltb m.count window_size

abbrev pub all_degraded : Monitor → Bool
all_degraded m = m.degraded_ticks == window_size

abbrev pub all_healthy : Monitor → Bool
all_healthy m = m.healthy_ticks == window_size

-- The slot of the new observation, `(head_ + 1) % WINDOW_SIZE`.
abbrev pub slot : Monitor → ℕ
slot m = m.head % window_size

-- Taking the oldest observation out of the two counts.
abbrev pub forget : Option Bool → Monitor → Monitor
forget none m = m
forget (some true) m = record m { degraded_ticks = m.degraded_ticks - 1 }
forget (some false) m = record m { healthy_ticks = m.healthy_ticks - 1 }

-- `update` up to the new snapshot: the head goes on and the oldest observation goes out.
unfoldable pub advance_window : Monitor → ℕ → ℕ → Monitor
advance_window m responses timeouts =
    let oldest = get_or m.window (slot m) blank_snapshot in
    let kept =
      if m.count == window_size
      then forget oldest.verdict m
      else record m { count = m.count + 1 } in
    record kept {
      head = slot m + 1;
      window =
          set m.window (slot m)
            (record { responses = responses; timeouts = timeouts; verdict = none });
    }

-- A quotient of two numbers below 2 ^ 32 is rounded to a double above one half exactly if it is
-- above one half.
abbrev pub tick_degraded : ℕ → ℕ → Bool
tick_degraded responses timeouts =
    let activity = (responses + timeouts) % 2 ^ 32 in ltb 0 activity && ltb activity (2 * timeouts)

-- The verdict of the new tick, written at the head.
abbrev pub count_verdict : Bool → Monitor → Monitor
count_verdict true m = record m { degraded_ticks = m.degraded_ticks + 1 }
count_verdict false m = record m { healthy_ticks = m.healthy_ticks + 1 }

unfoldable pub classify : Monitor → ℕ → ℕ → ℕ → Monitor
classify m i responses timeouts =
    let verdict = tick_degraded responses timeouts in
    record (count_verdict verdict m) {
      window =
          set m.window i
            (record { responses = responses; timeouts = timeouts; verdict = some verdict });
    }

unfoldable pub next_state : Monitor → Health
next_state m =
    let has_responses = ltb 0 (total_responses m) in
    if has_responses && all_degraded m
    then degraded
    else if not has_responses
    then offline
    else if has_responses && all_healthy m
    then online
    else m.state

unfoldable pub update : Monitor → ℕ → ℕ → Monitor
update m responses timeouts =
    let advanced = advance_window m responses timeouts in
    let judged = classify advanced (slot m) responses timeouts in
    if is_cold advanced || is_idle advanced
    then advanced
    else record judged { state = next_state judged }
