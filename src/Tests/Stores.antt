-- ===== src/Tests/Stores.antt =====
-- A store with one announcement, and a monitor after some ticks.
use hyperdht_cpp.Prelude.{ℕ, ◌≡◌, refl, ◌||◌, List, [], ◌∷◌, replicate, arith, if◌then◌else◌, ltb}
use hyperdht_cpp.Compact.Address.{Address}
use hyperdht_cpp.Routing.Id.{id_eq}
use hyperdht_cpp.Announces.{Entry, PeerAnnouncement, put, remove, without, get, gc, unexpired}
use hyperdht_cpp.Announces.Expiry.{IsMap, gc-get}
use hyperdht_cpp.Announces.Invariant.{IsStore, put-IsStore}
use hyperdht_cpp.Announces.Lookup.{IsPut, put-get}
use hyperdht_cpp.Announces.Removal.{remove-get}
use hyperdht_cpp.Health.{Monitor, reset, update, advance_window, is_cold, is_idle, total_responses}
use hyperdht_cpp.Health.Invariant.{IsMonitor, update-IsMonitor}
use hyperdht_cpp.Health.Verdict.{state_of, update_state}

abbrev home : Address
home = record { host = 10 ∷ (0 ∷ (0 ∷ (1 ∷ []))); port = 4000 }

abbrev announced : ℕ → PeerAnnouncement
announced at = record { source = home; value = 1 ∷ []; created_at = at; ttl = 1200000 }

abbrev key : List ℕ
key = replicate 32 9

abbrev store : List Entry
store = record { target = key; peers = announced 5 ∷ [] } ∷ []

store-IsStore : IsStore store
store-IsStore = record {
  keys = (tt, tt);
  filled = (omega arith, omega arith, tt);
  bounded = omega arith;
}

put-IsStore_example : IsStore (put store key (announced 7))
put-IsStore_example = put-IsStore store key (announced 7) store-IsStore

put-get_example :
    IsPut store key key (announced 7) (get store key) (get (put store key (announced 7)) key)
put-get_example = put-get store key key (announced 7)

remove-get_example :
    IsStore (remove store key home).0
    × ((j : List ℕ)
        → get (remove store key home).0 j
          ≡ (if id_eq key j then without (get store j) home else get store j))
remove-get_example = remove-get store key home store-IsStore

gc-get_example :
    IsMap (gc store 2000000)
    × ((k : List ℕ) → get (gc store 2000000) k ≡ unexpired 2000000 (get store k))
gc-get_example = gc-get store 2000000 (tt, tt)

reset-IsMonitor : IsMonitor reset
reset-IsMonitor = record {
  width = refl;
  filled = omega arith;
  degraded_counted = refl;
  healthy_counted = refl;
  cold = λ h. refl;
}

abbrev three_ticks : Monitor
three_ticks = update (update (update reset 1 3) 1 3) 1 3

three_ticks-IsMonitor : IsMonitor three_ticks
three_ticks-IsMonitor =
    update-IsMonitor (update (update reset 1 3) 1 3) 1 3
      (update-IsMonitor (update reset 1 3) 1 3 (update-IsMonitor reset 1 3 reset-IsMonitor))

update_state_example : (update three_ticks 1 3).state ≡ (
    if is_cold (advance_window three_ticks 1 3) || is_idle (advance_window three_ticks 1 3)
    then three_ticks.state
    else state_of
        (update three_ticks 1 3).window
        (ltb 0 (total_responses (update three_ticks 1 3)))
        three_ticks.state)
update_state_example = update_state three_ticks 1 3 three_ticks-IsMonitor
