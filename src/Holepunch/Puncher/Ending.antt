-- ===== src/Holepunch/Puncher/Ending.antt =====
-- How a `Holepuncher` of holepunch.cpp comes to its end when no probe arrives.
use hyperdht_cpp.Prelude.{
  subst, if-false, if-true, zero, suc, ◌⊎◌, inl, inr, ◌≡◌, ◌≤◌, length, if_cases, refl, arith, sym,
  ◌∙◌, ℕ, zero, suc, ◌+◌, Bool, true, false, List, [], ◌∷◌, if◌then◌else◌,
}
use hyperdht_cpp.Holepunch.Puncher.{
  Puncher, Surroundings, begin_random, count_consistent, count_random, increment_randomized,
  is_throttled, random_probes_count,
}
use hyperdht_cpp.Holepunch.Puncher.Strategy.{random_probes}
use hyperdht_cpp.Holepunch.Puncher.Machine.{
  choose, try_birthday, try_random, is_consistent, punch, punch_consistent, punch_random, step,
  timer,
}
use hyperdht_cpp.Holepunch.Puncher.Invariant.{count_of}
use hyperdht_cpp.Holepunch.Puncher.Ticks.{
  IsActive, IsEnded, consistent_probe-IsActive, random_probes-IsActive, timer-IsActive,
  timer-IsEnded,
}

-- The timer alone.
unfoldable pub ticks : List Surroundings → Puncher → Puncher
ticks [] p = p
ticks (e ∷ es) p = ticks es (step e timer p)

module _ (k : ℕ) where
  ticks_still : (es : List Surroundings) (p : Puncher) → IsEnded k p → IsEnded k (ticks es p)
  unfolding ticks
  ticks_still [] p w = w
  ticks_still (e ∷ es) p w = ticks_still es (step e timer p) (timer-IsEnded k e p w)

  abbrev Outcome : ℕ → Puncher → Type 0
  Outcome m p = IsActive k m p ⊎ IsEnded k p

  ticks-IsEnded :
      (m : ℕ) (es : List Surroundings) (p : Puncher)
      → Outcome m p
      → m ≤ length es
      → IsEnded k (ticks es p)
  unfolding ticks
  ticks-IsEnded m es p (inr w) l = ticks_still es p w
  ticks-IsEnded zero es p (inl w) l = absurd (omega (arith, w.near))
  ticks-IsEnded (suc m) [] p (inl w) l = absurd (omega arith)
  ticks-IsEnded (suc m) (e ∷ es) p (inl w) l =
      ticks-IsEnded m es (step e timer p) (timer-IsActive k m e p w) (omega arith)

  punch_random-IsActive :
      (env : Surroundings) (p : Puncher)
      → p.connected ≡ false
      → p.destroyed ≡ false
      → p.holders ≡ 0
      → p.aborts + count_of p.on_abort ≡ k
      → IsActive k 1760 (punch_random env p)
  unfolding increment_randomized
  punch_random-IsActive env p c d o h =
      let q = record p { stats = count_random p.stats } in
      let begin = λ (x : Puncher).
        random_probes env
          (record x { punching = true; random_probes_left = random_probes_count }) in
      if_cases q (record q { randomized = true; stats = begin_random q.stats })
        (λ (x : Puncher). IsActive k 1760 (begin x)) q.randomized
        (λ e.
          random_probes-IsActive k 1760 env
            (record q { punching = true; random_probes_left = random_probes_count }) refl c d o h
            (ground arith) (omega arith))
        (λ e.
          random_probes-IsActive k 1760 env
            (record q {
              randomized = true;
              stats = begin_random q.stats;
              punching = true;
              random_probes_left = random_probes_count;
            })
            refl c d o h (ground arith) (omega arith))

  try_random-Outcome :
      (env : Surroundings) (p : Puncher)
      → p.connected ≡ false
      → p.destroyed ≡ false
      → p.holders ≡ 0
      → p.aborts + count_of p.on_abort ≡ k
      → (try_random env p).0 ≡ true
      → Outcome 1760 (try_random env p).1
  unfolding try_random
  try_random-Outcome env p c d o h =
      if_cases (false, p) (true, punch_random env p)
        (λ (x : Bool × Puncher). x.0 ≡ true → Outcome 1760 x.1) (is_throttled p.stats env.now)
        (λ e f. absurd cc) (λ e f. inl (punch_random-IsActive env p c d o h))

  punch-Outcome :
      (env : Surroundings) (p : Puncher)
      → p.connected ≡ false
      → p.destroyed ≡ false
      → p.holders ≡ 0
      → is_consistent p.local_firewall ≡ true
      → p.random_probes_left ≤ 1750
      → p.aborts + count_of p.on_abort ≡ k
      → (punch env p).0 ≡ true
      → Outcome 1760 (punch env p).1
  unfolding punch choose
  punch-Outcome env p c d o i z h =
      let R = λ (x : Bool × Puncher). x.0 ≡ true → Outcome 1760 x.1 in
      let near =
        if is_consistent p.remote_firewall
        then (true, punch_consistent env.now p)
        else try_random env p in
      let far = if is_consistent p.remote_firewall then try_birthday env p else (false, p) in
      subst R
        (sym (
          if-false (true, p) (choose env p) p.connected c
          ∙ if-true near far (is_consistent p.local_firewall) i))
        (if_cases (true, punch_consistent env.now p) (try_random env p) R
          (is_consistent p.remote_firewall)
          (λ e f.
            consistent_probe-IsActive k 1760 env.now
              (record p { stats = count_consistent p.stats; punching = true; punch_round = 0 }) refl
              c d o h (omega arith))
          (λ e f. try_random-Outcome env p c d o h f))

-- A puncher that is neither connected nor destroyed, holds no further sockets, has a firewall that is not random and has no more
-- than 1750 random probes left: if `punch` starts and no probe arrives, then the puncher is destroyed after at most
-- 1760 ticks of its timer, and the abort has been reported if there was a function to report it to.
pub punch-ends :
    (env : Surroundings) (p : Puncher) (es : List Surroundings)
    → p.connected ≡ false
    → p.destroyed ≡ false
    → p.holders ≡ 0
    → is_consistent p.local_firewall ≡ true
    → p.random_probes_left ≤ 1750
    → (punch env p).0 ≡ true
    → 1760 ≤ length es
    → ((ticks es (punch env p).1).destroyed ≡ true)
      × ((ticks es (punch env p).1).aborts ≡ p.aborts + count_of p.on_abort)
punch-ends env p es c d o i z f l =
    let k = p.aborts + count_of p.on_abort in
    ticks-IsEnded k 1760 es (punch env p).1 (punch-Outcome k env p c d o i z refl f) l
