-- ===== src/Holepunch/Puncher/Reports.antt =====
-- The invariant of a `Holepuncher` of holepunch.cpp through its whole life.
use hyperdht_cpp.Prelude.{
  subst, ◌≡◌, ◌≤◌, ◌<◌, length, if_cases, refl, arith, sym, ◌∙◌, ℕ, ◌+◌, Bool, true, false, ◌&&◌,
  ◌||◌, not, is_some, List, [], ◌∷◌, if◌then◌else◌, ltb, leb, ◌==◌,
}
use hyperdht_cpp.Compact.Address.{Address}
use hyperdht_cpp.Holepunch.Puncher.{
  Puncher, Surroundings, birthday_sockets, count_consistent, count_random, decrement_randomized,
  end_random, firewall_random, increment_randomized, is_done, is_throttled, max_reopens,
  random_probes_count, verified_remote,
}
use hyperdht_cpp.Holepunch.Puncher.Machine.{
  choose, reopen, refuses_reopen, try_birthday, try_random, Event, analyze, analyzed, destroyed_by,
  firewalls, is_consistent, is_unstable, keep_winner, message, on_message, on_punch_timer, punch,
  punch_birthday, punch_consistent, punch_random, punched, remote, report, run, step, stopped,
  timer,
}
use hyperdht_cpp.Holepunch.Puncher.Invariant.{
  IsPuncher, count_of, counted_consistent, counted_random, ended, increment_randomized-IsPuncher,
  send_probe-IsPuncher, destroy-IsPuncher, consistent_probe-IsPuncher, random_probes-IsPuncher,
  open_birthday_sockets-IsPuncher, keep_alive_random_nat-IsPuncher,
}

module _ (base : ℕ) where
  report-IsPuncher :
      (from : Address) (p : Puncher)
      → p.connected ≡ true
      → p.aborts ≡ 0
      → IsPuncher base p
      → IsPuncher base (report from p)
  report-IsPuncher from p c a w =
      if_cases _ _ (IsPuncher base) p.on_connect
        (λ e.
          let r : length p.results + count_of true ≤ 1 =
            subst (λ (b : Bool). length p.results + count_of b ≤ 1) e w.reported.results_once in
          record {
            balanced = w.balanced;
            reported = record {
              results_once = omega (arith, r);
              aborts_once = w.reported.aborts_once;
              unconnected = λ f. let k : true ≡ false = sym c ∙ f in absurd cc;
              alive = w.reported.alive;
              exclusive = omega (arith, r);
            };
            reopens = w.reopens;
          })
        (λ e. w)

  connected-IsPuncher :
      (p : Puncher)
      → IsPuncher base p
      → IsPuncher base (record p { connected = true; punching = false; armed = false })
  connected-IsPuncher p w = record {
    balanced = w.balanced;
    reported = record {
      results_once = w.reported.results_once;
      aborts_once = w.reported.aborts_once;
      unconnected = λ f. absurd cc;
      alive = w.reported.alive;
      exclusive = w.reported.exclusive;
    };
    reopens = w.reopens;
  }

  or_false_right : (a b : Bool) → (a || b) ≡ false → b ≡ false
  or_false_right a b h = ground arith

  on_message-IsPuncher :
      (now : ℕ) (from : Address) (has_ref : Bool) (p : Puncher)
      → IsPuncher base p
      → IsPuncher base (on_message now from has_ref p)
  unfolding on_message decrement_randomized
  on_message-IsPuncher now from has_ref p w =
      let won = record p { connected = true; punching = false; armed = false } in
      let kept = keep_winner has_ref won in
      if_cases _ _ (IsPuncher base) (p.connected || p.destroyed) (λ e. w)
        (λ e.
          if_cases _ _ (IsPuncher base) (not p.is_initiator)
            (λ f. send_probe-IsPuncher base from p w)
            (λ f.
              let z : p.aborts ≡ 0 = w.reported.alive (or_false_right p.connected p.destroyed e) in
              let v : (kept.connected ≡ true) × ((kept.aborts ≡ 0) × IsPuncher base kept) =
                if_cases _ _
                  (λ (x : Puncher). (x.connected ≡ true) × ((x.aborts ≡ 0) × IsPuncher base x))
                  (has_ref && ltb 0 won.holders) (λ g. (refl, (z, connected-IsPuncher p w)))
                  (λ g. (refl, (z, connected-IsPuncher p w))) in
              if_cases _ _ (λ (x : Puncher). IsPuncher base (report from x)) kept.randomized
                (λ g.
                  report-IsPuncher from
                    (record kept { randomized = false; stats = end_random kept.stats now }) v.0
                    v.1.0
                    (record {
                      balanced = ended base kept.randomized kept.stats now g v.1.1.balanced;
                      reported = v.1.1.reported;
                      reopens = v.1.1.reopens;
                    }))
                (λ g. report-IsPuncher from kept v.0 v.1.0 v.1.1)))

  on_punch_timer-IsPuncher :
      (env : Surroundings) (p : Puncher) → IsPuncher base p → IsPuncher base (on_punch_timer env p)
  unfolding on_punch_timer
  on_punch_timer-IsPuncher env p w =
      if_cases _ _ (IsPuncher base) (is_done p) (λ a. w)
        (λ a.
          if_cases _ _ (IsPuncher base)
            (ltb 0 p.holders
              && (ltb p.holders birthday_sockets && (p.local_firewall == firewall_random)))
            (λ b. open_birthday_sockets-IsPuncher base env p w)
            (λ b.
              if_cases _ _ (IsPuncher base) (leb birthday_sockets p.holders)
                (λ c. keep_alive_random_nat-IsPuncher base env p w)
                (λ c.
                  if_cases _ _ (IsPuncher base) (ltb 0 p.random_probes_left)
                    (λ d. random_probes-IsPuncher base env p w)
                    (λ d. consistent_probe-IsPuncher base env.now p w))))

  punch_consistent-IsPuncher :
      (now : ℕ) (p : Puncher) → IsPuncher base p → IsPuncher base (punch_consistent now p)
  punch_consistent-IsPuncher now p w =
      consistent_probe-IsPuncher base now
        (record p { stats = count_consistent p.stats; punching = true; punch_round = 0 })
        (record {
          balanced = counted_consistent base p.randomized p.stats w.balanced;
          reported = w.reported;
          reopens = w.reopens;
        })

  drawn-IsPuncher :
      (p : Puncher)
      → IsPuncher base p
      → IsPuncher base (increment_randomized (record p { stats = count_random p.stats }))
  drawn-IsPuncher p w =
      increment_randomized-IsPuncher base (record p { stats = count_random p.stats })
        (record {
          balanced = counted_random base p.randomized p.stats w.balanced;
          reported = w.reported;
          reopens = w.reopens;
        })

  try_random-IsPuncher :
      (env : Surroundings) (p : Puncher) → IsPuncher base p → IsPuncher base (try_random env p).1
  unfolding try_random
  try_random-IsPuncher env p w =
      let counted = increment_randomized (record p { stats = count_random p.stats }) in
      if_cases (false, p) (true, punch_random env p) (λ (x : Bool × Puncher). IsPuncher base x.1)
        (is_throttled p.stats env.now) (λ d. w)
        (λ d.
          random_probes-IsPuncher base env
            (record counted { punching = true; random_probes_left = random_probes_count })
            (drawn-IsPuncher p w))

  try_birthday-IsPuncher :
      (env : Surroundings) (p : Puncher) → IsPuncher base p → IsPuncher base (try_birthday env p).1
  unfolding try_birthday
  try_birthday-IsPuncher env p w =
      let counted = increment_randomized (record p { stats = count_random p.stats }) in
      if_cases (false, p) (true, punch_birthday env p) (λ (x : Bool × Puncher). IsPuncher base x.1)
        (not (is_some (verified_remote p.remote_addresses))
          || (not p.has_pool || is_throttled p.stats env.now))
        (λ d. w)
        (λ d.
          open_birthday_sockets-IsPuncher base env (record counted { punching = true })
            (drawn-IsPuncher p w))

  choose-IsPuncher :
      (env : Surroundings) (p : Puncher) → IsPuncher base p → IsPuncher base (choose env p).1
  unfolding choose
  choose-IsPuncher env p w =
      let Q = λ (x : Bool × Puncher). IsPuncher base x.1 in
      let near =
        if is_consistent p.remote_firewall
        then (true, punch_consistent env.now p)
        else try_random env p in
      let far = if is_consistent p.remote_firewall then try_birthday env p else (false, p) in
      if_cases near far Q (is_consistent p.local_firewall)
        (λ a.
          if_cases (true, punch_consistent env.now p) (try_random env p) Q
            (is_consistent p.remote_firewall) (λ b. punch_consistent-IsPuncher env.now p w)
            (λ b. try_random-IsPuncher env p w))
        (λ a.
          if_cases (try_birthday env p) (false, p) Q (is_consistent p.remote_firewall)
            (λ b. try_birthday-IsPuncher env p w) (λ b. w))

  punch-IsPuncher :
      (env : Surroundings) (p : Puncher) → IsPuncher base p → IsPuncher base (punch env p).1
  unfolding punch
  punch-IsPuncher env p w =
      if_cases (true, p) (choose env p) (λ (x : Bool × Puncher). IsPuncher base x.1) p.connected
        (λ a. w) (λ a. choose-IsPuncher env p w)

  or_false_left : (a b c : Bool) → (a || (b || c)) ≡ false → b ≡ false
  or_false_left a b c h = ground arith

  leb→lt : (a b : ℕ) → leb a b ≡ false → b < a
  leb→lt a b h = ground arith

  analyze-IsPuncher :
      (allow_reopen : Bool) (p : Puncher)
      → IsPuncher base p
      → IsPuncher base (analyze allow_reopen p).1
  unfolding analyze
  analyze-IsPuncher allow_reopen p w =
      if_cases (false, if refuses_reopen allow_reopen p then p else reopen p) (true, p)
        (λ (x : Bool × Puncher). IsPuncher base x.1) (is_unstable p)
        (λ a.
          if_cases p (reopen p) (IsPuncher base) (refuses_reopen allow_reopen p) (λ b. w)
            (λ b.
              let l = leb→lt max_reopens p.reopen_count (
                or_false_left (not allow_reopen) (leb max_reopens p.reopen_count)
                  (is_done p || p.punching) b) in
              record { balanced = w.balanced; reported = w.reported; reopens = omega arith }))
        (λ a. w)

  step-IsPuncher :
      (env : Surroundings) (e : Event) (p : Puncher)
      → IsPuncher base p
      → IsPuncher base (step env e p)
  unfolding step
  step-IsPuncher env timer p w =
      if_cases _ _ (IsPuncher base) p.armed
        (λ e. on_punch_timer-IsPuncher env (record p { armed = false }) w) (λ e. w)
  step-IsPuncher env (message from has_ref) p w = on_message-IsPuncher env.now from has_ref p w
  step-IsPuncher env punched p w = punch-IsPuncher env p w
  step-IsPuncher env (analyzed allow_reopen) p w = analyze-IsPuncher allow_reopen p w
  step-IsPuncher env stopped p w = w
  step-IsPuncher env destroyed_by p w = destroy-IsPuncher base env.now p w
  step-IsPuncher env (remote addrs verified_host) p w = w
  step-IsPuncher env (firewalls mine theirs) p w = w

  -- Whatever happens to a puncher, in any order: the connection is reported at most once and the abort at most once, and
  -- never both; the shared count of random punches is the one of the other punchers, and one more while this one
  -- is counted; and it is reopened at most 3 times.
  pub run-IsPuncher :
      (p : Puncher) (es : List (Surroundings × Event))
      → IsPuncher base p
      → IsPuncher base (run p es)
  unfolding run
  run-IsPuncher p [] w = w
  run-IsPuncher p (e ∷ es) w = run-IsPuncher (step e.0 e.1 p) es (step-IsPuncher e.0 e.1 p w)
