-- ===== src/Holepunch/Puncher/Invariant.antt =====
-- What a `Holepuncher` of holepunch.cpp reports, and how it counts the random punches.
use hyperdht_cpp.Prelude.{
  ◌≡◌, ◌≤◌, length, if_cases, refl, arith, sym, ◌∙◌, ℕ, ◌+◌, Bool, true, false, ◌&&◌, ◌||◌, not,
  Option, none, some, List, [], ◌∷◌, if◌then◌else◌, ltb, leb, ◌==◌, bit_and,
}
use hyperdht_cpp.Compact.Address.{Address}
use hyperdht_cpp.Holepunch.Puncher.{
  PunchResult, PunchStats, Puncher, RemoteAddr, Surroundings, begin_random, birthday_sockets,
  count_consistent, count_random, cut_off, decrement_randomized, default_ttl, destroy, end_random,
  fire_abort, holepunch_ttl, increment_randomized, is_done, max_reopens, send_probe, send_probe_ttl,
  verified_remote,
}
use hyperdht_cpp.Holepunch.Puncher.Strategy.{
  acquire, consistent_probe, keep_alive_random_nat, keep_alive_to, more_sockets,
  open_birthday_sockets, open_to, probe_all, probe_holder, probe_one, probe_random, random_probes,
  random_target, wrap_index,
}

abbrev pub count_of : Bool → ℕ
count_of true = 1
count_of false = 0

-- The random punches of all punchers but this one are `base`.
abbrev pub IsBalanced : ℕ → Bool → Option PunchStats → Type 0
IsBalanced base randomized none = Unit {0}
IsBalanced base randomized (some s) = s.random_punches ≡ base + count_of randomized

pub record IsReported (results : List PunchResult) (aborts : ℕ)
    (on_connect on_abort connected destroyed : Bool) : Type 0 where
  pub results_once : length results + count_of on_connect ≤ 1
  pub aborts_once : aborts + count_of on_abort ≤ 1
  pub unconnected : connected ≡ false → length results ≡ 0
  pub alive : destroyed ≡ false → aborts ≡ 0
  pub exclusive : length results + aborts ≤ 1

pub record IsPuncherWith (base : ℕ) (randomized : Bool) (stats : Option PunchStats)
    (results : List PunchResult) (aborts : ℕ) (on_connect on_abort connected destroyed : Bool)
    (reopen_count : ℕ) : Type 0 where
  pub balanced : IsBalanced base randomized stats
  pub reported : IsReported results aborts on_connect on_abort connected destroyed
  pub reopens : reopen_count ≤ max_reopens

abbrev pub IsPuncher : ℕ → Puncher → Type 0
IsPuncher base p =
    IsPuncherWith base p.randomized p.stats p.results p.aborts p.on_connect p.on_abort p.connected
      p.destroyed p.reopen_count

module _ (base : ℕ) where
  pub counted_consistent :
      (r : Bool) (s : Option PunchStats)
      → IsBalanced base r s
      → IsBalanced base r (count_consistent s)
  counted_consistent r none h = tt
  counted_consistent r (some s) h = h

  pub counted_random :
      (r : Bool) (s : Option PunchStats) → IsBalanced base r s → IsBalanced base r (count_random s)
  counted_random r none h = tt
  counted_random r (some s) h = h

  pub begun :
      (r : Bool) (s : Option PunchStats)
      → r ≡ false
      → IsBalanced base r s
      → IsBalanced base true (begin_random s)
  begun r none e h = tt
  begun true (some s) e h = absurd cc
  begun false (some s) e h = omega (arith, h)

  pub ended :
      (r : Bool) (s : Option PunchStats) (now : ℕ)
      → r ≡ true
      → IsBalanced base r s
      → IsBalanced base false (end_random s now)
  ended r none now e h = tt
  ended true (some s) now e h = omega (arith, h)
  ended false (some s) now e h = absurd cc

  pub increment_randomized-IsPuncher :
      (p : Puncher) → IsPuncher base p → IsPuncher base (increment_randomized p)
  unfolding increment_randomized
  increment_randomized-IsPuncher p w =
      if_cases _ _ (IsPuncher base) p.randomized (λ e. w)
        (λ e. record {
          balanced = begun p.randomized p.stats e w.balanced;
          reported = w.reported;
          reopens = w.reopens;
        })

  pub decrement_randomized-IsPuncher :
      (now : ℕ) (p : Puncher) → IsPuncher base p → IsPuncher base (decrement_randomized now p)
  unfolding decrement_randomized
  decrement_randomized-IsPuncher now p w =
      if_cases _ _ (IsPuncher base) p.randomized
        (λ e. record {
          balanced = ended p.randomized p.stats now e w.balanced;
          reported = w.reported;
          reopens = w.reopens;
        })
        (λ e. w)

  pub send_probe-IsPuncher :
      (a : Address) (p : Puncher) → IsPuncher base p → IsPuncher base (send_probe a p)
  unfolding send_probe
  send_probe-IsPuncher a p w = if_cases _ _ (IsPuncher base) p.sends (λ e. w) (λ e. w)

  pub send_probe_ttl-IsPuncher :
      (a : Address) (n : ℕ) (p : Puncher) → IsPuncher base p → IsPuncher base (send_probe_ttl a n p)
  unfolding send_probe_ttl
  send_probe_ttl-IsPuncher a n p w = if_cases _ _ (IsPuncher base) p.sends (λ e. w) (λ e. w)

  pub fire_abort-IsPuncher :
      (p : Puncher)
      → p.destroyed ≡ true
      → p.aborts ≡ 0
      → length p.results ≡ 0
      → IsPuncher base p
      → IsPuncher base (fire_abort p)
  fire_abort-IsPuncher p d a r w =
      if_cases _ _ (IsPuncher base) p.on_abort
        (λ e. record {
          balanced = w.balanced;
          reported = record {
            results_once = w.reported.results_once;
            aborts_once = omega arith;
            unconnected = w.reported.unconnected;
            alive = λ f. let k : true ≡ false = sym d ∙ f in absurd cc;
            exclusive = omega arith;
          };
          reopens = w.reopens;
        })
        (λ e. w)

  pub cut_off-IsPuncher : (p : Puncher) → IsPuncher base p → IsPuncher base (cut_off p)
  cut_off-IsPuncher p w = record {
    balanced = w.balanced;
    reported = record {
      results_once = omega (arith, w.reported.results_once);
      aborts_once = omega (arith, w.reported.aborts_once);
      unconnected = w.reported.unconnected;
      alive = w.reported.alive;
      exclusive = w.reported.exclusive;
    };
    reopens = w.reopens;
  }

  pub gone-IsPuncher :
      (p : Puncher)
      → IsPuncher base p
      → IsPuncher base (record p { destroyed = true; punching = false; holders = 0; armed = false })
  gone-IsPuncher p w = record {
    balanced = w.balanced;
    reported = record {
      results_once = w.reported.results_once;
      aborts_once = w.reported.aborts_once;
      unconnected = w.reported.unconnected;
      alive = λ f. absurd cc;
      exclusive = w.reported.exclusive;
    };
    reopens = w.reopens;
  }

  pub destroy-IsPuncher :
      (now : ℕ) (p : Puncher) → IsPuncher base p → IsPuncher base (destroy now p)
  unfolding destroy decrement_randomized
  destroy-IsPuncher now p w =
      let gone = record p { destroyed = true; punching = false; holders = 0; armed = false } in
      if_cases p
        (cut_off (if p.connected then gone else fire_abort (decrement_randomized now gone)))
        (IsPuncher base) p.destroyed (λ e. w)
        (λ e.
          cut_off-IsPuncher
            (if p.connected then gone else fire_abort (decrement_randomized now gone))
            (if_cases gone (fire_abort (decrement_randomized now gone)) (IsPuncher base) p.connected
              (λ c. gone-IsPuncher p w)
              (λ c.
                if_cases _ _ (λ (x : Puncher). IsPuncher base (fire_abort x)) p.randomized
                  (λ r.
                    fire_abort-IsPuncher
                      (record gone { randomized = false; stats = end_random p.stats now }) refl
                      (w.reported.alive e) (w.reported.unconnected c)
                      (record {
                        balanced = ended p.randomized p.stats now r w.balanced;
                        reported = (gone-IsPuncher p w).reported;
                        reopens = w.reopens;
                      }))
                  (λ r.
                    fire_abort-IsPuncher gone refl (w.reported.alive e) (w.reported.unconnected c)
                      (gone-IsPuncher p w)))))

  pub probe_all-IsPuncher :
      (rs : List RemoteAddr) (p : Puncher) → IsPuncher base p → IsPuncher base (probe_all rs p)
  probe_all-IsPuncher [] p w = w
  probe_all-IsPuncher (r ∷ rs) p w = probe_all-IsPuncher rs (probe_one r p) (
      if_cases _ _ (IsPuncher base) (not r.verified && not (bit_and p.punch_round 3 == 0)) (λ e. w)
        (λ e.
          if_cases _ _ (IsPuncher base) (r.addr.port == 0) (λ f. w)
            (λ f. send_probe-IsPuncher r.addr p w)))

  pub consistent_probe-IsPuncher :
      (now : ℕ) (p : Puncher) → IsPuncher base p → IsPuncher base (consistent_probe now p)
  unfolding consistent_probe
  consistent_probe-IsPuncher now p w =
      if_cases _ _ (IsPuncher base) (not p.punching || (p.connected || leb 10 p.punch_round))
        (λ a.
          if_cases _ _ (IsPuncher base) (p.punching && not p.connected)
            (λ b. destroy-IsPuncher now (record p { punching = false }) w) (λ b. w))
        (λ a.
          if_cases _ _ (IsPuncher base) (not p.is_initiator && (p.punch_round == 0)) (λ b. w)
            (λ b. probe_all-IsPuncher p.remote_addresses p w))

  pub probe_random-IsPuncher :
      (o : Option Address) (p : Puncher) → IsPuncher base p → IsPuncher base (probe_random o p)
  probe_random-IsPuncher none p w = w
  probe_random-IsPuncher (some a) p w = send_probe-IsPuncher a p w

  pub random_probes-IsPuncher :
      (env : Surroundings) (p : Puncher) → IsPuncher base p → IsPuncher base (random_probes env p)
  unfolding random_probes
  random_probes-IsPuncher env p w =
      if_cases _ _ (IsPuncher base) (not p.punching || p.connected) (λ a. w)
        (λ a.
          if_cases _ _ (IsPuncher base) (leb p.random_probes_left 0)
            (λ b. destroy-IsPuncher env.now (record p { punching = false }) w)
            (λ b. probe_random-IsPuncher (random_target p.remote_addresses env.drawn) p w))

  pub open_to-IsPuncher :
      (o : Option Address) (env : Surroundings) (p : Puncher)
      → IsPuncher base p
      → IsPuncher base (open_to o env p)
  open_to-IsPuncher none env p w = w
  open_to-IsPuncher (some a) env p w =
      let more : (x : Puncher) → IsPuncher base x → IsPuncher base (more_sockets x) =
        λ x v. if_cases _ _ (IsPuncher base) (ltb x.holders birthday_sockets) (λ b. v) (λ b. v) in
      more (acquire env.acquired a p) (
        if_cases _ _ (IsPuncher base) (env.acquired && ltb p.holders birthday_sockets)
          (λ e. send_probe_ttl-IsPuncher a holepunch_ttl (record p { holders = p.holders + 1 }) w)
          (λ e. w))

  pub open_birthday_sockets-IsPuncher :
      (env : Surroundings) (p : Puncher)
      → IsPuncher base p
      → IsPuncher base (open_birthday_sockets env p)
  unfolding open_birthday_sockets
  open_birthday_sockets-IsPuncher env p w =
      if_cases _ _ (IsPuncher base) (not p.punching || (is_done p || not p.has_pool)) (λ e. w)
        (λ e. open_to-IsPuncher (verified_remote p.remote_addresses) env p w)

  pub probe_holder-IsPuncher :
      (closed : Bool) (a : Address) (p : Puncher)
      → IsPuncher base p
      → IsPuncher base (probe_holder closed a p)
  probe_holder-IsPuncher closed a p w =
      let next = record p { birthday_index = p.birthday_index + 1 } in
      if_cases _ _ (IsPuncher base) closed (λ e. w)
        (λ e.
          send_probe_ttl-IsPuncher a (if ltb 0 p.low_ttl_rounds then holepunch_ttl else default_ttl)
            next w)

  pub keep_alive_to-IsPuncher :
      (o : Option Address) (env : Surroundings) (p : Puncher)
      → IsPuncher base p
      → IsPuncher base (keep_alive_to o env p)
  keep_alive_to-IsPuncher none env p w = w
  keep_alive_to-IsPuncher (some a) env p w =
      if_cases _ _ (IsPuncher base) (p.holders == 0) (λ e. w)
        (λ e.
          probe_holder-IsPuncher env.closed a (wrap_index p)
            (if_cases _ _ (IsPuncher base) (leb p.holders p.birthday_index) (λ f. w) (λ f. w)))

  pub keep_alive_random_nat-IsPuncher :
      (env : Surroundings) (p : Puncher)
      → IsPuncher base p
      → IsPuncher base (keep_alive_random_nat env p)
  unfolding keep_alive_random_nat
  keep_alive_random_nat-IsPuncher env p w =
      if_cases _ _ (IsPuncher base) (not p.punching || is_done p) (λ a. w)
        (λ a.
          if_cases _ _ (IsPuncher base) (leb p.random_probes_left 0)
            (λ b. destroy-IsPuncher env.now (record p { punching = false }) w)
            (λ b. keep_alive_to-IsPuncher (verified_remote p.remote_addresses) env p w))
