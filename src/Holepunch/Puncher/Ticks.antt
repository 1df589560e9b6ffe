-- ===== src/Holepunch/Puncher/Ticks.antt =====
-- One tick of the timer of a `Holepuncher` of holepunch.cpp that punches.
use hyperdht_cpp.Prelude.{
  subst, if-false, if-true, suc, ltb→lt, ◌⊎◌, inl, inr, ap, ◌≡◌, ◌<◌, if_cases, refl, arith, sym,
  ◌∙◌, ℕ, suc, ◌+◌, ◌-◌, Bool, true, false, ◌&&◌, ◌||◌, not, Option, none, some, List, [], ◌∷◌,
  if◌then◌else◌, ltb, leb, ◌==◌, bit_and,
}
use hyperdht_cpp.Compact.Address.{Address}
use hyperdht_cpp.Holepunch.Puncher.{
  Probe, Puncher, RemoteAddr, Surroundings, birthday_sockets, cut_off, decrement_randomized,
  destroy, end_random, fire_abort, firewall_random, is_done, send_probe,
}
use hyperdht_cpp.Holepunch.Puncher.Strategy.{
  consistent_probe, keep_alive_random_nat, next_probe, next_round, open_birthday_sockets, probe_all,
  probe_one, probe_random, random_probes, random_target,
}
use hyperdht_cpp.Holepunch.Puncher.Machine.{on_punch_timer, step, timer}
use hyperdht_cpp.Holepunch.Puncher.Invariant.{count_of}

-- On its way, `m` ticks from its end, where `k` aborts will have been reported.
pub record IsActiveWith (k m : ℕ) (punching connected destroyed armed on_abort : Bool)
    (holders left round aborts : ℕ) : Type 0 where
  pub going : punching ≡ true
  pub unconnected : connected ≡ false
  pub alive : destroyed ≡ false
  pub timed : armed ≡ true
  pub alone : holders ≡ 0
  pub expected : aborts + count_of on_abort ≡ k
  pub near : left + (10 - round) < m

abbrev pub IsActive : ℕ → ℕ → Puncher → Type 0
IsActive k m p =
    IsActiveWith k m p.punching p.connected p.destroyed p.armed p.on_abort p.holders
      p.random_probes_left p.punch_round p.aborts

abbrev pub IsEnded : ℕ → Puncher → Type 0
IsEnded k p = (p.destroyed ≡ true) × (p.aborts ≡ k)

module _ (P : Puncher → Type 0)
    (frame : (p : Puncher) (probes : List Probe) → P p → P (record p { probes = probes })) where
  send_probe-kept : (a : Address) (p : Puncher) → P p → P (send_probe a p)
  unfolding send_probe
  send_probe-kept a p h =
      if_cases _ _ P p.sends (λ e. frame p (record { to = a; ttl = none } ∷ p.probes) h) (λ e. h)

  probe_all-kept : (rs : List RemoteAddr) (p : Puncher) → P p → P (probe_all rs p)
  probe_all-kept [] p h = h
  probe_all-kept (r ∷ rs) p h = probe_all-kept rs (probe_one r p) (
      if_cases _ _ P (not r.verified && not (bit_and p.punch_round 3 == 0)) (λ e. h)
        (λ e. if_cases _ _ P (r.addr.port == 0) (λ f. h) (λ f. send_probe-kept r.addr p h)))

  probe_random-kept : (o : Option Address) (p : Puncher) → P p → P (probe_random o p)
  probe_random-kept none p h = h
  probe_random-kept (some a) p h = send_probe-kept a p h

still : (a b : Bool) → a ≡ true → b ≡ false → (a && not b) ≡ true
still a b g c = ground arith

busy : (a b : Bool) → a ≡ true → b ≡ false → (not a || b) ≡ false
busy a b g c = ground arith

below : (a b : Bool) (n : ℕ) → (not a || (b || leb 10 n)) ≡ false → n < 10
below a b n h = ground arith

some_left : (n : ℕ) → 0 < n → leb n 0 ≡ false
some_left n h = ground arith

not_done : (a b : Bool) → a ≡ false → b ≡ false → (a || b) ≡ false
not_done a b h k = ground arith

no_sockets : (n : ℕ) (b : Bool) → n ≡ 0 → (ltb 0 n && b) ≡ false
no_sockets n b h = ground arith

few_sockets : (n : ℕ) → n ≡ 0 → leb birthday_sockets n ≡ false
few_sockets n h = ground arith

module _ (k : ℕ) where
  fire_abort-IsEnded :
      (p : Puncher)
      → p.destroyed ≡ true
      → p.aborts + count_of p.on_abort ≡ k
      → IsEnded k (cut_off (fire_abort p))
  fire_abort-IsEnded p d h =
      if_cases _ _ (λ (x : Puncher). IsEnded k (cut_off x)) p.on_abort
        (λ e.
          let c : p.aborts + count_of true ≡ k =
            subst (λ (b : Bool). p.aborts + count_of b ≡ k) e h in
          (d, c))
        (λ e.
          let c : p.aborts + count_of false ≡ k =
            subst (λ (b : Bool). p.aborts + count_of b ≡ k) e h in
          (d, omega (arith, c)))

  destroy-IsEnded :
      (now : ℕ) (p : Puncher)
      → p.destroyed ≡ false
      → p.connected ≡ false
      → p.aborts + count_of p.on_abort ≡ k
      → IsEnded k (destroy now p)
  unfolding destroy decrement_randomized
  destroy-IsEnded now p d c h =
      let gone = record p { destroyed = true; punching = false; holders = 0; armed = false } in
      let fired = fire_abort (decrement_randomized now gone) in
      subst (IsEnded k)
        (sym (if-false p (cut_off (if p.connected then gone else fired)) p.destroyed d))
        (subst (λ (x : Puncher). IsEnded k (cut_off x)) (sym (if-false gone fired p.connected c))
          (if_cases _ _ (λ (x : Puncher). IsEnded k (cut_off (fire_abort x))) p.randomized
            (λ r.
              fire_abort-IsEnded
                (record gone { randomized = false; stats = end_random p.stats now }) refl h)
            (λ r. fire_abort-IsEnded gone refl h)))

  module _ (m : ℕ) where
    round-IsActive :
        (p : Puncher)
        → p.punching ≡ true
        → p.connected ≡ false
        → p.destroyed ≡ false
        → p.holders ≡ 0
        → p.aborts + count_of p.on_abort ≡ k
        → p.random_probes_left + (10 - (p.punch_round + 1)) < m
        → IsActive k m (next_round p)
    round-IsActive p g c d o h l = record {
      going = g;
      unconnected = c;
      alive = d;
      timed = refl;
      alone = o;
      expected = h;
      near = l;
    }

    -- The round, or the end behind the tenth.
    pub consistent_probe-IsActive :
        (now : ℕ) (p : Puncher)
        → p.punching ≡ true
        → p.connected ≡ false
        → p.destroyed ≡ false
        → p.holders ≡ 0
        → p.aborts + count_of p.on_abort ≡ k
        → p.random_probes_left + (10 - p.punch_round) < suc m
        → IsActive k m (consistent_probe now p) ⊎ IsEnded k (consistent_probe now p)
    unfolding consistent_probe
    consistent_probe-IsActive now p g c d o h l =
        let Q = λ (x : Puncher). IsActive k m x ⊎ IsEnded k x in
        let over =
          if p.punching && not p.connected
          then destroy now (record p { punching = false })
          else p in
        let on =
          if not p.is_initiator && (p.punch_round == 0)
          then next_round p
          else next_round (probe_all p.remote_addresses p) in
        if_cases over on Q (not p.punching || (p.connected || leb 10 p.punch_round))
          (λ a.
            subst Q
              (sym (
                if-true (destroy now (record p { punching = false })) p
                  (p.punching && not p.connected) (still p.punching p.connected g c)))
              (inr (destroy-IsEnded now (record p { punching = false }) d c h)))
          (λ a.
            let r : p.punch_round < 10 = below p.punching p.connected p.punch_round a in
            let w : IsActive k m (next_round p) = round-IsActive p g c d o h (omega arith) in
            if_cases (next_round p) (next_round (probe_all p.remote_addresses p)) Q
              (not p.is_initiator && (p.punch_round == 0)) (λ b. inl w)
              (λ b. inl (
                probe_all-kept (λ x. IsActive k m (next_round x)) (λ x probes v. v)
                  p.remote_addresses p w)))

    pub random_probes-IsActive :
        (env : Surroundings) (p : Puncher)
        → p.punching ≡ true
        → p.connected ≡ false
        → p.destroyed ≡ false
        → p.holders ≡ 0
        → p.aborts + count_of p.on_abort ≡ k
        → 0 < p.random_probes_left
        → p.random_probes_left + (10 - p.punch_round) < suc m
        → IsActive k m (random_probes env p)
    unfolding random_probes
    random_probes-IsActive env p g c d o h z l =
        let last = destroy env.now (record p { punching = false }) in
        let next = next_probe (probe_random (random_target p.remote_addresses env.drawn) p) in
        let w : IsActive k m (next_probe p) = record {
          going = g;
          unconnected = c;
          alive = d;
          timed = refl;
          alone = o;
          expected = h;
          near = omega arith;
        } in
        subst (IsActive k m)
          (sym (
            if-false p (if leb p.random_probes_left 0 then last else next)
              (not p.punching || p.connected) (busy p.punching p.connected g c)))
          (subst (IsActive k m)
            (sym
              (if-false last next (leb p.random_probes_left 0) (some_left p.random_probes_left z)))
            (probe_random-kept (λ x. IsActive k m (next_probe x)) (λ x probes v. v)
              (random_target p.remote_addresses env.drawn) p w))

    pub timer-IsActive :
        (env : Surroundings) (p : Puncher)
        → IsActive k (suc m) p
        → IsActive k m (step env timer p) ⊎ IsEnded k (step env timer p)
    unfolding step on_punch_timer
    timer-IsActive env p w =
        let Q = λ (x : Puncher). IsActive k m x ⊎ IsEnded k x in
        let q = record p { armed = false } in
        let by_probes =
          if ltb 0 q.random_probes_left then random_probes env q else consistent_probe env.now q in
        let by_sockets =
          if leb birthday_sockets q.holders then keep_alive_random_nat env q else by_probes in
        let opening =
          ltb 0 q.holders
          && (ltb q.holders birthday_sockets && (q.local_firewall == firewall_random)) in
        let chosen = if opening then open_birthday_sockets env q else by_sockets in
        let e : step env timer p ≡ by_probes =
          if-true (on_punch_timer env q) p p.armed w.timed
          ∙ if-false q chosen (is_done q) (not_done p.destroyed p.connected w.alive w.unconnected)
          ∙ if-false (open_birthday_sockets env q) by_sockets opening
              (no_sockets p.holders _ w.alone)
          ∙ if-false (keep_alive_random_nat env q) by_probes (leb birthday_sockets q.holders)
              (few_sockets p.holders w.alone) in
        subst Q (sym e) (
          if_cases (random_probes env q) (consistent_probe env.now q) Q (ltb 0 q.random_probes_left)
            (λ a. inl (
              random_probes-IsActive env q w.going w.unconnected w.alive w.alone w.expected
                (ltb→lt 0 p.random_probes_left a) w.near))
            (λ a.
              consistent_probe-IsActive env.now q w.going w.unconnected w.alive w.alone w.expected
                w.near))

  pub timer-IsEnded :
      (env : Surroundings) (p : Puncher) → IsEnded k p → IsEnded k (step env timer p)
  unfolding step on_punch_timer
  timer-IsEnded env p w =
      let q = record p { armed = false } in
      if_cases (on_punch_timer env q) p (IsEnded k) p.armed
        (λ e.
          subst (IsEnded k)
            (sym (if-true q _ (is_done q) (ap (λ (b : Bool). b || p.connected) w.0))) w)
        (λ e. w)
