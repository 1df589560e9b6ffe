-- ===== src/Query/Awake.antt =====
-- How `read_more`, `do_commit` and `maybe_finish` of query.cpp leave a query that is not done.
use hyperdht_cpp.Prelude.{
  ℕ, suc, ◌-◌, ◌/◌, ◌≡◌, ◌≤◌, ◌<◌, refl, sym, ◌∙◌, Bool, true, false, ◌||◌, ◌&&◌, not, List, [],
  ◌∷◌, if◌then◌else◌, ltb, leb, ◌==◌, length, arith, if_cases, ◌⊎◌, inl, inr, ltb→le, leb→le,
}
use mathlib.Core.List.{reverse}
use hyperdht_cpp.Routing.Table.{closest}
use hyperdht_cpp.Routing.Bucket.{bucket_size}
use hyperdht_cpp.Query.{
  Environment, PendingNode, Query, do_commit, effective_concurrency, pending_all, engage_slowdown,
  fire_done_once, go_on, is_skipped, maybe_finish, read_loop, read_more, seed_from_table,
  slowdown_concurrency, visit, with_token,
}
use hyperdht_cpp.Query.Frame.{
  add_nodes-kept, engage_slowdown-kept, read_loop-kept, seed_from_table-kept,
}

-- A query that commits and is not done waits for a commit.
abbrev pub IsPromised : Query → Type 0
IsPromised q = (q.done ≡ true) ⊎ ((q.committing ≡ false) ⊎ (0 < q.commit_inflight))

-- Done, or waiting for a commit, or for a response.
abbrev pub IsLive : Query → Type 0
IsLive q = (q.done ≡ true) ⊎ (((q.committing ≡ true) × (0 < q.commit_inflight)) ⊎ (0 < q.inflight))

pub record IsAwake (q : Query) : Type 0 where
  pub concurrent : 0 < q.concurrency
  pub promised : IsPromised q
  pub live : IsLive q

-- What the frontier and the requests do not touch.
abbrev pub IsReady : Query → Type 0
IsReady q = (0 < q.concurrency) × IsPromised q

pub fire_done_once-IsAwake :
    (q : Query) → q.done ≡ true → 0 < q.concurrency → IsAwake (fire_done_once q)
unfolding fire_done_once
fire_done_once-IsAwake q d c =
    if_cases _ _ IsAwake (not q.pending_done_fired && q.has_done)
      (λ e. record { concurrent = c; promised = inl d; live = inl d })
      (λ e. record { concurrent = c; promised = inl d; live = inl d })

pub positive : (n : ℕ) → (n == 0) ≡ false → 0 < n
positive n h = ground arith

do_commit-IsAwake : (q : Query) → 0 < q.concurrency → IsAwake (do_commit q)
unfolding do_commit
do_commit-IsAwake q c =
    let asked = with_token q.closest_replies in
    let begun = record q { committing = true; commit_inflight = length asked; commits = asked } in
    if_cases _ _ IsAwake (length asked == 0)
      (λ e. fire_done_once-IsAwake (record begun { done = true }) refl c)
      (λ e.
        let l : 0 < length asked = positive (length asked) e in
        record { concurrent = c; promised = inr (inr l); live = inr (inl (refl, l)) })

or_cases : (a b : Bool) → (a || b) ≡ true → (a ≡ true) ⊎ (b ≡ true)
or_cases true b h = inl refl
or_cases false b h = inr h

stopped-IsLive : (q : Query) → (q.done ≡ true) ⊎ (q.committing ≡ true) → IsPromised q → IsLive q
stopped-IsLive q (inl d) p = inl d
stopped-IsLive q (inr c) (inl d) = inl d
stopped-IsLive q (inr c) (inr (inl n)) = let k : true ≡ false = sym c ∙ n in absurd cc
stopped-IsLive q (inr c) (inr (inr l)) = inr (inl (c, l))

maybe_finish-IsAwake :
    (q : Query)
    → (ltb 0 q.inflight || ltb 0 (length q.pending)) ≡ false
    → IsReady q
    → IsAwake (maybe_finish q)
unfolding maybe_finish
maybe_finish-IsAwake q n r =
    if_cases _ _ IsAwake (q.done || q.committing)
      (λ a. record {
        concurrent = r.0;
        promised = r.1;
        live = stopped-IsLive q (or_cases q.done q.committing a) r.1;
      })
      (λ a.
        if_cases _ _ IsAwake (ltb 0 q.inflight || ltb 0 (length q.pending))
          (λ b. let k : true ≡ false = sym b ∙ n in absurd cc)
          (λ b.
            if_cases _ _ IsAwake q.has_commit (λ c. do_commit-IsAwake q r.0)
              (λ c. fire_done_once-IsAwake (record q { done = true }) refl r.0)))

-- The loop stops at the limit or at the end.
abbrev IsDrained : ℕ → Query → Type 0
IsDrained limit q = (length q.pending ≡ 0) ⊎ (limit ≤ q.inflight)

read_loop-IsDrained :
    (limit : ℕ) (ns : List PendingNode) (q : Query) → IsDrained limit (read_loop limit ns q)
unfolding read_loop
read_loop-IsDrained limit [] q = inl refl
read_loop-IsDrained limit (n ∷ ns) q =
    let next = if is_skipped q n then q else visit q n in
    if_cases (read_loop limit ns next) (record q { pending = n ∷ ns }) (IsDrained limit)
      (ltb q.inflight limit) (λ e. read_loop-IsDrained limit ns next)
      (λ e. inr (ltb→le q.inflight limit e))

engage_slowdown-IsDrained :
    (limit : ℕ) (q : Query) → IsDrained limit q → IsDrained limit (engage_slowdown q)
engage_slowdown-IsDrained limit q d =
    if_cases _ _ (IsDrained limit) (not q.from_table && ((q.successes == 0) && (q.errors == 0)))
      (λ e. d) (λ e. d)

drained-inflight :
    (limit p i : ℕ) → 0 < limit → (p ≡ 0) ⊎ (limit ≤ i) → (ltb 0 p || ltb 0 i) ≡ true → 0 < i
drained-inflight limit p i l (inl d) h = ground arith
drained-inflight limit p i l (inr d) h = omega arith

or_swap : (a b : Bool) → (a || b) ≡ false → (b || a) ≡ false
or_swap a b h = ground arith

-- `from_table` is set by `seed_from_table` when little is pending.
seeded-from_table :
    (env : Environment) (q : Query)
    → length q.pending < bucket_size
    → (seed_from_table env q).from_table ≡ true
unfolding seed_from_table
seeded-from_table env q l =
    let filled = λ (x : Query). x.from_table ≡ true in
    let nodes = closest env.table q.target (bucket_size - length q.pending) in
    if_cases _ _ filled (leb bucket_size (length q.pending))
      (λ e. absurd (omega (arith, leb→le bucket_size (length q.pending) e)))
      (λ e.
        add_nodes-kept filled (λ x a b c d e f g h i t. t) env (record q { from_table = true })
          (reverse (pending_all nodes)) refl)

empty_short : (p i : ℕ) → (ltb 0 p || ltb 0 i) ≡ false → p < bucket_size
empty_short p i h = ground arith

retried :
    {X : Type 0} {again : Query}
    → (t b : Bool) → (not t && b) ≡ true
    → (t ≡ true) ⊎ (X → IsAwake again)
    → X
    → IsAwake again
retried true b h f x = absurd cc
retried false b h (inl e) x = let k : false ≡ true = e in absurd cc
retried false b h (inr w) x = w x

-- The query is awake behind the loop if one that is not seeded from the table is behind the second reading.
go_on-IsAwake :
    (limit : ℕ) (env : Environment) (r again : Query)
    → 0 < limit
    → IsDrained limit r
    → IsReady r
    → (r.from_table ≡ true) ⊎ ((seed_from_table env r).from_table ≡ true → IsAwake again)
    → IsAwake (go_on r (seed_from_table env r) again)
unfolding go_on
go_on-IsAwake limit env r again l d w f =
    let seeded = seed_from_table env r in
    let some_left = ltb 0 (length r.pending) || ltb 0 r.inflight in
    if_cases _ _ IsAwake some_left
      (λ b. record {
        concurrent = w.0;
        promised = w.1;
        live = inr (inr (drained-inflight limit (length r.pending) r.inflight l d b));
      })
      (λ b.
        if_cases _ _ IsAwake (not r.from_table && ltb r.successes (bucket_size / 4))
          (λ c.
            if_cases _ _ IsAwake seeded.from_table
              (λ g. retried r.from_table (ltb r.successes (bucket_size / 4)) c f g)
              (λ g.
                let k : true ≡ false =
                  sym (seeded-from_table env r (empty_short (length r.pending) r.inflight b)) ∙ g in
                absurd cc))
          (λ c. maybe_finish-IsAwake r (or_swap (ltb 0 (length r.pending)) (ltb 0 r.inflight) b) w))

limit-positive : (slow : Bool) (n : ℕ) → 0 < n → 0 < (if slow then slowdown_concurrency else n)
limit-positive true n h = ground arith
limit-positive false n h = h

-- One reading, with what the second makes of the seeded query.
read-IsAwake :
    (env : Environment) (n : ℕ) (q : Query)
    → IsReady q
    → (q.from_table ≡ true)
      ⊎ ((x : Query) → x.from_table ≡ true → IsReady x → IsAwake (read_more env n x))
    → IsAwake (read_more env (suc n) q)
unfolding read_more
read-IsAwake env n q w f =
    let limit = effective_concurrency q in
    let looped = read_loop limit q.pending q in
    let r = engage_slowdown looped in
    let seeded = seed_from_table env r in
    let filled = λ (x : Query). x.from_table ≡ true in
    let v : IsReady r =
      engage_slowdown-kept IsReady (λ x a b c d e f g h i t. t) looped
        (read_loop-kept IsReady (λ x a b c d e f g h i t. t) limit q.pending q w) in
    let d : IsDrained limit r =
      engage_slowdown-IsDrained limit looped (read_loop-IsDrained limit q.pending q) in
    let again : (r.from_table ≡ true)
        ⊎ (seeded.from_table ≡ true → IsAwake (read_more env n seeded)) =
      elim f [
        | inl t ↦ inl (
            engage_slowdown-kept filled (λ x a b c d e f g h i t. t) looped
              (read_loop-kept filled (λ x a b c d e f g h i t. t) limit q.pending q t))
        | inr h ↦ inr (λ g.
            h seeded g
              (seed_from_table-kept IsReady (λ x a b c d e f g h i t. t) env (λ x t. t) r v))
      ] in
    if_cases q (go_on r seeded (read_more env n seeded)) IsAwake q.done
      (λ e. record { concurrent = w.0; promised = w.1; live = inl e })
      (λ e.
        go_on-IsAwake limit env r (read_more env n seeded)
          (limit-positive q.slowdown q.concurrency w.0) d v again)

-- Two readings are enough.
pub read_more-IsAwake : (env : Environment) (q : Query) → IsReady q → IsAwake (read_more env 2 q)
read_more-IsAwake env q w = read-IsAwake env 1 q w (inr (λ x t v. read-IsAwake env 0 x v (inl t)))
