-- ===== src/Query/Reading.antt =====
-- `read_more` and `start` of query.cpp, for what their parts keep.
use hyperdht_cpp.Prelude.{ℕ, zero, suc, ◌/◌, ◌||◌, ◌&&◌, not, [], ltb, length, if_cases}
use hyperdht_cpp.Routing.Bucket.{bucket_size}
use hyperdht_cpp.Query.{
  Environment, Query, add_nodes, effective_concurrency, engage_slowdown, go_on, maybe_finish,
  read_loop, read_more, seed_from_table, start, top_up,
}

-- `Q` is what `maybe_finish` makes of `P`.
module _ (env : Environment) (P Q : Query → Type 0)
    (read : (q : Query)
      → P q
      → P (engage_slowdown (read_loop (effective_concurrency q) q.pending q)))
    (seed : (q : Query) → P q → P (seed_from_table env q)) (weaken : (q : Query) → P q → Q q)
    (finish : (q : Query) → P q → Q (maybe_finish q)) where
  go_on-closed : (r seeded again : Query) → P r → P seeded → Q again → Q (go_on r seeded again)
  unfolding go_on
  go_on-closed r seeded again u v w =
      if_cases _ _ Q (ltb 0 (length r.pending) || ltb 0 r.inflight) (λ b. weaken r u)
        (λ b.
          if_cases _ _ Q (not r.from_table && ltb r.successes (bucket_size / 4))
            (λ c. if_cases _ _ Q seeded.from_table (λ d. w) (λ d. finish seeded v))
            (λ c. finish r u))

  pub read_more-closed : (fuel : ℕ) (q : Query) → P q → Q (read_more env fuel q)
  unfolding read_more
  read_more-closed zero q p = weaken q p
  read_more-closed (suc n) q p =
      let r = engage_slowdown (read_loop (effective_concurrency q) q.pending q) in
      let seeded = seed_from_table env r in
      if_cases q (go_on r seeded (read_more env n seeded)) Q q.done (λ a. weaken q p)
        (λ a.
          go_on-closed r seeded (read_more env n seeded) (read q p) (seed r (read q p))
            (read_more-closed n seeded (seed r (read q p))))

  pub start-closed :
      (q : Query) → P (record (add_nodes env q q.pre_seeds) { pre_seeds = [] }) → Q (start env q)
  unfolding start
  start-closed q a =
      let added = record (add_nodes env q q.pre_seeds) { pre_seeds = [] } in
      read_more-closed 2 (top_up env added)
        (if_cases _ _ P (ltb (length added.pending) bucket_size) (λ e. seed added a) (λ e. a))
