-- ===== src/Query/Termination/Walk.antt =====
-- How many visits the frontier of a `Query` of query.cpp has left.
use mathlib.Core.List.{reverse}
use hyperdht_cpp.Prelude.{
  ℕ, ◌+◌, ◌-◌, ◌*◌, ◌≡◌, ◌≤◌, Bool, true, false, ◌||◌, ◌&&◌, not, Option, none, some, List, [], ◌∷◌,
  if◌then◌else◌, ltb, leb, ◌==◌, length, arith, if_cases,
}
use hyperdht_cpp.Compact.Address.{Address}
use hyperdht_cpp.Messages.Response.{Response}
use hyperdht_cpp.Routing.Id.{id_eq}
use hyperdht_cpp.Routing.Bucket.{bucket_size}
use hyperdht_cpp.Routing.Table.{closest}
use hyperdht_cpp.Query.{
  add_closer, add_nodes, add_pending, Environment, PendingNode, Query, QueryReply, answered,
  callback, count_result, dispatch_reply, do_commit, down, effective_concurrency, engage_slowdown,
  fire_done_once, fire_pending, is_seen, is_skipped, is_success, mark, max_seen, maybe_finish,
  on_visit_response, on_visit_timeout, pending_all, push_reply, read_loop, read_more,
  release_slowdown, reply_of, seed_from_table, start, unasked, visit, with_token, zero_id,
}
use hyperdht_cpp.Query.Reading.{read_more-closed, start-closed}
use hyperdht_cpp.Query.Frontier.{length-mark_new, length-mark_seen}
use hyperdht_cpp.Query.Invariant.{or_false, leb→gt}

-- An address that is not seen yet may be added, visited and answered.
abbrev pub walk_of : ℕ → ℕ → ℕ → ℕ
walk_of seen pending waiting = 3 * (max_seen - seen) + (2 * pending + waiting)

abbrev pub walk : Query → ℕ
walk q = walk_of (length q.seen) (length q.pending) (length q.waiting)

abbrev pub IsWithin : ℕ → Query → Type 0
IsWithin m q = walk q ≤ m

module _ (m : ℕ) where
  read_loop-IsWithin :
      (limit : ℕ) (ns : List PendingNode) (q : Query)
      → walk_of (length q.seen) (length ns) (length q.waiting) ≤ m
      → IsWithin m (read_loop limit ns q)
  unfolding read_loop
  read_loop-IsWithin limit [] q w = w
  read_loop-IsWithin limit (n ∷ ns) q w =
      let next = if is_skipped q n then q else visit q n in
      if_cases (read_loop limit ns next) (record q { pending = n ∷ ns }) (IsWithin m)
        (ltb q.inflight limit)
        (λ e. read_loop-IsWithin limit ns next (
          if_cases q (visit q n)
            (λ (x : Query). walk_of (length x.seen) (length ns) (length x.waiting) ≤ m)
            (is_skipped q n) (λ s. omega arith) (λ s. omega arith)))
        (λ e. w)

  pub fire_done_once-IsWithin : (q : Query) → IsWithin m q → IsWithin m (fire_done_once q)
  unfolding fire_done_once
  fire_done_once-IsWithin q w =
      if_cases _ _ (IsWithin m) (not q.pending_done_fired && q.has_done) (λ e. w) (λ e. w)

  do_commit-IsWithin : (q : Query) → IsWithin m q → IsWithin m (do_commit q)
  unfolding do_commit
  do_commit-IsWithin q w =
      let asked = with_token q.closest_replies in
      let begun = record q { committing = true; commit_inflight = length asked; commits = asked } in
      if_cases _ _ (IsWithin m) (length asked == 0)
        (λ e. fire_done_once-IsWithin (record begun { done = true }) w) (λ e. w)

  maybe_finish-IsWithin : (q : Query) → IsWithin m q → IsWithin m (maybe_finish q)
  unfolding maybe_finish
  maybe_finish-IsWithin q w =
      if_cases _ _ (IsWithin m) (q.done || q.committing) (λ a. w)
        (λ a.
          if_cases _ _ (IsWithin m) (ltb 0 q.inflight || ltb 0 (length q.pending)) (λ b. w)
            (λ b.
              if_cases _ _ (IsWithin m) q.has_commit (λ c. do_commit-IsWithin q w)
                (λ c. fire_done_once-IsWithin (record q { done = true }) w)))

  engage_slowdown-IsWithin : (q : Query) → IsWithin m q → IsWithin m (engage_slowdown q)
  engage_slowdown-IsWithin q w =
      if_cases _ _ (IsWithin m) (not q.from_table && ((q.successes == 0) && (q.errors == 0)))
        (λ e. w) (λ e. w)

  release_slowdown-IsWithin : (q : Query) → IsWithin m q → IsWithin m (release_slowdown q)
  release_slowdown-IsWithin q w =
      if_cases _ _ (IsWithin m) (not q.from_table && leb q.concurrency (q.successes + q.errors))
        (λ e. w) (λ e. w)

  count_result-IsWithin : (b : Bool) (q : Query) → IsWithin m q → IsWithin m (count_result b q)
  count_result-IsWithin true q w = w
  count_result-IsWithin false q w = w

  push_reply-IsWithin :
      (b : Bool) (r : QueryReply) (q : Query) → IsWithin m q → IsWithin m (push_reply b r q)
  push_reply-IsWithin b r q w =
      if_cases _ _ (IsWithin m) (b && not (id_eq r.from_id zero_id)) (λ e. w) (λ e. w)

  fire_pending-IsWithin : (q : Query) → IsWithin m q → IsWithin m (fire_pending q)
  fire_pending-IsWithin q w =
      if_cases _ _ (IsWithin m) q.pending_done
        (λ e. fire_done_once-IsWithin (record q { pending_done = false }) w) (λ e. w)

  module _ (env : Environment) where
    add_pending-IsWithin :
        (q : Query) (id : List ℕ) (a : Address) → IsWithin m q → IsWithin m (add_pending env q id a)
    unfolding add_pending
    add_pending-IsWithin q id a w =
        if_cases _ _ (IsWithin m)
          (is_seen q.seen a || (leb max_seen (length q.seen) || not (env.filter_accept id a)))
          (λ e. w)
          (λ e.
            let f =
              or_false (is_seen q.seen a) (leb max_seen (length q.seen))
                (not (env.filter_accept id a)) e in
            omega
              (arith, w, length-mark_new q.seen a unasked f.0, leb→gt max_seen (length q.seen) f.1))

    add_nodes-IsWithin :
        (q : Query) (ns : List PendingNode) → IsWithin m q → IsWithin m (add_nodes env q ns)
    add_nodes-IsWithin q [] w = w
    add_nodes-IsWithin q (n ∷ ns) w =
        add_nodes-IsWithin (add_pending env q n.id n.addr) ns (add_pending-IsWithin q n.id n.addr w)

    seed_from_table-IsWithin : (q : Query) → IsWithin m q → IsWithin m (seed_from_table env q)
    unfolding seed_from_table
    seed_from_table-IsWithin q w =
        let nodes = closest env.table q.target (bucket_size - length q.pending) in
        if_cases _ _ (IsWithin m) (leb bucket_size (length q.pending)) (λ e. w)
          (λ e. add_nodes-IsWithin (record q { from_table = true }) (reverse (pending_all nodes)) w)

    add_closer-IsWithin :
        (q : Query) (as' : List Address) → IsWithin m q → IsWithin m (add_closer env q as')
    unfolding add_closer
    add_closer-IsWithin q [] w = w
    add_closer-IsWithin q (a ∷ as') w =
        let id = env.peer_id a in
        let added = if (a.port == 0) || id_eq id env.table.id then q else add_pending env q id a in
        add_closer-IsWithin added as' (
          if_cases _ _ (IsWithin m) ((a.port == 0) || id_eq id env.table.id) (λ e. w)
            (λ e. add_pending-IsWithin q id a w))

    read_once-IsWithin :
        (q : Query)
        → IsWithin m q
        → IsWithin m (engage_slowdown (read_loop (effective_concurrency q) q.pending q))
    read_once-IsWithin q w =
        engage_slowdown-IsWithin (read_loop (effective_concurrency q) q.pending q)
          (read_loop-IsWithin (effective_concurrency q) q.pending q w)

    read_more-IsWithin : (fuel : ℕ) (q : Query) → IsWithin m q → IsWithin m (read_more env fuel q)
    read_more-IsWithin =
        read_more-closed env (IsWithin m) (IsWithin m) read_once-IsWithin seed_from_table-IsWithin
          (λ q w. w) maybe_finish-IsWithin

    pub start-IsWithin : (q : Query) → IsWithin m q → IsWithin m (start env q)
    start-IsWithin q w =
        start-closed env (IsWithin m) (IsWithin m) read_once-IsWithin seed_from_table-IsWithin
          (λ x u. u) maybe_finish-IsWithin q (add_nodes-IsWithin q q.pre_seeds w)

    -- A callback takes no more than the node that waited.
    pub callback-IsWithin :
        (resp : Option Response) (n : PendingNode) (q : Query)
        → is_seen q.seen n.addr ≡ true
        → IsWithin m q
        → IsWithin m (callback env resp n q)
    unfolding on_visit_timeout on_visit_response
    callback-IsWithin none n q s w =
        if_cases _ _ (IsWithin m) q.done (λ e. w)
          (λ e.
            read_more-IsWithin 2
              (record q { seen = mark q.seen n.addr down; errors = q.errors + 1 })
              (omega (arith, w, length-mark_seen q.seen n.addr down s)))
    callback-IsWithin (some resp) n q s w =
        let good = is_success resp in
        let reply = reply_of n resp in
        let marked = record q { seen = mark q.seen n.addr answered } in
        let counted = count_result good marked in
        let pushed = push_reply good reply counted in
        let closer = add_closer env pushed resp.closer_nodes in
        let told = dispatch_reply env reply (release_slowdown closer) in
        let c : IsWithin m marked = omega (arith, w, length-mark_seen q.seen n.addr answered s) in
        let d : IsWithin m closer =
          add_closer-IsWithin pushed resp.closer_nodes
            (push_reply-IsWithin good reply counted (count_result-IsWithin good marked c)) in
        let x : IsWithin m (release_slowdown closer) = release_slowdown-IsWithin closer d in
        let t : IsWithin m told =
          if_cases _ _ (IsWithin m) (env.stops reply) (λ e. omega arith) (λ e. x) in
        if_cases _ _ (IsWithin m) q.done (λ e. w)
          (λ e. fire_pending-IsWithin (read_more env 2 told) (read_more-IsWithin 2 told t))
