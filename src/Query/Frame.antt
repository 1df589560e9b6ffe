-- ===== src/Query/Frame.antt =====
-- The part of query.cpp that reads and asks, for what depends on none of its fields.
use mathlib.Core.List.{reverse}
use hyperdht_cpp.Prelude.{
  ℕ, ◌+◌, ◌-◌, Bool, true, false, ◌||◌, ◌&&◌, not, List, [], ◌∷◌, if◌then◌else◌, ltb, leb, ◌==◌,
  length, if_cases,
}
use hyperdht_cpp.Compact.Address.{Address}
use hyperdht_cpp.Messages.Response.{Response}
use hyperdht_cpp.Routing.Id.{id_eq}
use hyperdht_cpp.Routing.Bucket.{bucket_size}
use hyperdht_cpp.Routing.Table.{closest}
use hyperdht_cpp.Query.Reading.{read_more-closed, start-closed}
use hyperdht_cpp.Query.{
  Environment, PendingNode, Query, QueryReply, Seen, add_closer, add_nodes, add_pending,
  count_result, engage_slowdown, is_seen, is_skipped, mark, max_seen, maybe_finish, read_more,
  effective_concurrency, counted_reply, is_success, reply_of, answered, start, pending_all,
  push_closest, push_reply, read_loop, release_slowdown, seed_from_table, unasked, visit, zero_id,
}

module _ (P : Query → Type 0) where
  -- Kept whatever the frontier, the requests, the replies and the counters become.
  abbrev pub IsFrame : Type 0
  IsFrame =
      (q : Query) (seen : List Seen) (pending waiting sent : List PendingNode)
      (inflight successes errors : ℕ) (slowdown : Bool) (closest_replies : List QueryReply)
      → P q
      → P (record q {
        seen = seen;
        pending = pending;
        waiting = waiting;
        sent = sent;
        inflight = inflight;
        successes = successes;
        errors = errors;
        slowdown = slowdown;
        closest_replies = closest_replies;
      })

module _ (P : Query → Type 0) (frame : IsFrame P) where
  pub read_loop-kept :
      (limit : ℕ) (ns : List PendingNode) (q : Query) → P q → P (read_loop limit ns q)
  unfolding read_loop
  read_loop-kept limit [] q p =
      frame q q.seen [] q.waiting q.sent q.inflight q.successes q.errors q.slowdown
        q.closest_replies p
  read_loop-kept limit (n ∷ ns) q p =
      let next = if is_skipped q n then q else visit q n in
      if_cases (read_loop limit ns next) (record q { pending = n ∷ ns }) P (ltb q.inflight limit)
        (λ e. read_loop-kept limit ns next (
          if_cases q (visit q n) P (is_skipped q n) (λ s. p)
            (λ s.
              frame q q.seen q.pending (n ∷ q.waiting) (n ∷ q.sent) (q.inflight + 1) q.successes
                q.errors q.slowdown q.closest_replies p)))
        (λ e.
          frame q q.seen (n ∷ ns) q.waiting q.sent q.inflight q.successes q.errors q.slowdown
            q.closest_replies p)

  pub engage_slowdown-kept : (q : Query) → P q → P (engage_slowdown q)
  engage_slowdown-kept q p =
      if_cases _ _ P (not q.from_table && ((q.successes == 0) && (q.errors == 0)))
        (λ e.
          frame q q.seen q.pending q.waiting q.sent q.inflight q.successes q.errors true
            q.closest_replies p)
        (λ e. p)

  pub release_slowdown-kept : (q : Query) → P q → P (release_slowdown q)
  release_slowdown-kept q p =
      if_cases _ _ P (not q.from_table && leb q.concurrency (q.successes + q.errors))
        (λ e.
          frame q q.seen q.pending q.waiting q.sent q.inflight q.successes q.errors false
            q.closest_replies p)
        (λ e. p)

  pub count_result-kept : (b : Bool) (q : Query) → P q → P (count_result b q)
  count_result-kept true q p =
      frame q q.seen q.pending q.waiting q.sent q.inflight (q.successes + 1) q.errors q.slowdown
        q.closest_replies p
  count_result-kept false q p =
      frame q q.seen q.pending q.waiting q.sent q.inflight q.successes (q.errors + 1) q.slowdown
        q.closest_replies p

  pub push_reply-kept : (b : Bool) (r : QueryReply) (q : Query) → P q → P (push_reply b r q)
  push_reply-kept b r q p =
      if_cases _ _ P (b && not (id_eq r.from_id zero_id))
        (λ e.
          frame q q.seen q.pending q.waiting q.sent q.inflight q.successes q.errors q.slowdown
            (push_closest q.target q.closest_replies r) p)
        (λ e. p)

  module _ (env : Environment) where
    pub add_pending-kept :
        (q : Query) (id : List ℕ) (a : Address) → P q → P (add_pending env q id a)
    unfolding add_pending
    add_pending-kept q id a p =
        if_cases _ _ P
          (is_seen q.seen a || (leb max_seen (length q.seen) || not (env.filter_accept id a)))
          (λ e. p)
          (λ e.
            frame q (mark q.seen a unasked) (record { id = id; addr = a } ∷ q.pending) q.waiting
              q.sent q.inflight q.successes q.errors q.slowdown q.closest_replies p)

    pub add_nodes-kept : (q : Query) (ns : List PendingNode) → P q → P (add_nodes env q ns)
    add_nodes-kept q [] p = p
    add_nodes-kept q (n ∷ ns) p =
        add_nodes-kept (add_pending env q n.id n.addr) ns (add_pending-kept q n.id n.addr p)

    pub seed_from_table-kept :
        ((x : Query) → P x → P (record x { from_table = true }))
        → (q : Query) → P q
        → P (seed_from_table env q)
    unfolding seed_from_table
    seed_from_table-kept table q p =
        let nodes = closest env.table q.target (bucket_size - length q.pending) in
        if_cases _ _ P (leb bucket_size (length q.pending)) (λ e. p)
          (λ e.
            add_nodes-kept (record q { from_table = true }) (reverse (pending_all nodes))
              (table q p))

    pub add_closer-kept : (q : Query) (as' : List Address) → P q → P (add_closer env q as')
    unfolding add_closer
    add_closer-kept q [] p = p
    add_closer-kept q (a ∷ as') p =
        let id = env.peer_id a in
        let added = if (a.port == 0) || id_eq id env.table.id then q else add_pending env q id a in
        add_closer-kept added as' (
          if_cases _ _ P ((a.port == 0) || id_eq id env.table.id) (λ e. p)
            (λ e. add_pending-kept q id a p))

    -- What `on_visit_response` has done before it calls the reply callback.
    pub counted_reply-kept :
        (q : Query) (n : PendingNode) (resp : Response) → P q → P (counted_reply env q n resp)
    counted_reply-kept q n resp p =
        let good = is_success resp in
        let reply = reply_of n resp in
        let marked = record q { seen = mark q.seen n.addr answered } in
        let counted = count_result good marked in
        let pushed = push_reply good reply counted in
        let m : P marked =
          frame q marked.seen q.pending q.waiting q.sent q.inflight q.successes q.errors q.slowdown
            q.closest_replies p in
        let c : P pushed = push_reply-kept good reply counted (count_result-kept good marked m) in
        release_slowdown-kept (add_closer env pushed resp.closer_nodes)
          (add_closer-kept pushed resp.closer_nodes c)

-- `Q` is what `maybe_finish` makes of `P`.
module _ (P Q : Query → Type 0) (frame : IsFrame P)
    (table : (q : Query) → P q → P (record q { from_table = true }))
    (weaken : (q : Query) → P q → Q q) (finish : (q : Query) → P q → Q (maybe_finish q)) where
  module _ (env : Environment) where
    frame_read :
        (q : Query) → P q → P (engage_slowdown (read_loop (effective_concurrency q) q.pending q))
    frame_read q p =
        engage_slowdown-kept P frame (read_loop (effective_concurrency q) q.pending q)
          (read_loop-kept P frame (effective_concurrency q) q.pending q p)

    pub read_more-kept : (fuel : ℕ) (q : Query) → P q → Q (read_more env fuel q)
    read_more-kept =
        read_more-closed env P Q frame_read (seed_from_table-kept P frame env table) weaken finish

    pub start-kept :
        ((x : Query) → P x → P (record x { pre_seeds = [] })) → (q : Query) → P q → Q (start env q)
    start-kept emptied q p =
        start-closed env P Q frame_read (seed_from_table-kept P frame env table) weaken finish q
          (emptied (add_nodes env q q.pre_seeds) (add_nodes-kept P frame env q q.pre_seeds p))
