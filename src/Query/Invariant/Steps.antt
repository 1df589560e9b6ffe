-- ===== src/Query/Invariant/Steps.antt =====
-- The operations of a `Query` of query.cpp, each on its invariant.
use mathlib.Core.List.{reverse}
use hyperdht_cpp.Prelude.{
  ℕ, suc, ◌+◌, ◌-◌, ◌≡◌, refl, Bool, true, ◌||◌, not, Option, none, some, List, [], ◌∷◌,
  if◌then◌else◌, ltb, leb, ◌==◌, length, All, get_elem?, arith, if_cases,
}
use hyperdht_cpp.Compact.Address.{Address}
use hyperdht_cpp.Messages.Response.{Response}
use hyperdht_cpp.Routing.Id.{id_eq}
use hyperdht_cpp.Routing.Bucket.{bucket_size}
use hyperdht_cpp.Routing.Table.{closest}
use hyperdht_cpp.Query.{
  Environment, Event, PendingNode, Query, QueryReply, add_closer, add_nodes, add_pending, answer,
  answer_at, answered, callback, committed, count_result, create, destroyed, dispatch_reply, down,
  effective_concurrency, engage_slowdown, id_or_zero, is_seen, is_success, mark, max_seen,
  on_visit_response, on_visit_timeout, pending_all, push_reply, read_loop, read_more,
  release_slowdown, remove_at, reply_of, run, seed_from_table, start, step,
}
use hyperdht_cpp.Query.Reading.{read_more-closed, start-closed}
use hyperdht_cpp.Query.Frontier.{get-is_seen, length-remove_at, remove_at-AreSeen}
use hyperdht_cpp.Query.Invariant.{
  IsQuery, maybe_finish-IsQuery, read_loop-IsQuery, clear-IsQuery, add-IsQuery, mark-IsQuery,
  push_reply-IsQuery, count_result-IsQuery, release_slowdown-IsQuery, engage_slowdown-IsQuery,
  fire_pending-IsQuery, destroy-IsQuery, on_committed-IsQuery, or_false, leb→gt, limit-le,
}

module _ (env : Environment) where
  pub add_pending-IsQuery :
      (q : Query) (id : List ℕ) (a : Address) → IsQuery q → IsQuery (add_pending env q id a)
  unfolding add_pending
  add_pending-IsQuery q id a w =
      let refused = leb max_seen (length q.seen) || not (env.filter_accept id a) in
      if_cases _ _ IsQuery (is_seen q.seen a || refused) (λ e. w)
        (λ e.
          let f =
            or_false (is_seen q.seen a) (leb max_seen (length q.seen))
              (not (env.filter_accept id a)) e in
          add-IsQuery q (record { id = id; addr = a }) f.0 (leb→gt max_seen (length q.seen) f.1) w)

  pub add_nodes-IsQuery :
      (q : Query) (ns : List PendingNode) → IsQuery q → IsQuery (add_nodes env q ns)
  add_nodes-IsQuery q [] w = w
  add_nodes-IsQuery q (n ∷ ns) w =
      add_nodes-IsQuery (add_pending env q n.id n.addr) ns (add_pending-IsQuery q n.id n.addr w)

  pub seed_from_table-IsQuery : (q : Query) → IsQuery q → IsQuery (seed_from_table env q)
  unfolding seed_from_table
  seed_from_table-IsQuery q w =
      let nodes = closest env.table q.target (bucket_size - length q.pending) in
      if_cases _ _ IsQuery (leb bucket_size (length q.pending)) (λ e. w)
        (λ e. add_nodes-IsQuery (record q { from_table = true }) (reverse (pending_all nodes)) w)

  read_once-IsQuery :
      (q : Query)
      → IsQuery q
      → IsQuery (engage_slowdown (read_loop (effective_concurrency q) q.pending q))
  read_once-IsQuery q w =
      engage_slowdown-IsQuery (read_loop (effective_concurrency q) q.pending q) (
        read_loop-IsQuery (effective_concurrency q) q.pending q (limit-le q.slowdown q.concurrency)
          w)

  read_more-IsQuery : (fuel : ℕ) (q : Query) → IsQuery q → IsQuery (read_more env fuel q)
  read_more-IsQuery =
      read_more-closed env IsQuery IsQuery read_once-IsQuery seed_from_table-IsQuery (λ q w. w)
        maybe_finish-IsQuery

  pub add_closer-IsQuery :
      (q : Query) (as' : List Address) → IsQuery q → IsQuery (add_closer env q as')
  unfolding add_closer
  add_closer-IsQuery q [] w = w
  add_closer-IsQuery q (a ∷ as') w =
      let id = env.peer_id a in
      let added = if (a.port == 0) || id_eq id env.table.id then q else add_pending env q id a in
      add_closer-IsQuery added as' (
        if_cases _ _ IsQuery ((a.port == 0) || id_eq id env.table.id) (λ e. w)
          (λ e. add_pending-IsQuery q id a w))

  pub dispatch_reply-IsQuery :
      (r : QueryReply) (q : Query) → IsQuery q → IsQuery (dispatch_reply env r q)
  dispatch_reply-IsQuery r q w =
      if_cases _ _ IsQuery (env.stops r) (λ e. clear-IsQuery q w) (λ e. w)

  pub on_visit_response-IsQuery :
      (q : Query) (n : PendingNode) (resp : Response)
      → length (id_or_zero resp.id) ≡ 32
      → is_seen q.seen n.addr ≡ true
      → IsQuery q
      → IsQuery (on_visit_response env q n resp)
  unfolding on_visit_response
  on_visit_response-IsQuery q n resp l s w =
      let reply = reply_of n resp in
      let good = is_success resp in
      let marked = record q { seen = mark q.seen n.addr answered } in
      let counted = count_result good marked in
      let pushed = push_reply good reply counted in
      let closer = add_closer env pushed resp.closer_nodes in
      let told = dispatch_reply env reply (release_slowdown closer) in
      let c : IsQuery counted =
        count_result-IsQuery good marked (mark-IsQuery q n.addr answered s w) in
      let d : IsQuery closer =
        add_closer-IsQuery pushed resp.closer_nodes (push_reply-IsQuery good reply counted l c) in
      let t : IsQuery told =
        dispatch_reply-IsQuery reply (release_slowdown closer)
          (release_slowdown-IsQuery closer d) in
      if_cases _ _ IsQuery q.done (λ e. w)
        (λ e. fire_pending-IsQuery (read_more env 2 told) (read_more-IsQuery 2 told t))

  pub on_visit_timeout-IsQuery :
      (q : Query) (n : PendingNode)
      → is_seen q.seen n.addr ≡ true
      → IsQuery q
      → IsQuery (on_visit_timeout env q n)
  unfolding on_visit_timeout
  on_visit_timeout-IsQuery q n s w =
      let marked = record q { seen = mark q.seen n.addr down; errors = q.errors + 1 } in
      if_cases _ _ IsQuery q.done (λ e. w)
        (λ e. read_more-IsQuery 2 marked (mark-IsQuery q n.addr down s w))

  pub start-IsQuery : (q : Query) → IsQuery q → IsQuery (start env q)
  start-IsQuery q w =
      start-closed env IsQuery IsQuery read_once-IsQuery seed_from_table-IsQuery (λ x u. u)
        maybe_finish-IsQuery q (add_nodes-IsQuery q q.pre_seeds w)

-- A response has an identifier of 32 bytes, or none, as `decode_response` leaves it.
abbrev pub IsResponse : Option Response → Type 0
IsResponse none = Unit
IsResponse (some r) = length (id_or_zero r.id) ≡ 32

abbrev pub IsEvent : Event → Type 0
IsEvent (answer i resp) = IsResponse resp
IsEvent committed = Unit
IsEvent destroyed = Unit

taken-IsQuery :
    (q : Query) (i : ℕ) (n : PendingNode)
    → get_elem? q.waiting i ≡ some n
    → IsQuery q
    → IsQuery (record q { inflight = q.inflight - 1; waiting = remove_at i q.waiting })
taken-IsQuery q i n e w =
    let l : suc (length (remove_at i q.waiting)) ≡ length q.waiting =
      length-remove_at q.waiting i n e in
    record {
      frontier = w.frontier;
      seen_waiting = remove_at-AreSeen q.seen q.waiting i w.seen_waiting;
      counted = omega (arith, w.counted, l);
      within = omega (arith, w.within);
      targeted = w.targeted;
      closest = w.closest;
    }

callback-IsQuery :
    (env : Environment) (resp : Option Response) (n : PendingNode) (q : Query)
    → IsResponse resp
    → is_seen q.seen n.addr ≡ true
    → IsQuery q
    → IsQuery (callback env resp n q)
callback-IsQuery env none n q r s w = on_visit_timeout-IsQuery env q n s w
callback-IsQuery env (some resp) n q r s w = on_visit_response-IsQuery env q n resp r s w

answer_at-IsQuery :
    (env : Environment) (o : Option PendingNode) (i : ℕ) (resp : Option Response) (q : Query)
    → get_elem? q.waiting i ≡ o
    → IsResponse resp
    → IsQuery q
    → IsQuery (answer_at env o i resp q)
answer_at-IsQuery env none i resp q e r w = w
answer_at-IsQuery env (some n) i resp q e r w =
    callback-IsQuery env resp n
      (record q { inflight = q.inflight - 1; waiting = remove_at i q.waiting }) r
      (get-is_seen q.seen q.waiting i n e w.seen_waiting) (taken-IsQuery q i n e w)

pub step-IsQuery :
    (env : Environment) (q : Query) (e : Event) → IsEvent e → IsQuery q → IsQuery (step env q e)
unfolding step
step-IsQuery env q (answer i resp) r w =
    answer_at-IsQuery env (get_elem? q.waiting i) i resp q refl r w
step-IsQuery env q committed r w =
    if_cases _ _ IsQuery (ltb 0 q.commit_inflight) (λ e. on_committed-IsQuery q w) (λ e. w)
step-IsQuery env q destroyed r w = destroy-IsQuery q w

run-IsQuery :
    (q : Query) (es : List (Environment × Event))
    → All (λ e. IsEvent e.1) es
    → IsQuery q
    → IsQuery (run q es)
unfolding run
run-IsQuery q [] h w = w
run-IsQuery q (e ∷ es) h w = run-IsQuery (step e.0 q e.1) es h.1 (step-IsQuery e.0 q e.1 h.0 w)

-- The invariant of a query is kept by `start` and by any events behind it whose responses have identifiers
-- of 32 bytes: at most 4096 addresses are seen; the nodes that are pending and those that were asked are
-- seen, and no address is twice among them, so that none is ever asked again; the requests in flight are as
-- many as the callbacks that wait, and no more than the concurrency or 3, whichever is larger; the closest replies are at
-- most 20, nearest first, no two at one distance.
pub life-IsQuery :
    (env : Environment) (q : Query) (es : List (Environment × Event))
    → All (λ e. IsEvent e.1) es
    → IsQuery q
    → IsQuery (run (start env q) es)
life-IsQuery env q es h w = run-IsQuery (start env q) es h (start-IsQuery env q w)

pub create-IsQuery :
    (target : List ℕ) (command : ℕ) (value : Option (List ℕ)) (concurrency : ℕ)
    (has_done has_commit : Bool)
    → length target ≡ 32
    → IsQuery (create target command value concurrency has_done has_commit)
create-IsQuery target command value concurrency has_done has_commit l = record {
  frontier = record {
    few = ground arith;
    total = ground arith;
    seen_pending = tt;
    seen_sent = tt;
    distinct_pending = tt;
    distinct_sent = tt;
    apart = tt;
  };
  seen_waiting = tt;
  counted = refl;
  within = ground arith;
  targeted = l;
  closest = record { ascending = tt; lengths = tt; short = ground arith };
}
