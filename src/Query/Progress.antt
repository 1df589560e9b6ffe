-- ===== src/Query/Progress.antt =====
-- What a `Query` of query.cpp that is not done waits for.
use hyperdht_cpp.Prelude.{
  ℕ, ◌+◌, ◌-◌, ◌<◌, refl, true, false, ◌&&◌, not, Option, none, some, List, [], ◌∷◌, ltb, ◌==◌,
  length, get_elem?, if_cases, inl, inr,
}
use hyperdht_cpp.Messages.Response.{Response}
use hyperdht_cpp.Routing.Bucket.{bucket_size}
use hyperdht_cpp.Query.{
  add_nodes, Environment, Event, PendingNode, Query, QueryReply, answer, answer_at, callback,
  committed, counted_reply, destroy, destroyed, dispatch_reply, down, fire_done_once, fire_pending,
  mark, on_committed, on_visit_response, on_visit_timeout, read_more, remove_at, reply_of, run,
  start, step, top_up,
}
use hyperdht_cpp.Query.Frame.{add_nodes-kept, counted_reply-kept, seed_from_table-kept}
use hyperdht_cpp.Query.Awake.{
  IsLive, IsAwake, IsReady, fire_done_once-IsAwake, positive, read_more-IsAwake,
}

pub start-IsAwake : (env : Environment) (q : Query) → IsReady q → IsAwake (start env q)
unfolding start
start-IsAwake env q w =
    let added = record (add_nodes env q q.pre_seeds) { pre_seeds = [] } in
    let a : IsReady added =
      add_nodes-kept IsReady (λ x a b c d e f g h i t. t) env q q.pre_seeds w in
    read_more-IsAwake env (top_up env added) (
      if_cases _ _ IsReady (ltb (length added.pending) bucket_size)
        (λ e. seed_from_table-kept IsReady (λ x a b c d e f g h i t. t) env (λ x t. t) added a)
        (λ e. a))

fire_done_once-live : (q : Query) → IsAwake q → IsAwake (fire_done_once q)
unfolding fire_done_once
fire_done_once-live q w =
    if_cases _ _ IsAwake (not q.pending_done_fired && q.has_done)
      (λ e. record { concurrent = w.concurrent; promised = w.promised; live = w.live }) (λ e. w)

fire_pending-IsAwake : (q : Query) → IsAwake q → IsAwake (fire_pending q)
fire_pending-IsAwake q w =
    if_cases _ _ IsAwake q.pending_done
      (λ e.
        fire_done_once-live (record q { pending_done = false })
          (record { concurrent = w.concurrent; promised = w.promised; live = w.live }))
      (λ e. w)

dispatch_reply-IsReady :
    (env : Environment) (r : QueryReply) (q : Query) → IsReady q → IsReady (dispatch_reply env r q)
dispatch_reply-IsReady env r q w =
    if_cases _ _ IsReady (env.stops r) (λ e. (w.0, inl refl)) (λ e. w)

callback-IsAwake :
    (env : Environment) (resp : Option Response) (n : PendingNode) (q : Query)
    → IsReady q
    → IsAwake (callback env resp n q)
unfolding on_visit_timeout on_visit_response
callback-IsAwake env none n q w =
    if_cases _ _ IsAwake q.done (λ e. record { concurrent = w.0; promised = w.1; live = inl e })
      (λ e.
        read_more-IsAwake env (record q { seen = mark q.seen n.addr down; errors = q.errors + 1 })
          w)
callback-IsAwake env (some resp) n q w =
    let counted = counted_reply env q n resp in
    let told = dispatch_reply env (reply_of n resp) counted in
    let c : IsReady counted =
      counted_reply-kept IsReady (λ x a b c d e f g h i t. t) env q n resp w in
    if_cases _ _ IsAwake q.done (λ e. record { concurrent = w.0; promised = w.1; live = inl e })
      (λ e.
        fire_pending-IsAwake (read_more env 2 told)
          (read_more-IsAwake env told (dispatch_reply-IsReady env (reply_of n resp) counted c)))

answer_at-IsAwake :
    (env : Environment) (o : Option PendingNode) (i : ℕ) (resp : Option Response) (q : Query)
    → IsAwake q
    → IsAwake (answer_at env o i resp q)
answer_at-IsAwake env none i resp q w = w
answer_at-IsAwake env (some n) i resp q w =
    callback-IsAwake env resp n
      (record q { inflight = q.inflight - 1; waiting = remove_at i q.waiting })
      (w.concurrent, w.promised)

destroy-IsAwake : (q : Query) → IsAwake q → IsAwake (destroy q)
unfolding destroy
destroy-IsAwake q w =
    if_cases _ _ IsAwake q.done (λ e. w)
      (λ e.
        fire_done_once-IsAwake (record q { done = true; pending = []; committing = true }) refl
          w.concurrent)

left-IsAwake :
    (q : Query)
    → 0 < q.commit_inflight - 1
    → IsAwake q
    → IsLive q
    → IsAwake (record q { commit_inflight = q.commit_inflight - 1 })
left-IsAwake q l w (inl d) = record { concurrent = w.concurrent; promised = inl d; live = inl d }
left-IsAwake q l w (inr (inl c)) = record {
  concurrent = w.concurrent;
  promised = inr (inr l);
  live = inr (inl (c.0, l));
}
left-IsAwake q l w (inr (inr i)) = record {
  concurrent = w.concurrent;
  promised = inr (inr l);
  live = inr (inr i);
}

on_committed-IsAwake : (q : Query) → IsAwake q → IsAwake (on_committed q)
unfolding on_committed
on_committed-IsAwake q w =
    let left = record q { commit_inflight = q.commit_inflight - 1 } in
    if_cases _ _ IsAwake (left.commit_inflight == 0)
      (λ e. fire_done_once-IsAwake (record left { done = true }) refl w.concurrent)
      (λ e. left-IsAwake q (positive (q.commit_inflight - 1) e) w w.live)

pub step-IsAwake : (env : Environment) (q : Query) (e : Event) → IsAwake q → IsAwake (step env q e)
unfolding step
step-IsAwake env q (answer i resp) w = answer_at-IsAwake env (get_elem? q.waiting i) i resp q w
step-IsAwake env q committed w =
    if_cases _ _ IsAwake (ltb 0 q.commit_inflight) (λ e. on_committed-IsAwake q w) (λ e. w)
step-IsAwake env q destroyed w = destroy-IsAwake q w

run-IsAwake : (q : Query) (es : List (Environment × Event)) → IsAwake q → IsAwake (run q es)
unfolding run
run-IsAwake q [] w = w
run-IsAwake q (e ∷ es) w = run-IsAwake (step e.0 q e.1) es (step-IsAwake e.0 q e.1 w)

-- Of a query that asks at least one node at a time and is not committing: after the start and any responses,
-- timeouts, answered commits and calls of `destroy`, in any order, it is done, or waits for a commit that is
-- not answered, or for a request that is in flight.
pub life-IsLive :
    (env : Environment) (q : Query) (es : List (Environment × Event))
    → IsReady q
    → IsLive (run (start env q) es)
life-IsLive env q es r = (run-IsAwake (start env q) es (start-IsAwake env q r)).live
