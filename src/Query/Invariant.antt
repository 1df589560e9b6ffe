-- ===== src/Query/Invariant.antt =====
-- The invariant of a `Query` of query.cpp: its frontier, its requests in flight and its closest replies.
pub mod Steps
use mathlib.Core.List.{reverse}
use hyperdht_cpp.Prelude.{
  ℕ, zero, suc, ◌+◌, ◌-◌, ◌/◌, ◌≡◌, ◌≤◌, ◌<◌, refl, ap, sym, subst, ◌∙◌, Bool, true, false, ◌||◌,
  ◌&&◌, not, Option, none, some, List, [], ◌∷◌, if◌then◌else◌, ltb, leb, ◌==◌, length, All,
  get_elem?, replicate, arith, Bool-cases, inl, inr, if_cases, ltb→lt, Option-cases,
}
use hyperdht_cpp.Compact.Address.{Address}
use hyperdht_cpp.Messages.Response.{Response}
use hyperdht_cpp.Routing.Id.{id_eq}
use hyperdht_cpp.Routing.Bucket.{bucket_size}
use hyperdht_cpp.Routing.Table.{closest}
use hyperdht_cpp.Query.{
  Environment, Event, NodeState, PendingNode, Query, QueryReply, Seen, add_closer, add_nodes,
  add_pending, answer, answer_at, answered, callback, committed, count_result, create, destroy,
  destroyed, dispatch_reply, do_commit, down, effective_concurrency, engage_slowdown,
  fire_done_once, fire_pending, go_on, id_or_zero, is_seen, is_skipped, is_success, mark, max_seen,
  maybe_finish, on_committed, on_visit_response, on_visit_timeout, pending_all, push_closest,
  push_reply, read_loop, read_more, release_slowdown, remove_at, reply_of, run, seed_from_table,
  slowdown_concurrency, start, step, visit, with_token, zero_id,
}
use hyperdht_cpp.Query.Closest.{IsClosest, push_closest-insert}
use hyperdht_cpp.Query.Frontier.{
  AreSeen, AreSeen-mark, IsFrontier, add-IsFrontier, clear-IsFrontier, get-is_seen,
  length-remove_at, mark-IsFrontier, remove_at-AreSeen, skip-IsFrontier, visit-IsFrontier,
}

-- The most requests in flight.
abbrev pub limit_of : ℕ → ℕ
limit_of n = if ltb n slowdown_concurrency then slowdown_concurrency else n

pub record IsWalk (seen : List Seen) (pending sent waiting : List PendingNode)
    (inflight concurrency : ℕ) (target : List ℕ) (replies : List QueryReply) : Type 0 where
  pub frontier : IsFrontier seen pending sent
  pub seen_waiting : AreSeen seen waiting
  pub counted : inflight ≡ length waiting
  pub within : inflight ≤ limit_of concurrency
  pub targeted : length target ≡ 32
  pub closest : IsClosest target replies

abbrev pub IsQueryWith : Query → List PendingNode → Type 0
IsQueryWith q ps =
    IsWalk q.seen ps q.sent q.waiting q.inflight q.concurrency q.target q.closest_replies

abbrev pub IsQuery : Query → Type 0
IsQuery q = IsQueryWith q q.pending

pub fire_done_once-IsQuery : (q : Query) → IsQuery q → IsQuery (fire_done_once q)
unfolding fire_done_once
fire_done_once-IsQuery q w =
    if_cases _ _ IsQuery (not q.pending_done_fired && q.has_done) (λ e. w) (λ e. w)

pub do_commit-IsQuery : (q : Query) → IsQuery q → IsQuery (do_commit q)
unfolding do_commit
do_commit-IsQuery q w =
    let asked = with_token q.closest_replies in
    let begun = record q { committing = true; commit_inflight = length asked; commits = asked } in
    if_cases _ _ IsQuery (length asked == 0)
      (λ e. fire_done_once-IsQuery (record begun { done = true }) w) (λ e. w)

pub maybe_finish-IsQuery : (q : Query) → IsQuery q → IsQuery (maybe_finish q)
unfolding maybe_finish
maybe_finish-IsQuery q w =
    if_cases _ _ IsQuery (q.done || q.committing) (λ a. w)
      (λ a.
        if_cases _ _ IsQuery (ltb 0 q.inflight || ltb 0 (length q.pending)) (λ b. w)
          (λ b.
            if_cases _ _ IsQuery q.has_commit (λ c. do_commit-IsQuery q w)
              (λ c. fire_done_once-IsQuery (record q { done = true }) w)))

pub visit-IsQuery :
    (limit : ℕ) (n : PendingNode) (ns : List PendingNode) (q : Query)
    → q.inflight < limit
    → limit ≤ limit_of q.concurrency
    → IsQueryWith q (n ∷ ns)
    → IsQueryWith (visit q n) ns
visit-IsQuery limit n ns q l m w =
    let i : q.inflight + 1 ≤ limit_of q.concurrency = omega arith in
    record {
      frontier = visit-IsFrontier q.seen n ns q.sent w.frontier;
      seen_waiting = (w.frontier.seen_pending.0, w.seen_waiting);
      counted = omega (arith, w.counted);
      within = i;
      targeted = w.targeted;
      closest = w.closest;
    }

pub skip-IsQuery :
    (n : PendingNode) (ns : List PendingNode) (q : Query)
    → IsQueryWith q (n ∷ ns)
    → IsQueryWith q ns
skip-IsQuery n ns q w = record {
  frontier = skip-IsFrontier q.seen n ns q.sent w.frontier;
  seen_waiting = w.seen_waiting;
  counted = w.counted;
  within = w.within;
  targeted = w.targeted;
  closest = w.closest;
}

pub read_loop-IsQuery :
    (limit : ℕ) (ns : List PendingNode) (q : Query)
    → limit ≤ limit_of q.concurrency
    → IsQueryWith q ns
    → IsQuery (read_loop limit ns q)
unfolding read_loop
read_loop-IsQuery limit [] q m w = w
read_loop-IsQuery limit (n ∷ ns) q m w =
    let next = if is_skipped q n then q else visit q n in
    if_cases _ _ IsQuery (ltb q.inflight limit)
      (λ e.
        let h : (limit ≤ limit_of next.concurrency) × IsQueryWith next ns =
          if_cases _ _ (λ (x : Query). (limit ≤ limit_of x.concurrency) × IsQueryWith x ns)
            (is_skipped q n) (λ s. (m, skip-IsQuery n ns q w))
            (λ s. (m, visit-IsQuery limit n ns q (ltb→lt q.inflight limit e) m w)) in
        read_loop-IsQuery limit ns next h.0 h.1)
      (λ e. w)

pub clear-IsQuery : (q : Query) → IsQuery q → IsQueryWith q []
clear-IsQuery q w = record {
  frontier = clear-IsFrontier q.seen q.pending q.sent w.frontier;
  seen_waiting = w.seen_waiting;
  counted = w.counted;
  within = w.within;
  targeted = w.targeted;
  closest = w.closest;
}

pub add-IsQuery :
    (q : Query) (n : PendingNode)
    → is_seen q.seen n.addr ≡ false
    → length q.seen < max_seen
    → IsQuery q
    → IsQuery (record q { seen = mark q.seen n.addr NodeState.unasked; pending = n ∷ q.pending })
add-IsQuery q n u l w = record {
  frontier = add-IsFrontier q.seen q.pending q.sent n u l w.frontier;
  seen_waiting = AreSeen-mark q.seen q.waiting n.addr NodeState.unasked w.seen_waiting;
  counted = w.counted;
  within = w.within;
  targeted = w.targeted;
  closest = w.closest;
}

pub mark-IsQuery :
    (q : Query) (a : Address) (st : NodeState)
    → is_seen q.seen a ≡ true
    → IsQuery q
    → IsQuery (record q { seen = mark q.seen a st })
mark-IsQuery q a st s w = record {
  frontier = mark-IsFrontier q.seen q.pending q.sent a st s w.frontier;
  seen_waiting = AreSeen-mark q.seen q.waiting a st w.seen_waiting;
  counted = w.counted;
  within = w.within;
  targeted = w.targeted;
  closest = w.closest;
}

pub push_reply-IsQuery :
    (success : Bool) (r : QueryReply) (q : Query)
    → length r.from_id ≡ 32
    → IsQuery q
    → IsQuery (push_reply success r q)
push_reply-IsQuery success r q l w =
    if_cases _ _ IsQuery (success && not (id_eq r.from_id zero_id))
      (λ e. record {
        frontier = w.frontier;
        seen_waiting = w.seen_waiting;
        counted = w.counted;
        within = w.within;
        targeted = w.targeted;
        closest =
            (push_closest-insert q.target q.closest_replies r w.closest (l ∙ sym w.targeted)).1;
      })
      (λ e. w)

pub count_result-IsQuery : (b : Bool) (q : Query) → IsQuery q → IsQuery (count_result b q)
count_result-IsQuery true q w = w
count_result-IsQuery false q w = w

pub release_slowdown-IsQuery : (q : Query) → IsQuery q → IsQuery (release_slowdown q)
release_slowdown-IsQuery q w =
    if_cases _ _ IsQuery (not q.from_table && leb q.concurrency (q.successes + q.errors)) (λ e. w)
      (λ e. w)

pub engage_slowdown-IsQuery : (q : Query) → IsQuery q → IsQuery (engage_slowdown q)
engage_slowdown-IsQuery q w =
    if_cases _ _ IsQuery (not q.from_table && ((q.successes == 0) && (q.errors == 0))) (λ e. w)
      (λ e. w)

pub fire_pending-IsQuery : (q : Query) → IsQuery q → IsQuery (fire_pending q)
fire_pending-IsQuery q w =
    if_cases _ _ IsQuery q.pending_done
      (λ e. fire_done_once-IsQuery (record q { pending_done = false }) w) (λ e. w)

pub destroy-IsQuery : (q : Query) → IsQuery q → IsQuery (destroy q)
unfolding destroy
destroy-IsQuery q w =
    if_cases _ _ IsQuery q.done (λ e. w)
      (λ e.
        fire_done_once-IsQuery (record q { done = true; pending = []; committing = true })
          (clear-IsQuery q w))

pub on_committed-IsQuery : (q : Query) → IsQuery q → IsQuery (on_committed q)
unfolding on_committed
on_committed-IsQuery q w =
    let left = record q { commit_inflight = q.commit_inflight - 1 } in
    if_cases _ _ IsQuery (left.commit_inflight == 0)
      (λ e. fire_done_once-IsQuery (record left { done = true }) w) (λ e. w)

pub or_false : (x y z : Bool) → x || (y || z) ≡ false → (x ≡ false) × (y ≡ false)
or_false x y z h = (ground arith, ground arith)

pub leb→gt : (a b : ℕ) → leb a b ≡ false → b < a
leb→gt a b h = ground arith

pub limit-le : (slow : Bool) (n : ℕ) → (if slow then slowdown_concurrency else n) ≤ limit_of n
limit-le true n = ground arith
limit-le false n = ground arith
