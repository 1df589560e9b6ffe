-- ===== src/Query/Termination/Measure.antt =====
-- What a `Query` of query.cpp has left to do: the nodes that it may still ask, and the commits.
use hyperdht_cpp.Prelude.{
  ℕ, suc, ◌+◌, ◌≡◌, ◌≤◌, refl, Bool, true, false, ◌||◌, ◌&&◌, not, Option, none, some, List, [],
  ◌∷◌, ltb, ◌==◌, length, arith, if_cases, ◌⊎◌, inl, inr, is_some,
}
use hyperdht_cpp.Messages.Response.{Response}
use hyperdht_cpp.Query.{
  Environment, PendingNode, Query, QueryReply, callback, counted_reply, dispatch_reply, do_commit,
  down, fire_done_once, fire_pending, mark, maybe_finish, on_visit_response, on_visit_timeout,
  read_more, reply_of, start, with_token,
}
use hyperdht_cpp.Query.Frame.{counted_reply-kept, read_more-kept, start-kept}
use hyperdht_cpp.Query.Invariant.{IsQuery}
use hyperdht_cpp.Query.Termination.Walk.{walk}

-- The commits that are left: those in flight, and at most 20 that are still to come.
abbrev pub cost_of : Bool → Bool → ℕ → ℕ
cost_of true c n = 0
cost_of false true n = n
cost_of false false n = 21 + n

abbrev pub cost : Query → ℕ
cost q = cost_of q.done q.committing q.commit_inflight

-- The events that the query still needs, at most.
abbrev pub measure : Query → ℕ
measure q = walk q + cost q

cost_committing : (d : Bool) (n : ℕ) → cost_of d true n ≤ n
cost_committing true n = omega arith
cost_committing false n = omega arith

cost_open : (d c : Bool) (n : ℕ) → (d || c) ≡ false → cost_of d c n ≡ 21 + n
cost_open true c n h = absurd cc
cost_open false true n h = absurd cc
cost_open false false n h = refl

length-with_token : (l : List QueryReply) → length (with_token l) ≤ length l
length-with_token [] = omega arith
length-with_token (c ∷ cs) =
    if_cases _ _ (λ (x : List QueryReply). length x ≤ suc (length cs)) (is_some c.token)
      (λ e. omega (arith, length-with_token cs)) (λ e. omega (arith, length-with_token cs))

module _ (k : ℕ) where
  abbrev IsCharged : Query → Type 0
  IsCharged q = cost q ≤ k

  -- The commit may just have begun.
  abbrev IsCommitted : Query → Type 0
  IsCommitted q = IsCharged q ⊎ ((21 ≤ k) × (cost q ≤ length q.closest_replies))

  fire_done_once-IsCommitted : (q : Query) → IsCommitted q → IsCommitted (fire_done_once q)
  unfolding fire_done_once
  fire_done_once-IsCommitted q w =
      if_cases _ _ IsCommitted (not q.pending_done_fired && q.has_done) (λ e. w) (λ e. w)

  do_commit-IsCommitted : (q : Query) → 21 ≤ k → IsCommitted (do_commit q)
  unfolding do_commit
  do_commit-IsCommitted q l =
      let asked = with_token q.closest_replies in
      let begun = record q { committing = true; commit_inflight = length asked; commits = asked } in
      if_cases _ _ IsCommitted (length asked == 0)
        (λ e. fire_done_once-IsCommitted (record begun { done = true }) (inl (omega arith)))
        (λ e. inr (
          l,
          omega (arith, cost_committing q.done (length asked), length-with_token q.closest_replies),
        ))

  maybe_finish-IsCommitted : (q : Query) → IsCharged q → IsCommitted (maybe_finish q)
  unfolding maybe_finish
  maybe_finish-IsCommitted q w =
      if_cases _ _ IsCommitted (q.done || q.committing) (λ a. inl w)
        (λ a.
          if_cases _ _ IsCommitted (ltb 0 q.inflight || ltb 0 (length q.pending)) (λ b. inl w)
            (λ b.
              if_cases _ _ IsCommitted q.has_commit
                (λ c.
                  let l : 21 ≤ k =
                    omega (arith, w, cost_open q.done q.committing q.commit_inflight a) in
                  do_commit-IsCommitted q l)
                (λ c. fire_done_once-IsCommitted (record q { done = true }) (inl (omega arith)))))

  module _ (env : Environment) where
    read_more-IsCommitted : (q : Query) → IsCharged q → IsCommitted (read_more env 2 q)
    read_more-IsCommitted =
        read_more-kept IsCharged IsCommitted (λ x a b c d e f g h i t. t) (λ x t. t) (λ x t. inl t)
          maybe_finish-IsCommitted env 2

    pub start-IsCommitted : (q : Query) → IsCharged q → IsCommitted (start env q)
    start-IsCommitted =
        start-kept IsCharged IsCommitted (λ x a b c d e f g h i t. t) (λ x t. t) (λ x t. inl t)
          maybe_finish-IsCommitted env (λ x t. t)

    fire_pending-IsCommitted : (q : Query) → IsCommitted q → IsCommitted (fire_pending q)
    fire_pending-IsCommitted q w =
        if_cases _ _ IsCommitted q.pending_done
          (λ e. fire_done_once-IsCommitted (record q { pending_done = false }) w) (λ e. w)

    pub callback-IsCommitted :
        (resp : Option Response) (n : PendingNode) (q : Query)
        → IsCharged q
        → IsCommitted (callback env resp n q)
    unfolding on_visit_timeout on_visit_response
    callback-IsCommitted none n q w =
        if_cases _ _ IsCommitted q.done (λ e. inl w)
          (λ e.
            read_more-IsCommitted
              (record q { seen = mark q.seen n.addr down; errors = q.errors + 1 }) w)
    callback-IsCommitted (some resp) n q w =
        let counted = counted_reply env q n resp in
        let told = dispatch_reply env (reply_of n resp) counted in
        let c : IsCharged counted =
          counted_reply-kept IsCharged (λ x a b c d e f g h i t. t) env q n resp w in
        let t : IsCharged told =
          if_cases _ _ IsCharged (env.stops (reply_of n resp)) (λ e. omega arith) (λ e. c) in
        if_cases _ _ IsCommitted q.done (λ e. inl w)
          (λ e. fire_pending-IsCommitted (read_more env 2 told) (read_more-IsCommitted told t))

  -- The replies of a query are at most 20.
  pub settle-IsCharged : (q : Query) → IsQuery q → IsCommitted q → IsCharged q
  settle-IsCharged q w (inl h) = h
  settle-IsCharged q w (inr h) = omega (arith, w.closest.short, h.0, h.1)
