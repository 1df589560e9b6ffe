-- ===== src/Query/Completion.antt =====
-- The calls of `on_done_` that a `Query` of query.cpp makes.
use hyperdht_cpp.Prelude.{
  ℕ, suc, ◌+◌, ◌-◌, ◌≡◌, refl, ap, sym, subst, ◌∙◌, Bool, true, false, ◌||◌, ◌&&◌, not, Option,
  none, some, List, [], ◌∷◌, ltb, ◌==◌, length, get_elem?, arith, if_cases, if-true, if-false,
}
use hyperdht_cpp.Messages.Response.{Response}
use hyperdht_cpp.Query.{
  Environment, Event, PendingNode, Query, QueryReply, answer, answer_at, callback, committed,
  counted_reply, destroy, destroyed, dispatch_reply, do_commit, down, fire_done_once, fire_pending,
  mark, maybe_finish, on_committed, on_visit_response, on_visit_timeout, read_more, remove_at,
  reply_of, run, start, step, with_token,
}
use hyperdht_cpp.Query.Frame.{counted_reply-kept, read_more-kept, start-kept}

abbrev pub count_of : Bool → ℕ
count_of true = 1
count_of false = 0

-- Done with the callback called once, or not done and not called.
pub record IsCompleted (finished : ℕ) (fired done has_done waits : Bool) : Type 0 where
  pub once : finished ≡ count_of fired
  pub exactly : fired ≡ (done && has_done)
  pub settled : waits ≡ false

abbrev pub IsSettled : Query → Type 0
IsSettled q = IsCompleted q.finished q.pending_done_fired q.done q.has_done q.pending_done

count_suc : (fired : Bool) (n : ℕ) → fired ≡ false → n ≡ count_of fired → n + 1 ≡ 1
count_suc true n f h = cc
count_suc false n f h = omega (arith, h)

fires : (fired has_done : Bool) → not fired && has_done ≡ true → (fired ≡ false) × (has_done ≡ true)
fires fired has_done h = (ground arith, ground arith)

rests :
    (fired has_done : Bool)
    → not fired && has_done ≡ false
    → (fired ≡ true → has_done ≡ true)
    → fired ≡ has_done
rests true true h g = refl
rests true false h g = sym (g refl)
rests false true h g = absurd cc
rests false false h g = refl

fire_done_once-IsSettled :
    (q : Query)
    → q.done ≡ true
    → q.pending_done ≡ false
    → q.finished ≡ count_of q.pending_done_fired
    → (q.pending_done_fired ≡ true → q.has_done ≡ true)
    → IsSettled (fire_done_once q)
unfolding fire_done_once
fire_done_once-IsSettled q d p c g =
    if_cases _ _ IsSettled (not q.pending_done_fired && q.has_done)
      (λ e.
        let f = fires q.pending_done_fired q.has_done e in
        record {
          once = count_suc q.pending_done_fired q.finished f.0 c;
          exactly = rw (d, f.1);
          settled = p;
        })
      (λ e. record {
        once = c;
        exactly = rw d (rests q.pending_done_fired q.has_done e g);
        settled = p;
      })

and_right : (a b : Bool) → (a && b) ≡ true → b ≡ true
and_right a b h = ground arith

-- `fire_done_once` behind a `done_ = true`.
finished-IsSettled :
    (q : Query) → IsSettled q → IsSettled (fire_done_once (record q { done = true }))
finished-IsSettled q s =
    fire_done_once-IsSettled (record q { done = true }) refl s.settled s.once
      (λ e. and_right q.done q.has_done (sym s.exactly ∙ e))

do_commit-IsSettled : (q : Query) → IsSettled q → IsSettled (do_commit q)
unfolding do_commit
do_commit-IsSettled q s =
    let asked = with_token q.closest_replies in
    let begun = record q { committing = true; commit_inflight = length asked; commits = asked } in
    if_cases _ _ IsSettled (length asked == 0) (λ e. finished-IsSettled begun s) (λ e. s)

maybe_finish-IsSettled : (q : Query) → IsSettled q → IsSettled (maybe_finish q)
unfolding maybe_finish
maybe_finish-IsSettled q s =
    if_cases _ _ IsSettled (q.done || q.committing) (λ a. s)
      (λ a.
        if_cases _ _ IsSettled (ltb 0 q.inflight || ltb 0 (length q.pending)) (λ b. s)
          (λ b.
            if_cases _ _ IsSettled q.has_commit (λ c. do_commit-IsSettled q s)
              (λ c. finished-IsSettled q s)))

on_committed-IsSettled : (q : Query) → IsSettled q → IsSettled (on_committed q)
unfolding on_committed
on_committed-IsSettled q s =
    let left = record q { commit_inflight = q.commit_inflight - 1 } in
    if_cases _ _ IsSettled (left.commit_inflight == 0) (λ e. finished-IsSettled left s) (λ e. s)

destroy-IsSettled : (q : Query) → IsSettled q → IsSettled (destroy q)
unfolding destroy
destroy-IsSettled q s =
    if_cases _ _ IsSettled q.done (λ e. s)
      (λ e. finished-IsSettled (record q { pending = []; committing = true }) s)

read_more-IsSettled : (env : Environment) (q : Query) → IsSettled q → IsSettled (read_more env 2 q)
read_more-IsSettled env q s =
    read_more-kept IsSettled IsSettled (λ x a b c d e f g h i t. t) (λ x t. t) (λ x t. t)
      maybe_finish-IsSettled env 2 q s

-- A query that is done reads no more.
pub read_more-done :
    (env : Environment) (n : ℕ) (q : Query) → q.done ≡ true → read_more env (suc n) q ≡ q
unfolding read_more
read_more-done env n q d = if-true _ _ q.done d

-- The callback may have destroyed the query: then the last call is made here.
told-IsSettled :
    (env : Environment) (r : QueryReply) (q : Query)
    → q.done ≡ false
    → IsSettled q
    → IsSettled (fire_pending (read_more env 2 (dispatch_reply env r q)))
told-IsSettled env r q d s =
    if_cases _ _ (λ (x : Query). IsSettled (fire_pending (read_more env 2 x))) (env.stops r)
      (λ e.
        let stopped = record q {
          done = true;
          pending = [];
          committing = true;
          pending_done = true;
        } in
        subst (λ (x : Query). IsSettled (fire_pending x)) (sym (read_more-done env 1 stopped refl))
          (fire_done_once-IsSettled (record stopped { pending_done = false }) refl refl s.once
            (λ f. and_right q.done q.has_done (sym s.exactly ∙ f))))
      (λ e.
        let more = read_more env 2 q in
        let t : IsSettled more = read_more-IsSettled env q s in
        subst IsSettled (sym (if-false _ _ more.pending_done t.settled)) t)

on_visit_response-IsSettled :
    (env : Environment) (q : Query) (n : PendingNode) (resp : Response)
    → IsSettled q
    → IsSettled (on_visit_response env q n resp)
unfolding on_visit_response
on_visit_response-IsSettled env q n resp s =
    let done_false = λ (x : Query). (x.done ≡ false) × IsSettled x in
    if_cases _ _ IsSettled q.done (λ e. s)
      (λ e.
        let c : ((counted_reply env q n resp).done ≡ false)
            × IsSettled (counted_reply env q n resp) =
          counted_reply-kept done_false (λ x a b c d e f g h i t. t) env q n resp (e, s) in
        told-IsSettled env (reply_of n resp) (counted_reply env q n resp) c.0 c.1)

callback-IsSettled :
    (env : Environment) (resp : Option Response) (n : PendingNode) (q : Query)
    → IsSettled q
    → IsSettled (callback env resp n q)
unfolding on_visit_timeout
callback-IsSettled env none n q s =
    let marked = record q { seen = mark q.seen n.addr down; errors = q.errors + 1 } in
    if_cases _ _ IsSettled q.done (λ e. s) (λ e. read_more-IsSettled env marked s)
callback-IsSettled env (some resp) n q s = on_visit_response-IsSettled env q n resp s

answer_at-IsSettled :
    (env : Environment) (o : Option PendingNode) (i : ℕ) (resp : Option Response) (q : Query)
    → IsSettled q
    → IsSettled (answer_at env o i resp q)
answer_at-IsSettled env none i resp q s = s
answer_at-IsSettled env (some n) i resp q s =
    callback-IsSettled env resp n
      (record q { inflight = q.inflight - 1; waiting = remove_at i q.waiting }) s

step-IsSettled :
    (env : Environment) (q : Query) (e : Event) → IsSettled q → IsSettled (step env q e)
unfolding step
step-IsSettled env q (answer i resp) s = answer_at-IsSettled env (get_elem? q.waiting i) i resp q s
step-IsSettled env q committed s =
    if_cases _ _ IsSettled (ltb 0 q.commit_inflight) (λ e. on_committed-IsSettled q s) (λ e. s)
step-IsSettled env q destroyed s = destroy-IsSettled q s

run-IsSettled : (q : Query) (es : List (Environment × Event)) → IsSettled q → IsSettled (run q es)
unfolding run
run-IsSettled q [] s = s
run-IsSettled q (e ∷ es) s = run-IsSettled (step e.0 q e.1) es (step-IsSettled e.0 q e.1 s)

start-IsSettled : (env : Environment) (q : Query) → IsSettled q → IsSettled (start env q)
start-IsSettled env q s =
    start-kept IsSettled IsSettled (λ x a b c d e f g h i t. t) (λ x t. t) (λ x t. t)
      maybe_finish-IsSettled env (λ x t. t) q s

-- Of a query that has called its `on_done` once if it is done and has one, and else never: after the start
-- and any responses, timeouts, answered commits and calls of `destroy`, in any order, `on_done` has been
-- called exactly once if the query is done and has one, and else never.
pub life-finished :
    (env : Environment) (q : Query) (es : List (Environment × Event))
    → IsSettled q
    → (run (start env q) es).finished
      ≡ count_of ((run (start env q) es).done && (run (start env q) es).has_done)
life-finished env q es s =
    let t : IsSettled (run (start env q) es) =
      run-IsSettled (start env q) es (start-IsSettled env q s) in
    t.once ∙ ap count_of t.exactly
