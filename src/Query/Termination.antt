-- ===== src/Query/Termination.antt =====
-- A `Query` of query.cpp under an event loop that answers every request and every commit.
pub mod Walk
pub mod Measure
use hyperdht_cpp.Prelude.{
  ℕ, zero, suc, ◌+◌, ◌-◌, ◌*◌, ◌≡◌, ◌≤◌, ◌<◌, refl, ap, sym, subst, ◌∙◌, Bool, true, false, ◌||◌,
  ◌&&◌, not, Option, none, some, List, [], ◌∷◌, if◌then◌else◌, ltb, leb, ◌==◌, length, get_elem?,
  arith, if_cases, if-true, if-false, ◌⊎◌, inl, inr, is_some, lt→ltb, All, Bool-cases,
}
use hyperdht_cpp.Messages.Response.{Response}
use hyperdht_cpp.Routing.Bucket.{bucket_size}
use hyperdht_cpp.Query.{
  Environment, Event, PendingNode, Query, QueryReply, answer, answer_at, callback, committed,
  counted_reply, dispatch_reply, do_commit, down, fire_done_once, fire_pending, mark, maybe_finish,
  on_committed, destroy, destroyed, on_visit_response, on_visit_timeout, read_more, remove_at,
  reply_of, run, start, step, with_token,
}
use hyperdht_cpp.Query.Frame.{counted_reply-kept, read_more-kept, start-kept}
use hyperdht_cpp.Query.Frontier.{get-is_seen, length-remove_at}
use hyperdht_cpp.Query.Invariant.{IsQuery}
use hyperdht_cpp.Query.Invariant.Steps.{IsEvent, IsResponse, start-IsQuery, step-IsQuery}
use hyperdht_cpp.Query.Awake.{IsAwake, IsLive, IsReady}
use hyperdht_cpp.Query.Progress.{start-IsAwake, step-IsAwake}
use hyperdht_cpp.Query.Termination.Walk.{callback-IsWithin, start-IsWithin, walk}
use hyperdht_cpp.Query.Termination.Measure.{
  cost_of, cost, measure, start-IsCommitted, callback-IsCommitted, settle-IsCharged,
}

-- What is due: the answer to any one of the requests in flight, with a response of a 32-byte identifier or
-- none, or to a commit in flight, or a call of `destroy`.
abbrev pub IsDue : Query → Event → Type 0
IsDue q (answer i resp) = (i < length q.waiting) × IsResponse resp
IsDue q committed = 0 < q.commit_inflight
IsDue q destroyed = Unit

-- Each event is due when it happens, until the query is done.
abbrev pub AreDue : Query → List (Environment × Event) → Type 0
AreDue q [] = Unit
AreDue q (e ∷ es) = (q.done ≡ true) ⊎ (IsDue q e.1 × AreDue (step e.0 q e.1) es)

-- A request or a commit is in flight, whose answer is due.
abbrev pub IsWaiting : Query → Type 0
IsWaiting q = (0 < length q.waiting) ⊎ (0 < q.commit_inflight)

due-IsEvent : (q : Query) (e : Event) → IsDue q e → IsEvent e
due-IsEvent q (answer i resp) h = h.1
due-IsEvent q committed h = tt
due-IsEvent q destroyed h = tt

cost_lt : (d c : Bool) (n : ℕ) → d ≡ false → 0 < n → cost_of d c (n - 1) < cost_of d c n
cost_lt true c n p l = absurd cc
cost_lt false true n p l = omega arith
cost_lt false false n p l = omega arith

on_committed-lt :
    (q : Query) → q.done ≡ false → 0 < q.commit_inflight → measure (on_committed q) < measure q
unfolding on_committed fire_done_once
on_committed-lt q d l =
    let left = record q { commit_inflight = q.commit_inflight - 1 } in
    let less : cost left < cost q = cost_lt q.done q.committing q.commit_inflight d l in
    if_cases _ _ (λ (x : Query). measure x < measure q) (left.commit_inflight == 0)
      (λ e.
        if_cases _ _ (λ (x : Query). measure x < measure q)
          (not left.pending_done_fired && left.has_done) (λ f. omega arith) (λ f. omega arith))
      (λ e. omega arith)

answer-lt :
    (env : Environment) (q : Query) (i : ℕ) (n : PendingNode) (resp : Option Response)
    → get_elem? q.waiting i ≡ some n
    → IsResponse resp
    → IsQuery q
    → measure (step env q (answer i resp)) < measure q
unfolding step
answer-lt env q i n resp g r w =
    let taken = record q { inflight = q.inflight - 1; waiting = remove_at i q.waiting } in
    let e : step env q (answer i resp) ≡ callback env resp n taken =
      ap (λ (o : Option PendingNode). answer_at env o i resp q) g in
    let v : IsQuery (callback env resp n taken) =
      subst IsQuery e (step-IsQuery env q (answer i resp) r w) in
    let l : walk (callback env resp n taken) ≤ walk taken =
      callback-IsWithin (walk taken) env resp n taken
        (get-is_seen q.seen q.waiting i n g w.seen_waiting) (omega arith) in
    let c : cost (callback env resp n taken) ≤ cost q =
      settle-IsCharged (cost q) (callback env resp n taken) v
        (callback-IsCommitted (cost q) env resp n taken (omega arith)) in
    let t : suc (length (remove_at i q.waiting)) ≡ length q.waiting =
      length-remove_at q.waiting i n g in
    subst (λ (x : Query). measure x < measure q) (sym e) (omega arith)

get_elem-lt :
    (ws : List PendingNode) (i : ℕ) → i < length ws → (n : PendingNode) × (get_elem? ws i ≡ some n)
get_elem-lt [] i l = absurd (omega (arith, l))
get_elem-lt (n ∷ ns) zero l = (n, refl)
get_elem-lt (n ∷ ns) (suc i) l = get_elem-lt ns i (omega (arith, l))

destroy-done : (q : Query) → (destroy q).done ≡ true
unfolding destroy fire_done_once
destroy-done q =
    let gone = record q { done = true; pending = []; committing = true } in
    if_cases _ _ (λ (x : Query). x.done ≡ true) q.done (λ e. e)
      (λ e.
        if_cases _ _ (λ (x : Query). x.done ≡ true) (not gone.pending_done_fired && gone.has_done)
          (λ f. refl) (λ f. refl))

-- An event that is due ends the query, or brings it nearer to its end.
due_lem :
    (env : Environment) (q : Query) (e : Event)
    → q.done ≡ false
    → IsDue q e
    → IsQuery q
    → ((step env q e).done ≡ true) ⊎ (measure (step env q e) < measure q)
unfolding step
due_lem env q (answer i resp) d h w =
    let n = get_elem-lt q.waiting i h.0 in inr (answer-lt env q i n.0 resp n.1 h.1 w)
due_lem env q committed d h w = inr (
    subst (λ (x : Query). measure x < measure q)
      (sym (if-true (on_committed q) q (ltb 0 q.commit_inflight) (lt→ltb 0 q.commit_inflight h)))
      (on_committed-lt q d h))
due_lem env q destroyed d h w = inl (destroy-done q)

-- A query that is done stays so.
callback-done :
    (env : Environment) (o : Option PendingNode) (i : ℕ) (resp : Option Response) (q : Query)
    → q.done ≡ true
    → (answer_at env o i resp q).done ≡ true
unfolding on_visit_response on_visit_timeout
callback-done env none i resp q d = d
callback-done env (some n) i none q d =
    if_cases _ _ (λ (x : Query). x.done ≡ true) q.done (λ e. d) (λ e. absurd cc)
callback-done env (some n) i (some resp) q d =
    if_cases _ _ (λ (x : Query). x.done ≡ true) q.done (λ e. d) (λ e. absurd cc)

on_committed-done : (q : Query) → q.done ≡ true → (on_committed q).done ≡ true
unfolding on_committed fire_done_once
on_committed-done q d =
    let left = record q { commit_inflight = q.commit_inflight - 1 } in
    if_cases _ _ (λ (x : Query). x.done ≡ true) (left.commit_inflight == 0)
      (λ e.
        if_cases _ _ (λ (x : Query). x.done ≡ true) (not left.pending_done_fired && left.has_done)
          (λ f. refl) (λ f. refl))
      (λ e. d)

step-done : (env : Environment) (q : Query) (e : Event) → q.done ≡ true → (step env q e).done ≡ true
unfolding step
step-done env q (answer i resp) d = callback-done env (get_elem? q.waiting i) i resp q d
step-done env q committed d =
    if_cases (on_committed q) q (λ (x : Query). x.done ≡ true) (ltb 0 q.commit_inflight)
      (λ e. on_committed-done q d) (λ e. d)
step-done env q destroyed d = destroy-done q

run-done : (q : Query) (es : List (Environment × Event)) → q.done ≡ true → (run q es).done ≡ true
unfolding run
run-done q [] d = d
run-done q (e ∷ es) d = run-done (step e.0 q e.1) es (step-done e.0 q e.1 d)

-- Done, or after fewer events than the measure, with an answer to come.
abbrev pub IsEndedOr : ℕ → ℕ → Query → Type 0
IsEndedOr m n q = (q.done ≡ true) ⊎ ((n < m) × IsWaiting q)

waits : (q : Query) → IsQuery q → IsLive q → (q.done ≡ true) ⊎ ((0 < measure q) × IsWaiting q)
waits q w (inl d) = inl d
waits q w (inr h) = elim (Bool-cases q.done) [
  | inl d ↦ inl d
  | inr d ↦ elim h [
    | inl c ↦
        let p = cost_lt q.done q.committing q.commit_inflight d c.1 in
        inr (omega (arith, p), inr c.1)
    | inr i ↦ inr (omega (arith, i, w.counted), inl (omega (arith, i, w.counted)))
  ]
]

run-ends :
    (es : List (Environment × Event)) (q : Query)
    → AreDue q es
    → IsQuery q
    → IsAwake q
    → IsEndedOr (measure q) (length es) (run q es)
unfolding run
run-ends [] q h w a = waits q w a.live
run-ends (e ∷ es) q (inl d) w a = inl (run-done (step e.0 q e.1) es (step-done e.0 q e.1 d))
run-ends (e ∷ es) q (inr h) w a =
    let next = step e.0 q e.1 in
    elim (Bool-cases q.done) [
      | inl d ↦ inl (run-done next es (step-done e.0 q e.1 d))
      | inr d ↦ elim (due_lem e.0 q e.1 d h.0 w) [
        | inl f ↦ inl (run-done next es f)
        | inr l ↦
            elim (run-ends es next h.1 (step-IsQuery e.0 q e.1 (due-IsEvent q e.1 h.0) w)
              (step-IsAwake e.0 q e.1 a)) [
                | inl f ↦ inl f
                | inr k ↦ inr (omega (arith, k.0, l), k.1)
              ]
      ]
    ]

start-le : (env : Environment) (q : Query) → IsQuery q → measure (start env q) ≤ measure q
start-le env q w =
    let c : cost (start env q) ≤ cost q =
      settle-IsCharged (cost q) (start env q) (start-IsQuery env q w)
        (start-IsCommitted (cost q) env q (omega arith)) in
    omega (arith, start-IsWithin (walk q) env q (omega arith), c)

-- Of a query that satisfies the invariant, asks at least one node at a time and is not committing: let any events
-- happen behind `start`, each of them the answer to any one of the requests in flight, with a response of a 32-byte
-- identifier or a timeout, or the answer to a commit in flight, or a call of `destroy`, in any order, until the
-- query is done. Then it is done, or fewer events happened than its measure and a request or a commit is still in
-- flight. So every order of answers ends, after at most as many events as the measure: three for each address that
-- may still be seen, two for each that is pending, one for each that is asked, one for each commit in flight, and 21.
-- A table, a filter and a reply callback that change from event to event do not matter.
pub start-ends :
    (env : Environment) (q : Query) (es : List (Environment × Event))
    → IsQuery q
    → IsReady q
    → AreDue (start env q) es
    → IsEndedOr (measure q) (length es) (run (start env q) es)
start-ends env q es w r h =
    elim (run-ends es (start env q) h (start-IsQuery env q w) (start-IsAwake env q r)) [
      | inl d ↦ inl d
      | inr k ↦ inr (omega (arith, k.0, start-le env q w), k.1)
    ]
