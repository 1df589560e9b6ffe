-- ===== src/Tests/Queries.antt =====
-- Queries of two seeds and a few answers.
use hyperdht_cpp.Prelude.{
  ℕ, ◌≡◌, refl, true, false, none, some, List, [], ◌∷◌, replicate, arith, ◌&&◌, ◌==◌, take, length,
  inl, inr,
}
use hyperdht_cpp.Compact.Address.{Address}
use hyperdht_cpp.Messages.Response.{Response, blank_response}
use hyperdht_cpp.Routing.Bucket.{bucket_size}
use hyperdht_cpp.Routing.Id.{id_eq, compare_distance, bucket_index, bucket_index_from, countl_zero}
use hyperdht_cpp.Routing.Table.{
  new_table, closest, sort_by_distance, insert_by_distance, collect, collect_from,
}
use hyperdht_cpp.Routing.Table
use hyperdht_cpp.Query.{
  Environment, Event, Query, QueryReply, step, read_more, add_pending, seed_from_table, go_on,
  read_loop, is_closer, on_visit_response, on_visit_timeout, add_closer, do_commit, fire_done_once,
  maybe_finish, on_committed, place, add_seed_node, answer, committed, create, push_closest, run,
  start,
}
use hyperdht_cpp.Query.Closest.{IsClosest, insert_nearest, push_closest-insert}
use hyperdht_cpp.Query.Invariant.{IsQuery}
use hyperdht_cpp.Query.Invariant.Steps.{create-IsQuery, life-IsQuery}
use hyperdht_cpp.Query.Completion.{count_of, life-finished}
use hyperdht_cpp.Query.Awake.{IsLive}
use hyperdht_cpp.Query.Progress.{life-IsLive}
use hyperdht_cpp.Query.Termination.Measure.{measure}
use hyperdht_cpp.Query.Termination.{AreDue, IsEndedOr, start-ends}

abbrev target : List ℕ
target = replicate 32 0

abbrev place_of : ℕ → Address
place_of n = record { host = 127 ∷ (0 ∷ (0 ∷ (n ∷ []))); port = 49737 }

-- A node's identifier is its last byte, 32 times.
abbrev last_byte : List ℕ → ℕ
last_byte [] = 0
last_byte (b ∷ []) = b
last_byte (b ∷ (c ∷ bs)) = last_byte (c ∷ bs)

abbrev env : Environment
env = record {
  table = new_table (replicate 32 9);
  filter_accept = λ id a. true;
  peer_id = λ a. replicate 32 (last_byte a.host);
  stops = λ r. false;
}

abbrev fresh : Query
fresh = create target 2 none 2 true true

abbrev seeded : Query
seeded =
    add_seed_node (add_seed_node fresh (replicate 32 1) (place_of 1)) (replicate 32 2) (place_of 2)

abbrev good_answer : ℕ → Response
good_answer n = record blank_response {
  id = some (replicate 32 n);
  token = some (replicate 32 7);
  closer_nodes = place_of 3 ∷ (place_of 1 ∷ []);
}

-- A response, a timeout, a response with a node that is seen, the commits.
abbrev events : List (Environment × Event)
events =
    (env, answer 0 (some (good_answer 1)))
    ∷ ((env, answer 1 none)
        ∷ ((env, answer 0 (some (good_answer 3))) ∷ ((env, committed) ∷ ((env, committed) ∷ []))))

events_end :
    (run (start env seeded) events).done && ((run (start env seeded) events).finished == 1) ≡ true
unfolding run start step read_more add_pending id_eq seed_from_table closest sort_by_distance
    insert_by_distance collect collect_from Table.visit bucket_index bucket_index_from countl_zero
    go_on read_loop is_closer on_visit_response on_visit_timeout add_closer do_commit fire_done_once
    maybe_finish on_committed place push_closest compare_distance
events_end = refl

abbrev reply : ℕ → QueryReply
reply n = record {
  from_id = replicate 32 n;
  from_addr = place_of n;
  token = none;
  value = none;
  closer_nodes = [];
}

abbrev two_replies : List QueryReply
two_replies = reply 1 ∷ (reply 4 ∷ [])

two_replies-IsClosest : IsClosest target two_replies
unfolding compare_distance
two_replies-IsClosest = record {
  ascending = ((refl, tt), (tt, tt));
  lengths = (refl, (refl, tt));
  short = ground arith;
}

push_closest-insert_example :
    (push_closest target two_replies (reply 2)
      ≡ take bucket_size (insert_nearest target two_replies (reply 2)))
    × IsClosest target (push_closest target two_replies (reply 2))
push_closest-insert_example =
    push_closest-insert target two_replies (reply 2) two_replies-IsClosest refl

life-IsQuery_example : IsQuery (run (start env seeded) events)
life-IsQuery_example =
    life-IsQuery env seeded events (refl, (tt, (refl, (tt, (tt, tt)))))
      (create-IsQuery target 2 none 2 true true refl)

life-finished_example :
    (run (start env seeded) events).finished
    ≡ count_of ((run (start env seeded) events).done && (run (start env seeded) events).has_done)
life-finished_example =
    life-finished env seeded events (record { once = refl; exactly = refl; settled = refl })

life-IsLive_example : IsLive (run (start env seeded) events)
life-IsLive_example = life-IsLive env seeded events (ground arith, inr (inl refl))

events-AreDue : AreDue (start env seeded) events
unfolding run start step read_more add_pending id_eq seed_from_table closest sort_by_distance
    insert_by_distance collect collect_from Table.visit bucket_index bucket_index_from countl_zero
    go_on read_loop is_closer on_visit_response on_visit_timeout add_closer do_commit fire_done_once
    maybe_finish on_committed place push_closest compare_distance
events-AreDue = inr (
  (omega arith, refl),
  inr ((omega arith, tt), inr ((omega arith, refl), inr (omega arith, inr (omega arith, tt)))),
)

start-ends_example : IsEndedOr (measure seeded) (length events) (run (start env seeded) events)
start-ends_example =
    start-ends env seeded events (create-IsQuery target 2 none 2 true true refl)
      (ground arith, inr (inl refl)) events-AreDue
