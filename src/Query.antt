-- ===== src/Query.antt =====
-- query.hpp and query.cpp: the iterative lookup, as a machine that the answers, the timeouts and the
-- caller drive. A callback that the socket holds is an entry of `waiting`; the calls of `on_done_` are
-- counted in `finished`, those of `on_commit_` are listed in `commits`, and the nodes that were asked
-- in `sent`.
pub mod Closest
pub mod Frontier
pub mod Invariant
pub mod Reading
pub mod Frame
pub mod Completion
pub mod Awake
pub mod Progress
pub mod Termination
use Prim.Native.Nat.{Ordering}
use mathlib.Core.List.{reverse}
use hyperdht_cpp.Prelude.{
  ℕ, zero, suc, ◌+◌, ◌-◌, ◌/◌, Bool, true, false, ◌&&◌, ◌||◌, not, Option, none, some, is_some,
  List, [], ◌∷◌, ◌++◌, if◌then◌else◌, ltb, leb, ◌==◌, length, take, replicate, get_elem?,
}
use hyperdht_cpp.Compact.Address.{Address}
use hyperdht_cpp.Messages.Request.{Request, blank_request}
use hyperdht_cpp.Messages.Response.{Response}
use hyperdht_cpp.Routing.Id.{id_eq, compare_distance}
use hyperdht_cpp.Routing.Bucket.{Node, bucket_size}
use hyperdht_cpp.Routing.Table.{Table, is_negative, closest}
use hyperdht_cpp.Announces.{same_source}

abbrev pub slowdown_concurrency : ℕ
slowdown_concurrency = 3

abbrev pub max_seen : ℕ
max_seen = 4096

pub record PendingNode : Type 0 where
  pub id : List ℕ
  pub addr : Address

pub record QueryReply : Type 0 where
  pub from_id : List ℕ
  pub from_addr : Address
  pub token : Option (List ℕ)
  pub value : Option (List ℕ)
  pub closer_nodes : List Address

pub data NodeState : Type 0 where
  unasked : NodeState
  answered : NodeState
  down : NodeState

pub record Seen : Type 0 where
  pub addr : Address
  pub state : NodeState

-- `pending` has the back of the vector in front, and so has `pre_seeds`.
pub record Query : Type 0 where
  pub target : List ℕ
  pub command : ℕ
  pub value : Option (List ℕ)
  pub concurrency : ℕ
  pub has_done : Bool
  pub has_commit : Bool
  pub done : Bool
  pub committing : Bool
  pub inflight : ℕ
  pub commit_inflight : ℕ
  pub pending_done : Bool
  pub pending_done_fired : Bool
  pub from_table : Bool
  pub slowdown : Bool
  pub successes : ℕ
  pub errors : ℕ
  pub closest_replies : List QueryReply
  pub pending : List PendingNode
  pub pre_seeds : List PendingNode
  pub seen : List Seen
  pub waiting : List PendingNode
  pub sent : List PendingNode
  pub finished : ℕ
  pub commits : List QueryReply

-- What the query uses of the socket and of its callers: the routing table, the filter, the hash
-- behind `compute_peer_id`, and whether the reply callback destroys the query.
pub record Environment : Type 0 where
  pub table : Table
  pub filter_accept : List ℕ → Address → Bool
  pub peer_id : Address → List ℕ
  pub stops : QueryReply → Bool

abbrev pub zero_id : List ℕ
zero_id = replicate 32 0

-- `std::string key = host:port; seen_.count(key)`.
abbrev pub is_seen : List Seen → Address → Bool
is_seen [] a = false
is_seen (s ∷ ss) a = same_source s.addr a || is_seen ss a

-- `seen_[key] = state`.
abbrev pub mark : List Seen → Address → NodeState → List Seen
mark [] a st = record { addr = a; state = st } ∷ []
mark (s ∷ ss) a st = if same_source s.addr a then record s { state = st } ∷ ss else s ∷ mark ss a st

-- The loop of `push_closest`, from the back: the reply is still moving to the front, has found its
-- place, or is one that is there.
pub data Placed : Type 0 where
  moving : Placed
  settled : List QueryReply → Placed
  duplicate : Placed

abbrev pub place_before : Ordering → QueryReply → List QueryReply → QueryReply → Placed
place_before Ordering.lt c cs r = settled (c ∷ (r ∷ cs))
place_before Ordering.eq c cs r = duplicate
place_before Ordering.gt c cs r = moving

abbrev pub place_step : List ℕ → Placed → QueryReply → List QueryReply → QueryReply → Placed
place_step target moving c cs r = place_before (compare_distance target c.from_id r.from_id) c cs r
place_step target (settled l) c cs r = settled (c ∷ l)
place_step target duplicate c cs r = duplicate

unfoldable pub place : List ℕ → List QueryReply → QueryReply → Placed
place target [] r = moving
place target (c ∷ cs) r = place_step target (place target cs r) c cs r

-- `if (closest_replies_.size() > K) closest_replies_.pop_back();`.
abbrev pub trim : List QueryReply → List QueryReply
trim l = if ltb bucket_size (length l) then take (length l - 1) l else l

abbrev pub pushed : Placed → List QueryReply → QueryReply → List QueryReply
pushed moving cs r = trim (r ∷ cs)
pushed (settled l) cs r = trim l
pushed duplicate cs r = cs

unfoldable pub push_closest : List ℕ → List QueryReply → QueryReply → List QueryReply
push_closest target cs r = pushed (place target cs r) cs r

-- `compare(id, closest_replies_.back().from_id) < 0`.
abbrev pub last_id : List QueryReply → List ℕ
last_id [] = []
last_id (c ∷ []) = c.from_id
last_id (c ∷ (d ∷ cs)) = last_id (d ∷ cs)

unfoldable pub is_closer : Query → List ℕ → Bool
is_closer q id =
    if ltb (length q.closest_replies) bucket_size
    then true
    else is_negative (compare_distance q.target id (last_id q.closest_replies))

unfoldable pub fire_done_once : Query → Query
fire_done_once q =
    if not q.pending_done_fired && q.has_done
    then record q { pending_done_fired = true; finished = q.finished + 1 }
    else q

-- The request that `visit` sends to a node.
abbrev pub request_to : Query → PendingNode → Request
request_to q node = record blank_request {
  to = node.addr;
  command = q.command;
  target = some q.target;
  value = q.value;
}

abbrev pub visit : Query → PendingNode → Query
visit q node = record q {
  inflight = q.inflight + 1;
  waiting = node ∷ q.waiting;
  sent = node ∷ q.sent;
}

abbrev pub with_token : List QueryReply → List QueryReply
with_token [] = []
with_token (c ∷ cs) = if is_some c.token then c ∷ with_token cs else with_token cs

unfoldable pub do_commit : Query → Query
do_commit q =
    let asked = with_token q.closest_replies in
    let begun = record q { committing = true; commit_inflight = length asked; commits = asked } in
    if length asked == 0 then fire_done_once (record begun { done = true }) else begun

unfoldable pub maybe_finish : Query → Query
maybe_finish q =
    if q.done || q.committing
    then q
    else if ltb 0 q.inflight || ltb 0 (length q.pending)
    then q
    else if q.has_commit
    then do_commit q
    else fire_done_once (record q { done = true })

abbrev pub effective_concurrency : Query → ℕ
effective_concurrency q = if q.slowdown then slowdown_concurrency else q.concurrency

-- A node that is not asked any more, since it is no nearer than the answers.
abbrev pub is_skipped : Query → PendingNode → Bool
is_skipped q node = not (id_eq node.id zero_id) && not (is_closer q node.id)

-- `while (inflight_ < effective_concurrency && !pending_.empty())`, over the nodes that are pending.
unfoldable pub read_loop : ℕ → List PendingNode → Query → Query
read_loop limit [] q = record q { pending = [] }
read_loop limit (node ∷ nodes) q =
    let rest = read_loop limit nodes (if is_skipped q node then q else visit q node) in
    if ltb q.inflight limit then rest else record q { pending = node ∷ nodes }

abbrev pub engage_slowdown : Query → Query
engage_slowdown q =
    if not q.from_table && ((q.successes == 0) && (q.errors == 0))
    then record q { slowdown = true }
    else q

abbrev pub pending_of : Node → PendingNode
pending_of n = record { id = n.id; addr = record { host = n.host; port = n.port } }

abbrev pub pending_all : List Node → List PendingNode
pending_all [] = []
pending_all (n ∷ ns) = pending_of n ∷ pending_all ns

abbrev pub is_success : Response → Bool
is_success resp = elim resp.error [ none ↦ true | some e ↦ e == 0 ]

abbrev pub id_or_zero : Option (List ℕ) → List ℕ
id_or_zero none = zero_id
id_or_zero (some id) = id

abbrev pub reply_of : PendingNode → Response → QueryReply
reply_of node resp = record {
  from_id = id_or_zero resp.id;
  from_addr = node.addr;
  token = resp.token;
  value = resp.value;
  closer_nodes = resp.closer_nodes;
}

abbrev pub count_result : Bool → Query → Query
count_result true q = record q { successes = q.successes + 1 }
count_result false q = record q { errors = q.errors + 1 }

abbrev pub push_reply : Bool → QueryReply → Query → Query
push_reply success reply q =
    if success && not (id_eq reply.from_id zero_id)
    then record q { closest_replies = push_closest q.target q.closest_replies reply }
    else q

abbrev pub release_slowdown : Query → Query
release_slowdown q =
    if not q.from_table && leb q.concurrency (q.successes + q.errors)
    then record q { slowdown = false }
    else q

abbrev pub fire_pending : Query → Query
fire_pending q = if q.pending_done then fire_done_once (record q { pending_done = false }) else q

unfoldable pub destroy : Query → Query
destroy q =
    if q.done then q else fire_done_once (record q { done = true; pending = []; committing = true })

-- The callback that `do_commit` hands out.
unfoldable pub on_committed : Query → Query
on_committed q =
    let left = record q { commit_inflight = q.commit_inflight - 1 } in
    if left.commit_inflight == 0 then fire_done_once (record left { done = true }) else left

-- What happens to a query: the callback of a request that waits, by its place, with a response or
-- none; a commit that is answered; a call of `destroy`.
pub data Event : Type 0 where
  answer : ℕ → Option Response → Event
  committed : Event
  destroyed : Event

abbrev pub remove_at : ℕ → List PendingNode → List PendingNode
remove_at i [] = []
remove_at zero (n ∷ ns) = ns
remove_at (suc i) (n ∷ ns) = n ∷ remove_at i ns

-- The end of `read_more`, on the query behind the loop, the same behind `seed_from_table`, and what the
-- call of `read_more` makes of that.
unfoldable pub go_on : Query → Query → Query → Query
go_on r seeded again =
    if ltb 0 (length r.pending) || ltb 0 r.inflight
    then r
    else if not r.from_table && ltb r.successes (bucket_size / 4)
    then if seeded.from_table then again else maybe_finish seeded
    else maybe_finish r

module _ (env : Environment) where
  unfoldable pub add_pending : Query → List ℕ → Address → Query
  add_pending q id addr =
      if is_seen q.seen addr || (leb max_seen (length q.seen) || not (env.filter_accept id addr))
      then q
      else record q {
        seen = mark q.seen addr unasked;
        pending = record { id = id; addr = addr } ∷ q.pending;
      }

  abbrev pub add_nodes : Query → List PendingNode → Query
  add_nodes q [] = q
  add_nodes q (n ∷ ns) = add_nodes (add_pending q n.id n.addr) ns

  abbrev pub add_bootstrap : Query → Address → Query
  add_bootstrap q addr = add_pending q zero_id addr

  unfoldable pub seed_from_table : Query → Query
  seed_from_table q =
      if leb bucket_size (length q.pending)
      then q
      else (let nodes = closest env.table q.target (bucket_size - length q.pending) in
          add_nodes (record q { from_table = true }) (reverse (pending_all nodes)))

  -- `read_more` calls itself once at most, behind `seed_from_table`: fuel 2 is enough.
  unfoldable pub read_more : ℕ → Query → Query
  read_more zero q = q
  read_more (suc n) q =
      let r = engage_slowdown (read_loop (effective_concurrency q) q.pending q) in
      let seeded = seed_from_table r in if q.done then q else go_on r seeded (read_more n seeded)

  abbrev pub top_up : Query → Query
  top_up q = if ltb (length q.pending) bucket_size then seed_from_table q else q

  unfoldable pub start : Query → Query
  start q = read_more 2 (top_up (record (add_nodes q q.pre_seeds) { pre_seeds = [] }))

  unfoldable pub add_closer : Query → List Address → Query
  add_closer q [] = q
  add_closer q (a ∷ as') =
      add_closer
        (if (a.port == 0) || id_eq (env.peer_id a) env.table.id
          then q
          else add_pending q (env.peer_id a) a)
        as'

  -- `destroy` inside the reply callback: the last callback waits.
  abbrev pub dispatch_reply : QueryReply → Query → Query
  dispatch_reply reply q =
      if env.stops reply
      then record q { done = true; pending = []; committing = true; pending_done = true }
      else q

  -- `on_visit_response` as far as the reply callback.
  abbrev pub counted_reply : Query → PendingNode → Response → Query
  counted_reply q node resp =
      let marked = record q { seen = mark q.seen node.addr answered } in
      let counted = count_result (is_success resp) marked in
      release_slowdown
        (add_closer (push_reply (is_success resp) (reply_of node resp) counted) resp.closer_nodes)

  unfoldable pub on_visit_response : Query → PendingNode → Response → Query
  on_visit_response q node resp =
      if q.done
      then q
      else fire_pending
          (read_more 2 (dispatch_reply (reply_of node resp) (counted_reply q node resp)))

  unfoldable pub on_visit_timeout : Query → PendingNode → Query
  on_visit_timeout q node =
      if q.done
      then q
      else read_more 2 (record q { seen = mark q.seen node.addr down; errors = q.errors + 1 })

  abbrev pub callback : Option Response → PendingNode → Query → Query
  callback none node q = on_visit_timeout q node
  callback (some resp) node q = on_visit_response q node resp

  abbrev pub answer_at : Option PendingNode → ℕ → Option Response → Query → Query
  answer_at none i resp q = q
  answer_at (some node) i resp q =
      callback resp node (record q { inflight = q.inflight - 1; waiting = remove_at i q.waiting })

  unfoldable pub step : Query → Event → Query
  step q (answer i resp) = answer_at (get_elem? q.waiting i) i resp q
  step q committed = if ltb 0 q.commit_inflight then on_committed q else q
  step q destroyed = destroy q

-- A life of the query: each event meets the table and the callbacks of its time.
unfoldable pub run : Query → List (Environment × Event) → Query
run q [] = q
run q (e ∷ es) = run (step e.0 q e.1) es

-- The query as `create` and the setters leave it.
abbrev pub create : List ℕ → ℕ → Option (List ℕ) → ℕ → Bool → Bool → Query
create target command value concurrency has_done has_commit = record {
  target = target;
  command = command;
  value = value;
  concurrency = concurrency;
  has_done = has_done;
  has_commit = has_commit;
  done = false;
  committing = false;
  inflight = 0;
  commit_inflight = 0;
  pending_done = false;
  pending_done_fired = false;
  from_table = false;
  slowdown = false;
  successes = 0;
  errors = 0;
  closest_replies = [];
  pending = [];
  pre_seeds = [];
  seen = [];
  waiting = [];
  sent = [];
  finished = 0;
  commits = [];
}

abbrev pub add_seed_node : Query → List ℕ → Address → Query
add_seed_node q id addr = record q { pre_seeds = record { id = id; addr = addr } ∷ q.pre_seeds }

abbrev pub addresses_of : List QueryReply → List Address
addresses_of [] = []
addresses_of (c ∷ cs) = c.from_addr ∷ addresses_of cs

abbrev pub closest_nodes : Query → List Address
closest_nodes q = addresses_of q.closest_replies
