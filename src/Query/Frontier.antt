-- ===== src/Query/Frontier.antt =====
-- The nodes that a `Query` of query.cpp has seen, has pending and has asked.
use hyperdht_cpp.Prelude.{
  ℕ, zero, suc, ◌+◌, ◌≡◌, ◌≢◌, ◌≤◌, ◌<◌, refl, ap, sym, subst, true, false, Option, none, some,
  List, [], ◌∷◌, length, All, get_elem?, arith, Bool-cases, inl, inr, if_cases, ==_refl,
}
use hyperdht_cpp.Compact.Address.{Address}
use hyperdht_cpp.Routing.Id.Metric.{id_eq_sound, id_eq_refl}
use hyperdht_cpp.Announces.{same_source}
use hyperdht_cpp.Query.{PendingNode, Seen, NodeState, unasked, is_seen, mark, max_seen, remove_at}

same_source_sound : (a b : Address) → same_source a b ≡ true → a ≡ b
same_source_sound a b h =
    let p : a.port ≡ b.port = ground arith in
    let e : a.host ≡ b.host = id_eq_sound a.host b.host (ground arith) in
    λ i. record { host = e i; port = p i }

same_source_refl : (a : Address) → same_source a a ≡ true
same_source_refl a = rw (id_eq_refl a.host, ==_refl a.port)

pub mark-is_seen : (ss : List Seen) (a : Address) (st : NodeState) → is_seen (mark ss a st) a ≡ true
mark-is_seen [] a st = rw (same_source_refl a)
mark-is_seen (s ∷ ss) a st =
    if_cases _ _ (λ (l : List Seen). is_seen l a ≡ true) (same_source s.addr a) (λ e. rw e)
      (λ e. rw (e, mark-is_seen ss a st))

pub mark-keeps :
    (ss : List Seen) (a b : Address) (st : NodeState)
    → is_seen ss b ≡ true
    → is_seen (mark ss a st) b ≡ true
mark-keeps [] a b st h = cc
mark-keeps (s ∷ ss) a b st h =
    if_cases _ _ (λ (l : List Seen). is_seen l b ≡ true) (same_source s.addr a) (λ e. h)
      (λ e. elim (Bool-cases (same_source s.addr b)) [
        | inl t ↦ rw t
        | inr f ↦ let k : is_seen ss b ≡ true = (rw f at h) in rw (f, mark-keeps ss a b st k)
      ])

pub length-mark :
    (ss : List Seen) (a : Address) (st : NodeState) → length (mark ss a st) ≤ suc (length ss)
length-mark [] a st = omega arith
length-mark (s ∷ ss) a st =
    if_cases _ _ (λ (l : List Seen). length l ≤ suc (suc (length ss))) (same_source s.addr a)
      (λ e. omega arith) (λ e. omega (arith, length-mark ss a st))

pub length-mark_seen :
    (ss : List Seen) (a : Address) (st : NodeState)
    → is_seen ss a ≡ true
    → length (mark ss a st) ≡ length ss
length-mark_seen [] a st h = cc
length-mark_seen (s ∷ ss) a st h =
    if_cases _ _ (λ (l : List Seen). length l ≡ suc (length ss)) (same_source s.addr a) (λ e. refl)
      (λ e. ap suc (length-mark_seen ss a st (rw e at h)))

pub length-mark_new :
    (ss : List Seen) (a : Address) (st : NodeState)
    → is_seen ss a ≡ false
    → length (mark ss a st) ≡ suc (length ss)
length-mark_new [] a st h = refl
length-mark_new (s ∷ ss) a st h =
    if_cases _ _ (λ (l : List Seen). length l ≡ suc (suc (length ss))) (same_source s.addr a)
      (λ e. let k : true ≡ false = (rw e at h) in absurd cc)
      (λ e. ap suc (length-mark_new ss a st (rw e at h)))

abbrev pub AreSeen : List Seen → List PendingNode → Type 0
AreSeen ss ns = All (λ n. is_seen ss n.addr ≡ true) ns

abbrev pub IsApart : PendingNode → List PendingNode → Type 0
IsApart n ms = All (λ m. m.addr ≢ n.addr) ms

abbrev pub AreApart : List PendingNode → List PendingNode → Type 0
AreApart ns ms = All (λ n. IsApart n ms) ns

abbrev pub AreDistinct : List PendingNode → Type 0
AreDistinct [] = Unit
AreDistinct (n ∷ ns) = IsApart n ns × AreDistinct ns

-- Nodes that are pending and that were asked, all seen, no address twice.
pub record IsFrontier (seen : List Seen) (pending sent : List PendingNode) : Type 0 where
  pub few : length seen ≤ max_seen
  pub total : length pending + length sent ≤ length seen
  pub seen_pending : AreSeen seen pending
  pub seen_sent : AreSeen seen sent
  pub distinct_pending : AreDistinct pending
  pub distinct_sent : AreDistinct sent
  pub apart : AreApart pending sent

pub AreSeen-mark :
    (ss : List Seen) (ns : List PendingNode) (a : Address) (st : NodeState)
    → AreSeen ss ns
    → AreSeen (mark ss a st) ns
AreSeen-mark ss [] a st h = tt
AreSeen-mark ss (n ∷ ns) a st h = (mark-keeps ss a n.addr st h.0, AreSeen-mark ss ns a st h.1)

-- What is not seen is none of the nodes that are.
unseen_IsApart :
    (ss : List Seen) (n : PendingNode) (ms : List PendingNode)
    → is_seen ss n.addr ≡ false
    → AreSeen ss ms
    → IsApart n ms
unseen_IsApart ss n [] f h = tt
unseen_IsApart ss n (m ∷ ms) f h =
    (λ e. let k : is_seen ss m.addr ≡ true = h.0 in cc, unseen_IsApart ss n ms f h.1)

add_apart :
    (n : PendingNode) (ns ms : List PendingNode)
    → IsApart n ns
    → AreApart ns ms
    → AreApart ns (n ∷ ms)
add_apart n [] ms h k = tt
add_apart n (m ∷ ns) ms h k = ((λ e. h.0 (sym e), k.0), add_apart n ns ms h.1 k.1)

-- A node that is new is pending.
pub add-IsFrontier :
    (ss : List Seen) (ps sent : List PendingNode) (n : PendingNode)
    → is_seen ss n.addr ≡ false
    → length ss < max_seen
    → IsFrontier ss ps sent
    → IsFrontier (mark ss n.addr unasked) (n ∷ ps) sent
add-IsFrontier ss ps sent n u l f =
    let len : length (mark ss n.addr unasked) ≡ suc (length ss) =
      length-mark_new ss n.addr unasked u in
    record {
      few = omega (arith, len);
      total = omega (arith, len, f.total);
      seen_pending =
          (mark-is_seen ss n.addr unasked, AreSeen-mark ss ps n.addr unasked f.seen_pending);
      seen_sent = AreSeen-mark ss sent n.addr unasked f.seen_sent;
      distinct_pending = (unseen_IsApart ss n ps u f.seen_pending, f.distinct_pending);
      distinct_sent = f.distinct_sent;
      apart = (unseen_IsApart ss n sent u f.seen_sent, f.apart);
    }

-- A node that is dropped, and one that is asked.
pub skip-IsFrontier :
    (ss : List Seen) (n : PendingNode) (ps sent : List PendingNode)
    → IsFrontier ss (n ∷ ps) sent
    → IsFrontier ss ps sent
skip-IsFrontier ss n ps sent f = record {
  few = f.few;
  total = omega (arith, f.total);
  seen_pending = f.seen_pending.1;
  seen_sent = f.seen_sent;
  distinct_pending = f.distinct_pending.1;
  distinct_sent = f.distinct_sent;
  apart = f.apart.1;
}

pub visit-IsFrontier :
    (ss : List Seen) (n : PendingNode) (ps sent : List PendingNode)
    → IsFrontier ss (n ∷ ps) sent
    → IsFrontier ss ps (n ∷ sent)
visit-IsFrontier ss n ps sent f = record {
  few = f.few;
  total = omega (arith, f.total);
  seen_pending = f.seen_pending.1;
  seen_sent = (f.seen_pending.0, f.seen_sent);
  distinct_pending = f.distinct_pending.1;
  distinct_sent = (f.apart.0, f.distinct_sent);
  apart = add_apart n ps sent f.distinct_pending.0 f.apart.1;
}

pub clear-IsFrontier :
    (ss : List Seen) (ps sent : List PendingNode) → IsFrontier ss ps sent → IsFrontier ss [] sent
clear-IsFrontier ss ps sent f = record {
  few = f.few;
  total = omega (arith, f.total);
  seen_pending = tt;
  seen_sent = f.seen_sent;
  distinct_pending = tt;
  distinct_sent = f.distinct_sent;
  apart = tt;
}

-- The state of a node that is seen changes.
pub mark-IsFrontier :
    (ss : List Seen) (ps sent : List PendingNode) (a : Address) (st : NodeState)
    → is_seen ss a ≡ true
    → IsFrontier ss ps sent
    → IsFrontier (mark ss a st) ps sent
mark-IsFrontier ss ps sent a st s f =
    let len : length (mark ss a st) ≡ length ss = length-mark_seen ss a st s in
    record {
      few = omega (arith, len, f.few);
      total = omega (arith, len, f.total);
      seen_pending = AreSeen-mark ss ps a st f.seen_pending;
      seen_sent = AreSeen-mark ss sent a st f.seen_sent;
      distinct_pending = f.distinct_pending;
      distinct_sent = f.distinct_sent;
      apart = f.apart;
    }

pub remove_at-AreSeen :
    (ss : List Seen) (ns : List PendingNode) (i : ℕ) → AreSeen ss ns → AreSeen ss (remove_at i ns)
remove_at-AreSeen ss [] i h = h
remove_at-AreSeen ss (n ∷ ns) zero h = h.1
remove_at-AreSeen ss (n ∷ ns) (suc i) h = (h.0, remove_at-AreSeen ss ns i h.1)

pub get-is_seen :
    (ss : List Seen) (ns : List PendingNode) (i : ℕ) (n : PendingNode)
    → get_elem? ns i ≡ some n
    → AreSeen ss ns
    → is_seen ss n.addr ≡ true
get-is_seen ss [] i n e h = absurd cc
get-is_seen ss (m ∷ ns) zero n e h =
    subst (λ (x : Option PendingNode). elim x [ none ↦ Unit | some y ↦ is_seen ss y.addr ≡ true ]) e
      h.0
get-is_seen ss (m ∷ ns) (suc i) n e h = get-is_seen ss ns i n e h.1

pub length-remove_at :
    (ns : List PendingNode) (i : ℕ) (n : PendingNode)
    → get_elem? ns i ≡ some n
    → suc (length (remove_at i ns)) ≡ length ns
length-remove_at [] i n e = absurd cc
length-remove_at (m ∷ ns) zero n e = refl
length-remove_at (m ∷ ns) (suc i) n e = ap suc (length-remove_at ns i n e)
