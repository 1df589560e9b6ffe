-- ===== src/Nat.antt =====
-- nat_sampler.hpp and nat_sampler.cpp: the kind of the own NAT, from the addresses that remote nodes
-- see. A host string stands for the four bytes that it prints.
pub mod Hits
pub mod Invariant
use hyperdht_cpp.Prelude.{
  ℕ, zero, suc, ◌+◌, Bool, true, false, ◌&&◌, ◌||◌, not, Option, none, some, List, [], ◌∷◌, ◌++◌,
  if◌then◌else◌, ltb, leb, ◌==◌, length, get_or, set,
}
use hyperdht_cpp.Compact.Address.{Address}
use hyperdht_cpp.Routing.Id.{id_eq}
use hyperdht_cpp.Announces.{same_source}

-- `FIREWALL_OPEN` is never set here.
pub data Firewall : Type 0 where
  unknown : Firewall
  consistent : Firewall
  random : Firewall

pub record Sample : Type 0 where
  pub host : List ℕ
  pub port : ℕ
  pub hits : ℕ

abbrev pub blank_sample : Sample
blank_sample = record { host = []; port = 0; hits = 0 }

pub record Sampler : Type 0 where
  pub firewall : Firewall
  pub sampled : ℕ
  pub frozen : Bool
  pub host : List ℕ
  pub port : ℕ
  pub samples_host : List Sample
  pub samples_full : List Sample
  pub visited : List Address
  pub addresses : List Address

abbrev pub reset : Sampler
reset = record {
  firewall = unknown;
  sampled = 0;
  frozen = false;
  host = [];
  port = 0;
  samples_host = [];
  samples_full = [];
  visited = [];
  addresses = [];
}

abbrev pub is_sample : List ℕ → ℕ → Sample → Bool
is_sample host port s = id_eq s.host host && (s.port == port)

abbrev pub hits_at : List Sample → ℕ → ℕ
hits_at ss i = (get_or ss i blank_sample).hits

-- `std::swap(samples[i - 1], samples[i])`, for the index `i - 1`.
unfoldable pub swap : List Sample → ℕ → List Sample
swap [] i = []
swap (a ∷ []) i = a ∷ []
swap (a ∷ (b ∷ ss)) zero = b ∷ (a ∷ ss)
swap (a ∷ (b ∷ ss)) (suc i) = a ∷ swap (b ∷ ss) i

-- The loop of `add_sample`. Its `s` refers to the slot in which the sample was found, whatever is
-- swapped into it.
unfoldable pub bubble : ℕ → ℕ → List Sample → List Sample
bubble zero found ss = ss
bubble (suc i) found ss =
    let rest = bubble i found (swap ss i) in
    if leb (hits_at ss found) (hits_at ss i) then ss else rest

unfoldable pub bump : ℕ → List Sample → List Sample
bump i ss =
    let s = get_or ss i blank_sample in bubble i i (set ss i (record s { hits = s.hits + 1 }))

abbrev pub after_first : Option ℕ → Option ℕ
after_first none = none
after_first (some i) = some (suc i)

unfoldable pub find_sample : List Sample → List ℕ → ℕ → Option ℕ
find_sample [] host port = none
find_sample (s ∷ ss) host port =
    if is_sample host port s then some 0 else after_first (find_sample ss host port)

abbrev pub add_found : Option ℕ → List Sample → List ℕ → ℕ → List Sample
add_found none ss host port = ss ++ (record { host = host; port = port; hits = 1 } ∷ [])
add_found (some i) ss host port = bump i ss

unfoldable pub add_sample : List Sample → List ℕ → ℕ → List Sample
add_sample ss host port = add_found (find_sample ss host port) ss host port

-- The ladder of `update_firewall` for the hits of the first sample.
unfoldable pub classify : Sampler → ℕ → Firewall
classify n max_hits =
    if leb 3 max_hits
    then consistent
    else if max_hits == 1
    then random
    else if (length n.samples_host == 1) && ltb 3 n.sampled
    then random
    else if ltb 1 (length n.samples_host)
        && (ltb 1 (length n.samples_full) && ltb 1 (hits_at n.samples_full 1))
    then consistent
    else if ltb 4 n.sampled
    then random
    else n.firewall

unfoldable pub update_firewall : Sampler → Sampler
update_firewall n =
    if ltb n.sampled 3 || (length n.samples_full == 0)
    then n
    else record n { firewall = classify n (hits_at n.samples_full 0) }

-- The arguments of `on_change_`, if `update_firewall` calls it.
abbrev pub same_firewall : Firewall → Firewall → Bool
same_firewall unknown unknown = true
same_firewall consistent consistent = true
same_firewall random random = true
same_firewall a b = false

unfoldable pub changed : Sampler → Option (Firewall × Firewall)
changed n =
    let after = (update_firewall n).firewall in
    if same_firewall n.firewall after then none else some (n.firewall, after)

abbrev pub address_of : Sample → Address
address_of s = record { host = s.host; port = s.port }

-- The loop for a consistent firewall.
unfoldable pub select : List Address → List Sample → List Address
select chosen [] = chosen
select chosen (s ∷ ss) =
    let more = select (chosen ++ (address_of s ∷ [])) ss in
    let same = select chosen ss in
    if leb 4 (length chosen)
    then chosen
    else if leb 2 s.hits || ltb (length chosen) 2
    then more
    else same

abbrev pub addresses_for : Firewall → List Sample → List Sample → List Address
addresses_for unknown hosts full = []
addresses_for random [] full = []
addresses_for random (s ∷ hosts) full = record { host = s.host; port = 0 } ∷ []
addresses_for consistent hosts full = select [] full

unfoldable pub update_addresses : Sampler → Sampler
update_addresses n = record n { addresses = addresses_for n.firewall n.samples_host n.samples_full }

abbrev pub freeze : Sampler → Sampler
freeze n = record n { frozen = true }

unfoldable pub unfreeze : Sampler → Sampler
unfreeze n = update_addresses (update_firewall (record n { frozen = false }))

abbrev pub is_visited : List Address → Address → Bool
is_visited [] a = false
is_visited (v ∷ vs) a = same_source v a || is_visited vs a

abbrev pub top_sample : Sampler → List Sample → Sampler
top_sample n [] = n
top_sample n (s ∷ ss) = record n { host = s.host; port = s.port }

-- The two lists and the count after an accepted sample.
abbrev pub record_sample : Sampler → Address → Address → Sampler
record_sample n addr source = record n {
  visited = source ∷ n.visited;
  samples_host = add_sample n.samples_host addr.host 0;
  samples_full = add_sample n.samples_full addr.host addr.port;
  sampled = n.sampled + 1;
}

abbrev pub reclassify : Sampler → Sampler
reclassify n = if leb 3 n.sampled && not n.frozen then update_addresses (update_firewall n) else n

unfoldable pub add : Sampler → Address → Address → Sampler × Bool
add n addr source =
    if is_visited n.visited source || leb 1024 (length n.visited)
    then (n, false)
    else (let sampled = reclassify (record_sample n addr source) in
        (top_sample sampled sampled.samples_full, true))
