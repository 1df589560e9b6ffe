-- ===== src/Announces.antt =====
-- announce.hpp and announce.cpp: the peers that have announced themselves under a target.
pub mod Invariant
pub mod Expiry
pub mod Placing
pub mod Lookup
pub mod Removal
use hyperdht_cpp.Prelude.{
  ℕ, ◌+◌, ◌-◌, Bool, true, false, ◌&&◌, not, Option, none, some, List, [], ◌∷◌, ◌++◌, if◌then◌else◌,
  ltb, leb, ◌==◌, length, is_some,
}
use hyperdht_cpp.Compact.Address.{Address}
use hyperdht_cpp.Routing.Id.{id_eq}

abbrev pub max_total_targets : ℕ
max_total_targets = 65536

abbrev pub max_peers_per_target : ℕ
max_peers_per_target = 20

pub record PeerAnnouncement : Type 0 where
  pub source : Address
  pub value : List ℕ
  pub created_at : ℕ
  pub ttl : ℕ

-- One entry of the `unordered_map`; the list holds one entry for a key.
pub record Entry : Type 0 where
  pub target : List ℕ
  pub peers : List PeerAnnouncement

-- The host strings print the four bytes, so they are equal exactly if the bytes are.
abbrev pub same_source : Address → Address → Bool
same_source a b = id_eq a.host b.host && (a.port == b.port)

abbrev pub find : List Entry → List ℕ → Option (List PeerAnnouncement)
find [] k = none
find (e ∷ es) k = if id_eq e.target k then some e.peers else find es k

-- `store_[target]` with a new value for its peers.
abbrev pub write : List Entry → List ℕ → List PeerAnnouncement → List Entry
write [] k ps = record { target = k; peers = ps } ∷ []
write (e ∷ es) k ps = if id_eq e.target k then record e { peers = ps } ∷ es else e ∷ write es k ps

abbrev pub erase : List Entry → List ℕ → List Entry
erase [] k = []
erase (e ∷ es) k = if id_eq e.target k then es else e ∷ erase es k

abbrev pub behind :
    PeerAnnouncement → Option (List PeerAnnouncement) → Option (List PeerAnnouncement)
behind p none = none
behind p (some qs) = some (p ∷ qs)

-- The loop that overwrites the announcement of the same source, if there is one.
unfoldable pub replace : List PeerAnnouncement → PeerAnnouncement → Option (List PeerAnnouncement)
replace [] ann = none
replace (p ∷ ps) ann =
    let rest = replace ps ann in
    if same_source p.source ann.source then some (ann ∷ ps) else behind p rest

-- `std::min_element`: the time of the oldest announcement, and the first that has it.
abbrev pub oldest_time : ℕ → List PeerAnnouncement → ℕ
oldest_time t [] = t
oldest_time t (p ∷ ps) = oldest_time (if ltb p.created_at t then p.created_at else t) ps

unfoldable pub overwrite_time : ℕ → List PeerAnnouncement → PeerAnnouncement → List PeerAnnouncement
overwrite_time t [] ann = []
overwrite_time t (p ∷ ps) ann = if p.created_at == t then ann ∷ ps else p ∷ overwrite_time t ps ann

unfoldable pub overwrite_oldest : List PeerAnnouncement → PeerAnnouncement → List PeerAnnouncement
overwrite_oldest [] ann = []
overwrite_oldest (p ∷ ps) ann = overwrite_time (oldest_time p.created_at ps) (p ∷ ps) ann

-- What follows the loop, if it has not returned.
abbrev pub placed :
    Option (List PeerAnnouncement)
    → List PeerAnnouncement
    → PeerAnnouncement
    → List PeerAnnouncement
placed (some qs) ps ann = qs
placed none ps ann =
    if leb max_peers_per_target (length ps) then overwrite_oldest ps ann else ps ++ (ann ∷ [])

unfoldable pub put_peer : List PeerAnnouncement → PeerAnnouncement → List PeerAnnouncement
put_peer ps ann = placed (replace ps ann) ps ann

abbrev pub peers_or_none : Option (List PeerAnnouncement) → List PeerAnnouncement
peers_or_none none = []
peers_or_none (some ps) = ps

unfoldable pub put : List Entry → List ℕ → PeerAnnouncement → List Entry
put store target ann =
    if leb max_total_targets (length store) && not (is_some (find store target))
    then store
    else write store target (put_peer (peers_or_none (find store target)) ann)

-- `std::remove_if` and `erase`.
abbrev pub without : List PeerAnnouncement → Address → List PeerAnnouncement
without [] a = []
without (p ∷ ps) a = if same_source p.source a then without ps a else p ∷ without ps a

abbrev pub remove_found :
    Option (List PeerAnnouncement) → List Entry → List ℕ → Address → List Entry × Bool
remove_found none store target source = (store, false)
remove_found (some ps) store target source =
    let kept = without ps source in
    if length kept == length ps
    then (store, false)
    else if length kept == 0
    then (erase store target, true)
    else (write store target kept, true)

unfoldable pub remove : List Entry → List ℕ → Address → List Entry × Bool
remove store target source = remove_found (find store target) store target source

unfoldable pub get : List Entry → List ℕ → List PeerAnnouncement
get store target = peers_or_none (find store target)

abbrev pub expired : ℕ → PeerAnnouncement → Bool
expired now p = if ltb now p.created_at then false else ltb p.ttl (now - p.created_at)

abbrev pub unexpired : ℕ → List PeerAnnouncement → List PeerAnnouncement
unexpired now [] = []
unexpired now (p ∷ ps) = if expired now p then unexpired now ps else p ∷ unexpired now ps

unfoldable pub gc : List Entry → ℕ → List Entry
gc [] now = []
gc (e ∷ es) now =
    let kept = unexpired now e.peers in
    let rest = gc es now in if length kept == 0 then rest else record e { peers = kept } ∷ rest

unfoldable pub size : List Entry → ℕ
size [] = 0
size (e ∷ es) = length e.peers + size es
