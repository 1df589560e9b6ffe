-- ===== src/Lru.antt =====
-- lru_cache.hpp: the entries in the order of their use, the latest first. The hash map of the class
-- finds the entry of a key, which is a walk through the list here.
pub mod Laws
use hyperdht_cpp.Prelude.{
  ℕ, zero, suc, ◌-◌, Bool, true, false, ◌&&◌, ◌||◌, not, Option, none, some, is_some, List, [], ◌∷◌,
  if◌then◌else◌, ltb, leb, length, take,
}

pub record Entry (K V : Type 0) : Type 0 where
  pub key : K
  pub value : V
  pub created_at : ℕ

module _ {K V : Type 0} (same : K → K → Bool) where
  abbrev pub find : List (Entry K V) → K → Option (Entry K V)
  find [] k = none
  find (e ∷ es) k = if same e.key k then some e else find es k

  abbrev pub without : List (Entry K V) → K → List (Entry K V)
  without [] k = []
  without (e ∷ es) k = if same e.key k then es else e ∷ without es k

  -- `while (entries_.size() >= max_size_ && !entries_.empty()) entries_.pop_back();`: what is left
  -- has one entry less than the limit, or none.
  abbrev pub evict : ℕ → List (Entry K V) → List (Entry K V)
  evict max es = if leb max (length es) then take (max - 1) es else es

  -- `splice` to the front.
  abbrev pub put_found : Option (Entry K V) → ℕ → List (Entry K V) → K → V → ℕ → List (Entry K V)
  put_found (some e) max es k v now = record e { value = v; created_at = now } ∷ without es k
  put_found none max es k v now = record { key = k; value = v; created_at = now } ∷ evict max es

  unfoldable pub put : ℕ → List (Entry K V) → K → V → ℕ → List (Entry K V)
  put max es k v now = put_found (find es k) max es k v now

  abbrev pub get_found : Option (Entry K V) → List (Entry K V) → K → Option V × List (Entry K V)
  get_found none es k = (none, es)
  get_found (some e) es k = (some e.value, e ∷ without es k)

  unfoldable pub get : List (Entry K V) → K → Option V × List (Entry K V)
  get es k = get_found (find es k) es k

  unfoldable pub remove : List (Entry K V) → K → List (Entry K V)
  remove es k = without es k

  abbrev pub expired : ℕ → ℕ → Entry K V → Bool
  expired now max_age e = leb e.created_at now && ltb max_age (now - e.created_at)

  unfoldable pub gc : List (Entry K V) → ℕ → ℕ → List (Entry K V)
  gc [] now max_age = []
  gc (e ∷ es) now max_age =
      let rest = gc es now max_age in if expired now max_age e then rest else e ∷ rest
