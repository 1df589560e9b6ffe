-- ===== src/Connections.antt =====
-- connection_pool.hpp and connection_pool.cpp: one connection for a remote key. The two hash maps are
-- lists of connections, each under its own remote key; the hexadecimal form of a key stands for it.
-- The calls of `on_destroy` and `on_open` are answered as the connections they are made on.
pub mod Laws
use Prim.Native.Nat.{compare, Ordering}
use hyperdht_cpp.Prelude.{
  ℕ, Bool, true, false, Option, none, some, is_some, List, [], ◌∷◌, if◌then◌else◌,
}
use hyperdht_cpp.Routing.Id.{id_eq, id_lt}

pub record ConnectionRef : Type 0 where
  pub local_public_key : List ℕ
  pub remote_public_key : List ℕ
  pub is_initiator : Bool
  pub id : ℕ

pub record Pool : Type 0 where
  pub connecting : List ConnectionRef
  pub connections : List ConnectionRef

pub data AttachResult : Type 0 where
  attached : AttachResult
  duplicate_kept_new : AttachResult
  duplicate_kept_old : AttachResult

pub record Attached : Type 0 where
  pub pool : Pool
  pub outcome : AttachResult
  pub destroyed : Option ConnectionRef

abbrev pub find : List ConnectionRef → List ℕ → Option ConnectionRef
find [] k = none
find (c ∷ cs) k = if id_eq c.remote_public_key k then some c else find cs k

abbrev pub erase : List ConnectionRef → List ℕ → List ConnectionRef
erase [] k = []
erase (c ∷ cs) k = if id_eq c.remote_public_key k then erase cs k else c ∷ erase cs k

-- `map[key_hex(ref->remote_public_key())] = ref`.
abbrev pub write : List ConnectionRef → ConnectionRef → List ConnectionRef
write cs c = c ∷ erase cs c.remote_public_key

abbrev pub same_mode : Bool → Bool → Bool
same_mode true b = b
same_mode false true = false
same_mode false false = true

-- `memcmp(local, remote, 32) > 0` is the order of the bytes.
unfoldable pub should_keep_new : ConnectionRef → ConnectionRef → Bool
should_keep_new existing new =
    if same_mode new.is_initiator existing.is_initiator
    then true
    else id_lt new.remote_public_key new.local_public_key

abbrev pub first_found : Option ConnectionRef → Option ConnectionRef → Option ConnectionRef
first_found none o = o
first_found (some c) o = some c

unfoldable pub get : Pool → List ℕ → Option ConnectionRef
get p k = first_found (find p.connections k) (find p.connecting k)

unfoldable pub has : Pool → List ℕ → Bool
has p k = if is_some (find p.connections k) then true else is_some (find p.connecting k)

unfoldable pub remove : Pool → List ℕ → Pool
remove p k = record { connecting = erase p.connecting k; connections = erase p.connections k }

abbrev pub attach_new : Pool → ConnectionRef → Bool → Pool
attach_new p c true = record p { connections = write p.connections c }
attach_new p c false = record p { connecting = write p.connecting c }

abbrev pub attach_beside : Option ConnectionRef → Pool → ConnectionRef → Bool → Attached
attach_beside none p c opened = record {
  pool = attach_new p c opened;
  outcome = attached;
  destroyed = none;
}
attach_beside (some old) p c opened =
    if should_keep_new old c
    then record {
      pool = attach_new (remove p old.remote_public_key) c opened;
      outcome = duplicate_kept_new;
      destroyed = some old;
    }
    else record { pool = p; outcome = duplicate_kept_old; destroyed = some c }

unfoldable pub attach_stream : Pool → ConnectionRef → Bool → Attached
attach_stream p c opened = attach_beside (get p c.remote_public_key) p c opened

abbrev pub open_found : Option ConnectionRef → Pool → List ℕ → Pool × Option ConnectionRef
open_found none p k = (p, none)
open_found (some c) p k =
    (record { connecting = erase p.connecting k; connections = write p.connections c }, some c)

unfoldable pub mark_opened : Pool → List ℕ → Pool × Option ConnectionRef
mark_opened p k = open_found (find p.connecting k) p k
