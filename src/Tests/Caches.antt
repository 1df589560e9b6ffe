-- ===== src/Tests/Caches.antt =====
-- A cache of two entries, a pool with one connection, and tokens under a simple hash.
use hyperdht_cpp.Prelude.{
  ℕ, ◌≡◌, ◌≤◌, refl, Bool, true, false, ◌&&◌, ◌||◌, not, some, List, [], ◌∷◌, ◌++◌, if◌then◌else◌,
  ◌==◌, length, arith,
}
use hyperdht_cpp.Routing.Id.{id_eq}
use hyperdht_cpp.Lru.{Entry, find, put, get, gc}
use hyperdht_cpp.Lru.Laws.{put_lem, gc-find, IsCache, keep_unexpired}
use hyperdht_cpp.Tokens.{TokenStore, rotate, create, validate, generate_token, validate-create}
use hyperdht_cpp.Connections.{ConnectionRef, Pool, attach_stream, should_keep_new, same_mode}
use hyperdht_cpp.Connections.Laws.{attach_stream-get, should_keep_new-ends, is_kept_old}
use hyperdht_cpp.Connections

abbrev same : ℕ → ℕ → Bool
same a b = a == b

abbrev cached : List (Entry ℕ ℕ)
cached =
    record { key = 1; value = 10; created_at = 5 }
    ∷ (record { key = 2; value = 20; created_at = 90 } ∷ [])

put_lem_example :
    (length (put same 2 cached 3 30 100) ≤ 2)
    × ((get same (put same 2 cached 3 30 100) 3).0 ≡ some 30)
put_lem_example = put_lem same 2 cached 3 30 100 refl (omega arith) (omega arith)

same_sound : (a b : ℕ) → same a b ≡ true → a ≡ b
same_sound a b h = ground (arith, h)

gc-find_example :
    IsCache same (gc same cached 100 50)
    × ((k : ℕ)
        → find same (gc same cached 100 50) k ≡ keep_unexpired same 100 50 (find same cached k))
gc-find_example = gc-find same cached 100 50 same_sound ((refl, tt), (tt, tt))

abbrev prefixed : List ℕ → List ℕ → List ℕ
prefixed input key = key ++ input

abbrev secrets : TokenStore
secrets = record { current = 1 ∷ []; previous = 2 ∷ [] }

abbrev host : List ℕ
host = 10 ∷ (0 ∷ [])

validate-create_example :
    (validate prefixed secrets host (create prefixed secrets host) ≡ true)
    × (validate prefixed (rotate prefixed secrets) host (create prefixed secrets host) ≡ true)
    × (validate prefixed
          (rotate prefixed (rotate prefixed secrets))
          host
          (create prefixed secrets host)
        ≡ (id_eq
              (create prefixed secrets host)
              (generate_token prefixed host (prefixed secrets.current []))
            || id_eq
                (create prefixed secrets host)
                (generate_token prefixed host (prefixed secrets.previous []))))
validate-create_example = validate-create prefixed secrets host

abbrev outbound : ConnectionRef
outbound = record {
  local_public_key = 1 ∷ [];
  remote_public_key = 2 ∷ [];
  is_initiator = true;
  id = 1;
}

abbrev inbound : ConnectionRef
inbound = record outbound { is_initiator = false; id = 2 }

abbrev far_outbound : ConnectionRef
far_outbound = record {
  local_public_key = 2 ∷ [];
  remote_public_key = 1 ∷ [];
  is_initiator = true;
  id = 3;
}

abbrev far_inbound : ConnectionRef
far_inbound = record far_outbound { is_initiator = false; id = 4 }

abbrev pool : Pool
pool = record { connecting = outbound ∷ []; connections = [] }

attach_stream-get_example : Connections.get (attach_stream pool inbound true).pool (2 ∷ []) ≡ (
    if id_eq (2 ∷ []) (2 ∷ []) && not (is_kept_old (attach_stream pool inbound true).outcome)
    then some inbound
    else Connections.get pool (2 ∷ []))
attach_stream-get_example = attach_stream-get pool inbound true (2 ∷ [])

should_keep_new-ends_example :
    should_keep_new outbound inbound ≡ not (should_keep_new far_inbound far_outbound)
unfolding id_eq
should_keep_new-ends_example =
    should_keep_new-ends outbound inbound far_inbound far_outbound refl refl refl refl refl
