-- ===== src/Lib.antt =====
-- The parts of hyperdht-cpp that need no socket: how its messages look on the wire, which peers a
-- node knows, and what it concludes from their answers.
--
-- A datagram is a request or a response (Messages). Its fields are written with the codecs of the
-- compact encoding (Compact), and its value is one of the bodies of DhtMessages. Nodes that answer
-- enter the routing table (Routing); peers that announce themselves enter the announce store
-- (Announces); the addresses that answers report enter the NAT sampler (Nat); and the numbers of
-- answers and timeouts drive the health monitor (Health). Connections are kept once for a peer
-- (Connections), a host proves its address by a token (Tokens), and values are cached (Lru). A lookup
-- (Query) is seeded from the routing table and asks nearer and nearer nodes. A
-- server that listens is found by its target (Router), which passes handshakes (Handshake) and holepunches
-- (Holepunch) to it and its answers back.
--
-- Compact: include/hyperdht/compact.hpp and src/compact.cpp. The cursor `State` is a record; a
--   buffer is the list of its bytes, a null pointer is `none`. Each struct with `preencode`,
--   `encode` and `decode` is a module with these three functions and one `Codec`; `Array` is generic
--   in the codec of its elements. `IsLawful` is what every codec promises, with its wire format as an
--   independent description. `size_t` and `uint64_t` have 64 bits.
-- Messages: messages.hpp and messages.cpp. `encode_request` and `encode_response` run the two
--   passes over one buffer; `decode_request`, `decode_response` and `decode_message` give up at the
--   first error, with `none` for the result `false`.
-- DhtMessages: dht_messages.hpp and dht_messages.cpp. A decoder that returns its message half
--   filled is a `Partial`.
-- Routing: routing_table.hpp and routing_table.cpp. Identifiers are lists of bytes; a bucket is the
--   list of its nodes; the table is the list of 256 buckets. The binary search of a bucket runs on
--   fuel, the number of its nodes, which is enough since each round makes the range smaller. The
--   number that `random` draws is its argument. `std::sort` is an insertion sort.
-- Health: health.hpp and health.cpp. `head_` is kept as one more than in the source.
-- Announces: announce.hpp and announce.cpp. The hash map is an association list.
-- Nat: nat_sampler.hpp and nat_sampler.cpp. A host string is the four bytes that it prints. The
--   loop of `add_sample` compares the slot in which the sample was found, as the source does.
-- Connections: connection_pool.hpp and connection_pool.cpp. Each map is the list of its connections.
-- Lru: lru_cache.hpp. The list of entries, the latest used first, generic in the keys and the values.
-- Tokens: tokens.hpp and tokens.cpp. The keyed hash is a parameter.
-- Query: query.hpp and query.cpp. The lookup is a machine: `start` and then one `step` for each event, a
--   response or a timeout of a request that is in flight, an answered commit, or a call of `destroy`. The socket's
--   table, filter and address hash, and whether the reply callback destroys the query, are an `Environment` that
--   may differ from event to event. `read_more` calls itself once at most: fuel 2. A commit is answered
--   later, by the event loop, and not inside `on_commit_`. `sent`, `waiting`, `finished` and `commits` record the
--   calls that leave the query.
-- Handshake: the handshake message of peer_connect.hpp and peer_connect.cpp.
-- Holepunch: holepunch.hpp and holepunch.cpp. Message is the relayed message, Payload what it holds before it is
--   encrypted. Puncher is `Holepuncher` as a machine: `punch`, `analyze`, `destroy` and the setters, the timer and the
--   probes that arrive are events. The sockets that it holds are counted; the clock, the socket pool and the random
--   ports are `Surroundings`. Match is `match_address`.
-- Router: router.hpp and router.cpp. A call of a server's handler is its arguments and the reply function, which
--   answers with the response or the request that leaves.
-- Tests: the theorems at concrete inputs.
-- Prelude: tests on numbers, lists, bytes and bits.
--
-- Not modelled: sockets, timers and cryptography (libuv, libudx, libsodium), the C interface and the wrappers;
-- `Frame` and the host strings of addresses; the payload of a handshake, the encryption of the payloads, the relayed
-- flow of holepunch_connect and connect.cpp; the storage and RPC handlers; and the RPC socket, the secret stream, the
-- protocol multiplexer, the blind relay, the announcer, the server and the DHT node.
pub mod Prelude
pub mod Compact
pub mod Messages
pub mod DhtMessages
pub mod Routing
pub mod Health
pub mod Announces
pub mod Nat
pub mod Tests
pub mod Lru
pub mod Tokens
pub mod Connections
pub mod Query
pub mod Handshake
pub mod Holepunch
pub mod Router
