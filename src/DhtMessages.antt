-- ===== src/DhtMessages.antt =====
-- dht_messages.hpp and dht_messages.cpp: announce records, mutable values and lookup replies.
pub mod Partial
pub mod Peer
pub mod Announce
pub mod Lookup
pub mod Mutable
