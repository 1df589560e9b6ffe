-- ===== src/Holepunch.antt =====
-- holepunch.hpp and holepunch.cpp: the messages, and the prober of a peer behind a NAT.
pub mod Message
pub mod Puncher
pub mod Match
pub mod Payload
