-- ===== src/Messages.antt =====
-- messages.hpp and messages.cpp: the request and response envelope of dht-rpc.
pub mod Flags
pub mod Field
pub mod Request
pub mod Response
pub mod Dispatch
