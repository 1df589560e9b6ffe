-- ===== src/Routing.antt =====
-- routing_table.hpp and routing_table.cpp.
pub mod Id
pub mod Bucket
pub mod Table
