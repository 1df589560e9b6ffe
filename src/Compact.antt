-- ===== src/Compact.antt =====
-- compact.hpp and compact.cpp.
pub mod State
pub mod Cursor
pub mod Codec
pub mod Word
pub mod Uint
pub mod Sized
pub mod Uint8
pub mod Uint16
pub mod Uint32
pub mod Uint64
pub mod Boolean
pub mod Fixed
pub mod Address
pub mod Buffer
pub mod Raw
pub mod Array
pub mod Sequence
pub mod Parts
