-- ===== src/Stun.antt =====
-- include/stunxx/Stun.hpp: byte order, the attribute header, the enumerations and their codes.
pub mod Wire
pub mod Endian
pub mod Types
pub mod Kinds
pub mod Header
