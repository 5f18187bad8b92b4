-- ===== src/Common/Bits.antt =====
-- Laws of the bit operations at variables. Each is proved from its law for the lowest digit.
pub mod Step
pub mod Xor
pub mod Fields
pub use Xor.*
pub use Fields.*
