-- ===== src/Crc.antt =====
-- include/stunxx/crc32.hpp: the checksum of the FINGERPRINT attribute.
mod Table
pub mod Reference
pub mod Laws
pub mod Detects
pub mod Bursts
use libstunxx.Common.{ℕ, zero, suc, List, [], ◌∷◌, bit_and, bit_xor, ◌>>>◌}
pub use Table.{crc_table}
use libstunxx.Memory.{Bytes}

-- crc_table[i]; the index is masked to 8 bits, so the default is never read.
entry : List ℕ → ℕ → ℕ
entry [] i = 0
entry (x ∷ xs) zero = x
entry (x ∷ xs) (suc i) = entry xs i

pub table_entry : ℕ → ℕ
unfolding entry
table_entry i = entry crc_table i

pub crc_step : ℕ → ℕ → ℕ
unfolding table_entry
crc_step crc b = bit_xor (table_entry (bit_and (bit_xor crc b) 0xff)) (crc >>> 8)

-- while (len--)
pub crc_loop : ℕ → Bytes → ℕ
crc_loop crc [] = crc
crc_loop crc (b ∷ buf) = crc_loop (crc_step crc b) buf

-- `buf` is the `len` bytes from the pointer on.
unfoldable pub crc32_update : ℕ → Bytes → ℕ
unfolding crc_loop crc_step
crc32_update crc buf = bit_xor (crc_loop (bit_xor crc 0xffff_ffff) buf) 0xffff_ffff

unfoldable pub compute_fingerprint : Bytes → ℕ
unfolding crc32_update
compute_fingerprint msg = bit_xor (crc32_update 0 msg) 0x5354_554e
