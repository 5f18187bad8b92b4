-- ===== src/Stun/Endian.antt =====
-- Byte-swap helpers, on platforms of either byte order. `object_bytes` and `load` are how a platform
-- of that order lays a number out in memory, which std::memcpy copies.
use libstunxx.Common.{
  ℕ, zero, suc, ◌+◌, ◌*◌, ◌/◌, ◌%◌, ◌^◌, bit_and, bit_or, ◌≡◌, [], ◌∷◌, arith, u16, ◌<<<◌, ◌>>>◌,
  IsU16, IsU32, IsU64,
}
use mathlib.Core.List.{reverse}
use libstunxx.Common.Bits.{bit_or_fields, bit_and_mask, bit_and_middle}
use libstunxx.Memory.{Bytes}
use libstunxx.Stun.Wire.{be16, be32}

pub data Endian : Type 0 where
  big little : Endian

-- byteswap(std::uint16_t), which host_to_be16 and be16_to_host are
unfoldable pub byteswap16 : Endian → ℕ → ℕ
byteswap16 big value = value
byteswap16 little value = u16 (bit_or (value <<< 8) (value >>> 8))

unfoldable pub byteswap32 : Endian → ℕ → ℕ
byteswap32 big value = value
byteswap32 little value =
    bit_or
      (bit_or (bit_or (bit_and value 0x0000_00ff <<< 24) (bit_and value 0x0000_ff00 <<< 8))
        (bit_and value 0x00ff_0000 >>> 8))
      (bit_and value 0xff00_0000 >>> 24)

unfoldable pub byteswap64 : Endian → ℕ → ℕ
byteswap64 big value = value
byteswap64 little value =
    let b0 = bit_and value 0x0000_0000_0000_00ff <<< 56 in
    let b1 = bit_and value 0x0000_0000_0000_ff00 <<< 40 in
    let b2 = bit_and value 0x0000_0000_00ff_0000 <<< 24 in
    let b3 = bit_and value 0x0000_0000_ff00_0000 <<< 8 in
    let b4 = bit_and value 0x0000_00ff_0000_0000 >>> 8 in
    let b5 = bit_and value 0x0000_ff00_0000_0000 >>> 24 in
    let b6 = bit_and value 0x00ff_0000_0000_0000 >>> 40 in
    let b7 = bit_and value 0xff00_0000_0000_0000 >>> 56 in
    bit_or (bit_or (bit_or (bit_or (bit_or (bit_or (bit_or b0 b1) b2) b3) b4) b5) b6) b7

le_bytes : ℕ → ℕ → Bytes
le_bytes zero v = []
le_bytes (suc w) v = (v % 2 ^ 8) ∷ le_bytes w (v / 2 ^ 8)

from_le : Bytes → ℕ
from_le [] = 0
from_le (b ∷ bs) = b + 2 ^ 8 * from_le bs

-- The bytes in memory of an unsigned number of `w` bytes.
unfoldable pub object_bytes : Endian → ℕ → ℕ → Bytes
unfolding le_bytes
object_bytes big w v = reverse (le_bytes w v)
object_bytes little w v = le_bytes w v

-- The number whose bytes in memory these are.
unfoldable pub load : Endian → Bytes → ℕ
unfolding from_le
load big bs = from_le (reverse bs)
load little bs = from_le bs

swap16_sum : (v : ℕ) → IsU16 v → byteswap16 little v ≡ v % 2 ^ 8 * 2 ^ 8 + v / 2 ^ 8
unfolding byteswap16
swap16_sum v h = ground (arith, bit_or_fields 8 v (v / 2 ^ 8))

pub object_bytes-byteswap16 :
    (e : Endian) (v : ℕ) → IsU16 v → object_bytes e 2 (byteswap16 e v) ≡ be16 v
unfolding object_bytes
object_bytes-byteswap16 big v h = unfold byteswap16 in ground arith
object_bytes-byteswap16 little v h = ground (arith, swap16_sum v h)

swap32_sum :
    (v : ℕ)
    → IsU32 v
    → byteswap32 little v
      ≡ v % 2 ^ 8 * 2 ^ 24 + v / 2 ^ 8 % 2 ^ 8 * 2 ^ 16 + v / 2 ^ 16 % 2 ^ 8 * 2 ^ 8 + v / 2 ^ 24
unfolding byteswap32
swap32_sum v h = ground (
  arith,
  bit_and_mask 8 v,
  bit_and_middle 8 8 v,
  bit_and_middle 16 8 v,
  bit_and_middle 24 8 v,
  bit_or_fields 24 (v % 2 ^ 8) (v / 2 ^ 8 % 2 ^ 8 * 2 ^ 16),
  bit_or_fields 16 (v % 2 ^ 8 * 2 ^ 8 + v / 2 ^ 8 % 2 ^ 8) (v / 2 ^ 16 % 2 ^ 8 * 2 ^ 8),
  bit_or_fields 8 (v % 2 ^ 8 * 2 ^ 16 + v / 2 ^ 8 % 2 ^ 8 * 2 ^ 8 + v / 2 ^ 16 % 2 ^ 8)
      (v / 2 ^ 24),
)

pub object_bytes-byteswap32 :
    (e : Endian) (v : ℕ) → IsU32 v → object_bytes e 4 (byteswap32 e v) ≡ be32 v
unfolding object_bytes
object_bytes-byteswap32 big v h = unfold byteswap32 in ground arith
object_bytes-byteswap32 little v h = ground (arith, swap32_sum v h)

abbrev pub be64 : ℕ → Bytes
be64 v =
    (v / 2 ^ 56)
    ∷ (v / 2 ^ 48 % 2 ^ 8)
    ∷ (v / 2 ^ 40 % 2 ^ 8)
    ∷ (v / 2 ^ 32 % 2 ^ 8)
    ∷ (v / 2 ^ 24 % 2 ^ 8)
    ∷ (v / 2 ^ 16 % 2 ^ 8)
    ∷ (v / 2 ^ 8 % 2 ^ 8)
    ∷ (v % 2 ^ 8)
    ∷ []

-- The number with the bytes of `v` in the opposite order.
abbrev swapped64 : ℕ → ℕ
swapped64 v =
    v % 2 ^ 8 * 2 ^ 56
    + v / 2 ^ 8 % 2 ^ 8 * 2 ^ 48
    + v / 2 ^ 16 % 2 ^ 8 * 2 ^ 40
    + v / 2 ^ 24 % 2 ^ 8 * 2 ^ 32
    + v / 2 ^ 32 % 2 ^ 8 * 2 ^ 24
    + v / 2 ^ 40 % 2 ^ 8 * 2 ^ 16
    + v / 2 ^ 48 % 2 ^ 8 * 2 ^ 8
    + v / 2 ^ 56

swap64_sum : (v : ℕ) → IsU64 v → byteswap64 little v ≡ swapped64 v
unfolding byteswap64
swap64_sum v h = ground (
  arith,
  bit_and_mask 8 v,
  bit_and_middle 8 8 v,
  bit_and_middle 16 8 v,
  bit_and_middle 24 8 v,
  bit_and_middle 32 8 v,
  bit_and_middle 40 8 v,
  bit_and_middle 48 8 v,
  bit_and_middle 56 8 v,
  bit_or_fields 56 (v % 2 ^ 8) (v / 2 ^ 8 % 2 ^ 8 * 2 ^ 48),
  bit_or_fields 48 (v % 2 ^ 8 * 2 ^ 8 + v / 2 ^ 8 % 2 ^ 8) (v / 2 ^ 16 % 2 ^ 8 * 2 ^ 40),
  bit_or_fields 40 (v % 2 ^ 8 * 2 ^ 16 + v / 2 ^ 8 % 2 ^ 8 * 2 ^ 8 + v / 2 ^ 16 % 2 ^ 8)
      (v / 2 ^ 24 % 2 ^ 8 * 2 ^ 32),
  bit_or_fields 32
      (v % 2 ^ 8 * 2 ^ 24
        + v / 2 ^ 8 % 2 ^ 8 * 2 ^ 16
        + v / 2 ^ 16 % 2 ^ 8 * 2 ^ 8
        + v / 2 ^ 24 % 2 ^ 8)
      (v / 2 ^ 32 % 2 ^ 8 * 2 ^ 24),
  bit_or_fields 24
      (v % 2 ^ 8 * 2 ^ 32
        + v / 2 ^ 8 % 2 ^ 8 * 2 ^ 24
        + v / 2 ^ 16 % 2 ^ 8 * 2 ^ 16
        + v / 2 ^ 24 % 2 ^ 8 * 2 ^ 8
        + v / 2 ^ 32 % 2 ^ 8)
      (v / 2 ^ 40 % 2 ^ 8 * 2 ^ 16),
  bit_or_fields 16
      (v % 2 ^ 8 * 2 ^ 40
        + v / 2 ^ 8 % 2 ^ 8 * 2 ^ 32
        + v / 2 ^ 16 % 2 ^ 8 * 2 ^ 24
        + v / 2 ^ 24 % 2 ^ 8 * 2 ^ 16
        + v / 2 ^ 32 % 2 ^ 8 * 2 ^ 8
        + v / 2 ^ 40 % 2 ^ 8)
      (v / 2 ^ 48 % 2 ^ 8 * 2 ^ 8),
  bit_or_fields 8
      (v % 2 ^ 8 * 2 ^ 48
        + v / 2 ^ 8 % 2 ^ 8 * 2 ^ 40
        + v / 2 ^ 16 % 2 ^ 8 * 2 ^ 32
        + v / 2 ^ 24 % 2 ^ 8 * 2 ^ 24
        + v / 2 ^ 32 % 2 ^ 8 * 2 ^ 16
        + v / 2 ^ 40 % 2 ^ 8 * 2 ^ 8
        + v / 2 ^ 48 % 2 ^ 8)
      (v / 2 ^ 56),
)

pub object_bytes-byteswap64 :
    (e : Endian) (v : ℕ) → IsU64 v → object_bytes e 8 (byteswap64 e v) ≡ be64 v
unfolding object_bytes
object_bytes-byteswap64 big v h = unfold byteswap64 in ground arith
object_bytes-byteswap64 little v h = ground (arith, swap64_sum v h)

-- What `be32_to_host` and `be64_to_host` give for bytes that were copied off the wire.
pub byteswap32-load : (e : Endian) (v : ℕ) → IsU32 v → byteswap32 e (load e (be32 v)) ≡ v
unfolding load
byteswap32-load big v h = unfold byteswap32 in ground arith
byteswap32-load little v h = ground (arith, swap32_sum (from_le (be32 v)))

pub byteswap64-load : (e : Endian) (v : ℕ) → IsU64 v → byteswap64 e (load e (be64 v)) ≡ v
unfolding load
byteswap64-load big v h = unfold byteswap64 in ground arith
byteswap64-load little v h = ground (arith, swap64_sum (from_le (be64 v)))
