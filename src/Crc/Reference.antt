-- ===== src/Crc/Reference.antt =====
-- The bit-at-a-time CRC-32 of ITU V.42, and that the table-driven loop computes it.
use libstunxx.Common.{
  ℕ, zero, suc, ◌*◌, ◌/◌, ◌%◌, ◌^◌, ◌<◌, bit_xor, ◌≡◌, refl, sym, ap, ap₂, ◌∙◌, Bool, true, ◌&&◌,
  [], ◌∷◌, arith, ◌==◌, if◌then◌else◌, All, IsByte,
}
use libstunxx.Common.Bits.{
  mul_two_pow_suc, bit_xor_half, bit_xor_low, bit_xor_assoc, bit_xor_comm, bit_xor_self,
  bit_xor-zero, bit_xor-lt, zero-bit_xor, bit_xor_fields, bit_and_mask,
}
use libstunxx.Memory.{Bytes}
use libstunxx.Crc.{table_entry, crc_step, crc_loop, crc32_update}

-- The generator polynomial with its bits in reverse order.
abbrev pub polynomial : ℕ
polynomial = 0xedb8_8320

-- One shift of the register: the polynomial is subtracted if a one falls out.
unfoldable pub shift_bit : ℕ → ℕ
shift_bit c = if c % 2 == 1 then bit_xor (c / 2) polynomial else c / 2

unfoldable pub shift_bits : ℕ → ℕ → ℕ
unfolding shift_bit
shift_bits zero c = c
shift_bits (suc n) c = shift_bits n (shift_bit c)

reference_loop : ℕ → Bytes → ℕ
unfolding shift_bits
reference_loop c [] = c
reference_loop c (b ∷ bs) = reference_loop (shift_bits 8 (bit_xor c b)) bs

-- CRC-32 by its definition: the register starts at the complement and is complemented at the end.
pub crc32_bitwise : ℕ → Bytes → ℕ
unfolding reference_loop
crc32_bitwise crc buf = bit_xor (reference_loop (bit_xor crc 0xffff_ffff) buf) 0xffff_ffff

middle_swap :
    (a b c d : ℕ) → bit_xor (bit_xor a b) (bit_xor c d) ≡ bit_xor (bit_xor a c) (bit_xor b d)
middle_swap a b c d = cc (
  bit_xor_assoc a b (bit_xor c d),
  bit_xor_assoc b c d,
  bit_xor_comm b c,
  bit_xor_assoc c b d,
  bit_xor_assoc a c (bit_xor b d),
)

shift_bit_linear : (x y : ℕ) → shift_bit (bit_xor x y) ≡ bit_xor (shift_bit x) (shift_bit y)
unfolding shift_bit
shift_bit_linear x y = ground (
  arith,
  bit_xor_half x y,
  bit_xor_low x y,
  middle_swap (x / 2) polynomial (y / 2) polynomial,
  middle_swap (x / 2) polynomial (y / 2) 0,
  middle_swap (x / 2) 0 (y / 2) polynomial,
  bit_xor_self polynomial,
  bit_xor-zero (bit_xor (x / 2) (y / 2)),
  bit_xor-zero (x / 2),
  bit_xor-zero (y / 2),
  bit_xor-zero polynomial,
  zero-bit_xor polynomial,
)

pub shift_bits_linear :
    (n x y : ℕ) → shift_bits n (bit_xor x y) ≡ bit_xor (shift_bits n x) (shift_bits n y)
unfolding shift_bits
shift_bits_linear zero x y = refl
shift_bits_linear (suc n) x y =
    ap (shift_bits n) (shift_bit_linear x y) ∙ shift_bits_linear n (shift_bit x) (shift_bit y)

shift_bit_double : (p : ℕ) → shift_bit (2 * p) ≡ p
unfolding shift_bit
shift_bit_double p = ground arith

pub shift_bits_double : (n p : ℕ) → shift_bits n (p * 2 ^ n) ≡ p
unfolding shift_bits
shift_bits_double zero p = omega arith
shift_bits_double (suc n) p =
    ap (shift_bits n) (ap shift_bit (mul_two_pow_suc p n) ∙ shift_bit_double (p * 2 ^ n))
    ∙ shift_bits_double n p

-- Eight shifts move the high bits down and replace the low byte by its remainder.
eight_shifts : (x : ℕ) → shift_bits 8 x ≡ bit_xor (shift_bits 8 (x % 256)) (x / 256)
eight_shifts x =
    ap (shift_bits 8) (
      ground (
        arith,
        bit_xor_fields 8 (x / 256) 0 0 (x % 256),
        bit_xor-zero (x / 256),
        zero-bit_xor (x % 256),
      ))
    ∙ shift_bits_linear 8 (x / 256 * 2 ^ 8) (x % 256)
    ∙ bit_xor_comm (shift_bits 8 (x / 256 * 2 ^ 8)) (shift_bits 8 (x % 256))
    ∙ ap (bit_xor (shift_bits 8 (x % 256))) (shift_bits_double 8 (x / 256))

module _ (f g : ℕ → ℕ) where
  same_below : ℕ → Bool
  same_below zero = true
  same_below (suc n) = f n == g n && same_below n

  same_below_sound : (n i : ℕ) → same_below n ≡ true → i < n → f i ≡ g i
  unfolding same_below
  same_below_sound zero i h lt = absurd (omega arith)
  same_below_sound (suc n) i h lt = ground (arith, same_below_sound n i)

table_checks : same_below table_entry (shift_bits 8) 256 ≡ true
unfolding same_below table_entry shift_bits
table_checks = refl

table_entry-shift_bits : (i : ℕ) → i < 256 → table_entry i ≡ shift_bits 8 i
table_entry-shift_bits i h = same_below_sound table_entry (shift_bits 8) 256 i table_checks h

pub crc_step-shift_bits : (c b : ℕ) → IsByte b → crc_step c b ≡ shift_bits 8 (bit_xor c b)
unfolding crc_step
crc_step-shift_bits c b h =
    ap₂ bit_xor
      (ap table_entry (bit_and_mask 8 (bit_xor c b)) ∙ table_entry-shift_bits _ (omega arith)) high
    ∙ sym (eight_shifts (bit_xor c b))
  where
    high : c / 2 ^ 8 ≡ bit_xor c b / 256
    high = ground (
      arith,
      bit_xor_fields 8 (c / 256) 0 (c % 256) b,
      bit_xor-zero (c / 256),
      bit_xor-lt 8 (c % 256) b,
    )

-- On bytes, from any starting value, the table-driven update is the bit-at-a-time CRC-32: every one
-- of the 256 table entries is right, and so is how the loop uses them.
pub crc32_update-crc32_bitwise :
    (crc : ℕ) (buf : Bytes) → All IsByte buf → crc32_update crc buf ≡ crc32_bitwise crc buf
unfolding crc32_update crc32_bitwise
crc32_update-crc32_bitwise crc buf h =
    ap (λ t. bit_xor t 0xffff_ffff) (loops (bit_xor crc 0xffff_ffff) buf h)
  where
    loops : (c : ℕ) (bs : Bytes) → All IsByte bs → crc_loop c bs ≡ reference_loop c bs
    loops c [] h = refl
    loops c (b ∷ bs) (hb, hbs) =
        rw (crc_step-shift_bits c b hb) (loops (shift_bits 8 (bit_xor c b)) bs hbs)
