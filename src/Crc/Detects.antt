-- ===== src/Crc/Detects.antt =====
-- What the checksum is for: a message with one damaged byte has another fingerprint.
use libstunxx.Common.{
  ℕ, zero, suc, ◌+◌, ◌-◌, ◌/◌, ◌^◌, ◌<◌, bit_xor, ◌≡◌, ◌≢◌, sym, ap, ◌∙◌, [], ◌∷◌, ◌++◌, arith, All,
  IsByte, IsU32,
}
use libstunxx.Common.Bits.{bit_xor_cancel, bit_xor_comm, bit_xor-lt, bit_xor_fields}
use libstunxx.Memory.{Bytes}
use libstunxx.Crc.{crc_step, crc_loop, compute_fingerprint}
use libstunxx.Crc.Reference.{polynomial, shift_bit, shift_bits, crc_step-shift_bits}
use libstunxx.Crc.Laws.{crc_loop-append, crc_loop-lt, shift_bit-lt, crc_step-lt}

pub xor_injective : (a b k : ℕ) → bit_xor a k ≡ bit_xor b k → a ≡ b
xor_injective a b k e = sym (bit_xor_cancel a k) ∙ ap (λ t. bit_xor t k) e ∙ bit_xor_cancel b k

-- The top bit of the register after a shift is the bit that fell out.
top_bit_set : (h : ℕ) → h < 2 ^ 31 → 2 ^ 31 < bit_xor h polynomial + 1
top_bit_set h lt = ground (arith, bit_xor_fields 31 0 1 h (polynomial - 2 ^ 31))

shift_bit-injective : (x y : ℕ) → IsU32 x → IsU32 y → shift_bit x ≡ shift_bit y → x ≡ y
unfolding shift_bit
shift_bit-injective x y hx hy e =
    ground
      (arith, top_bit_set (x / 2), top_bit_set (y / 2), xor_injective (x / 2) (y / 2) polynomial)

pub shift_bits-injective : (n x y : ℕ) → IsU32 x → IsU32 y → shift_bits n x ≡ shift_bits n y → x ≡ y
unfolding shift_bits
shift_bits-injective zero x y hx hy e = e
shift_bits-injective (suc n) x y hx hy e =
    shift_bit-injective x y hx hy
      (shift_bits-injective n (shift_bit x) (shift_bit y) (shift_bit-lt x hx) (shift_bit-lt y hy) e)

crc_step-cancel :
    (c d x y : ℕ)
    → IsU32 c
    → IsU32 d
    → IsByte x
    → IsByte y
    → crc_step c x ≡ crc_step d y
    → bit_xor c x ≡ bit_xor d y
crc_step-cancel c d x y hc hd hx hy e =
    shift_bits-injective 8 (bit_xor c x) (bit_xor d y) (bit_xor-lt 32 c x hc (omega arith))
      (bit_xor-lt 32 d y hd (omega arith))
      (sym (crc_step-shift_bits c x hx) ∙ e ∙ crc_step-shift_bits d y hy)

pub crc_loop-injective :
    (c d : ℕ) (bs : Bytes)
    → IsU32 c
    → IsU32 d
    → All IsByte bs
    → crc_loop c bs ≡ crc_loop d bs
    → c ≡ d
unfolding crc_loop
crc_loop-injective c d [] hc hd h e = e
crc_loop-injective c d (b ∷ bs) hc hd (hb, hbs) e = xor_injective c d b (
    crc_step-cancel c d b b hc hd hb hb (
      crc_loop-injective (crc_step c b) (crc_step d b) bs (crc_step-lt c b hc) (crc_step-lt d b hd)
        hbs e))

module _ (front : Bytes) (x y : ℕ) (back : Bytes) where
  same_register :
      (c : ℕ)
      → IsU32 c
      → IsByte x
      → IsByte y
      → All IsByte back
      → crc_loop c (x ∷ back) ≡ crc_loop c (y ∷ back)
      → x ≡ y
  unfolding crc_loop
  same_register c hc hx hy hb e = xor_injective x y c (
      bit_xor_comm x c
      ∙ crc_step-cancel c c x y hc hc hx hy (
          crc_loop-injective (crc_step c x) (crc_step c y) back (crc_step-lt c x hc)
            (crc_step-lt c y hc) hb e)
      ∙ bit_xor_comm c y)

-- Two byte strings that differ in exactly one byte, at any position, have different fingerprints.
pub compute_fingerprint-detects :
    (front : Bytes) (x y : ℕ) (back : Bytes)
    → IsByte x
    → IsByte y
    → All IsByte back
    → x ≢ y
    → compute_fingerprint (front ++ x ∷ back) ≢ compute_fingerprint (front ++ y ∷ back)
unfolding compute_fingerprint
compute_fingerprint-detects front x y back hx hy hb ne e = ne (
    same_register front x y back (crc_loop 0xffff_ffff front)
      (crc_loop-lt 0xffff_ffff front (omega arith)) hx hy hb
      (sym (crc_loop-append 0xffff_ffff front (x ∷ back))
        ∙ xor_injective _ _ 0xffff_ffff (xor_injective _ _ 0x5354_554e e)
        ∙ crc_loop-append 0xffff_ffff front (y ∷ back)))
