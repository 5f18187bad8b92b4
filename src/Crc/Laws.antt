-- ===== src/Crc/Laws.antt =====
-- The checksum of a message in parts, and its width.
use libstunxx.Common.{
  ℕ, zero, suc, bit_xor, bit_and, ◌^◌, ◌&&◌, ltb, ltb→lt, Bool, true, List, ◌≡◌, refl, sym, ap, ◌∙◌,
  ◌/◌, [], ◌∷◌, ◌++◌, arith, IsU32,
}
use libstunxx.Common.Bits.{bit_xor_cancel, bit_xor-lt}
use libstunxx.Memory.{Bytes}
use libstunxx.Crc.{
  entry, table_entry, crc_table, crc_step, crc_loop, crc32_update, compute_fingerprint,
}
use libstunxx.Crc.Reference.{shift_bit, shift_bits}

pub crc_loop-append :
    (c : ℕ) (front back : Bytes) → crc_loop c (front ++ back) ≡ crc_loop (crc_loop c front) back
unfolding crc_loop
crc_loop-append c [] back = refl
crc_loop-append c (b ∷ front) back = crc_loop-append (crc_step c b) front back

-- Updating the checksum of a first part by a second part gives the checksum of both parts in a row,
-- for any starting value: the function can be called piece by piece.
pub crc32_update-append :
    (crc : ℕ) (front back : Bytes)
    → crc32_update (crc32_update crc front) back ≡ crc32_update crc (front ++ back)
unfolding crc32_update
crc32_update-append crc front back =
    ap (λ t. bit_xor (crc_loop t back) 0xffff_ffff)
      (bit_xor_cancel (crc_loop (bit_xor crc 0xffff_ffff) front) 0xffff_ffff)
    ∙ ap (λ t. bit_xor t 0xffff_ffff) (sym (crc_loop-append (bit_xor crc 0xffff_ffff) front back))

pub shift_bit-lt : (c : ℕ) → IsU32 c → IsU32 (shift_bit c)
unfolding shift_bit
shift_bit-lt c h = ground (arith, bit_xor-lt 32 (c / 2) 0xedb8_8320)

pub shift_bits-lt : (n c : ℕ) → IsU32 c → IsU32 (shift_bits n c)
unfolding shift_bits
shift_bits-lt zero c h = h
shift_bits-lt (suc n) c h = shift_bits-lt n (shift_bit c) (shift_bit-lt c h)

all_words : List ℕ → Bool
all_words [] = true
all_words (x ∷ xs) = ltb x (2 ^ 32) && all_words xs

entry-lt : (xs : List ℕ) (i : ℕ) → all_words xs ≡ true → IsU32 (entry xs i)
unfolding entry all_words
entry-lt [] i h = omega arith
entry-lt (x ∷ xs) zero h = ltb→lt x (2 ^ 32) (ground (arith, h))
entry-lt (x ∷ xs) (suc i) h = entry-lt xs i (ground (arith, h))

-- Whatever the element, each step keeps 32 bits: the index is masked, and every entry has 32 bits.
pub crc_step-lt : (c b : ℕ) → IsU32 c → IsU32 (crc_step c b)
unfolding crc_step table_entry all_words
crc_step-lt c b hc =
    bit_xor-lt 32 (entry crc_table (bit_and (bit_xor c b) 0xff)) (c / 2 ^ 8)
      (entry-lt crc_table (bit_and (bit_xor c b) 0xff) refl) (omega arith)

pub crc_loop-lt : (c : ℕ) (bs : Bytes) → IsU32 c → IsU32 (crc_loop c bs)
unfolding crc_loop
crc_loop-lt c [] hc = hc
crc_loop-lt c (b ∷ bs) hc = crc_loop-lt (crc_step c b) bs (crc_step-lt c b hc)

pub compute_fingerprint-lt : (msg : Bytes) → IsU32 (compute_fingerprint msg)
unfolding compute_fingerprint
compute_fingerprint-lt msg =
    bit_xor-lt 32 _ 0x5354_554e
      (bit_xor-lt 32 _ 0xffff_ffff (crc_loop-lt 0xffff_ffff msg (omega arith)) (omega arith))
      (omega arith)
