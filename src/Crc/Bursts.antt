-- ===== src/Crc/Bursts.antt =====
-- Damage to a stretch of up to four bytes: the register shifts the whole stretch at once.
use libstunxx.Common.{
  ℕ, zero, suc, ◌+◌, ◌*◌, ◌≤◌, bit_xor, ◌≡◌, ◌≢◌, refl, sym, ap, ap₂, ◌∙◌, [], ◌∷◌, ◌++◌, arith,
  All, length, IsByte, IsU32,
}
use libstunxx.Common.Bits.{
  bit_xor_comm, bit_xor_assoc, bit_xor-lt, bit_xor_fields, bit_xor-zero, zero-bit_xor,
}
use libstunxx.Memory.{Bytes}
use libstunxx.Crc.{crc_step, crc_loop, compute_fingerprint}
use libstunxx.Crc.Reference.{shift_bits, shift_bits_linear, shift_bits_double, crc_step-shift_bits}
use libstunxx.Crc.Laws.{crc_loop-append, crc_loop-lt, shift_bits-lt}
use libstunxx.Crc.Detects.{xor_injective, shift_bits-injective, crc_loop-injective}

-- The number whose bytes these are, the first the lowest.
word_of : Bytes → ℕ
word_of [] = 0
word_of (b ∷ bs) = b + word_of bs * 256

shift_bytes : ℕ → ℕ → ℕ
shift_bytes zero c = c
shift_bytes (suc n) c = shift_bytes n (shift_bits 8 c)

byte_below : (b w : ℕ) → IsByte b → bit_xor b (w * 256) ≡ b + w * 256
byte_below b w h = ground (arith, bit_xor_fields 8 0 w b 0, bit_xor-zero b, zero-bit_xor w)

crc_loop-shift_bytes :
    (c : ℕ) (bs : Bytes)
    → All IsByte bs
    → crc_loop c bs ≡ shift_bytes (length bs) (bit_xor c (word_of bs))
unfolding crc_loop shift_bytes word_of
crc_loop-shift_bytes c [] h = sym (bit_xor-zero c)
crc_loop-shift_bytes c (b ∷ bs) (hb, h) =
    crc_loop-shift_bytes (crc_step c b) bs h
    ∙ ap (shift_bytes (length bs)) (
        ap₂ bit_xor (crc_step-shift_bits c b hb) (sym (shift_bits_double 8 (word_of bs)))
        ∙ sym (shift_bits_linear 8 (bit_xor c b) (word_of bs * 256))
        ∙ ap (shift_bits 8)
            (bit_xor_assoc c b (word_of bs * 256) ∙ ap (bit_xor c) (byte_below b (word_of bs) hb)))

shift_bytes-injective : (n x y : ℕ) → IsU32 x → IsU32 y → shift_bytes n x ≡ shift_bytes n y → x ≡ y
unfolding shift_bytes
shift_bytes-injective zero x y hx hy e = e
shift_bytes-injective (suc n) x y hx hy e = shift_bits-injective 8 x y hx hy (
    shift_bytes-injective n (shift_bits 8 x) (shift_bits 8 y) (shift_bits-lt 8 x hx)
      (shift_bits-lt 8 y hy) e)

word_of-lt : (bs : Bytes) → All IsByte bs → length bs ≤ 4 → IsU32 (word_of bs)
unfolding word_of
word_of-lt [] h l = omega arith
word_of-lt (a ∷ []) h l = omega arith
word_of-lt (a ∷ b ∷ []) h l = omega arith
word_of-lt (a ∷ b ∷ c ∷ []) h l = omega arith
word_of-lt (a ∷ b ∷ c ∷ d ∷ []) h l = omega arith
word_of-lt (a ∷ b ∷ c ∷ d ∷ e ∷ bs) h l = absurd (omega arith)

word_of-injective :
    (xs ys : Bytes)
    → All IsByte xs
    → All IsByte ys
    → length xs ≡ length ys
    → word_of xs ≡ word_of ys
    → xs ≡ ys
unfolding word_of
word_of-injective [] [] hx hy l e = refl
word_of-injective [] (y ∷ ys) hx hy l e = absurd (omega arith)
word_of-injective (x ∷ xs) [] hx hy l e = absurd (omega arith)
word_of-injective (x ∷ xs) (y ∷ ys) (hx, hxs) (hy, hys) l e =
    ap₂ ◌∷◌ (omega arith) (word_of-injective xs ys hxs hys (omega arith) (omega arith))

-- Two byte strings that agree but for one stretch of up to four bytes, the same in length and at the
-- same place, where they differ, have different fingerprints. The elements of the stretch
-- and behind it are bytes.
pub compute_fingerprint-bursts :
    (front xs ys back : Bytes)
    → All IsByte xs
    → All IsByte ys
    → All IsByte back
    → length xs ≡ length ys
    → length xs ≤ 4
    → xs ≢ ys
    → compute_fingerprint (front ++ (xs ++ back)) ≢ compute_fingerprint (front ++ (ys ++ back))
unfolding compute_fingerprint
compute_fingerprint-bursts front xs ys back hx hy hb l short ne e =
    ne (word_of-injective xs ys hx hy l same_word)
  where
    c : ℕ
    c = crc_loop 0xffff_ffff front

    hc : IsU32 (crc_loop 0xffff_ffff front)
    hc = crc_loop-lt 0xffff_ffff front (omega arith)

    same_register : crc_loop c xs ≡ crc_loop c ys
    same_register =
        crc_loop-injective (crc_loop c xs) (crc_loop c ys) back (crc_loop-lt c xs hc)
          (crc_loop-lt c ys hc) hb
          (sym (crc_loop-append c xs back)
            ∙ sym (crc_loop-append 0xffff_ffff front (xs ++ back))
            ∙ xor_injective _ _ 0xffff_ffff (xor_injective _ _ 0x5354_554e e)
            ∙ crc_loop-append 0xffff_ffff front (ys ++ back)
            ∙ crc_loop-append c ys back)

    same_word : word_of xs ≡ word_of ys
    same_word = xor_injective (word_of xs) (word_of ys) c (
        bit_xor_comm (word_of xs) c
        ∙ shift_bytes-injective (length xs) (bit_xor c (word_of xs)) (bit_xor c (word_of ys))
            (bit_xor-lt 32 c (word_of xs) hc (word_of-lt xs hx short))
            (bit_xor-lt 32 c (word_of ys) hc (word_of-lt ys hy (omega (arith, l, short))))
            (sym (crc_loop-shift_bytes c xs hx)
              ∙ same_register
              ∙ crc_loop-shift_bytes c ys hy
              ∙ ap (λ n. shift_bytes n (bit_xor c (word_of ys))) (sym l))
        ∙ bit_xor_comm c (word_of ys))
