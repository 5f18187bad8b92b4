-- ===== src/Common/Bits/Xor.antt =====
-- `^` on numbers of any width: a commutative group of exponent two that keeps to its width.
use Prim.Native.Nat.{ℕ, zero, suc, ◌+◌, ◌*◌, ◌/◌, ◌%◌, ◌^◌, ◌≤◌, ◌<◌, bit_xor}
use mathlib.Core.Path.{◌≡◌, refl, ◌∙◌, sym, ap}
use native.Mathlib.Omega.{arith}
use native.Mathlib.Nat.{pow-suc}
use libstunxx.Common.Bits.Step.{bit_xor_step}
use libstunxx.Common.Bits.Fields.{mul_two_pow_suc}

pub bit_xor_half : (a b : ℕ) → bit_xor a b / 2 ≡ bit_xor (a / 2) (b / 2)
bit_xor_half a b = omega (arith, bit_xor_step a b)

pub bit_xor_low : (a b : ℕ) → bit_xor a b % 2 ≡ (a % 2 + b % 2) % 2
bit_xor_low a b = omega (arith, bit_xor_step a b)

comm_upto : (n a b : ℕ) → a + b ≤ n → bit_xor a b ≡ bit_xor b a
comm_upto n zero zero h = refl
comm_upto zero (suc a) b h = absurd (omega arith)
comm_upto zero zero (suc b) h = absurd (omega arith)
comm_upto (suc n) zero (suc b) h = omega (
  arith,
  bit_xor_step 0 (suc b),
  bit_xor_step (suc b) 0,
  comm_upto n (0 / 2) (suc b / 2) (omega arith),
)
comm_upto (suc n) (suc a) b h = omega (
  arith,
  bit_xor_step (suc a) b,
  bit_xor_step b (suc a),
  comm_upto n (suc a / 2) (b / 2) (omega arith),
)

pub bit_xor_comm : (a b : ℕ) → bit_xor a b ≡ bit_xor b a
bit_xor_comm a b = comm_upto (a + b) a b (omega arith)

self_upto : (n a : ℕ) → a ≤ n → bit_xor a a ≡ 0
self_upto n zero h = refl
self_upto zero (suc a) h = absurd (omega arith)
self_upto (suc n) (suc a) h =
    omega (arith, bit_xor_step (suc a) (suc a), self_upto n (suc a / 2) (omega arith))

pub bit_xor_self : (a : ℕ) → bit_xor a a ≡ 0
bit_xor_self a = self_upto a a (omega arith)

zero_upto : (n a : ℕ) → a ≤ n → bit_xor 0 a ≡ a
zero_upto n zero h = refl
zero_upto zero (suc a) h = absurd (omega arith)
zero_upto (suc n) (suc a) h =
    omega (arith, bit_xor_step 0 (suc a), zero_upto n (suc a / 2) (omega arith))

pub zero-bit_xor : (a : ℕ) → bit_xor 0 a ≡ a
zero-bit_xor a = zero_upto a a (omega arith)

pub bit_xor-zero : (a : ℕ) → bit_xor a 0 ≡ a
bit_xor-zero a = bit_xor_comm a 0 ∙ zero-bit_xor a

pub bit_xor-lt : (k a b : ℕ) → a < 2 ^ k → b < 2 ^ k → bit_xor a b < 2 ^ k
bit_xor-lt zero zero zero p q = omega arith
bit_xor-lt zero zero (suc b) p q = absurd (omega arith)
bit_xor-lt zero (suc a) b p q = absurd (omega arith)
bit_xor-lt (suc k) a b p q =
    let e = pow-suc 2 k in
    omega (arith, e, bit_xor_step a b, bit_xor-lt k (a / 2) (b / 2) (omega arith) (omega arith))

left_half : (a b c : ℕ) → bit_xor (bit_xor a b) c / 2 ≡ bit_xor (bit_xor (a / 2) (b / 2)) (c / 2)
left_half a b c = bit_xor_half (bit_xor a b) c ∙ ap (λ t. bit_xor t (c / 2)) (bit_xor_half a b)

right_half : (a b c : ℕ) → bit_xor a (bit_xor b c) / 2 ≡ bit_xor (a / 2) (bit_xor (b / 2) (c / 2))
right_half a b c = bit_xor_half a (bit_xor b c) ∙ ap (bit_xor (a / 2)) (bit_xor_half b c)

same_low : (a b c : ℕ) → bit_xor (bit_xor a b) c % 2 ≡ bit_xor a (bit_xor b c) % 2
same_low a b c = omega (
  arith,
  bit_xor_low (bit_xor a b) c,
  bit_xor_low a (bit_xor b c),
  bit_xor_low a b,
  bit_xor_low b c,
)

assoc_upto : (n a b c : ℕ) → a ≤ n → bit_xor (bit_xor a b) c ≡ bit_xor a (bit_xor b c)
assoc_upto n zero b c h = ap (λ t. bit_xor t c) (zero-bit_xor b) ∙ sym (zero-bit_xor (bit_xor b c))
assoc_upto zero (suc a) b c h = absurd (omega arith)
assoc_upto (suc n) (suc a) b c h = omega (
  arith,
  left_half (suc a) b c,
  right_half (suc a) b c,
  same_low (suc a) b c,
  assoc_upto n (suc a / 2) (b / 2) (c / 2) (omega arith),
)

pub bit_xor_assoc : (a b c : ℕ) → bit_xor (bit_xor a b) c ≡ bit_xor a (bit_xor b c)
bit_xor_assoc a b c = assoc_upto a a b c (omega arith)

-- Applying the same mask twice gives the number back.
pub bit_xor_cancel : (a k : ℕ) → bit_xor (bit_xor a k) k ≡ a
bit_xor_cancel a k = bit_xor_assoc a k k ∙ ap (bit_xor a) (bit_xor_self k) ∙ bit_xor-zero a

-- Fields above bit `k` and below it do not meet.
pub bit_xor_fields :
    (k p q r s : ℕ)
    → r < 2 ^ k
    → s < 2 ^ k
    → bit_xor (p * 2 ^ k + r) (q * 2 ^ k + s) ≡ bit_xor p q * 2 ^ k + bit_xor r s
bit_xor_fields zero p q zero zero hr hs = ground arith
bit_xor_fields zero p q zero (suc s) hr hs = absurd (omega arith)
bit_xor_fields zero p q (suc r) s hr hs = absurd (omega arith)
bit_xor_fields (suc k) p q r s hr hs = ground (
  arith,
  bit_xor_step (p * 2 ^ suc k + r) (q * 2 ^ suc k + s),
  bit_xor_step r s,
  mul_two_pow_suc p k,
  mul_two_pow_suc q k,
  mul_two_pow_suc (bit_xor p q) k,
  bit_xor_fields k p q (r / 2) (s / 2) (omega arith),
)
