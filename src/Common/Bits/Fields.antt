-- ===== src/Common/Bits/Fields.antt =====
-- `|` of disjoint fields and `&` with a low mask, as arithmetic.
use Prim.Native.Nat.{ℕ, zero, suc, ◌+◌, ◌-◌, ◌*◌, ◌/◌, ◌%◌, ◌^◌, ◌≤◌, ◌<◌, bit_and, bit_or}
use mathlib.Core.Path.{◌≡◌, refl, ap, sym, ◌∙◌}
use native.Mathlib.Omega.{arith}
use native.Mathlib.Nat.{pow-suc, one-le-pow, div-div-eq-div-mul}
use libstunxx.Common.Bits.Step.{bit_and_step, bit_or_step}

or_upto : (n a : ℕ) → a ≤ n → bit_or a 0 ≡ a
or_upto n zero h = refl
or_upto zero (suc a) h = absurd (omega arith)
or_upto (suc n) (suc a) h =
    omega (arith, bit_or_step (suc a) 0, or_upto n (suc a / 2) (omega arith))

pub bit_or-zero : (a : ℕ) → bit_or a 0 ≡ a
bit_or-zero a = or_upto a a (omega arith)

and_upto : (n a : ℕ) → a ≤ n → bit_and a 0 ≡ 0
and_upto n zero h = refl
and_upto zero (suc a) h = absurd (omega arith)
and_upto (suc n) (suc a) h =
    omega (arith, bit_and_step (suc a) 0, and_upto n (suc a / 2) (omega arith))

pub bit_and-zero : (a : ℕ) → bit_and a 0 ≡ 0
bit_and-zero a = and_upto a a (omega arith)

pub mul_two_pow_suc : (q k : ℕ) → q * 2 ^ suc k ≡ 2 * (q * 2 ^ k)
mul_two_pow_suc q k = omega (arith, ap (λ (t : ℕ). q * t) (pow-suc 2 k))

-- A field above bit `k`, or-ed with one below it, is their sum.
pub bit_or_fields : (k q r : ℕ) → r < 2 ^ k → bit_or (q * 2 ^ k) r ≡ q * 2 ^ k + r
bit_or_fields zero q r h = ground (arith, bit_or-zero q)
bit_or_fields (suc k) q r h = ground (
  arith,
  bit_or_step (q * 2 ^ suc k) r,
  mul_two_pow_suc q k,
  bit_or_fields k q (r / 2) (omega arith),
)

and_fields : (k q r : ℕ) → r < 2 ^ k → bit_and (q * 2 ^ k + r) (2 ^ k - 1) ≡ r
and_fields zero q r h = rw bit_and-zero (omega arith)
and_fields (suc k) q r h = ground (
  arith,
  bit_and_step (q * 2 ^ suc k + r) (2 ^ suc k - 1),
  mul_two_pow_suc q k,
  pow-suc 2 k,
  and_fields k q (r / 2) (omega arith),
)

-- A mask of `k` low bits is the remainder by `2 ^ k`.
pub bit_and_mask : (k a : ℕ) → bit_and a (2 ^ k - 1) ≡ a % 2 ^ k
bit_and_mask k a = ground (arith, one-le-pow k 2, and_fields k (a / 2 ^ k) (a % 2 ^ k))

pow-suc_two : (j : ℕ) → 2 ^ suc j ≡ 2 * 2 ^ j
pow-suc_two j = omega (arith, pow-suc 2 j)

halve_first : (j a : ℕ) → a / 2 / 2 ^ j ≡ a / 2 ^ suc j
halve_first j a = div-div-eq-div-mul a 2 (2 ^ j) ∙ ap (λ (t : ℕ). a / t) (sym (pow-suc_two j))

-- A mask of `k` bits above the `j` lowest.
pub bit_and_middle : (j k a : ℕ) → bit_and a ((2 ^ k - 1) * 2 ^ j) ≡ a / 2 ^ j % 2 ^ k * 2 ^ j
bit_and_middle zero k a = ground (arith, bit_and_mask k a)
bit_and_middle (suc j) k a = ground (
  arith,
  bit_and_step a ((2 ^ k - 1) * 2 ^ suc j),
  mul_two_pow_suc (2 ^ k - 1) j,
  mul_two_pow_suc (a / 2 / 2 ^ j % 2 ^ k) j,
  ap (λ (t : ℕ). t % 2 ^ k * 2 ^ suc j) (halve_first j a),
  bit_and_middle j k (a / 2),
)
