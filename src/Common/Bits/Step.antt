-- ===== src/Common/Bits/Step.antt =====
-- The native bit operations stand for a recursion on binary digits with a count of digits to go.
-- Here the count is dropped: one equation for the lowest digit of each operation.
use Prim.Native.Nat.{ℕ, zero, suc, ◌+◌, ◌*◌, ◌/◌, ◌%◌, ◌≤◌, min, max, bit_and, bit_or, bit_xor}
use Prim.Native.Nat.{digits, bitwise, differ, bit_and-bitwise, bit_or-bitwise, bit_xor-bitwise}
use mathlib.Core.Path.{◌≡◌, refl, sym, ap, ◌∙◌}
use native.Mathlib.Omega.{arith}
use native.Mathlib.Nat.{le_refl}

module _ (rest : ℕ → ℕ) (digit : ℕ → ℕ → ℕ) where
  digits-zero : (count y : ℕ) → digits rest digit count 0 y ≡ rest y
  digits-zero zero y = refl
  digits-zero (suc count) y = refl

  -- Counts of at least the first operand give the same digits.
  digits_agree : (x y c d : ℕ) → x ≤ c → x ≤ d → digits rest digit c x y ≡ digits rest digit d x y
  digits_agree zero y c d hc hd = digits-zero c y ∙ sym (digits-zero d y)
  digits_agree (suc x) y zero d hc hd = absurd (omega arith)
  digits_agree (suc x) y (suc c) zero hc hd = absurd (omega arith)
  digits_agree (suc x) y (suc c) (suc d) hc hd =
      ap (λ (t : ℕ). t * 2 + digit (suc x % 2) (y % 2))
        (digits_agree (suc x / 2) (y / 2) c d (omega arith) (omega arith))

  -- An operation that stands for this recursion, at an operand that is not zero.
  lowest :
      (op : ℕ → ℕ → ℕ)
      → ((x y : ℕ) → op x y ≡ bitwise rest digit x y)
      → (x y : ℕ) → op (suc x) y ≡ op (suc x / 2) (y / 2) * 2 + digit (suc x % 2) (y % 2)
  lowest op means x y =
      means (suc x) y
      ∙ ap (λ (t : ℕ). t * 2 + digit (suc x % 2) (y % 2))
          (digits_agree (suc x / 2) (y / 2) x (suc x / 2) (omega arith) (le_refl _)
            ∙ sym (means (suc x / 2) (y / 2)))

pub bit_and_step : (x y : ℕ) → bit_and x y ≡ bit_and (x / 2) (y / 2) * 2 + min (x % 2) (y % 2)
bit_and_step zero y = omega (arith, bit_and-bitwise 0 y, bit_and-bitwise 0 (y / 2))
bit_and_step (suc x) y = lowest (λ t. 0) min bit_and bit_and-bitwise x y

pub bit_or_step : (x y : ℕ) → bit_or x y ≡ bit_or (x / 2) (y / 2) * 2 + max (x % 2) (y % 2)
bit_or_step zero y = omega (arith, bit_or-bitwise 0 y, bit_or-bitwise 0 (y / 2))
bit_or_step (suc x) y = lowest (λ t. t) max bit_or bit_or-bitwise x y

bit_xor-differ : (x y : ℕ) → bit_xor x y ≡ bit_xor (x / 2) (y / 2) * 2 + differ (x % 2) (y % 2)
bit_xor-differ zero y = simp bit_xor-bitwise (omega arith)
bit_xor-differ (suc x) y = lowest (λ t. t) differ bit_xor bit_xor-bitwise x y

differ_digits : (x y : ℕ) → x ≤ 1 → y ≤ 1 → differ x y ≡ (x + y) % 2
differ_digits zero y p q = omega arith
differ_digits (suc zero) zero p q = refl
differ_digits (suc zero) (suc zero) p q = refl
differ_digits (suc zero) (suc (suc y)) p q = absurd (omega arith)
differ_digits (suc (suc x)) y p q = absurd (omega arith)

pub bit_xor_step : (x y : ℕ) → bit_xor x y ≡ bit_xor (x / 2) (y / 2) * 2 + (x % 2 + y % 2) % 2
bit_xor_step x y =
    omega (arith, bit_xor-differ x y, differ_digits (x % 2) (y % 2) (omega arith) (omega arith))
