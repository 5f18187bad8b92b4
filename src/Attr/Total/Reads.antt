-- ===== src/Attr/Total/Reads.antt =====
-- Reads of numbers, and the tests of the size that the decoders begin with.
use libstunxx.Common.{ℕ, ◌≤◌, ◌≡◌, not, ◌==◌, ltb, ltb→le, arith, length, if◌then◌else◌}
use libstunxx.Memory.{Bytes, Outcome}
use libstunxx.Memory.Returns.{Returns, done-Returns, if-Returns, bind-Returns, byte_at-Returns}
use libstunxx.Stun.Wire.{read_be16, read_be32}

pub read_be16-Returns : (s : Bytes) → length s ≡ 2 → Returns (read_be16 s)
unfolding read_be16
read_be16-Returns s h =
    bind-Returns (byte_at-Returns 0 s (omega arith))
      λ b0. bind-Returns (byte_at-Returns 1 s (omega arith)) λ b1. done-Returns _

pub read_be32-Returns : (s : Bytes) → length s ≡ 4 → Returns (read_be32 s)
unfolding read_be32
read_be32-Returns s h = bind-Returns (byte_at-Returns 0 s (omega arith)) λ b0.
    bind-Returns (byte_at-Returns 1 s (omega arith)) λ b1.
      bind-Returns (byte_at-Returns 2 s (omega arith))
        λ b2. bind-Returns (byte_at-Returns 3 s (omega arith)) λ b3. done-Returns _

-- A decoder that asks for one size first, and one that asks for a smallest size.
pub sized-Returns {ℓ} :
    {A : Type ℓ} (n : ℕ) (buf : Bytes) (x y : Outcome A)
    → Returns x
    → (length buf ≡ n → Returns y)
    → Returns (if not (length buf == n) then x else y)
sized-Returns n buf x y kx ky =
    if-Returns (not (length buf == n)) x y (λ h. kx) λ h. ky (ground (arith, h))

pub at_least-Returns {ℓ} :
    {A : Type ℓ} (n : ℕ) (buf : Bytes) (x y : Outcome A)
    → Returns x
    → (n ≤ length buf → Returns y)
    → Returns (if ltb (length buf) n then x else y)
at_least-Returns n buf x y kx ky =
    if-Returns (ltb (length buf) n) x y (λ h. kx) λ h. ky (ltb→le (length buf) n h)
