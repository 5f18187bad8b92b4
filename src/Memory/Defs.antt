-- ===== src/Memory/Defs.antt =====
-- What `std::span<uint8_t>` and `std::memcpy` are in the model: a list of bytes, and reads and writes
-- at an offset that are a fault when they leave the span.
use libstunxx.Common.{
  ℕ, zero, suc, ◌+◌, ◌≡◌, ap, List, [], ◌∷◌, leb, if◌then◌else◌, length, take, drop,
}

abbrev pub Bytes : Type 0
Bytes = List ℕ

pub data Outcome {ℓ} (A : Type ℓ) : Type ℓ where
  done : A → Outcome A
  fault : Outcome A

infixl 5 ◌>>=◌
abbrev pub ◌>>=◌ {ℓ κ} : {A : Type ℓ} {B : Type κ} → Outcome A → (A → Outcome B) → Outcome B
done a >>= f = f a
fault >>= f = fault

abbrev result_or {ℓ} : {A : Type ℓ} → A → Outcome A → A
result_or d (done a) = a
result_or d fault = d

pub done-injective {ℓ} : {A : Type ℓ} {a b : A} → done a ≡ done b → a ≡ b
done-injective {a} e = ap (result_or a) e

-- memcpy to `buf + off`, and memset with a list of equal bytes. The bytes before and behind stay.
unfoldable pub store : ℕ → Bytes → Bytes → Outcome Bytes
store zero [] buf = done buf
store zero (b ∷ bs) [] = fault
store zero (b ∷ bs) (x ∷ buf) = do rest ← store zero bs buf; done (b ∷ rest)
store (suc off) bs [] = fault
store (suc off) bs (x ∷ buf) = do rest ← store off bs buf; done (x ∷ rest)

-- buf[i]
unfoldable pub byte_at : ℕ → Bytes → Outcome ℕ
byte_at i [] = fault
byte_at zero (x ∷ buf) = done x
byte_at (suc i) (x ∷ buf) = byte_at i buf

-- buf.subspan(off, n)
unfoldable pub fetch : ℕ → ℕ → Bytes → Outcome Bytes
fetch off n buf = if leb (off + n) (length buf) then done (take n (drop off buf)) else fault

-- buf.subspan(off)
unfoldable pub fetch_from : ℕ → Bytes → Outcome Bytes
fetch_from off buf = if leb off (length buf) then done (drop off buf) else fault
