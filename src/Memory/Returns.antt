-- ===== src/Memory/Returns.antt =====
-- Code that reads nothing out of range: how its parts are put together.
use libstunxx.Common.{
  ℕ, zero, suc, ◌+◌, ◌≤◌, ◌<◌, ◌≡◌, refl, ap, Bool, true, false, [], ◌∷◌, arith, ◌∙◌, length,
  if◌then◌else◌, length-take, length-drop, take, drop,
}
use libstunxx.Memory.Defs.{Bytes, Outcome, done, ◌>>=◌, byte_at, fetch}
use libstunxx.Memory.Laws.{fetch-inside}

-- The outcome is a result, whatever it is.
pub record Returns {ℓ} {A : Type ℓ} (o : Outcome A) : Type ℓ where
  pub result : A
  pub returned : o ≡ done result

pub done-Returns {ℓ} : {A : Type ℓ} (r : A) → Returns (done r)
done-Returns r = record { result = r; returned = refl }

pub if-Returns {ℓ} :
    {A : Type ℓ} (b : Bool) (x y : Outcome A)
    → (b ≡ true → Returns x)
    → (b ≡ false → Returns y)
    → Returns (if b then x else y)
if-Returns true x y first second = first refl
if-Returns false x y first second = second refl

pub bind-Returns {ℓ κ} :
    {A : Type ℓ} {B : Type κ} {o : Outcome A} {f : A → Outcome B}
    → Returns o
    → ((r : A) → Returns (f r))
    → Returns (o >>= f)
bind-Returns {f} k next = record {
  result = (next k.result).result;
  returned = ap (λ o. o >>= f) k.returned ∙ (next k.result).returned;
}

pub byte_at-Returns : (i : ℕ) (buf : Bytes) → i < length buf → Returns (byte_at i buf)
unfolding byte_at
byte_at-Returns i [] h = absurd (omega arith)
byte_at-Returns zero (x ∷ buf) h = done-Returns x
byte_at-Returns (suc i) (x ∷ buf) h = byte_at-Returns i buf (omega arith)

-- A fetch, and what is done with the bytes, of which there are as many as were asked for.
pub fetch-Returns {ℓ} :
    {A : Type ℓ} (off n : ℕ) (buf : Bytes) {f : Bytes → Outcome A}
    → off + n ≤ length buf
    → ((s : Bytes) → length s ≡ n → Returns (f s))
    → Returns (fetch off n buf >>= f)
fetch-Returns off n buf {f} h next = record {
  result = last.result;
  returned = ap (λ o. o >>= f) (fetch-inside off n buf h) ∙ last.returned;
}
  where
    last : Returns (f (take n (drop off buf)))
    last =
        next (take n (drop off buf))
          (length-take n (drop off buf) (omega (arith, h, length-drop {0} off buf)))
