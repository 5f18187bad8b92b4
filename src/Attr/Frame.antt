-- ===== src/Attr/Frame.antt =====
-- The shape that the encoders share: the size test, the header, and the writes behind it.
use libstunxx.Common.{
  ℕ, zero, suc, ◌+◌, ◌-◌, ◌≤◌, ◌≡◌, sym, ap, ◌∙◌, Bool, true, false, inl, inr, [], ◌∷◌, ◌++◌, arith,
  ltb, if◌then◌else◌, length, drop, drop-drop, length-append, length-drop, length-replicate, IsU16,
  pad4, Bool-cases, ltb→lt, ltb→le, le→leb, lt→leb, lt→ltb, append_assoc, append-nil, ap₂,
}
use libstunxx.Memory.{Bytes, Outcome, done, ◌>>=◌, store}
use libstunxx.Memory.Laws.{store-behind, store-past, bind_done}
use libstunxx.Stun.Wire.{write_header, be16, tlv, zeros, put_tlv, write_header_lem, header_store}

-- `return true` with the span as it is then.
abbrev pub return_true : Bytes → Outcome (Bool × Bytes)
return_true buf = done (true, buf)

-- An encoder tests the size of the span first. What it does on a span of that size decides the rest.
pub guarded :
    (type : ℕ) (value buf : Bytes) (body : Outcome (Bool × Bytes))
    → (4 + pad4 (length value) ≤ length buf
        → body ≡ done (true, tlv type value ++ drop (4 + pad4 (length value)) buf))
    → (if ltb (length buf) (4 + pad4 (length value)) then done (false, buf) else body)
      ≡ put_tlv type value buf
guarded type value buf body ok = elim (Bool-cases (ltb (length buf) (4 + pad4 (length value)))) [
  | inl short ↦ rw (short, lt→leb _ _ (ltb→lt (length buf) _ short))
  | inr fits ↦ rw (fits, le→leb _ _ (ltb→le (length buf) _ fits)) (ok (ltb→le (length buf) _ fits))
]

-- The header, and one write behind it.
pub header_body :
    (type len : ℕ) (body buf : Bytes)
    → IsU16 type
    → IsU16 len
    → 4 + length body ≤ length buf
    → (do b1 ← write_header type len buf; b2 ← store 4 body b1; return_true b2)
      ≡ done (true, ((be16 type ++ be16 len) ++ body) ++ drop (4 + length body) buf)
header_body type len body buf ht hl fits = rw (write_header_lem type len buf ht hl (omega arith)) (
    rw
      (store-behind 4 (be16 type ++ be16 len) body (drop 4 buf) (omega arith)
        (rw length-drop (omega arith)))
      (ap (λ t. done (true, ((be16 type ++ be16 len) ++ body) ++ t))
        (drop-drop (length body) 4 buf)))

-- A value that is copied over the front of zeros.
pub store-zeros :
    (value rest : Bytes) (n : ℕ)
    → length value ≤ n
    → store 0 value (zeros n ++ rest) ≡ done (value ++ zeros (n - length value) ++ rest)
unfolding store
store-zeros [] rest n h = ap (λ k. done (zeros k ++ rest)) {y = n - 0} (omega arith)
store-zeros (v ∷ value) rest zero h = absurd (omega arith)
store-zeros (v ∷ value) rest (suc n) h =
    rw (store-zeros value rest n (omega arith))
      (ap (λ k. done (v ∷ value ++ zeros k ++ rest)) {y = suc n - suc (length value)} (omega arith))

-- An attribute whose value is `n` bytes as they are, with no padding.
pub guarded_raw :
    (type n : ℕ) (value buf : Bytes)
    → IsU16 type
    → IsU16 n
    → length value ≡ n
    → pad4 n ≡ n
    → (if ltb (length buf) (4 + n)
        then done (false, buf)
        else (do b1 ← write_header type n buf; b2 ← store 4 value b1; return_true b2))
      ≡ put_tlv type value buf
guarded_raw type n value buf ht hn e p = rw (← e) (
    rw size (
      guarded type value buf _ λ fits.
        header_body type (length value) value buf ht (omega arith) (omega arith)
        ∙ ap (λ t. done (true, t)) same))
  where
    size : 4 + length value ≡ 4 + pad4 (length value)
    size = omega arith

    no_padding : pad4 (length value) - length value ≡ 0
    no_padding = omega arith

    same :
        ((be16 type ++ be16 (length value)) ++ value) ++ drop (4 + length value) buf
        ≡ tlv type value ++ drop (4 + pad4 (length value)) buf
    same = rw no_padding (
        ap₂ ◌++◌ (sym (append-nil ((be16 type ++ be16 (length value)) ++ value)))
          (ap (λ k. drop k buf) size))

-- The header, zeros up to the padded length, and a value over them, as the bytes come out.
pub header_zeros :
    (type len padded : ℕ) (buf : Bytes)
    → IsU16 type
    → IsU16 len
    → 4 + padded ≤ length buf
    → (write_header type len buf >>= store 4 (zeros padded))
      ≡ done ((be16 type ++ be16 len) ++ (zeros padded ++ drop (4 + padded) buf))
header_zeros type len padded buf ht hl fits =
    header_store type len (zeros padded) buf ht hl (rw length-replicate fits)
    ∙ rw length-replicate
        (ap done (append_assoc (be16 type ++ be16 len) (zeros padded) (drop (4 + padded) buf)))

pub length-header_zeros :
    (type len padded : ℕ) (buf : Bytes)
    → 4 + padded ≤ length buf
    → length ((be16 type ++ be16 len) ++ (zeros padded ++ drop (4 + padded) buf)) ≡ length buf
length-header_zeros type len padded buf fits = omega (
  arith,
  length-append {0} (zeros padded) (drop (4 + padded) buf),
  length-replicate {0} {A = ℕ} padded 0,
  length-drop {0} (4 + padded) buf,
)

pub zeroed_value :
    (type : ℕ) (value buf : Bytes)
    → IsU16 type
    → IsU16 (length value)
    → 4 + pad4 (length value) ≤ length buf
    → (do
      b1 ← write_header type (length value) buf
      b2 ← store 4 (zeros (pad4 (length value))) b1
      b3 ← store 4 value b2
      return_true b3)
      ≡ done (true, tlv type value ++ drop (4 + pad4 (length value)) buf)
zeroed_value type value buf ht hv fits =
    bind_done (write_header type (length value) buf) (store 4 (zeros (pad4 (length value))))
      (λ b2. do b3 ← store 4 value b2; return_true b3)
      (header_zeros type (length value) (pad4 (length value)) buf ht hv fits)
    ∙ rw (
        store-past (be16 type ++ be16 (length value)) value _ _
          (store-zeros value (drop (4 + pad4 (length value)) buf) (pad4 (length value))
            (omega arith))
          4 (omega arith))

-- The padding that is written only where there is any.
pub store-padding :
    (off n : ℕ) (before buf : Bytes)
    → off ≡ length before
    → n ≤ length buf
    → (if ltb 0 n then store off (zeros n) (before ++ buf) else done (before ++ buf))
      ≡ done ((before ++ zeros n) ++ drop n buf)
store-padding off zero before buf e h = ap (λ t. done (t ++ buf)) (sym (append-nil before))
store-padding off (suc n) before buf e h = rw (lt→ltb 0 (suc n) (omega arith)) (
    store-behind off before (zeros (suc n)) buf e (rw length-replicate h)
    ∙ ap (λ k. done ((before ++ zeros (suc n)) ++ drop k buf)) {x = length (zeros (suc n))}
        (length-replicate (suc n) 0))
