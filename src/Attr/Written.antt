-- ===== src/Attr/Written.antt =====
-- Encoders that write their value in several steps: what the steps leave behind the header.
use libstunxx.Common.{
  ℕ, ◌+◌, ◌-◌, ◌≤◌, ◌≡◌, sym, ap, ◌∙◌, Bool, true, false, ◌++◌, arith, ltb, if◌then◌else◌, length,
  drop, drop-drop, length-append, length-drop, IsU16, pad4, append-nil, ap₂, u16,
}
use libstunxx.Memory.{Bytes, Outcome, done, ◌>>=◌, store}
use libstunxx.Memory.Laws.{bind_done}
use libstunxx.Stun.Wire.{write_header, be16, tlv, zeros, put_tlv, write_header_lem, header_store}
use libstunxx.Attr.Frame.{return_true, guarded, store-padding}

-- The header, a value, and padding behind it where there is any.
pub copied_value :
    (type : ℕ) (value buf : Bytes)
    → IsU16 type
    → IsU16 (length value)
    → 4 + pad4 (length value) ≤ length buf
    → (do
      b1 ← write_header type (length value) buf
      b2 ← store 4 value b1
      b3 ←
          (if ltb 0 (pad4 (length value) - length value)
            then store (4 + length value) (zeros (pad4 (length value) - length value)) b2
            else done b2)
      return_true b3)
      ≡ done (true, tlv type value ++ drop (4 + pad4 (length value)) buf)
copied_value type value buf ht hv fits =
    bind_done (write_header type (length value) buf) (store 4 value)
      (λ b2. do
        b3 ← (if ltb 0 pad then store (4 + length value) (zeros pad) b2 else done b2)
        return_true b3)
      (header_store type (length value) value buf ht hv (omega arith))
    ∙ rw
        (store-padding (4 + length value) pad ((be16 type ++ be16 (length value)) ++ value)
          (drop (4 + length value) buf) (rw length-append (omega arith))
          (rw length-drop (omega arith)))
        (ap (λ t. done (true, tlv type value ++ t))
          (drop-drop pad (4 + length value) buf
            ∙ ap (λ k. drop k buf) {y = 4 + pad4 (length value)} (omega arith)))
  where
    pad : ℕ
    pad = pad4 (length value) - length value

-- The header, a value that `write` puts behind it, and padding where there is any; `len` is how the
-- encoder computes the length.
pub padded_value :
    (type len : ℕ) (value buf : Bytes) (write : Bytes → Outcome Bytes)
    → IsU16 type
    → IsU16 (length value)
    → len ≡ length value
    → (4 + pad4 (length value) ≤ length buf
        → write ((be16 type ++ be16 (length value)) ++ drop 4 buf)
          ≡ done
              (((be16 type ++ be16 (length value)) ++ value) ++ drop (length value) (drop 4 buf)))
    → (if ltb (length buf) (4 + pad4 len) then done (false, buf) else (do
      b1 ← write_header type (u16 len) buf
      b2 ← write b1
      b3 ← (if ltb 0 (pad4 len - len) then store (4 + len) (zeros (pad4 len - len)) b2 else done b2)
      return_true b3))
      ≡ put_tlv type value buf
padded_value type len value buf write ht hv e writes =
    ap run e
    ∙ rw narrow (
        guarded type value buf _ λ fits.
          rw
            (
              write_header_lem type (length value) buf ht hv (omega arith),
              writes fits,
              store-padding (4 + length value) pad (head ++ value)
                  (drop (length value) (drop 4 buf)) (rw length-append (omega arith))
                  (rw (length-drop, length-drop) (omega arith)),
            )
            (ap (λ t. done (true, tlv type value ++ t))
              (ap (drop pad) (drop-drop (length value) 4 buf)
                ∙ drop-drop pad (4 + length value) buf
                ∙ ap (λ k. drop k buf) {y = 4 + pad4 (length value)} (omega arith))))
  where
    head : Bytes
    head = be16 type ++ be16 (length value)

    pad : ℕ
    pad = pad4 (length value) - length value

    narrow : u16 (length value) ≡ length value
    narrow = omega arith

    run : ℕ → Outcome (Bool × Bytes)
    run l = if ltb (length buf) (4 + pad4 l) then done (false, buf) else (do
      b1 ← write_header type (u16 l) buf
      b2 ← write b1
      b3 ← (if ltb 0 (pad4 l - l) then store (4 + l) (zeros (pad4 l - l)) b2 else done b2)
      return_true b3)

-- The header and a value of whole words that `write` puts behind it.
pub unpadded_value :
    (type len : ℕ) (value buf : Bytes) (write : Bytes → Outcome Bytes)
    → IsU16 type
    → IsU16 (length value)
    → len ≡ length value
    → pad4 (length value) ≡ length value
    → (4 + length value ≤ length buf
        → write ((be16 type ++ be16 (length value)) ++ drop 4 buf)
          ≡ done
              (((be16 type ++ be16 (length value)) ++ value) ++ drop (length value) (drop 4 buf)))
    → (if ltb (length buf) (4 + len)
        then done (false, buf)
        else (do b1 ← write_header type (u16 len) buf; b2 ← write b1; return_true b2))
      ≡ put_tlv type value buf
unpadded_value type len value buf write ht hv e p writes =
    ap₂ run (e ∙ sym p) (ap u16 e ∙ narrow)
    ∙ guarded type value buf _ λ fits.
      rw
        (
          write_header_lem type (length value) buf ht hv (omega arith),
          writes (omega (arith, p, fits)),
        )
        (ap (λ t. done (true, t))
          (ap₂ ◌++◌
            (sym (append-nil (head ++ value))
              ∙ ap (λ k. (head ++ value) ++ zeros k) {x = 0}
                  {y = pad4 (length value) - length value} (omega (arith, p)))
            (drop-drop (length value) 4 buf
              ∙ ap (λ k. drop k buf) {y = 4 + pad4 (length value)} (omega (arith, p)))))
  where
    head : Bytes
    head = be16 type ++ be16 (length value)

    narrow : u16 (length value) ≡ length value
    narrow = omega arith

    run : ℕ → ℕ → Outcome (Bool × Bytes)
    run size l =
        if ltb (length buf) (4 + size)
        then done (false, buf)
        else (do b1 ← write_header type l buf; b2 ← write b1; return_true b2)
