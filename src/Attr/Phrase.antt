-- ===== src/Attr/Phrase.antt =====
-- What the attributes with an error code and a reason phrase share: the phrase behind the first four
-- bytes of the value, read and written.
use libstunxx.Common.{
  ℕ, ◌+◌, ◌-◌, ◌/◌, ◌%◌, ◌^◌, ◌≤◌, ◌≡◌, refl, sym, ap, ◌∙◌, Bool, true, false, not, [], ◌∷◌, ◌++◌,
  arith, ltb, ◌==◌, if◌then◌else◌, length, drop, length-append, u16, IsU16, pad4, lt→ltb, le→ltb,
  suc, append-nil, if_true,
}
use libstunxx.Memory.{Bytes, Outcome, done, ◌>>=◌, store, fetch}
use libstunxx.Memory.Laws.{bind_done, store-past, fetch-behind}
use libstunxx.Stun.Wire.{write_header, be16, zeros, put_tlv}
use libstunxx.Attr.Frame.{guarded, return_true, header_zeros, store-zeros}

-- What the decoder takes for the phrase.
pub phrase :
    (front reason : Bytes)
    → length front ≡ 4
    → (if ltb 4 (length (front ++ reason))
        then fetch 4 (length (front ++ reason) - 4) (front ++ reason)
        else done [])
      ≡ done reason
phrase front [] e = rw (le→ltb 4 (length (front ++ [])) (rw append-nil (omega (arith, e))))
phrase front (x ∷ xs) e =
    rw (lt→ltb 4 (length (front ++ x ∷ xs)) (omega (arith, e, length-append {0} front (x ∷ xs)))) (
      ap (fetch 4 (length (front ++ x ∷ xs) - 4)) (ap (λ t. front ++ t) (sym (append-nil (x ∷ xs))))
      ∙ fetch-behind 4 (length (front ++ x ∷ xs) - 4) front (x ∷ xs) [] (sym e)
          (omega (arith, e, length-append {0} front (x ∷ xs))))

-- The copy of the phrase over zeros.
phrase_store :
    (front reason rest : Bytes) (n : ℕ)
    → length front ≡ 8
    → length reason ≤ n
    → (if not (length reason == 0)
        then store 8 reason (front ++ (zeros n ++ rest))
        else done (front ++ (zeros n ++ rest)))
      ≡ done (front ++ (reason ++ zeros (n - length reason) ++ rest))
phrase_store front [] rest n e h =
    ap (λ k. done (front ++ (zeros k ++ rest))) {y = n - 0} (omega arith)
phrase_store front (x ∷ xs) rest n e h =
    if_true {b = not (length (x ∷ xs) == 0)} _ _ (ground arith)
    ∙ store-past front (x ∷ xs) (zeros n ++ rest) _ (store-zeros (x ∷ xs) rest n h) 8 (sym e)

-- The encoder of such an attribute, for any length field: it zeroes the value and writes into it.
abbrev pub zeroed_run : ℕ → Bytes → (Bytes → Outcome (Bool × Bytes)) → ℕ → Outcome (Bool × Bytes)
zeroed_run type buf finish len =
    if ltb (length buf) (4 + pad4 len)
    then done (false, buf)
    else (do b1 ← write_header type len buf; b2 ← store 4 (zeros (pad4 len)) b1; finish b2)

pub zeroed_phrase :
    (type f c n : ℕ) (reason buf : Bytes) (finish : Bytes → Outcome (Bool × Bytes))
    → IsU16 type
    → IsU16 (4 + length reason)
    → ((h0 h1 h2 h3 : ℕ) (rest : Bytes)
        → finish (h0 ∷ h1 ∷ h2 ∷ h3 ∷ 0 ∷ 0 ∷ 0 ∷ 0 ∷ rest) ≡ (
            (if not (length reason == 0)
              then store 8 reason (h0 ∷ h1 ∷ h2 ∷ h3 ∷ f ∷ 0 ∷ c ∷ n ∷ rest)
              else done (h0 ∷ h1 ∷ h2 ∷ h3 ∷ f ∷ 0 ∷ c ∷ n ∷ rest))
            >>= return_true))
    → zeroed_run type buf finish (u16 (4 + length reason))
      ≡ put_tlv type (f ∷ 0 ∷ c ∷ n ∷ reason) buf
zeroed_phrase type f c n reason buf finish ht h finishes =
    ap (zeroed_run type buf finish) same
    ∙ guarded type value buf _ λ fits.
      bind_done (write_header type (length value) buf) (store 4 (zeros (pad4 (length value))))
        finish
        (header_zeros type (length value) (pad4 (length value)) buf ht (omega arith) fits
          ∙ ap (λ k. done (head ++ (zeros k ++ behind))) padded)
      ∙ finishes (type / 2 ^ 8) (type % 2 ^ 8) (length value / 2 ^ 8) (length value % 2 ^ 8)
          (zeros (pad4 (length reason)) ++ behind)
      ∙ rw
          (phrase_store (head ++ (f ∷ 0 ∷ c ∷ n ∷ [])) reason behind (pad4 (length reason)) refl
            (omega arith))
          (ap (λ k. done (true, (head ++ value) ++ zeros k ++ behind)) rest_same)
  where
    value : Bytes
    value = f ∷ 0 ∷ c ∷ n ∷ reason

    head : Bytes
    head = be16 type ++ be16 (length value)

    behind : Bytes
    behind = drop (4 + pad4 (length value)) buf

    same : u16 (4 + length reason) ≡ length value
    same = omega arith

    padded : pad4 (length value) ≡ suc (suc (suc (suc (pad4 (length reason)))))
    padded = omega arith

    rest_same : pad4 (length reason) - length reason ≡ pad4 (length value) - length value
    rest_same = omega arith
