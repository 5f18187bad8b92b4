-- ===== src/Attr/Strings.antt =====
-- include/stunxx/attributes/StringAttrT.hpp: USERNAME, REALM, NONCE, SOFTWARE, ALTERNATE-DOMAIN. The
-- template's parameters are the arguments `type` and `max_bytes`; a string is its bytes.
use libstunxx.Common.{
  ℕ, ◌+◌, ◌≤◌, ◌<◌, ◌≡◌, ◌↔◌, ◌∙◌, Bool, false, Option, none, some, ◌∷◌, ◌++◌, arith, ltb,
  if◌then◌else◌, length, drop, u16, IsU16, pad4, le→ltb,
}
use libstunxx.Memory.{Bytes, Outcome, done, fault, ◌>>=◌, store}
use libstunxx.Memory.Laws.{store-beyond, bind_done}
use libstunxx.Stun.Wire.{attr_header_size, write_header, be16, zeros, put_tlv}
use libstunxx.Attr.Concept.{StunAttribute}
use libstunxx.Attr.Frame.{guarded, return_true, header_zeros, zeroed_value, length-header_zeros}

pub record StringAttr : Type 0 where
  pub value : Bytes

unfoldable pub set_string : Bytes → StringAttr → StringAttr
set_string x a = record { value = x }

abbrev pub string_length : StringAttr → ℕ
string_length a = u16 (length a.value)

abbrev pub string_padded_length : StringAttr → ℕ
string_padded_length a = pad4 (string_length a)

unfoldable pub decode_string : ℕ → Bytes → Outcome (Option StringAttr)
decode_string max_bytes buf =
    if ltb max_bytes (length buf) then done none else done (some (record { value = buf }))

unfoldable pub encode_string : ℕ → StringAttr → Bytes → Outcome (Bool × Bytes)
encode_string type a buf =
    if ltb (length buf) (string_padded_length a + attr_header_size) then done (false, buf) else (do
      b1 ← write_header type (string_length a) buf
      b2 ← store attr_header_size (zeros (string_padded_length a)) b1
      b3 ← store attr_header_size a.value b2
      return_true b3)

abbrev pub string_attribute : ℕ → StunAttribute StringAttr
string_attribute type = record {
  type = type;
  length_of = string_length;
  encode = encode_string type;
}

encode_string_lem :
    (type : ℕ) (a : StringAttr) (buf : Bytes)
    → IsU16 type
    → IsU16 (length a.value)
    → encode_string type a buf ≡ put_tlv type a.value buf
unfolding encode_string
encode_string_lem type a buf ht hv =
    rw (same, size) (guarded type a.value buf _ λ fits. zeroed_value type a.value buf ht hv fits)
  where
    same : u16 (length a.value) ≡ length a.value
    same = omega arith

    size : pad4 (length a.value) + 4 ≡ 4 + pad4 (length a.value)
    size = omega arith

decode_string_iff :
    (max_bytes : ℕ) (value : Bytes) (a : StringAttr)
    → (decode_string max_bytes value ≡ done (some a))
      ↔ ((length value ≤ max_bytes) × (a ≡ record { value = value }))
unfolding decode_string
decode_string_iff max_bytes value a = (λ e. ground arith, λ (h, e). ground arith)

-- On a span of any size, for a 16-bit type, a string of fewer than 65536 bytes is written with its length, its bytes
-- and zeros up to a multiple of four, or false is answered and nothing written if that does not fit;
-- and a value decodes to its own bytes exactly when it is within the limit of the attribute.
pub string_round_trip :
    (type max_bytes : ℕ) (a : StringAttr) (buf value : Bytes)
    → IsU16 type
    → IsU16 (length a.value)
    → (encode_string type a buf ≡ put_tlv type a.value buf)
      × ((decode_string max_bytes value ≡ done (some a))
          ↔ ((length value ≤ max_bytes) × (a ≡ record { value = value })))
string_round_trip type max_bytes a buf value ht hv =
    (encode_string_lem type a buf ht hv, decode_string_iff max_bytes value a)

-- A string of 65536 bytes or more, for a 16-bit type and in the span that its reported length asks for, is copied past the
-- end of the span: the size test uses the length cut to 16 bits, the copy uses the whole length.
pub encode_string_overruns :
    (type x : ℕ) (xs buf : Bytes)
    → IsU16 type
    → 65536 ≤ length (x ∷ xs)
    → length buf ≡ attr_header_size + string_padded_length (record { value = x ∷ xs })
    → encode_string type (record { value = x ∷ xs }) buf ≡ fault
unfolding encode_string
encode_string_overruns type x xs buf ht long e =
    rw (le→ltb (length buf) (padded + 4) (omega arith)) (
      bind_done (write_header type (u16 (length (x ∷ xs))) buf) (store 4 (zeros padded))
        (λ b2. do b3 ← store 4 (x ∷ xs) b2; return_true b3)
        (header_zeros type (u16 (length (x ∷ xs))) padded buf ht (omega arith) (omega arith))
      ∙ rw (store-beyond 4 x xs _ shorter))
  where
    padded : ℕ
    padded = pad4 (u16 (length (x ∷ xs)))

    shorter :
        length
          ((be16 type ++ be16 (u16 (length (x ∷ xs)))) ++ (zeros padded ++ drop (4 + padded) buf))
        < 4 + length (x ∷ xs)
    shorter =
        omega (arith, length-header_zeros type (u16 (length (x ∷ xs))) padded buf (omega arith))
