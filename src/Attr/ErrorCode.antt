-- ===== src/Attr/ErrorCode.antt =====
-- include/stunxx/attributes/ErrorCodeAttr.hpp: ERROR-CODE. A reason phrase is its bytes.
use libstunxx.Common.{
  ℕ, ◌+◌, ◌-◌, ◌*◌, ◌/◌, ◌%◌, ◌≤◌, ◌<◌, ◌≡◌, refl, Bool, false, not, ◌||◌, Option, none, some, [],
  ◌∷◌, arith, ltb, ◌==◌, if◌then◌else◌, length, bit_and, u8, u16, IsU16, pad4, le→ltb,
}
use libstunxx.Common.Bits.{bit_and_mask}
use libstunxx.Memory.{Bytes, Outcome, done, ◌>>=◌, store, fetch, byte_at}
use libstunxx.Stun.Wire.{attr_header_size, write_header, zeros, put_tlv}
use libstunxx.Attr.Concept.{StunAttribute}
use libstunxx.Attr.Phrase.{phrase, zeroed_phrase}
use libstunxx.Attr.Frame.{return_true}

abbrev pub error_code_type : ℕ
error_code_type = 0x0009

pub record ErrorCodeAttr : Type 0 where
  pub code : ℕ
  pub reason : Bytes

abbrev pub error_code_length : ErrorCodeAttr → ℕ
error_code_length a = u16 (4 + length a.reason)

abbrev pub error_code_padded_length : ErrorCodeAttr → ℕ
error_code_padded_length a = pad4 (error_code_length a)

unfoldable pub decode_error_code : Bytes → Outcome (Option ErrorCodeAttr)
decode_error_code buf = if ltb (length buf) 4 then done none else (do
  b2 ← byte_at 2 buf
  num ← byte_at 3 buf
  let cls = bit_and b2 0x07
  if ltb cls 3 || ltb 6 cls then done none else if ltb 99 num then done none else (do
    reason ← (if ltb 4 (length buf) then fetch 4 (length buf - 4) buf else done [])
    done (some (record { code = u16 (cls * 100 + num); reason = reason }))))

unfoldable pub encode_error_code : ErrorCodeAttr → Bytes → Outcome (Bool × Bytes)
encode_error_code a buf =
    let padded_len = error_code_padded_length a in
    if ltb (length buf) (attr_header_size + padded_len) then done (false, buf) else (do
      b1 ← write_header error_code_type (error_code_length a) buf
      b2 ← store attr_header_size (zeros padded_len) b1
      b3 ← store (attr_header_size + 2) (bit_and (u8 (a.code / 100)) 0x07 ∷ []) b2
      b4 ← store (attr_header_size + 3) (u8 (a.code % 100) ∷ []) b3
      b5 ←
          (if not (length a.reason == 0) then store (attr_header_size + 4) a.reason b4 else done b4)
      return_true b5)

abbrev pub error_code_attribute : StunAttribute ErrorCodeAttr
error_code_attribute = record {
  type = error_code_type;
  length_of = error_code_length;
  encode = encode_error_code;
}

-- The value on the wire: two zero bytes, the hundreds, the rest, the phrase.
abbrev pub error_value : ErrorCodeAttr → Bytes
error_value a = 0 ∷ 0 ∷ (a.code / 100) ∷ (a.code % 100) ∷ a.reason

module _ (a : ErrorCodeAttr) (low : 300 ≤ a.code) (high : a.code < 700) where
  class_bits_kept : bit_and (u8 (a.code / 100)) 0x07 ≡ a.code / 100
  class_bits_kept = omega (arith, low, high, bit_and_mask 3 (u8 (a.code / 100)))

  class_read : bit_and (a.code / 100) 0x07 ≡ a.code / 100
  class_read = omega (arith, low, high, bit_and_mask 3 (a.code / 100))

  decode_error_code_lem : decode_error_code (error_value a) ≡ done (some a)
  unfolding decode_error_code byte_at
  decode_error_code_lem = rw (
    le→ltb (length (error_value a)) 4 (omega arith),
    class_read,
    le→ltb (a.code / 100) 3 (omega (arith, low)),
    le→ltb 6 (a.code / 100) (omega (arith, high)),
    le→ltb 99 (a.code % 100) (omega arith),
    phrase (0 ∷ 0 ∷ (a.code / 100) ∷ (a.code % 100) ∷ []) a.reason refl,
    whole,
  )
    where
      whole : u16 (a.code / 100 * 100 + a.code % 100) ≡ a.code
      whole = omega (arith, high)

  encode_error_code_lem :
      (buf : Bytes)
      → IsU16 (4 + length a.reason)
      → encode_error_code a buf ≡ put_tlv error_code_type (error_value a) buf
  unfolding encode_error_code store
  encode_error_code_lem buf h =
      rw (class_bits_kept, number_kept)
        (zeroed_phrase error_code_type 0 (a.code / 100) (a.code % 100) a.reason buf _ (omega arith)
          h (λ h0 h1 h2 h3 rest. refl))
    where
      number_kept : u8 (a.code % 100) ≡ a.code % 100
      number_kept = omega arith

-- For an error code from 300 to 699 and a phrase that keeps the value shorter than 65536 bytes, on a
-- span of any size: the attribute is written as two zero bytes, the hundreds of the code, the rest
-- of it, the phrase and zeros up to a multiple of four, or false is answered and nothing written if
-- that does not fit; and the value decodes to the code and the phrase.
pub error_code_round_trip :
    (a : ErrorCodeAttr) (buf : Bytes)
    → 300 ≤ a.code
    → a.code < 700
    → IsU16 (4 + length a.reason)
    → (encode_error_code a buf ≡ put_tlv error_code_type (error_value a) buf)
      × (decode_error_code (error_value a) ≡ done (some a))
error_code_round_trip a buf low high h =
    (encode_error_code_lem a low high buf h, decode_error_code_lem a low high)
