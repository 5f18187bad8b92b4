-- ===== src/Attr/AddressError.antt =====
-- include/stunxx/attributes/AddressErrorCodeAttr.hpp: ADDRESS-ERROR-CODE. A phrase is its bytes.
use libstunxx.Common.{
  ℕ, ◌+◌, ◌-◌, ◌*◌, ◌/◌, ◌%◌, ◌<◌, ◌≡◌, ◌⊎◌, refl, Bool, false, not, ◌||◌, ◌&&◌, Option, none, some,
  [], ◌∷◌, arith, ltb, ◌==◌, if◌then◌else◌, length, bit_and, u8, u16, IsU16, pad4, le→ltb, ◌<<<◌,
  ◌>>>◌,
}
use libstunxx.Common.Bits.{bit_and_mask, bit_and_middle}
use libstunxx.Memory.{Bytes, Outcome, done, ◌>>=◌, store, fetch, byte_at}
use libstunxx.Stun.Types.{ipv4_family, ipv6_family}
use libstunxx.Stun.Wire.{attr_header_size, write_header, zeros, put_tlv}
use libstunxx.Attr.Concept.{StunAttribute}
use libstunxx.Attr.Phrase.{phrase, zeroed_phrase}
use libstunxx.Attr.Frame.{return_true}

abbrev pub address_error_type : ℕ
address_error_type = 0x8001

pub record AddressErrorCodeAttr : Type 0 where
  pub family : ℕ
  pub code : ℕ
  pub reason : Bytes

unfoldable pub set_error_family : ℕ → AddressErrorCodeAttr → AddressErrorCodeAttr
set_error_family x a = record a { family = x }

unfoldable pub set_error_code : ℕ → AddressErrorCodeAttr → AddressErrorCodeAttr
set_error_code x a = record a { code = x }

abbrev pub address_error_length : AddressErrorCodeAttr → ℕ
address_error_length a = u16 (4 + length a.reason)

abbrev pub address_error_padded_length : AddressErrorCodeAttr → ℕ
address_error_padded_length a = pad4 (address_error_length a)

unfoldable pub decode_address_error : Bytes → Outcome (Option AddressErrorCodeAttr)
decode_address_error buf = if ltb (length buf) 4 then done none else (do
  fam ← byte_at 0 buf
  b2 ← byte_at 2 buf
  num ← byte_at 3 buf
  let cls = bit_and b2 0xe0 >>> 5
  let code = u16 (cls * 100 + num)
  if not (fam == ipv4_family) && not (fam == ipv6_family)
      then done none
      else if ltb cls 3 || ltb 6 cls
      then done none
      else if ltb 99 num
      then done none
      else if not (code == 440) && not (code == 508)
      then done none
      else (do
        reason ← (if ltb 4 (length buf) then fetch 4 (length buf - 4) buf else done [])
        done (some (record { family = fam; code = code; reason = reason }))))

unfoldable pub encode_address_error : AddressErrorCodeAttr → Bytes → Outcome (Bool × Bytes)
encode_address_error a buf =
    let padded_len = address_error_padded_length a in
    if ltb (length buf) (attr_header_size + padded_len) then done (false, buf) else (do
      b1 ← write_header address_error_type (address_error_length a) buf
      b2 ← store attr_header_size (zeros padded_len) b1
      b3 ← store attr_header_size (a.family ∷ []) b2
      b4 ← store (attr_header_size + 2) (u8 (bit_and (u8 (a.code / 100)) 0x07 <<< 5) ∷ []) b3
      b5 ← store (attr_header_size + 3) (u8 (a.code % 100) ∷ []) b4
      b6 ←
          (if not (length a.reason == 0) then store (attr_header_size + 4) a.reason b5 else done b5)
      return_true b6)

abbrev pub address_error_attribute : StunAttribute AddressErrorCodeAttr
address_error_attribute = record {
  type = address_error_type;
  length_of = address_error_length;
  encode = encode_address_error;
}

-- The value on the wire: the family, a zero byte, the class in the top three bits, the number, the
-- phrase.
abbrev pub address_error_value : AddressErrorCodeAttr → Bytes
address_error_value a = a.family ∷ 0 ∷ (a.code / 100 * 32) ∷ (a.code % 100) ∷ a.reason

module _ (a : AddressErrorCodeAttr) where
  encode_address_error_lem :
      (buf : Bytes)
      → a.code < 800
      → IsU16 (4 + length a.reason)
      → encode_address_error a buf ≡ put_tlv address_error_type (address_error_value a) buf
  unfolding encode_address_error store
  encode_address_error_lem buf high h =
      rw (class_kept, number_kept)
        (zeroed_phrase address_error_type a.family (a.code / 100 * 32) (a.code % 100) a.reason buf _
          (omega arith) h (λ h0 h1 h2 h3 rest. refl))
    where
      class_kept : u8 (bit_and (u8 (a.code / 100)) 0x07 <<< 5) ≡ a.code / 100 * 32
      class_kept = omega (arith, high, bit_and_mask 3 (u8 (a.code / 100)))

      number_kept : u8 (a.code % 100) ≡ a.code % 100
      number_kept = omega arith

  decode_address_error_lem :
      (a.family ≡ ipv4_family) ⊎ (a.family ≡ ipv6_family)
      → (a.code ≡ 440) ⊎ (a.code ≡ 508)
      → decode_address_error (address_error_value a) ≡ done (some a)
  unfolding decode_address_error byte_at
  decode_address_error_lem fam code = rw (
    le→ltb (length (address_error_value a)) 4 (omega arith),
    class_read,
    known_family,
    le→ltb (a.code / 100) 3 (omega (arith, code)),
    le→ltb 6 (a.code / 100) (omega (arith, code)),
    le→ltb 99 (a.code % 100) (omega arith),
    whole,
    known_code,
    phrase (a.family ∷ 0 ∷ (a.code / 100 * 32) ∷ (a.code % 100) ∷ []) a.reason refl,
  )
    where
      class_read : bit_and (a.code / 100 * 32) 0xe0 >>> 5 ≡ a.code / 100
      class_read = omega (arith, code, bit_and_middle 5 3 (a.code / 100 * 32))

      whole : u16 (a.code / 100 * 100 + a.code % 100) ≡ a.code
      whole = omega (arith, code)

      known_family : (not (a.family == ipv4_family) && not (a.family == ipv6_family)) ≡ false
      known_family = ground (arith, fam)

      known_code : (not (a.code == 440) && not (a.code == 508)) ≡ false
      known_code = ground (arith, code)

-- For the family of IPv4 or IPv6, one of the two error codes that the attribute permits, 440 and
-- 508, and a phrase that keeps the value shorter than 65536 bytes, on a span of any size: the
-- attribute is written as the family, a zero byte, the hundreds of the code in the top three bits of
-- a byte, the rest of the code, the phrase and zeros up to a multiple of four, or false is answered
-- and nothing written if that does not fit; and the value decodes to what was written.
pub address_error_round_trip :
    (a : AddressErrorCodeAttr) (buf : Bytes)
    → (a.family ≡ ipv4_family) ⊎ (a.family ≡ ipv6_family)
    → (a.code ≡ 440) ⊎ (a.code ≡ 508)
    → IsU16 (4 + length a.reason)
    → (encode_address_error a buf ≡ put_tlv address_error_type (address_error_value a) buf)
      × (decode_address_error (address_error_value a) ≡ done (some a))
address_error_round_trip a buf fam code h =
    (encode_address_error_lem a buf (omega (arith, code)) h, decode_address_error_lem a fam code)
