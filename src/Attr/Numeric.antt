-- ===== src/Attr/Numeric.antt =====
-- include/stunxx/attributes/NumericAttrT.hpp: PRIORITY, LIFETIME, CONNECTION-ID. The template's
-- parameter is the first argument.
use libstunxx.Common.{
  ℕ, ◌+◌, ◌≡◌, ap, Bool, true, false, Option, none, some, [], ◌++◌, arith, ltb, if◌then◌else◌,
  length, drop, drop-drop, length-drop, IsU16, IsU32,
}
use libstunxx.Memory.{Bytes, Outcome, done, ◌>>=◌, fetch}
use libstunxx.Stun.Wire.{
  attr_header_size, read_be32, read_be32-be32, write_be32, write_header, be16, be32, put_tlv,
  write_header_lem, write_be32-behind,
}
use libstunxx.Attr.Concept.{StunAttribute}
use libstunxx.Attr.Frame.{guarded, return_true}

pub record NumericAttr : Type 0 where
  pub value : ℕ

unfoldable pub set_numeric : ℕ → NumericAttr → NumericAttr
set_numeric x a = record { value = x }

abbrev pub numeric_length : NumericAttr → ℕ
numeric_length a = 4

unfoldable pub decode_numeric : Bytes → Outcome (Option NumericAttr)
decode_numeric buf =
    if ltb (length buf) 4
    then done none
    else (do head ← fetch 0 4 buf; v ← read_be32 head; done (some (record { value = v })))

unfoldable pub encode_numeric : ℕ → NumericAttr → Bytes → Outcome (Bool × Bytes)
encode_numeric type a buf =
    if ltb (length buf) (numeric_length a + attr_header_size) then done (false, buf) else (do
      b1 ← write_header type (numeric_length a) buf
      b2 ← write_be32 attr_header_size a.value b1
      return_true b2)

abbrev pub numeric_attribute : ℕ → StunAttribute NumericAttr
numeric_attribute type = record {
  type = type;
  length_of = numeric_length;
  encode = encode_numeric type;
}

encode_numeric_lem :
    (type : ℕ) (a : NumericAttr) (buf : Bytes)
    → IsU16 type
    → IsU32 a.value
    → encode_numeric type a buf ≡ put_tlv type (be32 a.value) buf
unfolding encode_numeric
encode_numeric_lem type a buf ht hv = guarded type (be32 a.value) buf _ λ fits.
    rw (write_header_lem type 4 buf ht (omega arith) (omega arith)) (
      rw
        (write_be32-behind 4 a.value (be16 type ++ be16 4) (drop 4 buf) (omega arith) hv
          (rw length-drop (omega arith)))
        (ap (λ t. done (true, ((be16 type ++ be16 4) ++ be32 a.value) ++ t)) (drop-drop 4 4 buf)))

decode_numeric_lem :
    (v : ℕ) → IsU32 v → decode_numeric (be32 v) ≡ done (some (record { value = v }))
unfolding decode_numeric fetch
decode_numeric_lem v h = rw (read_be32-be32 v [] h)

-- On a span of any size, for a 16-bit type, a 32-bit number is written as an attribute of that type with the four bytes
-- of the number in network order, or nothing is written and the answer is false if the eight bytes
-- do not fit; and those four bytes decode to the number.
pub numeric_round_trip :
    (type : ℕ) (a : NumericAttr) (buf : Bytes)
    → IsU16 type
    → IsU32 a.value
    → (encode_numeric type a buf ≡ put_tlv type (be32 a.value) buf)
      × (decode_numeric (be32 a.value) ≡ done (some a))
numeric_round_trip type a buf ht hv =
    (encode_numeric_lem type a buf ht hv, decode_numeric_lem a.value hv)
