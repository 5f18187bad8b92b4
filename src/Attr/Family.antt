-- ===== src/Attr/Family.antt =====
-- include/stunxx/attributes/AddressFamilyAttrT.hpp: REQUESTED- and ADDITIONAL-ADDRESS-FAMILY.
use libstunxx.Common.{
  ℕ, ◌+◌, ◌≡◌, ◌↔◌, refl, Bool, false, not, ◌||◌, Option, none, some, [], ◌∷◌, arith, ltb, ◌==◌,
  if◌then◌else◌, length, IsU16,
}
use libstunxx.Memory.{Bytes, Outcome, done, done-injective, ◌>>=◌, store, byte_at}
use libstunxx.Stun.Wire.{attr_header_size, write_header, put_tlv}
use libstunxx.Attr.Concept.{StunAttribute}
use libstunxx.Attr.Frame.{guarded_raw, return_true}

-- The family is the byte that was cast to AddressFamily.
pub record AddressFamilyAttr : Type 0 where
  pub family : ℕ

unfoldable pub set_address_family : ℕ → AddressFamilyAttr → AddressFamilyAttr
set_address_family x a = record { family = x }

unfoldable pub decode_address_family : Bytes → Outcome (Option AddressFamilyAttr)
decode_address_family buf = if not (length buf == 4) then done none else (do
  b1 ← byte_at 1 buf
  b2 ← byte_at 2 buf
  b3 ← byte_at 3 buf
  if not (b1 == 0) || not (b2 == 0) || not (b3 == 0)
      then done none
      else (do b0 ← byte_at 0 buf; done (some (record { family = b0 }))))

unfoldable pub encode_address_family : ℕ → AddressFamilyAttr → Bytes → Outcome (Bool × Bytes)
encode_address_family type a buf =
    if ltb (length buf) (attr_header_size + 4) then done (false, buf) else (do
      b1 ← write_header type 4 buf
      b2 ← store attr_header_size (a.family ∷ 0 ∷ 0 ∷ 0 ∷ []) b1
      return_true b2)

abbrev pub address_family_attribute : ℕ → StunAttribute AddressFamilyAttr
address_family_attribute type = record {
  type = type;
  length_of = λ a. 4;
  encode = encode_address_family type;
}

encode_address_family_lem :
    (type : ℕ) (a : AddressFamilyAttr) (buf : Bytes)
    → IsU16 type
    → encode_address_family type a buf ≡ put_tlv type (a.family ∷ 0 ∷ 0 ∷ 0 ∷ []) buf
unfolding encode_address_family
encode_address_family_lem type a buf ht =
    guarded_raw type 4 (a.family ∷ 0 ∷ 0 ∷ 0 ∷ []) buf ht (omega arith) refl refl

family_shape :
    (a : AddressFamilyAttr) (value : Bytes)
    → decode_address_family value ≡ done (some a)
    → value ≡ a.family ∷ 0 ∷ 0 ∷ 0 ∷ []
unfolding decode_address_family byte_at
family_shape a [] e = cc (done-injective e)
family_shape a (b0 ∷ []) e = cc (done-injective e)
family_shape a (b0 ∷ b1 ∷ []) e = cc (done-injective e)
family_shape a (b0 ∷ b1 ∷ b2 ∷ []) e = cc (done-injective e)
family_shape a (b0 ∷ b1 ∷ b2 ∷ b3 ∷ []) e = ground arith
family_shape a (b0 ∷ b1 ∷ b2 ∷ b3 ∷ b4 ∷ value) e = ground arith

decode_address_family_iff :
    (value : Bytes) (a : AddressFamilyAttr)
    → (decode_address_family value ≡ done (some a)) ↔ (value ≡ a.family ∷ 0 ∷ 0 ∷ 0 ∷ [])
unfolding decode_address_family byte_at
decode_address_family_iff value a = (family_shape a value, λ e. rw (e, decode_address_family))

-- On a span of any size, for a 16-bit type, an address family is written as an attribute of its type whose value is the
-- family's byte and three zeros, or nothing is written and the answer is false if the eight bytes do
-- not fit; and a value decodes to a family exactly if it is of that form.
pub address_family_round_trip :
    (type : ℕ) (a : AddressFamilyAttr) (buf value : Bytes)
    → IsU16 type
    → (encode_address_family type a buf ≡ put_tlv type (a.family ∷ 0 ∷ 0 ∷ 0 ∷ []) buf)
      × ((decode_address_family value ≡ done (some a)) ↔ (value ≡ a.family ∷ 0 ∷ 0 ∷ 0 ∷ []))
address_family_round_trip type a buf value ht =
    (encode_address_family_lem type a buf ht, decode_address_family_iff value a)
