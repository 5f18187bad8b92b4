-- ===== src/Attr/Data.antt =====
-- include/stunxx/attributes/DataAttr.hpp: DATA.
use libstunxx.Common.{
  ℕ, ◌+◌, ◌-◌, ◌≡◌, refl, Bool, false, Option, some, arith, ltb, if◌then◌else◌, length, u16, IsU16,
  pad4,
}
use libstunxx.Memory.{Bytes, Outcome, done, ◌>>=◌, store}
use libstunxx.Stun.Wire.{attr_header_size, write_header, zeros, put_tlv}
use libstunxx.Attr.Concept.{StunAttribute}
use libstunxx.Attr.Frame.{guarded, return_true}
use libstunxx.Attr.Written.{copied_value}

abbrev pub data_type : ℕ
data_type = 0x0013

pub record DataAttr : Type 0 where
  pub payload : Bytes

abbrev pub data_length : DataAttr → ℕ
data_length a = u16 (length a.payload)

abbrev pub data_padded_length : DataAttr → ℕ
data_padded_length a = pad4 (length a.payload)

unfoldable pub decode_data : Bytes → Outcome (Option DataAttr)
decode_data buf = done (some (record { payload = buf }))

unfoldable pub encode_data : DataAttr → Bytes → Outcome (Bool × Bytes)
encode_data a buf =
    let value_len = length a.payload in
    let padded_len = data_padded_length a in
    if ltb (length buf) (attr_header_size + padded_len) then done (false, buf) else (do
      b1 ← write_header data_type (u16 value_len) buf
      b2 ← store attr_header_size a.payload b1
      b3 ←
          (if ltb 0 (padded_len - value_len)
            then store (attr_header_size + value_len) (zeros (padded_len - value_len)) b2
            else done b2)
      return_true b3)

abbrev pub data_attribute : StunAttribute DataAttr
data_attribute = record { type = data_type; length_of = data_length; encode = encode_data }

-- On a span of any size, a payload of fewer than 65536 bytes is written with its length, its bytes
-- and zeros up to a multiple of four, or false is answered and nothing written if that does not fit;
-- and the bytes decode to the payload.
pub data_round_trip :
    (a : DataAttr) (buf : Bytes)
    → IsU16 (length a.payload)
    → (encode_data a buf ≡ put_tlv data_type a.payload buf)
      × (decode_data a.payload ≡ done (some a))
unfolding encode_data decode_data
data_round_trip a buf h = (
  rw same
      (guarded data_type a.payload buf _ (copied_value data_type a.payload buf (omega arith) h)),
  refl,
)
  where
    same : u16 (length a.payload) ≡ length a.payload
    same = omega arith
