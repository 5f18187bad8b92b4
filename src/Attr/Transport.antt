-- ===== src/Attr/Transport.antt =====
-- include/stunxx/attributes/NumericAttrT.hpp: the specialisation for REQUESTED-TRANSPORT.
use libstunxx.Common.{
  ℕ, ◌+◌, ◌≡◌, refl, Bool, false, not, Option, none, some, [], ◌∷◌, arith, ltb, ◌==◌, if◌then◌else◌,
  length,
}
use libstunxx.Memory.{Bytes, Outcome, done, ◌>>=◌, store, byte_at}
use libstunxx.Stun.Wire.{attr_header_size, write_header, put_tlv}
use libstunxx.Attr.Concept.{StunAttribute}
use libstunxx.Attr.Frame.{guarded_raw, return_true}

abbrev pub requested_transport_type : ℕ
requested_transport_type = 0x0019

pub record TransportAttr : Type 0 where
  pub protocol : ℕ

unfoldable pub set_protocol : ℕ → TransportAttr → TransportAttr
set_protocol x a = record { protocol = x }

unfoldable pub decode_transport : Bytes → Outcome (Option TransportAttr)
decode_transport buf =
    if not (length buf == 4)
    then done none
    else (do p ← byte_at 0 buf; done (some (record { protocol = p })))

unfoldable pub encode_transport : TransportAttr → Bytes → Outcome (Bool × Bytes)
encode_transport a buf = if ltb (length buf) (attr_header_size + 4) then done (false, buf) else (do
  b1 ← write_header requested_transport_type 4 buf
  b2 ← store attr_header_size (a.protocol ∷ 0 ∷ 0 ∷ 0 ∷ []) b1
  return_true b2)

abbrev pub transport_attribute : StunAttribute TransportAttr
transport_attribute = record {
  type = requested_transport_type;
  length_of = λ a. 4;
  encode = encode_transport;
}

-- On a span of any size, the protocol is written as the first of four bytes, the reserved three are
-- zero, or false is answered and nothing written if the attribute does not fit; and the four bytes
-- decode to the protocol.
pub transport_round_trip :
    (a : TransportAttr) (buf : Bytes)
    → (encode_transport a buf ≡ put_tlv requested_transport_type (a.protocol ∷ 0 ∷ 0 ∷ 0 ∷ []) buf)
      × (decode_transport (a.protocol ∷ 0 ∷ 0 ∷ 0 ∷ []) ≡ done (some a))
unfolding encode_transport decode_transport byte_at
transport_round_trip a buf = (
  guarded_raw 0x19 4 (a.protocol ∷ 0 ∷ 0 ∷ 0 ∷ []) buf (omega arith) (omega arith) refl refl,
  refl,
)
