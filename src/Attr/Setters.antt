-- ===== src/Attr/Setters.antt =====
-- The setters of the classes of include/stunxx/attributes, followed by encode.
use libstunxx.Common.{
  ℕ, ◌+◌, ◌≡◌, ◌⊎◌, length, refl, Bool, [], ◌∷◌, ◌++◌, ◌&&◌, leb, some, none, IsU16, IsU32,
  if◌then◌else◌,
}
use libstunxx.Memory.{Bytes, done}
use libstunxx.Stun.Wire.{be16, be32, put_tlv}
use libstunxx.Stun.Types.{ipv4_family, ipv6_family}
use libstunxx.Attr.Numeric.{NumericAttr, set_numeric, encode_numeric, numeric_round_trip}
use libstunxx.Attr.Transport.{
  TransportAttr, set_protocol, encode_transport, requested_transport_type, transport_round_trip,
}
use libstunxx.Attr.EvenPort.{
  EvenPortAttr, set_reserve_pair, encode_even_port, even_port_type, reserve_byte,
  even_port_round_trip,
}
use libstunxx.Attr.Family.{
  AddressFamilyAttr, set_address_family, encode_address_family, address_family_round_trip,
}
use libstunxx.Attr.Strings.{StringAttr, set_string, encode_string, string_round_trip}
use libstunxx.Attr.AddressError.{
  AddressErrorCodeAttr, set_error_code, set_error_family, encode_address_error,
  decode_address_error, address_error_type, address_error_value, address_error_round_trip,
}
use libstunxx.Attr.Channel.{
  ChannelNumberAttr, set_channel_number, encode_channel_number, decode_channel_number,
  channel_number_type, channel_number_round_trip,
}

-- After a setter, encode writes the new value, whatever the object held before.
set_then_encode :
    (type v protocol fam : ℕ) (reserve : Bool) (text : Bytes) (n : NumericAttr) (t : TransportAttr)
    (e : EvenPortAttr) (f : AddressFamilyAttr) (s : StringAttr) (buf : Bytes)
    → IsU16 type
    → IsU32 v
    → IsU16 (length text)
    → (encode_numeric type (set_numeric v n) buf ≡ put_tlv type (be32 v) buf)
      × (encode_transport (set_protocol protocol t) buf
          ≡ put_tlv requested_transport_type (protocol ∷ 0 ∷ 0 ∷ 0 ∷ []) buf)
      × (encode_even_port (set_reserve_pair reserve e) buf
          ≡ put_tlv even_port_type (reserve_byte reserve ∷ []) buf)
      × (encode_address_family type (set_address_family fam f) buf
          ≡ put_tlv type (fam ∷ 0 ∷ 0 ∷ 0 ∷ []) buf)
      × (encode_string type (set_string text s) buf ≡ put_tlv type text buf)
unfolding set_numeric set_protocol set_reserve_pair set_address_family set_string
set_then_encode type v protocol fam reserve text n t e f s buf ht hv htext = (
  (numeric_round_trip type (set_numeric v n) buf ht hv).0,
  (transport_round_trip (set_protocol protocol t) buf).0,
  (even_port_round_trip (set_reserve_pair reserve e) buf).0,
  (address_family_round_trip type (set_address_family fam f) buf [] ht).0,
  (string_round_trip type 0 (set_string text s) buf [] ht htext).0,
)

-- An address error whose family and code are set, in either order, is written and decoded as one that
-- was made with them.
set_error-encode_decode :
    (fam code : ℕ) (a : AddressErrorCodeAttr) (buf : Bytes)
    → (fam ≡ ipv4_family) ⊎ (fam ≡ ipv6_family)
    → (code ≡ 440) ⊎ (code ≡ 508)
    → IsU16 (4 + length a.reason)
    → (set_error_family fam (set_error_code code a) ≡ set_error_code code (set_error_family fam a))
      × (encode_address_error (set_error_family fam (set_error_code code a)) buf
          ≡ put_tlv address_error_type
              (address_error_value (record { family = fam; code = code; reason = a.reason }))
              buf)
      × (decode_address_error
            (address_error_value (record { family = fam; code = code; reason = a.reason }))
          ≡ done (some (set_error_family fam (set_error_code code a))))
unfolding set_error_family set_error_code
set_error-encode_decode fam code a buf known permitted h =
    let (written, decoded) =
      address_error_round_trip (record { family = fam; code = code; reason = a.reason }) buf known
        permitted h in
    (refl, written, decoded)

-- A channel number is only checked when it is read: for any attribute and any span, whatever 16-bit
-- number is set is written as it is, if the attribute fits, and what is written decodes to an attribute
-- of that number if it is from 0x4000 to 0x7fff, and is rejected by decode if it is not.
pub set_channel_number-encode_decode :
    (n : ℕ) (a : ChannelNumberAttr) (buf : Bytes)
    → IsU16 n
    → (encode_channel_number (set_channel_number n a) buf
        ≡ put_tlv channel_number_type (be16 n ++ 0 ∷ 0 ∷ []) buf)
      × (decode_channel_number (be16 n ++ 0 ∷ 0 ∷ []) ≡ (
          if leb 0x4000 n && leb n 0x7fff then done (some (set_channel_number n a)) else done none))
unfolding set_channel_number
set_channel_number-encode_decode n a buf h =
    channel_number_round_trip (record { channel_number = n }) buf h
