-- ===== src/Attr/Catalogue/Fixed.antt =====
-- The classes whose value is a number, a text, bytes or a flag.
use libstunxx.Common.{
  ℕ, ◌≤◌, ◌≡◌, refl, sym, ◌∙◌, [], ◌∷◌, ◌++◌, arith, length, le→leb, IsU16, IsU32, IsU64,
}
use libstunxx.Stun.Endian.{Endian, be64}
use libstunxx.Stun.Wire.{be16, be32}
use libstunxx.Attr.Concept.{Coded}
use libstunxx.Attr.Numeric.{NumericAttr, numeric_attribute, decode_numeric, numeric_round_trip}
use libstunxx.Attr.Transport.{
  TransportAttr, transport_attribute, decode_transport, transport_round_trip,
}
use libstunxx.Attr.EvenPort.{
  EvenPortAttr, even_port_attribute, reserve_byte, decode_even_port, even_port_round_trip,
}
use libstunxx.Attr.Marker.{MarkerAttr, marker_attribute, decode_marker, marker_round_trip}
use libstunxx.Attr.Family.{
  AddressFamilyAttr, address_family_attribute, decode_address_family, address_family_round_trip,
}
use libstunxx.Attr.Strings.{StringAttr, string_attribute, decode_string, string_round_trip}
use libstunxx.Attr.Data.{DataAttr, data_attribute, decode_data, data_round_trip}
use libstunxx.Attr.Raw.{
  ReservationTokenAttr, reservation_attribute, decode_reservation, reservation_round_trip,
  UserHashAttr, user_hash_attribute, decode_user_hash, user_hash_round_trip,
}
use libstunxx.Attr.Channel.{
  ChannelNumberAttr, channel_number_attribute, decode_channel_number, channel_number_round_trip,
}
use libstunxx.Attr.Words.{
  IceControlAttr, ice_control_attribute, decode_ice_control, ice_control_round_trip,
}

abbrev pub numeric_coded : (type : ℕ) (a : NumericAttr) → IsU16 type → IsU32 a.value → Coded
numeric_coded type a ht hv = record {
  Attr = NumericAttr;
  attr = numeric_attribute type;
  decode_of = decode_numeric;
  attribute = a;
  value = be32 a.value;
  law = record { reports = refl; writes = λ buf. (numeric_round_trip type a buf ht hv).0 };
  reads = (numeric_round_trip type a [] ht hv).1;
}

abbrev pub transport_coded : TransportAttr → Coded
transport_coded a = record {
  Attr = TransportAttr;
  attr = transport_attribute;
  decode_of = decode_transport;
  attribute = a;
  value = a.protocol ∷ 0 ∷ 0 ∷ 0 ∷ [];
  law = record { reports = refl; writes = λ buf. (transport_round_trip a buf).0 };
  reads = (transport_round_trip a []).1;
}

abbrev pub even_port_coded : EvenPortAttr → Coded
even_port_coded a = record {
  Attr = EvenPortAttr;
  attr = even_port_attribute;
  decode_of = decode_even_port;
  attribute = a;
  value = reserve_byte a.reserve_pair ∷ [];
  law = record { reports = refl; writes = λ buf. (even_port_round_trip a buf).0 };
  reads = (even_port_round_trip a []).1;
}

abbrev pub marker_coded : (type : ℕ) → MarkerAttr → IsU16 type → Coded
marker_coded type a ht = record {
  Attr = MarkerAttr;
  attr = marker_attribute type;
  decode_of = decode_marker;
  attribute = a;
  value = [];
  law = record { reports = refl; writes = λ buf. (marker_round_trip type a buf [] ht).0 };
  reads = (marker_round_trip type a [] [] ht).1.1 refl;
}

abbrev pub address_family_coded : (type : ℕ) → AddressFamilyAttr → IsU16 type → Coded
address_family_coded type a ht = record {
  Attr = AddressFamilyAttr;
  attr = address_family_attribute type;
  decode_of = decode_address_family;
  attribute = a;
  value = a.family ∷ 0 ∷ 0 ∷ 0 ∷ [];
  law = record { reports = refl; writes = λ buf. (address_family_round_trip type a buf [] ht).0 };
  reads = (address_family_round_trip type a [] (a.family ∷ 0 ∷ 0 ∷ 0 ∷ []) ht).1.1 refl;
}

abbrev pub string_coded :
    (type max_bytes : ℕ) (a : StringAttr)
    → IsU16 type
    → IsU16 (length a.value)
    → length a.value ≤ max_bytes
    → Coded
string_coded type max_bytes a ht hv short = record {
  Attr = StringAttr;
  attr = string_attribute type;
  decode_of = decode_string max_bytes;
  attribute = a;
  value = a.value;
  law = record {
    reports = omega arith;
    writes = λ buf. (string_round_trip type max_bytes a buf [] ht hv).0;
  };
  reads = (string_round_trip type max_bytes a [] a.value ht hv).1.1 (short, refl);
}

abbrev pub data_coded : (a : DataAttr) → IsU16 (length a.payload) → Coded
data_coded a h = record {
  Attr = DataAttr;
  attr = data_attribute;
  decode_of = decode_data;
  attribute = a;
  value = a.payload;
  law = record { reports = omega arith; writes = λ buf. (data_round_trip a buf h).0 };
  reads = (data_round_trip a [] h).1;
}

abbrev pub reservation_coded : (a : ReservationTokenAttr) → length a.token ≡ 8 → Coded
reservation_coded a e = record {
  Attr = ReservationTokenAttr;
  attr = reservation_attribute;
  decode_of = decode_reservation;
  attribute = a;
  value = a.token;
  law = record { reports = sym e; writes = λ buf. (reservation_round_trip a buf e).0 };
  reads = (reservation_round_trip a [] e).1;
}

abbrev pub user_hash_coded : (a : UserHashAttr) → length a.hash ≡ 32 → Coded
user_hash_coded a e = record {
  Attr = UserHashAttr;
  attr = user_hash_attribute;
  decode_of = decode_user_hash;
  attribute = a;
  value = a.hash;
  law = record { reports = sym e; writes = λ buf. (user_hash_round_trip a buf e).0 };
  reads = (user_hash_round_trip a [] e).1;
}

abbrev pub channel_number_coded :
    (a : ChannelNumberAttr) → 0x4000 ≤ a.channel_number → a.channel_number ≤ 0x7fff → Coded
channel_number_coded a low high = record {
  Attr = ChannelNumberAttr;
  attr = channel_number_attribute;
  decode_of = decode_channel_number;
  attribute = a;
  value = be16 a.channel_number ++ 0 ∷ 0 ∷ [];
  law = record {
    reports = refl;
    writes = λ buf. (channel_number_round_trip a buf (omega (arith, high))).0;
  };
  reads =
      (channel_number_round_trip a [] (omega (arith, high))).1
      ∙ rw (le→leb 0x4000 a.channel_number low, le→leb a.channel_number 0x7fff high);
}

abbrev pub ice_control_coded :
    (e : Endian) (type : ℕ) (a : IceControlAttr) → IsU16 type → IsU64 a.tiebreaker → Coded
ice_control_coded e type a ht h = record {
  Attr = IceControlAttr;
  attr = ice_control_attribute e type;
  decode_of = decode_ice_control e;
  attribute = a;
  value = be64 a.tiebreaker;
  law = record { reports = refl; writes = λ buf. (ice_control_round_trip e type a buf ht h).0 };
  reads = (ice_control_round_trip e type a [] ht h).1;
}
