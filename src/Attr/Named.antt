-- ===== src/Attr/Named.antt =====
-- The names that the headers of include/stunxx/attributes give to the instances of their templates, and
-- the types of all classes.
use libstunxx.Common.{ℕ, ◌-◌, ◌^◌}
use libstunxx.Stun.Types
use libstunxx.Stun.Types.{StunAttrType, attr_number}
use libstunxx.Stun.Endian.{Endian}
use libstunxx.Attr.Concept.{StunAttribute}
use libstunxx.Attr.Numeric.{NumericAttr, numeric_attribute}
use libstunxx.Attr.Transport.{TransportAttr, transport_attribute}
use libstunxx.Attr.EvenPort.{EvenPortAttr, even_port_attribute}
use libstunxx.Attr.Marker.{MarkerAttr, marker_attribute}
use libstunxx.Attr.Family.{AddressFamilyAttr, address_family_attribute}
use libstunxx.Attr.Strings.{StringAttr, string_attribute}
use libstunxx.Attr.Words.{IceControlAttr, ice_control_attribute}
use libstunxx.Attr.XorAddress.{XorAddressAttr, xor_address_attribute}

abbrev pub priority_attr : StunAttribute NumericAttr
priority_attr = numeric_attribute (attr_number Types.priority)

abbrev pub lifetime_attr : StunAttribute NumericAttr
lifetime_attr = numeric_attribute (attr_number Types.lifetime)

abbrev pub connection_id_attr : StunAttribute NumericAttr
connection_id_attr = numeric_attribute (attr_number Types.connection_id)

abbrev pub requested_trans_attr : StunAttribute TransportAttr
requested_trans_attr = transport_attribute

abbrev pub even_port_attr : StunAttribute EvenPortAttr
even_port_attr = even_port_attribute

abbrev pub use_candidate_attr : StunAttribute MarkerAttr
use_candidate_attr = marker_attribute (attr_number Types.use_candidate)

abbrev pub dont_fragment_attr : StunAttribute MarkerAttr
dont_fragment_attr = marker_attribute (attr_number Types.dont_fragment)

abbrev pub requested_address_family_attr : StunAttribute AddressFamilyAttr
requested_address_family_attr =
    address_family_attribute (attr_number Types.requested_address_family)

abbrev pub additional_address_family_attr : StunAttribute AddressFamilyAttr
additional_address_family_attr =
    address_family_attribute (attr_number Types.additional_address_family)

abbrev pub ice_controlled_attr : Endian → StunAttribute IceControlAttr
ice_controlled_attr e = ice_control_attribute e (attr_number Types.ice_controlled)

abbrev pub ice_controlling_attr : Endian → StunAttribute IceControlAttr
ice_controlling_attr e = ice_control_attribute e (attr_number Types.ice_controlling)

abbrev pub xor_mapped_addr_attr : StunAttribute XorAddressAttr
xor_mapped_addr_attr = xor_address_attribute (attr_number Types.xor_mapped_address)

abbrev pub xor_peer_addr_attr : StunAttribute XorAddressAttr
xor_peer_addr_attr = xor_address_attribute (attr_number Types.xor_peer_address)

abbrev pub xor_relayed_addr_attr : StunAttribute XorAddressAttr
xor_relayed_addr_attr = xor_address_attribute (attr_number Types.xor_relayed_address)

abbrev pub alternate_server_attr : StunAttribute XorAddressAttr
alternate_server_attr = xor_address_attribute (attr_number Types.alternate_server)

-- A text class with the longest value that its decode takes.
pub record TextClass : Type 0 where
  pub text : StunAttribute StringAttr
  pub max_bytes : ℕ

abbrev text_class : StunAttrType → ℕ → TextClass
text_class type max = record { text = string_attribute (attr_number type); max_bytes = max }

abbrev pub username_attr : TextClass
username_attr = text_class Types.username 513

abbrev pub realm_attr : TextClass
realm_attr = text_class Types.realm 763

abbrev pub nonce_attr : TextClass
nonce_attr = text_class Types.nonce 763

-- std::numeric_limits<std::size_t>::max()
abbrev pub software_attr : TextClass
software_attr = text_class Types.software (2 ^ 64 - 1)

abbrev pub alternate_domain_attr : TextClass
alternate_domain_attr = text_class Types.alternate_domain 763
