-- ===== src/Stun/Types.antt =====
-- The enumerations of Stun.hpp. A `static_cast` between an enumeration and its number can give any
-- number of the underlying width, so values that come off the wire are numbers in the model; the
-- data types are the names that the program writes, and `code` is their number.
use libstunxx.Common.{ℕ}

pub data StunErrorCode : Type 0 where
  try_alternate bad_request unauthenticated forbidden unknown_attribute : StunErrorCode
  allocation_mismatch stale_nonce address_fam_not_supported wrong_credentials : StunErrorCode
  unsupported_transport peer_addr_fam_mismatch connection_already_exists : StunErrorCode
  connection_timeout_or_failure allocation_quota_reached server_error : StunErrorCode
  insufficient_capacity global_failure : StunErrorCode

abbrev pub error_number : StunErrorCode → ℕ
error_number try_alternate = 300
error_number bad_request = 400
error_number unauthenticated = 401
error_number forbidden = 403
error_number unknown_attribute = 420
error_number allocation_mismatch = 437
error_number stale_nonce = 438
error_number address_fam_not_supported = 440
error_number wrong_credentials = 441
error_number unsupported_transport = 442
error_number peer_addr_fam_mismatch = 443
error_number connection_already_exists = 446
error_number connection_timeout_or_failure = 447
error_number allocation_quota_reached = 486
error_number server_error = 500
error_number insufficient_capacity = 508
error_number global_failure = 600

pub data StunClass : Type 0 where
  request indication success_resp error_resp : StunClass

abbrev pub class_bits : StunClass → ℕ
class_bits request = 0x0000
class_bits indication = 0x0010
class_bits success_resp = 0x0100
class_bits error_resp = 0x0110

pub data StunMethod : Type 0 where
  binding allocate refresh send data_method create_permission channel_bind connect : StunMethod
  connection_bind connection_attempt : StunMethod

abbrev pub method_bits : StunMethod → ℕ
method_bits binding = 0x0001
method_bits allocate = 0x0003
method_bits refresh = 0x0004
method_bits send = 0x0006
method_bits data_method = 0x0007
method_bits create_permission = 0x0008
method_bits channel_bind = 0x0009
method_bits connect = 0x000a
method_bits connection_bind = 0x000b
method_bits connection_attempt = 0x000c

pub data StunAttrType : Type 0 where
  mapped_address username message_integrity error_code unknown_attributes realm nonce : StunAttrType
  requested_address_family message_integrity_sha256 password_algorithm user_hash : StunAttrType
  xor_mapped_address priority use_candidate additional_address_family address_error_code :
      StunAttrType
  password_algorithms alternate_domain software alternate_server fingerprint : StunAttrType
  ice_controlled ice_controlling channel_number lifetime xor_peer_address data_attr : StunAttrType
  xor_relayed_address even_port requested_transport dont_fragment reservation_token : StunAttrType
  connection_id : StunAttrType

abbrev pub attr_number : StunAttrType → ℕ
attr_number mapped_address = 0x0001
attr_number username = 0x0006
attr_number message_integrity = 0x0008
attr_number error_code = 0x0009
attr_number unknown_attributes = 0x000a
attr_number realm = 0x0014
attr_number nonce = 0x0015
attr_number requested_address_family = 0x0017
attr_number message_integrity_sha256 = 0x001c
attr_number password_algorithm = 0x001d
attr_number user_hash = 0x001e
attr_number xor_mapped_address = 0x0020
attr_number priority = 0x0024
attr_number use_candidate = 0x0025
attr_number additional_address_family = 0x8000
attr_number address_error_code = 0x8001
attr_number password_algorithms = 0x8002
attr_number alternate_domain = 0x8003
attr_number software = 0x8022
attr_number alternate_server = 0x8023
attr_number fingerprint = 0x8028
attr_number ice_controlled = 0x8029
attr_number ice_controlling = 0x802a
attr_number channel_number = 0x000c
attr_number lifetime = 0x000d
attr_number xor_peer_address = 0x0012
attr_number data_attr = 0x0013
attr_number xor_relayed_address = 0x0016
attr_number even_port = 0x0018
attr_number requested_transport = 0x0019
attr_number dont_fragment = 0x001a
attr_number reservation_token = 0x0022
attr_number connection_id = 0x002a

-- enum class AddressFamily
abbrev pub ipv4_family : ℕ
ipv4_family = 0x01

abbrev pub ipv6_family : ℕ
ipv6_family = 0x02

pub data Protocol : Type 0 where
  udp tcp : Protocol

abbrev pub protocol_number : Protocol → ℕ
protocol_number udp = 17
protocol_number tcp = 6

pub data PasswordAlgorithm : Type 0 where
  md5 sha256 : PasswordAlgorithm

abbrev pub algorithm_number : PasswordAlgorithm → ℕ
algorithm_number md5 = 0x0001
algorithm_number sha256 = 0x0002
