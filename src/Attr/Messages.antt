-- ===== src/Attr/Messages.antt =====
-- errorMessage of include/stunxx/attributes/ErrorCodeAttr.hpp and AddressErrorCodeAttr.hpp, and the
-- attributes that are made from a StunErrorCode.
use Prim.Native.Char.{code}
use Prim.Native.String.{String}
use libstunxx.Common.{
  List, ◌==◌, if◌then◌else◌, ℕ, ◌≤◌, ◌<◌, ◌+◌, ◌≡◌, refl, true, ◌&&◌, some, [], ◌∷◌, arith, length,
  leb, ltb, leb→le, ltb→lt, IsU16,
}
use libstunxx.Memory.{Bytes, done}
use libstunxx.Stun.Wire.{put_tlv}
use libstunxx.Stun.Types.{
  StunErrorCode, error_number, try_alternate, bad_request, unauthenticated, forbidden,
  unknown_attribute, allocation_mismatch, stale_nonce, address_fam_not_supported, wrong_credentials,
  unsupported_transport, peer_addr_fam_mismatch, connection_already_exists,
  connection_timeout_or_failure, allocation_quota_reached, server_error, insufficient_capacity,
  global_failure,
}
use libstunxx.Attr.ErrorCode.{
  ErrorCodeAttr, error_code_type, encode_error_code, decode_error_code, error_value,
  error_code_round_trip,
}
use libstunxx.Attr.AddressError.{AddressErrorCodeAttr}

-- The bytes of an ASCII text.
abbrev pub text_bytes : String → Bytes
text_bytes String.[] = []
text_bytes (String.◌∷◌ c s) = code c ∷ text_bytes s

-- A switch on a code, which may have no name: the phrase of the first case with its number.
phrase_of : List (StunErrorCode × String) → ℕ → String
phrase_of [] code = "Unknown Error"
phrase_of ((c, phrase) ∷ cases) code =
    if code == error_number c then phrase else phrase_of cases code

abbrev message_cases : List (StunErrorCode × String)
message_cases =
    (try_alternate, "Try Alternate")
    ∷ (bad_request, "Bad Request")
    ∷ (unauthenticated, "Unauthenticated")
    ∷ (unknown_attribute, "Unknown Attribute")
    ∷ (stale_nonce, "Stale Nonce")
    ∷ (server_error, "Server Error")
    ∷ (forbidden, "Forbidden")
    ∷ (allocation_mismatch, "Allocation Mismatch")
    ∷ (wrong_credentials, "Wrong Credentials")
    ∷ (unsupported_transport, "Unsupported Transport Protocol")
    ∷ (allocation_quota_reached, "Allocation Quota Reached")
    ∷ (insufficient_capacity, "Insufficient Capacity")
    ∷ (address_fam_not_supported, "Address Family Not Supported")
    ∷ (peer_addr_fam_mismatch, "Peer Address Family Mismatch")
    ∷ (connection_already_exists, "Connection Already Exists")
    ∷ (connection_timeout_or_failure, "Connection Timeout or Failure")
    ∷ (global_failure, "Global Failure")
    ∷ []

unfoldable pub error_message : ℕ → String
unfolding phrase_of
error_message = phrase_of message_cases

-- AddressErrorCodeAttr::errorMessage
unfoldable pub address_error_message : ℕ → String
unfolding phrase_of
address_error_message = phrase_of (
    (address_fam_not_supported, "Address Family Not Supported")
    ∷ (insufficient_capacity, "Insufficient Capacity")
    ∷ [])

-- ErrorCodeAttr(code), of a StunErrorCode by its number
unfoldable pub new_error_code : ℕ → ErrorCodeAttr
unfolding error_message
new_error_code code = record { code = code; reason = text_bytes (error_message code) }

-- AddressErrorCodeAttr(family, code)
unfoldable pub new_address_error : ℕ → ℕ → AddressErrorCodeAttr
unfolding error_message
new_address_error family code = record {
  family = family;
  code = code;
  reason = text_bytes (error_message code);
}

InRange : StunErrorCode → Type 0
unfolding new_error_code
InRange c =
    (leb 300 (new_error_code (error_number c)).code
      && ltb (new_error_code (error_number c)).code 700
      && ltb (length (new_error_code (error_number c)).reason) 32)
    ≡ true

in_range : (c : StunErrorCode) → InRange c
unfolding InRange error_message phrase_of
in_range try_alternate = refl
in_range bad_request = refl
in_range unauthenticated = refl
in_range forbidden = refl
in_range unknown_attribute = refl
in_range allocation_mismatch = refl
in_range stale_nonce = refl
in_range address_fam_not_supported = refl
in_range wrong_credentials = refl
in_range unsupported_transport = refl
in_range peer_addr_fam_mismatch = refl
in_range connection_already_exists = refl
in_range connection_timeout_or_failure = refl
in_range allocation_quota_reached = refl
in_range server_error = refl
in_range insufficient_capacity = refl
in_range global_failure = refl

-- Every named error code makes an attribute that, on a span of any size, is written whole, with its
-- phrase, or false is answered and nothing written if it does not fit; and the value decodes to the
-- same code and phrase.
pub new_error_code_round_trip :
    (c : StunErrorCode) (buf : Bytes)
    → (encode_error_code (new_error_code (error_number c)) buf
        ≡ put_tlv error_code_type (error_value (new_error_code (error_number c))) buf)
      × (decode_error_code (error_value (new_error_code (error_number c)))
          ≡ done (some (new_error_code (error_number c))))
unfolding InRange
new_error_code_round_trip c buf =
    error_code_round_trip (new_error_code (error_number c)) buf low high short
  where
    bounds :
        ((leb 300 (new_error_code (error_number c)).code ≡ true)
          × (ltb (new_error_code (error_number c)).code 700 ≡ true))
        × (ltb (length (new_error_code (error_number c)).reason) 32 ≡ true)
    bounds = ground (arith, in_range c)

    low : 300 ≤ (new_error_code (error_number c)).code
    low = leb→le 300 (new_error_code (error_number c)).code bounds.0.0

    high : (new_error_code (error_number c)).code < 700
    high = ltb→lt (new_error_code (error_number c)).code 700 bounds.0.1

    short : IsU16 (4 + length (new_error_code (error_number c)).reason)
    short = omega (arith, ltb→lt (length (new_error_code (error_number c)).reason) 32 bounds.1)
