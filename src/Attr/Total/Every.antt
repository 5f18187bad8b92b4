-- ===== src/Attr/Total/Every.antt =====
-- The decoders of all classes together.
use libstunxx.Common.{ℕ, ◌≡◌, Bool, length}
use libstunxx.Memory.{Bytes}
use libstunxx.Memory.Returns.{Returns, done-Returns}
use libstunxx.Stun.Endian.{Endian}
use libstunxx.Attr.Numeric.{decode_numeric}
use libstunxx.Attr.Transport.{decode_transport}
use libstunxx.Attr.EvenPort.{decode_even_port}
use libstunxx.Attr.Marker.{decode_marker}
use libstunxx.Attr.Family.{decode_address_family}
use libstunxx.Attr.Strings.{decode_string}
use libstunxx.Attr.Data.{decode_data}
use libstunxx.Attr.Raw.{decode_reservation, decode_user_hash}
use libstunxx.Attr.Channel.{decode_channel_number}
use libstunxx.Attr.Words.{decode_fingerprint, decode_ice_control}
use libstunxx.Attr.ErrorCode.{decode_error_code}
use libstunxx.Attr.AddressError.{decode_address_error}
use libstunxx.Attr.Integrity.{decode_integrity}
use libstunxx.Attr.Algorithm.{decode_password_algorithm}
use libstunxx.Attr.Unknown.{decode_unknown}
use libstunxx.Attr.XorAddress.{decode_xor_address}
use libstunxx.Attr.Total.Plain.{
  decode_address_family-Returns, decode_channel_number-Returns, decode_even_port-Returns,
  decode_fingerprint-Returns, decode_ice_control-Returns, decode_integrity-Returns,
  decode_marker-Returns, decode_numeric-Returns, decode_reservation-Returns, decode_string-Returns,
  decode_transport-Returns, decode_user_hash-Returns,
}
use libstunxx.Attr.Total.Parts.{
  decode_address_error-Returns, decode_error_code-Returns, decode_password_algorithm-Returns,
  decode_unknown-Returns, decode_xor_address-Returns,
}

-- What `decode` of each class answers on `buf`.
abbrev pub DecodersReturn : Endian → Bool → ℕ → Bytes → Bytes → Type 0
DecodersReturn e is_sha256 max_bytes buf tid =
    Returns (decode_numeric buf)
    × Returns (decode_transport buf)
    × Returns (decode_even_port buf)
    × Returns (decode_marker buf)
    × Returns (decode_address_family buf)
    × Returns (decode_string max_bytes buf)
    × Returns (decode_data buf)
    × Returns (decode_reservation buf)
    × Returns (decode_user_hash buf)
    × Returns (decode_channel_number buf)
    × Returns (decode_fingerprint e buf)
    × Returns (decode_ice_control e buf)
    × Returns (decode_integrity is_sha256 buf)
    × Returns (decode_error_code buf)
    × Returns (decode_address_error buf)
    × Returns (decode_password_algorithm buf)
    × Returns (decode_unknown buf)
    × Returns (decode_xor_address buf tid)

-- On any bytes, and with a transaction id of 12 bytes, on either byte order and for any limit of a
-- text, every class's `decode` returns: it reads nothing outside the bytes it is given, and its loops
-- end. (For a list of password algorithms this is a theorem of its own.)
pub decode-Returns :
    (e : Endian) (is_sha256 : Bool) (max_bytes : ℕ) (buf tid : Bytes)
    → length tid ≡ 12
    → DecodersReturn e is_sha256 max_bytes buf tid
unfolding decode_data
decode-Returns e is_sha256 max_bytes buf tid htid = (
  decode_numeric-Returns buf,
  decode_transport-Returns buf,
  decode_even_port-Returns buf,
  decode_marker-Returns buf,
  decode_address_family-Returns buf,
  decode_string-Returns buf max_bytes,
  done-Returns _,
  decode_reservation-Returns buf,
  decode_user_hash-Returns buf,
  decode_channel_number-Returns buf,
  decode_fingerprint-Returns buf e,
  decode_ice_control-Returns buf e,
  decode_integrity-Returns buf is_sha256,
  decode_error_code-Returns buf,
  decode_address_error-Returns buf,
  decode_password_algorithm-Returns buf,
  decode_unknown-Returns buf,
  decode_xor_address-Returns buf tid htid,
)
