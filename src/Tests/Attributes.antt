-- ===== src/Tests/Attributes.antt =====
-- Each kind of attribute on a concrete value.
use libstunxx.Common.{
  ◌≡◌, ◌⊎◌, ◌↔◌, ◌≤◌, refl, true, false, none, some, [], ◌∷◌, ◌++◌, arith, length, replicate,
}
use libstunxx.Memory.{Bytes, done, fault}
use libstunxx.Stun.Wire.{put_tlv, be16}
use libstunxx.Attr.Strings.{
  StringAttr, encode_string, decode_string, string_round_trip, encode_string_overruns,
}
use libstunxx.Attr.Channel.{
  channel_number_type, encode_channel_number, decode_channel_number, set_channel_number,
}
use libstunxx.Attr.Setters.{set_channel_number-encode_decode}
use libstunxx.Attr.Life.{Reach, start, later, keyed, computed, IsSigned, encode_integrity-reached}
use libstunxx.Attr.Integrity.{
  Hmac, MessageIntegrityAttr, compute, set_key, take_digest, integrity_type, encode_integrity,
  decode_integrity, integrity_round_trip,
}
use libstunxx.Stun.Wire.{tlv}
use libstunxx.ChannelData.{
  ChannelData, encode_channel_data, decode_channel_data, is_valid_channel, is_channel_data,
  channel_data_round_trip,
}
use libstunxx.Attr.ErrorCode.{
  ErrorCodeAttr, error_code_type, encode_error_code, decode_error_code, error_code_round_trip,
}

abbrev span16 : Bytes
span16 = replicate 16 0xee

abbrev one_byte : Bytes
one_byte = 1 ∷ []

abbrev ipv6_value : Bytes
ipv6_value = 2 ∷ 0 ∷ 0 ∷ 0 ∷ []

abbrev letters : Bytes
letters = 97 ∷ 98 ∷ 99 ∷ []

abbrev letters_attr : StringAttr
letters_attr = record { value = letters }

string_round_trip_example :
    (encode_string 0x8022 (record { value = letters }) span16 ≡ put_tlv 0x8022 letters span16)
    × ((decode_string 763 letters ≡ done (some letters_attr))
        ↔ ((length letters ≤ 763) × (letters_attr ≡ record { value = letters })))
string_round_trip_example =
    string_round_trip 0x8022 763 letters_attr span16 letters (omega arith) (omega arith)

encode_string_overruns_example :
    encode_string 0x8022 (record { value = 97 ∷ replicate 65535 98 }) (replicate 4 0) ≡ fault
encode_string_overruns_example =
    encode_string_overruns 0x8022 97 (replicate 65535 98) (replicate 4 0) (omega arith)
      (omega arith) refl

abbrev token : Bytes
token = 1 ∷ 2 ∷ 3 ∷ 4 ∷ 5 ∷ 6 ∷ 7 ∷ 8 ∷ []

abbrev hash : Bytes
hash = replicate 32 0xab

-- A digest that depends on the key and the message, of the size of SHA-1.
abbrev toy_hmac : Hmac
toy_hmac key message = some (length key ∷ length message ∷ replicate 18 7)

abbrev toy_digest : Bytes
toy_digest = 3 ∷ 16 ∷ replicate 18 7

integrity_round_trip_example :
    (compute toy_hmac false span16 (record { key = letters; hmac = [] })
      ≡ (true, record { key = letters; hmac = toy_digest }))
    × (encode_integrity false (record { key = letters; hmac = toy_digest }) (replicate 24 0)
        ≡ put_tlv (integrity_type false) toy_digest (replicate 24 0))
    × (decode_integrity false toy_digest ≡ done (some (record { key = []; hmac = toy_digest })))
integrity_round_trip_example =
    integrity_round_trip toy_hmac false span16 (record { key = letters; hmac = [] }) toy_digest
      (replicate 24 0) (λ e. cc) refl refl

abbrev channel_frame : ChannelData
channel_frame = record { channel = 0x4001; payload = letters }

valid_channel : is_valid_channel 0x4001 ≡ true
unfolding is_valid_channel
valid_channel = refl

channel_data_round_trip_example :
    (encode_channel_data channel_frame span16 ≡ put_tlv 0x4001 letters span16)
    × (decode_channel_data (tlv 0x4001 letters ++ (9 ∷ [])) ≡ done (some channel_frame))
    × (is_channel_data (tlv 0x4001 letters ++ (9 ∷ [])) ≡ done true)
channel_data_round_trip_example =
    channel_data_round_trip channel_frame span16 (9 ∷ []) valid_channel (omega arith)

abbrev bad_request_attr : ErrorCodeAttr
bad_request_attr = record { code = 400; reason = letters }

error_code_round_trip_example :
    (encode_error_code bad_request_attr span16
      ≡ put_tlv error_code_type (0 ∷ 0 ∷ 4 ∷ 0 ∷ letters) span16)
    × (decode_error_code (0 ∷ 0 ∷ 4 ∷ 0 ∷ letters) ≡ done (some bad_request_attr))
error_code_round_trip_example =
    error_code_round_trip bad_request_attr span16 (omega arith) (omega arith) (omega arith)

set_channel_number-encode_decode_example :
    (encode_channel_number (set_channel_number 0x9000 (record { channel_number = 0x4001 })) span16
      ≡ put_tlv channel_number_type (be16 0x9000 ++ 0 ∷ 0 ∷ []) span16)
    × (decode_channel_number (be16 0x9000 ++ 0 ∷ 0 ∷ []) ≡ done none)
set_channel_number-encode_decode_example =
    set_channel_number-encode_decode 0x9000 (record { channel_number = 0x4001 }) span16
      (omega arith)

-- A digest under one key, and then another key.
abbrev rekeyed : MessageIntegrityAttr
rekeyed = record { key = one_byte; hmac = toy_digest }

rekeyed-Reach : Reach toy_hmac false letters rekeyed
unfolding set_key compute take_digest
rekeyed-Reach = later (later start (computed span16)) (keyed one_byte)

encode_integrity-reached_example :
    ((rekeyed.hmac ≡ []) × (encode_integrity false rekeyed span16 ≡ done (false, span16)))
    ⊎ (IsSigned toy_hmac false rekeyed
        × (encode_integrity false rekeyed span16
            ≡ put_tlv (integrity_type false) toy_digest span16))
encode_integrity-reached_example =
    encode_integrity-reached toy_hmac false letters rekeyed span16 rekeyed-Reach
