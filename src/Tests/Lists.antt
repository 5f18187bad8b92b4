-- ===== src/Tests/Lists.antt =====
-- The attributes that hold addresses, lists and algorithms on concrete values, and the keys.
use libstunxx.Common.{
  ◌≡◌, ◌≤◌, ◌<◌, ◌+◌, ◌⊎◌, inl, inr, refl, true, false, none, some, [], ◌∷◌, ◌++◌, arith, replicate,
  take, ap, sym, length, take-append, append-nil, ◌∙◌,
}
use libstunxx.Memory.{Bytes, done}
use libstunxx.Stun.Wire.{put_tlv}
use libstunxx.Attr.AddressError.{
  AddressErrorCodeAttr, address_error_type, encode_address_error, decode_address_error,
  address_error_round_trip,
}
use libstunxx.Attr.XorAddress.{
  XorAddressAttr, new_xor_address, encode_xor_address, decode_xor_address, shown_address,
}
use libstunxx.Attr.XorAddress.Value.{stun_address, xor_value}
use libstunxx.Attr.XorAddress.Text.{Inet, af_inet, af_inet6, address_str, address_str-decoded}
use libstunxx.Attr.XorAddress.RoundTrip.{xor_address_round_trip}
use libstunxx.Attr.Unknown.{unknown_attributes_type, encode_unknown, decode_unknown}
use libstunxx.Attr.Unknown.Laws.{unknown_attributes_round_trip}
use libstunxx.Attr.Algorithm.Entry.{PasswordAlgorithmEntry}
use libstunxx.Attr.Algorithms.{
  PasswordAlgorithmsAttr, password_algorithms_type, password_algorithms_length,
  encode_password_algorithms, decode_password_algorithms,
}
use libstunxx.Attr.Algorithms.Laws.{entries_bytes, password_algorithms_round_trip}
use libstunxx.Attr.Algorithms.Total.{decode_password_algorithms_ends}
use libstunxx.Stun.Endian.{little}
use libstunxx.Attr.Total.Every.{DecodersReturn, decode-Returns}
use libstunxx.Attr.Keys.{EvpDigest, compute_key-injective}
use libstunxx.Attr.Messages.{error_message}
use libstunxx.Tests.Sample.{tid}

abbrev span24 : Bytes
span24 = replicate 24 0xee

abbrev letter_a : Bytes
letter_a = 97 ∷ []

abbrev letter_b : Bytes
letter_b = 98 ∷ []

abbrev home : Bytes
home = 192 ∷ 0 ∷ 2 ∷ 1 ∷ []

xor_address_round_trip_example :
    (encode_xor_address 0x0020 (new_xor_address tid (stun_address false 32853 home)) span24
      ≡ put_tlv 0x0020 (xor_value false 32853 home tid) span24)
    × (decode_xor_address (xor_value false 32853 home tid) tid
        ≡ done (some (new_xor_address tid (stun_address false 32853 home))))
    × (shown_address (new_xor_address tid (stun_address false 32853 home)) ≡ home)
xor_address_round_trip_example =
    xor_address_round_trip false 0x0020 32853 home tid span24 (omega arith) (omega arith)
      (ground arith) (ground arith) refl refl

abbrev not_supported : AddressErrorCodeAttr
not_supported = record { family = 2; code = 440; reason = 65 ∷ 66 ∷ [] }

address_error_round_trip_example :
    (encode_address_error not_supported span24
      ≡ put_tlv address_error_type (2 ∷ 0 ∷ 128 ∷ 40 ∷ 65 ∷ 66 ∷ []) span24)
    × (decode_address_error (2 ∷ 0 ∷ 128 ∷ 40 ∷ 65 ∷ 66 ∷ []) ≡ done (some not_supported))
address_error_round_trip_example =
    address_error_round_trip not_supported span24 (inr refl) (inl refl) (omega arith)

unknown_attributes_round_trip_example :
    (encode_unknown (record { unknown_attrs = 0x7fff ∷ 3 ∷ 0x0019 ∷ [] }) span24
      ≡ put_tlv unknown_attributes_type (0x7f ∷ 0xff ∷ 0 ∷ 3 ∷ 0 ∷ 0x19 ∷ []) span24)
    × (decode_unknown (0x7f ∷ 0xff ∷ 0 ∷ 3 ∷ 0 ∷ 0x19 ∷ [])
        ≡ done (some (record { unknown_attrs = 0x7fff ∷ 3 ∷ 0x0019 ∷ [] })))
unknown_attributes_round_trip_example =
    unknown_attributes_round_trip (record { unknown_attrs = 0x7fff ∷ 3 ∷ 0x0019 ∷ [] }) span24
      (ground arith) (omega arith)

abbrev salted : PasswordAlgorithmEntry
salted = record { algorithm = 2; parameters = 5 ∷ 6 ∷ [] }

abbrev two_entries : PasswordAlgorithmsAttr
two_entries = record { entries = salted ∷ record { algorithm = 1; parameters = [] } ∷ [] }

password_algorithms_round_trip_example :
    (encode_password_algorithms two_entries span24
      ≡ put_tlv password_algorithms_type (entries_bytes two_entries.entries) span24)
    × (decode_password_algorithms (entries_bytes two_entries.entries ++ 9 ∷ [])
        ≡ done (some two_entries))
password_algorithms_round_trip_example =
    password_algorithms_round_trip two_entries span24 (9 ∷ []) (ground arith) (omega arith)
      (omega arith)

decode_password_algorithms_ends_example :
    (decode_password_algorithms (0 ∷ 1 ∷ 0 ∷ 0 ∷ 0 ∷ 2 ∷ []) ≡ done none)
    ⊎ ((a : PasswordAlgorithmsAttr) × (decode_password_algorithms (0 ∷ 1 ∷ 0 ∷ 0 ∷ 0 ∷ 2 ∷ [])
          ≡ done (some a))
        × (password_algorithms_length a ≤ 6)
        × (6 < password_algorithms_length a + 4))
decode_password_algorithms_ends_example =
    decode_password_algorithms_ends (0 ∷ 1 ∷ 0 ∷ 0 ∷ 0 ∷ 2 ∷ [])

-- A stand-in that writes its input.
abbrev copying : EvpDigest
copying input before = (true, input)

compute_key-injective_example :
    (letter_a ≡ letter_a) × (letter_b ≡ letter_b) × (letter_a ≡ letter_a)
compute_key-injective_example =
    compute_key-injective copying 16 letter_a letter_b letter_a letter_a letter_b letter_a (λ e. e)
      (omega arith, tt) (omega arith, tt) (omega arith, tt) (omega arith, tt) refl

-- A code without a name.
unnamed : error_message 999 ≡ "Unknown Error"
unfolding error_message
unnamed = refl

decode-Returns_example : DecodersReturn little false 763 (1 ∷ 2 ∷ 3 ∷ []) tid
decode-Returns_example = decode-Returns little false 763 (1 ∷ 2 ∷ 3 ∷ []) tid refl

-- A stand-in that gives the bytes as the text.
plain_text : Inet → Bytes → Bytes
plain_text af_inet bytes = take 4 bytes
plain_text af_inet6 bytes = bytes

plain_text_four :
    (addr behind : Bytes)
    → length addr ≡ 4
    → plain_text af_inet (addr ++ behind) ≡ plain_text af_inet addr
unfolding plain_text
plain_text_four addr behind e =
    take-append 4 addr behind (sym e)
    ∙ sym (ap (take 4) (sym (append-nil addr)) ∙ take-append 4 addr [] (sym e))

address_str-decoded_example :
    (a : XorAddressAttr) × (decode_xor_address (xor_value false 32853 home tid) tid ≡ done (some a))
    × (address_str plain_text a ≡ plain_text af_inet home)
address_str-decoded_example =
    address_str-decoded plain_text plain_text_four false 32853 home tid (omega arith) (ground arith)
      (ground arith) refl refl
