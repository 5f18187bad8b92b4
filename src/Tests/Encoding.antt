-- ===== src/Tests/Encoding.antt =====
-- An encoder that holds two attributes, and what its operations make of it.
use libstunxx.Common.{
  ◌≡◌, ◌+◌, ◌≤◌, ◌<◌, ◌⊎◌, refl, true, false, [], ◌∷◌, ◌++◌, arith, length, replicate, drop, pad4,
}
use libstunxx.Memory.{Bytes, done}
use libstunxx.Stun.Wire.{be32}
use libstunxx.Stun.Endian.{little, byteswap16, byteswap32}
use libstunxx.Stun.Header.{magic_cookie_value}
use libstunxx.Attr.Numeric.{numeric_attribute}
use libstunxx.Encoder.{Encoder, add_attribute, add_fingerprint}
use libstunxx.Encoder.Message.{body, message}
use libstunxx.Encoder.Holds.{Holds, add_attribute-Holds}
use libstunxx.Encoder.Finish.{add_fingerprint-message, fingerprint_item}
use libstunxx.Tests.Sample.{tid, lifetime_item, two_items, lifetime_law}

-- An encoder that holds the two attributes and has twelve bytes free.
abbrev holding : Encoder
holding = record {
  buffer = replicate 20 0 ++ (body two_items ++ replicate 12 0);
  stun_header = record {
    msg_type = byteswap16 little 0x0001;
    msg_length = 0;
    magic_cookie = byteswap32 little magic_cookie_value;
    transaction_id = tid;
  };
  offset = 36;
  has_message_integrity = false;
  has_fingerprint = false;
}

holding-Holds : Holds little 0x0001 tid holding two_items (replicate 20 0) (replicate 12 0)
holding-Holds = record {
  split = refl;
  front_size = refl;
  position = refl;
  typed = refl;
  marked = refl;
  identified = refl;
}

add_fingerprint-message_example :
    (enc : Encoder) × (add_fingerprint little holding ≡ done (true, enc))
    × (enc.buffer
        ≡ message 0x0001 tid (two_items ++ fingerprint_item holding-Holds (omega arith) refl ∷ [])
          ++ drop 8 (replicate 12 0))
    × (enc.offset ≡ 20 + length (body two_items) + 8)
    × (add_fingerprint little enc ≡ done (false, enc))
add_fingerprint-message_example =
    add_fingerprint-message holding-Holds (omega arith) refl refl (omega arith) (omega arith)

add_attribute-Holds_example :
    ((add_attribute (numeric_attribute 0x000d) (record { value = 600 }) holding
        ≡ done (false, holding))
      × (48 < 36 + (4 + pad4 4)))
    ⊎ ((enc : Encoder) × (rest : Bytes) × (add_attribute
            (numeric_attribute 0x000d)
            (record { value = 600 })
            holding
          ≡ done (true, enc))
        × (36 + (4 + pad4 4) ≤ 48)
        × Holds little 0x0001 tid enc (two_items ++ lifetime_item ∷ []) (replicate 20 0) rest
        × (length enc.buffer ≡ 48)
        × (enc.stun_header ≡ holding.stun_header)
        × (enc.has_message_integrity ≡ false)
        × (enc.has_fingerprint ≡ false))
add_attribute-Holds_example =
    add_attribute-Holds (numeric_attribute 0x000d) (record { value = 600 }) (be32 600) holding-Holds
      lifetime_law
