-- ===== src/Encoder.antt =====
-- include/stunxx/Encoder.hpp, src/Encoder.cpp: building a message in a buffer. An encoder is its
-- state; a method returns the new one. `e` is the byte order of the platform.
pub mod Message
pub mod Holds
pub mod Finish
pub mod Calls
pub mod Refines
pub mod Reads
pub mod Finds
pub mod FindsAll
pub mod Required
pub mod Named
use libstunxx.Common.{
  ℕ, zero, suc, ◌+◌, ◌-◌, Bool, true, false, not, ◌&&◌, List, [], ◌∷◌, ◌++◌, ltb, if◌then◌else◌,
  length, take, pad4, u8, u16,
}
use libstunxx.Memory.{Bytes, Outcome, done, fault, ◌>>=◌, fetch, store}
use libstunxx.Stun.Wire.{attr_header_size}
use libstunxx.Stun.Endian.{Endian, byteswap16, byteswap32, object_bytes}
use libstunxx.Stun.Header.{StunHeader, magic_cookie_value, stun_header_size, transaction_id_size}
use libstunxx.Attr.Concept.{StunAttribute}
use libstunxx.Attr.Words.{fingerprint_of, encode_fingerprint}
use libstunxx.Attr.Integrity.{Hmac, MessageIntegrityAttr, compute, encode_integrity, expected_size}

pub record Encoder : Type 0 where
  pub buffer : Bytes
  -- The fields are in network byte order, as numbers of the platform.
  pub stun_header : StunHeader
  pub offset : ℕ
  pub has_message_integrity : Bool
  pub has_fingerprint : Bool

-- Encoder(type, transaction_id, buffer)
unfoldable pub new_encoder : Endian → ℕ → Bytes → Bytes → Encoder
new_encoder e type transaction_id buf = record {
  buffer = buf;
  stun_header = record {
    msg_type = byteswap16 e type;
    msg_length = 0;
    magic_cookie = byteswap32 e magic_cookie_value;
    transaction_id = transaction_id;
  };
  offset = stun_header_size;
  has_message_integrity = false;
  has_fingerprint = false;
}

-- `dist(gen)` drawn n times; `draw i` is the i-th draw.
drawn : (ℕ → ℕ) → ℕ → ℕ → Bytes
drawn draw zero i = []
drawn draw (suc n) i = u8 (draw i) ∷ drawn draw n (i + 1)

-- generateTransactionId
unfoldable pub generate_transaction_id : (ℕ → ℕ) → Bytes
unfolding drawn
generate_transaction_id draw = drawn draw transaction_id_size 0

-- Encoder(type, buffer)
unfoldable pub new_encoder_random : Endian → ℕ → (ℕ → ℕ) → Bytes → Encoder
new_encoder_random e type draw buf = new_encoder e type (generate_transaction_id draw) buf

unfoldable pub total_size : Encoder → ℕ
total_size enc = enc.offset

unfoldable pub stun_size : Encoder → ℕ
stun_size enc = u16 (enc.offset - stun_header_size)

-- std::memcpy(buffer_.data(), &stun_header_, STUN_HEADER_SIZE), of the packed struct
unfoldable pub copy_header : Endian → Encoder → Outcome Encoder
copy_header e enc = do
  let h = enc.stun_header
  out ←
      store 0
        (object_bytes e 2 h.msg_type
          ++ (object_bytes e 2 h.msg_length
              ++ (object_bytes e 4 h.magic_cookie ++ h.transaction_id)))
        enc.buffer
  done (record enc { buffer = out })

-- stun_header_.msg_length = host_to_be16(length), and the copy of the header
unfoldable pub put_length : Endian → ℕ → Encoder → Outcome Encoder
put_length e len enc =
    copy_header e
      (record enc { stun_header = record enc.stun_header { msg_length = byteswap16 e (u16 len) } })

-- From the subspan of the buffer on: the encoder of the attribute writes into that part of it.
unfoldable pub encode_into :
    ℕ → (Bytes → Outcome (Bool × Bytes)) → Encoder → Outcome (Bool × Encoder)
encode_into total_len encode enc = do
  span ← fetch enc.offset total_len enc.buffer
  (ok, written) ← encode span
  out ← store enc.offset written enc.buffer
  if ok
      then done (true, record enc { buffer = out; offset = enc.offset + total_len })
      else done (false, record enc { buffer = out })

module _ {A : Type 0} where
  -- addAttribute, for an attribute that is neither a message integrity nor a fingerprint
  unfoldable pub add_attribute : StunAttribute A → A → Encoder → Outcome (Bool × Encoder)
  add_attribute attr a enc =
      let total_len = attr_header_size + pad4 (attr.length_of a) in
      if ltb (length enc.buffer) (enc.offset + total_len)
      then done (false, enc)
      else encode_into total_len (attr.encode a) enc

set_integrity : Bool × Encoder → Bool × Encoder
set_integrity (true, enc) = (true, record enc { has_message_integrity = true })
set_integrity (false, enc) = (false, enc)

-- addAttribute, for a message integrity; it changes the attribute, which is returned too
unfoldable pub add_integrity :
    Endian
    → Hmac
    → Bool
    → MessageIntegrityAttr
    → Encoder
    → Outcome (Bool × MessageIntegrityAttr × Encoder)
unfolding set_integrity
add_integrity e hmac_of is_sha256 attr enc =
    let total_len = attr_header_size + expected_size is_sha256 in
    if ltb (length enc.buffer) (enc.offset + total_len) then done (false, attr, enc) else (do
      enc1 ← put_length e (stun_size enc + total_len) enc
      message ← fetch 0 enc1.offset enc1.buffer
      let (computed, attr1) = compute hmac_of is_sha256 message attr
      if not computed then done (false, attr1, enc1) else (do
        added ← encode_into total_len (encode_integrity is_sha256 attr1) enc1
        let (ok, enc2) = set_integrity added
        done (ok, attr1, enc2)))

set_fingerprint : Bool × Encoder → Bool × Encoder
set_fingerprint (true, enc) = (true, record enc { has_fingerprint = true })
set_fingerprint (false, enc) = (false, enc)

unfoldable pub add_fingerprint : Endian → Encoder → Outcome (Bool × Encoder)
unfolding set_fingerprint
add_fingerprint e enc =
    let total_len = attr_header_size + 4 in
    if enc.has_fingerprint
    then done (false, enc)
    else if ltb (length enc.buffer) (enc.offset + total_len)
    then done (false, enc)
    else (do
      enc1 ← put_length e (stun_size enc + total_len) enc
      msg ← fetch 0 enc1.offset enc1.buffer
      added ← encode_into total_len (encode_fingerprint e (fingerprint_of msg)) enc1
      done (set_fingerprint added))

unfoldable pub finalize : Endian → Encoder → Outcome Encoder
finalize e enc =
    if not enc.has_fingerprint && not enc.has_message_integrity
    then put_length e (stun_size enc) enc
    else done enc
