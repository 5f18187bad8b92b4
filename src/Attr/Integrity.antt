-- ===== src/Attr/Integrity.antt =====
-- include/stunxx/attributes/MessageIntegrityAttrT.hpp: MESSAGE-INTEGRITY and MESSAGE-INTEGRITY-SHA256.
-- OpenSSL's HMAC is the argument `hmac_of`: the digest of a message under a key, or nothing on failure.
-- The template's parameter is `is_sha256`.
use libstunxx.Common.{
  ℕ, ◌+◌, ◌≡◌, ◌≢◌, refl, Bool, true, false, not, Option, none, some, [], arith, ltb, ◌==◌,
  if◌then◌else◌, length, ==_refl,
}
use libstunxx.Memory.{Bytes, Outcome, done, ◌>>=◌, store}
use libstunxx.Stun.Wire.{attr_header_size, write_header, put_tlv}
use libstunxx.Attr.Frame.{guarded_raw, return_true}

abbrev pub Hmac : Type 0
Hmac = Bytes → Bytes → Option Bytes

abbrev pub integrity_type : Bool → ℕ
integrity_type is_sha256 = if is_sha256 then 0x001c else 0x0008

abbrev pub expected_size : Bool → ℕ
expected_size is_sha256 = if is_sha256 then 32 else 20

pub record MessageIntegrityAttr : Type 0 where
  pub key : Bytes
  pub hmac : Bytes

-- The constructor that takes a key
abbrev pub integrity_with_key : Bytes → MessageIntegrityAttr
integrity_with_key key = record { key = key; hmac = [] }

unfoldable pub set_key : Bytes → MessageIntegrityAttr → MessageIntegrityAttr
set_key key a = record a { key = key }

unfoldable pub take_digest : ℕ → MessageIntegrityAttr → Option Bytes → Bool × MessageIntegrityAttr
take_digest size a none = (false, a)
take_digest size a (some digest) =
    if not (length digest == size) then (false, a) else (true, record a { hmac = digest })

unfoldable pub compute : Hmac → Bool → Bytes → MessageIntegrityAttr → Bool × MessageIntegrityAttr
unfolding take_digest
compute hmac_of is_sha256 message a =
    if length a.key == 0
    then (false, a)
    else take_digest (expected_size is_sha256) a (hmac_of a.key message)

unfoldable pub encode_integrity : Bool → MessageIntegrityAttr → Bytes → Outcome (Bool × Bytes)
encode_integrity is_sha256 a buf =
    if not (length a.hmac == expected_size is_sha256)
    then done (false, buf)
    else if ltb (length buf) (attr_header_size + expected_size is_sha256)
    then done (false, buf)
    else (do
      b1 ← write_header (integrity_type is_sha256) (expected_size is_sha256) buf
      b2 ← store attr_header_size a.hmac b1
      return_true b2)

unfoldable pub decode_integrity : Bool → Bytes → Outcome (Option MessageIntegrityAttr)
decode_integrity is_sha256 buf =
    if not (length buf == expected_size is_sha256)
    then done none
    else done (some (record { key = []; hmac = buf }))

pub integrity_written :
    (is_sha256 : Bool) (a : MessageIntegrityAttr) (buf : Bytes)
    → length a.hmac ≡ expected_size is_sha256
    → encode_integrity is_sha256 a buf ≡ put_tlv (integrity_type is_sha256) a.hmac buf
unfolding encode_integrity
integrity_written true a buf e =
    rw right_size (guarded_raw 0x1c 32 a.hmac buf (omega arith) (omega arith) e refl)
  where
    right_size : (length a.hmac == 32) ≡ true
    right_size = ground arith
integrity_written false a buf e =
    rw right_size (guarded_raw 0x08 20 a.hmac buf (omega arith) (omega arith) e refl)
  where
    right_size : (length a.hmac == 20) ≡ true
    right_size = ground arith

-- For either hash and a span of any size: where the key is not empty and the HMAC of the message
-- has the size of the hash, computing succeeds, the digest is then written as it is, or false is
-- answered and nothing written if it does not fit, and the bytes decode to the digest with no key.
pub integrity_round_trip :
    (hmac_of : Hmac) (is_sha256 : Bool) (message : Bytes) (a : MessageIntegrityAttr)
    (digest buf : Bytes)
    → a.key ≢ []
    → hmac_of a.key message ≡ some digest
    → length digest ≡ expected_size is_sha256
    → (compute hmac_of is_sha256 message a ≡ (true, record a { hmac = digest }))
      × (encode_integrity is_sha256 (record a { hmac = digest }) buf
          ≡ put_tlv (integrity_type is_sha256) digest buf)
      × (decode_integrity is_sha256 digest ≡ done (some (record { key = []; hmac = digest })))
unfolding compute decode_integrity
integrity_round_trip hmac_of is_sha256 message a digest buf key e size = (
  rw (e, size, ==_refl (expected_size is_sha256)) (ground arith),
  integrity_written is_sha256 (record a { hmac = digest }) buf size,
  rw (size, ==_refl (expected_size is_sha256)),
)
