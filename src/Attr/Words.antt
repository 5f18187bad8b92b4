-- ===== src/Attr/Words.antt =====
-- include/stunxx/attributes/FingerprintAttr.hpp, IceControlAttr.hpp: FINGERPRINT, ICE-CONTROLLED and
-- ICE-CONTROLLING, whose numbers are swapped to network order and then copied as they lie in memory.
use libstunxx.Common.{
  ℕ, ◌+◌, bit_xor, ◌≡◌, refl, ap, Bool, false, not, Option, none, some, arith, ltb, ◌==◌,
  if◌then◌else◌, length, IsU16, IsU32, IsU64,
}
use libstunxx.Memory.{Bytes, Outcome, done, ◌>>=◌, store, fetch}
use libstunxx.Stun.Wire.{attr_header_size, write_header, be32, put_tlv}
use libstunxx.Stun.Endian.{
  Endian, byteswap32, byteswap64, object_bytes, load, be64, object_bytes-byteswap32,
  object_bytes-byteswap64, byteswap32-load, byteswap64-load,
}
use libstunxx.Attr.Concept.{StunAttribute}
use libstunxx.Attr.Frame.{guarded_raw, return_true}
use libstunxx.Crc.{crc32_update}

abbrev pub fingerprint_type : ℕ
fingerprint_type = 0x8028

pub record FingerprintAttr : Type 0 where
  pub fingerprint : ℕ

-- FingerprintAttr::compute
unfoldable pub fingerprint_of : Bytes → FingerprintAttr
fingerprint_of msg = record { fingerprint = bit_xor (crc32_update 0 msg) 0x5354_554e }

unfoldable pub decode_fingerprint : Endian → Bytes → Outcome (Option FingerprintAttr)
decode_fingerprint e buf =
    if not (length buf == 4)
    then done none
    else (do net ← fetch 0 4 buf; done (some (record { fingerprint = byteswap32 e (load e net) })))

unfoldable pub encode_fingerprint : Endian → FingerprintAttr → Bytes → Outcome (Bool × Bytes)
encode_fingerprint e a buf =
    if ltb (length buf) (attr_header_size + 4) then done (false, buf) else (do
      b1 ← write_header fingerprint_type 4 buf
      b2 ← store attr_header_size (object_bytes e 4 (byteswap32 e a.fingerprint)) b1
      return_true b2)

pub record IceControlAttr : Type 0 where
  pub tiebreaker : ℕ

unfoldable pub decode_ice_control : Endian → Bytes → Outcome (Option IceControlAttr)
decode_ice_control e buf =
    if not (length buf == 8)
    then done none
    else (do net ← fetch 0 8 buf; done (some (record { tiebreaker = byteswap64 e (load e net) })))

unfoldable pub encode_ice_control : Endian → ℕ → IceControlAttr → Bytes → Outcome (Bool × Bytes)
encode_ice_control e type a buf =
    if ltb (length buf) (attr_header_size + 8) then done (false, buf) else (do
      b1 ← write_header type 8 buf
      b2 ← store attr_header_size (object_bytes e 8 (byteswap64 e a.tiebreaker)) b1
      return_true b2)

abbrev pub ice_control_attribute : Endian → ℕ → StunAttribute IceControlAttr
ice_control_attribute e type = record {
  type = type;
  length_of = λ a. 8;
  encode = encode_ice_control e type;
}

-- On a platform of either byte order and a span of any size, a 32-bit fingerprint is written in
-- network order, or false is answered and nothing written if it does not fit; and the four bytes
-- decode to it.
pub fingerprint_round_trip :
    (e : Endian) (a : FingerprintAttr) (buf : Bytes)
    → IsU32 a.fingerprint
    → (encode_fingerprint e a buf ≡ put_tlv fingerprint_type (be32 a.fingerprint) buf)
      × (decode_fingerprint e (be32 a.fingerprint) ≡ done (some a))
unfolding encode_fingerprint decode_fingerprint fetch
fingerprint_round_trip e a buf h = (
  rw (object_bytes-byteswap32 e a.fingerprint h)
      (guarded_raw 0x8028 4 (be32 a.fingerprint) buf (omega arith) (omega arith) refl refl),
  ap (λ v. done (some (record { fingerprint = v }))) (byteswap32-load e a.fingerprint h),
)

-- On a platform of either byte order and a span of any size, for a 16-bit type, a 64-bit tie-breaker
-- is written in network order, or false is answered and nothing written if it does not fit; and the
-- eight bytes decode to it.
pub ice_control_round_trip :
    (e : Endian) (type : ℕ) (a : IceControlAttr) (buf : Bytes)
    → IsU16 type
    → IsU64 a.tiebreaker
    → (encode_ice_control e type a buf ≡ put_tlv type (be64 a.tiebreaker) buf)
      × (decode_ice_control e (be64 a.tiebreaker) ≡ done (some a))
unfolding encode_ice_control decode_ice_control fetch
ice_control_round_trip e type a buf ht h = (
  rw (object_bytes-byteswap64 e a.tiebreaker h)
      (guarded_raw type 8 (be64 a.tiebreaker) buf ht (omega arith) refl refl),
  ap (λ v. done (some (record { tiebreaker = v }))) (byteswap64-load e a.tiebreaker h),
)
