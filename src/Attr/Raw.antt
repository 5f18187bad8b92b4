-- ===== src/Attr/Raw.antt =====
-- include/stunxx/attributes/ReservationAttr.hpp, UserHashAttr.hpp: RESERVATION-TOKEN and USERHASH,
-- which carry an array of a fixed number of bytes.
use libstunxx.Common.{
  ℕ, ◌+◌, ◌≡◌, refl, Bool, false, not, Option, none, some, arith, ltb, ◌==◌, if◌then◌else◌, length,
}
use libstunxx.Memory.{Bytes, Outcome, done, ◌>>=◌, store, fetch}
use libstunxx.Memory.Laws.{fetch-whole}
use libstunxx.Stun.Wire.{attr_header_size, write_header, put_tlv}
use libstunxx.Attr.Concept.{StunAttribute}
use libstunxx.Attr.Frame.{guarded_raw, return_true}

abbrev pub reservation_token_type : ℕ
reservation_token_type = 0x0022

-- A std::array of eight bytes.
pub record ReservationTokenAttr : Type 0 where
  pub token : Bytes

unfoldable pub decode_reservation : Bytes → Outcome (Option ReservationTokenAttr)
decode_reservation buf =
    if not (length buf == 8)
    then done none
    else (do token ← fetch 0 8 buf; done (some (record { token = token })))

unfoldable pub encode_reservation : ReservationTokenAttr → Bytes → Outcome (Bool × Bytes)
encode_reservation a buf =
    if ltb (length buf) (attr_header_size + 8) then done (false, buf) else (do
      b1 ← write_header reservation_token_type 8 buf
      b2 ← store attr_header_size a.token b1
      return_true b2)

abbrev pub reservation_attribute : StunAttribute ReservationTokenAttr
reservation_attribute = record {
  type = reservation_token_type;
  length_of = λ a. 8;
  encode = encode_reservation;
}

abbrev pub user_hash_type : ℕ
user_hash_type = 0x001e

abbrev pub hash_size : ℕ
hash_size = 32

-- A std::array of 32 bytes.
pub record UserHashAttr : Type 0 where
  pub hash : Bytes

unfoldable pub decode_user_hash : Bytes → Outcome (Option UserHashAttr)
decode_user_hash buf =
    if not (length buf == hash_size)
    then done none
    else (do hash ← fetch 0 hash_size buf; done (some (record { hash = hash })))

unfoldable pub encode_user_hash : UserHashAttr → Bytes → Outcome (Bool × Bytes)
encode_user_hash a buf =
    if ltb (length buf) (attr_header_size + hash_size) then done (false, buf) else (do
      b1 ← write_header user_hash_type hash_size buf
      b2 ← store attr_header_size a.hash b1
      return_true b2)

abbrev pub user_hash_attribute : StunAttribute UserHashAttr
user_hash_attribute = record {
  type = user_hash_type;
  length_of = λ a. hash_size;
  encode = encode_user_hash;
}

-- On a span of any size, a token of eight bytes is written as it is, or false is answered and
-- nothing written if it does not fit; and the bytes decode to the token.
pub reservation_round_trip :
    (a : ReservationTokenAttr) (buf : Bytes)
    → length a.token ≡ 8
    → (encode_reservation a buf ≡ put_tlv reservation_token_type a.token buf)
      × (decode_reservation a.token ≡ done (some a))
unfolding encode_reservation decode_reservation
reservation_round_trip a buf e = (
  guarded_raw 0x22 8 a.token buf (omega arith) (omega arith) e refl,
  rw (e, fetch-whole 8 a.token e),
)

-- On a span of any size, a hash of 32 bytes is written as it is, or false is answered and nothing
-- written if it does not fit; and the bytes decode to the hash.
pub user_hash_round_trip :
    (a : UserHashAttr) (buf : Bytes)
    → length a.hash ≡ 32
    → (encode_user_hash a buf ≡ put_tlv user_hash_type a.hash buf)
      × (decode_user_hash a.hash ≡ done (some a))
unfolding encode_user_hash decode_user_hash
user_hash_round_trip a buf e = (
  guarded_raw 0x1e 32 a.hash buf (omega arith) (omega arith) e refl,
  rw (e, fetch-whole 32 a.hash e),
)
