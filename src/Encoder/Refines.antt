-- ===== src/Encoder/Refines.antt =====
-- The encoder does what the abstract encoder does: what relates the two, and what the calls share.
pub mod Steps
pub mod Run
pub mod Sealed
pub mod Answers
pub mod Final
pub mod Protected
pub mod Checks
pub mod Received
use libstunxx.Common.{
  ℕ, zero, suc, ◌^◌, ◌+◌, ◌-◌, ◌≤◌, ◌<◌, ◌≡◌, ◌⊎◌, inl, inr, refl, sym, ap, ap₂, ◌∙◌, Bool, true,
  false, not, ◌&&◌, Option, none, some, List, [], ◌∷◌, ◌++◌, arith, length, length-append,
  append_assoc, pad4, drop, take, ltb, ◌==◌, if◌then◌else◌, u16, IsU16, Bool-cases, ltb→lt, ltb→le,
  lt→ltb, le→ltb, if_false, if_true, ==_refl,
}
use mathlib.Core.Path.{subst}
use libstunxx.Memory.{Bytes, Outcome, done, ◌>>=◌, fetch}
use libstunxx.Memory.Laws.{fetch-behind}
use libstunxx.Stun.Wire.{be32, tlv, put_tlv}
use libstunxx.Stun.Endian.{Endian, byteswap16}
use libstunxx.Crc.{compute_fingerprint}
use libstunxx.Crc.Laws.{compute_fingerprint-lt}
use libstunxx.Attr.Words.{
  fingerprint_of, encode_fingerprint, fingerprint_type, fingerprint_round_trip,
}
use libstunxx.Attr.Integrity.{
  Hmac, MessageIntegrityAttr, integrity_type, expected_size, compute, encode_integrity,
  integrity_written,
}
use libstunxx.Encoder.{
  Encoder, new_encoder, put_length, stun_size, encode_into, add_attribute, add_integrity,
  add_fingerprint, finalize,
}
use libstunxx.Encoder.Message.{Item, body, wire_header, length-tlv}
use libstunxx.Encoder.Holds.{
  Holds, new_encoder-Holds, Holds-size, Holds-grown, grown, encode_into-grown,
}
use libstunxx.Encoder.Finish.{put_length_lem, with_length, with_length-Holds}
use libstunxx.Encoder.Calls.{
  Piece, item_of, Call, attribute, integrity, fingerprint, finish, call, run, Draft, blank_draft,
  with_item, header_for, with_header, digested, digest_for, signed_with, checked_with, answer,
  answers,
}

-- The buffer of the encoder is the header, the attributes and the rest of the abstract one.
pub record Refines (e : Endian) (type : ℕ) (tid : Bytes) (enc : Encoder) (d : Draft) : Type 0 where
  pub holds : Holds e type tid enc d.items d.front d.free
  pub signed : enc.has_message_integrity ≡ d.signed
  pub checked : enc.has_fingerprint ≡ d.checked

-- A digest to add, or none, and what the attribute answers, agree.
abbrev pub Computes : ℕ → Bytes → Bytes → Option Bytes → Bool × MessageIntegrityAttr → Type 0
Computes size key hmac o r =
    ((o ≡ none) × (r ≡ (false, record { key = key; hmac = hmac })))
    ⊎ ((digest : Bytes) × (o ≡ some digest)
        × (r ≡ (true, record { key = key; hmac = digest }))
        × (length digest ≡ size))

pub compute-Computes :
    (hmac_of : Hmac) (is_sha256 : Bool) (key hmac msg : Bytes)
    → Computes
        (expected_size is_sha256)
        key
        hmac
        (digest_for hmac_of (expected_size is_sha256) key msg)
        (compute hmac_of is_sha256 msg (record { key = key; hmac = hmac }))
unfolding compute
compute-Computes hmac_of is_sha256 [] hmac msg = inl (refl, refl)
compute-Computes hmac_of is_sha256 (k ∷ key) hmac msg = found (hmac_of (k ∷ key) msg) refl
  where
    some_key : (length (k ∷ key) == 0) ≡ false
    some_key = ground arith

    found :
        (o : Option Bytes)
        → hmac_of (k ∷ key) msg ≡ o
        → Computes
            (expected_size is_sha256)
            (k ∷ key)
            hmac
            (digest_for hmac_of (expected_size is_sha256) (k ∷ key) msg)
            (compute hmac_of is_sha256 msg (record { key = k ∷ key; hmac = hmac }))
    found none e = inl (rw (digest_for, e), rw (some_key, e))
    found (some digest) e = elim (Bool-cases (length digest == expected_size is_sha256)) [
      | inl right ↦
          inr (digest, rw (digest_for, e, right), rw (some_key, e, right), ground (arith, right))
      | inr wrong ↦ inl (rw (digest_for, e, wrong), rw (some_key, e, wrong))
    ]

module _ {e : Endian} {type : ℕ} {tid : Bytes} {enc : Encoder} {d : Draft}
    (k : Refines e type tid enc d) (ht : IsU16 type) (htid : length tid ≡ 12) where
  pub room_test : (n : ℕ) → ltb (length enc.buffer) (enc.offset + n) ≡ ltb (length d.free) n
  room_test n = elim (Bool-cases (ltb (length d.free) n)) [
    | inl short ↦ rw short (
        lt→ltb (length enc.buffer) (enc.offset + n)
          (omega (arith, Holds-size k.holds, ltb→lt (length d.free) n short)))
    | inr fits ↦ rw fits (
        le→ltb (length enc.buffer) (enc.offset + n)
          (omega (arith, Holds-size k.holds, ltb→le (length d.free) n fits)))
  ]

  -- The encoder under the header of a message with `n` bytes more.
  pub headed : ℕ → Encoder
  headed n = with_length k.holds ht htid (length (body d.items) + n)

  pub put_length-headed : (n : ℕ) → put_length e (stun_size enc + n) enc ≡ done (headed n)
  unfolding headed stun_size
  put_length-headed n =
      put_length_lem k.holds ht htid (stun_size enc + n)
      ∙ ap
          (λ v. done (record enc {
            stun_header = record enc.stun_header { msg_length = byteswap16 e v };
            buffer = wire_header type v tid ++ (body d.items ++ d.free);
          }))
          {x = u16 (stun_size enc + n)} {y = u16 (length (body d.items) + n)}
          (omega (arith, k.holds.position))

  pub headed-Refines : (n : ℕ) → Refines e type tid (headed n) (with_header type tid n d)
  unfolding headed
  headed-Refines n = record {
    holds = with_length-Holds k.holds ht htid (length (body d.items) + n);
    signed = k.signed;
    checked = k.checked;
  }

  pub fetch-headed :
      (n : ℕ) → fetch 0 (headed n).offset (headed n).buffer ≡ done (digested type tid n d)
  unfolding headed
  fetch-headed n =
      ap (fetch 0 enc.offset) (sym (append_assoc (header_for type tid n d) (body d.items) d.free))
      ∙ fetch-behind 0 enc.offset [] (digested type tid n d) d.free refl
          (rw length-append (omega (arith, k.holds.position, htid)))

  pub add_item :
      (i : Item) (encode : Bytes → Outcome (Bool × Bytes))
      → ((span : Bytes) → encode span ≡ put_tlv i.type i.value span)
      → 4 + pad4 (length i.value) ≤ length d.free
      → (enc' : Encoder) × (encode_into (4 + pad4 (length i.value)) encode enc ≡ done (true, enc'))
        × Refines e type tid enc' (with_item i d)
  add_item i encode writes room = (
    grown enc (d.front ++ body d.items) (tlv i.type i.value) d.free,
    encode_into-grown k.holds i encode writes (omega (arith, room, Holds-size k.holds)),
    record { holds = Holds-grown k.holds i; signed = k.signed; checked = k.checked },
  )

pub sizes : (is_sha256 : Bool) → (expected_size is_sha256 ≡ 32) ⊎ (expected_size is_sha256 ≡ 20)
sizes true = inl refl
sizes false = inr refl
