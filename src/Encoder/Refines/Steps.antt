-- ===== src/Encoder/Refines/Steps.antt =====
-- Each call of the encoder against the abstract encoder's answer.
use libstunxx.Common.{
  ℕ, ◌^◌, ◌+◌, ◌<◌, ◌≡◌, inl, inr, refl, sym, ap, ap₂, ◌∙◌, Bool, true, false, not, ◌&&◌, some,
  List, arith, length, pad4, ltb, IsU16, Bool-cases, ltb→le, if_false, if_true,
}
use mathlib.Core.Path.{subst}
use libstunxx.Memory.{Bytes, Outcome, done}
use libstunxx.Stun.Wire.{be32}
use libstunxx.Stun.Endian.{Endian}
use libstunxx.Crc.{compute_fingerprint}
use libstunxx.Crc.Laws.{compute_fingerprint-lt}
use libstunxx.Attr.Words.{
  fingerprint_of, encode_fingerprint, fingerprint_type, fingerprint_round_trip,
}
use libstunxx.Attr.Integrity.{
  Hmac, MessageIntegrityAttr, integrity_type, expected_size, encode_integrity, integrity_written,
}
use libstunxx.Encoder.{
  Encoder, stun_size, encode_into, add_attribute, add_integrity, add_fingerprint, finalize,
}
use libstunxx.Encoder.Message.{Item, length-tlv}
use libstunxx.Encoder.Holds.{Holds}
use libstunxx.Encoder.Calls.{
  Piece, item_of, Call, attribute, integrity, fingerprint, finish, call, Draft, with_header,
  digested, signed_with, checked_with, answer,
}
use libstunxx.Encoder.Refines.{
  sizes, Refines, compute-Computes, room_test, headed, put_length-headed, headed-Refines,
  fetch-headed, add_item,
}

-- A step: the encoder gives the answer, and its state still refines the abstract one.
pub Step : Endian → ℕ → Bytes → Outcome (Bool × Encoder) → Bool × Draft → Type 0
Step e type tid made told =
    (enc' : Encoder) × (made ≡ done (told.0, enc')) × Refines e type tid enc' told.1

stepped :
    {e : Endian} {type : ℕ} {tid : Bytes} {made : Outcome (Bool × Encoder)} {told : Bool × Draft}
    (o : Bool) (enc' : Encoder) (d' : Draft)
    → made ≡ done (o, enc')
    → told ≡ (o, d')
    → Refines e type tid enc' d'
    → Step e type tid made told
unfolding Step
stepped {e} {type} {tid} o enc' d' m t k = (
  enc',
  m ∙ ap (λ t. done (t.0, enc')) (sym t),
  subst (λ t. Refines e type tid enc' t.1) (sym t) k,
)

flagged :
    {e : Endian} {type : ℕ} {tid : Bytes} {enc : Encoder} {items : List Item} {front free : Bytes}
    (signed checked : Bool)
    → Holds e type tid enc items front free
    → Holds e type tid
        (record enc { has_message_integrity = signed; has_fingerprint = checked })
        items
        front
        free
flagged signed checked h = record {
  split = h.split;
  front_size = h.front_size;
  position = h.position;
  typed = h.typed;
  marked = h.marked;
  identified = h.identified;
}

module _ {e : Endian} {type : ℕ} {tid : Bytes} {enc : Encoder} {d : Draft}
    (k : Refines e type tid enc d) (ht : IsU16 type) (htid : length tid ≡ 12) where
  attribute-Step :
      (p : Piece) → Step e type tid (call e (attribute p) enc) (answer type tid (attribute p) d)
  unfolding Step call answer add_attribute
  attribute-Step p =
      rw
        (
          p.law.reports,
          room_test k ht htid (4 + pad4 (length p.value)),
          length-tlv p.attr.type p.value,
        )
        (elim (Bool-cases (ltb (length d.free) (4 + pad4 (length p.value)))) [
          | inl short ↦ (enc, rw short, rw short k)
          | inr fits ↦
              let (enc', added, k') =
                add_item k ht htid (item_of p) (p.attr.encode p.attribute) p.law.writes
                  (ltb→le (length d.free) _ fits) in
              (enc', rw (fits, added), rw fits k')
        ])

  finish-Step : Step e type tid (call e finish enc) (answer type tid finish d)
  unfolding Step call answer finalize
  finish-Step = elim (Bool-cases (not d.checked && not d.signed)) [
    | inl plain ↦ (
      headed k ht htid 0,
      rw (same ∙ plain, zero_more, put_length-headed k ht htid 0),
      rw plain (headed-Refines k ht htid 0),
    )
    | inr shut ↦ (enc, rw (same ∙ shut), rw shut k)
  ]
    where
      same :
          (not enc.has_fingerprint && not enc.has_message_integrity)
          ≡ (not d.checked && not d.signed)
      same = ap₂ (λ c s. not c && not s) k.checked k.signed

      zero_more : stun_size enc ≡ stun_size enc + 0
      zero_more = omega arith

  fingerprint-Step : Step e type tid (call e fingerprint enc) (answer type tid fingerprint d)
  unfolding call answer add_fingerprint fingerprint_of compute_fingerprint
  fingerprint-Step = elim (Bool-cases d.checked) [
    | inl again ↦ stepped false enc d (if_true _ _ (k.checked ∙ again)) (if_true _ _ again) k
    | inr first ↦ elim (Bool-cases (ltb (length d.free) 8)) [
      | inl short ↦
          stepped false enc d
            (if_false _ _ (k.checked ∙ first) ∙ if_true _ _ (room_test k ht htid 8 ∙ short))
            (if_false _ _ first ∙ if_true _ _ short) k
      | inr fits ↦
          let (enc', added, k') =
            add_item (headed-Refines k ht htid 8) ht htid
              (record { type = fingerprint_type; value = be32 crc })
              (encode_fingerprint e (fingerprint_of (digested type tid 8 d)))
              (λ span.
                (fingerprint_round_trip e (fingerprint_of (digested type tid 8 d)) span word).0)
              (ltb→le (length d.free) _ fits) in
          stepped true (record enc' { has_fingerprint = true })
            (checked_with crc (with_header type tid 8 d)).1
            (if_false _ _ (k.checked ∙ first)
              ∙ if_false _ _ (room_test k ht htid 8 ∙ fits)
              ∙ rw (put_length-headed k ht htid 8, fetch-headed k ht htid 8, added))
            (if_false _ _ first ∙ if_false _ _ fits)
            (record {
              holds = flagged enc'.has_message_integrity true k'.holds;
              signed = k'.signed;
              checked = refl;
            })
    ]
  ]
    where
      crc : ℕ
      crc = compute_fingerprint (digested type tid 8 d)

      word : compute_fingerprint (digested type tid 8 d) < 2 ^ 32
      word = compute_fingerprint-lt (digested type tid 8 d)

  integrity-Step :
      (hmac_of : Hmac) (is_sha256 : Bool) (a : MessageIntegrityAttr)
      → Step e type tid
          (call e (integrity hmac_of is_sha256 a) enc)
          (answer type tid (integrity hmac_of is_sha256 a) d)
  unfolding call answer add_integrity
  integrity-Step hmac_of is_sha256 a = elim (Bool-cases (ltb (length d.free) n)) [
    | inl short ↦ stepped false enc d (rw (room_test k ht htid n, short)) (if_true _ _ short) k
    | inr fits ↦ elim (compute-Computes hmac_of is_sha256 a.key a.hmac (digested type tid n d)) [
      | inl (nothing, failed) ↦
          stepped false (headed k ht htid n) (with_header type tid n d)
            (rw (
              room_test k ht htid n,
              fits,
              put_length-headed k ht htid n,
              fetch-headed k ht htid n,
              failed,
            ))
            (if_false _ _ fits
              ∙ ap (λ o. signed_with (integrity_type is_sha256) o (with_header type tid n d))
                  nothing)
            (headed-Refines k ht htid n)
      | inr (digest, some_digest, computed, size) ↦
          let (enc', added, k') =
            add_item (headed-Refines k ht htid n) ht htid
              (record { type = integrity_type is_sha256; value = digest })
              (encode_integrity is_sha256 (record { key = a.key; hmac = digest }))
              (λ span.
                integrity_written is_sha256 (record { key = a.key; hmac = digest }) span size)
              (omega (arith, ltb→le (length d.free) n fits, size, sizes is_sha256)) in
          stepped true (record enc' { has_message_integrity = true })
            (signed_with (integrity_type is_sha256) (some digest) (with_header type tid n d)).1
            (rw (
              room_test k ht htid n,
              fits,
              put_length-headed k ht htid n,
              fetch-headed k ht htid n,
              computed,
              ap
                    (λ m.
                      encode_into m
                        (encode_integrity is_sha256 (record { key = a.key; hmac = digest }))
                        (headed k ht htid n))
                    {x = n} {y = 4 + pad4 (length digest)} (omega (arith, size, sizes is_sha256))
                  ∙ added,
            ))
            (if_false _ _ fits
              ∙ ap (λ o. signed_with (integrity_type is_sha256) o (with_header type tid n d))
                  some_digest)
            (record {
              holds = flagged true enc'.has_fingerprint k'.holds;
              signed = refl;
              checked = k'.checked;
            })
    ]
  ]
    where
      n : ℕ
      n = 4 + expected_size is_sha256

pub call-Step :
    {e : Endian} {type : ℕ} {tid : Bytes} {enc : Encoder} {d : Draft}
    → Refines e type tid enc d
    → IsU16 type
    → length tid ≡ 12
    → (c : Call)
    → (enc' : Encoder) × (call e c enc ≡ done ((answer type tid c d).0, enc'))
      × Refines e type tid enc' (answer type tid c d).1
unfolding Step
call-Step k ht htid (attribute p) = attribute-Step k ht htid p
call-Step k ht htid (integrity hmac_of is_sha256 a) = integrity-Step k ht htid hmac_of is_sha256 a
call-Step k ht htid fingerprint = fingerprint-Step k ht htid
call-Step k ht htid finish = finish-Step k ht htid
