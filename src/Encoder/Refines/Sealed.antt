-- ===== src/Encoder/Refines/Sealed.antt =====
-- When the header in front counts all attributes.
use libstunxx.Common.{
  ℕ, zero, suc, ◌+◌, ◌≤◌, ◌≡◌, ◌≢◌, inl, inr, refl, sym, ap, ◌∙◌, Bool, true, false, not, ◌&&◌,
  Option, some, List, [], ◌∷◌, ◌++◌, arith, length, length-append, take, drop, replicate, ltb, u16,
  IsU16, All, Bool-cases, if_false, if_true, pad4,
}
use mathlib.Core.Path.{subst}
use mathlib.Core.Bool.{false≢true}
use libstunxx.Memory.{Bytes, done}
use libstunxx.Stun.Wire.{be32, tlv}
use libstunxx.Stun.Endian.{Endian}
use libstunxx.Crc.{compute_fingerprint}
use libstunxx.Attr.Words.{fingerprint_type}
use libstunxx.Attr.Integrity.{integrity_type, expected_size}
use libstunxx.Decoder.{Decoder, parse, get_attributes}
use libstunxx.Decoder.Exact.{Contents, same_decoder}
use libstunxx.Encoder.Finds.{parse-Contents}
use libstunxx.Encoder.FindsAll.{values_of, decode_values, get_attributes-parse}
use libstunxx.Memory.{Outcome}
use libstunxx.Encoder.{Encoder, new_encoder}
use libstunxx.Encoder.Message.{message, Item, FitsItem, body, headers, wire_header, length-tlv}
use libstunxx.Encoder.Holds.{body-snoc}
use libstunxx.Encoder.Reads.{header_of}
use libstunxx.Encoder.Calls.{
  Call, attribute, integrity, fingerprint, finish, run, Draft, blank_draft, with_item, header_for,
  with_header, digested, digest_for, signed_with, answer, answers,
}
use libstunxx.Encoder.Refines.{compute-Computes, sizes}
use libstunxx.Encoder.Refines.Run.{drafted, run-message}

-- A call after which the header in front counts all attributes: a message integrity or a fingerprint
-- that was added, or finalize without either.
abbrev pub Seals : ℕ → Bytes → Call → Draft → Type 0
Seals type tid (attribute p) d = ⊥
Seals type tid (integrity hmac_of is_sha256 a) d =
    (answer type tid (integrity hmac_of is_sha256 a) d).0 ≡ true
Seals type tid fingerprint d = (answer type tid fingerprint d).0 ≡ true
Seals type tid finish d = (d.signed ≡ false) × (d.checked ≡ false)

Counts : ℕ → Bytes → Draft → Type 0
Counts type tid d = d.front ≡ header_for type tid 0 d

not_added : (x : Bool × Draft) {d : Draft} → x ≡ (false, d) → x.0 ≡ true → ⊥
not_added x e added = false≢true (sym (ap (λ (y : Bool × Draft). y.0) e) ∙ added)

module _ (type : ℕ) (tid : Bytes) where
  -- An attribute behind a header that counts it.
  with_item-Counts :
      (i : Item) (n : ℕ) (d : Draft)
      → 4 + pad4 (length i.value) ≡ n
      → Counts type tid (with_item i (with_header type tid n d))
  unfolding Counts
  with_item-Counts i n d e =
      ap (λ len. wire_header type (u16 len) tid) {x = length (body d.items) + n}
        {y = length (body (d.items ++ i ∷ [])) + 0}
        (omega (
          arith,
          e,
          ap length (body-snoc d.items i),
          length-append {0} (body d.items) (tlv i.type i.value),
          length-tlv i.type i.value,
        ))

  finish-Counts : (d : Draft) → Counts type tid d → Counts type tid (answer type tid finish d).1
  unfolding Counts answer
  finish-Counts d counted = elim (Bool-cases (not d.checked && not d.signed)) [
    | inl plain ↦ rw plain refl
    | inr shut ↦ rw shut counted
  ]

  seal-Counts :
      (c : Call) (d : Draft) → Seals type tid c d → Counts type tid (answer type tid c d).1
  unfolding Counts answer
  seal-Counts (attribute p) d s = absurd s
  seal-Counts finish d (unsigned, unchecked) = rw (unsigned, unchecked) refl
  seal-Counts fingerprint d s = elim (Bool-cases d.checked) [
    | inl again ↦ absurd (not_added _ (if_true _ _ again) s)
    | inr first ↦ elim (Bool-cases (ltb (length d.free) 8)) [
      | inl short ↦ absurd (not_added _ (if_false _ _ first ∙ if_true _ _ short) s)
      | inr fits ↦
          subst (λ (x : Bool × Draft). Counts type tid x.1)
            (sym (if_false _ _ first ∙ if_false _ _ fits))
            (with_item-Counts
              (record {
                type = fingerprint_type;
                value = be32 (compute_fingerprint (digested type tid 8 d));
              })
              8 d (omega arith))
    ]
  ]
  seal-Counts (integrity hmac_of is_sha256 a) d s = elim (Bool-cases (ltb (length d.free) n)) [
    | inl short ↦ absurd (not_added _ (if_true _ _ short) s)
    | inr fits ↦ elim (compute-Computes hmac_of is_sha256 a.key a.hmac (digested type tid n d)) [
      | inl (nothing, _) ↦ absurd (not_added _ (if_false _ _ fits ∙ added nothing) s)
      | inr (digest, some_digest, _, size) ↦
          subst (λ (x : Bool × Draft). Counts type tid x.1)
            (sym (if_false _ _ fits ∙ added some_digest))
            (with_item-Counts (record { type = integrity_type is_sha256; value = digest }) n d
              (omega (arith, size, sizes is_sha256)))
    ]
  ]
    where
      n : ℕ
      n = 4 + expected_size is_sha256

      added :
          {o : Option Bytes}
          → digest_for hmac_of (expected_size is_sha256) a.key (digested type tid n d) ≡ o
          → signed_with
              (integrity_type is_sha256)
              (digest_for hmac_of (expected_size is_sha256) a.key (digested type tid n d))
              (with_header type tid n d)
            ≡ signed_with (integrity_type is_sha256) o (with_header type tid n d)
      added e = ap (λ o. signed_with (integrity_type is_sha256) o (with_header type tid n d)) e

  -- Any number of calls of finalize.
  finishes-Counts :
      (k : ℕ) (d : Draft)
      → Counts type tid d
      → Counts type tid (answers type tid (replicate k finish) d).1
  unfolding answers
  finishes-Counts zero d counted = counted
  finishes-Counts (suc k) d counted =
      finishes-Counts k (answer type tid finish d).1 (finish-Counts d counted)

  answers-append :
      (xs ys : List Call) (d : Draft)
      → (answers type tid (xs ++ ys) d).1 ≡ (answers type tid ys (answers type tid xs d).1).1
  unfolding answers
  answers-append [] ys d = refl
  answers-append (x ∷ xs) ys d = answers-append xs ys (answer type tid x d).1

-- Calls, then one that seals the message, then finalize any number of times.
abbrev pub sealed : List Call → Call → ℕ → List Call
sealed cs c k = cs ++ c ∷ replicate k finish

-- Where a run of calls on a new encoder, of any kind and in any order, ends with one that seals the
-- message and then finalize any number of times, and its attributes, digests included, have 16-bit
-- types and lengths and are shorter than 65536 bytes together, every call answers what the abstract
-- encoder answers, and parsing the buffer gives a decoder over it that has the header of the type, with
-- the length of the attributes; that has recorded, behind the ten blank headers, exactly the headers of
-- those attributes where they stand, in the order of the calls; that reports the types of those which
-- are comprehension-required and not known; and which, asked for all attributes of a type other than 0,
-- decodes the values of exactly those of that type, in order. The type has 16 bits, the transaction id
-- 12 bytes and the buffer 20 bytes at least. A message integrity or a fingerprint seals the message if
-- it is added, and finalize if there is neither.
pub parse-sealed :
    {A : Type 0} (decode_value : Bytes → Outcome (Option A)) (wanted : ℕ) (e : Endian) (type : ℕ)
    (tid : Bytes) (cs : List Call) (c : Call) (k : ℕ) (buf : Bytes)
    → wanted ≢ 0
    → IsU16 type
    → length tid ≡ 12
    → 20 ≤ length buf
    → Seals type tid c (drafted type tid cs buf)
    → All FitsItem (drafted type tid (sealed cs c k) buf).items
    → IsU16 (length (body (drafted type tid (sealed cs c k) buf).items))
    → (enc : Encoder) × (d : Decoder) × (run e (sealed cs c k) (new_encoder e type tid buf)
        ≡ done
            ((answers type tid (sealed cs c k) (blank_draft (take 20 buf) (drop 20 buf))).0, enc))
      × (parse enc.buffer ≡ done (some d))
      × Contents d enc.buffer
          (header_of type tid (drafted type tid (sealed cs c k) buf).items)
          (headers 20 (drafted type tid (sealed cs c k) buf).items)
      × (get_attributes wanted decode_value d
          ≡ decode_values decode_value
              (values_of wanted (drafted type tid (sealed cs c k) buf).items))
unfolding Counts answers
parse-sealed decode_value wanted e type tid cs c k buf ne ht htid room seals fits short =
    let (enc, ran, bytes) = run-message e type tid (sealed cs c k) buf ht htid room short counted in
    let (d, parsed, contents) = parse-Contents type tid items rest ht htid fits short in
    let (d', parsed', values) =
      get_attributes-parse decode_value wanted type tid items rest ht htid fits short ne in
    (
      enc,
      d,
      ran,
      ap parse bytes ∙ parsed,
      subst (λ b. Contents d b (header_of type tid items) (headers 20 items)) (sym bytes) contents,
      ap (get_attributes wanted decode_value)
            (same_decoder (message type tid items ++ rest) d d' parsed parsed')
          ∙ values,
    )
  where
    items : List Item
    items = (drafted type tid (sealed cs c k) buf).items

    rest : Bytes
    rest = (drafted type tid (sealed cs c k) buf).free

    last : Draft
    last = (answer type tid c (drafted type tid cs buf)).1

    counted : Counts type tid (drafted type tid (sealed cs c k) buf)
    counted =
        subst (Counts type tid)
          (sym (
            answers-append type tid cs (c ∷ replicate k finish)
              (blank_draft (take 20 buf) (drop 20 buf))))
          (finishes-Counts type tid k last (seal-Counts type tid c (drafted type tid cs buf) seals))
