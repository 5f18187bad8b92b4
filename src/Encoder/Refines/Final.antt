-- ===== src/Encoder/Refines/Final.antt =====
-- The abstract encoder after attributes, a message integrity, a fingerprint and finalize.
use libstunxx.Common.{
  All, All-append, ℕ, ◌+◌, ◌≤◌, ◌≡◌, ◌≢◌, refl, sym, ap, ap₂, ◌∙◌, Bool, true, false, some, List,
  [], ◌∷◌, ◌++◌, arith, length, length-append, length-drop, append_assoc, drop-drop, take, drop,
  u16, IsU16,
}
use libstunxx.Memory.{Bytes}
use libstunxx.Stun.Wire.{be32, tlv}
use libstunxx.Crc.{compute_fingerprint}
use libstunxx.Attr.Words.{fingerprint_type}
use libstunxx.Attr.Integrity.{Hmac, MessageIntegrityAttr, integrity_type, expected_size}
use libstunxx.Encoder.Message.{Item, FitsItem, body, message, wire_header, length-tlv}
use libstunxx.Encoder.Holds.{body-snoc}
use libstunxx.Encoder.Calls.{
  items_of, Piece, Call, integrity, fingerprint, finish, Draft, blank_draft, answers,
}
use libstunxx.Encoder.Refines.{sizes}
use libstunxx.Encoder.Refines.Answers.{
  attributes_then, trues, signed_by, with_items, signed_draft, checked_draft, answers-attributes,
  answers-end,
}

abbrev pub protected : List Piece → Hmac → Bool → MessageIntegrityAttr → List Call
protected ps hmac_of is_sha256 a =
    attributes_then ps (integrity hmac_of is_sha256 a ∷ fingerprint ∷ finish ∷ [])

-- The fingerprint of the attributes behind a header that counts it too.
abbrev pub checked_by : ℕ → Bytes → List Item → Item
checked_by type tid items = record {
  type = fingerprint_type;
  value = be32 (compute_fingerprint (wire_header type (length (body items) + 8) tid ++ body items));
}

abbrev pub signed_items : List Piece → Bool → Bytes → List Item
signed_items ps is_sha256 digest = items_of ps ++ signed_by is_sha256 digest ∷ []

abbrev pub protected_items : ℕ → Bytes → List Piece → Bool → Bytes → List Item
protected_items type tid ps is_sha256 digest =
    signed_items ps is_sha256 digest ++ checked_by type tid (signed_items ps is_sha256 digest) ∷ []

drop_four :
    (k l m n : ℕ) (xs : Bytes) → drop n (drop m (drop l (drop k xs))) ≡ drop (k + l + m + n) xs
drop_four k l m n xs =
    ap (λ t. drop n (drop m t)) (drop-drop l k xs)
    ∙ ap (drop n) (drop-drop m (k + l) xs)
    ∙ drop-drop n (k + l + m) xs

integrity_type-IsU16 : (is_sha256 : Bool) → IsU16 (integrity_type is_sha256)
integrity_type-IsU16 true = omega arith
integrity_type-IsU16 false = omega arith

pub length-protected_items :
    (type : ℕ) (tid : Bytes) (ps : List Piece) (is_sha256 : Bool) (digest : Bytes)
    → length (body (protected_items type tid ps is_sha256 digest))
      ≡ length (body (signed_items ps is_sha256 digest)) + 8
length-protected_items type tid ps is_sha256 digest = omega (
  arith,
  ap length (
      body-snoc (signed_items ps is_sha256 digest)
        (checked_by type tid (signed_items ps is_sha256 digest))),
  length-append {0} (body (signed_items ps is_sha256 digest))
      (tlv fingerprint_type (checked_by type tid (signed_items ps is_sha256 digest)).value),
)

pub protected_items-All :
    (type : ℕ) (tid : Bytes) (ps : List Piece) (is_sha256 : Bool) (digest : Bytes)
    → All FitsItem (items_of ps)
    → length digest ≡ expected_size is_sha256
    → All FitsItem (protected_items type tid ps is_sha256 digest)
protected_items-All type tid ps is_sha256 digest fits size =
    All-append FitsItem (signed_items ps is_sha256 digest) _
      (All-append FitsItem (items_of ps) _ fits
        ((integrity_type-IsU16 is_sha256, omega (arith, size, sizes is_sha256)), tt))
      ((omega arith, omega arith), tt)

module _ (type : ℕ) (tid : Bytes) (ps : List Piece) (hmac_of : Hmac) (is_sha256 : Bool)
    (a : MessageIntegrityAttr) (digest buf : Bytes)
    (size : length digest ≡ expected_size is_sha256) where
  -- The abstract encoder with the attributes, and at the end.
  filled : Draft
  filled = with_items (items_of ps) (blank_draft (take 20 buf) (drop 20 buf))

  pub final : Draft
  final = checked_draft type tid (signed_draft type tid is_sha256 digest filled)

  signed_size :
      length (body (signed_items ps is_sha256 digest))
      ≡ length (body (items_of ps)) + (4 + expected_size is_sha256)
  signed_size = omega (
    arith,
    ap length (body-snoc (items_of ps) (signed_by is_sha256 digest)),
    length-append {0} (body (items_of ps)) (tlv (integrity_type is_sha256) digest),
    length-tlv (integrity_type is_sha256) digest,
    size,
    sizes is_sha256,
  )

  module _ (short : IsU16 (length (body (protected_items type tid ps is_sha256 digest))))
      (room : 20 + length (body (protected_items type tid ps is_sha256 digest)) ≤ length buf) where
    pub answers-protected :
        a.key ≢ []
        → hmac_of a.key (
            wire_header type (length (body (items_of ps)) + (4 + expected_size is_sha256)) tid
            ++ body (items_of ps))
          ≡ some digest
        → answers type tid
            (protected ps hmac_of is_sha256 a)
            (blank_draft (take 20 buf) (drop 20 buf))
          ≡ (trues ps (true ∷ true ∷ true ∷ []), final)
    unfolding with_items filled final
    answers-protected ne e_digest =
        answers-attributes type tid ps _ (blank_draft (take 20 buf) (drop 20 buf)) (
          omega (
            arith,
            room,
            length-protected_items type tid ps is_sha256 digest,
            signed_size,
            length-drop {0} 20 buf,
          ))
        ∙ ap (λ (x : List Bool × Draft). (trues ps x.0, x.1))
            (answers-end type tid hmac_of is_sha256 a filled digest
              (omega (
                arith,
                room,
                length-protected_items type tid ps is_sha256 digest,
                signed_size,
                length-drop {0} 20 buf,
                length-drop {0} (length (body (items_of ps))) (drop 20 buf),
              ))
              ne
              (ap (λ n. hmac_of a.key (wire_header type n tid ++ body (items_of ps)))
                  {x = u16 (length (body (items_of ps)) + (4 + expected_size is_sha256))}
                  (omega (
                    arith,
                    short,
                    length-protected_items type tid ps is_sha256 digest,
                    signed_size,
                  ))
                ∙ e_digest)
              size refl)

    final_items : final.items ≡ protected_items type tid ps is_sha256 digest
    unfolding with_items filled final signed_draft checked_draft
    final_items =
        ap
          (λ n.
            signed_items ps is_sha256 digest
            ++ record {
              type = fingerprint_type;
              value = be32 (
                  compute_fingerprint
                    (wire_header type n tid ++ body (signed_items ps is_sha256 digest)));
            }
              ∷ [])
          {x = u16 (length (body (signed_items ps is_sha256 digest)) + 8)}
          (omega (arith, short, length-protected_items type tid ps is_sha256 digest))

    final_front :
        final.front
        ≡ wire_header type (length (body (protected_items type tid ps is_sha256 digest))) tid
    unfolding with_items filled final signed_draft checked_draft
    final_front =
        ap (λ n. wire_header type n tid)
          {x = u16 (length (body (signed_items ps is_sha256 digest)) + 8)}
          (omega (arith, short, length-protected_items type tid ps is_sha256 digest))

    final_free :
        final.free ≡ drop (20 + length (body (protected_items type tid ps is_sha256 digest))) buf
    unfolding with_items filled final signed_draft checked_draft
    final_free =
        drop_four 20 (length (body (items_of ps))) (length (tlv (integrity_type is_sha256) digest))
          8 buf
        ∙ ap (λ n. drop n buf)
            {y = 20 + length (body (protected_items type tid ps is_sha256 digest))}
            (omega (
              arith,
              length-protected_items type tid ps is_sha256 digest,
              signed_size,
              length-tlv (integrity_type is_sha256) digest,
              size,
              sizes is_sha256,
            ))

    pub final_bytes :
        final.front ++ (body final.items ++ final.free)
        ≡ message type tid (protected_items type tid ps is_sha256 digest)
          ++ drop (20 + length (body (protected_items type tid ps is_sha256 digest))) buf
    final_bytes =
        ap₂ (λ f t. f ++ t) final_front (ap₂ (λ is t. body is ++ t) final_items final_free)
        ∙ sym (
            append_assoc
              (wire_header type (length (body (protected_items type tid ps is_sha256 digest))) tid)
              (body (protected_items type tid ps is_sha256 digest)) _)
