-- ===== src/Encoder/Refines/Checks.antt =====
-- What a receiver finds in a message with a message integrity and a fingerprint.
use libstunxx.Common.{
  ℕ, ◌+◌, ◌≡◌, ◌≢◌, sym, ap, ◌∙◌, Bool, true, false, some, List, [], ◌∷◌, ◌++◌, arith, length,
  length-append, append_assoc, take, take-append, IsU16, All, All-append, ==_refl,
}
use mathlib.Core.Path.{subst}
use libstunxx.Memory.{Bytes, done}
use libstunxx.Stun.Wire.{be32, tlv}
use libstunxx.Stun.Endian.{Endian}
use libstunxx.Crc.{compute_fingerprint}
use libstunxx.Crc.Laws.{compute_fingerprint-lt}
use libstunxx.Attr.Words.{
  fingerprint_type, fingerprint_of, decode_fingerprint, fingerprint_round_trip,
}
use libstunxx.Attr.Integrity.{integrity_type, expected_size, decode_integrity}
use libstunxx.Decoder.{Decoder, parse, get_attribute}
use libstunxx.Encoder.Message.{Item, FitsItem, body, message, wire_header}
use libstunxx.Encoder.Holds.{body-snoc}
use libstunxx.Encoder.Finds.{get_attribute-parse}
use libstunxx.Encoder.Calls.{items_of, Piece}
use libstunxx.Encoder.Refines.Answers.{signed_by}
use libstunxx.Encoder.Refines.Final.{
  checked_by, signed_items, protected_items, length-protected_items,
}

-- An attribute that is neither of the two digests.
abbrev pub IsPlain : Bool → Item → Type 0
IsPlain is_sha256 i = (i.type ≢ integrity_type is_sha256) × (i.type ≢ fingerprint_type)

not_integrity :
    (is_sha256 : Bool) (items : List Item)
    → All (IsPlain is_sha256) items
    → All (λ (i : Item). i.type ≢ integrity_type is_sha256) items
not_integrity is_sha256 [] all = tt
not_integrity is_sha256 (i ∷ items) ((other, _), all) = (other, not_integrity is_sha256 items all)

not_fingerprint :
    (is_sha256 : Bool) (items : List Item)
    → All (IsPlain is_sha256) items
    → All (λ (i : Item). i.type ≢ fingerprint_type) items
not_fingerprint is_sha256 [] all = tt
not_fingerprint is_sha256 (i ∷ items) ((_, other), all) =
    (other, not_fingerprint is_sha256 items all)

two_types :
    (is_sha256 : Bool)
    → (integrity_type is_sha256 ≢ 0) × (integrity_type is_sha256 ≢ fingerprint_type)
two_types true = (omega arith, omega arith)
two_types false = (omega arith, omega arith)

decode_integrity-digest :
    (is_sha256 : Bool) (digest : Bytes)
    → length digest ≡ expected_size is_sha256
    → decode_integrity is_sha256 digest ≡ done (some (record { key = []; hmac = digest }))
unfolding decode_integrity
decode_integrity-digest is_sha256 digest size = rw (size, ==_refl (expected_size is_sha256))

decode_fingerprint-compute :
    (e : Endian) (msg : Bytes)
    → decode_fingerprint e (be32 (compute_fingerprint msg)) ≡ done (some (fingerprint_of msg))
unfolding fingerprint_of compute_fingerprint
decode_fingerprint-compute e msg =
    (fingerprint_round_trip e (fingerprint_of msg) [] (compute_fingerprint-lt msg)).1

module _ (e : Endian) (type : ℕ) (tid : Bytes) (ps : List Piece) (is_sha256 : Bool)
    (digest rest : Bytes) (ht : IsU16 type) (htid : length tid ≡ 12)
    (fits : All FitsItem (protected_items type tid ps is_sha256 digest))
    (short : IsU16 (length (body (protected_items type tid ps is_sha256 digest))))
    (plain : All (IsPlain is_sha256) (items_of ps))
    (size : length digest ≡ expected_size is_sha256) where
  pub finds_integrity :
      (d : Decoder) × (parse
          (message type tid (protected_items type tid ps is_sha256 digest) ++ rest)
        ≡ done (some d))
      × (get_attribute (integrity_type is_sha256) (decode_integrity is_sha256) d
          ≡ done (some (record { key = []; hmac = digest })))
  finds_integrity =
      let (d, parsed, found) =
        get_attribute-parse (decode_integrity is_sha256) type tid (items_of ps)
          (signed_by is_sha256 digest) (checked_by type tid (signed_items ps is_sha256 digest) ∷ [])
          rest ht htid (subst (All FitsItem) order fits)
          (subst (λ is. IsU16 (length (body is))) order short) (two_types is_sha256).0
          (not_integrity is_sha256 (items_of ps) plain) in
      (
        d,
        ap (λ is. parse (message type tid is ++ rest)) order ∙ parsed,
        found ∙ decode_integrity-digest is_sha256 digest size,
      )
    where
      order :
          protected_items type tid ps is_sha256 digest
          ≡ items_of ps
            ++ signed_by is_sha256 digest
              ∷ checked_by type tid (signed_items ps is_sha256 digest)
              ∷ []
      order =
          append_assoc (items_of ps) (signed_by is_sha256 digest ∷ [])
            (checked_by type tid (signed_items ps is_sha256 digest) ∷ [])

  -- The bytes in front of the fingerprint
  pub checked_bytes : Bytes
  checked_bytes =
      wire_header type (length (body (signed_items ps is_sha256 digest)) + 8) tid
      ++ body (signed_items ps is_sha256 digest)

  pub finds_fingerprint :
      (d : Decoder) × (parse
          (message type tid (protected_items type tid ps is_sha256 digest) ++ rest)
        ≡ done (some d))
      × (get_attribute fingerprint_type (decode_fingerprint e) d
          ≡ done (some (fingerprint_of checked_bytes)))
  unfolding checked_bytes
  finds_fingerprint =
      let (d, parsed, found) =
        get_attribute-parse (decode_fingerprint e) type tid (signed_items ps is_sha256 digest)
          (checked_by type tid (signed_items ps is_sha256 digest)) [] rest ht htid fits short
          (omega arith)
          (All-append (λ (i : Item). i.type ≢ fingerprint_type) (items_of ps)
            (signed_by is_sha256 digest ∷ []) (not_fingerprint is_sha256 (items_of ps) plain)
            ((two_types is_sha256).1, tt)) in
      (d, parsed, found ∙ decode_fingerprint-compute e checked_bytes)

  -- They are all but the last eight of the message.
  pub takes_checked :
      take
        (12 + length (body (protected_items type tid ps is_sha256 digest)))
        (message type tid (protected_items type tid ps is_sha256 digest) ++ rest)
      ≡ checked_bytes
  unfolding checked_bytes
  takes_checked =
      ap (take (12 + length (body (protected_items type tid ps is_sha256 digest)))) split
      ∙ take-append (12 + length (body (protected_items type tid ps is_sha256 digest)))
          checked_bytes _
          (omega (
            arith,
            htid,
            length-protected_items type tid ps is_sha256 digest,
            length-append {0} tid (body (signed_items ps is_sha256 digest)),
          ))
    where
      items : List Item
      items = signed_items ps is_sha256 digest

      last : Bytes
      last = tlv fingerprint_type (checked_by type tid items).value

      split :
          message type tid (protected_items type tid ps is_sha256 digest) ++ rest
          ≡ checked_bytes ++ (last ++ rest)
      split =
          ap
            (λ n.
              (wire_header type n tid ++ body (items ++ checked_by type tid items ∷ [])) ++ rest)
            (length-protected_items type tid ps is_sha256 digest)
          ∙ ap (λ b. (wire_header type (length (body items) + 8) tid ++ b) ++ rest)
              (body-snoc items (checked_by type tid items))
          ∙ ap (λ b. b ++ rest)
              (sym
                (append_assoc (wire_header type (length (body items) + 8) tid) (body items) last))
          ∙ append_assoc checked_bytes last rest
