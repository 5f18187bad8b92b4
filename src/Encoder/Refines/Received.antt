-- ===== src/Encoder/Refines/Received.antt =====
-- A receiver of a message with a message integrity and a fingerprint: what it finds, and what it
-- computes from the bytes that it got.
use libstunxx.Common.{
  ℕ, ◌+◌, ◌-◌, ◌≤◌, ◌≡◌, ◌≢◌, sym, ap, ◌∙◌, Bool, true, some, List, [], ◌∷◌, ◌++◌, arith, length,
  take, IsU16, All,
}
use libstunxx.Memory.{Bytes, done}
use libstunxx.Stun.Endian.{Endian}
use libstunxx.Attr.Words.{fingerprint_type, fingerprint_of, decode_fingerprint}
use libstunxx.Attr.Integrity.{
  Hmac, MessageIntegrityAttr, integrity_type, expected_size, decode_integrity,
}
use libstunxx.Stun.Header.{StunHeader}
use libstunxx.Table.{AttrHeader}
use libstunxx.Decoder.{Decoder, parse, get_attribute, new_decoder}
use libstunxx.Decoder.Walk.{note_all}
use libstunxx.Decoder.Exact.{note_all-header, same_decoder}
use libstunxx.Decoder.Parse.{entering}
use libstunxx.Encoder.Reads.{parse-message, header_of}
use libstunxx.Encoder.{Encoder, new_encoder}
use libstunxx.Encoder.Message.{message, Item, FitsItem, body, headers, wire_header}
use libstunxx.Encoder.Calls.{items_of, Piece, run}
use libstunxx.Encoder.Refines.Answers.{trues}
use libstunxx.Encoder.Refines.Final.{protected, protected_items, protected_items-All}
use libstunxx.Encoder.Refines.Checks.{
  IsPlain, finds_integrity, finds_fingerprint, checked_bytes, takes_checked,
}
use libstunxx.Encoder.Refines.Protected.{run-protected}

entered_length :
    (hs : List AttrHeader) (buf : Bytes) (type : ℕ) (tid : Bytes) (items : List Item)
    → (note_all hs (entering buf (header_of type tid items))).header.msg_length
      ≡ length (body items)
unfolding entering new_decoder
entered_length hs buf type tid items =
    ap (λ (h : StunHeader). h.msg_length)
      (note_all-header hs (entering buf (header_of type tid items)))

module _ (e : Endian) (type : ℕ) (tid : Bytes) (ps : List Piece) (is_sha256 : Bool)
    (digest rest buf : Bytes) (ht : IsU16 type) (htid : length tid ≡ 12)
    (fits : All FitsItem (items_of ps)) (size : length digest ≡ expected_size is_sha256)
    (short : IsU16 (length (body (protected_items type tid ps is_sha256 digest))))
    (plain : All (IsPlain is_sha256) (items_of ps))
    (bytes : buf ≡ message type tid (protected_items type tid ps is_sha256 digest) ++ rest) where
  -- What the decoder of a buffer with such a message finds in it.
  pub received :
      (d : Decoder) × (parse buf ≡ done (some d))
      × (get_attribute (integrity_type is_sha256) (decode_integrity is_sha256) d
          ≡ done (some (record { key = []; hmac = digest })))
      × (get_attribute fingerprint_type (decode_fingerprint e) d
          ≡ done (some (fingerprint_of (take (20 + d.header.msg_length - 8) buf))))
  received =
      let (d1, parsed1, integrity_found) =
        finds_integrity e type tid ps is_sha256 digest rest ht htid all_fit short plain size in
      let (d2, parsed2, fingerprint_found) =
        finds_fingerprint e type tid ps is_sha256 digest rest ht htid all_fit short plain size in
      (
        d,
        ap parse bytes ∙ parsed,
        ap (get_attribute (integrity_type is_sha256) (decode_integrity is_sha256))
              (same_decoder whole d d1 parsed parsed1)
            ∙ integrity_found,
        ap (get_attribute fingerprint_type (decode_fingerprint e))
              (same_decoder whole d d2 parsed parsed2)
            ∙ fingerprint_found
            ∙ ap (λ b. done (some (fingerprint_of b))) (sym covered),
      )
    where
      items : List Item
      items = protected_items type tid ps is_sha256 digest

      all_fit : All FitsItem items
      all_fit = protected_items-All type tid ps is_sha256 digest fits size

      whole : Bytes
      whole = message type tid items ++ rest

      d : Decoder
      d = note_all (headers 20 items) (entering whole (header_of type tid items))

      parsed : parse whole ≡ done (some d)
      parsed = parse-message type tid items rest ht htid all_fit short

      covered :
          take (20 + d.header.msg_length - 8) buf
          ≡ checked_bytes e type tid ps is_sha256 digest rest ht htid all_fit short plain size
      covered =
          ap (λ n. take n buf) {x = 20 + d.header.msg_length - 8} {y = 12 + length (body items)}
            (omega (arith, entered_length (headers 20 items) whole type tid items))
          ∙ ap (take (12 + length (body items))) bytes
          ∙ takes_checked e type tid ps is_sha256 digest rest ht htid all_fit short plain size

module _ (e e' : Endian) (type : ℕ) (tid : Bytes) (ps : List Piece) (hmac_of : Hmac)
    (is_sha256 : Bool) (a : MessageIntegrityAttr) (digest buf : Bytes) where
  -- A message of attributes, a message integrity, a fingerprint and a finalize is accepted by its
  -- receiver, whose platform may have the other byte order: where the buffer has room for all of it, the
  -- type and those of the attributes have 16 bits, the attributes have 16-bit lengths and are shorter
  -- than 65536 bytes with the two digests, none of them has the type of a digest, the transaction id has
  -- 12 bytes, the key is not empty and the HMAC, under it, of the attributes behind a header that counts
  -- them and the integrity is a digest of the size of the hash: the calls all answer true; the buffer
  -- parses; the message integrity found in it is that digest; and the fingerprint found in it is the one
  -- of the bytes that the length in the header gives, without the last eight.
  pub get_attribute-protected :
      IsU16 type
      → length tid ≡ 12
      → All FitsItem (items_of ps)
      → a.key ≢ []
      → hmac_of a.key (
          wire_header type (length (body (items_of ps)) + (4 + expected_size is_sha256)) tid
          ++ body (items_of ps))
        ≡ some digest
      → length digest ≡ expected_size is_sha256
      → IsU16 (length (body (protected_items type tid ps is_sha256 digest)))
      → 20 + length (body (protected_items type tid ps is_sha256 digest)) ≤ length buf
      → All (IsPlain is_sha256) (items_of ps)
      → (enc : Encoder) × (d : Decoder) × (run e
            (protected ps hmac_of is_sha256 a)
            (new_encoder e type tid buf)
          ≡ done (trues ps (true ∷ true ∷ true ∷ []), enc))
        × (parse enc.buffer ≡ done (some d))
        × (get_attribute (integrity_type is_sha256) (decode_integrity is_sha256) d
            ≡ done (some (record { key = []; hmac = digest })))
        × (get_attribute fingerprint_type (decode_fingerprint e') d
            ≡ done (some (fingerprint_of (take (20 + d.header.msg_length - 8) enc.buffer))))
  get_attribute-protected ht htid fits ne e_digest size short room plain =
      let (enc, ran, written, _) =
        run-protected e type tid ps hmac_of is_sha256 a digest buf ht htid fits ne e_digest size
          short room in
      let (d, parsed, integrity_found, fingerprint_found) =
        received e' type tid ps is_sha256 digest _ enc.buffer ht htid fits size short plain
          written in
      (enc, d, ran, parsed, integrity_found, fingerprint_found)
