-- ===== src/Encoder/Refines/Protected.antt =====
-- The message that most clients send: attributes, a message integrity, a fingerprint, and finalize.
use libstunxx.Common.{
  ℕ, ◌+◌, ◌≤◌, ◌≡◌, ◌≢◌, sym, ap, ◌∙◌, Bool, true, some, List, [], ◌∷◌, ◌++◌, arith, length, drop,
  IsU16, All,
}
use mathlib.Core.Path.{subst}
use libstunxx.Memory.{Bytes, done}
use libstunxx.Stun.Endian.{Endian}
use libstunxx.Attr.Integrity.{Hmac, MessageIntegrityAttr, expected_size}
use libstunxx.Decoder.{parse}
use libstunxx.Decoder.Walk.{note_all}
use libstunxx.Decoder.Parse.{entering}
use libstunxx.Encoder.{Encoder, new_encoder}
use libstunxx.Encoder.Message.{FitsItem, body, headers, message, wire_header}
use libstunxx.Encoder.Reads.{parse-message, header_of}
use libstunxx.Encoder.Calls.{items_of, Piece, run, Draft}
use libstunxx.Encoder.Refines.Final.{
  protected, protected_items, protected_items-All, answers-protected, final_bytes,
}
use libstunxx.Encoder.Refines.Answers.{trues}
use libstunxx.Encoder.Refines.Run.{run-answers}

module _ (e : Endian) (type : ℕ) (tid : Bytes) (ps : List Piece) (hmac_of : Hmac) (is_sha256 : Bool)
    (a : MessageIntegrityAttr) (digest buf : Bytes) where
  -- A message of attributes, a message integrity, a fingerprint and a finalize: where the buffer has
  -- room for all of it, the type and those of the attributes have 16 bits, the attributes have 16-bit
  -- lengths and are shorter than 65536 bytes with the two digests, the transaction id has 12 bytes, the
  -- key is not empty and the HMAC, under it, of the attributes behind a header that counts them and the
  -- integrity is a digest of the size of the hash: every call answers true; the buffer then is the
  -- message of the attributes, that digest, and the fingerprint of all before it behind a header that
  -- counts the fingerprint too, in front of what the buffer had there; and it parses to a decoder with
  -- exactly these attributes.
  pub run-protected :
      IsU16 type
      → length tid ≡ 12
      → All FitsItem (items_of ps)
      → a.key ≢ []
      → hmac_of a.key (
          wire_header type (length (body (items_of ps)) + (4 + expected_size is_sha256)) tid
          ++ body (items_of ps))
        ≡ some digest
      → length digest ≡ expected_size is_sha256
      → IsU16 (length (body (protected_items type tid ps is_sha256 digest)))
      → 20 + length (body (protected_items type tid ps is_sha256 digest)) ≤ length buf
      → (enc : Encoder) × (run e (protected ps hmac_of is_sha256 a) (new_encoder e type tid buf)
          ≡ done (trues ps (true ∷ true ∷ true ∷ []), enc))
        × (enc.buffer
            ≡ message type tid (protected_items type tid ps is_sha256 digest)
              ++ drop (20 + length (body (protected_items type tid ps is_sha256 digest))) buf)
        × (parse enc.buffer
            ≡ done (
                some (
                  note_all (headers 20 (protected_items type tid ps is_sha256 digest)) (
                    entering enc.buffer
                      (header_of type tid (protected_items type tid ps is_sha256 digest))))))
  run-protected ht htid fits ne e_digest size short room =
      let (enc, ran, bytes, _, _, _) =
        run-answers e type tid (protected ps hmac_of is_sha256 a) buf ht htid (omega arith) in
      let written : enc.buffer
          ≡ message type tid (protected_items type tid ps is_sha256 digest)
            ++ drop (20 + length (body (protected_items type tid ps is_sha256 digest))) buf =
        bytes
        ∙ ap (λ (x : List Bool × Draft). x.1.front ++ (body x.1.items ++ x.1.free))
            (answers-protected type tid ps hmac_of is_sha256 a digest buf size short room ne
              e_digest)
        ∙ final_bytes type tid ps hmac_of is_sha256 a digest buf size short room in
      (
        enc,
        ran
            ∙ ap (λ (x : List Bool × Draft). done (x.0, enc))
                (answers-protected type tid ps hmac_of is_sha256 a digest buf size short room ne
                  e_digest),
        written,
        subst
            (λ b.
              parse b
              ≡ done (
                  some (
                    note_all (headers 20 (protected_items type tid ps is_sha256 digest)) (
                      entering b
                        (header_of type tid (protected_items type tid ps is_sha256 digest))))))
            (sym written)
            (parse-message type tid (protected_items type tid ps is_sha256 digest) _ ht htid
              (protected_items-All type tid ps is_sha256 digest fits size) short),
      )
