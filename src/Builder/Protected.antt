-- ===== src/Builder/Protected.antt =====
-- A builder that is given attributes, a message integrity, a fingerprint, and finalize.
use libstunxx.Common.{
  ℕ, ◌+◌, ◌-◌, ◌≤◌, ◌≡◌, ◌≢◌, refl, sym, ap, ◌∙◌, Bool, true, some, List, [], ◌∷◌, ◌++◌, arith,
  length, take, drop, IsU16, All,
}
use mathlib.Core.Path.{subst}
use libstunxx.Memory.{Bytes, done}
use libstunxx.Stun.Types.{StunMethod, StunClass}
use libstunxx.Stun.Endian.{Endian}
use libstunxx.Attr.Words.{fingerprint_type, fingerprint_of, decode_fingerprint}
use libstunxx.Attr.Integrity.{
  Hmac, MessageIntegrityAttr, integrity_type, expected_size, decode_integrity,
}
use libstunxx.Decoder.{Decoder, parse, get_attribute}
use libstunxx.Encoder.Message.{FitsItem, body, message, wire_header}
use libstunxx.Encoder.Calls.{items_of, Piece, Call, Draft, blank_draft, answer, answers}
use libstunxx.Encoder.Refines.Answers.{trues}
use libstunxx.Encoder.Refines.Final.{
  protected, protected_items, final, answers-protected, final_bytes,
}
use libstunxx.Encoder.Refines.Checks.{IsPlain}
use libstunxx.Encoder.Refines.Received.{received}
use libstunxx.Builder.{Builder, new_builder}
use libstunxx.Builder.Calls.{build, build-chained, chained, chain_of}
use libstunxx.Builder.MessageType.{message_type, message_type-IsU16}

AllTrue : List Bool → Type 0
AllTrue = All (λ ok. ok ≡ true)

trues-AllTrue : (ps : List Piece) (oks : List Bool) → AllTrue oks → AllTrue (trues ps oks)
unfolding AllTrue
trues-AllTrue [] oks all = all
trues-AllTrue (p ∷ ps) oks all = (refl, trues-AllTrue ps oks all)

-- Where the encoder answers true to all calls, the builder carries out all of them.
chained-answers :
    (type : ℕ) (tid : Bytes) (cs : List Call) (d : Draft)
    → AllTrue (answers type tid cs d).0
    → chained type tid cs (true, d) ≡ (true, (answers type tid cs d).1)
unfolding AllTrue answers
chained-answers type tid [] d all = refl
chained-answers type tid (c ∷ cs) d (ok, all) =
    ap (λ b. chained type tid cs (b, (answer type tid c d).1)) ok
    ∙ chained-answers type tid cs (answer type tid c d).1 all

module _ (e e' : Endian) (m : StunMethod) (c : StunClass) (tid : Bytes) (ps : List Piece)
    (hmac_of : Hmac) (is_sha256 : Bool) (a : MessageIntegrityAttr) (digest buf : Bytes) where
  -- A chain of calls of a builder, which adds attributes, a message integrity and a fingerprint and
  -- finalizes, makes a message that its receiver accepts: where the buffer has room for all of it, the
  -- attributes have 16-bit types and lengths and are shorter than 65536 bytes with the two digests, no
  -- other attribute has the type of a digest, the transaction id has 12 bytes, the key is not empty and
  -- the HMAC, under it, of the attributes behind a header that counts them and the integrity is a digest
  -- of the size of the hash: the builder is valid at the end; its buffer is the message of the method
  -- and the class with the attributes, that digest and the fingerprint; it parses; the message integrity
  -- found in it is that digest; and the fingerprint found in it, on a platform of either byte order, is
  -- the one of the bytes that the length in the header gives, without the last eight.
  pub build-protected :
      length tid ≡ 12
      → All FitsItem (items_of ps)
      → a.key ≢ []
      → hmac_of a.key (
          wire_header
            (message_type m c)
            (length (body (items_of ps)) + (4 + expected_size is_sha256))
            tid
          ++ body (items_of ps))
        ≡ some digest
      → length digest ≡ expected_size is_sha256
      → IsU16 (length (body (protected_items (message_type m c) tid ps is_sha256 digest)))
      → 20 + length (body (protected_items (message_type m c) tid ps is_sha256 digest)) ≤ length buf
      → All (IsPlain is_sha256) (items_of ps)
      → (b : Builder) × (d : Decoder) × (build e
            (protected ps hmac_of is_sha256 a)
            (new_builder e m c tid buf)
          ≡ done b)
        × (b.valid ≡ true)
        × (b.encoder.buffer
            ≡ message
                (message_type m c)
                tid
                (protected_items (message_type m c) tid ps is_sha256 digest)
              ++ drop
                  (20 + length (body (protected_items (message_type m c) tid ps is_sha256 digest)))
                  buf)
        × (parse b.encoder.buffer ≡ done (some d))
        × (get_attribute (integrity_type is_sha256) (decode_integrity is_sha256) d
            ≡ done (some (record { key = []; hmac = digest })))
        × (get_attribute fingerprint_type (decode_fingerprint e') d
            ≡ done (some (fingerprint_of (take (20 + d.header.msg_length - 8) b.encoder.buffer))))
  unfolding AllTrue
  build-protected htid fits ne e_digest size short room plain =
      let (b, built, valid, bytes, _) =
        build-chained e m c tid buf (protected ps hmac_of is_sha256 a) htid (omega arith) in
      let written : b.encoder.buffer
          ≡ message (message_type m c) tid
              (protected_items (message_type m c) tid ps is_sha256 digest)
            ++ drop
                (20 + length (body (protected_items (message_type m c) tid ps is_sha256 digest)))
                buf =
        bytes
        ∙ ap (λ (x : Bool × Draft). x.1.front ++ (body x.1.items ++ x.1.free)) ends
        ∙ final_bytes (message_type m c) tid ps hmac_of is_sha256 a digest buf size short room in
      let (d, parsed, integrity_found, fingerprint_found) =
        received e' (message_type m c) tid ps is_sha256 digest _ b.encoder.buffer
          (message_type-IsU16 m c) htid fits size short plain written in
      (
        b,
        d,
        built,
        valid ∙ ap (λ (x : Bool × Draft). x.0) ends,
        written,
        parsed,
        integrity_found,
        fingerprint_found,
      )
    where
      told :
          answers
            (message_type m c)
            tid
            (protected ps hmac_of is_sha256 a)
            (blank_draft (take 20 buf) (drop 20 buf))
          ≡ (
            trues ps (true ∷ true ∷ true ∷ []),
            final (message_type m c) tid ps hmac_of is_sha256 a digest buf size,
          )
      told =
          answers-protected (message_type m c) tid ps hmac_of is_sha256 a digest buf size short room
            ne e_digest

      ends :
          chain_of m c tid (protected ps hmac_of is_sha256 a) buf
          ≡ (true, final (message_type m c) tid ps hmac_of is_sha256 a digest buf size)
      ends =
          chained-answers (message_type m c) tid (protected ps hmac_of is_sha256 a)
            (blank_draft (take 20 buf) (drop 20 buf))
            (subst (λ (x : List Bool × Draft). AllTrue x.0) (sym told)
              (trues-AllTrue ps _ (refl, (refl, (refl, tt)))))
          ∙ ap (λ (x : List Bool × Draft). (true, x.1)) told
