-- ===== src/Encoder/Refines/Answers.antt =====
-- What the abstract encoder answers to attributes that fit, and to a message integrity, a fingerprint
-- and finalize behind them.
use libstunxx.Common.{
  ℕ, ◌+◌, ◌≤◌, ◌≡◌, ◌≢◌, refl, sym, ap, ap₂, ◌∙◌, Bool, true, false, some, List, [], ◌∷◌, ◌++◌,
  arith, length, length-append, length-drop, append_assoc, append-nil, drop-drop, drop, ==_iff,
  if_false, le→ltb,
}
use libstunxx.Memory.{Bytes}
use libstunxx.Stun.Wire.{tlv}
use libstunxx.Crc.{compute_fingerprint}
use libstunxx.Attr.Integrity.{Hmac, MessageIntegrityAttr, integrity_type, expected_size}
use libstunxx.Encoder.Message.{Item, body, length-tlv}
use libstunxx.Encoder.Calls.{
  items_of, Piece, item_of, Call, attribute, integrity, fingerprint, finish, Draft, with_item,
  with_header, digested, digest_for, signed_with, checked_with, answer, answers,
}
use libstunxx.Encoder.Refines.{sizes}

abbrev pub attributes_then : List Piece → List Call → List Call
attributes_then [] cs = cs
attributes_then (p ∷ ps) cs = attribute p ∷ attributes_then ps cs

abbrev pub trues : List Piece → List Bool → List Bool
trues [] oks = oks
trues (p ∷ ps) oks = true ∷ trues ps oks

abbrev pub signed_by : Bool → Bytes → Item
signed_by is_sha256 digest = record { type = integrity_type is_sha256; value = digest }

unfoldable pub with_items : List Item → Draft → Draft
with_items is d = record d { items = d.items ++ is; free = drop (length (body is)) d.free }

with_items-cons :
    (i : Item) (is : List Item) (d : Draft) → with_items is (with_item i d) ≡ with_items (i ∷ is) d
unfolding with_items
with_items-cons i is d =
    ap₂ (λ xs f. record d { items = xs; free = f }) (append_assoc d.items (i ∷ []) is)
      (drop-drop (length (body is)) (length (tlv i.type i.value)) d.free
        ∙ ap (λ n. drop n d.free) {y = length (body (i ∷ is))}
            (omega (arith, length-append {0} (tlv i.type i.value) (body is))))

module _ (type : ℕ) (tid : Bytes) where
  answers-cons :
      (c : Call) (cs : List Call) (d : Draft) {ok : Bool} {d1 : Draft}
      → answer type tid c d ≡ (ok, d1)
      → answers type tid (c ∷ cs) d ≡ (ok ∷ (answers type tid cs d1).0, (answers type tid cs d1).1)
  unfolding answers
  answers-cons c cs d e =
      ap (λ (x : Bool × Draft). (x.0 ∷ (answers type tid cs x.1).0, (answers type tid cs x.1).1)) e

  answer-attribute :
      (p : Piece) (d : Draft)
      → length (tlv p.attr.type p.value) ≤ length d.free
      → answer type tid (attribute p) d ≡ (true, with_item (item_of p) d)
  unfolding answer
  answer-attribute p d room = if_false _ _ (le→ltb _ _ room)

  pub answers-attributes :
      (ps : List Piece) (cs : List Call) (d : Draft)
      → length (body (items_of ps)) ≤ length d.free
      → answers type tid (attributes_then ps cs) d ≡ (
        trues ps (answers type tid cs (with_items (items_of ps) d)).0,
        (answers type tid cs (with_items (items_of ps) d)).1,
      )
  unfolding with_items
  answers-attributes [] cs d room =
      ap (answers type tid cs) {y = with_items [] d}
        (ap (λ is. record d { items = is }) (sym (append-nil d.items)))
  answers-attributes (p ∷ ps) cs d room =
      answers-cons (attribute p) (attributes_then ps cs) d
        (answer-attribute p d (omega (arith, fits)))
      ∙ ap (λ (x : List Bool × Draft). (true ∷ x.0, x.1))
          (answers-attributes ps cs (with_item (item_of p) d)
              (omega (arith, fits, length-drop {0} (length (tlv p.attr.type p.value)) d.free))
            ∙ ap (λ d1. (trues ps (answers type tid cs d1).0, (answers type tid cs d1).1))
                (with_items-cons (item_of p) (items_of ps) d))
    where
      fits : length (tlv p.attr.type p.value) + length (body (items_of ps)) ≤ length d.free
      fits = omega (arith, room, length-append {0} (tlv p.attr.type p.value) (body (items_of ps)))

  digest_for_lem :
      (hmac_of : Hmac) (size : ℕ) (key msg digest : Bytes)
      → key ≢ []
      → hmac_of key msg ≡ some digest
      → length digest ≡ size
      → digest_for hmac_of size key msg ≡ some digest
  digest_for_lem hmac_of size [] msg digest ne e fits = absurd (ne refl)
  digest_for_lem hmac_of size (k ∷ key) msg digest ne e fits =
      rw (digest_for, e, (==_iff (length digest) size).1 fits)

  answer-integrity :
      (hmac_of : Hmac) (is_sha256 : Bool) (a : MessageIntegrityAttr) (d : Draft) (digest : Bytes)
      → 4 + expected_size is_sha256 ≤ length d.free
      → a.key ≢ []
      → hmac_of a.key (digested type tid (4 + expected_size is_sha256) d) ≡ some digest
      → length digest ≡ expected_size is_sha256
      → answer type tid (integrity hmac_of is_sha256 a) d ≡ (
        true,
        record (with_item
            (signed_by is_sha256 digest)
            (with_header type tid (4 + expected_size is_sha256) d)) { signed = true },
      )
  unfolding answer
  answer-integrity hmac_of is_sha256 a d digest room ne e size =
      if_false _ _ (le→ltb _ _ room)
      ∙ ap
          (λ o.
            signed_with (integrity_type is_sha256) o
              (with_header type tid (4 + expected_size is_sha256) d))
          (digest_for_lem hmac_of (expected_size is_sha256) a.key _ digest ne e size)

  answer-fingerprint :
      (d : Draft)
      → d.checked ≡ false
      → 8 ≤ length d.free
      → answer type tid fingerprint d
        ≡ checked_with (compute_fingerprint (digested type tid 8 d)) (with_header type tid 8 d)
  unfolding answer
  answer-fingerprint d unchecked room = if_false _ _ unchecked ∙ if_false _ _ (le→ltb _ _ room)

  unfoldable pub signed_draft : Bool → Bytes → Draft → Draft
  signed_draft is_sha256 digest d =
      record (with_item (signed_by is_sha256 digest)
        (with_header type tid (4 + expected_size is_sha256) d)) { signed = true }

  unfoldable pub checked_draft : Draft → Draft
  checked_draft d =
      (checked_with (compute_fingerprint (digested type tid 8 d)) (with_header type tid 8 d)).1

  pub answers-end :
      (hmac_of : Hmac) (is_sha256 : Bool) (a : MessageIntegrityAttr) (d : Draft) (digest : Bytes)
      → 4 + expected_size is_sha256 + 8 ≤ length d.free
      → a.key ≢ []
      → hmac_of a.key (digested type tid (4 + expected_size is_sha256) d) ≡ some digest
      → length digest ≡ expected_size is_sha256
      → d.checked ≡ false
      → answers type tid (integrity hmac_of is_sha256 a ∷ fingerprint ∷ finish ∷ []) d
        ≡ (true ∷ true ∷ true ∷ [], checked_draft (signed_draft is_sha256 digest d))
  unfolding signed_draft checked_draft answers answer
  answers-end hmac_of is_sha256 a d digest room ne e size unchecked =
      answers-cons (integrity hmac_of is_sha256 a) (fingerprint ∷ finish ∷ []) d
        (answer-integrity hmac_of is_sha256 a d digest (omega arith) ne e size)
      ∙ ap (λ (x : List Bool × Draft). (true ∷ x.0, x.1))
          (answers-cons fingerprint (finish ∷ []) (signed_draft is_sha256 digest d) (
            answer-fingerprint (signed_draft is_sha256 digest d) unchecked (
              omega (
                arith,
                size,
                sizes is_sha256,
                length-tlv (integrity_type is_sha256) digest,
                length-drop {0} (length (tlv (integrity_type is_sha256) digest)) d.free,
              ))))
