-- ===== src/Builder/ReadsBack.antt =====
-- From the builder to getAttribute and getAttributes: an attribute that is added is read back.
use libstunxx.Common.{
  ℕ, ◌+◌, ◌≤◌, ◌≡◌, ◌≢◌, refl, sym, ap, ◌∙◌, List, [], ◌∷◌, ◌++◌, Bool, some, append_assoc, IsByte,
  length, IsU16, All,
}
use libstunxx.Memory.{Bytes, done, done-injective, ◌>>=◌}
use libstunxx.Stun.Types.{StunMethod, StunClass}
use libstunxx.Stun.Endian.{Endian}
use libstunxx.Attr.Concept.{Coded}
use libstunxx.Stun.Header.{StunHeader}
use libstunxx.Attr.XorAddress.{new_xor_address, decode_xor_address}
use libstunxx.Attr.XorAddress.Value.{address_size, stun_address}
use libstunxx.Attr.Catalogue.Structured.{xor_address_coded}
use libstunxx.Decoder.{Decoder, read_fields, parse, get_attribute, get_xor_attribute}
use libstunxx.Decoder.Parse.{accepted}
use libstunxx.Encoder.Reads.{read_fields-wire}
use libstunxx.Encoder.{Encoder}
use libstunxx.Encoder.Message.{Item, FitsItem, body, message, wire_header}
use libstunxx.Encoder.Calls.{items_of, Piece, item_of}
use libstunxx.Encoder.Finds.{get_attribute-parse}
use libstunxx.Builder.{new_builder, finalize}
use libstunxx.Builder.MessageType.{message_type, message_type-IsU16}
use libstunxx.Builder.RoundTrip.{add_all, parse-finalize}

abbrev pub piece_of : Coded → Piece
piece_of c = record {
  Attr = c.Attr;
  attr = c.attr;
  attribute = c.attribute;
  value = c.value;
  law = c.law;
}

items_of-append : (xs ys : List Piece) → items_of (xs ++ ys) ≡ items_of xs ++ items_of ys
items_of-append [] ys = refl
items_of-append (x ∷ xs) ys = ap (λ is. item_of x ∷ is) (items_of-append xs ys)

transaction_id-parse :
    (type : ℕ) (tid : Bytes) (items : List Item) (rest : Bytes) (d : Decoder)
    → IsU16 type
    → length tid ≡ 12
    → IsU16 (length (body items))
    → parse (message type tid items ++ rest) ≡ done (some d)
    → d.header.transaction_id ≡ tid
transaction_id-parse type tid items rest d ht htid short parsed =
    ap (λ (h : StunHeader). h.transaction_id)
      (done-injective (
        sym (accepted (message type tid items ++ rest) d parsed).header_read
        ∙ ap read_fields
            (append_assoc (wire_header type (length (body items)) tid) (body items) rest)
        ∙ read_fields-wire type (length (body items)) tid (body items ++ rest) ht short htid))

-- Adding attributes one after another to a new builder, one of them an attribute of a class that
-- decodes what it encodes, and finalizing, under the conditions under which they fit the buffer and
-- the fields of the message: the buffer parses, and asking the decoder for the type of that
-- attribute, which is not 0 and which no attribute before it has, gives back the attribute; and the
-- decoder has the transaction id.
pub get_attribute-built :
    (e : Endian) (m : StunMethod) (cls : StunClass) (tid buf : Bytes) (before : List Piece)
    (c : Coded) (after : List Piece)
    → length tid ≡ 12
    → All FitsItem (items_of (before ++ piece_of c ∷ after))
    → IsU16 (length (body (items_of (before ++ piece_of c ∷ after))))
    → 20 + length (body (items_of (before ++ piece_of c ∷ after))) ≤ length buf
    → c.attr.type ≢ 0
    → All (λ (x : Item). x.type ≢ c.attr.type) (items_of before)
    → (enc : Encoder) × (d : Decoder) × ((add_all
            (before ++ piece_of c ∷ after)
            (new_builder e m cls tid buf)
          >>= finalize e)
        ≡ done enc)
      × (parse enc.buffer ≡ done (some d))
      × (get_attribute c.attr.type c.decode_of d ≡ done (some c.attribute))
      × (d.header.transaction_id ≡ tid)
get_attribute-built e m cls tid buf before c after htid fits short room ne others =
    let (enc, rest, made, bytes, _) =
      parse-finalize e m cls tid buf (before ++ piece_of c ∷ after) htid fits short room in
    let (d, parsed, found) =
      get_attribute-parse c.decode_of (message_type m cls) tid (items_of before)
        (item_of (piece_of c)) (items_of after) rest (message_type-IsU16 m cls) htid
        (rw split at fits) (rw split at short) ne others in
    (
      enc,
      d,
      made,
      rw (bytes, split) parsed,
      found ∙ c.reads,
      transaction_id-parse (message_type m cls) tid _ rest d (message_type-IsU16 m cls) htid
          (rw split at short) parsed,
    )
  where
    split :
        items_of (before ++ piece_of c ∷ after)
        ≡ items_of before ++ item_of (piece_of c) ∷ items_of after
    split = items_of-append before (piece_of c ∷ after)

module _ (v6 : Bool) (type port : ℕ) (addr tid : Bytes) (ht : IsU16 type) (hp : IsU16 port)
    (ha : All IsByte addr) (hid : All IsByte tid) (htid : length tid ≡ 12)
    (ea : length addr ≡ address_size v6) where
  -- Attributes with the address among them.
  abbrev pub with_address : List Piece → List Piece → List Piece
  with_address before after =
      before ++ piece_of (xor_address_coded v6 type port addr tid ht hp ha hid htid ea) ∷ after

  -- The same for an address of either family with a 16-bit port, which is masked with the transaction
  -- id: added to a builder with the id and read back by the type, with the id that the decoder found in
  -- the message, it is the address that was added.
  pub get_xor_attribute-built :
      (e : Endian) (m : StunMethod) (cls : StunClass) (buf : Bytes) (before after : List Piece)
      → All FitsItem (items_of (with_address before after))
      → IsU16 (length (body (items_of (with_address before after))))
      → 20 + length (body (items_of (with_address before after))) ≤ length buf
      → type ≢ 0
      → All (λ (x : Item). x.type ≢ type) (items_of before)
      → (enc : Encoder) × (d : Decoder) × ((add_all
              (with_address before after)
              (new_builder e m cls tid buf)
            >>= finalize e)
          ≡ done enc)
        × (parse enc.buffer ≡ done (some d))
        × (get_xor_attribute type decode_xor_address d
            ≡ done (some (new_xor_address tid (stun_address v6 port addr))))
  unfolding get_xor_attribute
  get_xor_attribute-built e m cls buf before after fits short room ne others =
      let (enc, d, made, parsed, found, id) =
        get_attribute-built e m cls tid buf before
          (xor_address_coded v6 type port addr tid ht hp ha hid htid ea) after htid fits short room
          ne others in
      (
        enc,
        d,
        made,
        parsed,
        ap (λ t. get_attribute type (λ s. decode_xor_address s t) d) id ∙ found,
      )
