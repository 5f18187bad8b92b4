-- ===== src/Encoder/Finds.antt =====
-- What the decoder answers for the attributes of a message.
use libstunxx.Common.{
  ℕ, ◌+◌, ◌-◌, ◌≡◌, ◌≢◌, refl, sym, ap, ◌∙◌, Option, some, List, [], ◌∷◌, ◌++◌, arith, length,
  length-append, append_assoc, IsU16, pad4, drop, take, drop-append, take-append, All,
}
use libstunxx.Memory.{Bytes, Outcome, done}
use libstunxx.Stun.Wire.{be16, zeros}
use libstunxx.Table.{AttrHeader, new_table}
use libstunxx.Decoder.{Decoder, new_decoder, parse, get_attribute}
use libstunxx.Decoder.Walk.{note_all}
use libstunxx.Decoder.Parse.{accepted, Accepted, entering}
use libstunxx.Decoder.Exact.{Contents, note_all-attributes, note_all-Contents}
use libstunxx.Decoder.Access.{get_attribute-first}
use libstunxx.Encoder.Message.{
  Item, FitsItem, body, wire_header, message, headers, length-body_cons, body-append,
}
use libstunxx.Encoder.Reads.{parse-message, Chain-message, header_of}

pub headers-append :
    (off : ℕ) (xs ys : List Item)
    → headers off (xs ++ ys) ≡ headers off xs ++ headers (off + length (body xs)) ys
headers-append off [] ys = ap (λ n. headers n ys) (omega arith)
headers-append off (x ∷ xs) ys =
    ap (λ t. record { type = x.type; len = length x.value; offset = off + 4 } ∷ t)
      (headers-append (off + (4 + pad4 (length x.value))) xs ys
        ∙ ap (λ n. headers (off + (4 + pad4 (length x.value))) xs ++ headers n ys)
            (omega (arith, length-body_cons x xs)))

pub headers-other :
    (type off : ℕ) (xs : List Item)
    → All (λ (x : Item). x.type ≢ type) xs
    → All (λ (h : AttrHeader). h.type ≢ type) (headers off xs)
headers-other type off [] others = others
headers-other type off (x ∷ xs) (other, others) =
    (other, headers-other type (off + (4 + pad4 (length x.value))) xs others)

-- The headers that `parse` records for a message.
pub Accepted-found :
    (type : ℕ) (tid : Bytes) (items : List Item) (rest : Bytes)
    → length tid ≡ 12
    → All FitsItem items
    → (a : Accepted (message type tid items ++ rest) (
        note_all
          (headers 20 items)
          (entering (message type tid items ++ rest) (header_of type tid items))))
    → a.found ≡ headers 20 items
unfolding entering new_decoder new_table
Accepted-found type tid items rest htid fits a = ap (drop 10) (
    sym a.recorded
    ∙ note_all-attributes (headers 20 items) (message type tid items ++ rest)
        (20 + length (body items)) (20 + length (body items))
        (entering (message type tid items ++ rest) (header_of type tid items))
        (Chain-message type tid items rest htid fits))

-- The contents of the decoder of a message.
pub parse-Contents :
    (type : ℕ) (tid : Bytes) (items : List Item) (rest : Bytes)
    → IsU16 type
    → length tid ≡ 12
    → All FitsItem items
    → IsU16 (length (body items))
    → (d : Decoder) × (parse (message type tid items ++ rest) ≡ done (some d))
      × Contents d (message type tid items ++ rest) (header_of type tid items) (headers 20 items)
parse-Contents type tid items rest ht htid fits short = (
  note_all (headers 20 items)
      (entering (message type tid items ++ rest) (header_of type tid items)),
  parse-message type tid items rest ht htid fits short,
  note_all-Contents (headers 20 items) (message type tid items ++ rest) (20 + length (body items))
      (20 + length (body items)) (header_of type tid items)
      (Chain-message type tid items rest htid fits),
)

-- The value of an item stands in the message where its header says.
pub value_at :
    (type : ℕ) (tid : Bytes) (before : List Item) (i : Item) (after : List Item) (rest : Bytes)
    → length tid ≡ 12
    → take
        (length i.value)
        (drop (20 + length (body before) + 4) (message type tid (before ++ i ∷ after) ++ rest))
      ≡ i.value
value_at type tid before i after rest htid =
    ap (λ b. take (length i.value) (drop (20 + length (body before) + 4) b)) parts
    ∙ ap (take (length i.value)) (
        drop-append (20 + length (body before) + 4) front (i.value ++ behind) (
          omega (
            arith,
            htid,
            length-append {0} (wire ++ body before) head_bytes,
            length-append {0} wire (body before),
          )))
    ∙ take-append (length i.value) i.value behind refl
  where
    wire : Bytes
    wire = wire_header type (length (body (before ++ i ∷ after))) tid

    head_bytes : Bytes
    head_bytes = be16 i.type ++ be16 (length i.value)

    front : Bytes
    front = (wire ++ body before) ++ head_bytes

    behind : Bytes
    behind = zeros (pad4 (length i.value) - length i.value) ++ (body after ++ rest)

    parts : message type tid (before ++ i ∷ after) ++ rest ≡ front ++ (i.value ++ behind)
    parts = simp (body-append, append_assoc)

module _ {A : Type 0} where
  -- Parsing a message that contains an attribute, with 16-bit types and lengths, a 12-byte
  -- transaction id and less than 65536 bytes in all, gives a decoder which, asked for the type of
  -- that attribute, decodes exactly the bytes of its value, without the padding; the type is not 0
  -- and no attribute before it has the same type.
  pub get_attribute-parse :
      (decode_value : Bytes → Outcome (Option A)) (type : ℕ) (tid : Bytes) (before : List Item)
      (i : Item) (after : List Item) (rest : Bytes)
      → IsU16 type
      → length tid ≡ 12
      → All FitsItem (before ++ i ∷ after)
      → IsU16 (length (body (before ++ i ∷ after)))
      → i.type ≢ 0
      → All (λ (x : Item). x.type ≢ i.type) before
      → (d : Decoder) × (parse (message type tid (before ++ i ∷ after) ++ rest) ≡ done (some d))
        × (get_attribute i.type decode_value d ≡ decode_value i.value)
  unfolding entering new_decoder new_table
  get_attribute-parse decode_value type tid before i after rest ht htid fits short ne others = (
    d,
    parsed,
    get_attribute-first decode_value buf d a (headers 20 before) h (headers next after) found ne
          (headers-other i.type 20 before others)
        ∙ ap decode_value (value_at type tid before i after rest htid),
  )
    where
      items : List Item
      items = before ++ i ∷ after

      buf : Bytes
      buf = message type tid items ++ rest

      d : Decoder
      d = note_all (headers 20 items) (entering buf (header_of type tid items))

      parsed : parse buf ≡ done (some d)
      parsed = parse-message type tid items rest ht htid fits short

      a : Accepted buf d
      a = accepted buf d parsed

      h : AttrHeader
      h = record { type = i.type; len = length i.value; offset = 20 + length (body before) + 4 }

      next : ℕ
      next = 20 + length (body before) + (4 + pad4 (length i.value))

      found : a.found ≡ headers 20 before ++ h ∷ headers next after
      found = Accepted-found type tid items rest htid fits a ∙ headers-append 20 before (i ∷ after)
