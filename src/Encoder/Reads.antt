-- ===== src/Encoder/Reads.antt =====
-- What the decoder reads from a message that is laid out as the RFC says.
use libstunxx.Common.{
  ℕ, ◌+◌, ◌≡◌, refl, sym, ap, ◌∙◌, some, List, [], ◌++◌, arith, length, length-append, append_assoc,
  IsU16, All,
}
use mathlib.Core.Path.{subst}
use libstunxx.Memory.{Bytes, done}
use libstunxx.Memory.Laws.{fetch-behind}
use libstunxx.Stun.Wire.{be16, be32}
use libstunxx.Stun.Header.{StunHeader, magic_cookie_value}
use libstunxx.Decoder.{parse, read_fields}
use libstunxx.Decoder.Walk.{Chain, note_all}
use libstunxx.Decoder.Parse.{parse_complete, entering}
use libstunxx.Encoder.Message.{
  Item, FitsItem, body, wire_header, message, headers, peek16-behind, peek32-behind, Chain-body,
}

abbrev pub header_of : ℕ → Bytes → List Item → StunHeader
header_of type tid items = record {
  msg_type = type;
  msg_length = length (body items);
  magic_cookie = magic_cookie_value;
  transaction_id = tid;
}

pub read_fields-wire :
    (type len : ℕ) (tid rest : Bytes)
    → IsU16 type
    → IsU16 len
    → length tid ≡ 12
    → read_fields (wire_header type len tid ++ rest)
      ≡ done (record {
        msg_type = type;
        msg_length = len;
        magic_cookie = magic_cookie_value;
        transaction_id = tid;
      })
unfolding read_fields
read_fields-wire type len tid rest ht hl htid = rw (
  peek16-behind 0 type [] (be16 len ++ (be32 magic_cookie_value ++ (tid ++ rest))) refl ht,
  peek16-behind 2 len (be16 type) (be32 magic_cookie_value ++ (tid ++ rest)) refl hl,
  peek32-behind 4 magic_cookie_value (be16 type ++ be16 len) (tid ++ rest) refl (omega arith),
  fetch-behind 8 12 ((be16 type ++ be16 len) ++ be32 magic_cookie_value) tid rest refl (sym htid),
)

regroup :
    (type : ℕ) (tid : Bytes) (items : List Item) (rest : Bytes)
    → message type tid items ++ rest
      ≡ wire_header type (length (body items)) tid ++ (body items ++ rest)
regroup type tid items rest =
    append_assoc (wire_header type (length (body items)) tid) (body items) rest

pub length-message :
    (type : ℕ) (tid : Bytes) (items : List Item) (rest : Bytes)
    → length tid ≡ 12
    → length (message type tid items ++ rest) ≡ 20 + length (body items) + length rest
length-message type tid items rest htid =
    ap length (regroup type tid items rest)
    ∙ omega (
      arith,
      htid,
      length-append {0} tid (body items ++ rest),
      length-append {0} (body items) rest,
    )

-- The attributes of a message are a chain behind its header.
pub Chain-message :
    (type : ℕ) (tid : Bytes) (items : List Item) (rest : Bytes)
    → length tid ≡ 12
    → All FitsItem items
    → Chain
        (message type tid items ++ rest)
        (20 + length (body items))
        20
        (headers 20 items)
        (20 + length (body items))
Chain-message type tid items rest htid fits =
    subst (λ b. Chain b (20 + length (body items)) 20 (headers 20 items) (20 + length (body items)))
      (sym (regroup type tid items rest))
      (Chain-body items (wire_header type (length (body items)) tid) rest 20
        (20 + length (body items)) (omega (arith, htid)) fits (omega arith))

-- A message of a 16-bit type, a 12-byte transaction id and attributes with 16-bit types and lengths,
-- shorter than 65536 bytes in all, is accepted whatever follows it in the buffer; the decoder has
-- its header and exactly its attributes, in order.
pub parse-message :
    (type : ℕ) (tid : Bytes) (items : List Item) (rest : Bytes)
    → IsU16 type
    → length tid ≡ 12
    → All FitsItem items
    → IsU16 (length (body items))
    → parse (message type tid items ++ rest)
      ≡ done (
          some (
            note_all
              (headers 20 items)
              (entering (message type tid items ++ rest) (header_of type tid items))))
parse-message type tid items rest ht htid fits short =
    parse_complete (message type tid items ++ rest) (header_of type tid items) (headers 20 items)
      (20 + length (body items)) (omega (arith, length-message type tid items rest htid))
      (ap read_fields (regroup type tid items rest)
        ∙ read_fields-wire type (length (body items)) tid (body items ++ rest) ht short htid)
      refl (omega (arith, length-message type tid items rest htid))
      (Chain-message type tid items rest htid fits) (omega arith)
