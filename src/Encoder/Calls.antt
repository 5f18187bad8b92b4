-- ===== src/Encoder/Calls.antt =====
-- A client of an encoder: the calls it makes, what the encoder answers, and an abstract encoder, which
-- keeps the attributes as they are in place of their bytes.
use libstunxx.Common.{
  ℕ, ◌+◌, Bool, true, false, not, ◌&&◌, Option, none, some, List, [], ◌∷◌, ◌++◌, ltb, ◌==◌,
  if◌then◌else◌, length, drop, u16,
}
use libstunxx.Memory.{Bytes, Outcome, done, ◌>>=◌}
use libstunxx.Stun.Wire.{be32, tlv}
use libstunxx.Stun.Endian.{Endian}
use libstunxx.Crc.{compute_fingerprint}
use libstunxx.Attr.Concept.{StunAttribute, IsAttribute}
use libstunxx.Attr.Words.{fingerprint_type}
use libstunxx.Attr.Integrity.{Hmac, MessageIntegrityAttr, integrity_type, expected_size}
use libstunxx.Encoder.{Encoder, add_attribute, add_integrity, add_fingerprint, finalize}
use libstunxx.Encoder.Message.{Item, body, wire_header}

-- An attribute with the value that it has on the wire.
pub record Piece : Type 1 where
  pub Attr : Type 0
  pub attr : StunAttribute Attr
  pub attribute : Attr
  pub value : Bytes
  pub law : IsAttribute attr attribute value

abbrev pub item_of : Piece → Item
item_of p = record { type = p.attr.type; value = p.value }

abbrev pub items_of : List Piece → List Item
items_of [] = []
items_of (p ∷ ps) = item_of p ∷ items_of ps

pub data Call : Type 1 where
  attribute : Piece → Call
  integrity : Hmac → Bool → MessageIntegrityAttr → Call
  fingerprint : Call
  finish : Call

-- The encoder's answer to a call, which is true for the one that returns nothing, and its new state.
unfoldable pub call : Endian → Call → Encoder → Outcome (Bool × Encoder)
call e (attribute p) enc = add_attribute p.attr p.attribute enc
call e (integrity hmac_of is_sha256 a) enc = do
  (ok, _, enc') ← add_integrity e hmac_of is_sha256 a enc
  done (ok, enc')
call e fingerprint enc = add_fingerprint e enc
call e finish enc = do enc' ← finalize e enc; done (true, enc')

unfoldable pub run : Endian → List Call → Encoder → Outcome (List Bool × Encoder)
unfolding call
run e [] enc = done ([], enc)
run e (c ∷ cs) enc = do
  (ok, enc1) ← call e c enc
  (oks, enc2) ← run e cs enc1
  done (ok ∷ oks, enc2)

-- The abstract encoder: what stands in the twenty bytes in front, the attributes, the bytes that are
-- left, and whether a message integrity and a fingerprint were added.
pub record Draft : Type 0 where
  pub front : Bytes
  pub items : List Item
  pub free : Bytes
  pub signed : Bool
  pub checked : Bool

abbrev pub blank_draft : Bytes → Bytes → Draft
blank_draft front free = record {
  front = front;
  items = [];
  free = free;
  signed = false;
  checked = false;
}

abbrev pub with_item : Item → Draft → Draft
with_item i d = record d {
  items = d.items ++ i ∷ [];
  free = drop (length (tlv i.type i.value)) d.free;
}

-- The header of a message of `type` with the attributes and `n` bytes more.
abbrev pub header_for : ℕ → Bytes → ℕ → Draft → Bytes
header_for type tid n d = wire_header type (u16 (length (body d.items) + n)) tid

abbrev pub with_header : ℕ → Bytes → ℕ → Draft → Draft
with_header type tid n d = record d { front = header_for type tid n d }

-- What a digest covers.
abbrev pub digested : ℕ → Bytes → ℕ → Draft → Bytes
digested type tid n d = header_for type tid n d ++ body d.items

-- The digest that is added: nothing under an empty key, and none of another size.
abbrev pub digest_for : Hmac → ℕ → Bytes → Bytes → Option Bytes
digest_for hmac_of size [] msg = none
digest_for hmac_of size (k ∷ key) msg = elim (hmac_of (k ∷ key) msg) [
  | none ↦ none
  | some digest ↦ if length digest == size then some digest else none
]

abbrev pub signed_with : ℕ → Option Bytes → Draft → Bool × Draft
signed_with type none d = (false, d)
signed_with type (some digest) d =
    (true, record (with_item (record { type = type; value = digest }) d) { signed = true })

abbrev pub checked_with : ℕ → Draft → Bool × Draft
checked_with crc d = (
  true,
  record (with_item (record { type = fingerprint_type; value = be32 crc }) d) { checked = true },
)

-- The abstract encoder's answer to a call and its new state.
unfoldable pub answer : ℕ → Bytes → Call → Draft → Bool × Draft
answer type tid (attribute p) d =
    if ltb (length d.free) (length (tlv p.attr.type p.value))
    then (false, d)
    else (true, with_item (item_of p) d)
answer type tid (integrity hmac_of is_sha256 a) d =
    let n = 4 + expected_size is_sha256 in
    if ltb (length d.free) n
    then (false, d)
    else signed_with (integrity_type is_sha256)
        (digest_for hmac_of (expected_size is_sha256) a.key (digested type tid n d))
        (with_header type tid n d)
answer type tid fingerprint d =
    if d.checked
    then (false, d)
    else if ltb (length d.free) 8
    then (false, d)
    else checked_with (compute_fingerprint (digested type tid 8 d)) (with_header type tid 8 d)
answer type tid finish d =
    (true, if not d.checked && not d.signed then with_header type tid 0 d else d)

unfoldable pub answers : ℕ → Bytes → List Call → Draft → List Bool × Draft
answers type tid [] d = ([], d)
answers type tid (c ∷ cs) d =
    let (ok, d1) = answer type tid c d in let (oks, d2) = answers type tid cs d1 in (ok ∷ oks, d2)
