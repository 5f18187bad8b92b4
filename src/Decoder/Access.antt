-- ===== src/Decoder/Access.antt =====
-- What a decoder answers once `parse` has returned it, and how it splits the message type.
use libstunxx.Common.{
  ℕ, ◌+◌, ◌≤◌, ◌≡◌, ◌≢◌, sym, ap, ◌∙◌, Option, none, some, List, [], ◌∷◌, ◌++◌, arith, length, take,
  drop, pad4, bit_and, All, le→ltb,
}
use libstunxx.Memory.{Bytes, Outcome, done}
use libstunxx.Memory.Laws.{fetch-inside}
use libstunxx.Table
use libstunxx.Table.{AttrHeader, AttributeTable, new_table, append_header}
use libstunxx.Decoder.{Decoder}
use libstunxx.Stun.Kinds.{
  OneOf, class_mask_bits, stun_class_mask, is_response, is_request, is_indication,
}
use libstunxx.Common.Bits.{bit_and_middle}
use libstunxx.Table.Laws.{
  append_all-attributes, get-append_all, get-append_all-none, get-attributes,
}
use libstunxx.Decoder.{
  message_class, is_response_message, is_request_message, is_indication_message, get_attribute,
}
use libstunxx.Decoder.Walk.{Chain}
use libstunxx.Decoder.Parse.{Accepted}

-- Every message, whatever its type field, is exactly one of request, indication and response.
pub message_is_one_kind :
    (d : Decoder) → OneOf (is_request_message d) (is_indication_message d) (is_response_message d)
unfolding is_request_message is_indication_message is_response_message message_class is_request
    is_indication is_response
message_is_one_kind d = ground (
  arith,
  class_mask_bits d.header.msg_type,
  class_mask_bits (bit_and d.header.msg_type stun_class_mask),
  bit_and_middle 8 1 (bit_and d.header.msg_type stun_class_mask),
)

Chain-inside :
    (buf : Bytes) (end off last : ℕ) (before : List AttrHeader) (h : AttrHeader)
    (after : List AttrHeader)
    → Chain buf end off (before ++ h ∷ after) last
    → h.offset + h.len ≤ end
Chain-inside buf end off last [] h after (_, _, _, fits, _) = fits
Chain-inside buf end off last (g ∷ before) h after (_, _, _, _, c) =
    Chain-inside buf end (off + (4 + pad4 g.len)) last before h after c

module _ {A : Type 0} where
  -- For a decoder that `parse` returned, asking for a type other than 0 decodes the value of the
  -- first attribute of that type: the bytes at its offset and of its length, which lie in the input.
  pub get_attribute-first :
      (decode_value : Bytes → Outcome (Option A)) (buf : Bytes) (d : Decoder) (a : Accepted buf d)
      (before : List AttrHeader) (h : AttrHeader) (after : List AttrHeader)
      → a.found ≡ before ++ h ∷ after
      → h.type ≢ 0
      → All (λ (g : AttrHeader). g.type ≢ h.type) before
      → get_attribute h.type decode_value d ≡ decode_value (take h.len (drop h.offset buf))
  unfolding get_attribute
  get_attribute-first decode_value buf d a before h after e ne firsts = rw (
    a.not_null,
    finds,
    a.same_buffer,
    le→ltb (length buf) (h.offset + h.len) inside,
    fetch-inside h.offset h.len buf inside,
  )
    where
      inside : h.offset + h.len ≤ length buf
      inside =
          omega
            (arith, Chain-inside buf _ 20 d.offset before h after (rw e at a.chain), a.message_fits)

      finds : Table.get d.attributes h.type ≡ some h
      finds =
          get-attributes h.type (
            a.recorded
            ∙ ap (λ hs. new_table.attributes ++ hs) e
            ∙ sym (append_all-attributes new_table (before ++ h ∷ after)))
          ∙ get-append_all before h after ne firsts

  -- For a decoder that `parse` returned, a type other than 0 that no attribute of the message has is
  -- answered by nothing.
  pub get_attribute-missing :
      (type : ℕ) (decode_value : Bytes → Outcome (Option A)) (buf : Bytes) (d : Decoder)
      (a : Accepted buf d)
      → type ≢ 0
      → All (λ (g : AttrHeader). g.type ≢ type) a.found
      → get_attribute type decode_value d ≡ done none
  unfolding get_attribute
  get_attribute-missing type decode_value buf d a ne others = rw (a.not_null, missing)
    where
      missing : Table.get d.attributes type ≡ none
      missing =
          get-attributes type (a.recorded ∙ sym (append_all-attributes new_table a.found))
          ∙ get-append_all-none type a.found ne others
