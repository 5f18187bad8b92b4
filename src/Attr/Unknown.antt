-- ===== src/Attr/Unknown.antt =====
-- include/stunxx/attributes/UnknownAttributesAttr.hpp: UNKNOWN-ATTRIBUTES, a list of types.
pub mod Laws
use libstunxx.Common.{
  ℕ, zero, suc, ◌+◌, ◌-◌, ◌*◌, ◌/◌, ◌%◌, ◌^◌, ◌≤◌, ◌<◌, ◌≡◌, ◌↔◌, refl, sym, ap, ◌∙◌, Bool, true,
  false, not, Option, none, some, List, [], ◌∷◌, ◌++◌, arith, ltb, ◌==◌, if◌then◌else◌, length,
  length-append, length-drop, append_assoc, append-nil, take, drop, drop-drop, u16, IsU16, pad4,
  All, le→ltb, lt→ltb,
}
use libstunxx.Memory.{Bytes, Outcome, done, fault, ◌>>=◌, store, fetch}
use libstunxx.Memory.Laws.{bind_done, fetch-behind}
use libstunxx.Stun.Wire.{
  attr_header_size, write_header, write_be16, read_be16, be16, tlv, zeros, put_tlv,
  write_header_lem, write_be16-behind, read_be16-be16,
}
use libstunxx.Attr.Concept.{StunAttribute}
use libstunxx.Attr.Frame.{guarded, return_true, store-padding}

abbrev pub unknown_attributes_type : ℕ
unknown_attributes_type = 0x000a

pub record UnknownAttributesAttr : Type 0 where
  pub unknown_attrs : List ℕ

abbrev pub unknown_length : UnknownAttributesAttr → ℕ
unknown_length a = length a.unknown_attrs * 2

abbrev pub unknown_padded_length : UnknownAttributesAttr → ℕ
unknown_padded_length a = pad4 (unknown_length a)

-- The loop of `encode`, from the `i`-th type on.
unfoldable pub write_types : ℕ → List ℕ → Bytes → Outcome Bytes
write_types i [] buf = done buf
write_types i (t ∷ ts) buf = do
  buf' ← write_be16 (attr_header_size + i * 2) t buf
  write_types (i + 1) ts buf'

unfoldable pub encode_unknown : UnknownAttributesAttr → Bytes → Outcome (Bool × Bytes)
encode_unknown a buf =
    let total_len = unknown_length a in
    let padded_len = unknown_padded_length a in
    if ltb (length buf) (attr_header_size + padded_len) then done (false, buf) else (do
      b1 ← write_header unknown_attributes_type (u16 total_len) buf
      b2 ← write_types 0 a.unknown_attrs b1
      b3 ←
          (if ltb 0 (padded_len - total_len)
            then store (attr_header_size + total_len) (zeros (padded_len - total_len)) b2
            else done b2)
      return_true b3)

-- The loop of `decode` from offset `i` on, which moves by two; without fuel it would fault.
unfoldable pub read_types : ℕ → ℕ → Bytes → Outcome (List ℕ)
read_types zero i buf = fault
read_types (suc n) i buf =
    if ltb i (length buf)
    then (do s ← fetch i 2 buf; t ← read_be16 s; ts ← read_types n (i + 2) buf; done (t ∷ ts))
    else done []

unfoldable pub decode_unknown : Bytes → Outcome (Option UnknownAttributesAttr)
decode_unknown buf =
    if not (length buf % 2 == 0)
    then done none
    else (do ts ← read_types (suc (length buf)) 0 buf; done (some (record { unknown_attrs = ts })))

abbrev pub unknown_attribute_list : StunAttribute UnknownAttributesAttr
unknown_attribute_list = record {
  type = unknown_attributes_type;
  length_of = unknown_length;
  encode = encode_unknown;
}
