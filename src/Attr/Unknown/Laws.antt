-- ===== src/Attr/Unknown/Laws.antt =====
-- UNKNOWN-ATTRIBUTES: the list on the wire, written and read.
use libstunxx.Common.{
  ℕ, zero, suc, ◌+◌, ◌*◌, ◌%◌, ◌≤◌, ◌<◌, ◌≡◌, refl, sym, ap, ◌∙◌, false, not, some, List, [], ◌∷◌,
  ◌++◌, arith, ◌==◌, length, length-append, length-drop, append_assoc, append-nil, drop, drop-drop,
  IsU16, All, le→ltb, lt→ltb, if_false,
}
use libstunxx.Memory.{Bytes, done}
use libstunxx.Memory.Laws.{fetch-behind}
use libstunxx.Stun.Wire.{attr_header_size, be16, put_tlv, write_be16-behind, read_be16-be16}
use libstunxx.Attr.Written.{padded_value}
use libstunxx.Attr.Unknown.{
  UnknownAttributesAttr, unknown_attributes_type, write_types, read_types, encode_unknown,
  decode_unknown,
}

abbrev pub types_bytes : List ℕ → Bytes
types_bytes [] = []
types_bytes (t ∷ ts) = be16 t ++ types_bytes ts

pub length-types_bytes : (ts : List ℕ) → length (types_bytes ts) ≡ length ts * 2
length-types_bytes [] = refl
length-types_bytes (t ∷ ts) = omega (arith, length-types_bytes ts)

write_types-behind :
    (i : ℕ) (ts : List ℕ) (before buf : Bytes)
    → attr_header_size + i * 2 ≡ length before
    → All IsU16 ts
    → length ts * 2 ≤ length buf
    → write_types i ts (before ++ buf)
      ≡ done ((before ++ types_bytes ts) ++ drop (length ts * 2) buf)
unfolding write_types
write_types-behind i [] before buf e h room = ap (λ t. done (t ++ buf)) (sym (append-nil before))
write_types-behind i (t ∷ ts) before buf e (ht, h) room =
    rw (write_be16-behind (attr_header_size + i * 2) t before buf e ht (omega (arith, room))) (
      write_types-behind (i + 1) ts (before ++ be16 t) (drop 2 buf)
        (rw length-append (omega (arith, e))) h (rw length-drop (omega (arith, room)))
      ∙ ap done (
          ap (λ front. front ++ drop (length ts * 2) (drop 2 buf))
            (append_assoc before (be16 t) (types_bytes ts))
          ∙ ap (λ back. (before ++ types_bytes (t ∷ ts)) ++ back)
              (drop-drop (length ts * 2) 2 buf
                ∙ ap (λ k. drop k buf) {y = length (t ∷ ts) * 2} (omega arith))))

read_types-behind :
    (n i : ℕ) (ts : List ℕ) (before : Bytes)
    → i ≡ length before
    → All IsU16 ts
    → length ts < n
    → read_types n i (before ++ types_bytes ts) ≡ done ts
unfolding read_types
read_types-behind zero i ts before e h fuel = absurd (omega arith)
read_types-behind (suc n) i [] before e h fuel =
    rw (le→ltb i (length (before ++ [])) (rw append-nil (omega (arith, e))))
read_types-behind (suc n) i (t ∷ ts) before e (ht, h) fuel = rw (
  lt→ltb i (length (before ++ types_bytes (t ∷ ts)))
      (omega (arith, e, length-append {0} before (types_bytes (t ∷ ts)))),
  fetch-behind i 2 before (be16 t) (types_bytes ts) e refl,
  read_be16-be16 t [] ht,
  ap (read_types n (i + 2)) (sym (append_assoc before (be16 t) (types_bytes ts)))
      ∙ read_types-behind n (i + 2) ts (before ++ be16 t) (rw length-append (omega (arith, e))) h
          (omega (arith, fuel)),
)

encode_unknown_lem :
    (a : UnknownAttributesAttr) (buf : Bytes)
    → All IsU16 a.unknown_attrs
    → IsU16 (length a.unknown_attrs * 2)
    → encode_unknown a buf ≡ put_tlv unknown_attributes_type (types_bytes a.unknown_attrs) buf
unfolding encode_unknown
encode_unknown_lem a buf h fits =
    padded_value unknown_attributes_type (length a.unknown_attrs * 2) (types_bytes a.unknown_attrs)
      buf (write_types 0 a.unknown_attrs) (omega arith) (rw size fits) (sym size)
      (λ room.
        write_types-behind 0 a.unknown_attrs head (drop 4 buf) refl h
          (rw length-drop (omega (arith, size, room)))
        ∙ ap (λ k. done ((head ++ types_bytes a.unknown_attrs) ++ drop k (drop 4 buf))) (sym size))
  where
    size : length (types_bytes a.unknown_attrs) ≡ length a.unknown_attrs * 2
    size = length-types_bytes a.unknown_attrs

    head : Bytes
    head = be16 unknown_attributes_type ++ be16 (length (types_bytes a.unknown_attrs))

decode_unknown_lem :
    (a : UnknownAttributesAttr)
    → All IsU16 a.unknown_attrs
    → decode_unknown (types_bytes a.unknown_attrs) ≡ done (some a)
unfolding decode_unknown
decode_unknown_lem a h =
    if_false _ _ even
    ∙ rw (
        read_types-behind (suc (length (types_bytes a.unknown_attrs))) 0 a.unknown_attrs [] refl h
          (omega (arith, length-types_bytes a.unknown_attrs)))
  where
    even : not (length (types_bytes a.unknown_attrs) % 2 == 0) ≡ false
    even = ground (arith, length-types_bytes a.unknown_attrs)

-- For a list of 16-bit types whose bytes number less than 65536, on a span of any size: the attribute
-- is written as the types one after another in network order and zeros up to a multiple of four, or
-- false is answered and nothing written if that does not fit; and the bytes decode to the list, in
-- its order.
pub unknown_attributes_round_trip :
    (a : UnknownAttributesAttr) (buf : Bytes)
    → All IsU16 a.unknown_attrs
    → IsU16 (length a.unknown_attrs * 2)
    → (encode_unknown a buf ≡ put_tlv unknown_attributes_type (types_bytes a.unknown_attrs) buf)
      × (decode_unknown (types_bytes a.unknown_attrs) ≡ done (some a))
unknown_attributes_round_trip a buf h fits =
    (encode_unknown_lem a buf h fits, decode_unknown_lem a h)
