-- ===== src/Encoder/FindsAll.antt =====
-- getAttributes on a message that was encoded: the values of all attributes of a type.
use libstunxx.Common.{
  ℕ, ◌+◌, ◌≡◌, ◌≢◌, inl, inr, refl, sym, ap, ap₂, ◌∙◌, Option, some, List, [], ◌∷◌, ◌++◌, arith,
  length, length-append, append_assoc, take, drop, IsU16, pad4, All, ◌==◌, if◌then◌else◌,
  Bool-cases,
}
use libstunxx.Memory.{Bytes, Outcome, done, ◌>>=◌}
use libstunxx.Stun.Wire.{tlv}
use libstunxx.Table.{keep}
use libstunxx.Decoder.{Decoder, parse, get_attributes}
use libstunxx.Decoder.Walk.{note_all}
use libstunxx.Decoder.Parse.{accepted, Accepted, entering}
use libstunxx.Decoder.Collect.{and_then, decode_each, get_attributes-decode_each}
use libstunxx.Encoder.Message.{Item, FitsItem, body, message, headers, length-tlv}
use libstunxx.Encoder.Holds.{body-snoc}
use libstunxx.Encoder.Reads.{parse-message, header_of}
use libstunxx.Encoder.Finds.{Accepted-found, value_at}

-- The values of the attributes of a type, in order.
abbrev pub values_of : ℕ → List Item → List Bytes
values_of type [] = []
values_of type (i ∷ items) =
    let rest = values_of type items in if i.type == type then i.value ∷ rest else rest

module _ {A : Type 0} where
  -- Values decoded one after another; those that do not decode are left out.
  abbrev pub decode_values : (Bytes → Outcome (Option A)) → List Bytes → Outcome (List A)
  decode_values decode_value [] = done []
  decode_values decode_value (v ∷ vs) = do
    o ← decode_value v
    rest ← decode_values decode_value vs
    done (and_then o rest)

  decode_each-values :
      (f : Bytes → Outcome (Option A)) (wanted type : ℕ) (tid : Bytes) (before items : List Item)
      (rest buf : Bytes)
      → length tid ≡ 12
      → buf ≡ message type tid (before ++ items) ++ rest
      → decode_each f buf (keep wanted (headers (20 + length (body before)) items))
        ≡ decode_values f (values_of wanted items)
  unfolding keep
  decode_each-values f wanted type tid before [] rest buf htid e = refl
  decode_each-values f wanted type tid before (i ∷ items) rest buf htid e =
      let others : decode_each f buf
            (keep wanted (headers (20 + length (body before) + (4 + pad4 (length i.value))) items))
          ≡ decode_values f (values_of wanted items) =
        ap (λ n. decode_each f buf (keep wanted (headers n items)))
          {x = 20 + length (body before) + (4 + pad4 (length i.value))}
          {y = 20 + length (body (before ++ i ∷ []))}
          (omega (
            arith,
            ap length (body-snoc before i),
            length-append {0} (body before) (tlv i.type i.value),
            length-tlv i.type i.value,
          ))
        ∙ decode_each-values f wanted type tid (before ++ i ∷ []) items rest buf htid (
            e
            ∙ ap (λ is. message type tid is ++ rest) (sym (append_assoc before (i ∷ []) items))) in
      elim (Bool-cases (i.type == wanted)) [
        | inl same ↦ rw same (
            ap₂ (λ v o. f v >>= λ a. o >>= λ xs. done (and_then a xs))
              (ap (λ b. take (length i.value) (drop (20 + length (body before) + 4) b)) e
                ∙ value_at type tid before i items rest htid)
              others)
        | inr other ↦ rw other others
      ]

  -- Parsing a message of attributes with 16-bit types and lengths, a 12-byte transaction id and less
  -- than 65536 bytes in all, gives a decoder which, asked for all attributes of a type other than 0,
  -- decodes the values of exactly the attributes of that type, without their padding, in the order of
  -- the message, and gives those that decode.
  pub get_attributes-parse :
      (decode_value : Bytes → Outcome (Option A)) (wanted type : ℕ) (tid : Bytes)
      (items : List Item) (rest : Bytes)
      → IsU16 type
      → length tid ≡ 12
      → All FitsItem items
      → IsU16 (length (body items))
      → wanted ≢ 0
      → (d : Decoder) × (parse (message type tid items ++ rest) ≡ done (some d))
        × (get_attributes wanted decode_value d
            ≡ decode_values decode_value (values_of wanted items))
  get_attributes-parse decode_value wanted type tid items rest ht htid fits short ne = (
    d,
    parsed,
    get_attributes-decode_each wanted decode_value buf d a ne
        ∙ ap (λ hs. decode_each decode_value buf (keep wanted hs))
            (Accepted-found type tid items rest htid fits a)
        ∙ decode_each-values decode_value wanted type tid [] items rest buf htid refl,
  )
    where
      buf : Bytes
      buf = message type tid items ++ rest

      d : Decoder
      d = note_all (headers 20 items) (entering buf (header_of type tid items))

      parsed : parse buf ≡ done (some d)
      parsed = parse-message type tid items rest ht htid fits short

      a : Accepted buf d
      a = accepted buf d parsed
