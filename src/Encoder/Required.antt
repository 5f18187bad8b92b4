-- ===== src/Encoder/Required.antt =====
-- What a decoder reports as unknown on a message that was encoded.
use libstunxx.Common.{
  ℕ, ◌+◌, ◌≡◌, ◌⊎◌, ◌↔◌, inl, inr, refl, sym, ap, ◌∙◌, Bool, true, false, not, ◌&&◌, some, List, [],
  ◌∷◌, ◌++◌, arith, length, IsU16, All, pad4, ◌==◌, if◌then◌else◌, Bool-cases,
}
use libstunxx.Memory.{done}
use libstunxx.Stun.Kinds.{is_comprehension_required, is_known_attr_type}
use libstunxx.Decoder.{Decoder, parse, has_unknown_required}
use libstunxx.Decoder.Walk.{note_all, unknown_types}
use libstunxx.Decoder.Parse.{accepted, Accepted, entering}
use libstunxx.Encoder.Message.{Item, FitsItem, body, message, headers}
use libstunxx.Encoder.Reads.{parse-message, header_of}
use libstunxx.Encoder.Finds.{Accepted-found}
use libstunxx.Memory.{Bytes}

-- The types of a message that a receiver must understand and this library does not know.
abbrev pub not_understood : List Item → List ℕ
not_understood [] = []
not_understood (i ∷ items) =
    let rest = not_understood items in
    if is_comprehension_required i.type && not (is_known_attr_type i.type)
    then i.type ∷ rest
    else rest

unknown_types-headers :
    (off : ℕ) (items : List Item) → unknown_types (headers off items) ≡ not_understood items
unknown_types-headers off [] = refl
unknown_types-headers off (i ∷ items) =
    rw (unknown_types-headers (off + (4 + pad4 (length i.value))) items)

abbrev pub IsUnderstood : Item → Type 0
IsUnderstood i = (is_comprehension_required i.type ≡ false) ⊎ (is_known_attr_type i.type ≡ true)

understood_none : (items : List Item) → All IsUnderstood items → not_understood items ≡ []
understood_none [] all = refl
understood_none (i ∷ items) (optional_or_known, all) =
    rw (understood_none items all) (ground (arith, optional_or_known))

cons_nil : {x : ℕ} {xs : List ℕ} → ¬ (x ∷ xs ≡ [])
cons_nil e = cc

not_understood-IsUnderstood :
    (items : List Item) → not_understood items ≡ [] → All IsUnderstood items
not_understood-IsUnderstood [] e = tt
not_understood-IsUnderstood (i ∷ items) e = elim (Bool-cases (is_comprehension_required i.type)) [
  | inr optional ↦ (inl optional, not_understood-IsUnderstood items (rw optional at e))
  | inl required ↦ elim (Bool-cases (is_known_attr_type i.type)) [
    | inl known ↦ (inr known, not_understood-IsUnderstood items (rw (required, known) at e))
    | inr unknown ↦ absurd (cons_nil (rw (required, unknown) at e))
  ]
]

-- Parsing a message of attributes with 16-bit types and lengths, a 12-byte transaction id and less
-- than 65536 bytes in all, gives a decoder that reports as unknown exactly the types of the attributes
-- that are comprehension-required and not known, in their order; and it says that it has none if and
-- only if every attribute is optional or known.
pub has_unknown_required-parse :
    (type : ℕ) (tid : Bytes) (items : List Item) (rest : Bytes)
    → IsU16 type
    → length tid ≡ 12
    → All FitsItem items
    → IsU16 (length (body items))
    → (d : Decoder) × (parse (message type tid items ++ rest) ≡ done (some d))
      × (d.unknown_required ≡ not_understood items)
      × ((has_unknown_required d ≡ false) ↔ All IsUnderstood items)
unfolding has_unknown_required
has_unknown_required-parse type tid items rest ht htid fits short = (
  d,
  parsed,
  reports,
  (
    λ e. not_understood-IsUnderstood items (sym reports ∙ empty d.unknown_required e),
    λ all. ap nonempty (reports ∙ understood_none items all),
  ),
)
  where
    buf : Bytes
    buf = message type tid items ++ rest

    d : Decoder
    d = note_all (headers 20 items) (entering buf (header_of type tid items))

    parsed : parse buf ≡ done (some d)
    parsed = parse-message type tid items rest ht htid fits short

    a : Accepted buf d
    a = accepted buf d parsed

    reports : d.unknown_required ≡ not_understood items
    reports =
        a.reported
        ∙ ap unknown_types (Accepted-found type tid items rest htid fits a)
        ∙ unknown_types-headers 20 items

    nonempty : List ℕ → Bool
    nonempty xs = not (length xs == 0)

    empty : (xs : List ℕ) → nonempty xs ≡ false → xs ≡ []
    empty [] e = refl
    empty (x ∷ xs) e = absurd (ground (arith, e))
