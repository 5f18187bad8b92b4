-- ===== src/Decoder/Collect.antt =====
-- `Decoder::getAttributes`: the values of all attributes of a type.
use libstunxx.Common.{
  ℕ, ◌+◌, ◌≤◌, ◌≡◌, ◌≢◌, inl, inr, refl, sym, ap, ◌∙◌, false, Option, none, some, List, [], ◌∷◌,
  ◌++◌, arith, length, take, drop, pad4, All, le→ltb, ◌==◌, Bool-cases, append_assoc, append-nil,
}
use libstunxx.Memory.{Bytes, Outcome, done, fault, ◌>>=◌}
use libstunxx.Memory.Laws.{fetch-inside}
use libstunxx.Table.{AttrHeader, new_table, range, keep}
use libstunxx.Decoder.{Decoder, collect_values, get_attributes}
use libstunxx.Decoder.Walk.{Chain}
use libstunxx.Decoder.Parse.{Accepted}

module _ {A : Type 0} where
  abbrev pub and_then : Option A → List A → List A
  and_then none xs = xs
  and_then (some a) xs = a ∷ xs

  -- The values at the headers, decoded one after another; those that do not decode are left out.
  abbrev pub decode_each : (Bytes → Outcome (Option A)) → Bytes → List AttrHeader → Outcome (List A)
  decode_each decode_value buf [] = done []
  decode_each decode_value buf (h ∷ hs) = do
    o ← decode_value (take h.len (drop h.offset buf))
    rest ← decode_each decode_value buf hs
    done (and_then o rest)

  bind-append :
      (o : Option A) (rest : Outcome (List A)) (result : List A)
      → (rest >>= λ xs. done ((elim o [ none ↦ result | some a ↦ result ++ a ∷ [] ]) ++ xs))
        ≡ ((rest >>= λ xs. done (and_then o xs)) >>= λ xs. done (result ++ xs))
  bind-append none (done xs) result = refl
  bind-append (some a) (done xs) result = ap done (append_assoc result (a ∷ []) xs)
  bind-append o fault result = refl

  collect_values-decode_each :
      (decode_value : Bytes → Outcome (Option A)) (buf : Bytes) (hs : List AttrHeader)
      (result : List A)
      → All (λ (h : AttrHeader). h.offset + h.len ≤ length buf) hs
      → collect_values decode_value buf hs result
        ≡ (decode_each decode_value buf hs >>= λ xs. done (result ++ xs))
  unfolding collect_values
  collect_values-decode_each f buf [] result inside = ap done (sym (append-nil result))
  collect_values-decode_each f buf (h ∷ hs) result (here, inside) =
      rw (le→ltb (length buf) (h.offset + h.len) here, fetch-inside h.offset h.len buf here)
        (decoded (f (take h.len (drop h.offset buf)))
          (λ r. collect_values-decode_each f buf hs r inside))
    where
      decoded :
          (o : Outcome (Option A))
          → ((r : List A)
              → collect_values f buf hs r ≡ (decode_each f buf hs >>= λ xs. done (r ++ xs)))
          → (o >>= λ a.
              collect_values f buf hs (elim a [ none ↦ result | some a ↦ result ++ a ∷ [] ]))
            ≡ ((o >>= λ a. decode_each f buf hs >>= λ rest. done (and_then a rest)) >>= λ xs.
                done (result ++ xs))
      decoded fault others = refl
      decoded (done a) others = others _ ∙ bind-append a (decode_each f buf hs) result

Chain-All :
    (buf : Bytes) (end off last : ℕ) (hs : List AttrHeader)
    → Chain buf end off hs last
    → All (λ (h : AttrHeader). h.offset + h.len ≤ end) hs
Chain-All buf end off last [] c = tt
Chain-All buf end off last (h ∷ hs) (_, _, _, fits, c) =
    (fits, Chain-All buf end (off + (4 + pad4 h.len)) last hs c)

-- The headers of a type lie inside the buffer if all headers do.
keep-inside :
    (type m n : ℕ) (hs : List AttrHeader)
    → m ≤ n
    → All (λ (h : AttrHeader). h.offset + h.len ≤ m) hs
    → All (λ (h : AttrHeader). h.offset + h.len ≤ n) (keep type hs)
unfolding keep
keep-inside type m n [] le inside = tt
keep-inside type m n (h ∷ hs) le (here, inside) = elim (Bool-cases (h.type == type)) [
  | inl same ↦ rw same (omega (arith, le, here), keep-inside type m n hs le inside)
  | inr other ↦ rw other (keep-inside type m n hs le inside)
]

module _ {A : Type 0} where
  -- For a decoder that `parse` returned, asking for all attributes of a type other than 0 decodes the
  -- values of all attributes of that type, in the order of the message, each the bytes at its offset
  -- and of its length, and gives those that decode.
  pub get_attributes-decode_each :
      (type : ℕ) (decode_value : Bytes → Outcome (Option A)) (buf : Bytes) (d : Decoder)
      (a : Accepted buf d)
      → type ≢ 0
      → get_attributes type decode_value d ≡ decode_each decode_value buf (keep type a.found)
  unfolding get_attributes range new_table keep
  get_attributes-decode_each type decode_value buf d a ne =
      rw
        (
          a.not_null,
          a.same_buffer,
          a.recorded,
          blank_other,
          collect_values-decode_each decode_value buf (keep type a.found) [] inside,
        )
        (same (decode_each decode_value buf (keep type a.found)))
    where
      blank_other : (0 == type) ≡ false
      blank_other = ground (arith, ne)

      inside : All (λ (h : AttrHeader). h.offset + h.len ≤ length buf) (keep type a.found)
      inside =
          keep-inside type _ (length buf) a.found a.message_fits
            (Chain-All buf _ 20 d.offset a.found a.chain)

      same : (o : Outcome (List A)) → (o >>= λ xs. done ([] ++ xs)) ≡ o
      same (done xs) = refl
      same fault = refl
