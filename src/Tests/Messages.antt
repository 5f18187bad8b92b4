-- ===== src/Tests/Messages.antt =====
-- Messages built and parsed: a binding request with a software attribute and a lifetime.
use libstunxx.Common.{
  List, ℕ, ◌+◌, ◌<◌, ◌≢◌, ◌≡◌, ◌≤◌, ◌⊎◌, ◌↔◌, ◌++◌, false, All, length, refl, none, some, [], ◌∷◌,
  arith,
}
use libstunxx.Memory.{done}
use libstunxx.Stun.Wire.{be32}
use libstunxx.Stun.Kinds.{is_comprehension_required, is_known_attr_type}
use libstunxx.Table.{append_header}
use libstunxx.Attr.Strings.{decode_string}
use libstunxx.Decoder.{
  Decoder, note, parse, get_attribute, get_attributes, has_unknown_required, parse_header,
}
use libstunxx.Decoder.Parse.{Accepted, parse_cases, entering}
use libstunxx.Decoder.Access.{get_attribute-missing}
use libstunxx.Decoder.ParseHeader.{parse_header_cases}
use libstunxx.Encoder.FindsAll.{get_attributes-parse}
use libstunxx.Encoder.Required.{IsUnderstood, has_unknown_required-parse}
use libstunxx.Encoder.Named.{has_unknown_required-named}
use libstunxx.Decoder.Spelled.{part, IsTyped, Spells, Laid}
use libstunxx.Decoder.Exact.{Contents, parse-Spells, parse-Laid}
use libstunxx.Table.{AttrHeader}
use libstunxx.Stun.Header.{StunHeader, magic_cookie_value}
use libstunxx.Encoder.Message.{Item, body, message, headers}
use libstunxx.Encoder.Reads.{read_fields-wire, parse-message, header_of, Chain-message}
use libstunxx.Encoder.Finds.{get_attribute-parse}
use libstunxx.Tests.Sample.{
  tid, name, software_item, lifetime_item, two_items, sample, sample_decoder,
}

parse_cases_example :
    (parse sample ≡ done none)
    ⊎ ((d : Decoder) × (parse sample ≡ done (some d)) × Accepted sample d)
parse_cases_example = parse_cases sample

sample-parsed : parse sample ≡ done (some sample_decoder)
sample-parsed =
    parse-message 0x0001 tid two_items (0xff ∷ []) (omega arith) refl (omega arith) (omega arith)

parse-Laid_example :
    (d : Decoder) × (parse sample ≡ done (some d))
    × Contents d sample (header_of 0x0001 tid two_items) (headers 20 two_items)
parse-Laid_example =
    parse-Laid sample (header_of 0x0001 tid two_items) (headers 20 two_items) 36 (omega arith)
      (omega arith, omega arith, omega arith, refl) (refl, refl, refl, refl) refl (omega arith)
      ((omega arith, omega arith), ((omega arith, omega arith), tt))
      (refl, refl, refl, omega arith, (refl, refl, refl, omega arith, refl)) (omega arith)

get_attribute-parse_example :
    (d : Decoder) × (parse (message 0x0001 tid ((software_item ∷ []) ++ lifetime_item ∷ []) ++ [])
      ≡ done (some d))
    × (get_attribute 0x000d (decode_string 763) d ≡ decode_string 763 (be32 600))
get_attribute-parse_example =
    get_attribute-parse (decode_string 763) 0x0001 tid (software_item ∷ []) lifetime_item [] []
      (omega arith) refl (omega arith) (omega arith) (omega arith) (omega arith)

sample-Accepted : Accepted sample sample_decoder
unfolding note entering append_header is_comprehension_required is_known_attr_type
sample-Accepted = record {
  not_null = refl;
  same_buffer = refl;
  header_fits = omega arith;
  header_read =
      read_fields-wire 0x0001 16 tid (body two_items ++ (0xff ∷ [])) (omega arith) (omega arith)
        refl;
  cookie = refl;
  message_fits = omega arith;
  found = headers 20 two_items;
  chain = Chain-message 0x0001 tid two_items (0xff ∷ []) refl (omega arith);
  no_more = omega arith;
  recorded = refl;
  reported = refl;
}

get_attribute-missing_example : get_attribute 0x0006 (decode_string 513) sample_decoder ≡ done none
unfolding sample-Accepted
get_attribute-missing_example =
    get_attribute-missing 0x0006 (decode_string 513) sample sample_decoder sample-Accepted
      (omega arith) (omega arith)

parse_header_cases_example :
    ((parse_header sample ≡ done none)
      × (parse sample ≡ done none)
      × ((length sample < 20) ⊎ (part 4 4 sample ≢ be32 magic_cookie_value)))
    ⊎ ((h : StunHeader) × (parse_header sample ≡ done (some h))
        × (20 ≤ length sample)
        × IsTyped h
        × Spells sample h
        × (h.magic_cookie ≡ magic_cookie_value)
        × ((d : Decoder) → parse sample ≡ done (some d) → d.header ≡ h))
parse_header_cases_example = parse_header_cases sample (ground arith)

get_attributes-parse_example :
    (d : Decoder) × (parse (message 0x0001 tid (two_items ++ software_item ∷ []) ++ [])
      ≡ done (some d))
    × (get_attributes 0x8022 (decode_string 763) d
        ≡ done (record { value = name } ∷ record { value = name } ∷ []))
unfolding decode_string
get_attributes-parse_example =
    get_attributes-parse (decode_string 763) 0x8022 0x0001 tid (two_items ++ software_item ∷ []) []
      (omega arith) refl (omega arith) (omega arith) (omega arith)

-- An attribute of a type that nobody knows, and that must be understood.
abbrev strange : Item
strange = record { type = 0x0099; value = 1 ∷ [] }

has_unknown_required-parse_example :
    (d : Decoder) × (parse (message 0x0001 tid (strange ∷ two_items) ++ []) ≡ done (some d))
    × (d.unknown_required ≡ 0x0099 ∷ [])
    × ((has_unknown_required d ≡ false) ↔ All IsUnderstood (strange ∷ two_items))
unfolding is_comprehension_required is_known_attr_type
has_unknown_required-parse_example =
    has_unknown_required-parse 0x0001 tid (strange ∷ two_items) [] (omega arith) refl (omega arith)
      (omega arith)

has_unknown_required-named_example :
    (d : Decoder) × (parse (message 0x0001 tid two_items ++ []) ≡ done (some d))
    × (has_unknown_required d ≡ false)
has_unknown_required-named_example =
    has_unknown_required-named 0x0001 tid two_items [] (omega arith) refl (omega arith)
      (omega arith) (refl, (refl, tt))

parse-Spells_example :
    Spells sample sample_decoder.header
    × (sample_decoder.header.magic_cookie ≡ magic_cookie_value)
    × (20 + sample_decoder.header.msg_length ≤ length sample)
    × ((hs : List AttrHeader) × (last : ℕ) × Laid sample
          (20 + sample_decoder.header.msg_length)
          20
          hs
          last
        × (20 + sample_decoder.header.msg_length < last + 4)
        × Contents sample_decoder sample sample_decoder.header hs)
parse-Spells_example = parse-Spells sample sample_decoder (ground arith) sample-parsed
