-- ===== src/Tests/Sample.antt =====
-- The message that the tests use, and attributes for a builder.
use libstunxx.Common.{refl, [], ◌∷◌, ◌++◌, arith, List}
use libstunxx.Memory.{Bytes}
use libstunxx.Stun.Wire.{be32}
use libstunxx.Attr.Concept.{IsAttribute}
use libstunxx.Attr.Strings.{StringAttr, string_attribute, string_round_trip}
use libstunxx.Attr.Numeric.{NumericAttr, numeric_attribute, numeric_round_trip}
use libstunxx.Decoder.{Decoder}
use libstunxx.Decoder.Walk.{note_all}
use libstunxx.Decoder.Parse.{entering}
use libstunxx.Encoder.Message.{Item, message, headers}
use libstunxx.Encoder.Reads.{header_of}
use libstunxx.Encoder.Calls.{Piece}

abbrev pub tid : Bytes
tid = 1 ∷ 2 ∷ 3 ∷ 4 ∷ 5 ∷ 6 ∷ 7 ∷ 8 ∷ 9 ∷ 10 ∷ 11 ∷ 12 ∷ []

abbrev pub name : Bytes
name = 97 ∷ 98 ∷ 99 ∷ []

abbrev pub software_item : Item
software_item = record { type = 0x8022; value = name }

abbrev pub lifetime_item : Item
lifetime_item = record { type = 0x000d; value = be32 600 }

abbrev pub two_items : List Item
two_items = software_item ∷ lifetime_item ∷ []

abbrev pub sample : Bytes
sample = message 0x0001 tid two_items ++ (0xff ∷ [])

abbrev pub sample_decoder : Decoder
sample_decoder = note_all (headers 20 two_items) (entering sample (header_of 0x0001 tid two_items))

pub software_law : IsAttribute (string_attribute 0x8022) (record { value = name }) name
software_law = record {
  reports = refl;
  writes = λ buf.
      (string_round_trip 0x8022 763 (record { value = name }) buf name (omega arith)
        (omega arith)).0;
}

pub lifetime_law : IsAttribute (numeric_attribute 0x000d) (record { value = 600 }) (be32 600)
lifetime_law = record {
  reports = refl;
  writes =
      λ buf. (numeric_round_trip 0x000d (record { value = 600 }) buf (omega arith) (omega arith)).0;
}

abbrev pub pieces : List Piece
pieces =
    record {
      Attr = StringAttr;
      attr = string_attribute 0x8022;
      attribute = record { value = name };
      value = name;
      law = software_law;
    }
    ∷ record {
      Attr = NumericAttr;
      attr = numeric_attribute 0x000d;
      attribute = record { value = 600 };
      value = be32 600;
      law = lifetime_law;
    }
    ∷ []
