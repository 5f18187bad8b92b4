-- ===== src/Tests/Tables.antt =====
-- The attribute table and the classes of messages and attributes at concrete values.
use libstunxx.Common.{List, arith, ◌≡◌, ◌↔◌, true, some, [], ◌∷◌, refl}
use libstunxx.Table
use libstunxx.Table.{AttrHeader, AttributeTable, blank, new_table, get_all, range}
use libstunxx.Table.Laws.{
  Picks, nothing, pass, pick, append_all, queries-Picks, get_zero-finds_blank,
}
use libstunxx.Stun.Types.{StunAttrType, attr_number, binding, success_resp, class_bits, method_bits}
use libstunxx.Stun.Kinds.{is_known_attr_type, is_known_attr_type_iff}
use libstunxx.Decoder.{Decoder, new_decoder, message_class, message_method}
use libstunxx.Builder.MessageType.{message_class_and_method}

abbrev username_header : AttrHeader
username_header = record { type = 6; len = 5; offset = 24 }

abbrev software_header : AttrHeader
software_header = record { type = 0x8022; len = 3; offset = 36 }

abbrev software_later : AttrHeader
software_later = record { type = 0x8022; len = 7; offset = 44 }

abbrev three : List AttrHeader
three = username_header ∷ software_header ∷ software_later ∷ []

three-Picks : Picks 0x8022 three (software_header ∷ software_later ∷ [])
three-Picks = pass (omega arith) (pick refl (pick refl nothing))

queries-Picks_example :
    (get_all (append_all new_table three) 0x8022 ≡ software_header ∷ software_later ∷ [])
    × (range (append_all new_table three) 0x8022 ≡ software_header ∷ software_later ∷ [])
    × (Table.get (append_all new_table three) 0x8022 ≡ some software_header)
queries-Picks_example =
    queries-Picks 0x8022 three (software_header ∷ software_later ∷ []) (omega arith) three-Picks

get_zero-finds_blank_example :
    Table.get (append_all new_table (username_header ∷ [])) 0 ≡ some blank
get_zero-finds_blank_example = get_zero-finds_blank (username_header ∷ [])

is_known_attr_type_iff_example :
    (is_known_attr_type 0x0020 ≡ true) ↔ ((t : StunAttrType) × (attr_number t ≡ 0x0020))
is_known_attr_type_iff_example = is_known_attr_type_iff 0x0020

abbrev success_decoder : Decoder
unfolding new_decoder
success_decoder = record (new_decoder []) {
  header = record {
    msg_type = 0x0101;
    msg_length = 0;
    magic_cookie = 0x2112_a442;
    transaction_id = [];
  };
}

message_class_and_method_example :
    (message_class success_decoder ≡ class_bits success_resp)
    × (message_method success_decoder ≡ method_bits binding)
unfolding success_decoder
message_class_and_method_example =
    message_class_and_method binding success_resp success_decoder refl
