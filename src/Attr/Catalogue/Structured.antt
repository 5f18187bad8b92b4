-- ===== src/Attr/Catalogue/Structured.antt =====
-- The classes whose value is an error, an address or a list.
use libstunxx.Common.{
  ℕ, ◌+◌, ◌*◌, ◌^◌, ◌≤◌, ◌<◌, ◌≡◌, ◌⊎◌, refl, sym, ap, ◌∙◌, Bool, true, false, [], ◌++◌, arith,
  length, append-nil, IsU16, IsByte, All, pad4,
}
use libstunxx.Memory.{Bytes}
use libstunxx.Stun.Types.{ipv4_family, ipv6_family}
use libstunxx.Stun.Wire.{tlv}
use libstunxx.Attr.Concept.{Coded}
use libstunxx.Attr.ErrorCode.{
  ErrorCodeAttr, error_code_attribute, error_value, decode_error_code, error_code_round_trip,
}
use libstunxx.Attr.AddressError.{
  AddressErrorCodeAttr, address_error_attribute, address_error_value, decode_address_error,
  address_error_round_trip,
}
use libstunxx.Attr.XorAddress.{
  XorAddressAttr, xor_address_attribute, xor_address_length, ipv4, ipv6, new_xor_address,
  decode_xor_address,
}
use libstunxx.Attr.XorAddress.Value.{address_size, stun_address, xor_value, length-xor_value}
use libstunxx.Attr.XorAddress.RoundTrip.{xor_address_round_trip}
use libstunxx.Attr.Unknown.{UnknownAttributesAttr, unknown_attribute_list, decode_unknown}
use libstunxx.Attr.Unknown.Laws.{types_bytes, length-types_bytes, unknown_attributes_round_trip}
use libstunxx.Attr.Algorithm.{
  PasswordAlgorithmAttr, password_algorithm_attribute, decode_password_algorithm,
  password_algorithm_round_trip,
}
use libstunxx.Attr.Algorithm.Entry.{length-entry}
use libstunxx.Attr.Algorithms.{
  PasswordAlgorithmsAttr, password_algorithms_attribute, password_algorithms_length,
  decode_password_algorithms,
}
use libstunxx.Attr.Algorithms.Laws.{
  entries_bytes, FitsEntry, length-entries_bytes, password_algorithms_round_trip,
}

abbrev pub error_code_coded :
    (a : ErrorCodeAttr) → 300 ≤ a.code → a.code < 700 → IsU16 (4 + length a.reason) → Coded
error_code_coded a low high h = record {
  Attr = ErrorCodeAttr;
  attr = error_code_attribute;
  decode_of = decode_error_code;
  attribute = a;
  value = error_value a;
  law = record {
    reports = omega arith;
    writes = λ buf. (error_code_round_trip a buf low high h).0;
  };
  reads = (error_code_round_trip a [] low high h).1;
}

abbrev pub address_error_coded :
    (a : AddressErrorCodeAttr)
    → (a.family ≡ ipv4_family) ⊎ (a.family ≡ ipv6_family)
    → (a.code ≡ 440) ⊎ (a.code ≡ 508)
    → IsU16 (4 + length a.reason)
    → Coded
address_error_coded a fam code h = record {
  Attr = AddressErrorCodeAttr;
  attr = address_error_attribute;
  decode_of = decode_address_error;
  attribute = a;
  value = address_error_value a;
  law = record {
    reports = omega arith;
    writes = λ buf. (address_error_round_trip a buf fam code h).0;
  };
  reads = (address_error_round_trip a [] fam code h).1;
}

pub xor_address_length-new :
    (v6 : Bool) (port : ℕ) (addr tid : Bytes)
    → xor_address_length (new_xor_address tid (stun_address v6 port addr)) ≡ 4 + address_size v6
unfolding new_xor_address ipv4 ipv6
xor_address_length-new true port addr tid = refl
xor_address_length-new false port addr tid = refl

abbrev pub xor_address_coded :
    (v6 : Bool) (type port : ℕ) (addr tid : Bytes)
    → IsU16 type
    → IsU16 port
    → All IsByte addr
    → All IsByte tid
    → length tid ≡ 12
    → length addr ≡ address_size v6
    → Coded
xor_address_coded v6 type port addr tid ht hp ha htid etid ea = record {
  Attr = XorAddressAttr;
  attr = xor_address_attribute type;
  decode_of = λ s. decode_xor_address s tid;
  attribute = new_xor_address tid (stun_address v6 port addr);
  value = xor_value v6 port addr tid;
  law = record {
    reports =
        xor_address_length-new v6 port addr tid ∙ sym (length-xor_value v6 port addr tid etid ea);
    writes = λ buf. (xor_address_round_trip v6 type port addr tid buf ht hp ha htid etid ea).0;
  };
  reads = (xor_address_round_trip v6 type port addr tid [] ht hp ha htid etid ea).1;
}

abbrev pub unknown_attributes_coded :
    (a : UnknownAttributesAttr)
    → All IsU16 a.unknown_attrs
    → IsU16 (length a.unknown_attrs * 2)
    → Coded
unknown_attributes_coded a h fits = record {
  Attr = UnknownAttributesAttr;
  attr = unknown_attribute_list;
  decode_of = decode_unknown;
  attribute = a;
  value = types_bytes a.unknown_attrs;
  law = record {
    reports = sym (length-types_bytes a.unknown_attrs);
    writes = λ buf. (unknown_attributes_round_trip a buf h fits).0;
  };
  reads = (unknown_attributes_round_trip a [] h fits).1;
}

abbrev pub password_algorithm_coded :
    (a : PasswordAlgorithmAttr)
    → IsU16 a.entry.algorithm
    → 4 + pad4 (length a.entry.parameters) < 2 ^ 16
    → Coded
password_algorithm_coded a ha hl = record {
  Attr = PasswordAlgorithmAttr;
  attr = password_algorithm_attribute;
  decode_of = decode_password_algorithm;
  attribute = a;
  value = tlv a.entry.algorithm a.entry.parameters ++ [];
  law = record {
    reports =
        sym (
          ap length (append-nil (tlv a.entry.algorithm a.entry.parameters)) ∙ length-entry a.entry);
    writes = λ buf. rw append-nil ((password_algorithm_round_trip a buf [] ha hl).0);
  };
  reads = (password_algorithm_round_trip a [] [] ha hl).1;
}

abbrev pub password_algorithms_coded :
    (a : PasswordAlgorithmsAttr)
    → All FitsEntry a.entries
    → IsU16 (password_algorithms_length a)
    → Coded
password_algorithms_coded a h fits = record {
  Attr = PasswordAlgorithmsAttr;
  attr = password_algorithms_attribute;
  decode_of = decode_password_algorithms;
  attribute = a;
  value = entries_bytes a.entries ++ [];
  law = record {
    reports =
        sym (ap length (append-nil (entries_bytes a.entries)) ∙ length-entries_bytes a.entries);
    writes =
        λ buf. rw append-nil ((password_algorithms_round_trip a buf [] h fits (omega arith)).0);
  };
  reads = (password_algorithms_round_trip a [] [] h fits (omega arith)).1;
}
