-- ===== src/Encoder/Named.antt =====
-- A message made of the attributes for which include/stunxx/attributes has a class.
use libstunxx.Common.{
  ℕ, ◌≡◌, refl, sym, inr, Bool, true, false, ◌||◌, some, List, [], ◌∷◌, ◌++◌, length, ◌==◌, ==_iff,
  Bool-cases, All, IsU16, inl, if◌then◌else◌,
}
use mathlib.Core.Path.{subst}
use mathlib.Core.Bool.{false≢true}
use libstunxx.Memory.{Bytes, done}
use libstunxx.Stun.Kinds.{is_known_attr_type}
use libstunxx.Stun.Endian.{little}
use libstunxx.Decoder.{Decoder, parse, has_unknown_required}
use libstunxx.Encoder.Message.{Item, FitsItem, body, message}
use libstunxx.Encoder.Required.{IsUnderstood, has_unknown_required-parse}
use libstunxx.Attr.Named.{
  priority_attr, lifetime_attr, connection_id_attr, requested_trans_attr, even_port_attr,
  use_candidate_attr, dont_fragment_attr, requested_address_family_attr,
  additional_address_family_attr, ice_controlled_attr, ice_controlling_attr, xor_mapped_addr_attr,
  xor_peer_addr_attr, xor_relayed_addr_attr, alternate_server_attr, username_attr, realm_attr,
  nonce_attr, software_attr, alternate_domain_attr,
}
use libstunxx.Attr.Data.{data_attribute}
use libstunxx.Attr.Raw.{reservation_attribute, user_hash_attribute}
use libstunxx.Attr.Channel.{channel_number_attribute}
use libstunxx.Attr.ErrorCode.{error_code_attribute}
use libstunxx.Attr.AddressError.{address_error_attribute}
use libstunxx.Attr.Algorithm.{password_algorithm_attribute}
use libstunxx.Attr.Algorithms.{password_algorithms_attribute}
use libstunxx.Attr.Unknown.{unknown_attributes_type}
use libstunxx.Attr.Words.{fingerprint_type}
use libstunxx.Attr.Integrity.{integrity_type}

-- The types of the classes; the order of the bytes of the machine plays no part in them.
abbrev pub class_types : List ℕ
class_types =
    priority_attr.type
    ∷ lifetime_attr.type
    ∷ connection_id_attr.type
    ∷ requested_trans_attr.type
    ∷ even_port_attr.type
    ∷ use_candidate_attr.type
    ∷ dont_fragment_attr.type
    ∷ requested_address_family_attr.type
    ∷ additional_address_family_attr.type
    ∷ (ice_controlled_attr little).type
    ∷ (ice_controlling_attr little).type
    ∷ xor_mapped_addr_attr.type
    ∷ xor_peer_addr_attr.type
    ∷ xor_relayed_addr_attr.type
    ∷ alternate_server_attr.type
    ∷ username_attr.text.type
    ∷ realm_attr.text.type
    ∷ nonce_attr.text.type
    ∷ software_attr.text.type
    ∷ alternate_domain_attr.text.type
    ∷ data_attribute.type
    ∷ reservation_attribute.type
    ∷ user_hash_attribute.type
    ∷ channel_number_attribute.type
    ∷ error_code_attribute.type
    ∷ address_error_attribute.type
    ∷ password_algorithm_attribute.type
    ∷ password_algorithms_attribute.type
    ∷ unknown_attributes_type
    ∷ fingerprint_type
    ∷ integrity_type false
    ∷ integrity_type true
    ∷ []

abbrev pub lists : ℕ → List ℕ → Bool
lists t [] = false
lists t (x ∷ xs) = t == x || lists t xs

lists-All : (P : ℕ → Type 0) (t : ℕ) (xs : List ℕ) → All P xs → lists t xs ≡ true → P t
lists-All P t [] all e = absurd (false≢true e)
lists-All P t (x ∷ xs) (p, all) e = elim (Bool-cases (t == x)) [
  | inl same ↦ subst P (sym ((==_iff t x).0 same)) p
  | inr other ↦ lists-All P t xs all (rw other at e)
]

all_known : (xs : List ℕ) → Bool
all_known [] = true
all_known (x ∷ xs) = if is_known_attr_type x then all_known xs else false

abbrev IsKnown : ℕ → Type 0
IsKnown t = is_known_attr_type t ≡ true

all_known-All : (xs : List ℕ) → all_known xs ≡ true → All IsKnown xs
unfolding all_known
all_known-All [] e = tt
all_known-All (x ∷ xs) e = elim (Bool-cases (is_known_attr_type x)) [
  | inl known ↦ (known, all_known-All xs (rw known at e))
  | inr unknown ↦ absurd (false≢true (rw unknown at e))
]

class_types-IsKnown : All IsKnown class_types
unfolding all_known is_known_attr_type
class_types-IsKnown = all_known-All class_types refl

listed-IsUnderstood :
    (items : List Item) → All (λ i. lists i.type class_types ≡ true) items → All IsUnderstood items
listed-IsUnderstood [] all = tt
listed-IsUnderstood (i ∷ items) (named, all) = (
  inr (lists-All IsKnown i.type class_types class_types-IsKnown named),
  listed-IsUnderstood items all,
)

-- A message whose attributes all have types of classes of the library, with lengths of 16 bits, a
-- 12-byte transaction id and less than 65536 bytes in all, parses to a decoder that has nothing unknown
-- to report. The type of the message has 16 bits.
pub has_unknown_required-named :
    (type : ℕ) (tid : Bytes) (items : List Item) (rest : Bytes)
    → IsU16 type
    → length tid ≡ 12
    → All FitsItem items
    → IsU16 (length (body items))
    → All (λ i. lists i.type class_types ≡ true) items
    → (d : Decoder) × (parse (message type tid items ++ rest) ≡ done (some d))
      × (has_unknown_required d ≡ false)
has_unknown_required-named type tid items rest ht htid fits short named =
    let (d, parsed, reports, none_unknown) =
      has_unknown_required-parse type tid items rest ht htid fits short in
    (d, parsed, none_unknown.1 (listed-IsUnderstood items named))
