-- ===== src/Stun/Kinds.antt =====
-- The tests of Stun.hpp on a message class and on an attribute type.
use libstunxx.Common.{
  ℕ, ◌+◌, ◌*◌, ◌/◌, ◌%◌, ◌^◌, bit_and, ◌≡◌, refl, sym, ◌↔◌, ◌⊎◌, inl, inr, Bool, true, false, not,
  ◌||◌, List, [], ◌∷◌, arith, ◌==◌, ltb, ==_iff, Bool-cases, IsU16,
}
use libstunxx.Common.Bits.{bit_and_middle}
use libstunxx.Common.Bits.Step.{bit_and_step}
use libstunxx.Stun.Types.{StunAttrType, attr_number}
use libstunxx.Stun.Types.{mapped_address, username, message_integrity, error_code}
use libstunxx.Stun.Types.{unknown_attributes, realm, nonce, requested_address_family}
use libstunxx.Stun.Types.{message_integrity_sha256, password_algorithm, user_hash}
use libstunxx.Stun.Types.{xor_mapped_address, priority, use_candidate}
use libstunxx.Stun.Types.{additional_address_family, address_error_code}
use libstunxx.Stun.Types.{password_algorithms, alternate_domain, software, alternate_server}
use libstunxx.Stun.Types.{fingerprint, ice_controlled, ice_controlling, channel_number}
use libstunxx.Stun.Types.{lifetime, xor_peer_address, data_attr, xor_relayed_address}
use libstunxx.Stun.Types.{even_port, requested_transport, dont_fragment, reservation_token}
use libstunxx.Stun.Types.{connection_id}

abbrev pub stun_class_mask : ℕ
stun_class_mask = 0x0110

unfoldable pub is_response : ℕ → Bool
is_response cls = not (bit_and cls 0x0100 == 0)

unfoldable pub is_request : ℕ → Bool
is_request cls = bit_and cls stun_class_mask == 0

unfoldable pub is_indication : ℕ → Bool
is_indication cls = bit_and cls stun_class_mask == 0x0010

-- The case labels of the switch, in its order.
abbrev known_cases : List StunAttrType
known_cases =
    mapped_address ∷ username ∷ message_integrity ∷ error_code ∷ unknown_attributes ∷ realm ∷ nonce
    ∷ requested_address_family ∷ message_integrity_sha256 ∷ password_algorithm ∷ user_hash
    ∷ xor_mapped_address ∷ priority ∷ use_candidate ∷ additional_address_family ∷ address_error_code
    ∷ password_algorithms ∷ alternate_domain ∷ software ∷ alternate_server ∷ fingerprint
    ∷ ice_controlled ∷ ice_controlling ∷ channel_number ∷ lifetime ∷ xor_peer_address ∷ data_attr
    ∷ xor_relayed_address ∷ even_port ∷ requested_transport ∷ dont_fragment ∷ reservation_token
    ∷ connection_id ∷ []

-- Whether a switch on `type` falls into one of the cases.
switch_hits : ℕ → List StunAttrType → Bool
switch_hits type [] = false
switch_hits type (c ∷ cases) = type == attr_number c || switch_hits type cases

unfoldable pub is_known_attr_type : ℕ → Bool
unfolding switch_hits
is_known_attr_type type = switch_hits type known_cases

unfoldable pub is_comprehension_required : ℕ → Bool
is_comprehension_required type = bit_and type 0x8000 == 0

switch_hits_sound :
    (type : ℕ) (cases : List StunAttrType)
    → switch_hits type cases ≡ true
    → (t : StunAttrType) × (attr_number t ≡ type)
unfolding switch_hits
switch_hits_sound type [] h = cc
switch_hits_sound type (c ∷ cases) h = elim (Bool-cases (type == attr_number c)) [
  | inl hit ↦ (c, sym ((==_iff type (attr_number c)).0 hit))
  | inr miss ↦ switch_hits_sound type cases (rw miss at h)
]

every_case_hits : (t : StunAttrType) → is_known_attr_type (attr_number t) ≡ true
unfolding is_known_attr_type
every_case_hits mapped_address = refl
every_case_hits _ = refl

-- The switch knows exactly the numbers of the enumeration: it returns true on a type if and only if
-- some enumerator of StunAttrType has that number.
pub is_known_attr_type_iff :
    (type : ℕ) → (is_known_attr_type type ≡ true) ↔ ((t : StunAttrType) × (attr_number t ≡ type))
unfolding is_known_attr_type
is_known_attr_type_iff type =
    (switch_hits_sound type known_cases, λ (t, e). rw e at (every_case_hits t))

-- For a 16-bit type, the test of bit 15 is the range 0x0000 to 0x7fff that the RFC gives.
pub is_comprehension_required_range :
    (type : ℕ) → IsU16 type → is_comprehension_required type ≡ ltb type 0x8000
unfolding is_comprehension_required
is_comprehension_required_range type h = ground (arith, bit_and_middle 15 1 type)

pub class_mask_bits :
    (t : ℕ) → bit_and t stun_class_mask ≡ t / 2 ^ 4 % 2 * 2 ^ 4 + t / 2 ^ 8 % 2 * 2 ^ 8
class_mask_bits t = omega (
  arith,
  bit_and_step t 0x110,
  bit_and_step (t / 2) 0x88,
  bit_and_step (t / 2 / 2) 0x44,
  bit_and_step (t / 2 / 2 / 2) 0x22,
  bit_and_step (t / 2 / 2 / 2 / 2) 0x11,
  bit_and_step (t / 2 / 2 / 2 / 2 / 2) 8,
  bit_and_middle 3 1 (t / 2 / 2 / 2 / 2 / 2),
)

-- What exactly one of three tests is.
abbrev pub OneOf : Bool → Bool → Bool → Type 0
OneOf a b c =
    ((a ≡ true) × (b ≡ false) × (c ≡ false))
    ⊎ ((a ≡ false) × (b ≡ true) × (c ≡ false))
    ⊎ ((a ≡ false) × (b ≡ false) × (c ≡ true))
