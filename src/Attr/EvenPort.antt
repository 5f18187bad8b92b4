-- ===== src/Attr/EvenPort.antt =====
-- include/stunxx/attributes/NumericAttrT.hpp: the specialisation for EVEN-PORT.
use libstunxx.Common.{
  ℕ, ◌+◌, bit_and, ◌≡◌, refl, ap, Bool, true, false, not, Option, none, some, [], ◌∷◌, arith, ltb,
  ◌==◌, if◌then◌else◌, length,
}
use libstunxx.Memory.{Bytes, Outcome, done, ◌>>=◌, store, byte_at}
use libstunxx.Stun.Wire.{attr_header_size, write_header, put_tlv}
use libstunxx.Attr.Concept.{StunAttribute}
use libstunxx.Attr.Frame.{guarded, return_true, header_body}

abbrev pub even_port_type : ℕ
even_port_type = 0x0018

pub record EvenPortAttr : Type 0 where
  pub reserve_pair : Bool

unfoldable pub set_reserve_pair : Bool → EvenPortAttr → EvenPortAttr
set_reserve_pair x a = record { reserve_pair = x }

abbrev pub even_port_padded_length : ℕ
even_port_padded_length = 4

abbrev pub reserve_byte : Bool → ℕ
reserve_byte r = if r then 0x80 else 0x00

unfoldable pub decode_even_port : Bytes → Outcome (Option EvenPortAttr)
decode_even_port buf =
    if ltb (length buf) 1
    then done none
    else (do b ← byte_at 0 buf; done (some (record { reserve_pair = not (bit_and b 0x80 == 0) })))

unfoldable pub encode_even_port : EvenPortAttr → Bytes → Outcome (Bool × Bytes)
encode_even_port a buf =
    if ltb (length buf) (attr_header_size + even_port_padded_length) then done (false, buf) else (do
      b1 ← write_header even_port_type 1 buf
      b2 ← store attr_header_size (reserve_byte a.reserve_pair ∷ 0 ∷ 0 ∷ 0 ∷ []) b1
      return_true b2)

abbrev pub even_port_attribute : StunAttribute EvenPortAttr
even_port_attribute = record {
  type = even_port_type;
  length_of = λ a. 1;
  encode = encode_even_port;
}

reserve_bit : (r : Bool) → not (bit_and (reserve_byte r) 0x80 == 0) ≡ r
reserve_bit true = refl
reserve_bit false = refl

-- On a span of any size, the flag is written as the top bit of a value of length 1 that is padded to
-- four bytes, or false is answered and nothing written if it does not fit; and the value decodes to
-- the flag.
pub even_port_round_trip :
    (a : EvenPortAttr) (buf : Bytes)
    → (encode_even_port a buf ≡ put_tlv even_port_type (reserve_byte a.reserve_pair ∷ []) buf)
      × (decode_even_port (reserve_byte a.reserve_pair ∷ []) ≡ done (some a))
unfolding encode_even_port decode_even_port byte_at
even_port_round_trip a buf = (
  guarded 0x18 (reserve_byte a.reserve_pair ∷ []) buf _ λ fits.
      header_body 0x18 1 (reserve_byte a.reserve_pair ∷ 0 ∷ 0 ∷ 0 ∷ []) buf (omega arith)
        (omega arith) fits,
  ap (λ r. done (some (record { reserve_pair = r }))) (reserve_bit a.reserve_pair),
)
