-- ===== src/Attr/Marker.antt =====
-- include/stunxx/attributes/MarkerAttrT.hpp: USE-CANDIDATE, DONT-FRAGMENT.
use libstunxx.Common.{
  ℕ, ◌≡◌, ◌↔◌, refl, Bool, false, Option, none, some, [], ◌∷◌, arith, ltb, if◌then◌else◌, length,
  IsU16,
}
use libstunxx.Memory.{Bytes, Outcome, done, done-injective, ◌>>=◌}
use libstunxx.Stun.Wire.{attr_header_size, write_header, put_tlv, write_header_lem}
use libstunxx.Attr.Concept.{StunAttribute}
use libstunxx.Attr.Frame.{guarded, return_true}

pub record MarkerAttr : Type 0 where

unfoldable pub decode_marker : Bytes → Outcome (Option MarkerAttr)
decode_marker [] = done (some (record {}))
decode_marker (b ∷ buf) = done none

unfoldable pub encode_marker : ℕ → MarkerAttr → Bytes → Outcome (Bool × Bytes)
encode_marker type a buf =
    if ltb (length buf) attr_header_size
    then done (false, buf)
    else (do b1 ← write_header type 0 buf; return_true b1)

abbrev pub marker_attribute : ℕ → StunAttribute MarkerAttr
marker_attribute type = record { type = type; length_of = λ a. 0; encode = encode_marker type }

marker_empty : (a : MarkerAttr) (value : Bytes) → decode_marker value ≡ done (some a) → value ≡ []
unfolding decode_marker
marker_empty a [] e = refl
marker_empty a (b ∷ value) e = cc (done-injective e)

-- On a span of any size, for a 16-bit type, the header alone is written with length 0, or false is
-- answered and nothing written if it does not fit; a value decodes if and only if it is empty.
pub marker_round_trip :
    (type : ℕ) (a : MarkerAttr) (buf value : Bytes)
    → IsU16 type
    → (encode_marker type a buf ≡ put_tlv type [] buf)
      × ((decode_marker value ≡ done (some a)) ↔ (value ≡ []))
unfolding encode_marker decode_marker
marker_round_trip type a buf value ht = (
  guarded type [] buf _ λ fits. rw (write_header_lem type 0 buf ht (omega arith) fits),
  (marker_empty a value, λ e. rw (e, decode_marker)),
)
