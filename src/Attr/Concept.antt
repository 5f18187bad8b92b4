-- ===== src/Attr/Concept.antt =====
-- The concept StunAttribute of Encoder.hpp: what the encoder asks of an attribute. The interface has
-- the operations; `IsAttribute` is the law that the implementations' theorems fill.
use libstunxx.Common.{ℕ, Bool, Option, some, ◌≡◌, length}
use libstunxx.Memory.{Bytes, Outcome, done}
use libstunxx.Stun.Wire.{put_tlv}

pub record StunAttribute (A : Type 0) : Type 0 where
  pub type : ℕ
  pub length_of : A → ℕ
  pub encode : A → Bytes → Outcome (Bool × Bytes)

-- The attribute `a` goes onto the wire as the bytes `value`, whatever span it is given.
pub record IsAttribute {A : Type 0} (attr : StunAttribute A) (a : A) (value : Bytes) : Type 0 where
  pub reports : attr.length_of a ≡ length value
  pub writes : (buf : Bytes) → attr.encode a buf ≡ put_tlv attr.type value buf

-- An attribute of a class, with its value on the wire, from which the class decodes it again.
pub record Coded : Type 1 where
  pub Attr : Type 0
  pub attr : StunAttribute Attr
  pub decode_of : Bytes → Outcome (Option Attr)
  pub attribute : Attr
  pub value : Bytes
  pub law : IsAttribute attr attribute value
  pub reads : decode_of value ≡ done (some attribute)
