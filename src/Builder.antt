-- ===== src/Builder.antt =====
-- include/stunxx/StunMessageBuilder.hpp: a chain of additions that stops at the first that fails.
pub mod MessageType
pub mod RoundTrip
pub mod Calls
pub mod Protected
pub mod ReadsBack
use libstunxx.Common.{ℕ, Bool, true, false, not, bit_or, if◌then◌else◌}
use libstunxx.Memory.{Bytes, Outcome, done, ◌>>=◌}
use libstunxx.Stun.Types.{StunMethod, StunClass, method_bits, class_bits}
use libstunxx.Stun.Endian.{Endian}
use libstunxx.Attr.Concept.{StunAttribute}
use libstunxx.Attr.Integrity.{Hmac, MessageIntegrityAttr}
use libstunxx.Encoder
use libstunxx.Encoder.{Encoder, new_encoder, new_encoder_random, add_attribute}

pub record Builder : Type 0 where
  pub valid : Bool
  pub encoder : Encoder

-- StunMessageBuilder(method, cls, transaction_id, buffer)
unfoldable pub new_builder : Endian → StunMethod → StunClass → Bytes → Bytes → Builder
new_builder e method cls transaction_id buf = record {
  valid = true;
  encoder = new_encoder e (bit_or (method_bits method) (class_bits cls)) transaction_id buf;
}

-- StunMessageBuilder(method, cls, buffer)
unfoldable pub new_builder_random : Endian → StunMethod → StunClass → (ℕ → ℕ) → Bytes → Builder
new_builder_random e method cls draw buf = record {
  valid = true;
  encoder = new_encoder_random e (bit_or (method_bits method) (class_bits cls)) draw buf;
}

unfoldable pub answered : Bool × Encoder → Builder
answered (ok, enc) = record { valid = ok; encoder = enc }

-- add<Attr>(args), on the attribute that the arguments construct
unfoldable pub add : {A : Type 0} → StunAttribute A → A → Builder → Outcome Builder
unfolding answered
add attr a b =
    if not b.valid
    then done b
    else (do added ← add_attribute attr a b.encoder; done (answered added))

-- add<Attr>(args) of a message integrity, which the arguments construct and which is gone afterwards
unfoldable pub add_integrity :
    Endian → Hmac → Bool → MessageIntegrityAttr → Builder → Outcome Builder
unfolding answered
add_integrity e hmac_of is_sha256 attr b = if not b.valid then done b else (do
  (ok, _, enc) ← Encoder.add_integrity e hmac_of is_sha256 attr b.encoder
  done (answered (ok, enc)))

-- addFingerprint
unfoldable pub add_fingerprint : Endian → Builder → Outcome Builder
unfolding answered
add_fingerprint e b =
    if not b.valid
    then done b
    else (do added ← Encoder.add_fingerprint e b.encoder; done (answered added))

-- finalize(), which does not look at `valid_`
unfoldable pub finalize : Endian → Builder → Outcome Encoder
finalize e b = Encoder.finalize e b.encoder
