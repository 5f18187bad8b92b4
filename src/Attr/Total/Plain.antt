-- ===== src/Attr/Total/Plain.antt =====
-- The decoders of numbers, texts, bytes and flags on any bytes.
use libstunxx.Common.{ℕ, Bool, not, ◌||◌, ◌==◌, ltb, none, [], ◌∷◌, arith, length}
use libstunxx.Memory.{Bytes}
use libstunxx.Memory.Returns.{
  Returns, done-Returns, if-Returns, bind-Returns, byte_at-Returns, fetch-Returns,
}
use libstunxx.Stun.Endian.{Endian}
use libstunxx.Attr.Numeric.{decode_numeric}
use libstunxx.Attr.Transport.{decode_transport}
use libstunxx.Attr.EvenPort.{decode_even_port}
use libstunxx.Attr.Marker.{decode_marker}
use libstunxx.Attr.Family.{decode_address_family}
use libstunxx.Attr.Strings.{decode_string}
use libstunxx.Attr.Raw.{decode_reservation, decode_user_hash}
use libstunxx.Attr.Channel.{decode_channel_number}
use libstunxx.Attr.Words.{decode_fingerprint, decode_ice_control}
use libstunxx.Attr.Integrity.{expected_size, decode_integrity}
use libstunxx.Attr.Total.Reads.{
  read_be16-Returns, read_be32-Returns, sized-Returns, at_least-Returns,
}

pub decode_marker-Returns : (buf : Bytes) → Returns (decode_marker buf)
unfolding decode_marker
decode_marker-Returns [] = done-Returns _
decode_marker-Returns (b ∷ buf) = done-Returns none

module _ (buf : Bytes) where
  pub decode_numeric-Returns : Returns (decode_numeric buf)
  unfolding decode_numeric
  decode_numeric-Returns = at_least-Returns 4 buf _ _ (done-Returns none) λ h.
      fetch-Returns 0 4 buf (omega arith)
        λ s e. bind-Returns (read_be32-Returns s e) λ v. done-Returns _

  pub decode_transport-Returns : Returns (decode_transport buf)
  unfolding decode_transport
  decode_transport-Returns =
      sized-Returns 4 buf _ _ (done-Returns none)
        λ h. bind-Returns (byte_at-Returns 0 buf (omega arith)) λ p. done-Returns _

  pub decode_even_port-Returns : Returns (decode_even_port buf)
  unfolding decode_even_port
  decode_even_port-Returns =
      at_least-Returns 1 buf _ _ (done-Returns none)
        λ h. bind-Returns (byte_at-Returns 0 buf (omega arith)) λ p. done-Returns _

  pub decode_address_family-Returns : Returns (decode_address_family buf)
  unfolding decode_address_family
  decode_address_family-Returns = sized-Returns 4 buf _ _ (done-Returns none) λ h.
      bind-Returns (byte_at-Returns 1 buf (omega arith)) λ b1.
        bind-Returns (byte_at-Returns 2 buf (omega arith)) λ b2.
          bind-Returns (byte_at-Returns 3 buf (omega arith)) λ b3.
            if-Returns (not (b1 == 0) || not (b2 == 0) || not (b3 == 0)) _ _
              (λ _. done-Returns none)
              λ _. bind-Returns (byte_at-Returns 0 buf (omega arith)) λ b0. done-Returns _

  pub decode_string-Returns : (max_bytes : ℕ) → Returns (decode_string max_bytes buf)
  unfolding decode_string
  decode_string-Returns max_bytes =
      if-Returns (ltb max_bytes (length buf)) _ _ (λ _. done-Returns none) λ _. done-Returns _

  pub decode_reservation-Returns : Returns (decode_reservation buf)
  unfolding decode_reservation
  decode_reservation-Returns =
      sized-Returns 8 buf _ _ (done-Returns none)
        λ h. fetch-Returns 0 8 buf (omega arith) λ s e. done-Returns _

  pub decode_user_hash-Returns : Returns (decode_user_hash buf)
  unfolding decode_user_hash
  decode_user_hash-Returns =
      sized-Returns 32 buf _ _ (done-Returns none)
        λ h. fetch-Returns 0 32 buf (omega arith) λ s e. done-Returns _

  pub decode_channel_number-Returns : Returns (decode_channel_number buf)
  unfolding decode_channel_number
  decode_channel_number-Returns = sized-Returns 4 buf _ _ (done-Returns none) λ h.
      fetch-Returns 0 2 buf (omega arith) λ s e. bind-Returns (read_be16-Returns s e) λ channel.
        if-Returns (ltb channel 0x4000 || ltb 0x7fff channel) _ _ (λ _. done-Returns none)
          λ _. fetch-Returns 2 2 buf (omega arith) λ t e'.
            bind-Returns (read_be16-Returns t e')
              λ rffu. if-Returns (not (rffu == 0)) _ _ (λ _. done-Returns none) λ _. done-Returns _

  pub decode_fingerprint-Returns : (e : Endian) → Returns (decode_fingerprint e buf)
  unfolding decode_fingerprint
  decode_fingerprint-Returns e =
      sized-Returns 4 buf _ _ (done-Returns none)
        λ h. fetch-Returns 0 4 buf (omega arith) λ s e'. done-Returns _

  pub decode_ice_control-Returns : (e : Endian) → Returns (decode_ice_control e buf)
  unfolding decode_ice_control
  decode_ice_control-Returns e =
      sized-Returns 8 buf _ _ (done-Returns none)
        λ h. fetch-Returns 0 8 buf (omega arith) λ s e'. done-Returns _

  pub decode_integrity-Returns : (is_sha256 : Bool) → Returns (decode_integrity is_sha256 buf)
  unfolding decode_integrity
  decode_integrity-Returns is_sha256 =
      if-Returns (not (length buf == expected_size is_sha256)) _ _ (λ _. done-Returns none)
        λ _. done-Returns _
