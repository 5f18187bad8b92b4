-- ===== src/ChannelData.antt =====
-- include/stunxx/ChannelData.hpp: the frame of a channel message of TURN.
use libstunxx.Common.{
  ℕ, ◌+◌, ◌-◌, ◌≤◌, ◌≡◌, refl, ap, ◌∙◌, Bool, true, false, not, ◌&&◌, Option, none, some, [], ◌++◌,
  arith, ltb, leb, if◌then◌else◌, if_false, length, length-append, append_assoc, u16, IsU16, pad4,
  le→ltb,
}
use libstunxx.Memory.{Bytes, Outcome, done, ◌>>=◌, store, fetch}
use libstunxx.Memory.Laws.{fetch-behind, bind_assoc}
use libstunxx.Stun.Wire.{
  read_be16, read_be16-be16, write_be16, write_header, be16, tlv, zeros, put_tlv,
}
use libstunxx.Attr.Frame.{guarded, return_true}
use libstunxx.Attr.Written.{copied_value}

abbrev pub chan_header_size : ℕ
chan_header_size = 4

pub record ChannelData : Type 0 where
  pub channel : ℕ
  pub payload : Bytes

unfoldable pub is_valid_channel : ℕ → Bool
is_valid_channel ch = leb 0x4000 ch && leb ch 0x7fff

abbrev pub padded_length : ChannelData → ℕ
padded_length c = pad4 (length c.payload)

abbrev pub frame_size : ChannelData → ℕ
frame_size c = chan_header_size + padded_length c

unfoldable pub encode_channel_data : ChannelData → Bytes → Outcome (Bool × Bytes)
encode_channel_data c buf =
    if not (is_valid_channel c.channel)
    then done (false, buf)
    else if ltb (length buf) (frame_size c)
    then done (false, buf)
    else (do
      b0 ← write_be16 0 c.channel buf
      b1 ← write_be16 2 (u16 (length c.payload)) b0
      b2 ← store chan_header_size c.payload b1
      b3 ←
          (if ltb 0 (padded_length c - length c.payload)
            then store (chan_header_size + length c.payload)
                (zeros (padded_length c - length c.payload)) b2
            else done b2)
      return_true b3)

unfoldable pub decode_channel_data : Bytes → Outcome (Option ChannelData)
decode_channel_data buf = if ltb (length buf) chan_header_size then done none else (do
  s ← fetch 0 2 buf
  channel ← read_be16 s
  if not (is_valid_channel channel) then done none else (do
    t ← fetch 2 2 buf
    len ← read_be16 t
    if ltb (length buf) (chan_header_size + len) then done none else (do
      payload ← fetch chan_header_size len buf
      done (some (record { channel = channel; payload = payload })))))

unfoldable pub is_channel_data : Bytes → Outcome Bool
is_channel_data buf =
    if ltb (length buf) 2
    then done false
    else (do s ← fetch 0 2 buf; channel ← read_be16 s; done (is_valid_channel channel))

narrow : (ch : ℕ) → is_valid_channel ch ≡ true → IsU16 ch
unfolding is_valid_channel
narrow ch valid = ground arith

-- A frame with a valid channel number and a payload of fewer than 65536 bytes is written, on a span
-- of any size, as the number, the length, the payload and zeros up to a multiple of four, or false
-- is answered and nothing written if that does not fit; and from those bytes, whatever follows them,
-- the frame is read back without the padding, and they are recognised as a frame.
pub channel_data_round_trip :
    (c : ChannelData) (buf rest : Bytes)
    → is_valid_channel c.channel ≡ true
    → IsU16 (length c.payload)
    → (encode_channel_data c buf ≡ put_tlv c.channel c.payload buf)
      × (decode_channel_data (tlv c.channel c.payload ++ rest) ≡ done (some c))
      × (is_channel_data (tlv c.channel c.payload ++ rest) ≡ done true)
unfolding encode_channel_data decode_channel_data is_channel_data write_header
channel_data_round_trip c buf rest valid h = (
  if_false _ _ (ap not valid)
      ∙ rw same (
          guarded c.channel c.payload buf _ λ fits.
            bind_assoc (write_be16 0 c.channel buf) (write_be16 2 (length c.payload)) _
            ∙ copied_value c.channel c.payload buf wide h fits),
  rw (
    size,
    front,
    read_be16-be16 c.channel [] wide,
    valid,
    second,
    read_be16-be16 (length c.payload) [] h,
    whole,
    third,
  ),
  rw (size2, front, read_be16-be16 c.channel [] wide, valid),
)
  where
    wide : IsU16 c.channel
    wide = narrow c.channel valid

    same : u16 (length c.payload) ≡ length c.payload
    same = omega arith

    pad : Bytes
    pad = zeros (pad4 (length c.payload) - length c.payload)

    frame : Bytes
    frame = tlv c.channel c.payload ++ rest

    parts : frame ≡ be16 c.channel ++ (be16 (length c.payload) ++ (c.payload ++ (pad ++ rest)))
    parts =
        append_assoc ((be16 c.channel ++ be16 (length c.payload)) ++ c.payload) pad rest
        ∙ append_assoc (be16 c.channel ++ be16 (length c.payload)) c.payload (pad ++ rest)

    long : 4 + length c.payload ≤ length frame
    long = omega (arith, ap length parts, length-append {0} c.payload (pad ++ rest))

    size : ltb (length frame) 4 ≡ false
    size = le→ltb (length frame) 4 (omega (arith, long))

    size2 : ltb (length frame) 2 ≡ false
    size2 = le→ltb (length frame) 2 (omega (arith, long))

    whole : ltb (length frame) (4 + length c.payload) ≡ false
    whole = le→ltb (length frame) (4 + length c.payload) long

    front : fetch 0 2 frame ≡ done (be16 c.channel)
    front = ap (fetch 0 2) parts ∙ fetch-behind 0 2 [] (be16 c.channel) _ refl refl

    second : fetch 2 2 frame ≡ done (be16 (length c.payload))
    second =
        ap (fetch 2 2) parts
        ∙ fetch-behind 2 2 (be16 c.channel) (be16 (length c.payload)) (c.payload ++ (pad ++ rest))
            refl refl

    third : fetch 4 (length c.payload) frame ≡ done c.payload
    third =
        ap (fetch 4 (length c.payload)) parts
        ∙ fetch-behind 4 (length c.payload) (be16 c.channel ++ be16 (length c.payload)) c.payload
            (pad ++ rest) refl refl
