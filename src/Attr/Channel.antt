-- ===== src/Attr/Channel.antt =====
-- include/stunxx/attributes/ChannelNumberAttr.hpp: CHANNEL-NUMBER.
use libstunxx.Common.{
  ℕ, ◌+◌, ◌≡◌, Bool, false, not, ◌&&◌, ◌||◌, Option, none, some, [], ◌∷◌, ◌++◌, arith, ltb, leb,
  ◌==◌, if◌then◌else◌, length, drop, drop-drop, length-drop, IsU16,
}
use libstunxx.Memory.{Bytes, Outcome, done, ◌>>=◌, store, fetch}
use libstunxx.Memory.Laws.{store-behind}
use libstunxx.Stun.Wire.{
  attr_header_size, read_be16, read_be16-be16, write_be16, write_header, be16, put_tlv,
  write_header_lem, write_be16-behind,
}
use libstunxx.Attr.Concept.{StunAttribute}
use libstunxx.Attr.Frame.{guarded, return_true}

abbrev pub channel_number_type : ℕ
channel_number_type = 0x000c

pub record ChannelNumberAttr : Type 0 where
  pub channel_number : ℕ

unfoldable pub set_channel_number : ℕ → ChannelNumberAttr → ChannelNumberAttr
set_channel_number x a = record { channel_number = x }

unfoldable pub decode_channel_number : Bytes → Outcome (Option ChannelNumberAttr)
decode_channel_number buf = if not (length buf == 4) then done none else (do
  front ← fetch 0 2 buf
  channel ← read_be16 front
  if ltb channel 0x4000 || ltb 0x7fff channel then done none else (do
    back ← fetch 2 2 buf
    rffu ← read_be16 back
    if not (rffu == 0) then done none else done (some (record { channel_number = channel }))))

unfoldable pub encode_channel_number : ChannelNumberAttr → Bytes → Outcome (Bool × Bytes)
encode_channel_number a buf =
    if ltb (length buf) (attr_header_size + 4) then done (false, buf) else (do
      b1 ← write_header channel_number_type 4 buf
      b2 ← write_be16 attr_header_size a.channel_number b1
      b3 ← store (attr_header_size + 2) (0 ∷ 0 ∷ []) b2
      return_true b3)

abbrev pub channel_number_attribute : StunAttribute ChannelNumberAttr
channel_number_attribute = record {
  type = channel_number_type;
  length_of = λ a. 4;
  encode = encode_channel_number;
}

-- On a span of any size, a 16-bit channel number is written before two zero bytes, or false is
-- answered and nothing written if that does not fit; and the four bytes decode to the number if it
-- is from 0x4000 to 0x7fff, and to nothing if it is not.
pub channel_number_round_trip :
    (a : ChannelNumberAttr) (buf : Bytes)
    → IsU16 a.channel_number
    → (encode_channel_number a buf
        ≡ put_tlv channel_number_type (be16 a.channel_number ++ 0 ∷ 0 ∷ []) buf)
      × (decode_channel_number (be16 a.channel_number ++ 0 ∷ 0 ∷ []) ≡ (
          if leb 0x4000 a.channel_number && leb a.channel_number 0x7fff
          then done (some a)
          else done none))
unfolding encode_channel_number decode_channel_number fetch
channel_number_round_trip a buf h = (
  guarded channel_number_type (be16 a.channel_number ++ 0 ∷ 0 ∷ []) buf _ λ fits.
      rw (write_header_lem 0x0c 4 buf (omega arith) (omega arith) (omega arith)) (
        rw
          (write_be16-behind 4 a.channel_number (be16 0x0c ++ be16 4) (drop 4 buf) (omega arith) h
            (rw length-drop (omega arith)))
          (rw
            (store-behind 6 ((be16 0x0c ++ be16 4) ++ be16 a.channel_number) (0 ∷ 0 ∷ [])
              (drop 2 (drop 4 buf)) (omega arith) (rw (length-drop, length-drop) (omega arith)))
            (rw (drop-drop, drop-drop)))),
  rw (read_be16-be16 a.channel_number [] h, read_be16-be16 0 [] (omega arith)) (ground arith),
)
