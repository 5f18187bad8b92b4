-- ===== src/Decoder.antt =====
-- include/stunxx/Decoder.hpp, src/Decoder.cpp: parsing a message. A decoder is its state; a method
-- that changes it returns the new one.
pub mod Walk
pub mod Parse
pub mod Access
pub mod ParseHeader
pub mod Collect
pub mod Spelled
pub mod Exact
use libstunxx.Common.{
  ℕ, zero, suc, ◌+◌, ◌-◌, ◌^◌, Bool, true, false, not, ◌&&◌, Option, none, some, List, [], ◌∷◌,
  ◌++◌, ltb, ◌==◌, if◌then◌else◌, length, replicate, pad4, bit_and,
}
use libstunxx.Memory.{Bytes, Outcome, done, fault, ◌>>=◌, fetch}
use libstunxx.Stun.Wire.{attr_header_size, read_be16, read_be32}
use libstunxx.Stun.Kinds.{
  is_comprehension_required, is_known_attr_type, is_response, is_request, is_indication,
  stun_class_mask,
}
use libstunxx.Stun.Header.{StunHeader, magic_cookie_value, stun_header_size, transaction_id_size}
use libstunxx.Table
use libstunxx.Table.{AttrHeader, AttributeTable, new_table, append_header}

pub record Decoder : Type 0 where
  -- whether buffer_.data() is null
  pub null : Bool
  pub buffer : Bytes
  pub header : StunHeader
  pub attributes : AttributeTable
  pub unknown_required : List ℕ
  pub offset : ℕ

abbrev blank_header : StunHeader
blank_header = record {
  msg_type = 0;
  msg_length = 0;
  magic_cookie = 0;
  transaction_id = replicate transaction_id_size 0;
}

-- Decoder(buffer), on a span that is not null
unfoldable pub new_decoder : Bytes → Decoder
unfolding new_table
new_decoder buf = record {
  null = false;
  buffer = buf;
  header = blank_header;
  attributes = new_table;
  unknown_required = [];
  offset = 0;
}

-- read_be16(buf.subspan(off, 2)), read_be32(buf.subspan(off, 4))
unfoldable pub peek16 : ℕ → Bytes → Outcome ℕ
unfolding fetch read_be16
peek16 off buf = do s ← fetch off 2 buf; read_be16 s

unfoldable pub peek32 : ℕ → Bytes → Outcome ℕ
unfolding fetch read_be32
peek32 off buf = do s ← fetch off 4 buf; read_be32 s

-- The reads at the head of `decode`.
unfoldable pub read_fields : Bytes → Outcome StunHeader
read_fields buf = do
  type ← peek16 0 buf
  len ← peek16 2 buf
  cookie ← peek32 4 buf
  tid ← fetch 8 transaction_id_size buf
  done (record { msg_type = type; msg_length = len; magic_cookie = cookie; transaction_id = tid })

-- The reads at the head of `parseHeader`, which fill a value-initialised header.
unfoldable pub fill_header : Bytes → Outcome StunHeader
fill_header buf = do
  type ← peek16 0 buf
  let header1 = record blank_header { msg_type = type }
  len ← peek16 2 buf
  let header2 = record header1 { msg_length = len }
  cookie ← peek32 4 buf
  let header3 = record header2 { magic_cookie = cookie }
  tid ← fetch 8 transaction_id_size buf
  done (record header3 { transaction_id = tid })

unfoldable pub parse_header : Bytes → Outcome (Option StunHeader)
parse_header buf = if ltb (length buf) stun_header_size then done none else (do
  header ← fill_header buf
  if not (header.magic_cookie == magic_cookie_value) then done none else done (some header))

-- The body of the loop, from the store of the header on.
unfoldable pub note : ℕ → ℕ → Decoder → Decoder
note type len d = record d {
  attributes =
      append_header d.attributes
        (record { type = type; len = len; offset = d.offset + attr_header_size });
  unknown_required =
      if is_comprehension_required type && not (is_known_attr_type type)
      then d.unknown_required ++ type ∷ []
      else d.unknown_required;
  offset = d.offset + (attr_header_size + pad4 len);
}

-- The loop of `decode`. An iteration moves the offset by 4 at least, so `message_end` rounds are
-- enough; without fuel it would fault.
unfoldable pub walk : ℕ → ℕ → Decoder → Outcome (Bool × Decoder)
walk zero message_end d = fault
walk (suc f) message_end d =
    if ltb message_end (d.offset + attr_header_size) then done (true, d) else (do
      type ← peek16 d.offset d.buffer
      len ← peek16 (d.offset + 2) d.buffer
      let next = walk f message_end (note type len d)
      if ltb (message_end - d.offset - attr_header_size) len then done (false, d) else next)

unfoldable pub decode : Decoder → Outcome (Bool × Decoder)
decode d = if ltb (length d.buffer) stun_header_size then done (false, d) else (do
  header ← read_fields d.buffer
  let d1 = record d { header = header }
  let message_end = stun_header_size + header.msg_length
  let loop = walk (suc message_end) message_end (record d1 { offset = stun_header_size })
  if not (header.magic_cookie == magic_cookie_value)
      then done (false, d1)
      else if ltb (length d.buffer) message_end
      then done (false, d1)
      else loop)

-- Decoder::parse
unfoldable pub parse : Bytes → Outcome (Option Decoder)
parse buf = do
  (accepted, d) ← decode (new_decoder buf)
  if accepted then done (some d) else done none

unfoldable pub message_class : Decoder → ℕ
message_class d = bit_and d.header.msg_type stun_class_mask

-- `~STUN_CLASS_MASK` is an int, all ones but for two bits; of it only the low 16 bits matter.
unfoldable pub message_method : Decoder → ℕ
message_method d = bit_and d.header.msg_type 0xfeef

unfoldable pub is_response_message : Decoder → Bool
is_response_message d = is_response (message_class d)

unfoldable pub is_request_message : Decoder → Bool
is_request_message d = is_request (message_class d)

unfoldable pub is_indication_message : Decoder → Bool
is_indication_message d = is_indication (message_class d)

unfoldable pub has_unknown_required : Decoder → Bool
has_unknown_required d = not (length d.unknown_required == 0)

unfoldable pub total_length : Decoder → ℕ
total_length d = d.offset

-- getAttributeHeader
unfoldable pub get_attribute_header : Decoder → ℕ → Option AttrHeader
get_attribute_header d type = Table.get d.attributes type

module _ {A : Type 0} where
  -- What is done with the header that was found.
  decode_at : (Bytes → Outcome (Option A)) → Bytes → Option AttrHeader → Outcome (Option A)
  decode_at decode_value buf none = done none
  decode_at decode_value buf (some h) =
      if ltb (length buf) (h.offset + h.len)
      then done none
      else (do s ← fetch h.offset h.len buf; decode_value s)

  -- getAttribute<AttrType>, by the type's number and its `decode`
  unfoldable pub get_attribute : ℕ → (Bytes → Outcome (Option A)) → Decoder → Outcome (Option A)
  unfolding decode_at
  get_attribute type decode_value d =
      if d.null then done none else decode_at decode_value d.buffer (Table.get d.attributes type)

  -- getAttribute<AttrType> for an attribute that needs the transaction id
  unfoldable pub get_xor_attribute :
      ℕ → (Bytes → Bytes → Outcome (Option A)) → Decoder → Outcome (Option A)
  unfolding get_attribute
  get_xor_attribute type decode_value d =
      get_attribute type (λ s. decode_value s d.header.transaction_id) d

  collect_values :
      (Bytes → Outcome (Option A)) → Bytes → List AttrHeader → List A → Outcome (List A)
  collect_values decode_value buf [] result = done result
  collect_values decode_value buf (h ∷ hs) result =
      if ltb (length buf) (h.offset + h.len) then done result else (do
        s ← fetch h.offset h.len buf
        decoded ← decode_value s
        collect_values decode_value buf hs
            (elim decoded [ none ↦ result | some a ↦ result ++ a ∷ [] ]))

  -- getAttributes<AttrType>
  unfoldable pub get_attributes : ℕ → (Bytes → Outcome (Option A)) → Decoder → Outcome (List A)
  unfolding collect_values
  get_attributes type decode_value d =
      if d.null
      then done []
      else collect_values decode_value d.buffer (Table.range d.attributes type) []

  -- getAttributes<AttrType> for an attribute that needs the transaction id
  unfoldable pub get_xor_attributes :
      ℕ → (Bytes → Bytes → Outcome (Option A)) → Decoder → Outcome (List A)
  unfolding get_attributes
  get_xor_attributes type decode_value d =
      get_attributes type (λ s. decode_value s d.header.transaction_id) d
