-- ===== src/Attr/XorAddress.antt =====
-- include/stunxx/attributes/XorAddressAttrT.hpp: an address and a port, masked with the magic cookie
-- and the transaction id.
pub mod Loops
pub mod Value
pub mod RoundTrip
pub mod Text
use libstunxx.Common.{
  ℕ, zero, suc, ◌+◌, ◌-◌, ◌*◌, ◌/◌, ◌%◌, ◌^◌, ◌≤◌, ◌<◌, ◌≡◌, refl, sym, ap, ◌∙◌, Bool, true, false,
  not, Option, none, some, [], ◌∷◌, ◌++◌, arith, ltb, ◌==◌, if◌then◌else◌, length, take, drop,
  replicate, bit_and, bit_xor, u8, u16, IsU16, pad4, ◌>>>◌,
}
use libstunxx.Memory.{Bytes, Outcome, done, ◌>>=◌, store, fetch, byte_at}
use libstunxx.Stun.Types.{ipv4_family, ipv6_family}
use libstunxx.Stun.Wire.{attr_header_size, write_header, write_be16, read_be16, zeros}
use libstunxx.Stun.Header.{magic_cookie_value, transaction_id_size}
use libstunxx.Attr.Concept.{StunAttribute}
use libstunxx.Attr.Frame.{return_true}

-- `bytes` is the array of 16; an address of IPv4 has the first 4.
pub record StunAddress : Type 0 where
  pub family : ℕ
  pub port : ℕ
  pub bytes : Bytes

-- StunAddress::ipv4, StunAddress::ipv6
unfoldable pub ipv4 : ℕ → Bytes → StunAddress
ipv4 port addr = record { family = ipv4_family; port = port; bytes = addr ++ zeros (16 - 4) }

unfoldable pub ipv6 : ℕ → Bytes → StunAddress
ipv6 port addr = record { family = ipv6_family; port = port; bytes = addr }

abbrev pub stun_address_length : StunAddress → ℕ
stun_address_length addr = if addr.family == ipv4_family then 4 else 16

pub record XorAddressAttr : Type 0 where
  pub address : Bytes
  pub addr_family : ℕ
  pub addr_length : ℕ
  pub port : ℕ
  pub transaction_id : Bytes

-- XorAddressAttrT(tid, addr): std::copy_n into an array of 16 zeros
unfoldable pub new_xor_address : Bytes → StunAddress → XorAddressAttr
new_xor_address tid addr = record {
  address = take (stun_address_length addr) addr.bytes ++ zeros (16 - stun_address_length addr);
  addr_family = addr.family;
  addr_length = stun_address_length addr;
  port = addr.port;
  transaction_id = tid;
}

abbrev pub xor_address_length : XorAddressAttr → ℕ
xor_address_length a = u16 (4 + a.addr_length)

abbrev pub xor_address_padded_length : XorAddressAttr → ℕ
xor_address_padded_length a = pad4 (xor_address_length a)

-- address(): the part of the array that is the address
unfoldable pub shown_address : XorAddressAttr → Bytes
shown_address a = take a.addr_length a.address

-- static_cast<std::uint16_t>(MAGIC_COOKIE >> 16)
abbrev pub port_mask : ℕ
port_mask = u16 (magic_cookie_value >>> 16)

unfoldable pub xor_byte : ℕ → Bytes → Outcome ℕ
xor_byte i tid =
    if ltb i 4
    then done (u8 (bit_and (magic_cookie_value >>> (24 - 8 * i)) 0xff))
    else byte_at (i - 4) tid

-- The loop of `decode` from index `i` on, with `n` rounds to go: the bytes that it decodes.
unfoldable pub decode_loop : ℕ → ℕ → Bytes → Bytes → Outcome Bytes
decode_loop zero i buf tid = done []
decode_loop (suc n) i buf tid = do
  b ← byte_at (4 + i) buf
  k ← xor_byte i tid
  rest ← decode_loop n (i + 1) buf tid
  done (u8 (bit_xor b k) ∷ rest)

unfoldable pub decode_xor_address : Bytes → Bytes → Outcome (Option XorAddressAttr)
unfolding ipv4 ipv6 new_xor_address
decode_xor_address buf tid = if ltb (length buf) 4 then done none else (do
  family ← byte_at 1 buf
  let addr_len = if family == ipv4_family then 4 else 16
  if ltb (length buf) (4 + addr_len) then done none else (do
    s ← fetch 2 2 buf
    masked ← read_be16 s
    decoded ← decode_loop addr_len 0 buf tid
    let port = u16 (bit_xor masked port_mask)
    done (
        some (
          new_xor_address tid
            (if family == ipv4_family then ipv4 port decoded else ipv6 port decoded)))))

-- The loop of `encode` from index `i` on.
unfoldable pub encode_loop : ℕ → ℕ → XorAddressAttr → Bytes → Outcome Bytes
encode_loop zero i a buf = done buf
encode_loop (suc n) i a buf = do
  b ← byte_at i a.address
  k ← xor_byte i a.transaction_id
  buf' ← store (attr_header_size + 4 + i) (u8 (bit_xor b k) ∷ []) buf
  encode_loop n (i + 1) a buf'

unfoldable pub encode_xor_address : ℕ → XorAddressAttr → Bytes → Outcome (Bool × Bytes)
encode_xor_address type a buf =
    if ltb (length buf) (attr_header_size + xor_address_length a) then done (false, buf) else (do
      b1 ← write_header type (xor_address_length a) buf
      b2 ← store attr_header_size (0 ∷ []) b1
      b3 ← store (attr_header_size + 1) (u8 a.addr_family ∷ []) b2
      b4 ← write_be16 (attr_header_size + 2) (bit_xor a.port port_mask) b3
      b5 ← encode_loop a.addr_length 0 a b4
      return_true b5)

abbrev pub xor_address_attribute : ℕ → StunAttribute XorAddressAttr
xor_address_attribute type = record {
  type = type;
  length_of = xor_address_length;
  encode = encode_xor_address type;
}
