-- ===== src/Attr/XorAddress/Text.antt =====
-- addressStr of include/stunxx/attributes/XorAddressAttrT.hpp. The C library's inet_ntop is the argument
-- `inet_ntop`, which takes the family and the array of 16 bytes and gives the text.
use libstunxx.Common.{
  ℕ, ◌-◌, ◌≡◌, ap, ◌∙◌, Bool, true, false, some, [], ◌++◌, arith, length, ◌==◌, if◌then◌else◌,
  IsU16, All, IsByte, append-nil,
}
use libstunxx.Memory.{Bytes, done}
use libstunxx.Stun.Types.{ipv4_family}
use libstunxx.Stun.Wire.{zeros}
use libstunxx.Attr.XorAddress.{XorAddressAttr, new_xor_address, decode_xor_address}
use libstunxx.Attr.XorAddress.Value.{
  stun_address, xor_value, address_size, address_bytes, family_of,
}
use libstunxx.Attr.XorAddress.RoundTrip.{xor_address_round_trip}

-- AF_INET and AF_INET6
pub data Inet : Type 0 where
  af_inet af_inet6 : Inet

abbrev pub inet_of : Bool → Inet
inet_of v6 = if v6 then af_inet6 else af_inet

unfoldable pub address_str : (Inet → Bytes → Bytes) → XorAddressAttr → Bytes
address_str inet_ntop a =
    if a.addr_family == ipv4_family
    then inet_ntop af_inet a.address
    else inet_ntop af_inet6 a.address

-- Where inet_ntop reads, for AF_INET, only the first 4 bytes that it is given: for an address of either
-- family with its number of bytes, a 16-bit port and a transaction id of 12 bytes, the attribute that is
-- decoded from the masked value shows as text what inet_ntop gives for exactly the address that was
-- masked, in its family.
pub address_str-decoded :
    (inet_ntop : Inet → Bytes → Bytes)
    (reads_four : (addr behind : Bytes)
      → length addr ≡ 4
      → inet_ntop af_inet (addr ++ behind) ≡ inet_ntop af_inet addr)
    (v6 : Bool) (port : ℕ) (addr tid : Bytes)
    → IsU16 port
    → All IsByte addr
    → All IsByte tid
    → length tid ≡ 12
    → length addr ≡ address_size v6
    → (a : XorAddressAttr) × (decode_xor_address (xor_value v6 port addr tid) tid ≡ done (some a))
      × (address_str inet_ntop a ≡ inet_ntop (inet_of v6) addr)
unfolding address_str
address_str-decoded inet_ntop reads_four v6 port addr tid hp ha htid etid ea = (
  new_xor_address tid (stun_address v6 port addr),
  (xor_address_round_trip v6 0 port addr tid [] (omega arith) hp ha htid etid ea).1,
  ap (address_str inet_ntop) (address_bytes v6 port addr tid ea) ∙ shows v6 ea,
)
  where
    shows :
        (f : Bool)
        → length addr ≡ address_size f
        → (if family_of f == ipv4_family
            then inet_ntop af_inet (addr ++ zeros (16 - address_size f))
            else inet_ntop af_inet6 (addr ++ zeros (16 - address_size f)))
          ≡ inet_ntop (inet_of f) addr
    shows true e = ap (inet_ntop af_inet6) (append-nil addr)
    shows false e = reads_four addr (zeros 12) e
