-- ===== src/Attr/XorAddress/Value.antt =====
-- The value of an address attribute on the wire, for either family.
use libstunxx.Common.{
  ℕ, ◌+◌, ◌-◌, ◌≡◌, ◌⊎◌, inl, inr, refl, sym, ap, ◌∙◌, Bool, true, false, [], ◌∷◌, ◌++◌, arith,
  ◌==◌, if◌then◌else◌, length, take, take-append, append-nil, bit_xor, u8,
}
use libstunxx.Memory.{Bytes}
use libstunxx.Stun.Types.{ipv4_family, ipv6_family}
use libstunxx.Stun.Wire.{be16, zeros}
use libstunxx.Attr.XorAddress.{StunAddress, ipv4, ipv6, new_xor_address, port_mask}
use libstunxx.Attr.XorAddress.Loops.{address_mask, masked_bytes, length-masked_bytes}

-- An address of either family, and what of it is the same for both.
abbrev pub address_size : Bool → ℕ
address_size v6 = if v6 then 16 else 4

abbrev pub family_of : Bool → ℕ
family_of v6 = if v6 then ipv6_family else ipv4_family

abbrev pub stun_address : Bool → ℕ → Bytes → StunAddress
stun_address v6 port addr = if v6 then ipv6 port addr else ipv4 port addr

-- The value on the wire: a zero byte, the family, the masked port, the masked address.
abbrev pub xor_value : Bool → ℕ → Bytes → Bytes → Bytes
xor_value v6 port addr tid =
    (0 ∷ family_of v6 ∷ [])
    ++ (be16 (bit_xor port port_mask) ++ masked_bytes addr (address_mask tid))

pub address_bytes :
    (v6 : Bool) (port : ℕ) (addr tid : Bytes)
    → length addr ≡ address_size v6
    → new_xor_address tid (stun_address v6 port addr) ≡ record {
      address = addr ++ zeros (16 - address_size v6);
      addr_family = family_of v6;
      addr_length = address_size v6;
      port = port;
      transaction_id = tid;
    }
unfolding new_xor_address ipv4 ipv6
address_bytes true port addr tid e =
    rw (ap (take 16) (sym (append-nil addr)) ∙ take-append 16 addr [] (sym e))
address_bytes false port addr tid e = rw (take-append 4 addr (zeros 12) (sym e))

pub size_cases : (v6 : Bool) → (address_size v6 ≡ 4) ⊎ (address_size v6 ≡ 16)
size_cases true = inr refl
size_cases false = inl refl

pub family_byte : (v6 : Bool) → u8 (family_of v6) ≡ family_of v6
family_byte true = refl
family_byte false = refl

pub size_read : (v6 : Bool) → (if family_of v6 == ipv4_family then 4 else 16) ≡ address_size v6
size_read true = refl
size_read false = refl

pub address_read :
    (v6 : Bool) (port : ℕ) (addr : Bytes)
    → (if family_of v6 == ipv4_family then ipv4 port addr else ipv6 port addr)
      ≡ stun_address v6 port addr
address_read true port addr = refl
address_read false port addr = refl

pub length-xor_value :
    (v6 : Bool) (port : ℕ) (addr tid : Bytes)
    → length tid ≡ 12
    → length addr ≡ address_size v6
    → length (xor_value v6 port addr tid) ≡ 4 + address_size v6
length-xor_value v6 port addr tid etid ea = omega (
  arith,
  length-masked_bytes addr (address_mask tid) (omega (arith, ea, etid, size_cases v6)),
  ea,
)
