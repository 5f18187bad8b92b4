-- ===== src/Attr/XorAddress/RoundTrip.antt =====
-- The masked address: what is written, and that it is read back.
use libstunxx.Common.{
  ℕ, ◌+◌, ◌-◌, ◌≤◌, ◌≡◌, refl, sym, ap, ap₂, ◌∙◌, Bool, true, false, some, [], ◌∷◌, ◌++◌, arith,
  ltb, if◌then◌else◌, length, drop, drop-drop, take-append, length-drop, append-nil, bit_xor, u8,
  u16, IsU16, All, IsByte, le→ltb, pad4,
}
use libstunxx.Common.Bits.{bit_xor-lt, bit_xor_cancel}
use libstunxx.Memory.{Bytes, Outcome, done, ◌>>=◌, store, byte_at}
use libstunxx.Memory.Laws.{fetch-behind, store-behind}
use libstunxx.Stun.Wire.{
  write_header, write_be16, be16, zeros, put_tlv, write_header_lem, write_be16-behind,
  read_be16-be16,
}
use libstunxx.Attr.Frame.{guarded, return_true}
use libstunxx.Attr.XorAddress.{
  XorAddressAttr, new_xor_address, shown_address, port_mask, encode_loop, decode_loop,
  encode_xor_address, decode_xor_address,
}
use libstunxx.Attr.XorAddress.Loops.{
  address_mask, masked_bytes, encode_loop-behind, decode_loop-behind, length-masked_bytes,
  masked_bytes-IsByte, masked_bytes_twice,
}
use libstunxx.Attr.XorAddress.Value.{
  address_size, family_of, stun_address, xor_value, address_bytes, size_cases, family_byte,
  size_read, address_read,
}

module _ (v6 : Bool) (port : ℕ) (addr tid : Bytes) (hp : IsU16 port) (ha : All IsByte addr)
    (htid : All IsByte tid) (etid : length tid ≡ 12) (ea : length addr ≡ address_size v6) where
  masked_p : ℕ
  masked_p = bit_xor port port_mask

  masked : Bytes
  masked = masked_bytes addr (address_mask tid)

  value : Bytes
  value = xor_value v6 port addr tid

  masked_port : IsU16 (bit_xor port port_mask)
  masked_port = bit_xor-lt 16 port port_mask hp (omega arith)

  mask_long : length addr ≤ length (address_mask tid)
  mask_long = omega (arith, ea, etid, size_cases v6)

  mask_IsByte : All IsByte (address_mask tid)
  mask_IsByte = (omega arith, (omega arith, (omega arith, (omega arith, htid))))

  masked_size : length masked ≡ address_size v6
  unfolding masked
  masked_size = length-masked_bytes addr (address_mask tid) mask_long ∙ ea

  value_size : length value ≡ 4 + address_size v6
  unfolding value masked
  value_size = omega (arith, masked_size)

  decode_xor_address_lem :
      decode_xor_address (xor_value v6 port addr tid) tid
      ≡ done (some (new_xor_address tid (stun_address v6 port addr)))
  unfolding decode_xor_address byte_at value masked masked_p
  decode_xor_address_lem = rw (
    le→ltb (length value) 4 (omega arith),
    size_read v6,
    le→ltb (length value) (4 + address_size v6) (omega (arith, value_size)),
    fetch-behind 2 2 (0 ∷ family_of v6 ∷ []) (be16 masked_p) masked refl refl,
    read_be16-be16 masked_p [] masked_port,
    looped,
    address_read v6,
    unmasked,
  )
    where
      looped : decode_loop (address_size v6) 0 value tid ≡ done addr
      looped =
          ap (λ n. decode_loop n 0 value tid) (sym masked_size)
          ∙ ap
              (λ t.
                decode_loop (length masked) 0 (((0 ∷ family_of v6 ∷ []) ++ be16 masked_p) ++ t) tid)
              (sym (append-nil masked))
          ∙ decode_loop-behind masked 0 tid ((0 ∷ family_of v6 ∷ []) ++ be16 masked_p) [] []
              (address_mask tid) refl refl refl
              (masked_bytes-IsByte addr (address_mask tid) ha mask_IsByte) mask_IsByte
              (omega (arith, masked_size, ea, mask_long))
          ∙ ap done (masked_bytes_twice addr (address_mask tid) mask_long)

      unmasked : u16 (bit_xor masked_p port_mask) ≡ port
      unmasked = omega (arith, bit_xor_cancel port port_mask, hp)

  encode_xor_address_lem :
      (type : ℕ) (buf : Bytes)
      → IsU16 type
      → encode_xor_address type (new_xor_address tid (stun_address v6 port addr)) buf
        ≡ put_tlv type (xor_value v6 port addr tid) buf
  unfolding encode_xor_address value masked masked_p
  encode_xor_address_lem type buf ht = rw (address_bytes v6 port addr tid ea) (
      ap₂ run padded exact
      ∙ guarded type value buf _ λ fits.
        rw
          (
            family_byte v6,
            write_header_lem type (length value) buf ht (omega (arith, value_size, size_cases v6))
                (omega arith),
            store-behind 4 head (0 ∷ []) (drop 4 buf) refl
                (rw length-drop (omega (arith, fits, value_size))),
            store-behind 5 (head ++ 0 ∷ []) (family_of v6 ∷ []) (drop 1 (drop 4 buf)) refl
                (rw (length-drop, length-drop) (omega (arith, fits, value_size))),
            write_be16-behind 6 masked_p ((head ++ 0 ∷ []) ++ family_of v6 ∷ [])
                (drop 1 (drop 1 (drop 4 buf))) refl masked_port
                (rw (length-drop, length-drop, length-drop) (omega (arith, fits, value_size))),
          )
          (rw
            (looped (drop 2 (drop 1 (drop 1 (drop 4 buf)))) (
              rw (length-drop, length-drop, length-drop, length-drop)
                (omega (arith, fits, value_size))))
            (ap (λ t. done (true, t))
              (ap₂ ◌++◌
                (sym (append-nil (head ++ value))
                  ∙ ap (λ k. (head ++ value) ++ zeros k) {x = 0} no_pad)
                drops))))
    where
      head : Bytes
      head = be16 type ++ be16 (length value)

      padded : u16 (4 + address_size v6) ≡ pad4 (length value)
      padded = omega (arith, value_size, size_cases v6)

      exact : u16 (4 + address_size v6) ≡ length value
      exact = omega (arith, value_size, size_cases v6)

      plain : XorAddressAttr
      plain = record {
        address = addr ++ zeros (16 - address_size v6);
        addr_family = family_of v6;
        addr_length = address_size v6;
        port = port;
        transaction_id = tid;
      }

      no_pad : 0 ≡ pad4 (length value) - length value
      no_pad = omega (arith, value_size, size_cases v6)

      drops :
          drop (address_size v6) (drop 2 (drop 1 (drop 1 (drop 4 buf))))
          ≡ drop (4 + pad4 (length value)) buf
      drops =
          drop-drop (address_size v6) 2 (drop 1 (drop 1 (drop 4 buf)))
          ∙ drop-drop (2 + address_size v6) 1 (drop 1 (drop 4 buf))
          ∙ drop-drop (1 + (2 + address_size v6)) 1 (drop 4 buf)
          ∙ drop-drop (1 + (1 + (2 + address_size v6))) 4 buf
          ∙ ap (λ k. drop k buf) {y = 4 + pad4 (length value)}
              (omega (arith, value_size, size_cases v6))

      before : Bytes
      before = (((head ++ 0 ∷ []) ++ family_of v6 ∷ []) ++ be16 masked_p)

      looped :
          (rest : Bytes)
          → address_size v6 ≤ length rest
          → encode_loop (address_size v6) 0 plain (before ++ rest)
            ≡ done ((before ++ masked) ++ drop (address_size v6) rest)
      looped rest room =
          ap (λ n. encode_loop n 0 plain (before ++ rest)) (sym ea)
          ∙ encode_loop-behind addr 0 plain [] (zeros (16 - address_size v6)) [] (address_mask tid)
              before rest refl refl refl refl refl ha mask_IsByte mask_long
              (omega (arith, ea, room))
          ∙ ap (λ n. done ((before ++ masked) ++ drop n rest)) ea

      run : ℕ → ℕ → Outcome (Bool × Bytes)
      run p l = if ltb (length buf) (4 + p) then done (false, buf) else (do
        b1 ← write_header type l buf
        b2 ← store 4 (0 ∷ []) b1
        b3 ← store 5 (u8 (family_of v6) ∷ []) b2
        b4 ← write_be16 6 masked_p b3
        b5 ← encode_loop (address_size v6) 0 plain b4
        return_true b5)

-- For an address of either family with its number of bytes, a 16-bit port, a transaction id of 12
-- bytes and a 16-bit type, on a span of any size: the attribute is written as a zero byte, the
-- family, the port masked with the top of the magic cookie and the address masked with the cookie
-- and the id, or false is answered and nothing written if that does not fit; from that value the
-- same attribute is decoded with the same id, and it shows the address.
pub xor_address_round_trip :
    (v6 : Bool) (type port : ℕ) (addr tid buf : Bytes)
    → IsU16 type
    → IsU16 port
    → All IsByte addr
    → All IsByte tid
    → length tid ≡ 12
    → length addr ≡ address_size v6
    → (encode_xor_address type (new_xor_address tid (stun_address v6 port addr)) buf
        ≡ put_tlv type (xor_value v6 port addr tid) buf)
      × (decode_xor_address (xor_value v6 port addr tid) tid
          ≡ done (some (new_xor_address tid (stun_address v6 port addr))))
      × (shown_address (new_xor_address tid (stun_address v6 port addr)) ≡ addr)
unfolding shown_address
xor_address_round_trip v6 type port addr tid buf ht hp ha htid etid ea = (
  encode_xor_address_lem v6 port addr tid hp ha htid etid ea type buf ht,
  decode_xor_address_lem v6 port addr tid hp ha htid etid ea,
  ap shown_address (address_bytes v6 port addr tid ea)
      ∙ take-append (address_size v6) addr (zeros (16 - address_size v6)) (sym ea),
)
