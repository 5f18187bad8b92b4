-- ===== src/Attr/Total/Parts.antt =====
-- The decoders of errors, addresses and lists on any bytes.
use libstunxx.Common.{
  ℕ, zero, suc, ◌+◌, ◌-◌, ◌*◌, ◌≤◌, ◌<◌, ◌≡◌, refl, false, not, ◌||◌, ◌&&◌, ◌==◌, ltb, ltb→lt,
  ltb→le, none, [], arith, length, if◌then◌else◌, pad4, take, drop, bit_and, ◌>>>◌, u16, ◌/◌, ◌%◌,
}
use libstunxx.Memory.{Bytes, done, fetch}
use libstunxx.Memory.Laws.{fetch-inside}
use libstunxx.Memory.Returns.{
  Returns, done-Returns, if-Returns, bind-Returns, byte_at-Returns, fetch-Returns,
}
use libstunxx.Stun.Types.{ipv4_family, ipv6_family}
use libstunxx.Attr.ErrorCode.{decode_error_code}
use libstunxx.Attr.AddressError.{decode_address_error}
use libstunxx.Attr.Algorithm.{decode_password_algorithm}
use libstunxx.Attr.Unknown.{read_types, decode_unknown}
use libstunxx.Attr.XorAddress.{xor_byte, decode_loop, decode_xor_address}
use libstunxx.Attr.Total.Reads.{read_be16-Returns, at_least-Returns}

module _ (buf : Bytes) where
  -- The bytes behind the first four.
  phrase-Returns :
      4 ≤ length buf
      → Returns (if ltb 4 (length buf) then fetch 4 (length buf - 4) buf else done [])
  phrase-Returns h =
      if-Returns (ltb 4 (length buf)) _ _
        (λ long. record {
          result = take (length buf - 4) (drop 4 buf);
          returned = fetch-inside 4 (length buf - 4) buf (omega arith);
        })
        λ _. done-Returns []

  pub decode_error_code-Returns : Returns (decode_error_code buf)
  unfolding decode_error_code
  decode_error_code-Returns = at_least-Returns 4 buf _ _ (done-Returns none) λ h.
      bind-Returns (byte_at-Returns 2 buf (omega arith)) λ b2.
        bind-Returns (byte_at-Returns 3 buf (omega arith)) λ num.
          if-Returns (ltb (bit_and b2 0x07) 3 || ltb 6 (bit_and b2 0x07)) _ _
            (λ _. done-Returns none)
            λ _.
              if-Returns (ltb 99 num) _ _ (λ _. done-Returns none)
                λ _. bind-Returns (phrase-Returns h) λ reason. done-Returns _

  pub decode_address_error-Returns : Returns (decode_address_error buf)
  unfolding decode_address_error
  decode_address_error-Returns = at_least-Returns 4 buf _ _ (done-Returns none) λ h.
      bind-Returns (byte_at-Returns 0 buf (omega arith)) λ fam.
        bind-Returns (byte_at-Returns 2 buf (omega arith)) λ b2.
          bind-Returns (byte_at-Returns 3 buf (omega arith)) λ num.
            let cls = bit_and b2 0xe0 >>> 5 in
            let code = u16 (cls * 100 + num) in
            if-Returns (not (fam == ipv4_family) && not (fam == ipv6_family)) _ _
              (λ _. done-Returns none)
              λ _.
                if-Returns (ltb cls 3 || ltb 6 cls) _ _ (λ _. done-Returns none)
                  λ _.
                    if-Returns (ltb 99 num) _ _ (λ _. done-Returns none)
                      λ _.
                        if-Returns (not (code == 440) && not (code == 508)) _ _
                          (λ _. done-Returns none)
                          λ _. bind-Returns (phrase-Returns h) λ reason. done-Returns _

  pub decode_password_algorithm-Returns : Returns (decode_password_algorithm buf)
  unfolding decode_password_algorithm
  decode_password_algorithm-Returns = at_least-Returns 4 buf _ _ (done-Returns none) λ h.
      fetch-Returns 0 2 buf (omega arith) λ s e. bind-Returns (read_be16-Returns s e) λ algorithm.
        fetch-Returns 2 2 buf (omega arith) λ t e'.
          bind-Returns (read_be16-Returns t e') λ param_len.
            at_least-Returns (4 + pad4 param_len) buf _ _ (done-Returns none)
              λ room. fetch-Returns 4 param_len buf (omega arith) λ params e''. done-Returns _

  read_types-Returns :
      (n i half : ℕ)
      → length buf < i + n
      → i ≤ length buf
      → length buf ≡ half + half
      → (k : ℕ) → i ≡ k + k
      → Returns (read_types n i buf)
  unfolding read_types
  read_types-Returns zero i half fuel inside even k at = record {
    result = [];
    returned = absurd (omega arith);
  }
  read_types-Returns (suc n) i half fuel inside even k at =
      if-Returns (ltb i (length buf)) _ _
        (λ h. fetch-Returns i 2 buf (omega (arith, ltb→lt i (length buf) h)) λ s e.
          bind-Returns (read_be16-Returns s e) λ t.
            bind-Returns
              (read_types-Returns n (i + 2) half (omega arith)
                (omega (arith, ltb→lt i (length buf) h)) even (k + 1) (omega arith))
              λ ts. done-Returns _)
        λ _. done-Returns []

  pub decode_unknown-Returns : Returns (decode_unknown buf)
  unfolding decode_unknown
  decode_unknown-Returns =
      if-Returns (not (length buf % 2 == 0)) _ _ (λ _. done-Returns none)
        λ h.
          bind-Returns
            (read_types-Returns (suc (length buf)) 0 (length buf / 2) (omega arith) (omega arith)
              (even h) 0 refl)
            λ ts. done-Returns _
    where
      even : not (length buf % 2 == 0) ≡ false → length buf ≡ length buf / 2 + length buf / 2
      even h = ground (arith, h)

xor_byte-Returns : (i : ℕ) (tid : Bytes) → i < 16 → length tid ≡ 12 → Returns (xor_byte i tid)
unfolding xor_byte
xor_byte-Returns i tid h e =
    if-Returns (ltb i 4) _ _ (λ _. done-Returns _)
      λ far. byte_at-Returns (i - 4) tid (omega (arith, ltb→le i 4 far))

decode_loop-Returns :
    (n i : ℕ) (buf tid : Bytes)
    → 4 + (i + n) ≤ length buf
    → i + n ≤ 16
    → length tid ≡ 12
    → Returns (decode_loop n i buf tid)
unfolding decode_loop
decode_loop-Returns zero i buf tid room short e = done-Returns []
decode_loop-Returns (suc n) i buf tid room short e =
    bind-Returns (byte_at-Returns (4 + i) buf (omega arith)) λ b.
      bind-Returns (xor_byte-Returns i tid (omega arith) e) λ k.
        bind-Returns (decode_loop-Returns n (i + 1) buf tid (omega arith) (omega arith) e)
          λ rest. done-Returns _

pub decode_xor_address-Returns :
    (buf tid : Bytes) → length tid ≡ 12 → Returns (decode_xor_address buf tid)
unfolding decode_xor_address
decode_xor_address-Returns buf tid e = at_least-Returns 4 buf _ _ (done-Returns none) λ h.
    bind-Returns (byte_at-Returns 1 buf (omega arith)) λ family.
      let addr_len = if family == ipv4_family then 4 else 16 in
      at_least-Returns (4 + addr_len) buf _ _ (done-Returns none) λ room.
        fetch-Returns 2 2 buf (omega arith) λ s e'. bind-Returns (read_be16-Returns s e') λ masked.
          bind-Returns
            (decode_loop-Returns addr_len 0 buf tid (omega (arith, room)) (size family) e)
            λ decoded. done-Returns _
  where
    size : (family : ℕ) → 0 + (if family == ipv4_family then 4 else 16) ≤ 16
    size family = ground arith
