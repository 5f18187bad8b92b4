-- ===== src/Attr/XorAddress/Loops.antt =====
-- The two loops over the bytes of an address: each masks byte by byte with the cookie and the id.
use libstunxx.Common.{
  ℕ, zero, suc, ◌+◌, ◌-◌, ◌≤◌, ◌≡◌, refl, sym, ap, ◌∙◌, [], ◌∷◌, ◌++◌, arith, length, drop,
  drop-drop, length-append, length-drop, append_assoc, append-nil, bit_xor, u8, All, IsByte, le→ltb,
}
use mathlib.Core.List.{zip_with}
use libstunxx.Common.Bits.{bit_xor-lt, bit_xor_cancel}
use libstunxx.Memory.{Bytes, done, byte_at}
use libstunxx.Memory.Laws.{byte_at-behind, store-behind}
use libstunxx.Stun.Wire.{be32}
use libstunxx.Stun.Header.{magic_cookie_value}
use libstunxx.Attr.XorAddress.{XorAddressAttr, xor_byte, encode_loop, decode_loop}

-- The bytes that the address is masked with.
abbrev pub address_mask : Bytes → Bytes
address_mask tid = be32 magic_cookie_value ++ tid

unfoldable pub masked_bytes : Bytes → Bytes → Bytes
unfolding zip_with
masked_bytes = zip_with bit_xor

pub xor_byte-address_mask : (i : ℕ) (tid : Bytes) → xor_byte i tid ≡ byte_at i (address_mask tid)
unfolding xor_byte byte_at
xor_byte-address_mask zero tid = refl
xor_byte-address_mask (suc zero) tid = refl
xor_byte-address_mask (suc (suc zero)) tid = refl
xor_byte-address_mask (suc (suc (suc zero))) tid = refl
xor_byte-address_mask (suc (suc (suc (suc i)))) tid =
    rw (le→ltb (suc (suc (suc (suc i)))) 4 (omega arith))
      (ap (λ k. byte_at k tid) {x = suc (suc (suc (suc i))) - 4} (omega arith))

xor_fits : (x k : ℕ) → IsByte x → IsByte k → u8 (bit_xor x k) ≡ bit_xor x k
xor_fits x k hx hk = omega (arith, bit_xor-lt 8 x k hx hk)

key_at :
    (i : ℕ) (tid kpre : Bytes) (k : ℕ) (ks : Bytes)
    → address_mask tid ≡ kpre ++ k ∷ ks
    → i ≡ length kpre
    → xor_byte i tid ≡ done k
key_at i tid kpre k ks e at =
    xor_byte-address_mask i tid ∙ ap (byte_at i) e ∙ byte_at-behind i kpre k ks at

pub encode_loop-behind :
    (xs : Bytes) (i : ℕ) (a : XorAddressAttr) (pre post kpre ks before buf : Bytes)
    → a.address ≡ pre ++ (xs ++ post)
    → address_mask a.transaction_id ≡ kpre ++ ks
    → i ≡ length pre
    → i ≡ length kpre
    → 8 + i ≡ length before
    → All IsByte xs
    → All IsByte ks
    → length xs ≤ length ks
    → length xs ≤ length buf
    → encode_loop (length xs) i a (before ++ buf)
      ≡ done ((before ++ masked_bytes xs ks) ++ drop (length xs) buf)
unfolding encode_loop masked_bytes
encode_loop-behind [] i a pre post kpre ks before buf ea ek hp hk hb bx bk nk nb =
    ap (λ t. done (t ++ buf)) (sym (append-nil before))
encode_loop-behind (x ∷ xs) i a pre post kpre [] before buf ea ek hp hk hb bx bk nk nb =
    absurd (omega arith)
encode_loop-behind (x ∷ xs) i a pre post kpre (k ∷ ks) before buf ea ek hp hk hb (bx, bxs) (bk, bks)
      nk nb =
    rw
      (
        ap (byte_at i) ea ∙ byte_at-behind i pre x (xs ++ post) hp,
        key_at i a.transaction_id kpre k ks ek hk,
        xor_fits x k bx bk,
        store-behind (8 + i) before (bit_xor x k ∷ []) buf hb (omega (arith, nb)),
      )
      (encode_loop-behind xs (i + 1) a (pre ++ x ∷ []) post (kpre ++ k ∷ []) ks
          (before ++ bit_xor x k ∷ []) (drop 1 buf)
          (ea ∙ sym (append_assoc pre (x ∷ []) (xs ++ post)))
          (ek ∙ sym (append_assoc kpre (k ∷ []) ks)) (rw length-append (omega (arith, hp)))
          (rw length-append (omega (arith, hk))) (rw length-append (omega (arith, hb))) bxs bks
          (omega (arith, nk)) (rw length-drop (omega (arith, nb)))
        ∙ ap done (
            ap (λ front. front ++ drop (length xs) (drop 1 buf))
              (append_assoc before (bit_xor x k ∷ []) (masked_bytes xs ks))
            ∙ ap (λ back. (before ++ bit_xor x k ∷ masked_bytes xs ks) ++ back)
                (drop-drop (length xs) 1 buf
                  ∙ ap (λ j. drop j buf) {y = suc (length xs)} (omega arith))))

pub decode_loop-behind :
    (cs : Bytes) (i : ℕ) (tid pre rest kpre ks : Bytes)
    → address_mask tid ≡ kpre ++ ks
    → i ≡ length kpre
    → 4 + i ≡ length pre
    → All IsByte cs
    → All IsByte ks
    → length cs ≤ length ks
    → decode_loop (length cs) i (pre ++ (cs ++ rest)) tid ≡ done (masked_bytes cs ks)
unfolding decode_loop masked_bytes
decode_loop-behind [] i tid pre rest kpre ks ek hk hp bc bk fits = refl
decode_loop-behind (c ∷ cs) i tid pre rest kpre [] ek hk hp bc bk fits = absurd (omega arith)
decode_loop-behind (c ∷ cs) i tid pre rest kpre (k ∷ ks) ek hk hp (bc, bcs) (bk, bks) fits = rw (
  byte_at-behind (4 + i) pre c (cs ++ rest) hp,
  key_at i tid kpre k ks ek hk,
  ap (λ b. decode_loop (length cs) (i + 1) b tid) (sym (append_assoc pre (c ∷ []) (cs ++ rest)))
      ∙ decode_loop-behind cs (i + 1) tid (pre ++ c ∷ []) rest (kpre ++ k ∷ []) ks
          (ek ∙ sym (append_assoc kpre (k ∷ []) ks)) (rw length-append (omega (arith, hk)))
          (rw length-append (omega (arith, hp))) bcs bks (omega (arith, fits)),
  xor_fits c k bc bk,
)

pub length-masked_bytes :
    (xs ks : Bytes) → length xs ≤ length ks → length (masked_bytes xs ks) ≡ length xs
unfolding masked_bytes
length-masked_bytes [] ks h = refl
length-masked_bytes (x ∷ xs) [] h = absurd (omega arith)
length-masked_bytes (x ∷ xs) (k ∷ ks) h = ap suc (length-masked_bytes xs ks (omega (arith, h)))

pub masked_bytes-IsByte :
    (xs ks : Bytes) → All IsByte xs → All IsByte ks → All IsByte (masked_bytes xs ks)
unfolding masked_bytes
masked_bytes-IsByte [] ks hx hk = tt
masked_bytes-IsByte (x ∷ xs) [] hx hk = tt
masked_bytes-IsByte (x ∷ xs) (k ∷ ks) (hx, hxs) (hk, hks) =
    (bit_xor-lt 8 x k hx hk, masked_bytes-IsByte xs ks hxs hks)

-- Masking twice gives the bytes back.
pub masked_bytes_twice :
    (xs ks : Bytes) → length xs ≤ length ks → masked_bytes (masked_bytes xs ks) ks ≡ xs
unfolding masked_bytes
masked_bytes_twice [] ks h = refl
masked_bytes_twice (x ∷ xs) [] h = absurd (omega arith)
masked_bytes_twice (x ∷ xs) (k ∷ ks) h =
    rw (bit_xor_cancel x k, masked_bytes_twice xs ks (omega (arith, h)))
