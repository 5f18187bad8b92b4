-- ===== src/Stun/Wire.antt =====
-- Numbers in network byte order, and the 4-byte attribute header. `be16` and `be32` say what the
-- bytes on the wire are; `tlv` is an attribute as the RFC lays it out.
use libstunxx.Common.{
  ℕ, ◌+◌, ◌-◌, ◌*◌, ◌/◌, ◌%◌, ◌^◌, ◌≤◌, bit_and, bit_or, ◌≡◌, ap, ◌∙◌, [], ◌∷◌, ◌++◌, arith, length,
  replicate, drop, u8, u16, u32, ◌<<<◌, ◌>>>◌, IsU16, IsU32, pad4, leb, if◌then◌else◌, Bool, true,
  false, drop-drop, length-drop,
}
use libstunxx.Common.Bits.{bit_or_fields, bit_and_mask}
use libstunxx.Memory.{Bytes, Outcome, done, ◌>>=◌, store, byte_at}
use libstunxx.Memory.Laws.{store-behind}

abbrev pub attr_header_size : ℕ
attr_header_size = 4

unfoldable pub read_be16 : Bytes → Outcome ℕ
unfolding byte_at
read_be16 buf = do b0 ← byte_at 0 buf; b1 ← byte_at 1 buf; done (u16 (bit_or (b0 <<< 8) b1))

unfoldable pub read_be32 : Bytes → Outcome ℕ
unfolding byte_at
read_be32 buf = do
  b0 ← byte_at 0 buf
  b1 ← byte_at 1 buf
  b2 ← byte_at 2 buf
  b3 ← byte_at 3 buf
  done (u32 (bit_or (bit_or (bit_or (b0 <<< 24) (b1 <<< 16)) (b2 <<< 8)) b3))

-- The span of two bytes at `off` of `buf`.
unfoldable pub write_be16 : ℕ → ℕ → Bytes → Outcome Bytes
write_be16 off value buf = store off (u8 (value >>> 8) ∷ u8 (bit_and value 0xff) ∷ []) buf

unfoldable pub write_be32 : ℕ → ℕ → Bytes → Outcome Bytes
write_be32 off value buf =
    store off
      (u8 (value >>> 24) ∷ u8 (value >>> 16) ∷ u8 (value >>> 8) ∷ u8 (bit_and value 0xff) ∷ []) buf

-- writeHeader(buffer.first<4>(), type, len)
unfoldable pub write_header : ℕ → ℕ → Bytes → Outcome Bytes
write_header type len buf = do buf' ← write_be16 0 type buf; write_be16 2 len buf'

abbrev pub be16 : ℕ → Bytes
be16 v = (v / 2 ^ 8) ∷ (v % 2 ^ 8) ∷ []

abbrev pub be32 : ℕ → Bytes
be32 v = (v / 2 ^ 24) ∷ (v / 2 ^ 16 % 2 ^ 8) ∷ (v / 2 ^ 8 % 2 ^ 8) ∷ (v % 2 ^ 8) ∷ []

abbrev pub zeros : ℕ → Bytes
zeros n = replicate n 0

abbrev pub tlv : ℕ → Bytes → Bytes
tlv type value =
    ((be16 type ++ be16 (length value)) ++ value) ++ zeros (pad4 (length value) - length value)

pub read_be16-be16 : (v : ℕ) (rest : Bytes) → IsU16 v → read_be16 (be16 v ++ rest) ≡ done v
unfolding read_be16
read_be16-be16 v rest h = ap done (ground (arith, bit_or_fields 8 (v / 2 ^ 8) (v % 2 ^ 8)))

pub read_be32-be32 : (v : ℕ) (rest : Bytes) → IsU32 v → read_be32 (be32 v ++ rest) ≡ done v
unfolding read_be32
read_be32-be32 v rest h = ap done (
    ground (
      arith,
      bit_or_fields 24 (v / 2 ^ 24) (v / 2 ^ 16 % 2 ^ 8 * 2 ^ 16),
      bit_or_fields 16 (v / 2 ^ 24 * 2 ^ 8 + v / 2 ^ 16 % 2 ^ 8) (v / 2 ^ 8 % 2 ^ 8 * 2 ^ 8),
      bit_or_fields 8 (v / 2 ^ 8) (v % 2 ^ 8),
    ))

pub write_be16-behind :
    (off v : ℕ) (before buf : Bytes)
    → off ≡ length before
    → IsU16 v
    → 2 ≤ length buf
    → write_be16 off v (before ++ buf) ≡ done (before ++ be16 v ++ drop 2 buf)
unfolding write_be16
write_be16-behind off v before buf e h fits =
    ap (λ bs. store off bs (before ++ buf)) bytes ∙ store-behind off before (be16 v) buf e fits
  where
    bytes : u8 (v >>> 8) ∷ u8 (bit_and v 0xff) ∷ [] ≡ be16 v
    bytes = ground (arith, bit_and_mask 8 v)

pub write_be32-behind :
    (off v : ℕ) (before buf : Bytes)
    → off ≡ length before
    → IsU32 v
    → 4 ≤ length buf
    → write_be32 off v (before ++ buf) ≡ done (before ++ be32 v ++ drop 4 buf)
unfolding write_be32
write_be32-behind off v before buf e h fits =
    ap (λ bs. store off bs (before ++ buf)) bytes ∙ store-behind off before (be32 v) buf e fits
  where
    bytes : u8 (v >>> 24) ∷ u8 (v >>> 16) ∷ u8 (v >>> 8) ∷ u8 (bit_and v 0xff) ∷ [] ≡ be32 v
    bytes = ground (arith, bit_and_mask 8 v)

pub write_header_lem :
    (type len : ℕ) (buf : Bytes)
    → IsU16 type
    → IsU16 len
    → 4 ≤ length buf
    → write_header type len buf ≡ done ((be16 type ++ be16 len) ++ drop 4 buf)
unfolding write_header
write_header_lem type len buf ht hl fits =
    rw (write_be16-behind 0 type [] buf (omega arith) ht (omega arith)) (
      write_be16-behind 2 len (be16 type) (drop 2 buf) (omega arith) hl
        (rw length-drop (omega arith))
      ∙ ap (λ t. done (be16 type ++ be16 len ++ t)) (drop-drop 2 2 buf))

-- Writing an attribute at the front of a span, if it fits.
abbrev pub put_tlv : ℕ → Bytes → Bytes → Outcome (Bool × Bytes)
put_tlv type value buf =
    if leb (attr_header_size + pad4 (length value)) (length buf)
    then done (true, tlv type value ++ drop (attr_header_size + pad4 (length value)) buf)
    else done (false, buf)

pub header_store :
    (type len : ℕ) (body buf : Bytes)
    → IsU16 type
    → IsU16 len
    → 4 + length body ≤ length buf
    → (write_header type len buf >>= store 4 body)
      ≡ done (((be16 type ++ be16 len) ++ body) ++ drop (4 + length body) buf)
header_store type len body buf ht hl fits = rw (write_header_lem type len buf ht hl (omega arith)) (
    store-behind 4 (be16 type ++ be16 len) body (drop 4 buf) (omega arith)
      (rw length-drop (omega arith))
    ∙ ap (λ t. done (((be16 type ++ be16 len) ++ body) ++ t)) (drop-drop (length body) 4 buf))
