-- ===== src/Decoder/Spelled.antt =====
-- What stands in the bytes of a message, said without the functions that read them.
use libstunxx.Common.{
  ℕ, zero, suc, ◌+◌, ◌*◌, ◌≤◌, ◌≡◌, refl, sym, ap, ap₂, ◌∙◌, List, [], ◌∷◌, ◌++◌, arith, length,
  take, drop, length-take, length-drop, IsByte, IsU16, IsU32, All, pad4,
}
use libstunxx.Memory.{Bytes, done, done-injective}
use libstunxx.Memory.Laws.{fetch-inside}
use libstunxx.Stun.Wire.{be16, be32, read_be16-be16, read_be32-be32}
use libstunxx.Stun.Header.{StunHeader}
use libstunxx.Table.{AttrHeader}
use libstunxx.Decoder.{peek16, peek32, read_fields, fill_header}
use libstunxx.Decoder.Walk.{Chain}

-- `n` bytes from `off` on.
abbrev pub part : ℕ → ℕ → Bytes → Bytes
part off n buf = take n (drop off buf)

-- A header whose fields have the widths of the source.
abbrev pub IsTyped : StunHeader → Type 0
IsTyped h =
    IsU16 h.msg_type × IsU16 h.msg_length × IsU32 h.magic_cookie × (length h.transaction_id ≡ 12)

-- The fields of a header in network order, where the RFC has them.
abbrev pub Spells : Bytes → StunHeader → Type 0
Spells buf h =
    (part 0 2 buf ≡ be16 h.msg_type)
    × (part 2 2 buf ≡ be16 h.msg_length)
    × (part 4 4 buf ≡ be32 h.magic_cookie)
    × (part 8 12 buf ≡ h.transaction_id)

-- The headers of attributes that stand one behind the other from `off` to `last`, each four bytes, a
-- type and a length in network order, in front of a value inside the first `end` bytes.
abbrev pub Laid : Bytes → ℕ → ℕ → List AttrHeader → ℕ → Type 0
Laid buf end off [] last = off ≡ last
Laid buf end off (h ∷ hs) last =
    (part off 2 buf ≡ be16 h.type)
    × (part (off + 2) 2 buf ≡ be16 h.len)
    × (h.offset ≡ off + 4)
    × (off + 4 + h.len ≤ end)
    × Laid buf end (off + (4 + pad4 h.len)) hs last

abbrev pub FitsHeader : AttrHeader → Type 0
FitsHeader h = IsU16 h.type × IsU16 h.len

take-All : (n : ℕ) (xs : Bytes) → All IsByte xs → All IsByte (take n xs)
take-All zero xs all = tt
take-All (suc n) [] all = tt
take-All (suc n) (x ∷ xs) (b, all) = (b, take-All n xs all)

drop-All : (n : ℕ) (xs : Bytes) → All IsByte xs → All IsByte (drop n xs)
drop-All zero xs all = all
drop-All (suc n) [] all = tt
drop-All (suc n) (x ∷ xs) (b, all) = drop-All n xs all

be16_of : (s : Bytes) → length s ≡ 2 → All IsByte s → (v : ℕ) × IsU16 v × (s ≡ be16 v)
be16_of [] e all = absurd (omega arith)
be16_of (a ∷ []) e all = absurd (omega arith)
be16_of (a ∷ b ∷ []) e (ha, (hb, _)) =
    (a * 256 + b, omega arith, ap₂ (λ x y. x ∷ y ∷ []) (omega arith) (omega arith))
be16_of (a ∷ b ∷ c ∷ s) e all = absurd (omega arith)

be32_of : (s : Bytes) → length s ≡ 4 → All IsByte s → (v : ℕ) × IsU32 v × (s ≡ be32 v)
be32_of [] e all = absurd (omega arith)
be32_of (a ∷ []) e all = absurd (omega arith)
be32_of (a ∷ b ∷ []) e all = absurd (omega arith)
be32_of (a ∷ b ∷ c ∷ []) e all = absurd (omega arith)
be32_of (a ∷ b ∷ c ∷ d ∷ []) e (ha, (hb, (hc, (hd, _)))) = (
  a * 16777216 + b * 65536 + c * 256 + d,
  omega arith,
  ap₂ (λ (p q : Bytes). p ++ q) (ap₂ (λ x y. x ∷ y ∷ []) (omega arith) (omega arith))
      (ap₂ (λ x y. x ∷ y ∷ []) (omega arith) (omega arith)),
)
be32_of (a ∷ b ∷ c ∷ d ∷ x ∷ s) e all = absurd (omega arith)

part-length : (off n : ℕ) (buf : Bytes) → off + n ≤ length buf → length (part off n buf) ≡ n
part-length off n buf h = length-take n (drop off buf) (rw length-drop (omega arith))

-- What a read answers, from what stands there.
pub peek16-part :
    (off v : ℕ) (buf : Bytes)
    → off + 2 ≤ length buf
    → IsU16 v
    → part off 2 buf ≡ be16 v
    → peek16 off buf ≡ done v
unfolding peek16
peek16-part off v buf fits h e = rw (fetch-inside off 2 buf fits, e) (read_be16-be16 v [] h)

peek32-part :
    (off v : ℕ) (buf : Bytes)
    → off + 4 ≤ length buf
    → IsU32 v
    → part off 4 buf ≡ be32 v
    → peek32 off buf ≡ done v
unfolding peek32
peek32-part off v buf fits h e = rw (fetch-inside off 4 buf fits, e) (read_be32-be32 v [] h)

module _ (buf : Bytes) (bytes : All IsByte buf) where
  part16 : (off : ℕ) → off + 2 ≤ length buf → (v : ℕ) × IsU16 v × (part off 2 buf ≡ be16 v)
  part16 off fits =
      be16_of (part off 2 buf) (part-length off 2 buf fits)
        (take-All 2 (drop off buf) (drop-All off buf bytes))

  part32 : (off : ℕ) → off + 4 ≤ length buf → (v : ℕ) × IsU32 v × (part off 4 buf ≡ be32 v)
  part32 off fits =
      be32_of (part off 4 buf) (part-length off 4 buf fits)
        (take-All 4 (drop off buf) (drop-All off buf bytes))

  -- Twenty bytes are a header.
  pub spelled : 20 ≤ length buf → (h : StunHeader) × IsTyped h × Spells buf h
  spelled fits =
      let (type, ht, et) = part16 0 (omega arith) in
      let (len, hl, el) = part16 2 (omega arith) in
      let (cookie, hc, ec) = part32 4 (omega arith) in
      (
        record {
          msg_type = type;
          msg_length = len;
          magic_cookie = cookie;
          transaction_id = part 8 12 buf;
        },
        (ht, hl, hc, part-length 8 12 buf (omega arith)),
        (et, el, ec, refl),
      )

  -- A number that was read is the one that stands there.
  part-peek16 :
      (off v : ℕ)
      → off + 2 ≤ length buf
      → peek16 off buf ≡ done v
      → IsU16 v × (part off 2 buf ≡ be16 v)
  part-peek16 off v fits e =
      let (w, hw, ew) = part16 off fits in
      let same : w ≡ v = done-injective (sym (peek16-part off w buf fits hw ew) ∙ e) in
      (omega (arith, same), ew ∙ ap be16 same)

  pub Chain-Laid :
      (end off last : ℕ) (hs : List AttrHeader)
      → end ≤ length buf
      → Chain buf end off hs last
      → Laid buf end off hs last × All FitsHeader hs
  Chain-Laid end off last [] inside c = (c, tt)
  Chain-Laid end off last (h ∷ hs) inside (et, el, eo, fits, c) =
      let (ht, pt) = part-peek16 off h.type (omega arith) et in
      let (hl, pl) = part-peek16 (off + 2) h.len (omega arith) el in
      let (laid, all) = Chain-Laid end (off + (4 + pad4 h.len)) last hs inside c in
      ((pt, pl, eo, omega arith, laid), ((ht, hl), all))

pub Laid-Chain :
    (buf : Bytes) (end off last : ℕ) (hs : List AttrHeader)
    → end ≤ length buf
    → All FitsHeader hs
    → Laid buf end off hs last
    → Chain buf end off hs last
Laid-Chain buf end off last [] inside all c = c
Laid-Chain buf end off last (h ∷ hs) inside ((ht, hl), all) (pt, pl, eo, fits, c) = (
  peek16-part off h.type buf (omega arith) ht pt,
  peek16-part (off + 2) h.len buf (omega arith) hl pl,
  eo,
  omega arith,
  Laid-Chain buf end (off + (4 + pad4 h.len)) last hs inside all c,
)

module _ (buf : Bytes) (h : StunHeader) (fits : 20 ≤ length buf) (typed : IsTyped h)
    (spells : Spells buf h) where
  -- Both functions that read a header read the one that is spelt out.
  pub read_fields-Spells : read_fields buf ≡ done h
  unfolding read_fields
  read_fields-Spells = rw (
    peek16-part 0 h.msg_type buf (omega arith) typed.0 spells.0,
    peek16-part 2 h.msg_length buf (omega arith) typed.1 spells.1,
    peek32-part 4 h.magic_cookie buf (omega arith) typed.2 spells.2,
    fetch-inside 8 12 buf fits,
    spells.3,
  )

  pub fill_header-Spells : fill_header buf ≡ done h
  unfolding fill_header
  fill_header-Spells = rw (
    peek16-part 0 h.msg_type buf (omega arith) typed.0 spells.0,
    peek16-part 2 h.msg_length buf (omega arith) typed.1 spells.1,
    peek32-part 4 h.magic_cookie buf (omega arith) typed.2 spells.2,
    fetch-inside 8 12 buf fits,
    spells.3,
  )

nth : ℕ → Bytes → ℕ
nth i [] = 0
nth zero (x ∷ xs) = x
nth (suc i) (x ∷ xs) = nth i xs

-- Four bytes in network order are those of one number only.
pub be32-injective : (v w : ℕ) → be32 v ≡ be32 w → v ≡ w
unfolding nth
be32-injective v w e = omega (arith, ap (nth 0) e, ap (nth 1) e, ap (nth 2) e, ap (nth 3) e)
