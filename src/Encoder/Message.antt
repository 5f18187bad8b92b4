-- ===== src/Encoder/Message.antt =====
-- What a message is, as bytes: the header of the RFC and the attributes one behind the other.
use libstunxx.Common.{
  ℕ, ◌+◌, ◌-◌, ◌≤◌, ◌≡◌, refl, sym, ap, ◌∙◌, List, [], ◌∷◌, ◌++◌, arith, length, length-append,
  length-replicate, append_assoc, IsU16, IsU32, pad4, All,
}
use mathlib.Core.Path.{subst}
use libstunxx.Memory.{Bytes, done}
use libstunxx.Memory.Laws.{fetch-behind}
use libstunxx.Stun.Wire.{be16, be32, tlv, zeros, read_be16-be16, read_be32-be32}
use libstunxx.Stun.Header.{magic_cookie_value}
use libstunxx.Table.{AttrHeader}
use libstunxx.Decoder.{peek16, peek32}
use libstunxx.Decoder.Walk.{Chain}

pub record Item : Type 0 where
  pub type : ℕ
  pub value : Bytes

abbrev pub FitsItem : Item → Type 0
FitsItem i = IsU16 i.type × IsU16 (length i.value)

abbrev pub body : List Item → Bytes
body [] = []
body (i ∷ items) = tlv i.type i.value ++ body items

abbrev pub wire_header : ℕ → ℕ → Bytes → Bytes
wire_header type len transaction_id =
    be16 type ++ (be16 len ++ (be32 magic_cookie_value ++ transaction_id))

abbrev pub message : ℕ → Bytes → List Item → Bytes
message type transaction_id items =
    wire_header type (length (body items)) transaction_id ++ body items

-- The headers that a decoder finds for the items that stand from `off` on.
abbrev pub headers : ℕ → List Item → List AttrHeader
headers off [] = []
headers off (i ∷ items) =
    record { type = i.type; len = length i.value; offset = off + 4 }
    ∷ headers (off + (4 + pad4 (length i.value))) items

pub length-tlv : (type : ℕ) (value : Bytes) → length (tlv type value) ≡ 4 + pad4 (length value)
length-tlv type value = omega (
  arith,
  length-append {0} value (zeros (pad4 (length value) - length value)),
  length-replicate {0} {A = ℕ} (pad4 (length value) - length value) 0,
)

pub length-body_cons :
    (i : Item) (items : List Item)
    → length (body (i ∷ items)) ≡ 4 + pad4 (length i.value) + length (body items)
length-body_cons i items =
    length-append (tlv i.type i.value) (body items)
    ∙ ap (λ n. n + length (body items)) (length-tlv i.type i.value)

pub body-append : (xs ys : List Item) → body (xs ++ ys) ≡ body xs ++ body ys
body-append [] ys = refl
body-append (x ∷ xs) ys =
    ap (λ t. tlv x.type x.value ++ t) (body-append xs ys)
    ∙ sym (append_assoc (tlv x.type x.value) (body xs) (body ys))

pub peek16-behind :
    (off v : ℕ) (before rest : Bytes)
    → off ≡ length before
    → IsU16 v
    → peek16 off (before ++ (be16 v ++ rest)) ≡ done v
unfolding peek16
peek16-behind off v before rest e h =
    rw (fetch-behind off 2 before (be16 v) rest e refl) (read_be16-be16 v [] h)

pub peek32-behind :
    (off v : ℕ) (before rest : Bytes)
    → off ≡ length before
    → IsU32 v
    → peek32 off (before ++ (be32 v ++ rest)) ≡ done v
unfolding peek32
peek32-behind off v before rest e h =
    rw (fetch-behind off 4 before (be32 v) rest e refl) (read_be32-be32 v [] h)

-- The attributes of a body are a chain, wherever the body stands.
pub Chain-body :
    (items : List Item) (before rest : Bytes) (off end : ℕ)
    → off ≡ length before
    → All FitsItem items
    → off + length (body items) ≤ end
    → Chain (before ++ (body items ++ rest)) end off (headers off items) (off + length (body items))
Chain-body [] before rest off end e fits room = omega arith
Chain-body (i ∷ items) before rest off end e ((ht, hv), fits) room = (
  peek16-behind off i.type before _ e ht,
  ap (peek16 (off + 2)) (sym (append_assoc before (be16 i.type) _))
      ∙ peek16-behind (off + 2) (length i.value) (before ++ be16 i.type) _
          (rw length-append (omega arith)) hv,
  refl,
  omega (arith, length-body_cons i items),
  subst (λ b. Chain b end next (headers next items) (off + length (body (i ∷ items)))) regroup
      (subst
        (Chain ((before ++ tlv i.type i.value) ++ (body items ++ rest)) end next
          (headers next items))
        last
        (Chain-body items (before ++ tlv i.type i.value) rest next end
          (rw (length-append, length-tlv) (omega arith)) fits (rw last room))),
)
  where
    next : ℕ
    next = off + (4 + pad4 (length i.value))

    regroup :
        (before ++ tlv i.type i.value) ++ (body items ++ rest)
        ≡ before ++ (body (i ∷ items) ++ rest)
    regroup =
        append_assoc before (tlv i.type i.value) (body items ++ rest)
        ∙ ap (λ t. before ++ t) (sym (append_assoc (tlv i.type i.value) (body items) rest))

    last : next + length (body items) ≡ off + length (body (i ∷ items))
    last = omega (arith, length-body_cons i items)
