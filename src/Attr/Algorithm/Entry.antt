-- ===== src/Attr/Algorithm/Entry.antt =====
-- include/stunxx/PasswordAlgorithmEntry.hpp: an algorithm and its parameters; and how an entry is
-- written, which the two attributes that hold entries have in common.
use libstunxx.Common.{
  ℕ, suc, ◌+◌, ◌-◌, ◌≤◌, ◌≡◌, ap, ◌∙◌, ◌∷◌, ◌++◌, arith, length, length-append, length-replicate,
  append_assoc, drop, u16, IsU16, pad4,
}
use libstunxx.Memory.{Bytes, Outcome, done, ◌>>=◌, store}
use libstunxx.Memory.Laws.{store-behind, store-past}
use libstunxx.Stun.Wire.{write_be16, be16, tlv, zeros, write_be16-behind}
use libstunxx.Attr.Frame.{store-zeros}

pub record PasswordAlgorithmEntry : Type 0 where
  pub algorithm : ℕ
  pub parameters : Bytes

abbrev pub entry_length : PasswordAlgorithmEntry → ℕ
entry_length e = 4 + length e.parameters

abbrev pub entry_padded_length : PasswordAlgorithmEntry → ℕ
entry_padded_length e = 4 + pad4 (length e.parameters)

unfoldable pub write_entry : ℕ → PasswordAlgorithmEntry → Bytes → Outcome Bytes
write_entry offset e buf = do
  b1 ← store offset (zeros (entry_padded_length e)) buf
  b2 ← write_be16 offset e.algorithm b1
  b3 ← write_be16 (offset + 2) (u16 (length e.parameters)) b2
  store (offset + 4) e.parameters b3

pub length-entry :
    (e : PasswordAlgorithmEntry) → length (tlv e.algorithm e.parameters) ≡ entry_padded_length e
length-entry e = omega (
  arith,
  length-append {0} e.parameters (zeros (pad4 (length e.parameters) - length e.parameters)),
  length-replicate {0} {A = ℕ} (pad4 (length e.parameters) - length e.parameters) 0,
)

-- An entry on the wire has the shape of an attribute.
pub write_entry-behind :
    (offset : ℕ) (e : PasswordAlgorithmEntry) (before buf : Bytes)
    → offset ≡ length before
    → IsU16 e.algorithm
    → IsU16 (length e.parameters)
    → entry_padded_length e ≤ length buf
    → write_entry offset e (before ++ buf)
      ≡ done ((before ++ tlv e.algorithm e.parameters) ++ drop (entry_padded_length e) buf)
unfolding write_entry
write_entry-behind offset e before buf at ha hl room =
    rw
      (
        zeroed,
        write_be16-behind offset e.algorithm before (0 ∷ 0 ∷ 0 ∷ 0 ∷ (zeros p ++ behind)) at ha
            (omega arith),
        narrow,
        write_be16-behind (offset + 2) (length e.parameters) (before ++ be16 e.algorithm)
            (0 ∷ 0 ∷ (zeros p ++ behind)) (rw length-append (omega (arith, at))) hl (omega arith),
        store-past ((before ++ be16 e.algorithm) ++ be16 (length e.parameters)) e.parameters
            (zeros p ++ behind) _ (store-zeros e.parameters behind p (omega arith)) (offset + 4)
            (rw (length-append, length-append) (omega (arith, at))),
      )
      (simp append_assoc)
  where
    p : ℕ
    p = pad4 (length e.parameters)

    behind : Bytes
    behind = drop (entry_padded_length e) buf

    narrow : u16 (length e.parameters) ≡ length e.parameters
    narrow = omega arith

    zeroed :
        store offset (zeros (entry_padded_length e)) (before ++ buf)
        ≡ done (before ++ (0 ∷ 0 ∷ 0 ∷ 0 ∷ (zeros p ++ behind)))
    zeroed =
        ap (λ k. store offset (zeros k) (before ++ buf)) {y = suc (suc (suc (suc p)))} (omega arith)
        ∙ store-behind offset before (0 ∷ 0 ∷ 0 ∷ 0 ∷ zeros p) buf at
            (omega (arith, room, length-replicate {0} {A = ℕ} p 0))
        ∙ ap (λ k. done ((before ++ (0 ∷ 0 ∷ 0 ∷ 0 ∷ zeros p)) ++ drop k buf))
            {x = length (0 ∷ 0 ∷ 0 ∷ 0 ∷ zeros p)} {y = entry_padded_length e}
            (omega (arith, length-replicate {0} {A = ℕ} p 0))
        ∙ ap done (append_assoc before (0 ∷ 0 ∷ 0 ∷ 0 ∷ zeros p) behind)
