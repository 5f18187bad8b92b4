-- ===== src/Attr/Algorithms.antt =====
-- include/stunxx/attributes/PasswordAlgorithmsAttr.hpp: a list of algorithms.
pub mod Laws
pub mod Total
use libstunxx.Common.{
  ℕ, zero, suc, ◌+◌, ◌-◌, ◌*◌, ◌/◌, ◌≡◌, Bool, true, false, not, ◌||◌, Option, none, some, List, [],
  ◌∷◌, ◌++◌, ltb, ◌==◌, if◌then◌else◌, length, u16, pad4,
}
use libstunxx.Memory.{Bytes, Outcome, done, fault, ◌>>=◌, fetch, fetch_from}
use libstunxx.Stun.Wire.{attr_header_size, write_header, read_be16}
use libstunxx.Attr.Concept.{StunAttribute}
use libstunxx.Attr.Frame.{return_true}
use libstunxx.Attr.Algorithm.Entry.{PasswordAlgorithmEntry, entry_padded_length, write_entry}

abbrev pub password_algorithms_type : ℕ
password_algorithms_type = 0x8002

pub record PasswordAlgorithmsAttr : Type 0 where
  pub entries : List PasswordAlgorithmEntry

-- addEntry
unfoldable pub add_entry : PasswordAlgorithmEntry → PasswordAlgorithmsAttr → PasswordAlgorithmsAttr
add_entry e a = record { entries = a.entries ++ e ∷ [] }

abbrev pub entries_length : List PasswordAlgorithmEntry → ℕ
entries_length [] = 0
entries_length (e ∷ es) = entry_padded_length e + entries_length es

abbrev pub password_algorithms_length : PasswordAlgorithmsAttr → ℕ
password_algorithms_length a = entries_length a.entries

any_algorithm : ℕ → List PasswordAlgorithmEntry → Bool
any_algorithm algorithm [] = false
any_algorithm algorithm (e ∷ es) = e.algorithm == algorithm || any_algorithm algorithm es

-- contains
unfoldable pub contains : ℕ → PasswordAlgorithmsAttr → Bool
unfolding any_algorithm
contains algorithm a = any_algorithm algorithm a.entries

-- The loop of `decode` on the part of the buffer that is left, with the entries so far. A round takes
-- four bytes at least; without fuel it would fault.
unfoldable pub read_entries :
    ℕ → Bytes → List PasswordAlgorithmEntry → Outcome (Option PasswordAlgorithmsAttr)
read_entries zero buf entries = fault
read_entries (suc n) buf entries =
    if ltb (length buf) 4 then done (some (record { entries = entries })) else (do
      s ← fetch 0 2 buf
      algorithm ← read_be16 s
      t ← fetch 2 2 buf
      param_len ← read_be16 t
      buf1 ← fetch_from 4 buf
      if ltb (length buf1) (pad4 param_len) then done none else (do
        parameters ← fetch 0 param_len buf1
        buf2 ← fetch_from (pad4 param_len) buf1
        read_entries n buf2
            (entries ++ record { algorithm = algorithm; parameters = parameters } ∷ [])))

unfoldable pub decode_password_algorithms : Bytes → Outcome (Option PasswordAlgorithmsAttr)
decode_password_algorithms buf = read_entries (suc (length buf)) buf []

-- The loop of `encode` from `offset` on.
unfoldable pub write_entries : ℕ → List PasswordAlgorithmEntry → Bytes → Outcome Bytes
unfolding write_entry
write_entries offset [] buf = done buf
write_entries offset (e ∷ es) buf = do
  buf' ← write_entry offset e buf
  write_entries (offset + 4 + (entry_padded_length e - 4)) es buf'

unfoldable pub encode_password_algorithms : PasswordAlgorithmsAttr → Bytes → Outcome (Bool × Bytes)
encode_password_algorithms a buf =
    let attr_len = password_algorithms_length a in
    if ltb (length buf) (attr_header_size + attr_len) then done (false, buf) else (do
      b1 ← write_header password_algorithms_type (u16 attr_len) buf
      b2 ← write_entries attr_header_size a.entries b1
      return_true b2)

abbrev pub password_algorithms_attribute : StunAttribute PasswordAlgorithmsAttr
password_algorithms_attribute = record {
  type = password_algorithms_type;
  length_of = password_algorithms_length;
  encode = encode_password_algorithms;
}
