-- ===== src/Attr/Algorithm.antt =====
-- include/stunxx/PasswordAlgorithmEntry.hpp and include/stunxx/attributes/PasswordAlgorithmAttr.hpp.
pub mod Entry
use libstunxx.Common.{
  ℕ, ◌+◌, ◌-◌, ◌*◌, ◌/◌, ◌%◌, ◌^◌, ◌≤◌, ◌<◌, ◌≡◌, refl, sym, ap, ◌∙◌, Bool, true, false, not,
  Option, none, some, List, [], ◌∷◌, ◌++◌, arith, ltb, if◌then◌else◌, length, length-append,
  length-drop, append_assoc, append-nil, drop, drop-drop, u16, IsU16, pad4, le→ltb,
}
use libstunxx.Memory.{Bytes, Outcome, done, ◌>>=◌, store, fetch}
use libstunxx.Memory.Laws.{fetch-behind}
use libstunxx.Stun.Wire.{
  attr_header_size, write_header, write_be16, read_be16, be16, tlv, zeros, put_tlv, read_be16-be16,
}
use libstunxx.Attr.Concept.{StunAttribute}
use libstunxx.Attr.Frame.{return_true}
use libstunxx.Attr.Written.{unpadded_value}
use Entry.{
  PasswordAlgorithmEntry, entry_padded_length, write_entry, write_entry-behind, length-entry,
}

abbrev pub password_algorithm_type : ℕ
password_algorithm_type = 0x001d

pub record PasswordAlgorithmAttr : Type 0 where
  pub entry : PasswordAlgorithmEntry

abbrev pub password_algorithm_length : PasswordAlgorithmAttr → ℕ
password_algorithm_length a = entry_padded_length a.entry

unfoldable pub decode_password_algorithm : Bytes → Outcome (Option PasswordAlgorithmAttr)
decode_password_algorithm buf = if ltb (length buf) 4 then done none else (do
  s ← fetch 0 2 buf
  algorithm ← read_be16 s
  t ← fetch 2 2 buf
  param_len ← read_be16 t
  if ltb (length buf) (4 + pad4 param_len) then done none else (do
    parameters ← fetch 4 param_len buf
    done (some (record { entry = record { algorithm = algorithm; parameters = parameters } }))))

unfoldable pub encode_password_algorithm : PasswordAlgorithmAttr → Bytes → Outcome (Bool × Bytes)
unfolding write_entry
encode_password_algorithm a buf =
    if ltb (length buf) (attr_header_size + password_algorithm_length a)
    then done (false, buf)
    else (do
      b1 ← write_header password_algorithm_type (u16 (password_algorithm_length a)) buf
      b2 ← write_entry attr_header_size a.entry b1
      return_true b2)

abbrev pub password_algorithm_attribute : StunAttribute PasswordAlgorithmAttr
password_algorithm_attribute = record {
  type = password_algorithm_type;
  length_of = password_algorithm_length;
  encode = encode_password_algorithm;
}

encode_password_algorithm_lem :
    (a : PasswordAlgorithmAttr) (buf : Bytes)
    → IsU16 a.entry.algorithm
    → 4 + pad4 (length a.entry.parameters) < 2 ^ 16
    → encode_password_algorithm a buf
      ≡ put_tlv password_algorithm_type (tlv a.entry.algorithm a.entry.parameters) buf
unfolding encode_password_algorithm
encode_password_algorithm_lem a buf ha hl =
    unpadded_value password_algorithm_type (password_algorithm_length a) value buf
      (write_entry attr_header_size a.entry) (omega arith) (rw size hl) (sym size)
      (omega (arith, size))
      (λ room.
        write_entry-behind 4 a.entry head (drop 4 buf) refl ha (omega (arith, hl))
          (rw length-drop (omega (arith, size, room)))
        ∙ ap (λ k. done ((head ++ value) ++ drop k (drop 4 buf))) (sym size))
  where
    value : Bytes
    value = tlv a.entry.algorithm a.entry.parameters

    head : Bytes
    head = be16 password_algorithm_type ++ be16 (length value)

    size : length value ≡ 4 + pad4 (length a.entry.parameters)
    size = length-entry a.entry

decode_password_algorithm_lem :
    (a : PasswordAlgorithmAttr) (rest : Bytes)
    → IsU16 a.entry.algorithm
    → IsU16 (length a.entry.parameters)
    → decode_password_algorithm (tlv a.entry.algorithm a.entry.parameters ++ rest) ≡ done (some a)
unfolding decode_password_algorithm
decode_password_algorithm_lem a rest ha hl = rw (
  le→ltb (length frame) 4 (omega (arith, long)),
  ap (fetch 0 2) parts ∙ fetch-behind 0 2 [] (be16 alg) _ refl refl,
  read_be16-be16 alg [] ha,
  ap (fetch 2 2) parts
      ∙ fetch-behind 2 2 (be16 alg) (be16 (length params)) (params ++ (pad ++ rest)) refl refl,
  read_be16-be16 (length params) [] hl,
  le→ltb (length frame) (4 + pad4 (length params)) (omega (arith, long)),
  ap (fetch 4 (length params)) parts
      ∙ fetch-behind 4 (length params) (be16 alg ++ be16 (length params)) params (pad ++ rest) refl
          refl,
)
  where
    alg : ℕ
    alg = a.entry.algorithm

    params : Bytes
    params = a.entry.parameters

    pad : Bytes
    pad = zeros (pad4 (length params) - length params)

    frame : Bytes
    frame = tlv alg params ++ rest

    parts : frame ≡ be16 alg ++ (be16 (length params) ++ (params ++ (pad ++ rest)))
    parts =
        append_assoc ((be16 alg ++ be16 (length params)) ++ params) pad rest
        ∙ append_assoc (be16 alg ++ be16 (length params)) params (pad ++ rest)

    long : length frame ≡ 4 + pad4 (length params) + length rest
    long = length-append (tlv alg params) rest ∙ ap (λ n. n + length rest) (length-entry a.entry)

-- For a 16-bit algorithm and parameters that keep the value shorter than 65536 bytes, on a span of
-- any size: the attribute is written with the algorithm, the length of the parameters, the
-- parameters and zeros up to a multiple of four as its value, or false is answered and nothing
-- written if that does not fit; and the value decodes to the algorithm and the parameters, whatever
-- follows it.
pub password_algorithm_round_trip :
    (a : PasswordAlgorithmAttr) (buf rest : Bytes)
    → IsU16 a.entry.algorithm
    → 4 + pad4 (length a.entry.parameters) < 2 ^ 16
    → (encode_password_algorithm a buf
        ≡ put_tlv password_algorithm_type (tlv a.entry.algorithm a.entry.parameters) buf)
      × (decode_password_algorithm (tlv a.entry.algorithm a.entry.parameters ++ rest)
          ≡ done (some a))
password_algorithm_round_trip a buf rest ha hl = (
  encode_password_algorithm_lem a buf ha hl,
  decode_password_algorithm_lem a rest ha (omega (arith, hl)),
)
