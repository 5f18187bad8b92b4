-- ===== src/Attr/Algorithms/Laws.antt =====
-- PASSWORD-ALGORITHMS: the list on the wire, written and read.
use libstunxx.Common.{
  ℕ, zero, suc, ◌+◌, ◌-◌, ◌%◌, ◌≤◌, ◌<◌, ◌≡◌, refl, sym, ap, ◌∙◌, some, List, [], ◌∷◌, ◌++◌, arith,
  length, length-append, length-drop, append_assoc, append-nil, drop, drop-drop, IsU16, pad4,
  le→ltb, lt→ltb, All,
}
use libstunxx.Memory.{Bytes, done, fetch, fetch_from}
use libstunxx.Memory.Laws.{fetch-behind, fetch_from-behind}
use libstunxx.Stun.Wire.{attr_header_size, be16, tlv, zeros, put_tlv, read_be16-be16}
use libstunxx.Attr.Written.{unpadded_value}
use libstunxx.Attr.Algorithm.Entry.{
  PasswordAlgorithmEntry, entry_padded_length, write_entry-behind, length-entry,
}
use libstunxx.Attr.Algorithms.{
  PasswordAlgorithmsAttr, password_algorithms_type, entries_length, password_algorithms_length,
  read_entries, write_entries, encode_password_algorithms, decode_password_algorithms,
}

abbrev pub entries_bytes : List PasswordAlgorithmEntry → Bytes
entries_bytes [] = []
entries_bytes (e ∷ es) = tlv e.algorithm e.parameters ++ entries_bytes es

abbrev pub FitsEntry : PasswordAlgorithmEntry → Type 0
FitsEntry e = IsU16 e.algorithm × IsU16 (length e.parameters)

pub length-entries_bytes :
    (es : List PasswordAlgorithmEntry) → length (entries_bytes es) ≡ entries_length es
length-entries_bytes [] = refl
length-entries_bytes (e ∷ es) =
    length-append (tlv e.algorithm e.parameters) (entries_bytes es)
    ∙ omega (arith, length-entry e, length-entries_bytes es)

entries_length_words : (es : List PasswordAlgorithmEntry) → entries_length es % 4 ≡ 0
entries_length_words [] = refl
entries_length_words (e ∷ es) = omega (arith, entries_length_words es)

write_entries-behind :
    (offset : ℕ) (es : List PasswordAlgorithmEntry) (before buf : Bytes)
    → offset ≡ length before
    → All FitsEntry es
    → entries_length es ≤ length buf
    → write_entries offset es (before ++ buf)
      ≡ done ((before ++ entries_bytes es) ++ drop (entries_length es) buf)
unfolding write_entries
write_entries-behind offset [] before buf at h room =
    ap (λ t. done (t ++ buf)) (sym (append-nil before))
write_entries-behind offset (e ∷ es) before buf at ((ha, hl), h) room =
    rw (write_entry-behind offset e before buf at ha hl (omega (arith, room))) (
      write_entries-behind (offset + 4 + (entry_padded_length e - 4)) es
        (before ++ tlv e.algorithm e.parameters) (drop (entry_padded_length e) buf)
        (rw length-append (omega (arith, at, length-entry e))) h
        (rw length-drop (omega (arith, room)))
      ∙ ap done (
          ap (λ front. front ++ drop (entries_length es) (drop (entry_padded_length e) buf))
            (append_assoc before (tlv e.algorithm e.parameters) (entries_bytes es))
          ∙ ap (λ back. (before ++ entries_bytes (e ∷ es)) ++ back)
              (drop-drop (entries_length es) (entry_padded_length e) buf)))

-- One round on a buffer that begins with an entry.
read_entries_round :
    (n : ℕ) (e : PasswordAlgorithmEntry) (entries : List PasswordAlgorithmEntry) (rest : Bytes)
    → FitsEntry e
    → read_entries (suc n) (tlv e.algorithm e.parameters ++ rest) entries
      ≡ read_entries n rest (entries ++ e ∷ [])
unfolding read_entries
read_entries_round n e entries rest (ha, hl) = rw (
  le→ltb (length frame) 4 (omega (arith, ap length parts)),
  ap (fetch 0 2) parts ∙ fetch-behind 0 2 [] (be16 alg) _ refl refl,
  read_be16-be16 alg [] ha,
  ap (fetch 2 2) parts
      ∙ fetch-behind 2 2 (be16 alg) (be16 (length params)) (params ++ (pad ++ rest)) refl refl,
  read_be16-be16 (length params) [] hl,
  ap (fetch_from 4) parts
      ∙ fetch_from-behind 4 (be16 alg ++ be16 (length params)) (params ++ (pad ++ rest)) refl,
  le→ltb (length (params ++ (pad ++ rest))) (pad4 (length params)) (omega (arith, long)),
  fetch-behind 0 (length params) [] params (pad ++ rest) refl refl,
  ap (fetch_from (pad4 (length params))) (sym (append_assoc params pad rest))
      ∙ fetch_from-behind (pad4 (length params)) (params ++ pad) rest
          (omega (arith, length-entry e)),
)
  where
    alg : ℕ
    alg = e.algorithm

    params : Bytes
    params = e.parameters

    pad : Bytes
    pad = zeros (pad4 (length params) - length params)

    frame : Bytes
    frame = tlv alg params ++ rest

    parts : frame ≡ be16 alg ++ (be16 (length params) ++ (params ++ (pad ++ rest)))
    parts =
        append_assoc ((be16 alg ++ be16 (length params)) ++ params) pad rest
        ∙ append_assoc (be16 alg ++ be16 (length params)) params (pad ++ rest)

    long : length (params ++ (pad ++ rest)) ≡ pad4 (length params) + length rest
    long =
        ap length (sym (append_assoc params pad rest))
        ∙ length-append (params ++ pad) rest
        ∙ omega (arith, length-entry e)

read_entries-behind :
    (n : ℕ) (es entries : List PasswordAlgorithmEntry) (tail : Bytes)
    → All FitsEntry es
    → length tail < 4
    → length es < n
    → read_entries n (entries_bytes es ++ tail) entries
      ≡ done (some (record { entries = entries ++ es }))
unfolding read_entries
read_entries-behind zero es entries tail h short fuel = absurd (omega arith)
read_entries-behind (suc n) [] entries tail h short fuel =
    rw (lt→ltb (length tail) 4 short)
      (ap (λ es. done (some (record { entries = es }))) (sym (append-nil entries)))
read_entries-behind (suc n) (e ∷ es) entries tail (he, h) short fuel =
    ap (λ b. read_entries (suc n) b entries)
      (append_assoc (tlv e.algorithm e.parameters) (entries_bytes es) tail)
    ∙ read_entries_round n e entries (entries_bytes es ++ tail) he
    ∙ read_entries-behind n es (entries ++ e ∷ []) tail h short (omega (arith, fuel))
    ∙ ap (λ es. done (some (record { entries = es }))) (append_assoc entries (e ∷ []) es)

enough_fuel : (es : List PasswordAlgorithmEntry) → length es ≤ entries_length es
enough_fuel [] = omega arith
enough_fuel (e ∷ es) = omega (arith, enough_fuel es)

-- For entries with 16-bit algorithms and parameter lengths, of less than 65536 bytes in all, on a
-- span of any size: the attribute is written as the entries one after another, each padded to four
-- bytes, or false is answered and nothing written if that does not fit; and those bytes, with up to
-- three bytes behind them, which are ignored, decode to the entries in their order.
pub password_algorithms_round_trip :
    (a : PasswordAlgorithmsAttr) (buf tail : Bytes)
    → All FitsEntry a.entries
    → IsU16 (password_algorithms_length a)
    → length tail < 4
    → (encode_password_algorithms a buf
        ≡ put_tlv password_algorithms_type (entries_bytes a.entries) buf)
      × (decode_password_algorithms (entries_bytes a.entries ++ tail) ≡ done (some a))
unfolding encode_password_algorithms decode_password_algorithms
password_algorithms_round_trip a buf tail h fits short = (
  unpadded_value password_algorithms_type (entries_length a.entries) value buf
      (write_entries attr_header_size a.entries) (omega arith) (rw size fits) (sym size)
      (omega (arith, size, entries_length_words a.entries))
      (λ room.
        write_entries-behind 4 a.entries head (drop 4 buf) refl h
          (rw length-drop (omega (arith, size, room)))
        ∙ ap (λ k. done ((head ++ value) ++ drop k (drop 4 buf))) (sym size)),
  read_entries-behind (suc (length (value ++ tail))) a.entries [] tail h short
      (omega (arith, enough_fuel a.entries, size, length-append {0} value tail)),
)
  where
    value : Bytes
    value = entries_bytes a.entries

    head : Bytes
    head = be16 password_algorithms_type ++ be16 (length value)

    size : length value ≡ entries_length a.entries
    size = length-entries_bytes a.entries
