-- ===== src/Encoder/Refines/Run.antt =====
-- Whole runs of calls against the abstract encoder, from a new encoder on.
use libstunxx.Common.{
  ℕ, ◌+◌, ◌≤◌, ◌≡◌, refl, sym, ap, ◌∙◌, List, [], ◌∷◌, ◌++◌, arith, length, append_assoc, drop,
  take, u16, IsU16,
}
use libstunxx.Memory.{Bytes, done}
use libstunxx.Stun.Endian.{Endian}
use libstunxx.Encoder.{Encoder, new_encoder}
use libstunxx.Encoder.Message.{body, wire_header}
use libstunxx.Encoder.Holds.{new_encoder-Holds}
use libstunxx.Encoder.Calls.{Call, run, Draft, blank_draft, header_for, answers}
use libstunxx.Encoder.Message.{message}
use libstunxx.Encoder.Refines.{Refines}
use libstunxx.Encoder.Refines.Steps.{call-Step}

run-Refines :
    {e : Endian} {type : ℕ} {tid : Bytes} (cs : List Call) {enc : Encoder} {d : Draft}
    → Refines e type tid enc d
    → IsU16 type
    → length tid ≡ 12
    → (enc' : Encoder) × (run e cs enc ≡ done ((answers type tid cs d).0, enc'))
      × Refines e type tid enc' (answers type tid cs d).1
unfolding run answers
run-Refines [] {enc} k ht htid = (enc, refl, k)
run-Refines (c ∷ cs) k ht htid =
    let (enc1, called, k1) = call-Step k ht htid c in
    let (enc2, ran, k2) = run-Refines cs k1 ht htid in (enc2, rw (called, ran), k2)

-- The abstract state after a run of calls on a new encoder.
abbrev pub drafted : ℕ → Bytes → List Call → Bytes → Draft
drafted type tid cs buf = (answers type tid cs (blank_draft (take 20 buf) (drop 20 buf))).1

module _ (e : Endian) (type : ℕ) (tid : Bytes) (cs : List Call) (buf : Bytes) where
  -- Whatever calls are made of a new encoder, in any order, of attributes that satisfy the law of
  -- attributes, of message integrities with any key and HMAC, of fingerprints and of finalize, with a
  -- 16-bit type, a transaction id of 12 bytes and a buffer of 20 bytes at least: no call leaves the
  -- buffer, every call answers what the abstract encoder answers, and in the end the buffer is the
  -- front, the attributes and the free bytes of the abstract state, the offset is behind the
  -- attributes, and the flags are those of the abstract state.
  pub run-answers :
      IsU16 type
      → length tid ≡ 12
      → 20 ≤ length buf
      → (enc : Encoder) × (run e cs (new_encoder e type tid buf)
          ≡ done ((answers type tid cs (blank_draft (take 20 buf) (drop 20 buf))).0, enc))
        × (enc.buffer
            ≡ (drafted type tid cs buf).front
              ++ (body (drafted type tid cs buf).items ++ (drafted type tid cs buf).free))
        × (enc.offset ≡ 20 + length (body (drafted type tid cs buf).items))
        × (enc.has_message_integrity ≡ (drafted type tid cs buf).signed)
        × (enc.has_fingerprint ≡ (drafted type tid cs buf).checked)
  unfolding new_encoder
  run-answers ht htid room =
      let (enc, ran, k) = run-Refines cs start ht htid in
      (enc, ran, k.holds.split, k.holds.position, k.signed, k.checked)
    where
      start :
          Refines e type tid (new_encoder e type tid buf) (blank_draft (take 20 buf) (drop 20 buf))
      start = record {
        holds = new_encoder-Holds e type tid buf room;
        signed = refl;
        checked = refl;
      }

  -- Where such a run ends with the header in front that counts all attributes, shorter than 65536 bytes
  -- together, the buffer is the message of the attributes in front of the free bytes.
  pub run-message :
      IsU16 type
      → length tid ≡ 12
      → 20 ≤ length buf
      → IsU16 (length (body (drafted type tid cs buf).items))
      → (drafted type tid cs buf).front ≡ header_for type tid 0 (drafted type tid cs buf)
      → (enc : Encoder) × (run e cs (new_encoder e type tid buf)
          ≡ done ((answers type tid cs (blank_draft (take 20 buf) (drop 20 buf))).0, enc))
        × (enc.buffer
            ≡ message type tid (drafted type tid cs buf).items ++ (drafted type tid cs buf).free)
  run-message ht htid room short counted =
      let (enc, ran, bytes, _, _, _) = run-answers ht htid room in (enc, ran, bytes ∙ whole)
    where
      whole :
          (drafted type tid cs buf).front
            ++ (body (drafted type tid cs buf).items ++ (drafted type tid cs buf).free)
          ≡ message type tid (drafted type tid cs buf).items ++ (drafted type tid cs buf).free
      whole =
          ap (λ f. f ++ (body (drafted type tid cs buf).items ++ (drafted type tid cs buf).free))
            counted
          ∙ ap
              (λ n.
                wire_header type n tid
                ++ (body (drafted type tid cs buf).items ++ (drafted type tid cs buf).free))
              {x = u16 (length (body (drafted type tid cs buf).items) + 0)}
              {y = length (body (drafted type tid cs buf).items)} (omega (arith, short))
          ∙ sym (
              append_assoc (wire_header type (length (body (drafted type tid cs buf).items)) tid)
                (body (drafted type tid cs buf).items) (drafted type tid cs buf).free)
