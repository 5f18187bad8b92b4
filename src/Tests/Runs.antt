-- ===== src/Tests/Runs.antt =====
-- A run of calls on an encoder: an attribute, a message integrity, a fingerprint, and one more, which
-- is refused.
use libstunxx.Common.{
  ◌≡◌, ◌+◌, ◌-◌, take, refl, true, false, some, List, [], ◌∷◌, ◌++◌, arith, length, replicate, drop,
}
use libstunxx.Memory.{Bytes, done}
use libstunxx.Stun.Endian.{little, big}
use libstunxx.Attr.Integrity.{Hmac}
use libstunxx.Decoder.{Decoder, parse, get_attribute, get_attributes}
use libstunxx.Decoder.Exact.{Contents}
use libstunxx.Decoder.Walk.{note_all}
use libstunxx.Decoder.Parse.{entering}
use libstunxx.Encoder.{Encoder, new_encoder}
use libstunxx.Encoder.Message.{Item, body, message, headers}
use libstunxx.Encoder.Reads.{header_of}
use libstunxx.Encoder.Calls.{Piece, Call, attribute, integrity, fingerprint, finish, run}
use libstunxx.Encoder.Calls
use libstunxx.Encoder.Refines.Run.{drafted, run-answers}
use libstunxx.Encoder.Refines.Final.{protected, protected_items}
use libstunxx.Encoder.Refines.Protected.{run-protected}
use libstunxx.Encoder.Refines.Received.{get_attribute-protected}
use libstunxx.Attr.Words.{fingerprint_type, fingerprint_of, decode_fingerprint}
use libstunxx.Attr.Integrity.{integrity_type, decode_integrity}
use libstunxx.Encoder.Refines.Sealed.{sealed, parse-sealed}
use libstunxx.Stun.Types.{binding, request}
use libstunxx.Builder.{Builder, new_builder}
use libstunxx.Builder.Calls.{build, chain_of, build-chained}
use libstunxx.Builder.Protected.{build-protected}
use libstunxx.Tests.Sample.{tid, name, software_law, pieces}
use libstunxx.Attr.Strings.{decode_string, StringAttr, string_attribute}

-- An HMAC of twenty bytes that depends on nothing.
abbrev steady_hmac : Hmac
steady_hmac key msg = some (replicate 20 7)

abbrev software : Piece
software = record {
  Attr = StringAttr;
  attr = string_attribute 0x8022;
  attribute = record { value = name };
  value = name;
  law = software_law;
}

abbrev calls : List Call
calls =
    attribute software
    ∷ integrity steady_hmac false (record { key = 1 ∷ []; hmac = [] })
    ∷ fingerprint
    ∷ fingerprint
    ∷ []

abbrev span80 : Bytes
span80 = replicate 80 0xee

abbrev final : Calls.Draft
final = drafted 0x0001 tid calls span80

run-answers_example :
    (enc : Encoder) × (run little calls (new_encoder little 0x0001 tid span80)
      ≡ done (true ∷ true ∷ true ∷ false ∷ [], enc))
    × (enc.buffer ≡ final.front ++ (body final.items ++ final.free))
    × (enc.offset ≡ 20 + length (body final.items))
    × (enc.has_message_integrity ≡ true)
    × (enc.has_fingerprint ≡ true)
unfolding Calls.answers Calls.answer
run-answers_example = run-answers little 0x0001 tid calls span80 (omega arith) refl (omega arith)

abbrev sealing : List Call
sealing =
    sealed
      (attribute software ∷ integrity steady_hmac false (record { key = 1 ∷ []; hmac = [] }) ∷ [])
      fingerprint 1

abbrev sealed_draft : Calls.Draft
sealed_draft = drafted 0x0001 tid sealing span80

parse-sealed_example :
    (enc : Encoder) × (d : Decoder) × (run little sealing (new_encoder little 0x0001 tid span80)
      ≡ done (true ∷ true ∷ true ∷ true ∷ [], enc))
    × (parse enc.buffer ≡ done (some d))
    × Contents d enc.buffer
        (header_of 0x0001 tid sealed_draft.items)
        (headers 20 sealed_draft.items)
    × (get_attributes 0x8022 (decode_string 763) d ≡ done (record { value = name } ∷ []))
unfolding Calls.answers Calls.answer decode_string
parse-sealed_example =
    parse-sealed (decode_string 763) 0x8022 little 0x0001 tid
      (attribute software ∷ integrity steady_hmac false (record { key = 1 ∷ []; hmac = [] }) ∷ [])
      fingerprint 1 span80 (omega arith) (omega arith) refl (omega arith) refl
      ((omega arith, omega arith), ((omega arith, omega arith), ((omega arith, omega arith), tt)))
      (omega (arith, size))
  where
    size : length (body sealed_draft.items) ≡ 40
    size = refl

-- The second fingerprint fails, so the attribute behind it is not added.
abbrev chain : List Call
chain = calls ++ attribute software ∷ finish ∷ []

abbrev chain_end : Calls.Draft
chain_end = (chain_of binding request tid chain span80).1

build-chained_example :
    (b : Builder) × (build little chain (new_builder little binding request tid span80) ≡ done b)
    × (b.valid ≡ false)
    × (b.encoder.buffer ≡ chain_end.front ++ (body chain_end.items ++ chain_end.free))
    × (b.encoder.offset ≡ 20 + length (body chain_end.items))
unfolding Calls.answer
build-chained_example = build-chained little binding request tid span80 chain refl (omega arith)

-- The two attributes of the tests, protected, in a span with eight bytes to spare.
abbrev shielded : List Item
shielded = protected_items 0x0001 tid pieces false (replicate 20 7)

run-protected_example :
    (enc : Encoder) × (run little
        (protected pieces steady_hmac false (record { key = 1 ∷ []; hmac = [] }))
        (new_encoder little 0x0001 tid span80)
      ≡ done (true ∷ true ∷ true ∷ true ∷ true ∷ [], enc))
    × (enc.buffer ≡ message 0x0001 tid shielded ++ drop (20 + length (body shielded)) span80)
    × (parse enc.buffer
        ≡ done (
            some (
              note_all
                (headers 20 shielded)
                (entering enc.buffer (header_of 0x0001 tid shielded)))))
run-protected_example =
    run-protected little 0x0001 tid pieces steady_hmac false (record { key = 1 ∷ []; hmac = [] })
      (replicate 20 7) span80 (omega arith) refl (omega arith) (λ e. cc) refl refl
      (omega (arith, size)) (omega (arith, size))
  where
    size : length (body shielded) ≡ 48
    size = refl

get_attribute-protected_example :
    (enc : Encoder) × (d : Decoder) × (run little
        (protected pieces steady_hmac false (record { key = 1 ∷ []; hmac = [] }))
        (new_encoder little 0x0001 tid span80)
      ≡ done (true ∷ true ∷ true ∷ true ∷ true ∷ [], enc))
    × (parse enc.buffer ≡ done (some d))
    × (get_attribute (integrity_type false) (decode_integrity false) d
        ≡ done (some (record { key = []; hmac = replicate 20 7 })))
    × (get_attribute fingerprint_type (decode_fingerprint big) d
        ≡ done (some (fingerprint_of (take (20 + d.header.msg_length - 8) enc.buffer))))
get_attribute-protected_example =
    get_attribute-protected little big 0x0001 tid pieces steady_hmac false
      (record { key = 1 ∷ []; hmac = [] }) (replicate 20 7) span80 (omega arith) refl (omega arith)
      (λ e. cc) refl refl (omega (arith, size)) (omega (arith, size))
      ((omega arith, omega arith), ((omega arith, omega arith), tt))
  where
    size : length (body shielded) ≡ 48
    size = refl

build-protected_example :
    (b : Builder) × (d : Decoder) × (build little
        (protected pieces steady_hmac false (record { key = 1 ∷ []; hmac = [] }))
        (new_builder little binding request tid span80)
      ≡ done b)
    × (b.valid ≡ true)
    × (b.encoder.buffer ≡ message 0x0001 tid shielded ++ drop (20 + length (body shielded)) span80)
    × (parse b.encoder.buffer ≡ done (some d))
    × (get_attribute (integrity_type false) (decode_integrity false) d
        ≡ done (some (record { key = []; hmac = replicate 20 7 })))
    × (get_attribute fingerprint_type (decode_fingerprint big) d
        ≡ done (some (fingerprint_of (take (20 + d.header.msg_length - 8) b.encoder.buffer))))
build-protected_example =
    build-protected little big binding request tid pieces steady_hmac false
      (record { key = 1 ∷ []; hmac = [] }) (replicate 20 7) span80 refl (omega arith) (λ e. cc) refl
      refl (omega (arith, size)) (omega (arith, size))
      ((omega arith, omega arith), ((omega arith, omega arith), tt))
  where
    size : length (body shielded) ≡ 48
    size = refl
