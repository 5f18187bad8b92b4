-- ===== src/Builder/RoundTrip.antt =====
-- The end to end theorem: what is built is what is parsed.
use libstunxx.Common.{
  ℕ, ◌+◌, ◌≤◌, ◌≡◌, inl, inr, refl, sym, ap, ◌∙◌, true, false, not, some, List, [], ◌∷◌, ◌++◌,
  arith, length, length-append, append_assoc, append-nil, IsU16, pad4, drop, take, All, if_false,
}
use mathlib.Core.Path.{subst}
use libstunxx.Memory.{Bytes, Outcome, done, ◌>>=◌}
use libstunxx.Stun.Types.{StunMethod, StunClass}
use libstunxx.Stun.Endian.{Endian}
use libstunxx.Decoder.{parse}
use libstunxx.Decoder.Walk.{note_all}
use libstunxx.Decoder.Parse.{entering}
use libstunxx.Encoder.{Encoder, new_encoder}
use libstunxx.Encoder.Message.{
  Item, FitsItem, body, message, headers, length-body_cons, body-append,
}
use libstunxx.Encoder.Calls.{items_of, Piece, item_of}
use libstunxx.Encoder.Holds.{Holds, new_encoder-Holds, add_attribute-Holds}
use libstunxx.Builder.{Builder, answered, new_builder, add, finalize}
use libstunxx.Builder.MessageType.{message_type, message_type-IsU16}
use libstunxx.Encoder.Finish.{finalize-message}
use libstunxx.Encoder.Reads.{parse-message, header_of}

-- builder.add<A>(..).add<B>(..) and so on
unfoldable pub add_all : List Piece → Builder → Outcome Builder
add_all [] b = done b
add_all (p ∷ ps) b = do b1 ← add p.attr p.attribute b; add_all ps b1

record Built (e : Endian) (type : ℕ) (tid : Bytes) (size : ℕ) (items : List Item) (b : Builder)
    : Type 0 where
  front : Bytes
  free : Bytes
  valid : b.valid ≡ true
  holds : Holds e type tid b.encoder items front free
  sized : length b.encoder.buffer ≡ size
  no_integrity : b.encoder.has_message_integrity ≡ false
  no_fingerprint : b.encoder.has_fingerprint ≡ false

module _ {e : Endian} {type : ℕ} {tid : Bytes} {size : ℕ} where
  add-Built :
      {items : List Item} {b : Builder} (p : Piece)
      → Built e type tid size items b
      → 20 + length (body items) + (4 + pad4 (length p.value)) ≤ size
      → (b' : Builder) × (add p.attr p.attribute b ≡ done b')
        × Built e type tid size (items ++ item_of p ∷ []) b'
  unfolding add answered
  add-Built {items} {b} p k room =
      elim (add_attribute-Holds p.attr p.attribute p.value k.holds p.law) [
        | inl (e, short) ↦ absurd (omega (arith, short, room, k.sized, k.holds.position))
        | inr (enc', rest, answers, fits, holds, same, header, integrity, fingerprint) ↦ (
          record { valid = true; encoder = enc' },
          if_false _ _ (ap not k.valid) ∙ rw answers,
          record {
            front = k.front;
            free = rest;
            valid = refl;
            holds = holds;
            sized = same ∙ k.sized;
            no_integrity = integrity ∙ k.no_integrity;
            no_fingerprint = fingerprint ∙ k.no_fingerprint;
          },
        )
      ]

  add_all-Built :
      (ps : List Piece) {items : List Item} {b : Builder}
      → Built e type tid size items b
      → 20 + length (body (items ++ items_of ps)) ≤ size
      → (b' : Builder) × (add_all ps b ≡ done b') × Built e type tid size (items ++ items_of ps) b'
  unfolding add_all
  add_all-Built [] {items} {b} k room =
      (b, refl, subst (λ is. Built e type tid size is b) (sym (append-nil items)) k)
  add_all-Built (p ∷ ps) {items} {b} k room =
      let (b1, added, k1) = add-Built p k step in
      let (b', rest, k') = add_all-Built ps k1 (rw regroup room) in
      (b', rw added rest, subst (λ is. Built e type tid size is b') regroup k')
    where
      regroup : (items ++ item_of p ∷ []) ++ items_of ps ≡ items ++ items_of (p ∷ ps)
      regroup = append_assoc items (item_of p ∷ []) (items_of ps)

      step : 20 + length (body items) + (4 + pad4 (length p.value)) ≤ size
      step = omega (
        arith,
        room,
        ap length (body-append items (items_of (p ∷ ps))),
        length-append {0} (body items) (body (items_of (p ∷ ps))),
        length-body_cons (item_of p) (items_of ps),
      )

-- Adding attributes one after another to a new builder, each satisfying the law of attributes with
-- a value, of 16-bit types and lengths, which together fit the buffer behind the header and are
-- shorter than 65536 bytes, with a transaction id of 12 bytes: building and finalizing succeed, the
-- buffer begins with the message of the RFC, and parsing the buffer gives a decoder with the header
-- of the method and class and exactly these attributes in order.
pub parse-finalize :
    (e : Endian) (m : StunMethod) (c : StunClass) (tid buf : Bytes) (ps : List Piece)
    → length tid ≡ 12
    → All FitsItem (items_of ps)
    → IsU16 (length (body (items_of ps)))
    → 20 + length (body (items_of ps)) ≤ length buf
    → (enc : Encoder) × (rest : Bytes) × ((add_all ps (new_builder e m c tid buf) >>= finalize e)
        ≡ done enc)
      × (enc.buffer ≡ message (message_type m c) tid (items_of ps) ++ rest)
      × (parse enc.buffer
          ≡ done (
              some (
                note_all
                  (headers 20 (items_of ps))
                  (entering enc.buffer (header_of (message_type m c) tid (items_of ps))))))
unfolding new_builder new_encoder finalize
parse-finalize e m c tid buf ps htid fits short room =
    let (b, built, k) = add_all-Built ps start room in
    let (enc, finished, bytes, _) =
      finalize-message k.holds (message_type-IsU16 m c) htid k.no_fingerprint k.no_integrity
        short in
    (enc, k.free, rw built finished, bytes, read enc k.free bytes)
  where
    start : Built e (message_type m c) tid (length buf) [] (new_builder e m c tid buf)
    start = record {
      front = take 20 buf;
      free = drop 20 buf;
      valid = refl;
      holds = new_encoder-Holds e (message_type m c) tid buf (omega (arith, room));
      sized = refl;
      no_integrity = refl;
      no_fingerprint = refl;
    }

    read :
        (enc : Encoder) (rest : Bytes)
        → enc.buffer ≡ message (message_type m c) tid (items_of ps) ++ rest
        → parse enc.buffer
          ≡ done (
              some (
                note_all
                  (headers 20 (items_of ps))
                  (entering enc.buffer (header_of (message_type m c) tid (items_of ps)))))
    read enc rest bytes = rw bytes (
        parse-message (message_type m c) tid (items_of ps) rest (message_type-IsU16 m c) htid fits
          short)
