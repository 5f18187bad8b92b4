-- ===== src/Encoder/Finish.antt =====
-- The header of a message, and the operations that write it: finalize, addFingerprint and
-- addAttribute of a message integrity.
use libstunxx.Common.{
  ℕ, ◌+◌, ◌≤◌, ◌≡◌, refl, sym, ap, ap₂, ◌∙◌, true, false, not, ◌&&◌, List, [], ◌∷◌, ◌++◌, arith,
  length, length-append, append_assoc, IsU16, IsU32, drop, drop-append, if_false, le→ltb, u16,
}
use libstunxx.Memory.{Bytes, done, fetch, store}
use libstunxx.Memory.Laws.{fetch-behind, store-front}
use libstunxx.Stun.Wire.{be32, tlv}
use libstunxx.Stun.Endian.{Endian, byteswap16, object_bytes-byteswap16, object_bytes-byteswap32}
use libstunxx.Stun.Header.{magic_cookie_value}
use libstunxx.Crc.{compute_fingerprint}
use libstunxx.Crc.Laws.{compute_fingerprint-lt}
use libstunxx.Attr.Words.{
  fingerprint_of, encode_fingerprint, fingerprint_type, fingerprint_round_trip,
}
use libstunxx.Encoder.{
  Encoder, copy_header, put_length, stun_size, encode_into, finalize, add_fingerprint,
}
use libstunxx.Encoder.Message.{Item, body, wire_header, message}
use libstunxx.Encoder.Holds.{Holds, Holds-size, grown, encode_into-grown, body-snoc}

store-over :
    (bs front rest : Bytes)
    → length bs ≡ length front
    → store 0 bs (front ++ rest) ≡ done (bs ++ rest)
store-over bs front rest e =
    store-front bs (front ++ rest) (rw length-append (omega arith))
    ∙ ap (λ t. done (bs ++ t)) (drop-append (length bs) front rest e)

module _ {e : Endian} {type : ℕ} {tid : Bytes} {enc : Encoder} {items : List Item}
    {front free : Bytes} (h : Holds e type tid enc items front free) (ht : IsU16 type)
    (htid : length tid ≡ 12) where
  abbrev pub with_length : ℕ → Encoder
  with_length len = record enc {
    stun_header = record enc.stun_header { msg_length = byteswap16 e (u16 len) };
    buffer = wire_header type (u16 len) tid ++ (body items ++ free);
  }

  pub put_length_lem : (len : ℕ) → put_length e len enc ≡ done (with_length len)
  unfolding put_length copy_header
  put_length_lem len =
      rw
        (
          h.typed,
          h.marked,
          h.identified,
          h.split,
          object_bytes-byteswap16 e type ht,
          object_bytes-byteswap16 e (u16 len) (omega arith),
          object_bytes-byteswap32 e magic_cookie_value (omega arith),
        )
        (rw (store-over (wire_header type (u16 len) tid) front (body items ++ free) same_size))
    where
      same_size : length (wire_header type (u16 len) tid) ≡ length front
      same_size = omega (arith, htid, h.front_size)

  pub with_length-Holds :
      (len : ℕ) → Holds e type tid (with_length len) items (wire_header type (u16 len) tid) free
  with_length-Holds len = record {
    split = refl;
    front_size = omega (arith, htid);
    position = h.position;
    typed = h.typed;
    marked = h.marked;
    identified = h.identified;
  }

  stun_size-body : IsU16 (length (body items)) → stun_size enc ≡ length (body items)
  unfolding stun_size
  stun_size-body fits = omega (arith, h.position)

  -- Finalizing an encoder that holds attributes, with neither a fingerprint nor a message integrity,
  -- puts the header in front of them: the buffer begins with the message that consists of the type,
  -- the length of the attributes, the magic cookie, the transaction id and the attributes. The type
  -- has 16 bits, the id 12 bytes, and the attributes are shorter than 65536 bytes.
  pub finalize-message :
      enc.has_fingerprint ≡ false
      → enc.has_message_integrity ≡ false
      → IsU16 (length (body items))
      → (enc' : Encoder) × (finalize e enc ≡ done enc')
        × (enc'.buffer ≡ message type tid items ++ free)
        × (enc'.offset ≡ 20 + length (body items))
  unfolding finalize
  finalize-message no_fingerprint no_integrity fits = (
    with_length (length (body items)),
    rw (open_message, stun_size-body fits) (put_length_lem (length (body items))),
    rw same (sym (append_assoc (wire_header type (length (body items)) tid) (body items) free)),
    h.position,
  )
    where
      open_message : (not enc.has_fingerprint && not enc.has_message_integrity) ≡ true
      open_message = ground arith

      same : u16 (length (body items)) ≡ length (body items)
      same = omega arith

  -- The bytes that a digest with an attribute of `n` bytes covers: the message so far, under a header
  -- whose length counts that attribute too.
  abbrev pub covered : ℕ → Bytes
  covered n = wire_header type (length (body items) + n) tid ++ body items

  pub covered_bytes :
      (n : ℕ)
      → IsU16 (length (body items) + n)
      → fetch 0 enc.offset (with_length (length (body items) + n)).buffer ≡ done (covered n)
  covered_bytes n fits = rw same (
      ap (fetch 0 enc.offset)
        (sym (append_assoc (wire_header type (length (body items) + n) tid) (body items) free))
      ∙ fetch-behind 0 enc.offset [] (covered n) free refl
          (rw length-append (omega (arith, h.position, htid))))
    where
      same : u16 (length (body items) + n) ≡ length (body items) + n
      same = omega arith

  abbrev pub fingerprint_item : Item
  fingerprint_item = record {
    type = fingerprint_type;
    value = be32 (compute_fingerprint (covered 8));
  }

  -- Adding a fingerprint to an encoder that holds attributes and has no fingerprint yet, where its
  -- eight bytes fit the buffer and the length field, puts the fingerprint behind the attributes and
  -- the header in front: the buffer begins with the whole message, whose last attribute is the
  -- checksum of all bytes before it, under the final length. A second call answers false.
  pub add_fingerprint-message :
      enc.has_fingerprint ≡ false
      → enc.offset + 8 ≤ length enc.buffer
      → IsU16 (length (body items) + 8)
      → (enc' : Encoder) × (add_fingerprint e enc ≡ done (true, enc'))
        × (enc'.buffer ≡ message type tid (items ++ fingerprint_item ∷ []) ++ drop 8 free)
        × (enc'.offset ≡ 20 + length (body items) + 8)
        × (add_fingerprint e enc' ≡ done (false, enc'))
  unfolding add_fingerprint fingerprint_of compute_fingerprint
  add_fingerprint-message fresh room fits = (
    record after { has_fingerprint = true },
    if_false _ _ fresh
        ∙ rw (
          le→ltb (length enc.buffer) (enc.offset + 8) room,
          stun_size-body (omega arith),
          put_length_lem (length (body items) + 8),
          covered_bytes 8 fits,
          encoded,
        ),
    ap (λ t. t ++ drop 8 free)
        (append_assoc (wire_header type (u16 (length (body items) + 8)) tid) (body items)
            (tlv fingerprint_type fingerprint_item.value)
          ∙ ap₂ (λ n t. wire_header type n tid ++ t) same_length
              (sym (body-snoc items fingerprint_item))),
    ap (λ n. n + 8) h.position,
    refl,
  )
    where
      word : IsU32 (compute_fingerprint (covered 8))
      word = compute_fingerprint-lt (covered 8)

      held :
          Holds e type tid
            (with_length (length (body items) + 8))
            items
            (wire_header type (u16 (length (body items) + 8)) tid)
            free
      held = with_length-Holds (length (body items) + 8)

      after : Encoder
      after =
          grown (with_length (length (body items) + 8))
            (wire_header type (u16 (length (body items) + 8)) tid ++ body items)
            (tlv fingerprint_type fingerprint_item.value) free

      encoded :
          encode_into 8
            (encode_fingerprint e (fingerprint_of (covered 8)))
            (with_length (length (body items) + 8))
          ≡ done (true, after)
      encoded =
          encode_into-grown held fingerprint_item
            (encode_fingerprint e (fingerprint_of (covered 8)))
            (λ span. (fingerprint_round_trip e (fingerprint_of (covered 8)) span word).0)
            (omega (arith, Holds-size held, Holds-size h))

      same_length : u16 (length (body items) + 8) ≡ length (body (items ++ fingerprint_item ∷ []))
      same_length = omega (
        arith,
        ap length (body-snoc items fingerprint_item),
        length-append {0} (body items) (tlv fingerprint_type fingerprint_item.value),
      )
