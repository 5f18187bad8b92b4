-- ===== src/Encoder/Holds.antt =====
-- The invariant of an encoder: behind twenty bytes for the header stand the attributes that were
-- added, and its header fields are those of the message. Each addition keeps it.
use libstunxx.Common.{
  ℕ, ◌+◌, ◌≤◌, ◌<◌, ◌≡◌, ◌⊎◌, inl, inr, refl, sym, ap, ◌∙◌, Bool, true, false, List, [], ◌∷◌, ◌++◌,
  arith, length, length-append, length-drop, length-take, append_assoc, append-nil, pad4, drop,
  take, take-append-drop, ltb, le→leb, Bool-cases, ltb→lt, ltb→le, drop-append,
}
use libstunxx.Memory.{Bytes, Outcome, done, fetch, store}
use libstunxx.Memory.Laws.{fetch-behind, store-behind}
use libstunxx.Stun.Wire.{tlv, put_tlv}
use libstunxx.Stun.Endian.{Endian, byteswap16, byteswap32}
use libstunxx.Stun.Header.{magic_cookie_value}
use libstunxx.Attr.Concept.{StunAttribute, IsAttribute}
use libstunxx.Encoder.{Encoder, new_encoder, encode_into, add_attribute}
use libstunxx.Encoder.Message.{Item, body, length-tlv, body-append}

-- `items` are in the buffer, behind `front` and before `free`.
pub record Holds (e : Endian) (type : ℕ) (tid : Bytes) (enc : Encoder) (items : List Item)
    (front free : Bytes) : Type 0 where
  pub split : enc.buffer ≡ front ++ (body items ++ free)
  pub front_size : length front ≡ 20
  pub position : enc.offset ≡ 20 + length (body items)
  pub typed : enc.stun_header.msg_type ≡ byteswap16 e type
  pub marked : enc.stun_header.magic_cookie ≡ byteswap32 e magic_cookie_value
  pub identified : enc.stun_header.transaction_id ≡ tid

pub new_encoder-Holds :
    (e : Endian) (type : ℕ) (tid buf : Bytes)
    → 20 ≤ length buf
    → Holds e type tid (new_encoder e type tid buf) [] (take 20 buf) (drop 20 buf)
unfolding new_encoder
new_encoder-Holds e type tid buf h = record {
  split = sym (take-append-drop 20 buf);
  front_size = length-take 20 buf h;
  position = refl;
  typed = refl;
  marked = refl;
  identified = refl;
}

drop-all : (n : ℕ) (xs : Bytes) → length xs ≡ n → drop n xs ≡ []
drop-all n xs e = rw append-nil at (drop-append n xs [] (sym e))

exact_span :
    (type : ℕ) (value span : Bytes)
    → length span ≡ 4 + pad4 (length value)
    → put_tlv type value span ≡ done (true, tlv type value)
exact_span type value span e =
    rw
      (
        le→leb (4 + pad4 (length value)) (length span) (omega arith),
        drop-all (4 + pad4 (length value)) span e,
      )
      (ap (λ t. done (true, t)) (append-nil (tlv type value)))

pub encode_into-tlv :
    (type : ℕ) (value before free : Bytes) (encode : Bytes → Outcome (Bool × Bytes)) (enc : Encoder)
    → ((span : Bytes) → encode span ≡ put_tlv type value span)
    → enc.buffer ≡ before ++ free
    → enc.offset ≡ length before
    → 4 + pad4 (length value) ≤ length free
    → encode_into (4 + pad4 (length value)) encode enc
      ≡ done (
        true,
        record enc {
          buffer = (before ++ tlv type value) ++ drop (4 + pad4 (length value)) free;
          offset = enc.offset + (4 + pad4 (length value));
        },
      )
unfolding encode_into
encode_into-tlv type value before free encode enc writes split position room = rw (
  split,
  fetched,
  writes (take n free),
  exact_span type value (take n free) (length-take n free room),
  stored,
)
  where
    n : ℕ
    n = 4 + pad4 (length value)

    fetched : fetch enc.offset n (before ++ free) ≡ done (take n free)
    fetched =
        ap (λ t. fetch enc.offset n (before ++ t)) (sym (take-append-drop n free))
        ∙ fetch-behind enc.offset n before (take n free) (drop n free) position
            (sym (length-take n free room))

    stored :
        store enc.offset (tlv type value) (before ++ free)
        ≡ done ((before ++ tlv type value) ++ drop n free)
    stored =
        store-behind enc.offset before (tlv type value) free position (rw length-tlv room)
        ∙ ap (λ k. done ((before ++ tlv type value) ++ drop k free)) (length-tlv type value)

abbrev pub grown : Encoder → Bytes → Bytes → Bytes → Encoder
grown enc before bytes free = record enc {
  buffer = (before ++ bytes) ++ drop (length bytes) free;
  offset = enc.offset + length bytes;
}

pub body-snoc :
    (items : List Item) (i : Item) → body (items ++ i ∷ []) ≡ body items ++ tlv i.type i.value
body-snoc items i =
    body-append items (i ∷ []) ∙ ap (λ t. body items ++ t) (append-nil (tlv i.type i.value))

module _ {e : Endian} {type : ℕ} {tid : Bytes} {enc : Encoder} {items : List Item}
    {front free : Bytes} (h : Holds e type tid enc items front free) where
  pub Holds-before : enc.buffer ≡ (front ++ body items) ++ free
  Holds-before = h.split ∙ sym (append_assoc front (body items) free)

  pub Holds-offset : enc.offset ≡ length (front ++ body items)
  Holds-offset = rw length-append (omega (arith, h.position, h.front_size))

  pub Holds-size : length enc.buffer ≡ enc.offset + length free
  Holds-size =
      ap length Holds-before
      ∙ length-append (front ++ body items) free
      ∙ ap (λ n. n + length free) (sym Holds-offset)

  pub Holds-grown :
      (i : Item)
      → Holds e type tid
          (grown enc (front ++ body items) (tlv i.type i.value) free)
          (items ++ i ∷ [])
          front
          (drop (length (tlv i.type i.value)) free)
  Holds-grown i = record {
    split =
        ap (λ t. t ++ drop (length (tlv i.type i.value)) free)
          (append_assoc front (body items) (tlv i.type i.value)
            ∙ ap (λ t. front ++ t) (sym (body-snoc items i)))
        ∙ append_assoc front (body (items ++ i ∷ [])) (drop (length (tlv i.type i.value)) free);
    front_size = h.front_size;
    position =
        rw (body-snoc items i)
          (omega (arith, h.position, length-append {0} (body items) (tlv i.type i.value)));
    typed = h.typed;
    marked = h.marked;
    identified = h.identified;
  }

  pub encode_into-grown :
      (i : Item) (encode : Bytes → Outcome (Bool × Bytes))
      → ((span : Bytes) → encode span ≡ put_tlv i.type i.value span)
      → enc.offset + (4 + pad4 (length i.value)) ≤ length enc.buffer
      → encode_into (4 + pad4 (length i.value)) encode enc
        ≡ done (true, grown enc (front ++ body items) (tlv i.type i.value) free)
  encode_into-grown i encode writes room =
      encode_into-tlv i.type i.value (front ++ body items) free encode enc writes Holds-before
        Holds-offset (omega (arith, Holds-size, room))
      ∙ ap
          (λ n. done (
            true,
            record enc {
              buffer = ((front ++ body items) ++ tlv i.type i.value) ++ drop n free;
              offset = enc.offset + n;
            },
          ))
          (sym (length-tlv i.type i.value))

module _ {A : Type 0} (attr : StunAttribute A) (a : A) (value : Bytes) where
  -- For an attribute that satisfies the law of attributes (it reports the length of its value, and on a
  -- span of any size it writes its type, length and padded value, or answers false and writes nothing
  -- if they do not fit): adding it to an encoder that holds a list of attributes either answers false and
  -- changes nothing, and then the attribute does not fit the rest of the buffer; or answers true, and
  -- then it did fit, the encoder holds the attribute behind the others, and nothing else changed:
  -- the front of the buffer, its size, the header fields and the flags are the same. There is no
  -- write out of range.
  pub add_attribute-Holds :
      {e : Endian} {type : ℕ} {tid : Bytes} {enc : Encoder} {items : List Item} {front free : Bytes}
      → Holds e type tid enc items front free
      → IsAttribute attr a value
      → ((add_attribute attr a enc ≡ done (false, enc))
          × (length enc.buffer < enc.offset + (4 + pad4 (length value))))
        ⊎ ((enc' : Encoder) × (rest : Bytes) × (add_attribute attr a enc ≡ done (true, enc'))
            × (enc.offset + (4 + pad4 (length value)) ≤ length enc.buffer)
            × Holds e type tid enc'
                (items ++ record { type = attr.type; value = value } ∷ [])
                front
                rest
            × (length enc'.buffer ≡ length enc.buffer)
            × (enc'.stun_header ≡ enc.stun_header)
            × (enc'.has_message_integrity ≡ enc.has_message_integrity)
            × (enc'.has_fingerprint ≡ enc.has_fingerprint))
  unfolding add_attribute
  add_attribute-Holds {enc} {items} {front} {free} h law =
      rw law.reports
        (elim (Bool-cases (ltb (length enc.buffer) (enc.offset + (4 + pad4 (length value))))) [
          | inl short ↦ inl (rw short, ltb→lt (length enc.buffer) _ short)
          | inr room ↦ inr (
            grown enc (front ++ body items) (tlv attr.type value) free,
            drop (length (tlv attr.type value)) free,
            rw room (
                encode_into-grown h item (attr.encode a) law.writes
                  (ltb→le (length enc.buffer) _ room)),
            ltb→le (length enc.buffer) _ room,
            Holds-grown h item,
            same_size (ltb→le (length enc.buffer) _ room),
            refl,
            refl,
            refl,
          )
        ])
    where
      item : Item
      item = record { type = attr.type; value = value }

      same_size :
          enc.offset + (4 + pad4 (length value)) ≤ length enc.buffer
          → length (
              ((front ++ body items) ++ tlv attr.type value)
              ++ drop (length (tlv attr.type value)) free)
            ≡ length enc.buffer
      same_size room = omega (
        arith,
        room,
        Holds-size h,
        Holds-size (Holds-grown h item),
        length-drop {0} (length (tlv attr.type value)) free,
        length-tlv attr.type value,
      )
