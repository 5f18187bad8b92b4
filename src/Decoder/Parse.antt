-- ===== src/Decoder/Parse.antt =====
-- `Decoder::parse`: what it accepts, on every input.
use libstunxx.Common.{
  ℕ, suc, ◌+◌, ◌≤◌, ◌<◌, ◌≡◌, ◌⊎◌, inl, inr, sym, ap, ◌∙◌, Bool, true, false, none, some, List,
  ◌++◌, arith, ltb, ◌==◌, if◌then◌else◌, length, take, drop, Bool-cases, ltb→lt, ltb→le, lt→ltb,
  le→ltb, ==_iff,
}
use mathlib.Core.Path.{subst}
use mathlib.Core.Option.{some-injective}
use libstunxx.Memory.{Bytes, done, done-injective}
use libstunxx.Memory.Laws.{fetch-inside}
use libstunxx.Stun.Header.{StunHeader, magic_cookie_value}
use libstunxx.Table.{AttrHeader, new_table}
use libstunxx.Decoder.{Decoder, new_decoder, read_fields, walk, decode, parse}
use libstunxx.Decoder.Walk.{
  Chain, Walked, walk-Walked, walk-Chain, note_all, unknown_types, peek16-total, peek32-total,
}

-- What holds of a decoder that `parse` returned for `buf`.
pub record Accepted (buf : Bytes) (d : Decoder) : Type 0 where
  pub not_null : d.null ≡ false
  pub same_buffer : d.buffer ≡ buf
  pub header_fits : 20 ≤ length buf
  pub header_read : read_fields buf ≡ done d.header
  pub cookie : d.header.magic_cookie ≡ magic_cookie_value
  pub message_fits : 20 + d.header.msg_length ≤ length buf
  pub found : List AttrHeader
  pub chain : Chain buf (20 + d.header.msg_length) 20 found d.offset
  pub no_more : 20 + d.header.msg_length < d.offset + 4
  pub recorded : d.attributes.attributes ≡ new_table.attributes ++ found
  pub reported : d.unknown_required ≡ unknown_types found

pub read_fields-total :
    (buf : Bytes) → 20 ≤ length buf → (h : StunHeader) × (read_fields buf ≡ done h)
unfolding read_fields
read_fields-total buf h =
    let (type, et) = peek16-total 0 buf (omega arith) in
    let (len, el) = peek16-total 2 buf (omega arith) in
    let (cookie, ec) = peek32-total 4 buf (omega arith) in
    (
      record {
        msg_type = type;
        msg_length = len;
        magic_cookie = cookie;
        transaction_id = take 12 (drop 8 buf);
      },
      rw (et, el, ec, fetch-inside 8 12 buf (omega arith)),
    )

module _ (buf : Bytes) where
  Refused : Type 0
  Refused = parse buf ≡ done none

  Parsed : Type 0
  Parsed = (d : Decoder) × (parse buf ≡ done (some d)) × Accepted buf d

  pub refuse_short : length buf < 20 → parse buf ≡ done none
  unfolding parse decode new_decoder
  refuse_short h = rw (lt→ltb (length buf) 20 h)

  module _ (header : StunHeader) (fits : 20 ≤ length buf) (e : read_fields buf ≡ done header) where
    pub refuse_cookie : (header.magic_cookie == magic_cookie_value) ≡ false → parse buf ≡ done none
    unfolding parse decode new_decoder
    refuse_cookie wrong = rw (le→ltb (length buf) 20 fits, e, wrong)

    module _ (right : (header.magic_cookie == magic_cookie_value) ≡ true) where
      refuse_length : ltb (length buf) (20 + header.msg_length) ≡ true → parse buf ≡ done none
      unfolding parse decode new_decoder
      refuse_length short = rw (le→ltb (length buf) 20 fits, e, right, short)

      at_start : Decoder
      at_start = record (new_decoder buf) { header = header; offset = 20 }

      enter :
          ltb (length buf) (20 + header.msg_length) ≡ false
          → {ok : Bool} {d : Decoder}
          → walk (suc (20 + header.msg_length)) (20 + header.msg_length) at_start ≡ done (ok, d)
          → parse buf ≡ (if ok then done (some d) else done none)
      unfolding parse decode at_start new_decoder
      enter whole {ok} {d} w = rw (le→ltb (length buf) 20 fits, e, right, whole, w)

      Accepted-Walked :
          ltb (length buf) (20 + header.msg_length) ≡ false
          → {d : Decoder} → Walked (20 + header.msg_length) at_start true d
          → Accepted buf d
      unfolding at_start new_decoder
      Accepted-Walked whole {d} w = record {
        not_null = w.same_null;
        same_buffer = w.same_buffer;
        header_fits = fits;
        header_read = e ∙ ap done (sym w.same_header);
        cookie =
            ap (λ (h : StunHeader). h.magic_cookie) w.same_header
            ∙ (==_iff header.magic_cookie magic_cookie_value).0 right;
        message_fits = rw w.same_header (ltb→le (length buf) _ whole);
        found = w.found;
        chain = rw w.same_header w.chain;
        no_more = rw w.same_header w.ended;
        recorded = w.recorded;
        reported = w.reported;
      }

      conclude :
          ltb (length buf) (20 + header.msg_length) ≡ false
          → (ok : Bool) (d : Decoder)
          → walk (suc (20 + header.msg_length)) (20 + header.msg_length) at_start ≡ done (ok, d)
          → Walked (20 + header.msg_length) at_start ok d
          → Refused ⊎ Parsed
      unfolding Refused Parsed
      conclude whole true d w k = inr (d, enter whole w, Accepted-Walked whole k)
      conclude whole false d w k = inl (enter whole w)

      parse_whole : ltb (length buf) (20 + header.msg_length) ≡ false → Refused ⊎ Parsed
      unfolding at_start new_decoder
      parse_whole whole =
          let (ok, d, w, k) =
            walk-Walked (suc (20 + header.msg_length)) (20 + header.msg_length) at_start
              (ltb→le (length buf) _ whole) (omega arith) in
          conclude whole ok d w k

-- On every input `parse` returns: it reads nothing out of range and its loop ends. It returns
-- nothing, or a decoder for which this holds: the 20-byte header was read, has the magic cookie, and
-- its length fits the input; the attributes recorded are exactly the chain that stands behind the
-- header, each inside the message, up to where no further header fits; and the types reported as
-- unknown are those of the chain that are comprehension-required and not known, in their order.
pub parse_cases :
    (buf : Bytes)
    → (parse buf ≡ done none) ⊎ ((d : Decoder) × (parse buf ≡ done (some d)) × Accepted buf d)
unfolding Refused Parsed
parse_cases buf = elim (Bool-cases (ltb (length buf) 20)) [
  | inl short ↦ inl (refuse_short buf (ltb→lt (length buf) 20 short))
  | inr long ↦ with_header (ltb→le (length buf) 20 long)
]
  where
    with_header : 20 ≤ length buf → Refused buf ⊎ Parsed buf
    with_header fits =
        let (header, e) = read_fields-total buf fits in
        elim (Bool-cases (header.magic_cookie == magic_cookie_value)) [
          | inl right ↦ elim (Bool-cases (ltb (length buf) (20 + header.msg_length))) [
            | inl short ↦ inl (refuse_length buf header fits e right short)
            | inr whole ↦ parse_whole buf header fits e right whole
          ]
          | inr wrong ↦ inl (refuse_cookie buf header fits e wrong)
        ]

-- The decoder as it enters the loop.
unfoldable pub entering : Bytes → StunHeader → Decoder
unfolding new_decoder
entering buf header = record (new_decoder buf) { header = header; offset = 20 }

-- Every input with a header that has the magic cookie, a length that fits, and a chain of attributes
-- behind it up to where no further header fits, is accepted, by the decoder that noting these one after
-- the other makes.
pub parse_complete :
    (buf : Bytes) (header : StunHeader) (hs : List AttrHeader) (last : ℕ)
    → 20 ≤ length buf
    → read_fields buf ≡ done header
    → header.magic_cookie ≡ magic_cookie_value
    → 20 + header.msg_length ≤ length buf
    → Chain buf (20 + header.msg_length) 20 hs last
    → 20 + header.msg_length < last + 4
    → parse buf ≡ done (some (note_all hs (entering buf header)))
unfolding entering new_decoder at_start
parse_complete buf header hs last fits e cookie whole c stop =
    enter buf header fits e ((==_iff header.magic_cookie magic_cookie_value).1 cookie)
      (le→ltb (length buf) (20 + header.msg_length) whole)
      (walk-Chain hs (suc (20 + header.msg_length)) (20 + header.msg_length) last
        (at_start buf header fits e ((==_iff header.magic_cookie magic_cookie_value).1 cookie)) c
        stop (omega arith))

none-some : {d : Decoder} → ¬ (none ≡ some d)
none-some e = cc

pub accepted : (buf : Bytes) (d : Decoder) → parse buf ≡ done (some d) → Accepted buf d
accepted buf d e = elim (parse_cases buf) [
  | inl refused ↦ absurd (none-some (done-injective (sym refused ∙ e)))
  | inr (d', e', a) ↦ subst (Accepted buf) (some-injective d' d (done-injective (sym e' ∙ e))) a
]
