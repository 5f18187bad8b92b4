-- ===== src/Decoder/Exact.antt =====
-- `Decoder::parse` against the bytes of its input: which inputs it accepts, and with what contents.
use libstunxx.Common.{
  ℕ, ◌+◌, ◌≤◌, ◌<◌, ◌≡◌, inl, inr, refl, sym, ap, ◌∙◌, not, ◌&&◌, some, List, [], ◌∷◌, ◌++◌, length,
  replicate, append_assoc, append-nil, Bool-cases, IsByte, All,
}
use mathlib.Core.Path.{subst}
use mathlib.Core.Option.{some-injective}
use libstunxx.Memory.{Bytes, done, done-injective}
use libstunxx.Stun.Header.{StunHeader, magic_cookie_value}
use libstunxx.Stun.Kinds.{is_comprehension_required, is_known_attr_type}
use libstunxx.Table.{AttrHeader, append_header, blank, new_table}
use libstunxx.Decoder.{Decoder, parse, note, new_decoder}
use libstunxx.Decoder.Walk.{Chain, note_all, unknown_types}
use libstunxx.Decoder.Parse.{accepted, Accepted, parse_complete, entering}
use libstunxx.Decoder.Spelled.{
  IsTyped, Spells, Laid, FitsHeader, spelled, Chain-Laid, Laid-Chain, read_fields-Spells,
}

-- The contents of a decoder: the header, the ten blank headers of a new table with the attributes behind
-- them, and the types of those that must be understood and are not known.
pub record Contents (d : Decoder) (buf : Bytes) (h : StunHeader) (hs : List AttrHeader)
    : Type 0 where
  pub over : d.buffer ≡ buf
  pub headed : d.header ≡ h
  pub recorded : d.attributes.attributes ≡ replicate 10 blank ++ hs
  pub reported : d.unknown_required ≡ unknown_types hs

-- Two decoders of one input are the same.
pub same_decoder :
    (buf : Bytes) (d d' : Decoder) → parse buf ≡ done (some d) → parse buf ≡ done (some d') → d ≡ d'
same_decoder buf d d' e e' = some-injective d d' (done-injective (sym e ∙ e'))

-- What a decoder holds after a chain was noted.
pub note_all-attributes :
    (hs : List AttrHeader) (buf : Bytes) (end last : ℕ) (d : Decoder)
    → Chain buf end d.offset hs last
    → (note_all hs d).attributes.attributes ≡ d.attributes.attributes ++ hs
unfolding note append_header
note_all-attributes [] buf end last d e = sym (append-nil d.attributes.attributes)
note_all-attributes (h ∷ hs) buf end last d (_, _, eo, _, c) =
    note_all-attributes hs buf end last (note h.type h.len d) c
    ∙ append_assoc d.attributes.attributes (record h { offset = d.offset + 4 } ∷ []) hs
    ∙ ap (λ (o : ℕ). d.attributes.attributes ++ record h { offset = o } ∷ hs) (sym eo)

pub note_all-header : (hs : List AttrHeader) (d : Decoder) → (note_all hs d).header ≡ d.header
unfolding note
note_all-header [] d = refl
note_all-header (h ∷ hs) d = note_all-header hs (note h.type h.len d)

note_all-buffer : (hs : List AttrHeader) (d : Decoder) → (note_all hs d).buffer ≡ d.buffer
unfolding note
note_all-buffer [] d = refl
note_all-buffer (h ∷ hs) d = note_all-buffer hs (note h.type h.len d)

note_all-unknown :
    (hs : List AttrHeader) (d : Decoder)
    → (note_all hs d).unknown_required ≡ d.unknown_required ++ unknown_types hs
unfolding note
note_all-unknown [] d = sym (append-nil d.unknown_required)
note_all-unknown (h ∷ hs) d =
    elim (Bool-cases (is_comprehension_required h.type && not (is_known_attr_type h.type))) [
      | inl unknown ↦
          note_all-unknown hs (note h.type h.len d)
          ∙ rw unknown (append_assoc d.unknown_required (h.type ∷ []) (unknown_types hs))
      | inr known ↦ note_all-unknown hs (note h.type h.len d) ∙ rw known refl
    ]

pub note_all-Contents :
    (hs : List AttrHeader) (buf : Bytes) (end last : ℕ) (h : StunHeader)
    → Chain buf end 20 hs last
    → Contents (note_all hs (entering buf h)) buf h hs
unfolding entering new_decoder new_table
note_all-Contents hs buf end last h c = record {
  over = note_all-buffer hs (entering buf h);
  headed = note_all-header hs (entering buf h);
  recorded = note_all-attributes hs buf end last (entering buf h) c;
  reported = note_all-unknown hs (entering buf h);
}

-- A decoder that `parse` returns for an input of bytes has what the input spells out: the header is at
-- its front, each field in its place and in network order, with the magic cookie; the message with the
-- length in it fits the input; attributes, each with its type and length in network order in front of a
-- value inside the message, stand one behind the other from the header on up to where no further one
-- fits; exactly these are recorded behind the ten blank headers; and the types reported as unknown are
-- those of them that are comprehension-required and not known.
pub parse-Spells :
    (buf : Bytes) (d : Decoder)
    → All IsByte buf
    → parse buf ≡ done (some d)
    → Spells buf d.header
      × (d.header.magic_cookie ≡ magic_cookie_value)
      × (20 + d.header.msg_length ≤ length buf)
      × ((hs : List AttrHeader) × (last : ℕ) × Laid buf (20 + d.header.msg_length) 20 hs last
          × (20 + d.header.msg_length < last + 4)
          × Contents d buf d.header hs)
unfolding new_table
parse-Spells buf d bytes parsed =
    let a : Accepted buf d = accepted buf d parsed in
    let (h, typed, spells) = spelled buf bytes a.header_fits in
    let same : h ≡ d.header =
      done-injective (sym (read_fields-Spells buf h a.header_fits typed spells) ∙ a.header_read) in
    (
      subst (Spells buf) same spells,
      a.cookie,
      a.message_fits,
      (
        a.found,
        d.offset,
        (Chain-Laid buf bytes (20 + d.header.msg_length) 20 d.offset a.found a.message_fits
            a.chain).0,
        a.no_more,
        record {
          over = a.same_buffer;
          headed = refl;
          recorded = a.recorded;
          reported = a.reported;
        },
      ),
    )

-- Every input of at least 20 bytes that spells out a header with the magic cookie, fields of the widths
-- of the source and a length that fits, and behind it attributes with 16-bit types and lengths, one
-- behind the other, inside the message, up to where no further one fits, is accepted, by a decoder over
-- the input with that header, which has recorded exactly these attributes, behind the ten blank headers,
-- and reports those of their types that are comprehension-required and not known.
pub parse-Laid :
    (buf : Bytes) (h : StunHeader) (hs : List AttrHeader) (last : ℕ)
    → 20 ≤ length buf
    → IsTyped h
    → Spells buf h
    → h.magic_cookie ≡ magic_cookie_value
    → 20 + h.msg_length ≤ length buf
    → All FitsHeader hs
    → Laid buf (20 + h.msg_length) 20 hs last
    → 20 + h.msg_length < last + 4
    → (d : Decoder) × (parse buf ≡ done (some d)) × Contents d buf h hs
parse-Laid buf h hs last fits typed spells cookie whole all laid stop =
    let c : Chain buf (20 + h.msg_length) 20 hs last =
      Laid-Chain buf (20 + h.msg_length) 20 last hs whole all laid in
    (
      note_all hs (entering buf h),
      parse_complete buf h hs last fits (read_fields-Spells buf h fits typed spells) cookie whole c
          stop,
      note_all-Contents hs buf (20 + h.msg_length) last h c,
    )
