-- ===== src/Decoder/Walk.antt =====
-- The loop of `decode`: it ends within its fuel, reads nothing out of range, and what it has
-- recorded when it ends is exactly the chain of attributes that stands in the buffer.
use libstunxx.Common.{
  ℕ, zero, suc, ◌+◌, ◌-◌, ◌≤◌, ◌<◌, ◌≡◌, inl, inr, refl, sym, ◌∙◌, Bool, true, false, not, ◌&&◌,
  List, [], ◌∷◌, ◌++◌, arith, ltb, if◌then◌else◌, length, take, drop, length-take, length-drop,
  pad4, Bool-cases, ltb→lt, ltb→le, lt→ltb, le→ltb, append_assoc, append-nil,
}
use libstunxx.Memory.{Bytes, done}
use libstunxx.Memory.Laws.{fetch-inside}
use libstunxx.Stun.Wire.{read_be16, read_be32}
use libstunxx.Stun.Kinds.{is_comprehension_required, is_known_attr_type}
use libstunxx.Table.{AttrHeader, append_header}
use libstunxx.Decoder.{Decoder, peek16, peek32, note, walk}

pub read_be16-total : (buf : Bytes) → 2 ≤ length buf → (v : ℕ) × (read_be16 buf ≡ done v)
unfolding read_be16
read_be16-total [] h = absurd (omega arith)
read_be16-total (b0 ∷ []) h = absurd (omega arith)
read_be16-total (b0 ∷ b1 ∷ buf) h = (_, refl)

pub read_be32-total : (buf : Bytes) → 4 ≤ length buf → (v : ℕ) × (read_be32 buf ≡ done v)
unfolding read_be32
read_be32-total [] h = absurd (omega arith)
read_be32-total (b0 ∷ []) h = absurd (omega arith)
read_be32-total (b0 ∷ b1 ∷ []) h = absurd (omega arith)
read_be32-total (b0 ∷ b1 ∷ b2 ∷ []) h = absurd (omega arith)
read_be32-total (b0 ∷ b1 ∷ b2 ∷ b3 ∷ buf) h = (_, refl)

part_length : (off n : ℕ) (buf : Bytes) → off + n ≤ length buf → length (take n (drop off buf)) ≡ n
part_length off n buf h = length-take n (drop off buf) (rw length-drop (omega arith))

pub peek16-total :
    (off : ℕ) (buf : Bytes) → off + 2 ≤ length buf → (v : ℕ) × (peek16 off buf ≡ done v)
unfolding peek16
peek16-total off buf h =
    rw (fetch-inside off 2 buf h)
      (read_be16-total (take 2 (drop off buf)) (omega (arith, part_length off 2 buf h)))

pub peek32-total :
    (off : ℕ) (buf : Bytes) → off + 4 ≤ length buf → (v : ℕ) × (peek32 off buf ≡ done v)
unfolding peek32
peek32-total off buf h =
    rw (fetch-inside off 4 buf h)
      (read_be32-total (take 4 (drop off buf)) (omega (arith, part_length off 4 buf h)))

-- The types that the decoder has to report.
abbrev pub unknown_types : List AttrHeader → List ℕ
unknown_types [] = []
unknown_types (h ∷ hs) =
    if is_comprehension_required h.type && not (is_known_attr_type h.type)
    then h.type ∷ unknown_types hs
    else unknown_types hs

-- `hs` are the attributes that stand one behind the other in `buf` from `off` to `last`, each with
-- its value inside the first `end` bytes.
abbrev pub Chain : Bytes → ℕ → ℕ → List AttrHeader → ℕ → Type 0
Chain buf end off [] last = off ≡ last
Chain buf end off (h ∷ hs) last =
    (peek16 off buf ≡ done h.type)
    × (peek16 (off + 2) buf ≡ done h.len)
    × (h.offset ≡ off + 4)
    × (h.offset + h.len ≤ end)
    × Chain buf end (off + (4 + pad4 h.len)) hs last

-- Why the loop ends: there is no room for a header, or the next value would pass the end.
abbrev pub Ended : Bytes → ℕ → ℕ → Bool → Type 0
Ended buf end off true = end < off + 4
Ended buf end off false =
    (off + 4 ≤ end) × ((len : ℕ) × (peek16 (off + 2) buf ≡ done len) × (end < off + 4 + len))

pub record Walked (end : ℕ) (d : Decoder) (ok : Bool) (d' : Decoder) : Type 0 where
  pub found : List AttrHeader
  pub chain : Chain d.buffer end d.offset found d'.offset
  pub ended : Ended d.buffer end d'.offset ok
  pub recorded : d'.attributes.attributes ≡ d.attributes.attributes ++ found
  pub reported : d'.unknown_required ≡ d.unknown_required ++ unknown_types found
  pub same_buffer : d'.buffer ≡ d.buffer
  pub same_header : d'.header ≡ d.header
  pub same_null : d'.null ≡ d.null

Walked-stop : (end : ℕ) (d : Decoder) → end < d.offset + 4 → Walked end d true d
Walked-stop end d h = record {
  found = [];
  chain = refl;
  ended = h;
  recorded = sym (append-nil d.attributes.attributes);
  reported = sym (append-nil d.unknown_required);
  same_buffer = refl;
  same_header = refl;
  same_null = refl;
}

Walked-reject :
    (end : ℕ) (d : Decoder) (len : ℕ)
    → d.offset + 4 ≤ end
    → peek16 (d.offset + 2) d.buffer ≡ done len
    → end < d.offset + 4 + len
    → Walked end d false d
Walked-reject end d len h e long = record {
  found = [];
  chain = refl;
  ended = (h, (len, e, long));
  recorded = sym (append-nil d.attributes.attributes);
  reported = sym (append-nil d.unknown_required);
  same_buffer = refl;
  same_header = refl;
  same_null = refl;
}

note-buffer : (type len : ℕ) (d : Decoder) → (note type len d).buffer ≡ d.buffer
unfolding note
note-buffer type len d = refl

note-offset : (type len : ℕ) (d : Decoder) → (note type len d).offset ≡ d.offset + (4 + pad4 len)
unfolding note
note-offset type len d = refl

Walked-note :
    (end type len : ℕ) (d : Decoder) {ok : Bool} {d' : Decoder}
    → peek16 d.offset d.buffer ≡ done type
    → peek16 (d.offset + 2) d.buffer ≡ done len
    → d.offset + 4 + len ≤ end
    → Walked end (note type len d) ok d'
    → Walked end d ok d'
unfolding note append_header
Walked-note end type len d et el fits w = record {
  found = record { type = type; len = len; offset = d.offset + 4 } ∷ w.found;
  chain = (et, el, refl, fits, w.chain);
  ended = w.ended;
  recorded =
      w.recorded
      ∙ append_assoc d.attributes.attributes
          (record { type = type; len = len; offset = d.offset + 4 } ∷ []) w.found;
  reported = w.reported ∙ report;
  same_buffer = w.same_buffer;
  same_header = w.same_header;
  same_null = w.same_null;
}
  where
    report :
        (note type len d).unknown_required ++ unknown_types w.found
        ≡ d.unknown_required
          ++ unknown_types (record { type = type; len = len; offset = d.offset + 4 } ∷ w.found)
    report = elim (Bool-cases (is_comprehension_required type && not (is_known_attr_type type))) [
      | inl e ↦ rw e (append_assoc d.unknown_required (type ∷ []) (unknown_types w.found))
      | inr e ↦ rw e
    ]

-- From any state whose buffer holds the message, the loop ends with enough fuel, without a read
-- out of range, and what it recorded is the chain of attributes in the buffer.
pub walk-Walked :
    (f end : ℕ) (d : Decoder)
    → end ≤ length d.buffer
    → end - d.offset < f
    → (ok : Bool) × (d' : Decoder) × (walk f end d ≡ done (ok, d')) × Walked end d ok d'
unfolding walk
walk-Walked zero end d fits fuel = absurd (omega arith)
walk-Walked (suc f) end d fits fuel = elim (Bool-cases (ltb end (d.offset + 4))) [
  | inl stop ↦ (true, d, rw stop, Walked-stop end d (ltb→lt end (d.offset + 4) stop))
  | inr more ↦ continue (walk-Walked f end) (ltb→le end (d.offset + 4) more) more
]
  where
    advance :
        (type len : ℕ)
        → peek16 d.offset d.buffer ≡ done type
        → peek16 (d.offset + 2) d.buffer ≡ done len
        → d.offset + 4 ≤ end
        → ltb end (d.offset + 4) ≡ false
        → ltb (end - d.offset - 4) len ≡ false
        → ((ok : Bool) × (d' : Decoder) × (walk f end (note type len d) ≡ done (ok, d'))
            × Walked end (note type len d) ok d')
        → (ok : Bool) × (d' : Decoder) × (walk (suc f) end d ≡ done (ok, d')) × Walked end d ok d'
    advance type len et el room more inside (ok, d', e, w) = (
      ok,
      d',
      rw (more, et, el, inside) e,
      Walked-note end type len d et el (omega (arith, ltb→le (end - d.offset - 4) len inside)) w,
    )

    continue :
        ((e : Decoder)
          → end ≤ length e.buffer
          → end - e.offset < f
          → (ok : Bool) × (d' : Decoder) × (walk f end e ≡ done (ok, d')) × Walked end e ok d')
        → d.offset + 4 ≤ end
        → ltb end (d.offset + 4) ≡ false
        → (ok : Bool) × (d' : Decoder) × (walk (suc f) end d ≡ done (ok, d')) × Walked end d ok d'
    continue ih room more =
        let (type, et) = peek16-total d.offset d.buffer (omega arith) in
        let (len, el) = peek16-total (d.offset + 2) d.buffer (omega arith) in
        elim (Bool-cases (ltb (end - d.offset - 4) len)) [
          | inl long ↦ (
            false,
            d,
            rw (more, et, el, long),
            Walked-reject end d len room el (omega (arith, ltb→lt (end - d.offset - 4) len long)),
          )
          | inr inside ↦
              advance type len et el room more inside
                (ih (note type len d) (rw note-buffer fits) (rw note-offset (omega arith)))
        ]

abbrev pub note_all : List AttrHeader → Decoder → Decoder
note_all [] d = d
note_all (h ∷ hs) d = note_all hs (note h.type h.len d)

-- On a whole chain the loop ends with success, having noted every attribute of it.
pub walk-Chain :
    (hs : List AttrHeader) (f end last : ℕ) (d : Decoder)
    → Chain d.buffer end d.offset hs last
    → end < last + 4
    → end - d.offset < f
    → walk f end d ≡ done (true, note_all hs d)
unfolding walk
walk-Chain hs zero end last d c stop fuel = absurd (omega arith)
walk-Chain [] (suc f) end last d e stop fuel = rw (lt→ltb end (d.offset + 4) (omega arith))
walk-Chain (h ∷ hs) (suc f) end last d (et, el, eo, fits, c) stop fuel =
    rw
      (
        le→ltb end (d.offset + 4) (omega arith),
        et,
        el,
        le→ltb (end - d.offset - 4) h.len (omega arith),
      )
      (walk-Chain hs f end last (note h.type h.len d)
        (rw (note-buffer h.type h.len d, note-offset h.type h.len d) c) stop
        (rw note-offset (omega arith)))
