-- ===== src/Decoder/ParseHeader.antt =====
-- `Decoder::parseHeader`: what it answers on every input of bytes, and that it agrees with `parse`.
use libstunxx.Common.{
  ◌≤◌, ◌<◌, ◌≡◌, ◌≢◌, ◌⊎◌, inl, inr, sym, ◌∙◌, none, some, ltb, ◌==◌, length, Bool-cases, ltb→lt,
  ltb→le, ==_iff, IsByte, All,
}
use mathlib.Core.Bool.{false≢true}
use libstunxx.Memory.{Bytes, done, done-injective}
use libstunxx.Stun.Wire.{be32}
use libstunxx.Stun.Header.{StunHeader, magic_cookie_value}
use libstunxx.Decoder.{Decoder, parse_header, parse}
use libstunxx.Decoder.Parse.{accepted, refuse_short, refuse_cookie}
use libstunxx.Decoder.Spelled.{
  part, IsTyped, Spells, spelled, read_fields-Spells, fill_header-Spells, be32-injective,
}

-- On every input of bytes parse_header reads nothing out of range. It answers nothing, and then the
-- input is shorter than 20 bytes or does not have the magic cookie in network order at offset 4, and
-- `parse` refuses it too; or the header whose fields stand, in network order, at the front of the input,
-- the type in bytes 0 and 1, the length in 2 and 3, the cookie in 4 to 7 and the transaction id in 8 to
-- 19, which has the magic cookie, and then every decoder that `parse` returns has that header.
pub parse_header_cases :
    (buf : Bytes)
    → All IsByte buf
    → ((parse_header buf ≡ done none)
        × (parse buf ≡ done none)
        × ((length buf < 20) ⊎ (part 4 4 buf ≢ be32 magic_cookie_value)))
      ⊎ ((h : StunHeader) × (parse_header buf ≡ done (some h))
          × (20 ≤ length buf)
          × IsTyped h
          × Spells buf h
          × (h.magic_cookie ≡ magic_cookie_value)
          × ((d : Decoder) → parse buf ≡ done (some d) → d.header ≡ h))
unfolding parse_header
parse_header_cases buf bytes = elim (Bool-cases (ltb (length buf) 20)) [
  | inl short ↦
      let lt : length buf < 20 = ltb→lt (length buf) 20 short in
      inl (rw short, refuse_short buf lt, inl lt)
  | inr long ↦
      let fits : 20 ≤ length buf = ltb→le (length buf) 20 long in
      let (h, typed, spells) = spelled buf bytes fits in
      let filled = fill_header-Spells buf h fits typed spells in
      let e = read_fields-Spells buf h fits typed spells in
      elim (Bool-cases (h.magic_cookie == magic_cookie_value)) [
        | inl right ↦ inr (
          h,
          rw (long, filled, right),
          fits,
          typed,
          spells,
          (==_iff h.magic_cookie magic_cookie_value).0 right,
          λ d parsed. done-injective (sym (accepted buf d parsed).header_read ∙ e),
        )
        | inr wrong ↦ inl (
          rw (long, filled, wrong),
          refuse_cookie buf h fits e wrong,
          inr λ same. false≢true (
              sym wrong
              ∙ (==_iff h.magic_cookie magic_cookie_value).1
                  (be32-injective h.magic_cookie magic_cookie_value (sym spells.2 ∙ same))),
        )
      ]
]
