-- ===== src/Tests/ReadsBack.antt =====
-- Attributes added to a builder and read back by a decoder.
use libstunxx.Common.{◌≡◌, refl, false, some, [], ◌∷◌, arith, replicate}
use libstunxx.Memory.{Bytes, done, ◌>>=◌}
use libstunxx.Stun.Types.{binding, success_resp}
use libstunxx.Stun.Endian.{little}
use libstunxx.Attr.Concept.{Coded}
use libstunxx.Attr.Catalogue.Structured.{error_code_coded}
use libstunxx.Attr.ErrorCode.{ErrorCodeAttr, error_code_type, decode_error_code}
use libstunxx.Attr.XorAddress.{new_xor_address, decode_xor_address}
use libstunxx.Attr.XorAddress.Value.{stun_address}
use libstunxx.Attr.XorAddress.Loops.{masked_bytes}
use libstunxx.Decoder.{Decoder, parse, get_attribute, get_xor_attribute}
use libstunxx.Encoder.{Encoder}
use libstunxx.Builder.{new_builder}
use libstunxx.Builder
use libstunxx.Builder.RoundTrip.{add_all}
use libstunxx.Builder.ReadsBack.{
  piece_of, with_address, get_attribute-built, get_xor_attribute-built,
}
use libstunxx.Tests.Sample.{tid, pieces}

abbrev unauthorized : ErrorCodeAttr
unauthorized = record { code = 401; reason = 78 ∷ 111 ∷ [] }

abbrev unauthorized_coded : Coded
unauthorized_coded = error_code_coded unauthorized (omega arith) (omega arith) (omega arith)

get_attribute-built_example :
    (enc : Encoder) × (d : Decoder) × ((add_all
          (piece_of unauthorized_coded ∷ pieces)
          (new_builder little binding success_resp tid (replicate 60 0))
        >>= Builder.finalize little)
      ≡ done enc)
    × (parse enc.buffer ≡ done (some d))
    × (get_attribute error_code_type decode_error_code d ≡ done (some unauthorized))
    × (d.header.transaction_id ≡ tid)
get_attribute-built_example =
    get_attribute-built little binding success_resp tid (replicate 60 0) [] unauthorized_coded
      pieces refl (omega arith) (omega arith) (omega arith) (omega arith) (omega arith)

abbrev home : Bytes
home = 192 ∷ 0 ∷ 2 ∷ 1 ∷ []

get_xor_attribute-built_example :
    (enc : Encoder) × (d : Decoder) × ((add_all
          (with_address false 0x0020 32853 home tid
            (omega arith)
            (omega arith)
            (omega arith)
            (omega arith)
            refl
            refl
            pieces
            [])
          (new_builder little binding success_resp tid (replicate 60 0))
        >>= Builder.finalize little)
      ≡ done enc)
    × (parse enc.buffer ≡ done (some d))
    × (get_xor_attribute 0x0020 decode_xor_address d
        ≡ done (some (new_xor_address tid (stun_address false 32853 home))))
unfolding masked_bytes
get_xor_attribute-built_example =
    get_xor_attribute-built false 0x0020 32853 home tid (omega arith) (omega arith) (omega arith)
      (omega arith) refl refl little binding success_resp (replicate 60 0) pieces [] (omega arith)
      (omega arith) (omega arith) (omega arith) (omega arith)
