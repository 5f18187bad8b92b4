-- ===== src/Tests/Checksum.antt =====
-- The checksum on concrete bytes, with the check value of CRC-32.
use libstunxx.Common.{◌≡◌, ◌≢◌, refl, [], ◌∷◌, ◌++◌, arith}
use libstunxx.Memory.{Bytes}
use libstunxx.Crc.{crc32_update, compute_fingerprint}
use libstunxx.Crc.Reference.{crc32_bitwise, crc32_update-crc32_bitwise}
use libstunxx.Crc.Bursts.{compute_fingerprint-bursts}

abbrev digits : Bytes
digits = 49 ∷ 50 ∷ 51 ∷ 52 ∷ 53 ∷ 54 ∷ 55 ∷ 56 ∷ 57 ∷ []

check_value : crc32_update 0 digits ≡ 0xcbf4_3926
unfolding crc32_update
check_value = refl

crc32_update-crc32_bitwise_example : crc32_update 0 digits ≡ crc32_bitwise 0 digits
crc32_update-crc32_bitwise_example = crc32_update-crc32_bitwise 0 digits (omega arith)

abbrev sent : Bytes
sent = 2 ∷ 9 ∷ 4 ∷ []

abbrev received : Bytes
received = 66 ∷ 9 ∷ 5 ∷ []

compute_fingerprint-bursts_example :
    compute_fingerprint ((1 ∷ []) ++ (sent ++ (3 ∷ [])))
    ≢ compute_fingerprint ((1 ∷ []) ++ (received ++ (3 ∷ [])))
compute_fingerprint-bursts_example =
    compute_fingerprint-bursts (1 ∷ []) sent received (3 ∷ []) (ground arith) (ground arith)
      (ground arith) refl (omega arith) differ
  where
    differ : sent ≢ received
    differ e = cc
