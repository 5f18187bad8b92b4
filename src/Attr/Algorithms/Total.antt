-- ===== src/Attr/Algorithms/Total.antt =====
-- PASSWORD-ALGORITHMS: decoding ends on every buffer.
use libstunxx.Common.{
  ℕ, zero, suc, ◌+◌, ◌≤◌, ◌<◌, ◌≡◌, ◌⊎◌, inl, inr, refl, Option, none, some, List, [], ◌∷◌, ◌++◌,
  arith, ltb, if◌then◌else◌, length, length-drop, length-take, drop, take, pad4, Bool-cases, ltb→le,
  le→ltb, bit_or, u16, ◌<<<◌,
}
use libstunxx.Memory.{Bytes, Outcome, done, ◌>>=◌, fetch, fetch_from, byte_at}
use libstunxx.Memory.Laws.{fetch-behind, fetch-inside, fetch_from-behind, fetch_from-inside}
use libstunxx.Stun.Wire.{read_be16}
use libstunxx.Attr.Algorithm.Entry.{PasswordAlgorithmEntry}
use libstunxx.Attr.Algorithms.{
  PasswordAlgorithmsAttr, entries_length, password_algorithms_length, read_entries,
  decode_password_algorithms,
}

entries_length-append :
    (xs ys : List PasswordAlgorithmEntry)
    → entries_length (xs ++ ys) ≡ entries_length xs + entries_length ys
entries_length-append [] ys = omega arith
entries_length-append (x ∷ xs) ys = omega (arith, entries_length-append xs ys)

-- What can come of the loop, where the entries so far and the bytes that are left number `total`.
Ends : ℕ → Outcome (Option PasswordAlgorithmsAttr) → Type 0
Ends total m =
    (m ≡ done none)
    ⊎ ((a : PasswordAlgorithmsAttr) × (m ≡ done (some a))
        × (password_algorithms_length a ≤ total)
        × (total < password_algorithms_length a + 4))

-- A round that finds a header with `p` bytes of parameters announced.
round_Ends :
    (n p total : ℕ) (rest : Bytes) (entries : List PasswordAlgorithmEntry)
    → entries_length entries + (4 + length rest) ≡ total
    → ((buf : Bytes) (more : List PasswordAlgorithmEntry)
        → length buf < n
        → entries_length more + length buf ≡ total
        → Ends total (read_entries n buf more))
    → length rest < n
    → (algorithm : ℕ)
    → Ends total (
        if ltb (length rest) (pad4 p) then done none else (do
          parameters ← fetch 0 p rest
          buf2 ← fetch_from (pad4 p) rest
          read_entries n buf2
              (entries ++ record { algorithm = algorithm; parameters = parameters } ∷ [])))
unfolding Ends
round_Ends n p total rest entries size ih fuel algorithm =
    elim (Bool-cases (ltb (length rest) (pad4 p))) [
      | inl short ↦ rw short (inl refl)
      | inr room ↦
          rw
            (
              room,
              fetch-inside 0 p rest (omega (arith, ltb→le (length rest) (pad4 p) room)),
              fetch_from-inside (pad4 p) rest (ltb→le (length rest) (pad4 p) room),
            )
            (ih (drop (pad4 p) rest) (entries ++ entry algorithm ∷ [])
              (rw length-drop (omega (arith, fuel))) (same (ltb→le (length rest) (pad4 p) room)))
    ]
  where
    entry : ℕ → PasswordAlgorithmEntry
    entry algorithm = record { algorithm = algorithm; parameters = take p rest }

    same :
        pad4 p ≤ length rest
        → entries_length (entries ++ entry algorithm ∷ []) + length (drop (pad4 p) rest) ≡ total
    same room = omega (
      arith,
      size,
      room,
      entries_length-append entries (entry algorithm ∷ []),
      length-take {0} p rest (omega (arith, room)),
      length-drop {0} (pad4 p) rest,
    )

read_entries-Ends :
    (n total : ℕ) (buf : Bytes) (entries : List PasswordAlgorithmEntry)
    → length buf < n
    → entries_length entries + length buf ≡ total
    → Ends total (read_entries n buf entries)
unfolding Ends read_entries read_be16 byte_at
read_entries-Ends zero total buf entries fuel size = absurd (omega arith)
read_entries-Ends (suc n) total [] entries fuel size =
    inr (record { entries = entries }, refl, omega arith, omega arith)
read_entries-Ends (suc n) total (b0 ∷ []) entries fuel size =
    inr (record { entries = entries }, refl, omega arith, omega arith)
read_entries-Ends (suc n) total (b0 ∷ b1 ∷ []) entries fuel size =
    inr (record { entries = entries }, refl, omega arith, omega arith)
read_entries-Ends (suc n) total (b0 ∷ b1 ∷ b2 ∷ []) entries fuel size =
    inr (record { entries = entries }, refl, omega arith, omega arith)
read_entries-Ends (suc n) total (b0 ∷ b1 ∷ b2 ∷ b3 ∷ rest) entries fuel size =
    rw
      (
        le→ltb (length (b0 ∷ b1 ∷ b2 ∷ b3 ∷ rest)) 4 (omega arith),
        fetch-behind 0 2 [] (b0 ∷ b1 ∷ []) (b2 ∷ b3 ∷ rest) refl refl,
        fetch-behind 2 2 (b0 ∷ b1 ∷ []) (b2 ∷ b3 ∷ []) rest refl refl,
        fetch_from-behind 4 (b0 ∷ b1 ∷ b2 ∷ b3 ∷ []) rest refl,
      )
      (round_Ends n (u16 (bit_or (b2 <<< 8) b3)) total rest entries (omega (arith, size))
        (read_entries-Ends n total) (omega (arith, fuel)) (u16 (bit_or (b0 <<< 8) b1)))

-- On every buffer decoding a list of algorithms ends and reads nothing out of range. It answers
-- nothing, or a list whose entries take up the buffer but for three bytes at most.
pub decode_password_algorithms_ends :
    (buf : Bytes)
    → (decode_password_algorithms buf ≡ done none)
      ⊎ ((a : PasswordAlgorithmsAttr) × (decode_password_algorithms buf ≡ done (some a))
          × (password_algorithms_length a ≤ length buf)
          × (length buf < password_algorithms_length a + 4))
unfolding decode_password_algorithms Ends
decode_password_algorithms_ends buf =
    read_entries-Ends (suc (length buf)) (length buf) buf [] (omega arith) (omega arith)
