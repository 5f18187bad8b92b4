-- ===== src/Attr/Life.antt =====
-- include/stunxx/attributes/MessageIntegrityAttrT.hpp: the states that an attribute goes through from
-- the constructor that takes a key, by calls of key(...) and compute in any order.
use libstunxx.Common.{
  ◌≡◌, ◌≢◌, ◌⊎◌, inl, inr, refl, Bool, true, false, Option, none, some, [], ◌∷◌, arith, ◌==◌,
  Bool-cases, ==_iff, length,
}
use libstunxx.Memory.{Bytes, done}
use libstunxx.Stun.Wire.{put_tlv}
use libstunxx.Attr.Integrity.{
  Hmac, MessageIntegrityAttr, integrity_with_key, set_key, compute, take_digest, expected_size,
  integrity_type, encode_integrity, integrity_written,
}

-- An attribute that holds no digest
unsigned_written :
    (is_sha256 : Bool) (a : MessageIntegrityAttr) (buf : Bytes)
    → a.hmac ≡ []
    → encode_integrity is_sha256 a buf ≡ done (false, buf)
unfolding encode_integrity
unsigned_written true a buf e = rw e refl
unsigned_written false a buf e = rw e refl

module _ (hmac_of : Hmac) (is_sha256 : Bool) where
  pub data Step (a : MessageIntegrityAttr) : MessageIntegrityAttr → Type 0 where
    keyed : (key : Bytes) → Step a (set_key key a)
    computed : (message : Bytes) → Step a ((compute hmac_of is_sha256 message a).1)

  pub data Reach (key : Bytes) : MessageIntegrityAttr → Type 0 where
    start : Reach key (integrity_with_key key)
    later : {a b : MessageIntegrityAttr} → Reach key a → Step a b → Reach key b

  -- The digest that is held is the HMAC of some message under some key that was not empty.
  abbrev pub IsSigned : MessageIntegrityAttr → Type 0
  IsSigned a =
      (key : Bytes) × (message : Bytes) × (key ≢ [])
      × (hmac_of key message ≡ some a.hmac)
      × (length a.hmac ≡ expected_size is_sha256)

  take_digest-IsSigned :
      (a : MessageIntegrityAttr) (o : Option Bytes) (message : Bytes)
      → a.key ≢ []
      → hmac_of a.key message ≡ o
      → (a.hmac ≡ []) ⊎ IsSigned a
      → ((take_digest (expected_size is_sha256) a o).1.hmac ≡ [])
        ⊎ IsSigned ((take_digest (expected_size is_sha256) a o).1)
  unfolding take_digest
  take_digest-IsSigned a none message key e s = s
  take_digest-IsSigned a (some digest) message key e s =
      elim (Bool-cases (length digest == expected_size is_sha256)) [
        | inl fits ↦ rw fits (
            inr (a.key, message, key, e, (==_iff (length digest) (expected_size is_sha256)).0 fits))
        | inr other ↦ rw other s
      ]

  keyless : (xs : Bytes) → (xs ≡ []) ⊎ ((xs ≢ []) × ((length xs == 0) ≡ false))
  keyless [] = inl refl
  keyless (x ∷ xs) = inr (λ e. cc, ground arith)

  Step-IsSigned :
      {a b : MessageIntegrityAttr}
      → Step a b
      → (a.hmac ≡ []) ⊎ IsSigned a
      → (b.hmac ≡ []) ⊎ IsSigned b
  unfolding set_key compute
  Step-IsSigned (keyed key) s = s
  Step-IsSigned {a} (computed message) s = elim (keyless a.key) [
    | inl without ↦ rw without s
    | inr (key, some_key) ↦
        rw some_key (take_digest-IsSigned a (hmac_of a.key message) message key refl s)
  ]

  Reach-IsSigned :
      {key : Bytes} {a : MessageIntegrityAttr} → Reach key a → (a.hmac ≡ []) ⊎ IsSigned a
  Reach-IsSigned start = inl refl
  Reach-IsSigned (later r s) = Step-IsSigned s (Reach-IsSigned r)

  -- Whatever keys are set and whatever messages are computed over, in any order, from an attribute
  -- that was made from a key: either no digest is held, and then encode answers false and writes
  -- nothing; or the digest is the HMAC, of the size of the hash, of some message under a key that was
  -- not empty, and encode writes it as an attribute, or answers false and writes nothing if it does
  -- not fit.
  pub encode_integrity-reached :
      (key : Bytes) (a : MessageIntegrityAttr) (buf : Bytes)
      → Reach key a
      → ((a.hmac ≡ []) × (encode_integrity is_sha256 a buf ≡ done (false, buf)))
        ⊎ (IsSigned a
            × (encode_integrity is_sha256 a buf ≡ put_tlv (integrity_type is_sha256) a.hmac buf))
  encode_integrity-reached key a buf r = elim (Reach-IsSigned r) [
    | inl blank ↦ inl (blank, unsigned_written is_sha256 a buf blank)
    | inr signed ↦
        let (k, message, nonempty, digest, size) = signed in
        inr (signed, integrity_written is_sha256 a buf size)
  ]
