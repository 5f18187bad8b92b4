-- ===== src/Attr/Keys.antt =====
-- computeKey of include/stunxx/attributes/MessageIntegrityAttrT.hpp and computeUserHash of
-- include/stunxx/attributes/UserHashAttr.hpp. EVP_Digest of OpenSSL is a parameter: from the bytes and
-- what the output array holds before, whether it succeeds, which the callers do not look at, and what
-- the array holds after.
use libstunxx.Common.{ℕ, ◌≡◌, ◌≢◌, refl, sym, ap, ap₂, Bool, [], ◌∷◌, ◌++◌, drop, All}
use libstunxx.Memory.{Bytes}
use libstunxx.Stun.Wire.{zeros}
use libstunxx.Attr.Raw.{hash_size}

abbrev pub EvpDigest : Type 0
EvpDigest = Bytes → Bytes → Bool × Bytes

-- ':'
abbrev colon : ℕ
colon = 58

-- What the value-initialised array holds after EVP_Digest.
digest_into : EvpDigest → ℕ → Bytes → Bytes
digest_into evp size input = (evp input (zeros size)).1

unfoldable pub key_input : Bytes → Bytes → Bytes → Bytes
key_input username realm password = username ++ colon ∷ (realm ++ colon ∷ password)

unfoldable pub compute_key : EvpDigest → ℕ → Bytes → Bytes → Bytes → Bytes
unfolding digest_into key_input
compute_key evp digest_size username realm password =
    digest_into evp digest_size (key_input username realm password)

-- computeMD5Key, computeSHA256Key: EVP_Digest with that function
unfoldable pub compute_md5_key : EvpDigest → Bytes → Bytes → Bytes → Bytes
unfolding compute_key
compute_md5_key md5 = compute_key md5 16

unfoldable pub compute_sha256_key : EvpDigest → Bytes → Bytes → Bytes → Bytes
unfolding compute_key
compute_sha256_key sha256 = compute_key sha256 32

unfoldable pub compute_user_hash : EvpDigest → Bytes → Bytes → Bytes
unfolding digest_into
compute_user_hash sha256 username realm = digest_into sha256 hash_size (username ++ colon ∷ realm)

abbrev pub HasNoColon : Bytes → Type 0
HasNoColon = All (λ b. b ≢ 58)

head_or : Bytes → ℕ
head_or [] = 0
head_or (x ∷ xs) = x

-- The first colon ends the part in front of it.
first_part :
    (xs ys x y : Bytes)
    → HasNoColon xs
    → HasNoColon ys
    → xs ++ colon ∷ x ≡ ys ++ colon ∷ y
    → (xs ≡ ys) × (x ≡ y)
unfolding head_or
first_part [] [] x y hx hy e = (refl, ap (drop 1) e)
first_part [] (b ∷ ys) x y hx (hb, hy) e = absurd (hb (sym (ap head_or e)))
first_part (a ∷ xs) [] x y (ha, hx) hy e = absurd (ha (ap head_or e))
first_part (a ∷ xs) (b ∷ ys) x y (ha, hx) (hb, hy) e =
    let (same, others) = first_part xs ys x y hx hy (ap (drop 1) e) in
    (ap₂ (λ c cs. c ∷ cs) (ap head_or e) same, others)

-- Different credentials get different keys: where neither the usernames nor the realms contain a colon,
-- and EVP_Digest does not write the same digest for the two inputs unless they are equal, equal keys
-- come from the same username, the same realm and the same password.
pub compute_key-injective :
    (evp : EvpDigest) (size : ℕ) (username realm password username' realm' password' : Bytes)
    (no_collision : (evp (key_input username realm password) (zeros size)).1
        ≡ (evp (key_input username' realm' password') (zeros size)).1
      → key_input username realm password ≡ key_input username' realm' password')
    → HasNoColon username
    → HasNoColon realm
    → HasNoColon username'
    → HasNoColon realm'
    → compute_key evp size username realm password ≡ compute_key evp size username' realm' password'
    → (username ≡ username') × (realm ≡ realm') × (password ≡ password')
unfolding compute_key digest_into key_input
compute_key-injective evp size username realm password username' realm' password' no_collision hu hr
      hu' hr' same =
    let (same_user, e) =
      first_part username username' (realm ++ colon ∷ password) (realm' ++ colon ∷ password') hu hu'
        (no_collision same) in
    let (same_realm, same_password) = first_part realm realm' password password' hr hr' e in
    (same_user, same_realm, same_password)
