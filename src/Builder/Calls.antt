-- ===== src/Builder/Calls.antt =====
-- A chain of calls on a builder, against the abstract encoder: it stops at the first addition that
-- fails.
use libstunxx.Common.{
  ℕ, ◌+◌, ◌≤◌, ◌≡◌, refl, ap, ◌∙◌, Bool, true, false, not, List, [], ◌∷◌, ◌++◌, length, take, drop,
  if_false, if_true, IsU16,
}
use libstunxx.Memory.{Bytes, Outcome, done, fault, ◌>>=◌}
use libstunxx.Stun.Types.{StunMethod, StunClass}
use libstunxx.Stun.Endian.{Endian}
use libstunxx.Attr.Integrity.{MessageIntegrityAttr}
use libstunxx.Encoder
use libstunxx.Encoder.{Encoder, new_encoder}
use libstunxx.Encoder.Message.{body}
use libstunxx.Encoder.Holds.{new_encoder-Holds}
use libstunxx.Encoder.Calls.{
  Call, attribute, integrity, fingerprint, finish, call, Draft, blank_draft, answer,
}
use libstunxx.Encoder.Refines.{Refines}
use libstunxx.Encoder.Refines.Steps.{call-Step}
use libstunxx.Builder.{
  Builder, answered, new_builder, add, add_integrity, add_fingerprint, finalize,
}
use libstunxx.Builder.MessageType.{message_type, message_type-IsU16}

-- A call on the builder; finalize returns the encoder, which stays the builder's.
unfoldable pub build_call : Endian → Call → Builder → Outcome Builder
build_call e (attribute p) b = add p.attr p.attribute b
build_call e (integrity hmac_of is_sha256 a) b = add_integrity e hmac_of is_sha256 a b
build_call e fingerprint b = add_fingerprint e b
build_call e finish b = do enc ← finalize e b; done (record b { encoder = enc })

unfoldable pub build : Endian → List Call → Builder → Outcome Builder
unfolding build_call
build e [] b = done b
build e (c ∷ cs) b = do b1 ← build_call e c b; build e cs b1

-- The abstract builder: whether all additions succeeded so far, and the abstract encoder. After a
-- failure only finalize has an effect.
abbrev pub chained_call : ℕ → Bytes → Call → Bool × Draft → Bool × Draft
chained_call type tid c (true, d) = answer type tid c d
chained_call type tid finish (false, d) = (false, (answer type tid finish d).1)
chained_call type tid c (false, d) = (false, d)

abbrev pub chained : ℕ → Bytes → List Call → Bool × Draft → Bool × Draft
chained type tid [] s = s
chained type tid (c ∷ cs) s = chained type tid cs (chained_call type tid c s)

record Follows (e : Endian) (type : ℕ) (tid : Bytes) (b : Builder) (s : Bool × Draft) : Type 0 where
  valid : b.valid ≡ s.0
  refines : Refines e type tid b.encoder s.1

-- A call of the encoder whose answer becomes `valid_`.
answers_with : Endian → Call → Builder → Outcome Builder
unfolding answered
answers_with e c b = do added ← call e c b.encoder; done (answered added)

without_attribute : Bool × MessageIntegrityAttr × Encoder → Bool × Encoder
without_attribute (ok, _, enc) = (ok, enc)

true_with : Encoder → Bool × Encoder
true_with enc = (true, enc)

finalized :
    (o : Outcome Encoder) {enc' : Encoder}
    → (o >>= λ enc. done (true_with enc)) ≡ done (true, enc')
    → o ≡ done enc'
unfolding true_with
finalized o {enc'} e = back o ∙ ap (λ (m : Outcome (Bool × Encoder)). m >>= λ x. done x.1) e
  where
    back : (o : Outcome Encoder) → o ≡ ((o >>= λ enc. done (true_with enc)) >>= λ x. done x.1)
    back (done enc) = refl
    back fault = refl

dropped :
    (o : Outcome (Bool × MessageIntegrityAttr × Encoder))
    → (o >>= λ x. done (answered (x.0, x.2)))
      ≡ ((o >>= λ x. done (without_attribute x)) >>= λ added. done (answered added))
unfolding without_attribute
dropped (done x) = refl
dropped fault = refl

module _ {e : Endian} {type : ℕ} {tid : Bytes} (b : Builder) (ht : IsU16 type)
    (htid : length tid ≡ 12) where
  answers_with-Follows :
      (c : Call) {d : Draft}
      → Refines e type tid b.encoder d
      → (b' : Builder) × (answers_with e c b ≡ done b')
        × Follows e type tid b' (answer type tid c d)
  unfolding answers_with answered
  answers_with-Follows c {d} k =
      let (enc', called, k') = call-Step k ht htid c in
      (
        record { valid = (answer type tid c d).0; encoder = enc' },
        rw called,
        record { valid = refl; refines = k' },
      )

  finish-Follows :
      (ok : Bool) {d : Draft}
      → b.valid ≡ ok
      → Refines e type tid b.encoder d
      → (b' : Builder) × (build_call e finish b ≡ done b')
        × Follows e type tid b' (ok, (answer type tid finish d).1)
  unfolding build_call finalize call answer true_with
  finish-Follows ok {d} valid k =
      let (enc', called, k') = call-Step k ht htid finish in
      (
        record b { encoder = enc' },
        rw (finalized (Encoder.finalize e b.encoder) called),
        record { valid = valid; refines = k' },
      )

  build_call-Follows :
      (c : Call) (s : Bool × Draft)
      → Follows e type tid b s
      → (b' : Builder) × (build_call e c b ≡ done b')
        × Follows e type tid b' (chained_call type tid c s)
  unfolding build_call add add_integrity add_fingerprint answers_with call answer without_attribute
  build_call-Follows finish (true, d) k = finish-Follows true k.valid k.refines
  build_call-Follows finish (false, d) k = finish-Follows false k.valid k.refines
  build_call-Follows (attribute p) (true, d) k =
      let (b', told, k') = answers_with-Follows (attribute p) k.refines in
      (b', if_false _ _ (ap not k.valid) ∙ told, k')
  build_call-Follows (attribute p) (false, d) k = (b, if_true _ _ (ap not k.valid), k)
  build_call-Follows (integrity hmac_of is_sha256 a) (true, d) k =
      let (b', told, k') = answers_with-Follows (integrity hmac_of is_sha256 a) k.refines in
      (
        b',
        if_false _ _ (ap not k.valid)
            ∙ dropped (Encoder.add_integrity e hmac_of is_sha256 a b.encoder)
            ∙ told,
        k',
      )
  build_call-Follows (integrity hmac_of is_sha256 a) (false, d) k =
      (b, if_true _ _ (ap not k.valid), k)
  build_call-Follows fingerprint (true, d) k =
      let (b', told, k') = answers_with-Follows fingerprint k.refines in
      (b', if_false _ _ (ap not k.valid) ∙ told, k')
  build_call-Follows fingerprint (false, d) k = (b, if_true _ _ (ap not k.valid), k)

build-Follows :
    {e : Endian} {type : ℕ} {tid : Bytes} (cs : List Call) {b : Builder} {s : Bool × Draft}
    → Follows e type tid b s
    → IsU16 type
    → length tid ≡ 12
    → (b' : Builder) × (build e cs b ≡ done b') × Follows e type tid b' (chained type tid cs s)
unfolding build
build-Follows [] {b} k ht htid = (b, refl, k)
build-Follows (c ∷ cs) {b} {s} k ht htid =
    let (b1, made, k1) = build_call-Follows b ht htid c s k in
    let (b2, built, k2) = build-Follows cs k1 ht htid in (b2, rw (made, built), k2)

-- The abstract builder after a chain of calls on a new builder.
abbrev pub chain_of : StunMethod → StunClass → Bytes → List Call → Bytes → Bool × Draft
chain_of m c tid cs buf =
    chained (message_type m c) tid cs (true, blank_draft (take 20 buf) (drop 20 buf))

-- Whatever chain of calls is made of a new builder, of attributes that satisfy the law of attributes,
-- message integrities, fingerprints and finalize, with a transaction id of 12 bytes and a buffer of 20
-- bytes at least: no call leaves the buffer, and the builder ends up as the abstract builder, which
-- carries out the calls up to the first addition that fails, is invalid from there on and ignores all
-- later ones but finalize: the same validity, and the buffer is its front, its attributes and its free
-- bytes.
pub build-chained :
    (e : Endian) (m : StunMethod) (c : StunClass) (tid buf : Bytes) (cs : List Call)
    → length tid ≡ 12
    → 20 ≤ length buf
    → (b : Builder) × (build e cs (new_builder e m c tid buf) ≡ done b)
      × (b.valid ≡ (chain_of m c tid cs buf).0)
      × (b.encoder.buffer
          ≡ (chain_of m c tid cs buf).1.front
            ++ (body (chain_of m c tid cs buf).1.items ++ (chain_of m c tid cs buf).1.free))
      × (b.encoder.offset ≡ 20 + length (body (chain_of m c tid cs buf).1.items))
unfolding new_builder new_encoder
build-chained e m c tid buf cs htid room =
    let (b, built, k) = build-Follows cs start (message_type-IsU16 m c) htid in
    (b, built, k.valid, k.refines.holds.split, k.refines.holds.position)
  where
    start :
        Follows e
          (message_type m c)
          tid
          (new_builder e m c tid buf)
          (true, blank_draft (take 20 buf) (drop 20 buf))
    start = record {
      valid = refl;
      refines = record {
        holds = new_encoder-Holds e (message_type m c) tid buf room;
        signed = refl;
        checked = refl;
      };
    }
