-- ===== src/Memory/Laws.antt =====
-- Accesses inside the span succeed, and where they land.
use libstunxx.Common.{ℕ, zero, suc, ◌+◌, ◌≤◌, ◌<◌, ◌≡◌, refl, ap, sym, sym, ◌∙◌, [], ◌∷◌, ◌++◌}
use libstunxx.Common.{
  arith, length, take, drop, length-append, take-append, drop-append, append-nil, le→leb, lt→leb,
}
use libstunxx.Memory.Defs.{Bytes, Outcome, done, fault, ◌>>=◌, store, byte_at, fetch, fetch_from}

fault-ne-done {ℓ} : {A : Type ℓ} {a : A} → fault ≡ done a → ⊥
fault-ne-done e = cc

-- A write at the front of a span that is long enough.
pub store-front :
    (bs buf : Bytes) → length bs ≤ length buf → store 0 bs buf ≡ done (bs ++ drop (length bs) buf)
unfolding store
store-front [] buf h = refl
store-front (b ∷ bs) [] h = absurd (omega arith)
store-front (b ∷ bs) (x ∷ buf) h = rw (store-front bs buf (omega arith))

-- A write behind a part that is already written: the written part grows.
pub store-behind :
    (off : ℕ) (before bs buf : Bytes)
    → off ≡ length before
    → length bs ≤ length buf
    → store off bs (before ++ buf) ≡ done (before ++ bs ++ drop (length bs) buf)
unfolding store
store-behind zero [] bs buf e h = store-front bs buf h
store-behind zero (x ∷ before) bs buf e h = absurd (omega arith)
store-behind (suc off) [] bs buf e h = absurd (omega arith)
store-behind (suc off) (x ∷ before) bs buf e h = rw (store-behind off before bs buf (omega arith) h)

pub store-beyond :
    (off : ℕ) (b : ℕ) (bs buf : Bytes)
    → length buf < off + length (b ∷ bs)
    → store off (b ∷ bs) buf ≡ fault
unfolding store
store-beyond zero b bs [] h = refl
store-beyond zero b [] (x ∷ buf) h = absurd (omega arith)
store-beyond zero b (c ∷ bs) (x ∷ buf) h = rw (store-beyond zero c bs buf (omega arith))
store-beyond (suc off) b bs [] h = refl
store-beyond (suc off) b bs (x ∷ buf) h = rw (store-beyond off b bs buf (omega arith))

pub fetch-inside :
    (off n : ℕ) (buf : Bytes)
    → off + n ≤ length buf
    → fetch off n buf ≡ done (take n (drop off buf))
unfolding fetch
fetch-inside off n buf h = rw (le→leb _ _ h)

pub fetch-outside : (off n : ℕ) (buf : Bytes) → length buf < off + n → fetch off n buf ≡ fault
unfolding fetch
fetch-outside off n buf h = rw (lt→leb _ _ h)

pub byte_at-behind :
    (i : ℕ) (before : Bytes) (x : ℕ) (rest : Bytes)
    → i ≡ length before
    → byte_at i (before ++ x ∷ rest) ≡ done x
unfolding byte_at
byte_at-behind zero [] x rest e = refl
byte_at-behind zero (y ∷ before) x rest e = absurd (omega arith)
byte_at-behind (suc i) [] x rest e = absurd (omega arith)
byte_at-behind (suc i) (y ∷ before) x rest e = byte_at-behind i before x rest (omega arith)

-- A part in the middle of a buffer is what a subspan there holds.
pub fetch-behind :
    (off n : ℕ) (before part rest : Bytes)
    → off ≡ length before
    → n ≡ length part
    → fetch off n (before ++ (part ++ rest)) ≡ done part
fetch-behind off n before part rest e f =
    fetch-inside off n (before ++ (part ++ rest)) fits
    ∙ ap (λ t. done (take n t)) (drop-append off before (part ++ rest) e)
    ∙ ap done (take-append n part rest f)
  where
    fits : off + n ≤ length (before ++ (part ++ rest))
    fits = rw (length-append, length-append) (omega arith)

-- A write behind a part of the span is a write to the rest of it.
pub store-past :
    (before bs buf out : Bytes)
    → store 0 bs buf ≡ done out
    → (off : ℕ) → off ≡ length before
    → store off bs (before ++ buf) ≡ done (before ++ out)
unfolding store
store-past [] bs buf out e zero h = e
store-past [] bs buf out e (suc off) h = absurd (omega arith)
store-past (x ∷ before) bs buf out e zero h = absurd (omega arith)
store-past (x ∷ before) bs buf out e (suc off) h =
    rw (store-past before bs buf out e off (omega arith))

-- Two steps that end well, with more to come.
pub bind_done {ℓ κ μ} :
    {A : Type ℓ} {B : Type κ} {C : Type μ} (m : Outcome A) (f : A → Outcome B) (g : B → Outcome C)
    {b : B}
    → (m >>= f) ≡ done b
    → (m >>= λ a. f a >>= g) ≡ g b
bind_done (done a) f g e = rw e
bind_done fault f g e = absurd (fault-ne-done e)

-- memcpy of a whole span.
pub fetch-whole : (n : ℕ) (value : Bytes) → length value ≡ n → fetch 0 n value ≡ done value
fetch-whole n value e = rw append-nil at (fetch-behind 0 n [] value [] refl (sym e))

pub bind_assoc {ℓ κ μ} :
    {A : Type ℓ} {B : Type κ} {C : Type μ} (m : Outcome A) (f : A → Outcome B) (g : B → Outcome C)
    → (m >>= λ a. f a >>= g) ≡ ((m >>= f) >>= g)
bind_assoc (done a) f g = refl
bind_assoc fault f g = refl

pub fetch_from-inside :
    (off : ℕ) (buf : Bytes) → off ≤ length buf → fetch_from off buf ≡ done (drop off buf)
unfolding fetch_from
fetch_from-inside off buf h = rw (le→leb off (length buf) h)

pub fetch_from-behind :
    (off : ℕ) (before rest : Bytes)
    → off ≡ length before
    → fetch_from off (before ++ rest) ≡ done rest
fetch_from-behind off before rest e =
    fetch_from-inside off (before ++ rest) (rw length-append (omega arith))
    ∙ ap done (drop-append off before rest e)
