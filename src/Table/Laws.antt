-- ===== src/Table/Laws.antt =====
-- `get`, `get_all` and `range` agree, and what they answer for the headers that were appended.
use libstunxx.Common.{
  ℕ, zero, suc, ◌≡◌, ◌≢◌, refl, sym, ap, ◌∙◌, inl, inr, Option, none, some, List, [], ◌∷◌, ◌++◌,
  arith, ◌==◌, ==_refl, ==_iff, false, All, Bool-cases, replicate, append_assoc, append-nil,
}
use libstunxx.Table.{
  AttrHeader, AttributeTable, blank, new_table, append_header, find_header, get, collect, get_all,
  keep, range,
}

abbrev pub first : List AttrHeader → Option AttrHeader
first [] = none
first (h ∷ hs) = some h

collect-keep : (type : ℕ) (hs out : List AttrHeader) → collect type hs out ≡ out ++ keep type hs
unfolding collect keep
collect-keep type [] out = sym (append-nil out)
collect-keep type (h ∷ hs) out = elim (Bool-cases (h.type == type)) [
  | inl e ↦ rw e (collect-keep type hs (out ++ h ∷ []) ∙ append_assoc out (h ∷ []) (keep type hs))
  | inr e ↦ rw e (collect-keep type hs out)
]

find_header-keep : (type : ℕ) (hs : List AttrHeader) → find_header type hs ≡ first (keep type hs)
unfolding find_header keep
find_header-keep type [] = refl
find_header-keep type (h ∷ hs) = ground (arith, find_header-keep type hs)

-- The headers of a type among others, in their order.
pub data Picks (type : ℕ) : List AttrHeader → List AttrHeader → Type 0 where
  nothing : Picks type [] []
  pass :
      {h : AttrHeader} {hs picked : List AttrHeader}
      → h.type ≢ type
      → Picks type hs picked
      → Picks type (h ∷ hs) picked
  pick :
      {h : AttrHeader} {hs picked : List AttrHeader}
      → h.type ≡ type
      → Picks type hs picked
      → Picks type (h ∷ hs) (h ∷ picked)

other_type : (a b : ℕ) → a ≢ b → (a == b) ≡ false
other_type a b ne = ground arith

keep-Picks : {type : ℕ} {hs picked : List AttrHeader} → Picks type hs picked → keep type hs ≡ picked
unfolding keep
keep-Picks nothing = refl
keep-Picks {type} (pass {h} ne ps) = rw (other_type h.type type ne) (keep-Picks ps)
keep-Picks {type} (pick {h} e ps) =
    rw ((==_iff h.type type).1 e) (ap (λ hs. h ∷ hs) (keep-Picks ps))

append-Picks :
    {type : ℕ} (before : List AttrHeader) {hs picked : List AttrHeader}
    → All (λ (h : AttrHeader). h.type ≢ type) before
    → Picks type hs picked
    → Picks type (before ++ hs) picked
append-Picks [] all ps = ps
append-Picks (h ∷ before) (ne, all) ps = pass ne (append-Picks before all ps)

abbrev pub append_all : AttributeTable → List AttrHeader → AttributeTable
append_all t [] = t
append_all t (h ∷ hs) = append_all (append_header t h) hs

pub append_all-attributes :
    (t : AttributeTable) (hs : List AttrHeader) → (append_all t hs).attributes ≡ t.attributes ++ hs
unfolding append_header
append_all-attributes t [] = sym (append-nil t.attributes)
append_all-attributes t (h ∷ hs) =
    append_all-attributes (append_header t h) hs ∙ append_assoc t.attributes (h ∷ []) hs

find_header-skip :
    (type : ℕ) (before rest : List AttrHeader)
    → All (λ h. h.type ≢ type) before
    → find_header type (before ++ rest) ≡ find_header type rest
unfolding find_header
find_header-skip type [] rest a = refl
find_header-skip type (h ∷ before) rest (ne, a) =
    ground (arith, find_header-skip type before rest a)

blanks_skip : (type n : ℕ) → type ≢ 0 → All (λ (h : AttrHeader). h.type ≢ type) (replicate n blank)
blanks_skip type zero ne = tt
blanks_skip type (suc n) ne = (λ e. ne (sym e), blanks_skip type n ne)

find_header-here :
    (h : AttrHeader) (after : List AttrHeader) → find_header h.type (h ∷ after) ≡ some h
unfolding find_header
find_header-here h after = rw (==_refl h.type)

-- A table that was fresh before the headers were appended answers, for a type other than 0, with
-- the first of the headers that has the type: the ten blank headers do not get in the way.
pub get-append_all :
    (before : List AttrHeader) (h : AttrHeader) (after : List AttrHeader)
    → h.type ≢ 0
    → All (λ (g : AttrHeader). g.type ≢ h.type) before
    → get (append_all new_table (before ++ h ∷ after)) h.type ≡ some h
unfolding get new_table
get-append_all before h after ne a =
    ap (find_header h.type) (append_all-attributes new_table (before ++ h ∷ after))
    ∙ find_header-skip h.type (replicate 10 blank) (before ++ h ∷ after) (blanks_skip h.type 10 ne)
    ∙ find_header-skip h.type before (h ∷ after) a
    ∙ find_header-here h after

-- A type other than 0 that no appended header has is not found in a table that was fresh before.
pub get-append_all-none :
    (type : ℕ) (hs : List AttrHeader)
    → type ≢ 0
    → All (λ (g : AttrHeader). g.type ≢ type) hs
    → get (append_all new_table hs) type ≡ none
unfolding get new_table find_header
get-append_all-none type hs ne a =
    ap (find_header type) (append_all-attributes new_table hs)
    ∙ find_header-skip type (replicate 10 blank) hs (blanks_skip type 10 ne)
    ∙ ap (find_header type) (sym (append-nil hs))
    ∙ find_header-skip type hs [] a

-- A table that was fresh before some headers were appended answers, for a type other than 0, in both
-- ways of listing them, the appended headers of that type, all of them and in their order, and none of
-- the ten blank ones; and `get` answers the first of these, or nothing if there is none.
pub queries-Picks :
    (type : ℕ) (hs picked : List AttrHeader)
    → type ≢ 0
    → Picks type hs picked
    → (get_all (append_all new_table hs) type ≡ picked)
      × (range (append_all new_table hs) type ≡ picked)
      × (get (append_all new_table hs) type ≡ first picked)
unfolding get get_all range new_table
queries-Picks type hs picked ne ps = (
  ap (λ xs. collect type xs []) (append_all-attributes new_table hs)
      ∙ collect-keep type (replicate 10 blank ++ hs) []
      ∙ kept,
  ap (keep type) (append_all-attributes new_table hs) ∙ kept,
  ap (find_header type) (append_all-attributes new_table hs)
      ∙ find_header-keep type (replicate 10 blank ++ hs)
      ∙ ap first kept,
)
  where
    kept : keep type (replicate 10 blank ++ hs) ≡ picked
    kept = keep-Picks (append-Picks (replicate 10 blank) (blanks_skip type 10 ne) ps)

-- Whatever headers are appended, a table that was fresh before answers a query for the type 0 with a
-- blank header: the constructor makes ten headers, where it means to reserve room for ten.
pub get_zero-finds_blank : (hs : List AttrHeader) → get (append_all new_table hs) 0 ≡ some blank
unfolding get new_table find_header
get_zero-finds_blank hs = ap (find_header 0) (append_all-attributes new_table hs)

pub get-attributes :
    {t u : AttributeTable} (type : ℕ) → t.attributes ≡ u.attributes → get t type ≡ get u type
unfolding get
get-attributes type e = ap (find_header type) e
