-- ===== src/Table.antt =====
-- include/stunxx/attributes/AttributeTable.hpp, src/AttributeTable.cpp: the headers of the
-- attributes of a message, in the order in which they were found.
pub mod Laws
use libstunxx.Common.{ℕ, Option, none, some, List, [], ◌∷◌, ◌++◌, ◌==◌, if◌then◌else◌, replicate}

pub record AttrHeader : Type 0 where
  pub type : ℕ
  pub len : ℕ
  pub offset : ℕ

pub record AttributeTable : Type 0 where
  pub attributes : List AttrHeader

-- A value-initialised header.
abbrev pub blank : AttrHeader
blank = record { type = 0; len = 0; offset = 0 }

-- `attributes_(10)` is ten value-initialised headers.
unfoldable pub new_table : AttributeTable
new_table = record { attributes = replicate 10 blank }

unfoldable pub append_header : AttributeTable → AttrHeader → AttributeTable
append_header t header = record t { attributes = t.attributes ++ header ∷ [] }

-- append(type, length, offset)
unfoldable pub append : AttributeTable → ℕ → ℕ → ℕ → AttributeTable
unfolding append_header
append t type length offset =
    append_header t (record { type = type; len = length; offset = offset })

pub find_header : ℕ → List AttrHeader → Option AttrHeader
find_header type [] = none
find_header type (h ∷ hs) = if h.type == type then some h else find_header type hs

unfoldable pub get : AttributeTable → ℕ → Option AttrHeader
unfolding find_header
get t type = find_header type t.attributes

pub collect : ℕ → List AttrHeader → List AttrHeader → List AttrHeader
collect type [] results = results
collect type (h ∷ hs) results =
    collect type hs (if h.type == type then results ++ h ∷ [] else results)

unfoldable pub get_all : AttributeTable → ℕ → List AttrHeader
unfolding collect
get_all t type = collect type t.attributes []

-- views::filter
unfoldable pub keep : ℕ → List AttrHeader → List AttrHeader
keep type [] = []
keep type (h ∷ hs) = let rest = keep type hs in if h.type == type then h ∷ rest else rest

unfoldable pub range : AttributeTable → ℕ → List AttrHeader
unfolding keep
range t type = keep type t.attributes

unfoldable pub clear : AttributeTable → AttributeTable
clear t = record t { attributes = [] }
