-- ===== src/Adapter/Db.antt =====
-- The tables of src/kb/sqlite_store.py and src/kb/sqlite_types.py. A table is the list of its rows
-- in the order they were inserted; `C` is content as it is kept, and `R` an entry's record. An
-- entry's landing number is its place in the list, since no entry is ever deleted.
use shopsystem_kb.Base.{ℕ, String, Bool, Option, List, []}
use shopsystem_kb.Port.{Entry}

pub record ArtifactRow (C : Type 0) : Type 0 where
  pub id : String
  pub kind : String
  pub revision : ℕ
  pub content : C

pub record PartRow : Type 0 where
  pub artifact : String
  pub place : String

pub record LinkRow : Type 0 where
  pub source : String
  pub ordinal : ℕ
  pub field : String
  pub place : String
  pub target : String
  pub part : String
  pub implicit : Bool
  pub holder : Option String

pub record SetRow : Type 0 where
  pub seq : ℕ
  pub batch : Option String

pub record VersionRow (C : Type 0) : Type 0 where
  pub artifact : String
  pub landed : ℕ
  pub step : ℕ
  pub revision : ℕ
  pub content : Option C

pub record TypeVersionRow (C : Type 0) : Type 0 where
  pub id : String
  pub type_id : String
  pub number : ℕ
  pub revision : ℕ
  pub title : String
  pub content : C

-- A row of the full-text table, with the artifact that `searched` finds it by.
pub record SearchRow : Type 0 where
  pub words : String
  pub artifact : String
  pub kind : String
  pub what : String
  pub name : String
  pub ordinal : ℕ

pub record Db (C R : Type 0) : Type 0 where
  pub artifacts : List (ArtifactRow C)
  pub parts : List PartRow
  pub links : List LinkRow
  pub sets : List SetRow
  pub versions : List (VersionRow C)
  pub entries : List (Entry R)
  pub search : List SearchRow
  pub type_versions : List (TypeVersionRow C)

-- A database as `make` leaves it.
abbrev pub empty : {C R : Type 0} → Db C R
empty = record {
  artifacts = [];
  parts = [];
  links = [];
  sets = [];
  versions = [];
  entries = [];
  search = [];
  type_versions = [];
}
