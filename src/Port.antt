-- ===== src/Port.antt =====
-- src/kb/port_values.py, and the refusals of src/kb/port.py: what the storage port takes and gives.
-- Artifacts, kinds and types are named by their IRIs; `C` is the type of an artifact's content,
-- which an adapter keeps and never looks into.
use shopsystem_kb.Base.{
  ℕ, suc, String, Bool, Option, none, some, List, [], ◌∷◌, map, Eq, ◌==◌, string_eq, nat_eq,
  option_eq, if◌then◌else◌,
}
use shopsystem_kb.Base.Dict.{Dict, lookup, insert}

pub record Version : Type 0 where
  pub kind : String
  pub number : ℕ

pub record Link : Type 0 where
  pub field : String
  pub place : String
  pub target : String
  pub part : String
  pub kinds : List String
  pub implicit : Bool
  pub under : Option String
  pub waits : Bool
  pub holder : Option String
  pub imported : Bool

pub record Linking : Type 0 where
  pub source : String
  pub field : String
  pub place : String
  pub target : String
  pub part : String
  pub holder : Option String

-- What `told` tells a link by, but for how many before it are the same.
pub record Key : Type 0 where
  pub field : String
  pub holder : Option String
  pub target : String
  pub part : String

abbrev pub Told : Type 0
Told = Key × ℕ

pub key_dec : Discrete Key
key_dec = hlevel (string_eq.dec)

instance unfoldable pub key_eq : Eq Key
unfolding key_dec
key_eq = record { dec = key_dec }

pub told_dec : Discrete Told
told_dec = hlevel (string_eq.dec, nat_eq.dec)

instance unfoldable pub told_eq : Eq Told
unfolding told_dec
told_eq = record { dec = told_dec }

abbrev pub key_of_link : Link → Key
key_of_link l = record { field = l.field; holder = l.holder; target = l.target; part = l.part }

abbrev pub key_of_linking : Linking → Key
key_of_linking l = record { field = l.field; holder = l.holder; target = l.target; part = l.part }

-- `seen.get(key, -1) + 1`
abbrev pub next_of : Option ℕ → ℕ
next_of none = 0
next_of (some n) = suc n

-- What one link is told by: none for a link handed with no holder.
abbrev pub told_as : Key → ℕ → Option Told
told_as key n = elim (key.holder) [ none ↦ none | some holder ↦ some (key, n) ]

-- The loop of `told`, over the keys of the links, with what it has seen.
unfoldable pub told_from : Dict Key ℕ → List Key → List (Option Told)
told_from seen [] = []
told_from seen (key ∷ rest) =
    let n = next_of (lookup key seen) in told_as key n ∷ told_from (insert key n seen) rest

unfoldable pub told : List Key → List (Option Told)
unfolding told_from lookup insert
told keys = told_from [] keys

-- `frozenset(found) - {None}`
unfoldable pub somes : List (Option Told) → List Told
somes [] = []
somes (none ∷ rest) = somes rest
somes (some t ∷ rest) = t ∷ somes rest

unfoldable pub held_waiting : List Linking → List Told
unfolding told somes
held_waiting links = somes (told (map key_of_linking links))

pub record Versioned : Type 0 where
  pub version : Version
  pub title : String

pub record TypeVersion {ℓ} (C : Type ℓ) : Type ℓ where
  pub version : Version
  pub content : C
  pub revision : ℕ
  pub title : String

-- A row an artifact is found by: what it is, its label, its words.
pub record Row : Type 0 where
  pub what : String
  pub label : String
  pub words : String

-- A removal has no content; its kind, which it has none of, is the empty text.
pub record Change {ℓ} (C : Type ℓ) : Type ℓ where
  pub artifact : String
  pub content : Option C
  pub links : List Link
  pub parts : List String
  pub read : ℕ
  pub revision : ℕ
  pub through : List (String × ℕ)
  pub searched : List Row
  pub kind : String
  pub version : Option Versioned

pub data Op : Type 0 where
  remove create replace : Op

unfoldable pub op {ℓ} : {C : Type ℓ} → Change C → Op
op change = elim (change.content) [
  | none ↦ Op.remove
  | some _ ↦ if change.read == 0 then create else replace
]

-- An entry of the history; `R` is the type of its record.
pub record Entry {ℓ} (R : Type ℓ) : Type ℓ where
  pub id : String
  pub at : ℕ
  pub seq : ℕ
  pub record_of : R
  pub artifact : String
  pub role : String
  pub execution : String
  pub batch : String

-- Why a landing is refused. `constraint` is the database's own error on a value that is to be
-- unique, which `opened` passes on as `Unreadable`, and `misuse` the write lock asked for inside
-- reads at one moment.
pub data Refusal : Type 0 where
  conflict : Refusal
  unlanded : List Linking → Refusal
  linked : List Linking → Refusal
  constraint : Refusal
  misuse : Refusal
