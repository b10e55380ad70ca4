-- ===== src/Import/Files.antt =====
-- The files offered for import, as src/kb/offers.py gives them, and of src/kb/skipping.py the files
-- that a file is read through. A file's `number`, which is that of the version in its name, is kept
-- with the IRI that its place is read as.
use shopsystem_kb.Base.{
  first_uses, ℕ, String, Bool, true, false, not, ◌&&◌, Option, none, some, List, [], ◌∷◌, ◌++◌, map,
  ◌==◌, contains, string_eq, option_eq, filter, if◌then◌else◌,
}
use shopsystem_kb.Base.Dict.{Dict, lookup, insert}
use shopsystem_kb.Base.{flat_map}
use shopsystem_kb.Names
use shopsystem_kb.Port.{Version}
use shopsystem_kb.Content.{Fields, get}
use shopsystem_kb.Content.Offers.{named, id_of}
use shopsystem_kb.Requests.{Fault}
use shopsystem_kb.Types.Composition.{Reference, references, conforming}

pub record Offered : Type 0 where
  pub file : String
  -- What `names.filed` reads the file's place as: an IRI, and a type version's number.
  pub filed : Option (String × Option ℕ)
  pub artifact : Option Fields
  pub errors : List Fault

unfoldable pub name_of : Offered → Option String
unfolding named
name_of each = elim (each.filed) [ none ↦ none | some at ↦ some (named at) ]

unfoldable pub iri_of : Offered → Option String
unfolding id_of
iri_of each = elim (each.filed) [ none ↦ none | some at ↦ id_of at ]

-- `Offered.number`
unfoldable pub number_of : Offered → Option ℕ
number_of each = elim (each.filed) [ none ↦ none | some (_, number) ↦ number ]

-- `Offered.typed`
unfoldable pub is_typed : Offered → Bool
unfolding number_of
is_typed each = elim (number_of each) [ none ↦ false | some _ ↦ true ]

-- `METASCHEMA_ID`
unfoldable pub is_metaschema : Offered → Bool
unfolding iri_of
is_metaschema each = iri_of each == some Names.types

-- `{each.name: each for each in offered if each.name is not None}`
unfoldable pub by_name_of : List Offered → Dict String Offered → Dict String Offered
unfolding name_of insert
by_name_of [] d = d
by_name_of (each ∷ rest) d =
    by_name_of rest (elim (name_of each) [ none ↦ d | some name ↦ insert name each d ])

-- `str(version)`
abbrev version_name : Option Version → List String
version_name none = []
version_name (some v) = Names.versioned v.kind v.number ∷ []

abbrev reference_name : Reference → List String
reference_name r = elim (r.type_id) [ none ↦ [] | some t ↦ Names.versioned t r.number ∷ [] ]

-- The names of the type versions that an artifact is read through: its own, and with a type those
-- that its schema refers to.
unfoldable pub read_names : Bool → Fields → List String
unfolding conforming references get Names.versioned
read_names typed artifact =
    version_name (conforming artifact)
    ++ (if typed
        then elim (get "schema" artifact) [
          | none ↦ []
          | some schema ↦ flat_map reference_name (references schema)
        ]
        else [])

module _ (by_name : Dict String Offered) where
  -- Whether the directory brings a file of a name, that is not the store's own type of types.
  unfoldable pub brings : String → Bool
  unfolding lookup is_metaschema
  brings name = elim (lookup name by_name) [ none ↦ false | some each ↦ not (is_metaschema each) ]

  unfoldable pub beneath : Offered → List String
  unfolding first_uses read_names is_typed brings
  beneath each = elim (each.artifact) [
    | none ↦ []
    | some artifact ↦ filter brings (first_uses [] (read_names (is_typed each) artifact))
  ]

  -- `files[name]`, for a name that the directory brings.
  unfoldable pub file_at : String → List String
  unfolding lookup
  file_at name = elim (lookup name by_name) [ none ↦ [] | some each ↦ each.file ∷ [] ]

  -- Whether a file is one that `_read_through` gives: of a name that the directory brings, and not
  -- among the files with an error.
  unfoldable pub is_sound : List String → Offered → Bool
  unfolding name_of brings
  is_sound broken each =
      elim (name_of each) [ none ↦ false | some name ↦ brings name ]
      && not (contains broken each.file)

  unfoldable pub read_through_from : List Offered → Dict String (List String)
  unfolding beneath file_at insert
  read_through_from [] = []
  read_through_from (each ∷ rest) =
      (each.file, flat_map file_at (beneath each)) ∷ read_through_from rest

-- The files with an error.
unfoldable pub broken_of : List Offered → List String
broken_of offered =
    map (λ (each : Offered). each.file)
      (filter (λ (each : Offered). elim (each.errors) [ [] ↦ false | _ ∷ _ ↦ true ]) offered)

-- `_read_through`, beside the files with an error.
unfoldable pub read_through : List Offered → Dict String Offered → Dict String (List String)
unfolding broken_of is_sound read_through_from
read_through offered by_name =
    read_through_from by_name (filter (is_sound by_name (broken_of offered)) offered)
