-- ===== src/Import/Taking.antt =====
-- `_differing`, `_sound` and `_taken` of src/kb/importing.py: what an import takes of the files that were
-- examined, and whether it lands anything.
pub mod Found
use shopsystem_kb.Base.{
  String, Bool, true, false, not, ◌&&◌, Option, none, some, List, [], ◌∷◌, map, ◌==◌, contains,
  string_eq, filter, any, sorted, distinct, flat_map, if◌then◌else◌,
}
use shopsystem_kb.Base.Dict.{Dict, lookup}
use shopsystem_kb.Names
use shopsystem_kb.Requests.{Fault}
use shopsystem_kb.Import.Files.{Offered, name_of, iri_of, is_metaschema}
use shopsystem_kb.Import.Skipping.{Skipped}

-- The files that would be skipped.
abbrev pub skipped_files : List Skipped → List String
skipped_files skips = map (λ (skip : Skipped). skip.file) skips

unfoldable pub has_errors : Offered → Bool
has_errors each = elim (each.errors) [ [] ↦ false | _ ∷ _ ↦ true ]

unfoldable pub is_named : Offered → Bool
unfolding name_of
is_named each = elim (name_of each) [ none ↦ false | some _ ↦ true ]

-- `_sound`
unfoldable pub sound : List Offered → List Skipped → Bool
unfolding is_named has_errors
sound offered skips =
    any
      (λ (each : Offered).
        is_named each && not (has_errors each) && not (contains (skipped_files skips) each.file))
      offered

unfoldable pub is_taken : List Skipped → Offered → Bool
unfolding is_named is_metaschema has_errors
is_taken skips each =
    is_named each
    && not (is_metaschema each)
    && not (has_errors each)
    && not (contains (skipped_files skips) each.file)

-- `_taken`
unfoldable pub taken : List Offered → List Skipped → List Offered
unfolding is_taken
taken offered skips = filter (is_taken skips) offered

-- The IRIs that a fault says differ.
unfoldable pub differing_of : Offered → List String
unfolding iri_of
differing_of each =
    if any (λ (fault : Fault). fault.rule == "differs") each.errors
    then elim (iri_of each) [ none ↦ [] | some iri ↦ iri ∷ [] ]
    else []

-- `_differing`
unfoldable pub differing : List Offered → List String
unfolding differing_of Names.order_le
differing offered = sorted Names.order_le (distinct (flat_map differing_of offered))
