-- ===== src/Content/Keywords.antt =====
-- src/kb/keywords.py: every place where one of kb's own keywords stands in a type's schema, and
-- whether kb reads it there. What each keyword's value holds is walked once for each way it can be
-- read, and the key says which; a key that is no text is none of them.
use shopsystem_kb.Base.{
  ℕ, suc, String, ◌<>◌, Bool, ◌&&◌, List, [], ◌∷◌, ◌++◌, ◌==◌, contains, string_eq, if◌then◌else◌,
}
use shopsystem_kb.Base.Decimal.{decimal}
use shopsystem_kb.Content.{
  Key, named, other, Value, null, truth, whole, negative, real, text, items, fields, Values, nil,
  cons, Fields, end, entry, is_key,
}

-- Where a schema stands.
pub data Where : Type 0 where
  top items_top field elsewhere : Where

pub record Standing : Type 0 where
  pub keyword : String
  pub place : String
  pub holder : String
  pub read : Bool
  pub value : Value

-- `OWN`
abbrev pub own : List String
own = "ref" ∷ "parts" ∷ "sections" ∷ "summary" ∷ []

-- `_READ`
abbrev pub read_at : Where → List String
read_at top = "parts" ∷ "summary" ∷ "sections" ∷ []
read_at items_top = "parts" ∷ []
read_at field = "ref" ∷ []
read_at elsewhere = []

abbrev pub one_schema : List String
one_schema =
    "items" ∷ "additionalProperties" ∷ "contains" ∷ "not" ∷ "if" ∷ "then" ∷ "else" ∷ "propertyNames"
    ∷ "unevaluatedItems" ∷ "unevaluatedProperties" ∷ "contentSchema" ∷ []

abbrev pub each_schema : List String
each_schema = "prefixItems" ∷ "anyOf" ∷ "oneOf" ∷ []

abbrev pub named_schemas : List String
named_schemas = "$defs" ∷ "definitions" ∷ "patternProperties" ∷ "dependentSchemas" ∷ []

-- A schema at one of the tops stays there in an `allOf`, and its fields are read there.
abbrev pub top_of : Where → Where
top_of top = top
top_of items_top = items_top
top_of field = elsewhere
top_of elsewhere = elsewhere

abbrev pub field_of : Where → Where
field_of top = field
field_of items_top = field
field_of field = elsewhere
field_of elsewhere = elsewhere

-- How `_inside` walks a keyword's value.
pub data Way : Type 0 where
  one : Where → Way
  each : Where → Way
  each_named : Where → Way
  not_walked : Way

unfoldable pub way : String → Where → Way
way key at =
    if key == "allOf"
    then each (top_of at)
    else if key == "properties"
    then each_named (field_of at)
    else if contains one_schema key
    then one elsewhere
    else if contains each_schema key
    then each elsewhere
    else if contains named_schemas key
    then each_named elsewhere
    else not_walked

abbrev under : String → String → String
under place step = place <> ("/" <> step)

abbrev key_text : Key → String
key_text (named k) = k
key_text (other k) = k

unfoldable mutual
  unfolding way decimal

  pub walk_entries : Fields → String → Where → List Standing
  walk_entries end place at = []
  walk_entries (entry (other k) v d) place at = walk_entries d place at
  walk_entries (entry (named k) v d) place at =
      let here = under place k in
      let read = contains (read_at at) k in
      let inside = walk_value v here (way k at) in
      let inner = collections v here in
      let rest = walk_entries d place at in
      if contains own k
      then record { keyword = k; place = here; holder = place; read = read; value = v }
        ∷ ((if k == "parts" && read then inner else []) ++ rest)
      else inside ++ rest

  -- `_walk` of a schema and `_inside` of a keyword's value, by the way it is walked.
  pub walk_value : Value → String → Way → List Standing
  walk_value (fields d) place (one at) = walk_entries d place at
  walk_value (fields d) place (each_named at) = walk_named d place at
  walk_value (fields d) place w = []
  walk_value (items vs) place (each at) = walk_list vs 0 place at
  walk_value (items vs) place w = []
  walk_value null place w = []
  walk_value (truth b) place w = []
  walk_value (whole n) place w = []
  walk_value (negative n) place w = []
  walk_value (real s) place w = []
  walk_value (text s) place w = []

  pub walk_list : Values → ℕ → String → Where → List Standing
  walk_list nil index place at = []
  walk_list (cons v vs) index place at =
      walk_value v (under place (decimal index)) (one at) ++ walk_list vs (suc index) place at

  pub walk_named : Fields → String → Where → List Standing
  walk_named end place at = []
  walk_named (entry k v d) place at =
      walk_value v (under place (key_text k)) (one at) ++ walk_named d place at

  -- `_collections`
  pub collections : Value → String → List Standing
  collections (fields d) place = each_collection d place
  collections null place = []
  collections (truth b) place = []
  collections (whole n) place = []
  collections (negative n) place = []
  collections (real s) place = []
  collections (text s) place = []
  collections (items vs) place = []

  pub each_collection : Fields → String → List Standing
  each_collection end place = []
  each_collection (entry k v d) place =
      collection v (under place (key_text k)) ++ each_collection d place

  -- A collection's items, read at their top.
  pub collection : Value → String → List Standing
  collection (fields d) place = items_of d place
  collection null place = []
  collection (truth b) place = []
  collection (whole n) place = []
  collection (negative n) place = []
  collection (real s) place = []
  collection (text s) place = []
  collection (items vs) place = []

  pub items_of : Fields → String → List Standing
  items_of end place = []
  items_of (entry k v d) place =
      let here = walk_value v (under place "items") (one items_top) in
      let rest = items_of d place in if is_key "items" k then here else rest

unfoldable pub standing : Value → List Standing
unfolding walk_value
standing schema = walk_value schema "schema" (one top)
