-- ===== src/Types/Definitions.antt =====
-- src/kb/definitions.py: a type checked as it is written.
use shopsystem_kb.Base.{
  ℕ, suc, String, ◌<>◌, Bool, true, false, not, ◌&&◌, ◌||◌, Option, none, some, List, [], ◌∷◌, ◌++◌,
  ◌==◌, string_eq, option_eq, flat_map, if◌then◌else◌,
}
use shopsystem_kb.Base.Decimal.{decimal}
use shopsystem_kb.Content.{
  Key, named, other, Value, null, truth, whole, negative, real, text, items, fields, Values, nil,
  cons, Fields, end, entry, get, has,
}
use shopsystem_kb.Content.Keywords.{Standing, standing}
use shopsystem_kb.Requests.{Fault}
use shopsystem_kb.Refusals.Types
use shopsystem_kb.Types.Composition.{Corpus, reference, held}

abbrev step : Key → String
step (named k) = k
step (other k) = k

abbrev under : String → String → String
under place s = place <> ("/" <> s)

-- `_refs`
unfoldable mutual
  unfolding decimal

  pub refs : Value → String → List (String × String)
  refs (fields d) place = refs_in d place
  refs (items vs) place = refs_each vs 0 place
  refs null place = []
  refs (truth b) place = []
  refs (whole n) place = []
  refs (negative n) place = []
  refs (real s) place = []
  refs (text s) place = []

  pub refs_in : Fields → String → List (String × String)
  refs_in end place = []
  refs_in (entry k (text ref) d) place =
      let rest = refs_in d place in
      if step k == "$ref" then (under place "$ref", ref) ∷ rest else rest
  refs_in (entry k v d) place = refs v (under place (step k)) ++ refs_in d place

  pub refs_each : Values → ℕ → String → List (String × String)
  refs_each nil index place = []
  refs_each (cons v vs) index place =
      refs v (under place (decimal index)) ++ refs_each vs (suc index) place

-- The fault of one reference, at its place.
unfoldable pub shape_fault : Corpus → String → String × String → List Fault
unfolding reference held
shape_fault draft type_id (place, ref) = elim (reference ref) [
  | none ↦ []
  | some found ↦
      if found.type_id == some type_id && found.whole_type
      then Types.built_on_itself type_id place ∷ []
      else if not (held draft found)
      then Types.no_such_shape type_id place ∷ []
      else []
]

-- `_shapes`
unfoldable pub shapes : Corpus → String → Value → List Fault
unfolding refs shape_fault
shapes draft type_id schema = flat_map (shape_fault draft type_id) (refs schema "schema")

abbrev is_truth : Option Value → Bool
is_truth (some (truth b)) = true
is_truth _ = false

abbrev is_text_of : List String → Option Value → Bool
is_text_of allowed none = true
is_text_of [] (some v) = false
is_text_of (t ∷ ts) (some (text s)) = s == t || is_text_of ts (some (text s))
is_text_of (t ∷ ts) (some v) = false

-- `_left_out`, whether anything is.
unfoldable pub leaves_out : Fields → Bool
unfolding get has
leaves_out ref =
    not (has "cardinality" ref) || not (is_truth (get "parts" ref)) || not (has "on_delete" ref)

abbrev ref_of : Value → Fields
ref_of (fields d) = d
ref_of v = end

-- `_link_field`
unfoldable pub link_field : String → Standing → List Fault
unfolding leaves_out get has
link_field type_id kept =
    let ref = ref_of kept.value in
    (if leaves_out ref then Types.incomplete_link type_id kept.holder ∷ [] else [])
    ++ (if is_text_of ("one" ∷ "many" ∷ []) (get "cardinality" ref)
        then []
        else Types.unknown_reach type_id kept.holder ∷ [])
    ++ (if is_text_of ("refuse" ∷ []) (get "on_delete" ref)
        then []
        else Types.unknown_removal type_id kept.holder ∷ [])
    ++ (if has "targets" ref then [] else Types.no_targets type_id kept.holder ∷ [])

-- `_keyword`
unfoldable pub keyword : String → Standing → List Fault
unfolding link_field
keyword type_id kept =
    if not kept.read && kept.keyword == "ref"
    then Types.misplaced_link type_id kept.place ∷ []
    else if not kept.read
    then Types.misplaced type_id kept.place ∷ []
    else if kept.keyword == "ref"
    then link_field type_id kept
    else []

abbrev schema_of : Option Value → Value
schema_of none = null
schema_of (some v) = v

unfoldable pub faults : String → Fields → Corpus → List Fault
unfolding shapes keyword standing get
faults type_id content draft =
    let schema = schema_of (get "schema" content) in
    shapes draft type_id schema ++ flat_map (keyword type_id) (standing schema)
