-- ===== src/Requests/Values.antt =====
-- src/kb/values.py: every value that a request carries, converted or refused.
use shopsystem_kb.Base.{
  ℕ, String, Bool, true, false, not, ◌&&◌, Option, none, some, List, [], ◌∷◌, ◌++◌, ◌==◌, string_eq,
  nat_eq, all, if◌then◌else◌,
}
use shopsystem_kb.Names
use shopsystem_kb.Port.{Version}
use shopsystem_kb.Requests.{Fault, Outcome, converted, refused, ◌>>=◌}

pub record Locator : Type 0 where
  pub id : String
  pub place : List String

-- The contract's locator, as a request carries it.
pub record Asked : Type 0 where
  pub id : String
  pub place : String

abbrev pub locator_rule : String
locator_rule = "locator"

unfoldable pub kind : String → Outcome String
unfolding Names.iri
kind text =
    if Names.iri text
    then converted text
    else refused (record { artifact = ""; place = ""; rule = locator_rule } ∷ [])

unfoldable pub below : String → Outcome (List String)
unfolding Names.path
below text = elim (Names.path text) [
  | none ↦ refused (record { artifact = ""; place = ""; rule = locator_rule } ∷ [])
  | some segments ↦ converted segments
]

unfoldable pub artifact_id : String → Outcome String
unfolding Names.iri
artifact_id text =
    if Names.iri text
    then converted text
    else refused (record { artifact = text; place = ""; rule = locator_rule } ∷ [])

unfoldable pub version : String → Outcome Version
unfolding Names.version
version text = elim (Names.version text) [
  | none ↦ refused (record { artifact = text; place = ""; rule = locator_rule } ∷ [])
  | some (k, n) ↦ converted (record { kind = k; number = n })
]

unfoldable pub named : String → Outcome (Option Version)
unfolding version
named text = if text == "" then converted none else version text >>= λ v. converted (some v)

-- `_located`: the faults of the name, then that of the place.
abbrev located_with : Outcome String → Bool → Fault → List String → Outcome Locator
located_with (converted id) true fault place = converted (record { id = id; place = place })
located_with (converted id) false fault place = refused (fault ∷ [])
located_with (refused fs) true fault place = refused fs
located_with (refused fs) false fault place = refused (fs ++ fault ∷ [])

unfoldable pub located : String → String → Outcome Locator
unfolding artifact_id Names.steps Names.plain
located name path =
    located_with (artifact_id name) (all Names.plain (Names.steps path))
      (record { artifact = name; place = path; rule = locator_rule }) (Names.steps path)

-- Whether a name reads as a part's IRI.
unfoldable pub is_part : String × String → Bool
unfolding Names.iri Names.steps Names.plain
is_part (name, part) = not (part == "") && Names.iri name && all Names.plain (Names.steps part)

-- `locator`, with the request's name read as a link.
unfoldable pub locator_by : Asked → String × String → Outcome Locator
unfolding located is_part
locator_by request linked =
    if not (is_part linked)
    then located request.id request.place
    else if not (request.place == "")
    then refused (record { artifact = request.id; place = request.place; rule = locator_rule } ∷ [])
    else located linked.0 linked.1

unfoldable pub locator : Asked → Outcome Locator
unfolding locator_by Names.linked
locator request = locator_by request (Names.linked request.id)

unfoldable pub read : Asked → Outcome (Locator × Option Version)
unfolding locator located Names.version
read request = elim (Names.version request.id) [
  | none ↦ locator request >>= λ l. converted (l, none)
  | some (k, n) ↦
      located k request.place >>= λ l. converted (l, some (record { kind = k; number = n }))
]

unfoldable pub target : String → Outcome Locator
unfolding located Names.linked
target text = let linked = Names.linked text in located linked.0 linked.1

-- The faults of a title.
unfoldable pub titled : String → String → List Fault
titled title iri =
    if title == "" then record { artifact = iri; place = "title"; rule = "title" } ∷ [] else []

unfoldable pub expected : ℕ → Option ℕ
expected revision = if revision == 0 then none else some revision
