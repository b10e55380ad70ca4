-- ===== src/Requests/Reading.antt =====
-- src/kb/requests.py: the requests that change nothing. A time is read by the `datetime` library,
-- which is a parameter, `T` the type of a moment.
use shopsystem_kb.Base.{
  ℕ, String, Bool, false, not, ◌&&◌, Option, none, some, List, [], ◌∷◌, ◌++◌, map, ◌==◌, string_eq,
  if◌then◌else◌,
}
use shopsystem_kb.Port.{Version}
use shopsystem_kb.Requests.{Fault, Outcome, converted, refused, ◌>>=◌}
use shopsystem_kb.Requests.Values.{Locator, Asked, kind, below, artifact_id, locator, read}
use shopsystem_kb.Requests.Signatures.{Signature, Signed, reader}
use shopsystem_kb.Requests.Changes.{Standing, each}

-- The level of a read that a request asks for.
pub data Level : Type 0 where
  summary : Level
  whole : ℕ → Level
  section : String → Level

pub record Reading : Type 0 where
  pub locator : Locator
  pub level : Level
  pub version : Option Version

abbrev level_or : Option Level → Level
level_or none = summary
level_or (some l) = l

unfoldable pub reading : Asked → Option Level → Outcome Reading
unfolding read
reading asked level = read asked >>= λ (found : Locator × Option Version).
    converted (record { locator = found.0; level = level_or level; version = found.1 })

-- `_converted`: the value of a text that is given, or always, and the faults it adds.
unfoldable pub given : {A : Type 0} → (String → Outcome A) → Bool → String → Option A × List Fault
given convert always text =
    if text == "" && not always
    then (none, [])
    else elim (convert text) [ converted a ↦ (some a, []) | refused fs ↦ (none, fs) ]

-- Refused with the faults found, when there are any.
abbrev unless_any : {A : Type 0} → List Fault → A → Outcome A
unless_any [] a = converted a
unless_any (f ∷ fs) a = refused (f ∷ fs)

pub record Walk : Type 0 where
  pub locator : Locator
  pub kind : Option String
  pub depth : ℕ
  pub via : String
  pub inward : Bool
  pub path : Option (List String)

unfoldable pub following : Asked → String → String → ℕ → String → Bool → Outcome Walk
unfolding locator given kind below
following asked kind_text path_text depth via inward =
    let found_kind = given kind false kind_text in
    let found_path = given below false path_text in
    let others = found_kind.1 ++ found_path.1 in
    elim (locator asked) [
      | refused fs ↦ refused (fs ++ others)
      | converted l ↦ unless_any others (record {
        locator = l;
        kind = found_kind.0;
        depth = depth;
        via = via;
        inward = inward;
        path = found_path.0;
      })
    ]

-- A kind and a path below the type, each when it is given; a listing by neither is refused for its
-- kind.
unfoldable pub listing : String → String → Outcome (Option String × Option (List String))
unfolding given kind below
listing kind_text path_text =
    let found_kind = given kind (path_text == "") kind_text in
    let found_path = given below false path_text in
    unless_any (found_kind.1 ++ found_path.1) (found_kind.0, found_path.0)

unfoldable pub exporting : String → String → Outcome (Option String × Option (List String))
unfolding given kind below
exporting kind_text path_text =
    let found_kind = given kind false kind_text in
    let found_path = given below false path_text in
    unless_any (found_kind.1 ++ found_path.1) (found_kind.0, found_path.0)

-- The kind a search is narrowed to.
unfoldable pub searching : String → Outcome (Option String)
unfolding kind
searching text = if text == "" then converted none else kind text >>= λ k. converted (some k)

unfoldable pub history :
    {T : Type 0} → (String → Outcome T) → String → String → Outcome (Option String × Option T)
unfolding given artifact_id
history since artifact_text since_text =
    let found = given artifact_id false artifact_text in
    let moment = given since false since_text in
    unless_any (found.1 ++ moment.1) (found.0, moment.0)

-- `_names`
unfoldable pub names : List String → List (Standing String)
unfolding each artifact_id
names requested = each (map artifact_id requested)

unfoldable pub snapshot : Signature → List String → Outcome (List (Standing String) × Signed)
unfolding reader names
snapshot signature requested = reader signature >>= λ by. converted (names requested, by)
