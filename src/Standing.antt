-- ===== src/Standing.antt =====
-- src/kb/standing.py: what settles a type's place, and the IRIs at which a type could be defined nearer
-- to what a set makes or links to.
pub mod Nearer
pub mod Landed
pub mod Removal
use shopsystem_kb.Base.{
  first_uses, ℕ, String, Bool, true, false, not, ◌&&◌, ◌||◌, Option, none, some, List, [], ◌∷◌,
  ◌++◌, map, ◌==◌, contains, string_eq, nat_eq, filter, any, sorted, distinct, flat_map,
  if◌then◌else◌,
}
use shopsystem_kb.Names
use shopsystem_kb.Port
use shopsystem_kb.Port.{Linking}
use shopsystem_kb.Content.{Fields}
use shopsystem_kb.Types.Composition.{nearest_type, nearest_was}
use shopsystem_kb.Types.Declared.{Composed, made, ◌>>=◌}
use shopsystem_kb.Draft.{Store, Draft, ids, holds, changed, corpus_of}
use shopsystem_kb.Draft.Linked.{waiting}

-- The start of a list, up to where an entry first stands.
unfoldable pub until : String → List String → List String
until t [] = []
until t (x ∷ xs) = let rest = until t xs in if t == x then [] else x ∷ rest

-- `_between`
unfoldable pub between : String → String → List String
unfolding until Names.above
between artifact_id type_id =
    if contains (Names.above artifact_id) type_id
    then until type_id (Names.above artifact_id)
    else []

-- The IRIs between the target of a link and the type that it was found under.
unfoldable pub link_open : Port.Link → List String
unfolding between
link_open link = elim (link.under) [
  | none ↦ []
  | some type_id ↦ if link.implicit then [] else between link.target type_id
]

-- `made`, in `_open`.
unfoldable pub is_made : Port.Change Fields → Bool
is_made change = change.read == 0 && not (change.kind == Names.types)

-- `_open`
unfoldable pub open_at : Port.Change Fields → List String
unfolding between link_open is_made first_uses
open_at change = elim (change.content) [
  | none ↦ []
  | some _ ↦ first_uses [] (
      (if is_made change then between change.artifact change.kind else [])
      ++ flat_map link_open change.links)
]

module _ (store : Store) (draft : Draft) where
  -- The IRIs of `_open` that the set leaves alone.
  unfoldable pub gap_of : Port.Change Fields → List String
  unfolding open_at changed
  gap_of change = filter (λ each. not (changed each draft)) (open_at change)

  unfoldable pub guarded_one : Port.Change Fields → Port.Change Fields
  unfolding gap_of holds
  guarded_one change = record change {
    through =
        change.through
        ++ map (λ each. (each, 0)) (filter (λ each. not (holds store each draft)) (gap_of change));
  }

  unfoldable pub guarded : List (Port.Change Fields) → List (Port.Change Fields) × Bool
  unfolding guarded_one gap_of holds
  guarded handed =
      (map guarded_one handed, any (λ each. holds store each draft) (flat_map gap_of handed))

  -- What sits under an IRI that a type would be defined at and belongs to another.
  unfoldable pub sitting : ℕ → String → String → Composed (List String)
  unfolding waiting nearest_was corpus_of ids Names.above Names.order_le
  sitting fuel type_id other = waiting store fuel draft >>= λ links. made (
      let kept = if other == Names.types then [] else ids store other draft in
      let held = filter (λ each. contains (Names.above each) type_id) kept in
      let own = if other == Names.types then [] else type_id ∷ [] in
      let waited =
        filter (λ target. contains own target || nearest_was (corpus_of store draft) target type_id)
          (map (λ (each : Linking). each.target) links) in
      sorted Names.order_le (distinct (held ++ waited)))

  unfoldable pub under : ℕ → String → Composed (Option String × List String)
  unfolding nearest_type corpus_of sitting
  under fuel type_id = elim (nearest_type (corpus_of store draft) type_id) [
    | none ↦ made (none, [])
    | some other ↦ sitting fuel type_id other >>= λ found. made (some other, found)
  ]
