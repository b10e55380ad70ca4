-- ===== src/Draft/Linked.antt =====
-- The links that a draft leaves: `links_in`, `waiting`, `_put` and `_own` of src/kb/draft.py. What
-- these keep of the types that they read is left out.
use shopsystem_kb.Base.{
  ℕ, String, not, Option, none, some, List, [], ◌∷◌, ◌++◌, map, ◌==◌, contains, string_eq, filter,
  sorted, if◌then◌else◌,
}
use shopsystem_kb.Base.Dict.{Dict}
use shopsystem_kb.Names
use shopsystem_kb.Port
use shopsystem_kb.Port.{Linking}
use shopsystem_kb.Content.{Fields}
use shopsystem_kb.Types.Composition.{conforming, kept}
use shopsystem_kb.Types.Declared.{Composed, made, unread, ◌>>=◌}
use shopsystem_kb.Links.Handed.{handed}
use shopsystem_kb.Draft.{Store, Draft, holds, changed, corpus_of}

-- A link of an artifact, as the store would hold it.
abbrev pub linking_of : String → Port.Link → Linking
linking_of source link = record {
  source = source;
  field = link.field;
  place = link.place;
  target = link.target;
  part = link.part;
  holder = link.holder;
}

-- `_by_source`
unfoldable pub by_source : List Linking → List Linking
unfolding Names.order_le
by_source found = sorted (λ (a b : Linking). Names.order_le a.source b.source) found

module _ (store : Store) (fuel : ℕ) (draft : Draft) where
  -- `_own`; none where the draft keeps no such version.
  unfoldable pub own : Fields → Composed (Option Fields)
  unfolding conforming kept corpus_of
  own artifact = elim (conforming artifact) [
    | none ↦ unread
    | some version ↦ made (kept (corpus_of store draft) version.kind version.number)
  ]

  -- The links of one artifact that the draft put.
  unfoldable pub links_of : String → Fields → Composed (List Linking)
  unfolding own handed corpus_of
  links_of source artifact = own artifact >>= λ found. elim found [
    | none ↦ made []
    | some typed ↦ handed (corpus_of store draft) fuel artifact typed [] >>= λ links.
        made (map (linking_of source) (filter (λ (link : Port.Link). not link.implicit) links))
  ]

  -- The loop of `_put`, over the artifacts that the draft put.
  unfoldable pub put_from : Dict String Fields → Composed (List Linking)
  unfolding links_of
  put_from [] = made []
  put_from ((source, artifact) ∷ rest) =
      if contains draft.removed source
      then put_from rest
      else links_of source artifact >>= λ found. put_from rest >>= λ more. made (found ++ more)

  -- `_put`
  unfoldable pub put_links : Composed (List Linking)
  unfolding put_from
  put_links = put_from draft.pending

  -- What the store holds of the artifacts that the draft left alone.
  unfoldable pub unchanged : List Linking → List Linking
  unfolding changed
  unchanged found = filter (λ (each : Linking). not (changed each.source draft)) found

  unfoldable pub links_in : String → Composed (List Linking)
  unfolding put_links unchanged
  links_in target = put_links >>= λ here. made (
      by_source (
        unchanged (store.links_in target)
        ++ filter (λ (each : Linking). each.target == target) here))

  unfoldable pub waiting : Composed (List Linking)
  unfolding put_links unchanged holds
  waiting = put_links >>= λ here. made (
      by_source (
        filter (λ (each : Linking). not (holds store each.target draft))
          (unchanged store.waiting ++ here)))
