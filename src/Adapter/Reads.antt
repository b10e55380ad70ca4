-- ===== src/Adapter/Reads.antt =====
-- src/kb/sqlite_reads.py: what the port reads, each answered by statements over the tables.
use shopsystem_kb.Base.{
  ℕ, String, Bool, true, false, not, ◌&&◌, ◌||◌, Option, none, some, List, [], ◌∷◌, map, ◌==◌,
  string_eq, nat_eq, leb, any, filter, sorted, if◌then◌else◌,
}
use shopsystem_kb.Names.{order_le}
use shopsystem_kb.Port.{Linking, Entry}
use shopsystem_kb.Adapter.Db.{Db, ArtifactRow, PartRow, LinkRow}

abbrev pub linking : LinkRow → Linking
linking row = record {
  source = row.source;
  field = row.field;
  place = row.place;
  target = row.target;
  part = row.part;
  holder = row.holder;
}

-- The first of the rows that a test takes.
abbrev pub first : {A : Type 0} → (A → Bool) → List A → Option A
first p [] = none
first p (x ∷ xs) = if p x then some x else first p xs

module _ {C R : Type 0} (db : Db C R) where
  unfoldable pub row_of : String → Option (ArtifactRow C)
  row_of id = first (λ (row : ArtifactRow C). row.id == id) db.artifacts

  unfoldable pub holds : String → Bool
  unfolding row_of
  holds id = elim (row_of id) [ none ↦ false | some row ↦ true ]

  -- The revision an artifact stands at; 0 when it is not held.
  unfoldable pub revision_of : String → ℕ
  unfolding row_of
  revision_of id = elim (row_of id) [ none ↦ 0 | some row ↦ row.revision ]

  unfoldable pub parts_of : String → List String
  parts_of id = map (λ (row : PartRow). row.place) (filter (λ row. row.artifact == id) db.parts)

  -- Whether `parts` holds a row of an artifact at a place.
  unfoldable pub holds_place : String → String → Bool
  holds_place id place = any (λ (row : PartRow). row.artifact == id && row.place == place) db.parts

  -- `WAITING`: a link that is not implicit and lands on nothing held.
  unfoldable pub is_waiting : LinkRow → Bool
  unfolding holds holds_place
  is_waiting row =
      not row.implicit
      && (not (holds row.target) || not (row.part == "") && not (holds_place row.target row.part))

  -- The rows of links in the order of their targets, then of their sources, then as they stand.
  abbrev waiting_le : LinkRow → LinkRow → Bool
  waiting_le a b =
      if a.target == b.target
      then (if a.source == b.source then leb a.ordinal b.ordinal else order_le a.source b.source)
      else order_le a.target b.target

  unfoldable pub waiting : List Linking
  unfolding is_waiting sorted order_le
  waiting = map linking (sorted waiting_le (filter is_waiting db.links))

  -- `waiting`, given a source.
  unfoldable pub waiting_from : String → List Linking
  unfolding is_waiting sorted order_le
  waiting_from source =
      map linking
        (sorted waiting_le (filter (λ row. is_waiting row && row.source == source) db.links))

  abbrev source_le : LinkRow → LinkRow → Bool
  source_le a b =
      if a.source == b.source then leb a.ordinal b.ordinal else order_le a.source b.source

  -- `_links_into`, with the implicit links or without them.
  unfoldable pub links_into : Bool → String → List Linking
  unfolding sorted order_le
  links_into implicit id = map linking (
      sorted source_le
        (filter (λ row. row.target == id && (implicit || not row.implicit)) db.links))

  unfoldable pub entry_ids : ℕ → List String
  entry_ids at = map (λ (e : Entry R). e.id) (filter (λ (e : Entry R). e.at == at) db.entries)
