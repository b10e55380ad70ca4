-- ===== src/Adapter/Landing.antt =====
-- The landing of a set, of src/kb/sqlite_store.py: what one change writes, the checks before and
-- after, and the entries, under a savepoint and the write lock.
pub mod Rows
pub mod Loop
pub mod Links
pub mod Checked
pub mod Run
pub mod Integrity
pub mod Atomic
pub mod History
pub mod Through
pub mod Typed
use shopsystem_kb.Base.{
  ℕ, suc, ◌+◌, String, Bool, true, false, not, ◌&&◌, Option, none, some, List, [], ◌∷◌, ◌++◌, map,
  ◌==◌, contains, string_eq, option_eq, any, filter, distinct, length, enumerate, if◌then◌else◌,
}
use shopsystem_kb.Base.Dict.{set_default}
use shopsystem_kb.Names.{versioned}
use shopsystem_kb.Port.{Change, Link, Row, Entry, Versioned, constraint, misuse}
use shopsystem_kb.Adapter.Db.{
  Db, ArtifactRow, PartRow, LinkRow, SetRow, VersionRow, TypeVersionRow, SearchRow,
}
use shopsystem_kb.Adapter.Exec.{Exec, Result, ok, err, done, raise, read, write, ◌>>=◌, ◌>>◌}
use shopsystem_kb.Adapter.Reads.{parts_of}
use shopsystem_kb.Adapter.Checks.{Before, compared, unmoved, waited, integral, unheld}

abbrev pub link_row : String → ℕ × Link → LinkRow
link_row source (ordinal, link) = record {
  source = source;
  ordinal = ordinal;
  field = link.field;
  place = link.place;
  target = link.target;
  part = link.part;
  implicit = link.implicit;
  holder = link.holder;
}

abbrev search_row : String → String → ℕ × Row → SearchRow
search_row name kind (ordinal, row) = record {
  words = row.words;
  artifact = name;
  kind = kind;
  what = row.what;
  name = row.label;
  ordinal = ordinal;
}

abbrev pub links_left : {C : Type 0} → Change C → List Link
links_left change = elim (change.content) [ none ↦ [] | some _ ↦ change.links ]

-- `_linked`
unfoldable pub relinked : String → List Link → List LinkRow → List LinkRow
relinked artifact links rows =
    filter (λ (row : LinkRow). not (row.source == artifact)) rows
    ++ map (link_row artifact) (enumerate 0 links)

abbrev pub batch_of : {R : Type 0} → List (Entry R) → Option String
batch_of [] = none
batch_of (e ∷ es) = some e.batch

module _ {C R : Type 0} where
  -- What `_written` does for every change: an artifact's rows taken out, its links in place of
  -- those it held, and its version of that step.
  unfoldable pub cleared : Change C → ℕ → ℕ → Db C R → Db C R
  unfolding relinked
  cleared change landed step db =
      let name = change.artifact in
      record db {
        search = filter (λ (row : SearchRow). not (row.artifact == name)) db.search;
        parts = filter (λ (row : PartRow). not (row.artifact == name)) db.parts;
        artifacts = filter (λ (row : ArtifactRow C). not (row.id == name)) db.artifacts;
        links = relinked name (links_left change) db.links;
        versions =
            db.versions
            ++ record {
              artifact = name;
              landed = landed;
              step = step;
              revision = change.revision;
              content = change.content;
            }
              ∷ [];
      }

  -- What it does for a change that leaves content, but for the version of a type.
  unfoldable pub stored : Change C → C → Db C R → Db C R
  stored change content db =
      let name = change.artifact in
      record db {
        artifacts =
            db.artifacts
            ++ record {
              id = name;
              kind = change.kind;
              revision = change.revision;
              content = content;
            }
              ∷ [];
        parts =
            db.parts
            ++ map (λ place. record { artifact = name; place = place }) (distinct change.parts);
        search = db.search ++ map (search_row name change.kind) (enumerate 0 change.searched);
      }

  -- `sqlite_types.removed`
  unfoldable pub types_removed : String → Db C R → Db C R
  types_removed name db = record db {
    type_versions = filter (λ (row : TypeVersionRow C). not (row.type_id == name)) db.type_versions;
  }

  -- `sqlite_types.made`; the version's IRI is the table's key.
  unfoldable pub type_made : String → Versioned → ℕ → C → Exec (Db C R) Unit
  unfolding versioned
  type_made name made revision content db =
      let id = versioned made.version.kind made.version.number in
      if any (λ (row : TypeVersionRow C). row.id == id) db.type_versions
      then raise constraint db
      else done tt (record db {
        type_versions =
            db.type_versions
            ++ record {
              id = id;
              type_id = name;
              number = made.version.number;
              revision = revision;
              title = made.title;
              content = content;
            }
              ∷ [];
      })

  -- `_written`
  unfoldable pub written : Change C → ℕ → ℕ → Exec (Db C R) Unit
  unfolding cleared stored types_removed type_made
  written change landed step db = elim (change.content) [
    | none ↦ done tt (types_removed change.artifact (cleared change landed step db))
    | some content ↦
        let left = stored change content (cleared change landed step db) in
        elim (change.version) [
          | none ↦ done tt left
          | some made ↦ type_made change.artifact made change.revision content left
        ]
  ]

  -- The loop of `land` over the changes, with the step and what it found before.
  unfoldable pub write_all : ℕ → ℕ → Before → List (Change C) → Exec (Db C R) Before
  unfolding written compared parts_of set_default
  write_all landed step before [] = done before
  write_all landed step before (c ∷ cs) = do
    held ← compared c.artifact c.read
    parts ← read (λ db. parts_of db c.artifact)
    written c landed step
    write_all landed (suc step) (set_default c.artifact (held, distinct parts) before) cs

  -- The row of a set, under its batch, which no other set may have.
  unfoldable pub new_set : Option String → Exec (Db C R) ℕ
  new_set batch db =
      let seq = length db.sets + 1 in
      if any (λ (row : SetRow). not (batch == none) && row.batch == batch) db.sets
      then raise constraint db
      else done seq (record db { sets = db.sets ++ record { seq = seq; batch = batch } ∷ [] })

  -- `_recorded`
  unfoldable pub recorded : List (Entry R) → Exec (Db C R) Unit
  recorded entries = write (λ db. record db { entries = db.entries ++ entries })

  -- The block of `land`, from the first check to the entries.
  unfoldable pub landing : List (Change C) → List (Entry R) → Exec (Db C R) Unit
  unfolding unheld new_set unmoved waited write_all integral recorded
  landing changes entries = do
    unheld entries
    landed ← new_set (batch_of entries)
    unmoved changes
    waits ← read (waited changes)
    before ← write_all landed 0 [] changes
    integral changes before waits
    recorded entries

  -- `_saved`: the savepoint is rolled back when the block raises.
  unfoldable pub saved : Exec (Db C R) Unit → Exec (Db C R) Unit
  saved block db = elim ((block db).0) [ ok _ ↦ (ok tt, (block db).1) | err e ↦ (err e, db) ]

-- A connection: the tables as they were last committed, and as its transaction leaves them.
pub record Connection (C R : Type 0) : Type 0 where
  pub committed : Db C R
  pub working : Db C R
  pub in_transaction : Bool
  pub locked : Bool

module _ {C R : Type 0} where
  -- `exclusive`: the write lock taken for the block, committed when it ends and rolled back when it
  -- raises; a block inside one that holds it runs within the outer block.
  unfoldable pub exclusive : Exec (Connection C R) Unit → Exec (Connection C R) Unit
  exclusive block conn =
      if conn.locked
      then block conn
      else if conn.in_transaction
      then raise misuse conn
      else (let begun = record conn { in_transaction = true; locked = true } in
          let after = (block begun).1 in
          elim ((block begun).0) [
            | ok _ ↦ (
              ok tt,
              record after { committed = after.working; in_transaction = false; locked = false },
            )
            | err e ↦ (
              err e,
              record after { working = after.committed; in_transaction = false; locked = false },
            )
          ])

  -- Statements run on the tables as the transaction leaves them.
  abbrev pub on_working : Exec (Db C R) Unit → Exec (Connection C R) Unit
  on_working block conn = ((block conn.working).0, record conn { working = (block conn.working).1 })

  unfoldable pub land : List (Change C) → List (Entry R) → Exec (Connection C R) Unit
  unfolding exclusive saved landing
  land changes entries = exclusive (on_working (saved (landing changes entries)))
