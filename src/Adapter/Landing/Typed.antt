-- ===== src/Adapter/Landing/Typed.antt =====
-- Every artifact of a store has its type there: kb's own link to the type lands.
use shopsystem_kb.Base.{String, ◌≡◌, true, Option, some, List, string_eq, In}
use shopsystem_kb.Port.{Change, Link, Entry}
use shopsystem_kb.Adapter.Db.{Db, LinkRow, ArtifactRow}
use shopsystem_kb.Adapter.Reads.{row_of}
use shopsystem_kb.Adapter.Landing.Run.{Landed}

-- A store where every artifact has kb's own link to the artifact of its type.
pub record IsTyped {C R : Type 0} (db : Db C R) : Type 0 where
  pub own_link :
      (a : String) (row : ArtifactRow C)
      → row_of db a ≡ some row
      → (link : LinkRow) × In link db.links
        × (link.source ≡ a)
        × (link.implicit ≡ true)
        × (link.target ≡ row.kind)

-- Changes that hand, with each artifact that they leave, kb's own link to its type.
abbrev pub HandsTypes : {C : Type 0} → List (Change C) → Type 0
HandsTypes {C} cs =
    (c : Change C)
    → In c cs
    → (content : C) → c.content ≡ some content
    → (link : Link) × In link c.links × (link.implicit ≡ true) × (link.target ≡ c.kind)

module _ {C R : Type 0} (changes : List (Change C)) (entries : List (Entry R)) (db db' : Db C R)
    (l : Landed changes entries db db') where
  abbrev OwnLink : String → ArtifactRow C → Type 0
  OwnLink a row =
      (link : LinkRow) × In link db'.links
      × (link.source ≡ a)
      × (link.implicit ≡ true)
      × (link.target ≡ row.kind)
