-- ===== src/Adapter/Landing/Run.antt =====
-- A landing that is refused nothing, step by step: what it began from, its loop, and its checks.
use mathlib.Core.Path.{subst}
use shopsystem_kb.Base.{
  ℕ, String, ◌≡◌, sym, ap, ◌∙◌, Option, List, [], ◌∷◌, ◌++◌, map, ◌==◌, string_eq, nat_eq, filter,
  arith,
}
use shopsystem_kb.Base.Dict.{Dict}
use shopsystem_kb.Port.{Change, Entry, Told}
use shopsystem_kb.Adapter.Db.{Db, LinkRow, ArtifactRow, PartRow}
use shopsystem_kb.Adapter.Exec.{Gives, Gives-bind, read, ◌>>=◌, ◌>>◌, Result, ok}
use shopsystem_kb.Adapter.Reads.{row_of, parts_of, first}
use shopsystem_kb.Adapter.Checks.{
  Before, unheld, unmoved, waited, nowhere, cut, integral, unmoved_all, compared,
}
use shopsystem_kb.Adapter.Landing.{new_set, write_all, recorded, landing, batch_of}
use shopsystem_kb.Adapter.Landing.Rows.{row_left, link_rows_left, links_of, parts_left}
use shopsystem_kb.Adapter.Landing.Loop.{
  overlay, row_of-write_all, parts_of-write_all, links_of-write_all, compared-ok,
}
use shopsystem_kb.Adapter.Landing.Checked.{integral-ok}

module _ {C R : Type 0} where
  -- What a landing that is not refused has gone through, between the tables it found and left.
  pub record Landed (changes : List (Change C)) (entries : List (Entry R)) (db db' : Db C R)
      : Type 0 where
    pub started : Db C R
    pub same_artifacts : started.artifacts ≡ db.artifacts
    pub same_parts : started.parts ≡ db.parts
    pub same_links : started.links ≡ db.links
    pub same_entries : started.entries ≡ db.entries
    pub same_versions : started.versions ≡ db.versions
    pub unheld_first : Gives (unheld entries) db tt db
    pub unmoved_first : Gives (unmoved changes) started tt started
    pub landed : ℕ
    pub before : Before
    pub written : Db C R
    pub loop : Gives (write_all landed 0 [] changes) started before written
    pub lost : nowhere written changes (waited changes started) ≡ []
    pub uncut : cut written changes before ≡ []
    pub result : db' ≡ record written { entries = written.entries ++ entries }

  unheld-ok :
      (entries : List (Entry R)) (db : Db C R) {u : Unit {0}} {db' : Db C R}
      → Gives (unheld entries) db u db'
      → db' ≡ db
  unfolding unheld
  unheld-ok entries db h = ground arith

  new_set-ok :
      (batch : Option String) (db : Db C R) {n : ℕ} {db' : Db C R}
      → Gives (new_set batch) db n db'
      → (db'.artifacts ≡ db.artifacts)
        × (db'.parts ≡ db.parts)
        × (db'.links ≡ db.links)
        × (db'.entries ≡ db.entries)
        × (db'.versions ≡ db.versions)
  unfolding new_set
  new_set-ok batch db h = ground arith

  unmoved_all-ok :
      (pairs : List (String × ℕ)) (db : Db C R) {u : Unit {0}} {db' : Db C R}
      → Gives (unmoved_all {C = C} pairs) db u db'
      → db' ≡ db
  unfolding unmoved_all
  unmoved_all-ok [] db h = ground arith
  unmoved_all-ok ((a, n) ∷ rest) db h =
      let (held, db₁, h₁, k₁) = Gives-bind (compared a n) (λ _. unmoved_all rest) db h in
      unmoved_all-ok rest db₁ k₁ ∙ (compared-ok a n db h₁).0

  unmoved-ok :
      (changes : List (Change C)) (db : Db C R) {u : Unit {0}} {db' : Db C R}
      → Gives (unmoved changes) db u db'
      → db' ≡ db
  unfolding unmoved
  unmoved-ok changes db h = unmoved_all-ok _ db h

  pub landing-Landed :
      (changes : List (Change C)) (entries : List (Entry R)) (db : Db C R) {db' : Db C R}
      → Gives (landing changes entries) db tt db'
      → Landed changes entries db db'
  unfolding landing
  landing-Landed changes entries db {db'} h =
      let finish = λ (waits : Dict String (List Told)) (before : Before). (do
        integral {R = R} changes before waits
        recorded entries) in
      let loop = λ (landed : ℕ) (waits : Dict String (List Told)). (do
        before ← write_all landed 0 [] changes
        finish waits before) in
      let (_, db₁, h₁, k₁) =
        Gives-bind (unheld entries)
          (λ _. do
            landed ← new_set (batch_of entries)
            unmoved changes
            waits ← read (waited changes)
            loop landed waits)
          db h in
      let (landed, db₂, h₂, k₂) =
        Gives-bind (new_set (batch_of entries))
          (λ landed. do unmoved changes; waits ← read (waited changes); loop landed waits) db₁ k₁ in
      let (_, db₃, h₃, k₃) =
        Gives-bind (unmoved changes) (λ _. do waits ← read (waited changes); loop landed waits) db₂
          k₂ in
      let waits = waited changes db₃ in
      let (before, db₄, h₄, k₄) =
        Gives-bind (write_all landed 0 [] changes) (finish waits) db₃ k₃ in
      let (_, db₅, h₅, k₅) =
        Gives-bind (integral changes before waits) (λ _. recorded entries) db₄ k₄ in
      let (same, lost, uncut) = integral-ok changes before waits db₄ h₅ in
      let (a, b, c, d, e) = new_set-ok (batch_of entries) db₁ h₂ in
      let e₁ = unheld-ok entries db h₁ in
      let e₃ = unmoved-ok changes db₂ h₃ in
      record {
        started = db₃;
        same_artifacts =
            ap (λ (d : Db C R). d.artifacts) e₃ ∙ a ∙ ap (λ (d : Db C R). d.artifacts) e₁;
        same_parts = ap (λ (d : Db C R). d.parts) e₃ ∙ b ∙ ap (λ (d : Db C R). d.parts) e₁;
        same_links = ap (λ (d : Db C R). d.links) e₃ ∙ c ∙ ap (λ (d : Db C R). d.links) e₁;
        same_entries = ap (λ (d : Db C R). d.entries) e₃ ∙ d ∙ ap (λ (d : Db C R). d.entries) e₁;
        same_versions = ap (λ (d : Db C R). d.versions) e₃ ∙ e ∙ ap (λ (d : Db C R). d.versions) e₁;
        unheld_first = h₁ ∙ ap (λ (d : Db C R). (ok tt, d)) e₁;
        unmoved_first = subst (λ d. Gives (unmoved changes) d tt db₃) (sym e₃) h₃;
        landed = landed;
        before = before;
        written = db₄;
        loop = h₄;
        lost = lost;
        uncut = uncut;
        result =
            ap (λ (r : Result (Unit {0}) × Db C R). r.1) (sym k₅)
            ∙ ap (λ (d : Db C R). record d { entries = d.entries ++ entries }) same;
      }

  -- After the landing every read of an artifact is that of the last change made to it, and of an
  -- artifact that no change names what it was.
  module _ (changes : List (Change C)) (entries : List (Entry R)) (db db' : Db C R)
      (l : Landed changes entries db db') (a : String) where
    pub row_of-started : row_of l.started a ≡ row_of db a
    unfolding row_of
    row_of-started = ap (λ rows. first (λ (row : ArtifactRow C). row.id == a) rows) l.same_artifacts

    pub row_of-Landed : row_of db' a ≡ overlay row_left a (row_of db a) changes
    unfolding row_of
    row_of-Landed =
        let mine = λ (row : ArtifactRow C). row.id == a in
        ap (λ (d : Db C R). first mine d.artifacts) l.result
        ∙ row_of-write_all l.landed 0 [] changes l.started l.loop a
        ∙ ap (λ rows. overlay row_left a (first mine rows) changes) l.same_artifacts

    pub parts_of-Landed : parts_of db' a ≡ overlay parts_left a (parts_of db a) changes
    unfolding parts_of
    parts_of-Landed =
        let places = λ (rows : List PartRow).
          map (λ (row : PartRow). row.place) (filter (λ (row : PartRow). row.artifact == a) rows) in
        ap (λ (d : Db C R). places d.parts) l.result
        ∙ parts_of-write_all l.landed 0 [] changes l.started l.loop a
        ∙ ap (λ rows. overlay parts_left a (places rows) changes) l.same_parts

    pub links_of-Landed : links_of db' a ≡ overlay link_rows_left a (links_of db a) changes
    links_of-Landed =
        let mine = λ (rows : List LinkRow). filter (λ (row : LinkRow). row.source == a) rows in
        ap (λ (d : Db C R). mine d.links) l.result
        ∙ links_of-write_all l.landed 0 [] changes l.started l.loop a
        ∙ ap (λ rows. overlay link_rows_left a (mine rows) changes) l.same_links
