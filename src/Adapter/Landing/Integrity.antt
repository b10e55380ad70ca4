-- ===== src/Adapter/Landing/Integrity.antt =====
-- What a landed set leaves true of the whole store.
use mathlib.Core.Path.{subst}
use mathlib.Core.Option.{some-injective, none-ne-some}
use shopsystem_kb.Base.{
  ◌<◌, String, ◌≡◌, refl, sym, ap, ◌∙◌, true, false, Option, none, some, List, [], map, ◌==◌,
  contains-distinct, contains, string_eq, nat_eq, ==_refl, filter, enumerate, In, In-filter,
  In-filter_of, arith, Bool-cases, inl, inr,
}
use shopsystem_kb.Base.Dict.{lookup}
use shopsystem_kb.Port.{Change, Link, Entry, Told}
use shopsystem_kb.Adapter.Db.{Db, LinkRow, ArtifactRow, PartRow}
use shopsystem_kb.Adapter.Exec.{Gives}
use shopsystem_kb.Adapter.Reads.{row_of, holds, revision_of, parts_of}
use shopsystem_kb.Adapter.Checks.{last_from, waited, lands, last_changes}
use shopsystem_kb.Adapter.Landing.{landing, link_row, enumerate}
use shopsystem_kb.Adapter.Landing.Rows.{row_left, parts_left, link_rows_left, links_of, parts_left}
use shopsystem_kb.Adapter.Landing.Loop.{revision_of-row_of, changed, before_found, overlay}
use shopsystem_kb.Adapter.Landing.Links.{overlay-cases, overlay-unchanged, contains-last_from}
use shopsystem_kb.Adapter.Landing.Run.{
  row_of-started, Landed, landing-Landed, row_of-Landed, parts_of-Landed, links_of-Landed,
}
use shopsystem_kb.Adapter.Landing.Checked.{lands_of_nowhere, kept_of_cut}

-- A store whose rows fit together.
pub record IsIntact {C R : Type 0} (db : Db C R) : Type 0 where
  -- kb's own links land on artifacts that are held.
  pub typed : (row : LinkRow) → In row db.links → row.implicit ≡ true → holds db row.target ≡ true
  -- Only artifacts that are held have links.
  pub owned : (row : LinkRow) → In row db.links → holds db row.source ≡ true
  -- What is held stands at a revision of 1 or above.
  pub numbered : (a : String) → holds db a ≡ true → 0 < revision_of db a

-- Changes that leave their artifacts at a revision of 1 or above.
abbrev pub IsNumbered : {C : Type 0} → List (Change C) → Type 0
IsNumbered cs = (c : _) → In c cs → 0 < c.revision

holds_congr :
    {C R : Type 0} (d d' : Db C R) (a : String) → row_of d a ≡ row_of d' a → holds d a ≡ holds d' a
unfolding holds
holds_congr d d' a e = rw (e, holds)

revision_congr :
    {C R : Type 0} (d d' : Db C R) (a : String)
    → row_of d a ≡ row_of d' a
    → revision_of d a ≡ revision_of d' a
unfolding revision_of
revision_congr d d' a e = rw (e, revision_of)

-- A link of kb's own that lands, lands on an artifact that is held.
lands-implicit :
    {C R : Type 0} (db : Db C R) (link : Link) (as_told : Option Told) (waits : List Told)
    → link.implicit ≡ true
    → lands db link as_told waits ≡ true
    → holds db link.target ≡ true
unfolding lands holds
lands-implicit db link as_told waits own h = ground arith

link_rows_left-row_left :
    {C : Type 0} (c : Change C) (row : LinkRow)
    → In row (link_rows_left c)
    → (left : ArtifactRow C) × (row_left c ≡ some left)
link_rows_left-row_left {C} c row m = go (c.content) refl m
  where
    go :
        (o : Option C)
        → c.content ≡ o
        → In row (map (link_row c.artifact) (enumerate 0 (elim o [ none ↦ [] | some _ ↦ c.links ])))
        → (left : ArtifactRow C) × (row_left c ≡ some left)
    go none e h = absurd h.1
    go (some content) e h =
        (record { id = c.artifact; kind = c.kind; revision = c.revision; content = content }, rw e)

-- What a change that leaves an artifact leaves is the revision of the change.
row_left-revision :
    {C : Type 0} (c : Change C) (left : ArtifactRow C)
    → row_left c ≡ some left
    → left.revision ≡ c.revision
row_left-revision {C} c left e = ground arith

holds_of_row :
    {C R : Type 0} (db : Db C R) (a : String) (row : ArtifactRow C)
    → row_of db a ≡ some row
    → holds db a ≡ true
unfolding holds
holds_of_row db a row e = rw (e, holds)

row_of-holds :
    {C R : Type 0} (db : Db C R) (a : String)
    → holds db a ≡ true
    → (row : ArtifactRow C) × (row_of db a ≡ some row) × (revision_of db a ≡ row.revision)
unfolding holds revision_of
row_of-holds {C} db a h = go (row_of db a) refl
  where
    go :
        (o : Option (ArtifactRow C))
        → row_of db a ≡ o
        → (row : ArtifactRow C) × (row_of db a ≡ some row) × (revision_of db a ≡ row.revision)
    go none e = absurd (cc (rw (e, holds) at h))
    go (some row) e = (row, e, rw (e, revision_of))

module _ {C R : Type 0} (changes : List (Change C)) (entries : List (Entry R)) (db db' : Db C R)
    (l : Landed changes entries db db') (ok_before : IsIntact db) where
  holds-written : (a : String) → holds db' a ≡ holds l.written a
  unfolding row_of
  holds-written a = holds_congr db' l.written a (ap (λ (d : Db C R). row_of d a) l.result)

  holds-unchanged : (a : String) → contains (changed changes) a ≡ false → holds db' a ≡ holds db a
  holds-unchanged a h =
      holds_congr db' db a
        (row_of-Landed changes entries db db' l a ∙ overlay-unchanged row_left a _ changes h)

  parts-unchanged :
      (a : String) → contains (changed changes) a ≡ false → parts_of db' a ≡ parts_of db a
  parts-unchanged a h =
      parts_of-Landed changes entries db db' l a ∙ overlay-unchanged parts_left a _ changes h

  parts_of-started : (a : String) → parts_of l.started a ≡ parts_of db a
  unfolding parts_of
  parts_of-started a =
      ap
        (λ (rows : List PartRow).
          map (λ (row : PartRow). row.place) (filter (λ (row : PartRow). row.artifact == a) rows))
        l.same_parts

  parts_of-written : (a : String) → parts_of db' a ≡ parts_of l.written a
  unfolding parts_of
  parts_of-written a = ap (λ (d : Db C R). parts_of d a) l.result

  -- A link of an artifact outside the set keeps what it landed on: the artifact, and the part.
  pub kept_target :
      (row : LinkRow)
      → In row db'.links
      → contains (changed changes) row.source ≡ false
      → holds db row.target ≡ true
      → (holds db' row.target ≡ true)
        × (contains (parts_of db row.target) row.part ≡ true
            → contains (parts_of db' row.target) row.part ≡ true)
  unfolding lookup last_changes last_from
  kept_target row m outside held = elim (Bool-cases (contains (changed changes) row.target)) [
    | inr untouched ↦ (
      holds-unchanged row.target untouched ∙ held,
      λ had. ap (λ ps. contains ps row.part) (parts-unchanged row.target untouched) ∙ had,
    )
    | inl touched ↦
        let target = row.target in
        let found = before_found l.landed 0 [] changes l.started l.loop target refl touched in
        let stands =
          subst (λ n. 0 < n)
            (sym (
              revision_of-row_of l.started db target
                (row_of-started changes entries db db' l target)))
            (ok_before.numbered target held) in
        let (still, parts) =
          kept_of_cut changes l.before (waited changes l.started) l.written l.uncut row _ _ found
            stands (subst (λ (d : Db C R). In row d.links) l.result m)
            (contains-last_from row.source [] changes ∙ outside) in
        (
          holds-written target ∙ still,
          λ had.
              ap (λ ps. contains ps row.part) (parts_of-written target)
              ∙ parts (
                  contains-distinct row.part (parts_of l.started target)
                  ∙ ap (λ ps. contains ps row.part) (parts_of-started target)
                  ∙ had),
        )
  ]

  -- A link that its artifact's last change hands is held: its source is, and, when it is the
  -- artifact's link to its type, so is its target.
  given_lands :
      (row : LinkRow) (c : Change C)
      → lookup row.source (last_changes changes) ≡ some c
      → In row (link_rows_left c)
      → row.implicit ≡ true
      → holds db' row.target ≡ true
  given_lands row c at m own =
      let (link, as_told, (n, e), lands_there) =
        lands_of_nowhere changes l.before (waited changes l.started) l.written l.lost row.source c
          row at m in
      ap (λ (r : LinkRow). holds db' r.target) e
      ∙ holds-written link.target
      ∙ lands-implicit l.written link as_told _ (sym (ap (λ (r : LinkRow). r.implicit) e) ∙ own)
          lands_there

  links_source : (row : LinkRow) → In row db'.links → In row (links_of db' row.source)
  links_source row m = In-filter_of _ row db'.links m (==_refl row.source)

  typed_after :
      (row : LinkRow) → In row db'.links → row.implicit ≡ true → holds db' row.target ≡ true
  unfolding last_changes
  typed_after row m own =
      let held =
        subst (λ rows. In row rows) (links_of-Landed changes entries db db' l row.source)
          (links_source row m) in
      elim (overlay-cases link_rows_left row.source (links_of db row.source) changes) [
        | inl u ↦
            let (before, _) = In-filter _ row db.links (subst (λ rows. In row rows) u.kept held) in
            (kept_target row m u.absent (ok_before.typed row before own)).0
        | inr g ↦ given_lands row g.change g.at (subst (λ rows. In row rows) g.left held) own
      ]

  owned_after : (row : LinkRow) → In row db'.links → holds db' row.source ≡ true
  unfolding lookup
  owned_after row m =
      let a = row.source in
      let held =
        subst (λ rows. In row rows) (links_of-Landed changes entries db db' l a)
          (links_source row m) in
      elim (overlay-cases link_rows_left a (links_of db a) changes) [
        | inl u ↦
            let (before, _) = In-filter _ row db.links (subst (λ rows. In row rows) u.kept held) in
            holds-unchanged a u.absent ∙ ok_before.owned row before
        | inr g ↦ elim (overlay-cases row_left a (row_of db a) changes) [
          | inl u ↦ absurd (none-ne-some g.change (sym u.found ∙ g.at))
          | inr k ↦
              let (left, e) =
                link_rows_left-row_left g.change row (subst (λ rows. In row rows) g.left held) in
              holds_of_row db' a left (
                row_of-Landed changes entries db db' l a
                ∙ k.left
                ∙ ap row_left (some-injective _ _ (sym k.at ∙ g.at))
                ∙ e)
        ]
      ]

  numbered_after : IsNumbered changes → (a : String) → holds db' a ≡ true → 0 < revision_of db' a
  numbered_after numbered a h =
      let (row, at, stands) = row_of-holds db' a h in
      let left = sym (row_of-Landed changes entries db db' l a) ∙ at in
      elim (overlay-cases row_left a (row_of db a) changes) [
        | inl u ↦
            subst (λ n. 0 < n) (sym (revision_congr db' db a (at ∙ sym (sym u.kept ∙ left))))
              (ok_before.numbered a (holds_of_row db a row (sym u.kept ∙ left)))
        | inr k ↦
            subst (λ n. 0 < n) (sym (stands ∙ row_left-revision k.change row (sym k.left ∙ left)))
              (numbered k.change k.member)
      ]

module _ {C R : Type 0} (changes : List (Change C)) (entries : List (Entry R))
    (db db' : Db C R) where
  -- A landing that is refused nothing, of changes that leave revisions of 1 or above, keeps the
  -- store intact: only held artifacts have links, every link of kb's own lands on a held artifact, and
  -- every held artifact stands at a revision of 1 or above.
  pub landing-IsIntact :
      IsIntact db → IsNumbered changes → Gives (landing changes entries) db tt db' → IsIntact db'
  landing-IsIntact intact numbered h =
      let l = landing-Landed changes entries db h in
      record {
        typed = typed_after changes entries db db' l intact;
        owned = owned_after changes entries db db' l intact;
        numbered = numbered_after changes entries db db' l intact numbered;
      }

  -- In an intact store, a landing that is refused nothing takes nothing from under the links of the
  -- artifacts it does not change: what such a link landed on before, an artifact or a part of one,
  -- is held after.
  pub landing-kept :
      IsIntact db
      → Gives (landing changes entries) db tt db'
      → (row : LinkRow) → In row db'.links
      → contains (changed changes) row.source ≡ false
      → holds db row.target ≡ true
      → (holds db' row.target ≡ true)
        × (contains (parts_of db row.target) row.part ≡ true
            → contains (parts_of db' row.target) row.part ≡ true)
  landing-kept intact h =
      kept_target changes entries db db' (landing-Landed changes entries db h) intact

  -- A landing that is refused nothing leaves every read of an artifact (its row, its parts and its
  -- links) as the last change made to it leaves it, and that of an artifact that no change names as
  -- it was.
  pub landing-reads :
      Gives (landing changes entries) db tt db'
      → (a : String)
      → (row_of db' a ≡ overlay row_left a (row_of db a) changes)
        × (parts_of db' a ≡ overlay parts_left a (parts_of db a) changes)
        × (links_of db' a ≡ overlay link_rows_left a (links_of db a) changes)
  landing-reads h a =
      let l = landing-Landed changes entries db h in
      (
        row_of-Landed changes entries db db' l a,
        parts_of-Landed changes entries db db' l a,
        links_of-Landed changes entries db db' l a,
      )
