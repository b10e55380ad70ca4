-- ===== src/Adapter/Landing/History.antt =====
-- What a landing compares before it writes, and what it adds to the histories.
use mathlib.Core.Path.{subst}
use mathlib.Core.List.{append-nil}
use shopsystem_kb.Base.{
  ℕ, suc, ◌≤◌, String, ◌≡◌, refl, sym, ap, ◌∙◌, true, false, ◌||◌, Option, none, some, List, [],
  ◌∷◌, ◌++◌, map, ◌==◌, contains-distinct, ==_iff, contains, any, string_eq, nat_eq, distinct,
  length, inl, inr, Bool-cases, arith, if◌then◌else◌, IsUnique,
}
use shopsystem_kb.Port.{Change, Entry}
use shopsystem_kb.Adapter.Db.{Db, ArtifactRow, VersionRow}
use shopsystem_kb.Adapter.Exec.{Gives, Result}
use shopsystem_kb.Adapter.Reads.{row_of, revision_of}
use shopsystem_kb.Adapter.Checks.{Before, unheld}
use shopsystem_kb.Adapter.Landing.{landing, write_all}
use shopsystem_kb.Adapter.Landing.Rows.{Wrote, row_left, row_of_self, row_of-other}
use shopsystem_kb.Adapter.Landing.Loop.{one_round, overlay, write_all-Round}
use shopsystem_kb.Adapter.Landing.Run.{row_of-started, landing-Landed}

append_assoc : {A : Type 0} (xs ys zs : List A) → (xs ++ ys) ++ zs ≡ xs ++ (ys ++ zs)
append_assoc [] ys zs = refl
append_assoc (x ∷ xs) ys zs = ap (λ l. x ∷ l) (append_assoc xs ys zs)

length-distinct : (xs : List String) → length (distinct xs) ≤ length xs
length-distinct [] = ground arith
length-distinct (x ∷ xs) = ground (arith, length-distinct xs)

IsUnique-of_distinct : (xs : List String) → length (distinct xs) ≡ length xs → IsUnique xs
IsUnique-of_distinct [] h = tt
IsUnique-of_distinct (x ∷ xs) h = (
  ground (arith, length-distinct xs, contains-distinct x xs),
  IsUnique-of_distinct xs (ground (arith, length-distinct xs)),
)

contains-append :
    (a : String) (xs ys : List String) → contains (xs ++ ys) a ≡ (contains xs a || contains ys a)
contains-append a [] ys = refl
contains-append a (x ∷ xs) ys = ground (arith, contains-append a xs ys)

IsUnique-append :
    (xs ys : List String)
    → IsUnique xs
    → IsUnique ys
    → ((a : String) → contains xs a ≡ true → contains ys a ≡ false)
    → IsUnique (xs ++ ys)
IsUnique-append [] ys u v apart = v
IsUnique-append (x ∷ xs) ys (new, u) v apart = (
  rw (contains-append x xs ys, new) (apart x (ground arith)),
  IsUnique-append xs ys u v (λ a h. apart a (ground arith)),
)

abbrev pub ids : {R : Type 0} → List (Entry R) → List String
ids {R} = map (λ (e : Entry R). e.id)

-- The revision a row says; 0 of none.
abbrev pub revision_in : {C : Type 0} → Option (ArtifactRow C) → ℕ
revision_in none = 0
revision_in (some row) = row.revision

-- The rows that changes add to the versions, counted on from a step.
abbrev pub version_rows : {C : Type 0} → ℕ → ℕ → List (Change C) → List (VersionRow C)
version_rows landed step [] = []
version_rows landed step (c ∷ cs) =
    record {
      artifact = c.artifact;
      landed = landed;
      step = step;
      revision = c.revision;
      content = c.content;
    }
    ∷ version_rows landed (suc step) cs

module _ {C R : Type 0} where
  revision_of_row : (db : Db C R) (a : String) → revision_of db a ≡ revision_in (row_of db a)
  unfolding revision_of
  revision_of_row db a = refl

  one_round_row :
      (landed step : ℕ) (e : Change C) (db db' : Db C R)
      → Wrote e landed step db db'
      → (a : String) → row_of db' a ≡ (if e.artifact == a then row_left e else row_of db a)
  one_round_row landed step e db db' w a =
      one_round row_left row_of (λ c l s d d' w. row_of_self c l s d d' w)
        (λ c l s d d' w b n. row_of-other c l s d d' w b n) a e landed step db db' w

  read_in_turn :
      (landed step : ℕ) (before : Before) (earlier : List (Change C)) (c : Change C)
      (later : List (Change C)) (db : Db C R) {before' : Before} {db' : Db C R}
      → Gives (write_all landed step before (earlier ++ c ∷ later)) db before' db'
      → revision_in (overlay row_left c.artifact (row_of db c.artifact) earlier) ≡ c.read
  unfolding write_all
  read_in_turn landed step before [] c later db h =
      let r = write_all-Round landed step before c later db h in
      sym (revision_of_row db c.artifact) ∙ r.read_at
  read_in_turn landed step before (e ∷ earlier) c later db h =
      let r = write_all-Round landed step before e (earlier ++ c ∷ later) db h in
      let a = c.artifact in
      ap (λ old. revision_in (overlay row_left a old earlier))
        (sym (one_round_row landed step e db r.middle r.wrote a))
      ∙ read_in_turn landed (suc step) _ earlier c later r.middle r.rest

  histories :
      (landed step : ℕ) (before : Before) (cs : List (Change C)) (db : Db C R) {before' : Before}
      {db' : Db C R}
      → Gives (write_all landed step before cs) db before' db'
      → (db'.entries ≡ db.entries) × (db'.versions ≡ db.versions ++ version_rows landed step cs)
  unfolding write_all
  histories landed step before [] db h =
      let same = ap (λ (r : Result Before × Db C R). r.1) (sym h) in
      (
        ap (λ (d : Db C R). d.entries) same,
        ap (λ (d : Db C R). d.versions) same ∙ sym (append-nil db.versions),
      )
  histories landed step before (c ∷ cs) db h =
      let r = write_all-Round landed step before c cs db h in
      let (entries, versions) = histories landed (suc step) _ cs r.middle r.rest in
      (
        entries ∙ r.wrote.entries,
        versions
            ∙ ap (λ vs. vs ++ version_rows landed (suc step) cs) r.wrote.versions
            ∙ append_assoc db.versions _ _,
      )

  unheld_found :
      (entries : List (Entry R)) (db : Db C R) {u : Unit {0}} {db' : Db C R}
      → Gives (unheld entries) db u db'
      → (any (λ (e : Entry R). contains (ids entries) e.id) db.entries ≡ false)
        × (length (distinct (ids entries)) ≡ length (ids entries))
  unfolding unheld
  unheld_found entries db h = (ground arith, ground arith)

any_shared :
    {R : Type 0} (entries held : List (Entry R)) (a : String)
    → any (λ (e : Entry R). contains (ids entries) e.id) held ≡ false
    → contains (ids held) a ≡ true
    → contains (ids entries) a ≡ false
any_shared entries [] a h k = cc
any_shared entries (e ∷ held) a h k = elim (Bool-cases (a == e.id)) [
  | inl same ↦
      subst (λ b. contains (ids entries) b ≡ false) (sym ((==_iff a e.id).0 same)) (ground arith)
  | inr n ↦ any_shared entries held a (ground arith) (ground arith)
]

ids-append : {R : Type 0} (xs ys : List (Entry R)) → ids (xs ++ ys) ≡ ids xs ++ ids ys
ids-append [] ys = refl
ids-append (x ∷ xs) ys = ap (λ l. x.id ∷ l) (ids-append xs ys)

module _ {C R : Type 0} (changes : List (Change C)) (entries : List (Entry R))
    (db db' : Db C R) where
  -- A landing that is refused nothing found every change read at the revision that its artifact
  -- stands at when its turn comes: the revision that the changes before it in the set leave, and 0
  -- when nothing is held there.
  pub landing-current :
      Gives (landing changes entries) db tt db'
      → (earlier : List (Change C)) (c : Change C) (later : List (Change C))
      → changes ≡ earlier ++ c ∷ later
      → revision_in (overlay row_left c.artifact (row_of db c.artifact) earlier) ≡ c.read
  landing-current h earlier c later e =
      let l = landing-Landed changes entries db h in
      let run =
        subst (λ cs. Gives (write_all l.landed 0 [] cs) l.started l.before l.written) e l.loop in
      ap (λ old. revision_in (overlay row_left c.artifact old earlier))
        (sym (row_of-started changes entries db db' l c.artifact))
      ∙ read_in_turn l.landed 0 [] earlier c later l.started run

  -- A landing that is refused nothing adds to the history the entries it is given, after those held,
  -- and to the versions one row for each change, numbered on from 0 in the order of the changes, and
  -- takes nothing out of either.
  pub landing-appends :
      Gives (landing changes entries) db tt db'
      → (db'.entries ≡ db.entries ++ entries)
        × ((landed : ℕ) × (db'.versions ≡ db.versions ++ version_rows landed 0 changes))
  landing-appends h =
      let l = landing-Landed changes entries db h in
      let (es, vs) = histories l.landed 0 [] changes l.started l.loop in
      (
        ap (λ (d : Db C R). d.entries) l.result ∙ ap (λ es. es ++ entries) (es ∙ l.same_entries),
        (
          l.landed,
          ap (λ (d : Db C R). d.versions) l.result
              ∙ vs
              ∙ ap (λ vs. vs ++ version_rows l.landed 0 changes) l.same_versions,
        ),
      )

  -- A landing that is refused nothing keeps the ids of the history's entries unique.
  pub landing-IsUnique :
      IsUnique (ids db.entries)
      → Gives (landing changes entries) db tt db'
      → IsUnique (ids db'.entries)
  landing-IsUnique unique h =
      let l = landing-Landed changes entries db h in
      let (apart, once) = unheld_found entries db l.unheld_first in
      subst (λ es. IsUnique (ids es)) (sym (landing-appends h).0)
        (subst IsUnique (sym (ids-append db.entries entries)) (
          IsUnique-append _ _ unique (IsUnique-of_distinct _ once)
            (λ a k. any_shared entries db.entries a apart k)))
