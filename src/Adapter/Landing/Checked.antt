-- ===== src/Adapter/Landing/Checked.antt =====
-- What the checks after the writing have found when they refuse nothing: every link that the set
-- hands lands, and no link from outside it points at what it takes out.
use mathlib.Core.Path.{subst}
use shopsystem_kb.Base.{
  ℕ, ◌<◌, String, ◌≡◌, refl, sym, ap, ◌∙◌, Bool, true, false, not, ◌&&◌, ◌||◌, Option, none, some,
  List, [], ◌∷◌, map, ◌==◌, contains, string_eq, nat_eq, ==_refl, filter, enumerate, In, In-map,
  In-map_of, In-filter_of, In-sorted, In-enumerate, In-zip, In-of_contains, map-nil, filter-nil,
  flat_map-nil, length-map, contains_of_In, arith, if◌then◌else◌, Bool-cases, inl, inr, zip,
}
use shopsystem_kb.Base.Dict.{Dict, lookup, In-of_lookup}
use shopsystem_kb.Port.{Change, Link, Linking, Refusal, Told, told, key_of_link, unlanded, linked}
use shopsystem_kb.Adapter.Db.{Db, LinkRow}
use shopsystem_kb.Adapter.Exec.{Gives, Gives-bind, read, ◌>>=◌}
use shopsystem_kb.Adapter.Reads.{holds, parts_of, linking, links_into}
use shopsystem_kb.Adapter.Checks.{
  Before, refuse_any, last_changes, lands, unlanded_of, linked_into, nowhere, cut, integral,
  waited_of,
}
use shopsystem_kb.Adapter.Landing.{link_row, links_left}
use shopsystem_kb.Adapter.Landing.Rows.{link_rows_left}
use shopsystem_kb.Adapter.Landing.Links.{names_in, length-told}

refuse_any-ok :
    {S : Type 0} (e : List Linking → Refusal) (l : List Linking) (s : S) {u : Unit {0}} {t : S}
    → Gives (refuse_any e l) s u t
    → (l ≡ []) × (t ≡ s)
refuse_any-ok e [] s h = (refl, ground arith)
refuse_any-ok e (x ∷ l) s h = absurd (cc)

unless_zero :
    {A : Type 0} (held : ℕ) (xs : List A) → 0 < held → (if held == 0 then [] else xs) ≡ [] → xs ≡ []
unless_zero held xs pos e = ground arith

outcome :
    (inside still dropped : Bool)
    → inside ≡ false
    → (not inside && (not still || dropped)) ≡ false
    → (still ≡ true) × (dropped ≡ false)
outcome inside still dropped h k = ground arith

links_left-some :
    {C : Type 0} (c : Change C) (link : Link)
    → In link (links_left c)
    → (content : C) × (c.content ≡ some content) × In link c.links
links_left-some {C} c link m = go (c.content) refl m
  where
    go :
        (o : Option C)
        → c.content ≡ o
        → In link (elim o [ none ↦ [] | some _ ↦ c.links ])
        → (content : C) × (c.content ≡ some content) × In link c.links
    go none e h = absurd h.1
    go (some content) e h = (content, e, h)

module _ {C R : Type 0} (db : Db C R) where
  all_lands :
      (waits : Dict String (List Told)) (a : String) (c : Change C) (content : C)
      → c.content ≡ some content
      → unlanded_of db waits a c ≡ []
      → (link : Link) (as_told : Option Told)
      → In (link, as_told) (zip c.links (told (map key_of_link c.links)))
      → lands db link as_told (waited_of waits a) ≡ true
  unfolding unlanded_of
  all_lands waits a c content left lost link as_told m =
      let none_left = map-nil _ _ (rw (left, unlanded_of) at lost) in
      let landed = filter-nil _ (link, as_told) _ none_left m in ground (arith, landed)

  into_nil :
      (last : Dict String (Change C)) (a : String) (held : ℕ) (parts : List String)
      → 0 < held
      → linked_into db last (a, (held, parts)) ≡ []
      → filter
          (λ (each : Linking).
            not (contains (names_in last) each.source)
            && (not (holds db a)
                || contains (filter (λ p. not (contains (parts_of db a) p)) parts) each.part))
          (links_into db true a)
        ≡ []
  unfolding linked_into
  into_nil last a held parts pos e = unless_zero held _ pos e

module _ {C R : Type 0} (changes : List (Change C)) (before : Before)
    (waits : Dict String (List Told)) (db : Db C R) where
  -- The checks that refuse nothing have changed nothing, and found nothing.
  pub integral-ok :
      {db' : Db C R}
      → Gives (integral changes before waits) db tt db'
      → (db' ≡ db) × (nowhere db changes waits ≡ []) × (cut db changes before ≡ [])
  unfolding integral
  integral-ok {db'} h =
      let (u, db₁, h₁, k₁) =
        Gives-bind (refuse_any unlanded (nowhere db changes waits))
          (λ _. do into ← read (λ (d : Db C R). cut d changes before); refuse_any linked into) db
          h in
      let (lost, same) = refuse_any-ok unlanded (nowhere db changes waits) db h₁ in
      let (none_cut, same') = refuse_any-ok linked (cut db₁ changes before) db₁ k₁ in
      (same' ∙ same, lost, subst (λ d. cut d changes before ≡ []) same none_cut)

  -- A link of an artifact's last change lands.
  pub lands_of_nowhere :
      nowhere db changes waits ≡ []
      → (a : String) (c : Change C) (row : LinkRow) → lookup a (last_changes changes) ≡ some c
      → In row (link_rows_left c)
      → (link : Link) × (as_told : Option Told) × ((n : ℕ) × (row ≡ link_row c.artifact (n, link)))
        × (lands db link as_told (waited_of waits a) ≡ true)
  unfolding nowhere
  lands_of_nowhere none_lost a c row at m =
      let (pair, inside, e) = In-map (link_row c.artifact) row (enumerate 0 (links_left c)) m in
      let (content, left, among) =
        links_left-some c pair.1 (In-enumerate 0 pair.0 pair.1 _ inside) in
      let lost = flat_map-nil _ (a, c) (last_changes changes) none_lost (In-of_lookup a c _ at) in
      let told_links = told (map key_of_link c.links) in
      let (as_told, zipped) =
        In-zip pair.1 c.links told_links
          (sym (length-told (map key_of_link c.links) ∙ length-map key_of_link c.links)) among in
      (pair.1, as_told, (pair.0, e), all_lands db waits a c content left lost pair.1 as_told zipped)

  -- A link from outside the set into an artifact that it found held lands where it did.
  pub kept_of_cut :
      cut db changes before ≡ []
      → (row : LinkRow) (held : ℕ) (parts : List String)
      → lookup row.target before ≡ some (held, parts)
      → 0 < held
      → In row db.links
      → contains (names_in (last_changes changes)) row.source ≡ false
      → (holds db row.target ≡ true)
        × (contains parts row.part ≡ true → contains (parts_of db row.target) row.part ≡ true)
  unfolding cut links_into
  kept_of_cut none_cut row held parts at pos m outside =
      let target = row.target in
      let test =
        filter-nil _ (linking row) (links_into db true target)
          (into_nil db (last_changes changes) target held parts pos
            (flat_map-nil _ (target, (held, parts)) before none_cut (In-of_lookup target _ _ at)))
          (In-map_of linking row _
            (In-sorted _ row _ (In-filter_of _ row db.links m (rw (==_refl target))))) in
      let gone = filter (λ p. not (contains (parts_of db target) p)) parts in
      let (still, not_gone) =
        outcome (contains (names_in (last_changes changes)) row.source) (holds db target)
          (contains gone row.part) outside test in
      (
        still,
        λ had. elim (Bool-cases (contains (parts_of db target) row.part)) [
          | inl e ↦ e
          | inr n ↦
              let dropped =
                contains_of_In row.part (filter (λ p. not (contains (parts_of db target) p)) parts)
                  (In-filter_of _ row.part parts (In-of_contains row.part parts had) (ap not n)) in
              absurd (cc (dropped, not_gone))
        ],
      )
