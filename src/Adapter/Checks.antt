-- ===== src/Adapter/Checks.antt =====
-- src/kb/sqlite_checks.py: the checks of a set inside its landing transaction.
use shopsystem_kb.Base.{
  ℕ, String, Bool, true, false, not, ◌&&◌, ◌||◌, Option, none, some, List, [], ◌∷◌, map, ◌==◌,
  contains, string_eq, nat_eq, any, filter, distinct, length, if◌then◌else◌, flat_map, zip,
}
use shopsystem_kb.Base.Dict.{Dict, lookup, insert}
use shopsystem_kb.Port.{
  Change, Link, Linking, Entry, Told, told_eq, key_of_link, told, held_waiting, Refusal, conflict,
  unlanded, linked,
}
use shopsystem_kb.Adapter.Db.{Db}
use shopsystem_kb.Adapter.Exec.{Exec, done, raise, read, ◌>>=◌, ◌>>◌}
use shopsystem_kb.Adapter.Reads.{row_of, holds, revision_of, parts_of, waiting_from, links_into}

-- What a set's first change of each artifact found it at: its revision and its parts.
abbrev pub Before : Type 0
Before = Dict String (ℕ × List String)

-- `{change.artifact: change for change in changes}`, on from a dict.
unfoldable pub last_from :
    {C : Type 0} → Dict String (Change C) → List (Change C) → Dict String (Change C)
last_from d [] = d
last_from d (c ∷ cs) = last_from (insert c.artifact c d) cs

unfoldable pub last_changes : {C : Type 0} → List (Change C) → Dict String (Change C)
unfolding last_from insert
last_changes changes = last_from [] changes

abbrev pub told_among : Option Told → List Told → Bool
told_among none found = false
told_among (some t) found = contains found t

abbrev pub linking_from : String → Link → Linking
linking_from artifact link = record {
  source = artifact;
  field = link.field;
  place = link.place;
  target = link.target;
  part = link.part;
  holder = some "";
}

abbrev pub waited_of : Dict String (List Told) → String → List Told
waited_of found artifact = elim (lookup artifact found) [ none ↦ [] | some l ↦ l ]

-- Refused with the links found, when there are any.
abbrev pub refuse_any : {S : Type 0} → (List Linking → Refusal) → List Linking → Exec S Unit
refuse_any e [] = done tt
refuse_any e (l ∷ ls) = raise (e (l ∷ ls))

module _ {C R : Type 0} where
  unfoldable pub compared : String → ℕ → Exec (Db C R) ℕ
  unfolding revision_of
  compared artifact read_at db =
      let held = revision_of db artifact in
      if held == read_at then done held db else raise conflict db

  unfoldable pub unmoved_all : List (String × ℕ) → Exec (Db C R) Unit
  unfolding compared
  unmoved_all [] = done tt
  unmoved_all ((type_id, read_at) ∷ rest) = do compared type_id read_at; unmoved_all rest

  -- `_unmoved`: every pair that some change was read through.
  unfoldable pub unmoved : List (Change C) → Exec (Db C R) Unit
  unfolding unmoved_all
  unmoved changes = unmoved_all (flat_map (λ (c : Change C). c.through) changes)

  -- `_waited`: the links each artifact of the set holds that land on nothing held.
  unfoldable pub waited : List (Change C) → Db C R → Dict String (List Told)
  unfolding waiting_from held_waiting
  waited changes db =
      map (λ artifact. (artifact, held_waiting (waiting_from db artifact)))
        (distinct (map (λ (c : Change C). c.artifact) changes))

  -- `_vouched`
  unfoldable pub vouched : Db C R → Link → Bool
  unfolding holds
  vouched db link = elim (link.under) [
    | none ↦ false
    | some under ↦
        if link.implicit || not (contains link.kinds under) then false else holds db under
  ]

  -- `_lands`
  unfoldable pub lands : Db C R → Link → Option Told → List Told → Bool
  unfolding row_of vouched parts_of
  lands db link as_told waited_before = elim (row_of db link.target) [
    | none ↦ vouched db link
    | some row ↦
        if not (contains link.kinds row.kind)
        then false
        else if link.part == "" || contains (parts_of db link.target) link.part
        then true
        else link.imported || (link.waits && told_among as_told waited_before)
  ]

  -- The links that a last change hands and that do not land.
  unfoldable pub unlanded_of : Db C R → Dict String (List Told) → String → Change C → List Linking
  unfolding lands told lookup
  unlanded_of db waits artifact change = elim (change.content) [
    | none ↦ []
    | some _ ↦
        map (λ (link, as_told). linking_from artifact link)
          (filter (λ (link, as_told). not (lands db link as_told (waited_of waits artifact)))
            (zip change.links (told (map key_of_link change.links))))
  ]

  -- The links from outside the set into what it takes out of one artifact: all of it, or the parts
  -- it drops.
  unfoldable pub linked_into :
      Db C R → Dict String (Change C) → String × (ℕ × List String) → List Linking
  unfolding holds parts_of links_into lookup
  linked_into db last (artifact, (held, parts)) =
      let after = parts_of db artifact in
      let gone = filter (λ p. not (contains after p)) parts in
      let still = holds db artifact in
      if held == 0
      then []
      else filter
          (λ (each : Linking).
            not (contains (map (λ (a, c). a) last) each.source)
            && (not still || contains gone each.part))
          (links_into db true artifact)

  -- Every link that the set hands and that does not land.
  unfoldable pub nowhere : Db C R → List (Change C) → Dict String (List Told) → List Linking
  unfolding last_changes unlanded_of
  nowhere db changes waits =
      flat_map (λ (artifact, change). unlanded_of db waits artifact change) (last_changes changes)

  -- Every link from outside the set into what the set takes out.
  unfoldable pub cut : Db C R → List (Change C) → Before → List Linking
  unfolding last_changes linked_into
  cut db changes before = flat_map (linked_into db (last_changes changes)) before

  -- `_integral`
  unfoldable pub integral : List (Change C) → Before → Dict String (List Told) → Exec (Db C R) Unit
  unfolding nowhere cut
  integral changes before waits = do
    lost ← read (λ db. nowhere db changes waits)
    refuse_any unlanded lost
    into ← read (λ db. cut db changes before)
    refuse_any linked into

  -- `_unheld`
  unfoldable pub unheld : List (Entry R) → Exec (Db C R) Unit
  unheld entries db =
      let ids = map (λ (e : Entry R). e.id) entries in
      if any (λ (e : Entry R). contains ids e.id) db.entries
        || not (length (distinct ids) == length ids)
      then raise conflict db
      else done tt db
