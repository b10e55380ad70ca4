-- ===== src/Draft/Reread.antt =====
-- What a draft has read of the store it reads again.
use shopsystem_kb.Base.{
  String, ◌≡◌, ap, ◌∙◌, true, none, some, string_eq, Option-cases, inl, inr, arith,
}
use shopsystem_kb.Base.Dict.{lookup, lookup-insert, lookup-set_default_held}
use shopsystem_kb.Port.{Version}
use shopsystem_kb.Content.{Fields}
use shopsystem_kb.Content.Settled.{typed}
use shopsystem_kb.Draft.{
  Store, Draft, put, remove, artifact, type_version, kept_by_store, numbered, last_number, waited,
}
use shopsystem_kb.Draft.Steps.{
  Step, Steps, start, then_step, puts, removes, reads, reads_version, counts, waits,
  last_number-cases,
}

module _ (id : String) (d : Fields) where
  -- The draft has read an artifact at an IRI.
  abbrev HasRead : Draft → Type 0
  HasRead draft = lookup id draft.types ≡ some d

  artifact-HasRead :
      (store : Store) (x : String) (draft : Draft)
      → HasRead draft
      → HasRead (artifact store x draft).1
  unfolding artifact
  artifact-HasRead store x draft h = elim (Option-cases (store.artifact x)) [
    | inl missing ↦ ground arith
    | inr (a, found) ↦ ground (arith, lookup-insert id x a draft.types)
  ]

  type_version-HasRead :
      (store : Store) (v : Version) (draft : Draft)
      → HasRead draft
      → HasRead (type_version store v draft).1
  unfolding type_version kept_by_store
  type_version-HasRead store v draft h = elim (Option-cases (store.type_version v)) [
    | inl missing ↦ ground arith
    | inr (f, found) ↦ ground (arith, lookup-set_default_held v.kind f.content d id draft.types)
  ]

  numbered-types :
      (store : Store) (x : String) (draft : Draft)
      → (numbered store x draft).1.types ≡ (last_number store x draft).1.types
  unfolding numbered
  numbered-types store x draft = elim (Option-cases (last_number store x draft).0) [
    | inl missing ↦ ground arith
    | inr (n, found) ↦ ground arith
  ]

  numbered-HasRead :
      (store : Store) (x : String) (draft : Draft)
      → HasRead draft
      → HasRead (numbered store x draft).1
  numbered-HasRead store x draft h =
      ap (lookup id) (numbered-types store x draft) ∙ elim (last_number-cases store x draft) [
        | inl e ↦ ap (λ (r : Draft). lookup id r.types) e ∙ h
        | inr e ↦ ap (λ (r : Draft). lookup id r.types) e ∙ artifact-HasRead store x draft h
      ]

  waited-HasRead :
      (store : Store) (x : String) (draft : Draft)
      → HasRead draft
      → HasRead (waited store x draft).1
  unfolding waited
  waited-HasRead store x draft h = ground arith

  Step-HasRead : {draft next : Draft} → Step draft next → HasRead draft → HasRead next
  unfolding put remove
  Step-HasRead (puts x a full n) h = h
  Step-HasRead (removes x) h = h
  Step-HasRead {draft} (reads store x) h = artifact-HasRead store x draft h
  Step-HasRead {draft} (reads_version store v) h = type_version-HasRead store v draft h
  Step-HasRead {draft} (counts store x) h = numbered-HasRead store x draft h
  Step-HasRead {draft} (waits store x) h = waited-HasRead store x draft h

  Steps-HasRead : {draft next : Draft} → Steps draft next → HasRead draft → HasRead next
  Steps-HasRead start h = h
  Steps-HasRead (then_step steps step) h = Step-HasRead step (Steps-HasRead steps h)

  artifact-read :
      (store : Store) (draft : Draft)
      → HasRead draft
      → lookup id draft.pending ≡ none
      → (artifact store id draft).0 ≡ some d
  unfolding artifact
  artifact-read store draft h free = ground arith

  read-HasRead :
      (store : Store) (draft : Draft)
      → lookup id draft.pending ≡ none
      → (artifact store id draft).0 ≡ some d
      → typed d ≡ true
      → HasRead (artifact store id draft).1
  unfolding artifact
  read-HasRead store draft free e t = elim (Option-cases (lookup id draft.types)) [
    | inr (a, had) ↦ ground arith
    | inl unread ↦ elim (Option-cases (store.artifact id)) [
      | inl missing ↦ ground arith
      | inr (a, found) ↦ ground (arith, lookup-insert id id a draft.types)
    ]
  ]

-- A type that a draft has read from the store is read as it was first read, whatever was done to the draft
-- since and whatever the store holds by then, until the set puts something in its place.
pub artifact-Steps :
    (first later : Store) (draft next : Draft) (id : String) (d : Fields)
    → lookup id draft.pending ≡ none
    → (artifact first id draft).0 ≡ some d
    → typed d ≡ true
    → Steps (artifact first id draft).1 next
    → lookup id next.pending ≡ none
    → (artifact later id next).0 ≡ some d
artifact-Steps first later draft next id d free e t steps unput =
    artifact-read id d later next
      (Steps-HasRead id d steps (read-HasRead id d first draft free e t)) unput
