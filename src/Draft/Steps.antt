-- ===== src/Draft/Steps.antt =====
-- What is done to a draft, and what each of it leaves of what the draft holds.
use shopsystem_kb.Base.{
  ℕ, suc, String, ◌≡◌, refl, ap, ◌∙◌, true, none, some, List, contains, string_eq, nat_eq,
  Option-cases, Bool-cases, ◌⊎◌, zero, inl, inr, arith,
}
use shopsystem_kb.Base.Dict.{Dict, lookup, insert, set_default}
use shopsystem_kb.Port.{Version, Told, held_waiting}
use shopsystem_kb.Content.{whole, Fields, get, get_text}
use shopsystem_kb.Content.Settled.{typed}
use shopsystem_kb.Draft.{
  Store, Draft, put, remove, artifact, type_version, numbered, last_number, waited, kept_by_store,
  made_by, holds,
}

-- An artifact that a version of a type can be read from.
abbrev pub IsFull : Fields → Type 0
IsFull d =
    (r : ℕ) × (t : String) × (get "revision" d ≡ some (whole r)) × (get_text "title" d ≡ some t)

-- What a set does to a draft: each put, of an artifact that, as a type, has a version, and each removal;
-- and the reads, each of the store as it then stands.
pub data Step (draft : Draft) : Draft → Type 0 where
  puts :
      (id : String) (d : Fields)
      → IsFull d
      → (typed d ≡ true → (n : ℕ) × (made_by d ≡ some n))
      → Step draft (put id d draft)
  removes : (id : String) → Step draft (remove id draft)
  reads : (store : Store) (id : String) → Step draft (artifact store id draft).1
  reads_version :
      (store : Store) (version : Version) → Step draft (type_version store version draft).1
  counts : (store : Store) (id : String) → Step draft (numbered store id draft).1
  waits : (store : Store) (id : String) → Step draft (waited store id draft).1

pub data Steps (first : Draft) : Draft → Type 0 where
  start : Steps first first
  then_step : {draft next : Draft} → Steps first draft → Step draft next → Steps first next

-- A draft that holds what another does, whatever it keeps of its reads.
abbrev pub Rereads : Draft → Draft → Type 0
Rereads draft next =
    (t : Dict String Fields) × (n : Dict String ℕ) × (w : Dict String (List Told)) × (next
      ≡ record draft { types = t; numbers = n; waits = w })

pub artifact-Rereads :
    (store : Store) (id : String) (draft : Draft) → Rereads draft (artifact store id draft).1
unfolding artifact
artifact-Rereads store id draft = elim (Option-cases (lookup id draft.pending)) [
  | inr (d, e) ↦ (draft.types, draft.numbers, draft.waits, ground arith)
  | inl free ↦ elim (Option-cases (lookup id draft.types)) [
    | inr (d, e) ↦ (draft.types, draft.numbers, draft.waits, ground arith)
    | inl unread ↦ elim (Option-cases (store.artifact id)) [
      | inl missing ↦ (draft.types, draft.numbers, draft.waits, ground arith)
      | inr (d, found) ↦ elim (Bool-cases (typed d)) [
        | inl t ↦ (insert id d draft.types, draft.numbers, draft.waits, ground arith)
        | inr f ↦ (draft.types, draft.numbers, draft.waits, ground arith)
      ]
    ]
  ]
]

pub type_version-Rereads :
    (store : Store) (version : Version) (draft : Draft)
    → Rereads draft (type_version store version draft).1
unfolding type_version kept_by_store
type_version-Rereads store version draft = elim (Option-cases (store.type_version version)) [
  | inl missing ↦ (draft.types, draft.numbers, draft.waits, ground arith)
  | inr (found, e) ↦ elim (Option-cases (lookup version.kind draft.pending)) [
    | inr (d, there) ↦ (draft.types, draft.numbers, draft.waits, ground arith)
    | inl free ↦ elim (Bool-cases (contains draft.removed version.kind)) [
      | inl gone ↦ (draft.types, draft.numbers, draft.waits, ground arith)
      | inr here ↦ (
        set_default version.kind found.content draft.types,
        draft.numbers,
        draft.waits,
        ground arith,
      )
    ]
  ]
]

pub last_number-cases :
    (store : Store) (id : String) (draft : Draft)
    → ((last_number store id draft).1 ≡ draft)
      ⊎ ((last_number store id draft).1 ≡ (artifact store id draft).1)
unfolding last_number
last_number-cases store id draft = elim (Bool-cases (holds store id draft)) [
  | inr free ↦ inl (ground arith)
  | inl held ↦ elim (Option-cases (lookup id draft.numbers)) [
    | inl none_yet ↦ inr (ground arith)
    | inr (zero, e) ↦ inr (ground arith)
    | inr (suc n, e) ↦ inl (ground arith)
  ]
]

last_number-Rereads :
    (store : Store) (id : String) (draft : Draft) → Rereads draft (last_number store id draft).1
last_number-Rereads store id draft = elim (last_number-cases store id draft) [
  | inl e ↦ (draft.types, draft.numbers, draft.waits, e)
  | inr e ↦ let (t, n, w, f) = artifact-Rereads store id draft in (t, n, w, e ∙ f)
]

pub numbered-Rereads :
    (store : Store) (id : String) (draft : Draft) → Rereads draft (numbered store id draft).1
unfolding numbered
numbered-Rereads store id draft =
    let (t, n, w, e) = last_number-Rereads store id draft in
    elim (Option-cases (last_number store id draft).0) [
      | inl missing ↦ (t, n, w, kept missing ∙ e)
      | inr (k, found) ↦ (
        t,
        insert id (suc k) n,
        w,
        counted k found ∙ ap (λ (r : Draft). record r { numbers = insert id (suc k) r.numbers }) e,
      )
    ]
  where
    kept :
        (last_number store id draft).0 ≡ none
        → (numbered store id draft).1 ≡ (last_number store id draft).1
    kept h = ground arith

    counted :
        (k : ℕ)
        → (last_number store id draft).0 ≡ some k
        → (numbered store id draft).1 ≡ record (last_number store id draft).1 {
          numbers = insert id (suc k) (last_number store id draft).1.numbers;
        }
    counted k h = ground arith

pub waited-Rereads :
    (store : Store) (id : String) (draft : Draft) → Rereads draft (waited store id draft).1
unfolding waited
waited-Rereads store id draft = elim (Option-cases (lookup id draft.waits)) [
  | inr (told, e) ↦ (draft.types, draft.numbers, draft.waits, ground arith)
  | inl unread ↦ (
    draft.types,
    draft.numbers,
    insert id (held_waiting (store.waiting_of id)) draft.waits,
    ground arith,
  )
]

-- A read leaves what the draft holds, and so does a count.
pub Step-cases :
    {draft next : Draft}
    → Step draft next
    → ((id : String) × (d : Fields) × IsFull d
        × (typed d ≡ true → (n : ℕ) × (made_by d ≡ some n))
        × (next ≡ put id d draft))
      ⊎ ((id : String) × (next ≡ remove id draft))
      ⊎ Rereads draft next
Step-cases (puts id d full numbered) = inl (id, d, full, numbered, refl)
Step-cases (removes id) = inr (inl (id, refl))
Step-cases {draft} (reads store id) = inr (inr (artifact-Rereads store id draft))
Step-cases {draft} (reads_version store version) =
    inr (inr (type_version-Rereads store version draft))
Step-cases {draft} (counts store id) = inr (inr (numbered-Rereads store id draft))
Step-cases {draft} (waits store id) = inr (inr (waited-Rereads store id draft))
