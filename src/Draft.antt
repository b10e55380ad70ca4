-- ===== src/Draft.antt =====
-- src/kb/draft.py: the store as a set's changes would leave it. A draft is a state, the store that it
-- stands over is given to each read, and a set of Python is a list of its members. A read of the store
-- that raises KeyError is none.
pub mod Steps
pub mod Versions
pub mod Operations
pub mod Listed
pub mod Reread
pub mod Linked
pub mod Sources
use shopsystem_kb.Base.{
  first_uses, ℕ, suc, String, Bool, true, false, not, ◌&&◌, ◌||◌, Option, none, some, List, [], ◌∷◌,
  ◌++◌, map, ◌==◌, contains, string_eq, nat_eq, option_eq, filter, sorted, distinct, leb,
  if◌then◌else◌, flat_map,
}
use shopsystem_kb.Base.Dict.{Dict, keys, lookup, insert, set_default, erase}
use shopsystem_kb.Names
use shopsystem_kb.Port.{Version, TypeVersion, Linking, Told, held_waiting}
use shopsystem_kb.Content.{Value, whole, truth, text, Fields, get, get_text}
use shopsystem_kb.Content.Places.{parts}
use shopsystem_kb.Content.Settled.{typed, kind}
use shopsystem_kb.Types.Composition.{Corpus}

-- What the port reads.
pub record Store : Type 0 where
  pub artifact : String → Option Fields
  pub type_version : Version → Option (TypeVersion Fields)
  pub versions : String → List ℕ
  pub ids : String → List String
  pub links_in : String → List Linking
  pub waiting : List Linking
  pub waiting_of : String → List Linking

-- The fields of `Draft`, each by its name.
pub record Draft : Type 0 where
  pub pending : Dict String Fields
  pub removed : List String
  pub types : Dict String Fields
  pub numbers : Dict String ℕ
  pub made : Dict String (Dict ℕ Fields)
  pub gone : List String
  pub waits : Dict String (List Told)

abbrev pub blank : Draft
blank = record {
  pending = [];
  removed = [];
  types = [];
  numbers = [];
  made = [];
  gone = [];
  waits = [];
}

abbrev pub is_some {ℓ} : {A : Type ℓ} → Option A → Bool
is_some none = false
is_some (some a) = true

abbrev pub or_nil {ℓ} : {A : Type ℓ} → Option (List A) → List A
or_nil none = []
or_nil (some xs) = xs

-- `artifact["version"]`, a whole number. A number below 0, which no version's IRI holds, is left out.
unfoldable pub version_in : Fields → Option ℕ
unfolding get
version_in d = elim (get "version" d) [ some (whole n) ↦ some n | _ ↦ none ]

-- `d.get("version") == number`, where Python's `True` is 1.
abbrev equals_number : Option Value → ℕ → Bool
equals_number (some (whole m)) n = m == n
equals_number (some (truth true)) n = 1 == n
equals_number (some (truth false)) n = 0 == n
equals_number _ n = false

unfoldable pub stands_at : Fields → ℕ → Bool
unfolding get
stands_at d n = equals_number (get "version" d) n

-- A version of a type from what the draft put; none where it lacks a revision or a title.
unfoldable pub version_of : Version → Fields → Option (TypeVersion Fields)
unfolding get get_text
version_of version d = elim (get "revision" d) [
  | some (whole n) ↦ elim (get_text "title" d) [
    | some t ↦ some (record { version = version; content = d; revision = n; title = t })
    | none ↦ none
  ]
  | _ ↦ none
]

-- The version that a put artifact makes, when it is a type.
unfoldable pub made_by : Fields → Option ℕ
unfolding typed version_in
made_by d = if typed d then version_in d else none

unfoldable pub put : String → Fields → Draft → Draft
unfolding made_by lookup insert
put id artifact draft = record draft {
  removed = filter (λ each. not (each == id)) draft.removed;
  pending = insert id artifact draft.pending;
  made = elim (made_by artifact) [
    | none ↦ draft.made
    | some n ↦ insert id (insert n artifact (or_nil (lookup id draft.made))) draft.made
  ];
}

unfoldable pub remove : String → Draft → Draft
unfolding erase
remove id draft = record draft {
  removed = id ∷ draft.removed;
  gone = id ∷ draft.gone;
  made = erase id draft.made;
}

-- `changed`
unfoldable pub changed : String → Draft → Bool
unfolding lookup
changed id draft = is_some (lookup id draft.pending) || contains draft.removed id

module _ (store : Store) where
  unfoldable pub holds : String → Draft → Bool
  unfolding lookup
  holds id draft =
      if contains draft.removed id
      then false
      else is_some (lookup id draft.pending) || is_some (store.artifact id)

  unfoldable pub ids : String → Draft → List String
  unfolding kind Names.order_le
  ids kind_name draft =
      let put_here =
        map (λ (id, _). id) (filter (λ (id, d). kind d == some kind_name) draft.pending) in
      sorted Names.order_le (
        distinct (filter (λ id. not (contains draft.removed id)) (put_here ++ store.ids kind_name)))

  unfoldable pub versions : String → Draft → List ℕ
  unfolding lookup
  versions type_id draft =
      if contains draft.removed type_id
      then []
      else sorted leb (
          distinct (
            (if contains draft.gone type_id then [] else store.versions type_id)
            ++ keys (or_nil (lookup type_id draft.made))))

  -- What the draft gives at an IRI, and what it keeps of the read. The source reads what it put there
  -- before it removed it, if it is asked for it.
  unfoldable pub artifact : String → Draft → Option Fields × Draft
  unfolding lookup insert typed
  artifact id draft = elim (lookup id draft.pending) [
    | some d ↦ (some d, draft)
    | none ↦ elim (lookup id draft.types) [
      | some d ↦ (some d, draft)
      | none ↦ elim (store.artifact id) [
        | none ↦ (none, draft)
        | some d ↦
            (some d, if typed d then record draft { types = insert id d draft.types } else draft)
      ]
    ]
  ]

  -- What the store keeps of a version of a type, kept as the type when none of it was read before.
  unfoldable pub kept_by_store : Version → Draft → Option (TypeVersion Fields) × Draft
  unfolding set_default
  kept_by_store version draft = elim (store.type_version version) [
    | none ↦ (none, draft)
    | some found ↦
        (some found, record draft { types = set_default version.kind found.content draft.types })
  ]

  -- A version of a type that the draft put, at another number than the one it stands at.
  unfoldable pub made_before : Version → Draft → Option (TypeVersion Fields)
  unfolding lookup version_of
  made_before version draft =
      elim (lookup version.number (or_nil (lookup version.kind draft.made))) [
        | some made ↦ version_of version made
        | none ↦ if contains draft.gone version.kind then none else store.type_version version
      ]

  unfoldable pub type_version : Version → Draft → Option (TypeVersion Fields) × Draft
  unfolding lookup stands_at version_of kept_by_store made_before
  type_version version draft =
      let put_there = lookup version.kind draft.pending in
      let kept = kept_by_store version draft in
      if contains draft.removed version.kind then (none, draft) else elim put_there [
        | none ↦ kept
        | some d ↦ (
          if stands_at d version.number then version_of version d else made_before version draft,
          draft,
        )
      ]

  -- The number last counted, or that the type stands at; none where what stands there has none.
  unfoldable pub last_number : String → Draft → Option ℕ × Draft
  unfolding holds artifact lookup version_in
  last_number type_id draft =
      let (found, next) = artifact type_id draft in
      let standing : Option ℕ = elim found [ none ↦ none | some d ↦ version_in d ] in
      if not (holds type_id draft) then (some 0, draft) else elim (lookup type_id draft.numbers) [
        | some (suc n) ↦ (some (suc n), draft)
        | _ ↦ (standing, next)
      ]

  unfoldable pub numbered : String → Draft → Option ℕ × Draft
  unfolding last_number insert
  numbered type_id draft =
      let (last, next) = last_number type_id draft in
      elim last [
        | none ↦ (none, next)
        | some n ↦ (some (suc n), record next { numbers = insert type_id (suc n) next.numbers })
      ]

  unfoldable pub waited : String → Draft → List Told × Draft
  unfolding lookup insert held_waiting
  waited id draft = elim (lookup id draft.waits) [
    | some told ↦ (told, draft)
    | none ↦
        let told = held_waiting (store.waiting_of id) in
        (told, record draft { waits = insert id told draft.waits })
  ]

  unfoldable pub dropped : String → Draft → List String
  unfolding lookup parts
  dropped id draft = if contains draft.removed id then [] else elim (lookup id draft.pending) [
    | none ↦ []
    | some now ↦ elim (store.artifact id) [
      | none ↦ []
      | some before ↦ filter (λ place. not (contains (parts now) place)) (distinct (parts before))
    ]
  ]

  -- The draft as a corpus, whose reads leave no trace.
  unfoldable pub corpus_of : Draft → Corpus
  unfolding artifact type_version holds
  corpus_of draft = record {
    artifact = λ id. if holds id draft then (artifact id draft).0 else none;
    type_version = λ version. elim ((type_version version draft).0) [
      | none ↦ none
      | some found ↦ some found.content
    ];
  }

-- The type read at an IRI, that the draft leaves as it is, with its revision.
unfoldable pub as_read_one : Draft → String → List (String × ℕ)
unfolding lookup get changed
as_read_one draft id = elim (lookup id draft.types) [
  | none ↦ []
  | some d ↦
      if changed id draft
      then []
      else elim (get "revision" d) [ some (whole n) ↦ (id, n) ∷ [] | _ ↦ [] ]
]

unfoldable pub as_read : Draft → List String → List (String × ℕ)
unfolding first_uses as_read_one
as_read draft type_ids = flat_map (as_read_one draft) (first_uses [] type_ids)
