-- ===== src/Types/Composition.antt =====
-- src/kb/composition.py: the version of a type that a reference names, the type that a kind names, the
-- nearest held type that an IRI sits under, and the references anywhere in a schema.
use shopsystem_kb.Base.{
  ℕ, String, Bool, true, false, not, ◌||◌, Option, none, some, List, [], ◌∷◌, ◌++◌, ◌==◌, string_eq,
  nat_eq, option_eq, ltb, if◌then◌else◌,
}
use shopsystem_kb.Names
use shopsystem_kb.Port.{Version}
use shopsystem_kb.Adapter.Reads.{first}
use shopsystem_kb.Content.{
  Key, named, Value, null, truth, whole, negative, real, text, items, fields, Values, nil, cons,
  Fields, end, entry,
}
use shopsystem_kb.Content.Settled.{typed, conforms, kind}
use shopsystem_kb.Requests.{Outcome, converted, refused}
use shopsystem_kb.Refusals.{no_type, no_version}

-- What is read of a corpus: the artifact that it holds at an IRI, if any, and the content of a version
-- of a type that it keeps, if any.
pub record Corpus : Type 0 where
  pub artifact : String → Option Fields
  pub type_version : Version → Option Fields

-- What a kb: reference names.
pub record Reference : Type 0 where
  pub type_id : Option String
  pub whole_type : Bool
  pub number : ℕ

unfoldable pub reference : String → Option Reference
unfolding Names.referred Names.version
reference ref = elim (Names.referred ref) [
  | none ↦ none
  | some (name, fragment) ↦ elim (Names.version name) [
    | none ↦ some (record { type_id = none; whole_type = fragment == ""; number = 0 })
    | some (t, n) ↦ some (record { type_id = some t; whole_type = fragment == ""; number = n })
  ]
]

module _ (corpus : Corpus) where
  unfoldable pub holds : String → Bool
  holds id = elim (corpus.artifact id) [ none ↦ false | some _ ↦ true ]

  -- `_typed_at`
  unfoldable pub typed_at : String → Bool
  unfolding typed
  typed_at id = elim (corpus.artifact id) [ none ↦ false | some d ↦ typed d ]

  unfoldable pub kept : String → ℕ → Option Fields
  unfolding typed_at
  kept type_id number =
      if not (typed_at type_id)
      then none
      else corpus.type_version (record { kind = type_id; number = number })

  unfoldable pub held : Reference → Bool
  unfolding kept
  held referred = elim (referred.type_id) [
    | none ↦ false
    | some t ↦ elim (kept t referred.number) [ none ↦ false | some _ ↦ true ]
  ]

  unfoldable pub kind_type : String → Outcome String
  unfolding typed_at
  kind_type kind = if typed_at kind then converted kind else refused (no_type ∷ [])

  unfoldable pub version_schema : Version → Outcome Fields
  unfolding kept
  version_schema version = elim (kept version.kind version.number) [
    | none ↦ refused (no_version ∷ [])
    | some d ↦ converted d
  ]

  -- Whether an artifact that conforms to a version may move to another.
  unfoldable pub moves_to : Version → Version → Bool
  unfolding kept
  moves_to stands version =
      if not (version.kind == stands.kind) || ltb version.number stands.number
      then false
      else elim (kept version.kind version.number) [ none ↦ false | some _ ↦ true ]

  unfoldable pub nearest_type : String → Option String
  unfolding typed_at Names.above
  nearest_type artifact_id = first typed_at (Names.above artifact_id)

  -- The loop of `nearest_was`.
  unfoldable pub nearest_among : String → List String → Bool
  unfolding typed_at
  nearest_among type_id [] = false
  nearest_among type_id (each ∷ rest) =
      let further = nearest_among type_id rest in
      if each == type_id || typed_at each then each == type_id else further

  unfoldable pub nearest_was : String → String → Bool
  unfolding nearest_among Names.above
  nearest_was artifact_id type_id = nearest_among type_id (Names.above artifact_id)

-- The version of its type that an artifact conforms to; none where the source raises.
unfoldable pub conforming : Fields → Option Version
unfolding conforms
conforming artifact = elim (conforms artifact) [
  | none ↦ none
  | some (k, n) ↦ some (record { kind = k; number = n })
]

-- The reference under a key of a schema, when it names a type version.
unfoldable pub named_there : Key → Value → List Reference
unfolding reference
named_there (named k) (text ref) =
    if k == "$ref"
    then elim (reference ref) [
      | none ↦ []
      | some r ↦ elim (r.type_id) [ none ↦ [] | some _ ↦ r ∷ [] ]
    ]
    else []
named_there k v = []

unfoldable mutual
  unfolding named_there

  pub references : Value → List Reference
  references (fields d) = references_in d
  references (items vs) = references_each vs
  references null = []
  references (truth b) = []
  references (whole n) = []
  references (negative n) = []
  references (real s) = []
  references (text s) = []

  pub references_in : Fields → List Reference
  references_in end = []
  references_in (entry k v d) = named_there k v ++ (references v ++ references_in d)

  pub references_each : Values → List Reference
  references_each nil = []
  references_each (cons v vs) = references v ++ references_each vs
