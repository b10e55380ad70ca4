-- ===== src/Types/Declared.antt =====
-- `composition` and `declared` of src/kb/composition.py: the schemas that a schema is built on, and
-- what they declare together. The bases are followed through the corpus on fuel: a type that is built
-- on itself by way of another has no end of them.
pub mod Bases
pub mod Own
pub mod Endless
pub mod Grounded
pub mod Ranked
use shopsystem_kb.Base.{
  ℕ, zero, suc, String, ◌≡◌, Bool, true, false, not, Option, none, some, List, [], ◌∷◌, ◌++◌, ◌==◌,
  string_eq, nat_eq, Eq, contains, filter, if◌then◌else◌,
}
use shopsystem_kb.Content.{
  Key, named, key_eq, Value, null, truth, whole, negative, real, text, items, fields, Values, nil,
  cons, Fields, end, entry, get,
}
use shopsystem_kb.Types.Composition.{Corpus, Reference, reference, kept, held}

-- What following the bases comes to: `unresolved` is NoSuchResource, `unread` the exception of a
-- schema that has, where one of its keywords is read, what that keyword does not take.
pub data Composed (A : Type 0) : Type 0 where
  made : A → Composed A
  unresolved unread unended : Composed A

module _ {A B : Type 0} where
  infixl 10 ◌>>=◌
  abbrev pub ◌>>=◌ : Composed A → (A → Composed B) → Composed B
  made a >>= f = f a
  unresolved >>= f = unresolved
  unread >>= f = unread
  unended >>= f = unended

-- What a loop over a value goes over, where it is a list, or goes over nothing.
abbrev pub listed : Option Value → Composed Values
listed none = made nil
listed (some (items vs)) = made vs
listed (some (fields end)) = made nil
listed (some (text t)) = if t == "" then made nil else unread
listed (some _) = unread

-- What `dict.update` takes.
abbrev pub mapped : Option Value → Composed Fields
mapped none = made end
mapped (some (fields d)) = made d
mapped (some (items nil)) = made end
mapped (some (text t)) = if t == "" then made end else unread
mapped (some _) = unread

abbrev as_schema : Option Value → Composed Fields
as_schema (some (fields d)) = made d
as_schema _ = unread

unfoldable pub each_member : (Fields → Composed (List Fields)) → Values → Composed (List Fields)
each_member f nil = made []
each_member f (cons (fields d) vs) =
    f d >>= λ built. each_member f vs >>= λ rest. made (built ++ rest)
each_member f (cons v vs) = unread

-- The whole type that a schema's `$ref` names, if it names one.
unfoldable pub base : Fields → Option String
unfolding get reference
base schema = elim (get "$ref" schema) [
  | some (text ref) ↦ elim (reference ref) [
    | none ↦ none
    | some r ↦ if r.whole_type then some ref else none
  ]
  | _ ↦ none
]

module _ (corpus : Corpus) where
  unfoldable pub type_schema : String → Composed Fields
  unfolding reference held kept get
  type_schema uri = elim (reference uri) [
    | none ↦ unresolved
    | some r ↦ elim (r.type_id) [
      | none ↦ unresolved
      | some t ↦ elim (kept corpus t r.number) [
        | none ↦ unresolved
        | some content ↦ as_schema (get "schema" content)
      ]
    ]
  ]

  unfoldable pub on_base :
      (Fields → Composed (List Fields)) → Option String → Composed (List Fields)
  unfolding type_schema
  on_base f none = made []
  on_base f (some ref) = type_schema ref >>= f

  unfoldable pub composition : ℕ → Fields → Composed (List Fields)
  unfolding get each_member base on_base
  composition zero schema = unended
  composition (suc fuel) schema = listed (get "allOf" schema) >>= λ members.
      each_member (composition fuel) members >>= λ above.
      on_base (composition fuel) (base schema) >>= λ below. made (above ++ (below ++ schema ∷ []))

-- `d[k] = v`, whatever the key.
unfoldable pub set_key : Key → Value → Fields → Fields
set_key k v end = entry k v end
set_key k v (entry j w d) =
    let rest = set_key k v d in if k == j then entry j v d else entry j w rest

-- `d.update(other)`
unfoldable pub update : Fields → Fields → Fields
unfolding set_key
update d end = d
update d (entry k v other) = update (set_key k v d) other

pub value_dec : Discrete Value
value_dec = hlevel (string_eq.dec, nat_eq.dec)

instance unfoldable pub value_eq : Eq Value
unfolding value_dec
value_eq = record { dec = value_dec }

abbrev pub value_list : Values → List Value
value_list nil = []
value_list (cons v vs) = v ∷ value_list vs

-- What `declared` gathers: fields, collections and the fields shown at a glance.
pub record Declared : Type 0 where
  pub properties : Fields
  pub parts : Fields
  pub summary : List Value

abbrev pub nothing : Declared
nothing = record { properties = end; parts = end; summary = [] }

-- One round of the loop of `declared`.
unfoldable pub with_part : Declared → Fields → Composed Declared
unfolding get update value_eq
with_part gathered part = mapped (get "properties" part) >>= λ properties.
    mapped (get "parts" part) >>= λ parts. listed (get "summary" part) >>= λ summary. made (record {
      properties = update gathered.properties properties;
      parts = update gathered.parts parts;
      summary =
          gathered.summary
          ++ filter (λ name. not (contains gathered.summary name)) (value_list summary);
    })

unfoldable pub with_parts : Declared → List Fields → Composed Declared
unfolding with_part
with_parts gathered [] = made gathered
with_parts gathered (part ∷ rest) = with_part gathered part >>= λ next. with_parts next rest

unfoldable pub declared : Corpus → ℕ → Fields → Composed Declared
unfolding composition with_parts
declared corpus fuel schema = composition corpus fuel schema >>= λ built. with_parts nothing built

-- What is declared, as the mapping that the source passes on.
unfoldable pub mapping : Declared → Fields
mapping d =
    entry (named "properties") (fields d.properties) (entry (named "parts") (fields d.parts) end)

-- The schema of the items of a collection, none where the collection is not declared.
unfoldable pub items_under : String → Declared → Composed Fields
unfolding get
items_under collection gathered = elim (get collection gathered.parts) [
  | none ↦ made end
  | some (fields part) ↦ elim (get "items" part) [
    | none ↦ made end
    | some (fields d) ↦ made d
    | some _ ↦ unread
  ]
  | some _ ↦ unread
]

-- `declared_at`, over every other step of a place.
unfoldable pub declared_at : Corpus → ℕ → Declared → List String → Composed Declared
unfolding items_under declared
declared_at corpus fuel gathered [] = made gathered
declared_at corpus fuel gathered (collection ∷ []) =
    items_under collection gathered >>= λ schema. declared corpus fuel schema
declared_at corpus fuel gathered (collection ∷ name ∷ place) =
    items_under collection gathered >>= λ schema.
    declared corpus fuel schema >>= λ inner. declared_at corpus fuel inner place
