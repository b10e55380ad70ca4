-- ===== src/Standing/Removal.antt =====
-- `in_the_way`, `removes_a_type` and `defines_a_type` of src/kb/standing.py, and of src/kb/composition.py
-- the `readers` of a type.
use shopsystem_kb.Base.{
  ℕ, String, Bool, true, false, not, ◌&&◌, Option, none, some, List, [], ◌∷◌, ◌++◌, map, ◌==◌,
  contains, string_eq, option_eq, filter, sorted, distinct, flat_map, if◌then◌else◌,
}
use shopsystem_kb.Names
use shopsystem_kb.Port.{Linking}
use shopsystem_kb.Content.{Fields, get}
use shopsystem_kb.Requests.{Fault}
use shopsystem_kb.Refusals.{still_linked}
use shopsystem_kb.Types.Composition.{Reference, references, nearest_was}
use shopsystem_kb.Types.Declared.{Composed, made, unread, ◌>>=◌}
use shopsystem_kb.Draft.{Store, Draft, ids, versions, type_version, corpus_of}
use shopsystem_kb.Draft.Linked.{waiting}

-- Whether an operation's type, a type version's IRI, is that of a version of the type of types.
unfoldable pub of_types : String → Bool
unfolding Names.version
of_types type = elim (Names.version type) [ none ↦ false | some (kind, _) ↦ kind == Names.types ]

unfoldable pub removes_a_type : Option Fields → String → Bool
unfolding of_types
removes_a_type none type = of_types type
removes_a_type (some _) type = false

unfoldable pub defines_a_type : String → String → Bool
unfolding of_types
defines_a_type op type = op == "create" && of_types type

abbrev type_of : Reference → List String
type_of r = elim (r.type_id) [ none ↦ [] | some type_id ↦ type_id ∷ [] ]

-- `referred`, of a type's schema.
unfoldable pub referred : Fields → List String
unfolding get references
referred content = elim (get "schema" content) [
  | none ↦ []
  | some schema ↦ flat_map type_of (references schema)
]

module _ (store : Store) (draft : Draft) where
  -- Whether a version of some numbers names another type; a version that the draft does not keep is
  -- the KeyError of its read.
  unfoldable pub reads_any : String → String → List ℕ → Composed Bool
  unfolding type_version referred
  reads_any reader type_id [] = made false
  reads_any reader type_id (n ∷ numbers) =
      let further = reads_any reader type_id numbers in
      elim ((type_version store (record { kind = reader; number = n }) draft).0) [
        | none ↦ unread
        | some found ↦ if contains (referred found.content) type_id then made true else further
      ]

  -- `_reads`
  unfoldable pub reads : String → String → Composed Bool
  unfolding reads_any versions
  reads reader type_id = reads_any reader type_id (versions store reader draft)

  unfoldable pub readers_among : String → List String → Composed (List String)
  unfolding reads
  readers_among type_id [] = made []
  readers_among type_id (each ∷ rest) =
      let further = readers_among type_id rest in
      if each == type_id
      then further
      else reads each type_id >>= λ found.
          further >>= λ more. made (if found then each ∷ more else more)

  unfoldable pub readers : String → Composed (List String)
  unfolding readers_among ids
  readers type_id = readers_among type_id (ids store Names.types draft)

  -- The faults of what stands in the way, of those that read the type or wait under it.
  unfoldable pub blocked : String → List String → List Fault
  unfolding ids Names.order_le still_linked
  blocked removed [] = []
  blocked removed (each ∷ rest) =
      map (λ other. still_linked other "")
        (sorted Names.order_le (distinct ((each ∷ rest) ++ ids store removed draft)))

  unfoldable pub in_the_way : ℕ → String → Option Fields → String → Composed (List Fault)
  unfolding removes_a_type waiting nearest_was corpus_of readers blocked
  in_the_way fuel removed left type =
      if not (removes_a_type left type)
      then made []
      else waiting store fuel draft >>= λ links. readers removed >>= λ reading. made (
          blocked removed (
            reading
            ++ map (λ (each : Linking). each.source)
                (filter
                  (λ (each : Linking). nearest_was (corpus_of store draft) each.target removed)
                  links)))
