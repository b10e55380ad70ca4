-- ===== src/Import/Order.antt =====
-- `in_order` of src/kb/examining.py: the order that the files offered are read in, the types first, each
-- after the types that it is read through. `visit` is on fuel, for each name that the directory brings.
pub mod Beneath
pub mod After
use shopsystem_kb.Base.{
  ℕ, zero, suc, String, Bool, true, false, not, ◌&&◌, ◌||◌, Option, none, some, List, [], ◌∷◌, ◌++◌,
  ◌==◌, contains, string_eq, option_eq, filter, sorted, length, leb, if◌then◌else◌,
}
use shopsystem_kb.Base.Dict.{Dict, keys, lookup}
use shopsystem_kb.Names
use shopsystem_kb.Import.Files.{Offered, iri_of, is_typed, beneath}
use shopsystem_kb.Import.Skipping.{order_number}

-- The loop of a visit, over names, by what visits one.
unfoldable pub visit_each :
    (String → List String → List String → List String)
    → List String
    → List String
    → List String
    → List String
visit_each visit [] seen ordered = ordered
visit_each visit (name ∷ names) seen ordered = visit_each visit names seen (visit name seen ordered)

-- The comparison of two files' keys: by the order of their IRIs, then by their numbers.
unfoldable pub key_le : Option Offered → Option Offered → Bool
unfolding iri_of order_number Names.order_le
key_le (some a) (some b) = elim (iri_of a) [
  | none ↦ true
  | some i ↦ elim (iri_of b) [
    | none ↦ true
    | some j ↦ if i == j then leb (order_number a) (order_number b) else Names.order_le i j
  ]
]
key_le _ _ = true

module _ (by_name : Dict String Offered) where
  unfoldable pub by_key : List String → List String
  unfolding key_le lookup
  by_key names = sorted (λ x y. key_le (lookup x by_name) (lookup y by_name)) names

  unfoldable pub beneath_name : String → List String
  unfolding lookup beneath
  beneath_name name = elim (lookup name by_name) [ none ↦ [] | some each ↦ beneath by_name each ]

  unfoldable pub visit : ℕ → String → List String → List String → List String
  unfolding visit_each by_key beneath_name
  visit zero name seen ordered = ordered
  visit (suc fuel) name seen ordered = elim (contains ordered name || contains seen name) [
    | true ↦ ordered
    | false ↦
        visit_each (visit fuel) (by_key (beneath_name name)) (name ∷ seen) ordered ++ name ∷ []
  ]

  abbrev pub typed_name : String → Bool
  typed_name name = elim (lookup name by_name) [ none ↦ false | some each ↦ is_typed each ]

  -- The types, in the order that they are read in.
  unfoldable pub types_in_order : List String
  unfolding visit_each visit by_key lookup is_typed
  types_in_order =
      visit_each (visit (length (keys by_name))) (by_key (filter typed_name (keys by_name))) [] []

  unfoldable pub in_order : List String
  unfolding types_in_order by_key lookup is_typed
  in_order = types_in_order ++ by_key (filter (λ name. not (typed_name name)) (keys by_name))
