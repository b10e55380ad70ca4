-- ===== src/Import/Skipping.antt =====
-- src/kb/skipping.py: the files that an import would skip, and the types that it would lose.
use shopsystem_kb.Base.{
  ℕ, zero, suc, String, Bool, true, false, not, ◌&&◌, Option, none, some, List, [], ◌∷◌, ◌++◌, map,
  ◌==◌, contains, string_eq, option_eq, filter, any, all, sorted, leb, if◌then◌else◌, flat_map,
}
use shopsystem_kb.Base.Dict.{Dict, keys, lookup, insert}
use shopsystem_kb.Names
use shopsystem_kb.Types.Composition.{Corpus, nearest_type}
use shopsystem_kb.Import.Chain.{Outcome, led, nowhere, unread, out_of_fuel, chain}
use shopsystem_kb.Import.Files.{
  Offered, name_of, iri_of, number_of, is_typed, is_metaschema, beneath, read_through, broken_of,
}

pub record Skipped : Type 0 where
  pub file : String
  pub by : List String

-- `leads`
unfoldable pub leads_of :
    Dict String (List String) → Dict String (List String) → Dict String (List String)
unfolding lookup
leads_of waiting through =
    map (λ (file, files). (file, files ++ elim (lookup file waiting) [ none ↦ [] | some w ↦ w ]))
      through

-- What a file is skipped for: the chain that `_chain` gives, when it is not None.
unfoldable pub skip_of : String → Outcome → List Skipped
skip_of file (led c) = record { file = file; by = c } ∷ []
skip_of file nowhere = []
skip_of file unread = []
skip_of file out_of_fuel = []

unfoldable pub skipped :
    List Offered → Dict String Offered → Dict String (List String) → List Skipped
unfolding leads_of skip_of chain read_through broken_of
skipped offered by_name waiting =
    let leads = leads_of waiting (read_through offered by_name) in
    flat_map (λ file. skip_of file (chain file leads (broken_of offered))) (keys leads)

-- `held_back`, on fuel.
unfoldable pub held_back : Dict String Offered → ℕ → Offered → List String → Bool
unfolding lookup beneath name_of
held_back by_name zero each seen = false
held_back by_name (suc fuel) each seen =
    let seen_now : List String = elim (name_of each) [ none ↦ seen | some name ↦ name ∷ seen ] in
    any
      (λ (under : String). elim (lookup under by_name) [
        | none ↦ false
        | some below ↦ elim (below.errors) [
          | [] ↦ held_back by_name fuel below seen_now
          | _ ∷ _ ↦ true
        ]
      ])
      (filter (λ under. not (contains seen_now under)) (beneath by_name each))

-- `each.number or 0`
unfoldable pub order_number : Offered → ℕ
unfolding number_of
order_number each = elim (number_of each) [ none ↦ 0 | some n ↦ n ]

-- `versions.setdefault(each.id, []).append(each.file)`
unfoldable pub gathered : List Offered → Dict String (List String) → Dict String (List String)
unfolding iri_of lookup insert
gathered [] d = d
gathered (each ∷ rest) d = gathered rest (elim (iri_of each) [
  | none ↦ d
  | some iri ↦ insert iri (elim (lookup iri d) [ none ↦ [] | some fs ↦ fs ] ++ each.file ∷ []) d
])

-- Whether `_chain` gives a chain.
unfoldable pub leads_to_broken : Outcome → Bool
leads_to_broken (led c) = true
leads_to_broken nowhere = false
leads_to_broken unread = false
leads_to_broken out_of_fuel = false

unfoldable pub left_out : List Offered → Dict String Offered → List String
unfolding read_through broken_of chain leads_to_broken
left_out offered by_name =
    let through = read_through offered by_name in
    let broken = broken_of offered in
    broken ++ filter (λ file. leads_to_broken (chain file through broken)) (keys through)

-- The type versions that the directory brings, by their numbers.
unfoldable pub versions_offered : Dict String Offered → Dict String (List String)
unfolding is_typed is_metaschema order_number gathered
versions_offered by_name =
    gathered
      (sorted (λ a b. leb (order_number a) (order_number b))
        (filter (λ each. is_typed each && not (is_metaschema each))
          (map (λ (_, each). each) by_name)))
      []

unfoldable pub lost :
    (String → Bool) → List Offered → Dict String Offered → Dict String (List String)
unfolding left_out versions_offered
lost holds offered by_name =
    let out = left_out offered by_name in
    filter (λ (iri, held). not (holds iri) && all (contains out) held) (versions_offered by_name)

-- The loop of `under`, over the IRIs above a link's target.
unfoldable pub under_among : Option String → Dict String (List String) → List String → Option String
unfolding lookup
under_among nearest gone [] = none
under_among nearest gone (above ∷ rest) =
    let further = under_among nearest gone rest in
    if some above == nearest
    then none
    else elim (lookup above gone) [ none ↦ further | some _ ↦ some above ]

unfoldable pub under : String → Dict String (List String) → Corpus → Option String
unfolding under_among nearest_type Names.above
under target gone landing = under_among (nearest_type landing target) gone (Names.above target)
