-- ===== src/Tests/Import.antt =====
-- An import of a type and of an artifact of it, with an error in the type's file and without.
use shopsystem_kb.Base.{
  ℕ, ◌<◌, String, ◌≡◌, refl, ap, ◌∙◌, true, false, none, some, List, [], ◌∷◌, contains, string_eq,
  option_eq, nat_eq, In, inl, inr, IsUnique, map, arith, Bool-cases, if◌then◌else◌, ◌==◌, ==_iff,
}
use shopsystem_kb.Base.Texts.{char_eq}
use shopsystem_kb.Base.Dict.{Dict, keys, lookup}
use shopsystem_kb.Content.{key_eq, named, text, end, entry}
use shopsystem_kb.Requests.{Fault}
use shopsystem_kb.Import.Chain.{led, chain, targets}
use shopsystem_kb.Import.Chain.Search.{Leads, alone, onward}
use shopsystem_kb.Import.Chain.Shortest.{Found, IsShortest, chain-Found}
use mathlib.Core.Path.{subst, ap}
use shopsystem_kb.Import.Files.{Offered, by_name_of, broken_of, beneath, read_through}
use shopsystem_kb.Import.Skipping.{Skipped, skipped, leads_of}
use shopsystem_kb.Import.Skipped.{leads, skipped-IsShortest, skipped-all}
use shopsystem_kb.Import.Taking.{is_taken}
use shopsystem_kb.Import.Closed.{taken-closed}
use shopsystem_kb.Import.Order.{beneath_name, typed_name, types_in_order}
use shopsystem_kb.Import.Order.After.{Follows, types_in_order-Follows}

abbrev two_steps : Dict String (List String)
two_steps = ("a", "b" ∷ "c" ∷ []) ∷ ("b", "d" ∷ []) ∷ ("c", "a" ∷ []) ∷ []

a-unbroken : contains {A = String} ("d" ∷ []) "a" ≡ false
unfolding string_eq char_eq
a-unbroken = refl

chain-Found_example : Found two_steps ("d" ∷ []) "a" (chain "a" two_steps ("d" ∷ []))
chain-Found_example = chain-Found two_steps ("d" ∷ []) "a" a-unbroken

chain_run : chain "a" two_steps ("d" ∷ []) ≡ led ("a" ∷ "b" ∷ "d" ∷ [])
unfolding chain string_eq char_eq
chain_run = refl

abbrev note_file : List Fault → Offered
note_file errors = record {
  file = "example.org/note@1.yaml";
  filed = some ("https://example.org/note", some 1);
  artifact = some (entry (named "type") (text "https://missingmass.io/kb/type@1") end);
  errors = errors;
}

abbrev one_file : Offered
one_file = record {
  file = "example.org/note/one.yaml";
  filed = some ("https://example.org/note/one", none);
  artifact = some (entry (named "type") (text "https://example.org/note@1") end);
  errors = [];
}

abbrev a_fault : Fault
a_fault = record { artifact = "example.org/note@1.yaml"; place = ""; rule = "content" }

abbrev broken_files : List Offered
broken_files = note_file (a_fault ∷ []) ∷ one_file ∷ []

abbrev whole_files : List Offered
whole_files = note_file [] ∷ one_file ∷ []

abbrev broken_by_name : Dict String Offered
broken_by_name =
    ("https://example.org/note@1", note_file (a_fault ∷ []))
    ∷ ("https://example.org/note/one", one_file)
    ∷ []

broken_by_name_run : by_name_of broken_files [] ≡ broken_by_name
unfolding by_name_of string_eq char_eq option_eq
broken_by_name_run = refl

abbrev one_skip : Skipped
one_skip = record {
  file = "example.org/note/one.yaml";
  by = "example.org/note/one.yaml" ∷ "example.org/note@1.yaml" ∷ [];
}

skipped_run : skipped broken_files broken_by_name [] ≡ one_skip ∷ []
unfolding skipped string_eq char_eq option_eq key_eq nat_eq
skipped_run = refl

one_skip-In : In one_skip (skipped broken_files broken_by_name [])
unfolding skipped string_eq char_eq option_eq key_eq nat_eq
one_skip-In = inl refl

skipped-IsShortest_example :
    In "example.org/note/one.yaml" (keys (leads broken_files broken_by_name []))
    × IsShortest
        (leads broken_files broken_by_name [])
        (broken_of broken_files)
        "example.org/note/one.yaml"
        ("example.org/note/one.yaml" ∷ "example.org/note@1.yaml" ∷ [])
skipped-IsShortest_example = skipped-IsShortest broken_files broken_by_name [] one_skip one_skip-In

one-leads :
    Leads
      (leads broken_files broken_by_name [])
      (broken_of broken_files)
      "example.org/note/one.yaml"
      ("example.org/note/one.yaml" ∷ "example.org/note@1.yaml" ∷ [])
      "example.org/note@1.yaml"
unfolding leads_of read_through broken_of string_eq char_eq option_eq key_eq nat_eq targets
one-leads = onward alone (inl refl)

one-In : In "example.org/note/one.yaml" (keys (leads broken_files broken_by_name []))
unfolding leads_of read_through broken_of string_eq char_eq option_eq key_eq nat_eq
one-In = inl refl

note-broken : contains (broken_of broken_files) "example.org/note@1.yaml" ≡ true
unfolding broken_of string_eq char_eq
note-broken = refl

skipped-all_example :
    (skip : Skipped) × In skip (skipped broken_files broken_by_name [])
    × (skip.file ≡ "example.org/note/one.yaml")
skipped-all_example =
    skipped-all broken_files broken_by_name [] "example.org/note/one.yaml"
      ("example.org/note/one.yaml" ∷ "example.org/note@1.yaml" ∷ []) "example.org/note@1.yaml"
      one-In one-leads note-broken

whole-IsUnique : IsUnique (map (λ (each : Offered). each.file) whole_files)
unfolding string_eq char_eq
whole-IsUnique = (refl, (refl, tt))

one-found : lookup "https://example.org/note/one" (by_name_of whole_files []) ≡ some one_file
unfolding lookup by_name_of string_eq char_eq option_eq
one-found = refl

one-taken : is_taken (skipped whole_files (by_name_of whole_files []) []) one_file ≡ true
unfolding is_taken skipped by_name_of string_eq char_eq option_eq key_eq nat_eq
one-taken = refl

note-beneath : In "https://example.org/note@1" (beneath (by_name_of whole_files []) one_file)
unfolding beneath by_name_of string_eq char_eq option_eq key_eq nat_eq
note-beneath = inl refl

taken-closed_example :
    (below : Offered) × (lookup "https://example.org/note@1" (by_name_of whole_files [])
      ≡ some below)
    × (is_taken (skipped whole_files (by_name_of whole_files []) []) below ≡ true)
taken-closed_example =
    taken-closed whole_files [] whole-IsUnique "https://example.org/note/one"
      "https://example.org/note@1" one_file one-found one-taken note-beneath

abbrev by_name_whole : Dict String Offered
by_name_whole =
    ("https://example.org/note@1", note_file []) ∷ ("https://example.org/note/one", one_file) ∷ []

abbrev depth : String → ℕ
depth name = if name == "https://example.org/note/one" then 1 else 0

beneath_one :
    beneath_name by_name_whole "https://example.org/note/one" ≡ "https://example.org/note@1" ∷ []
unfolding beneath_name lookup string_eq char_eq option_eq key_eq nat_eq
beneath_one = refl

beneath_note : beneath_name by_name_whole "https://example.org/note@1" ≡ []
unfolding beneath_name lookup string_eq char_eq option_eq key_eq nat_eq
beneath_note = refl

beneath_other :
    (name : String)
    → (name == "https://example.org/note/one") ≡ false
    → (name == "https://example.org/note@1") ≡ false
    → beneath_name by_name_whole name ≡ []
unfolding beneath_name lookup
beneath_other name h k = ground arith

depth-note : depth "https://example.org/note@1" ≡ 0
unfolding string_eq char_eq
depth-note = refl

depth-one : depth "https://example.org/note/one" ≡ 1
unfolding string_eq char_eq
depth-one = refl

depth-falls :
    (name under : String) → In under (beneath_name by_name_whole name) → depth under < depth name
depth-falls name under m = elim (Bool-cases (name == "https://example.org/note/one")) [
  | inl e ↦
      let is = (==_iff name "https://example.org/note/one").0 e in
      let at = subst (In under) (ap (beneath_name by_name_whole) is ∙ beneath_one) m in
      elim at [
        | inl u ↦
            let zero_deep = ap depth u ∙ depth-note in
            let one_deep = ap depth is ∙ depth-one in omega arith
        | inr n ↦ absurd n.1
      ]
  | inr h ↦ elim (Bool-cases (name == "https://example.org/note@1")) [
    | inl e ↦
        let is = (==_iff name "https://example.org/note@1").0 e in
        absurd (subst (In under) (ap (beneath_name by_name_whole) is ∙ beneath_note) m).1
    | inr k ↦ absurd (subst (In under) (beneath_other name h k) m).1
  ]
]

types_in_order-Follows_example :
    Follows by_name_whole depth depth-falls [] (types_in_order by_name_whole)
    × ((name : String)
        → In name (keys by_name_whole)
        → typed_name by_name_whole name ≡ true
        → In name (types_in_order by_name_whole))
types_in_order-Follows_example = types_in_order-Follows by_name_whole depth depth-falls
