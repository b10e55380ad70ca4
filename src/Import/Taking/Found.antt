-- ===== src/Import/Taking/Found.antt =====
-- The files that an import takes, as they are looked up.
use mathlib.Core.Path.{subst}
use mathlib.Core.Bool.{true≢false}
use mathlib.Core.Option.{some-injective}
use shopsystem_kb.Base.{
  String, ◌≡◌, refl, sym, ap, ◌∙◌, Bool, true, false, none, some, List, [], ◌∷◌, ◌++◌, map, ◌==◌,
  ==_iff, ==_refl, ==_ne, contains, string_eq, filter, In, In-map_of, In-map, In-filter,
  In-filter_of, contains_of_In, In-of_contains, IsUnique, inl, inr, ◌⊎◌, arith, Bool-cases,
  Option-cases, flat_map,
}
use shopsystem_kb.Base.Dict.{Dict, lookup, insert, lookup-insert}
use shopsystem_kb.Import.Chain.{targets}
use shopsystem_kb.Import.Chain.Search.{Leads, alone, onward}
use shopsystem_kb.Import.Files.{
  Offered, name_of, by_name_of, is_metaschema, brings, beneath, file_at, is_sound,
  read_through_from, broken_of,
}
use shopsystem_kb.Import.Skipping.{Skipped, leads_of}
use shopsystem_kb.Import.Taking.{skipped_files, has_errors, is_named, is_taken}

-- A chain from a file that another leads to is one from that other.
pub Leads-before :
    (lead : Dict String (List String)) (broken : List String) (file under : String)
    → In under (targets lead file)
    → {c : List String} {to : String} → Leads lead broken under c to
    → Leads lead broken file (file ∷ c) to
Leads-before lead broken file under m alone = onward alone m
Leads-before lead broken file under m (onward l n) =
    onward (Leads-before lead broken file under m l) n

pub contains-map-filter :
    (p : Offered → Bool) (x : String) (xs : List Offered)
    → contains (map (λ (each : Offered). each.file) xs) x ≡ false
    → contains (map (λ (each : Offered). each.file) (filter p xs)) x ≡ false
contains-map-filter p x [] h = refl
contains-map-filter p x (y ∷ xs) h = ground (arith, contains-map-filter p x xs)

pub IsUnique-filter :
    (p : Offered → Bool) (xs : List Offered)
    → IsUnique (map (λ (each : Offered). each.file) xs)
    → IsUnique (map (λ (each : Offered). each.file) (filter p xs))
IsUnique-filter p [] u = tt
IsUnique-filter p (x ∷ xs) (new, u) = elim (Bool-cases (p x)) [
  | inl h ↦ rw h (contains-map-filter p x.file xs new, IsUnique-filter p xs u)
  | inr h ↦ rw h (IsUnique-filter p xs u)
]

pub once_only :
    (x y : Offered) (xs : List Offered)
    → contains (map (λ (each : Offered). each.file) xs) x.file ≡ false
    → In y xs
    → y.file ≡ x.file
    → ⊥
once_only x y xs new m e =
    let held =
      contains_of_In y.file (map (λ (each : Offered). each.file) xs)
        (In-map_of (λ (each : Offered). each.file) y xs m) in
    true≢false (sym held ∙ ap (contains (map (λ (each : Offered). each.file) xs)) e ∙ new)

-- With each file offered once, a file is looked up as itself.
pub unique_file :
    (xs : List Offered) (a b : Offered)
    → IsUnique (map (λ (each : Offered). each.file) xs)
    → In a xs
    → In b xs
    → a.file ≡ b.file
    → a ≡ b
unique_file [] a b u m n e = absurd m.1
unique_file (x ∷ xs) a b (new, u) (inl p) (inl q) e = p ∙ sym q
unique_file (x ∷ xs) a b (new, u) (inl p) (inr n) e =
    absurd (once_only x b xs new n (sym e ∙ ap (λ (o : Offered). o.file) p))
unique_file (x ∷ xs) a b (new, u) (inr m) (inl q) e =
    absurd (once_only x a xs new m (e ∙ ap (λ (o : Offered). o.file) q))
unique_file (x ∷ xs) a b (new, u) (inr m) (inr n) e = unique_file xs a b u m n e

pub lookup-through :
    (waiting : Dict String (List String)) (by_name : Dict String Offered) (xs : List Offered)
    (each : Offered)
    → IsUnique (map (λ (each : Offered). each.file) xs)
    → In each xs
    → (files : List String) × (lookup each.file (leads_of waiting (read_through_from by_name xs))
        ≡ some (flat_map (file_at by_name) (beneath by_name each) ++ files))
unfolding leads_of read_through_from lookup
lookup-through waiting by_name [] each u m = absurd m.1
lookup-through waiting by_name (x ∷ xs) each (new, u) (inl e) =
    subst
      (λ (z : Offered).
        (files : List String) × (lookup z.file
            (leads_of waiting (read_through_from by_name (x ∷ xs)))
          ≡ some (flat_map (file_at by_name) (beneath by_name z) ++ files)))
      (sym e) (elim (lookup x.file waiting) [ none ↦ [] | some w ↦ w ], rw (==_refl x.file))
lookup-through waiting by_name (x ∷ xs) each (new, u) (inr m) =
    let (files, found) = lookup-through waiting by_name xs each u m in
    let other = ==_ne each.file x.file (λ e. once_only x each xs new m e) in (files, rw other found)

pub broken-In :
    (offered : List Offered) (file : String)
    → contains (broken_of offered) file ≡ true
    → (each : Offered) × In each offered × (has_errors each ≡ true) × (each.file ≡ file)
unfolding broken_of has_errors
broken-In offered file h =
    let (each, m, e) = In-map (λ (each : Offered). each.file) file _ (In-of_contains file _ h) in
    let (there, errs) =
      In-filter (λ (each : Offered). elim (each.errors) [ [] ↦ false | _ ∷ _ ↦ true ]) each offered
        m in
    (each, there, errs, sym e)

pub In-broken :
    (offered : List Offered) (each : Offered)
    → In each offered
    → has_errors each ≡ true
    → contains (broken_of offered) each.file ≡ true
unfolding broken_of has_errors
In-broken offered each m h = contains_of_In each.file _ (
    In-map_of (λ (each : Offered). each.file) each _
      (In-filter_of (λ (each : Offered). elim (each.errors) [ [] ↦ false | _ ∷ _ ↦ true ]) each
        offered m h))

pub lookup-by_name_of :
    (name : String) (each : Offered) (offered : List Offered) (d : Dict String Offered)
    → lookup name (by_name_of offered d) ≡ some each
    → (In each offered × (name_of each ≡ some name)) ⊎ (lookup name d ≡ some each)
unfolding by_name_of
lookup-by_name_of name each [] d e = inr e
lookup-by_name_of name each (x ∷ offered) d e = elim (Option-cases (name_of x)) [
  | inl free ↦ elim (lookup-by_name_of name each offered d (unnamed free)) [
    | inl (m, n) ↦ inl (inr m, n)
    | inr held ↦ inr held
  ]
  | inr (n, named_n) ↦ elim (lookup-by_name_of name each offered (insert n x d) (named n named_n)) [
    | inl (m, k) ↦ inl (inr m, k)
    | inr held ↦ elim (Bool-cases (name == n)) [
      | inl same ↦
          let is = some-injective x each (sym (lookup-insert name n x d ∙ rw same) ∙ held) in
          inl (inl (sym is), ap name_of (sym is) ∙ named_n ∙ ap some (sym ((==_iff name n).0 same)))
      | inr other ↦ inr (sym (lookup-insert name n x d ∙ rw other) ∙ held)
    ]
  ]
]
  where
    unnamed : name_of x ≡ none → lookup name (by_name_of offered d) ≡ some each
    unnamed free =
        sym (
          ap (λ o. lookup name (by_name_of offered (elim o [ none ↦ d | some k ↦ insert k x d ])))
            free)
        ∙ e

    named :
        (n : String)
        → name_of x ≡ some n
        → lookup name (by_name_of offered (insert n x d)) ≡ some each
    named n free =
        sym (
          ap (λ o. lookup name (by_name_of offered (elim o [ none ↦ d | some k ↦ insert k x d ])))
            free)
        ∙ e

pub is_taken_parts :
    (skips : List Skipped) (each : Offered)
    → is_taken skips each ≡ true
    → (is_named each ≡ true)
      × (is_metaschema each ≡ false)
      × (has_errors each ≡ false)
      × (contains (skipped_files skips) each.file ≡ false)
unfolding is_taken
is_taken_parts skips each h = (ground arith, ground arith, ground arith, ground arith)

pub is_taken_of :
    (skips : List Skipped) (each : Offered)
    → is_named each ≡ true
    → is_metaschema each ≡ false
    → has_errors each ≡ false
    → contains (skipped_files skips) each.file ≡ false
    → is_taken skips each ≡ true
unfolding is_taken
is_taken_of skips each a b c d = ground arith

pub targets-some :
    (lead : Dict String (List String)) (file : String) (files : List String)
    → lookup file lead ≡ some files
    → targets lead file ≡ files
unfolding targets
targets-some lead file files e = ground arith

pub is_named_of : (each : Offered) (name : String) → name_of each ≡ some name → is_named each ≡ true
unfolding is_named
is_named_of each name e = ground arith

pub is_sound_of :
    (by_name : Dict String Offered) (broken : List String) (name : String) (each : Offered)
    → name_of each ≡ some name
    → lookup name by_name ≡ some each
    → is_metaschema each ≡ false
    → contains broken each.file ≡ false
    → is_sound by_name broken each ≡ true
unfolding is_sound brings
is_sound_of by_name broken name each n e other clean = ground arith

pub brings-lookup :
    (by_name : Dict String Offered) (name : String)
    → brings by_name name ≡ true
    → (each : Offered) × (lookup name by_name ≡ some each) × (is_metaschema each ≡ false)
unfolding brings
brings-lookup by_name name h = elim (Option-cases (lookup name by_name)) [
  | inl missing ↦ absurd (true≢false (sym h ∙ ground arith))
  | inr (each, e) ↦ (each, e, ground arith)
]

pub lookup-file_at :
    (by_name : Dict String Offered) (name : String) (each : Offered)
    → lookup name by_name ≡ some each
    → In each.file (file_at by_name name)
unfolding file_at
lookup-file_at by_name name each e =
    subst (λ o. In each.file (elim o [ none ↦ [] | some a ↦ a.file ∷ [] ])) (sym e) (inl refl)
