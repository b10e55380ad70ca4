-- ===== src/Import/Closed.antt =====
-- What an import takes is closed under what it is read through.
use mathlib.Core.Path.{subst}
use mathlib.Core.Bool.{true≢false}
use shopsystem_kb.Base.{
  In-flat_map_of, String, ◌≡◌, sym, ap, ◌∙◌, true, false, some, List, [], ◌∷◌, ◌++◌, map, contains,
  string_eq, filter, In, In-append_left, In-map_of, In-map, In-filter_of, contains_of_In,
  In-of_contains, IsUnique, inl, inr, Bool-cases, flat_map,
}
use shopsystem_kb.Base.Dict.{Dict, lookup, In-of_lookup}
use shopsystem_kb.Import.Chain.{targets}
use shopsystem_kb.Import.Chain.Search.{Leads, alone, onward}
use shopsystem_kb.Import.Files.{
  Offered, name_of, by_name_of, beneath, file_at, is_sound, read_through, broken_of,
}
use shopsystem_kb.Import.Order.Beneath.{beneath-brings}
use shopsystem_kb.Import.Skipping.{Skipped, skipped}
use shopsystem_kb.Import.Skipped.{leads, skipped-IsShortest, skipped-all}
use shopsystem_kb.Import.Taking.{skipped_files, has_errors, is_taken}
use shopsystem_kb.Import.Taking.Found.{
  Leads-before, IsUnique-filter, unique_file, lookup-through, broken-In, In-broken,
  lookup-by_name_of, is_taken_parts, is_taken_of, targets-some, is_named_of, is_sound_of,
  brings-lookup, lookup-file_at,
}

module _ (offered : List Offered) (waiting : Dict String (List String))
    (once : IsUnique (map (λ (each : Offered). each.file) offered)) where
  abbrev by_name : Dict String Offered
  by_name = by_name_of offered []

  abbrev skips : List Skipped
  skips = skipped offered by_name waiting

  abbrev lead : Dict String (List String)
  lead = leads offered by_name waiting

  offered_as :
      (name : String) (each : Offered)
      → lookup name by_name ≡ some each
      → In each offered × (name_of each ≡ some name)
  unfolding lookup
  offered_as name each e = elim (lookup-by_name_of name each offered [] e) [
    | inl h ↦ h
    | inr h ↦ absurd (cc)
  ]

  unbroken :
      (each : Offered)
      → In each offered
      → has_errors each ≡ false
      → contains (broken_of offered) each.file ≡ false
  unbroken each m clean = elim (Bool-cases (contains (broken_of offered) each.file)) [
    | inr h ↦ h
    | inl h ↦
        let (other, n, errs, e) = broken-In offered each.file h in
        let same = unique_file offered other each once n m e in
        absurd (true≢false (sym errs ∙ ap has_errors same ∙ clean))
  ]

  taken-IsSound :
      (name : String) (each : Offered)
      → lookup name by_name ≡ some each
      → is_taken skips each ≡ true
      → is_sound by_name (broken_of offered) each ≡ true
  taken-IsSound name each e t =
      let (m, n) = offered_as name each e in
      let (_, other, clean, _) = is_taken_parts skips each t in
      is_sound_of by_name (broken_of offered) name each n e other (unbroken each m clean)

  -- The files that a file which is taken leads to.
  taken-targets :
      (name : String) (each : Offered)
      → lookup name by_name ≡ some each
      → is_taken skips each ≡ true
      → (files : List String) × (lookup each.file lead
          ≡ some (flat_map (file_at by_name) (beneath by_name each) ++ files))
  unfolding read_through
  taken-targets name each e t =
      let p = is_sound by_name (broken_of offered) in
      lookup-through waiting by_name (filter p offered) each (IsUnique-filter p offered once)
        (In-filter_of p each offered (offered_as name each e).0 (taken-IsSound name each e t))

  -- A file that is taken leads to no broken file.
  Leads-nowhere :
      (name : String) (each : Offered)
      → lookup name by_name ≡ some each
      → is_taken skips each ≡ true
      → (c : List String) (to : String) → Leads lead (broken_of offered) each.file c to
      → contains (broken_of offered) to ≡ false
  Leads-nowhere name each e t c to l = elim (Bool-cases (contains (broken_of offered) to)) [
    | inr h ↦ h
    | inl h ↦
        let (files, found) = taken-targets name each e t in
        let key =
          In-map_of (λ (k, _). k) (each.file, _) lead (In-of_lookup each.file _ lead found) in
        let (skip, m, is) = skipped-all offered by_name waiting each.file c to key l h in
        let there =
          contains_of_In skip.file (skipped_files skips)
            (In-map_of (λ (s : Skipped). s.file) skip skips m) in
        let (_, _, _, kept) = is_taken_parts skips each t in
        absurd (true≢false (sym there ∙ ap (contains (skipped_files skips)) is ∙ kept))
  ]

  no_errors :
      (each : Offered)
      → In each offered
      → contains (broken_of offered) each.file ≡ false
      → has_errors each ≡ false
  no_errors each m clean = elim (Bool-cases (has_errors each)) [
    | inr h ↦ h
    | inl h ↦ absurd (true≢false (sym (In-broken offered each m h) ∙ clean))
  ]

  not_skipped :
      (name : String) (each below : Offered)
      → lookup name by_name ≡ some each
      → is_taken skips each ≡ true
      → In below.file (targets lead each.file)
      → contains (skipped_files skips) below.file ≡ false
  not_skipped name each below e t led =
      elim (Bool-cases (contains (skipped_files skips) below.file)) [
        | inr h ↦ h
        | inl h ↦
            let (skip, m, is) =
              In-map (λ (s : Skipped). s.file) below.file skips
                (In-of_contains below.file (skipped_files skips) h) in
            let (_, ((to, l, b), _)) = skipped-IsShortest offered by_name waiting skip m in
            let from_below = subst (λ f. Leads lead (broken_of offered) f skip.by to) (sym is) l in
            let chain = Leads-before lead (broken_of offered) each.file below.file led from_below in
            absurd (true≢false (sym b ∙ Leads-nowhere name each e t (each.file ∷ skip.by) to chain))
      ]

  -- With each file offered once, an import that takes a file takes every type version that the directory
  -- brings and that the file is read through.
  pub taken-closed :
      (name under : String) (each : Offered)
      → lookup name (by_name_of offered []) ≡ some each
      → is_taken (skipped offered (by_name_of offered []) waiting) each ≡ true
      → In under (beneath (by_name_of offered []) each)
      → (below : Offered) × (lookup under (by_name_of offered []) ≡ some below)
        × (is_taken (skipped offered (by_name_of offered []) waiting) below ≡ true)
  taken-closed name under each e t m =
      let (below, found, other) =
        brings-lookup by_name under (beneath-brings by_name each under m) in
      let (n, named) = offered_as under below found in
      let (files, leads_to) = taken-targets name each e t in
      let led : In below.file (targets lead each.file) =
        subst (In below.file) (sym (targets-some lead each.file _ leads_to)) (
          In-append_left below.file (flat_map (file_at by_name) (beneath by_name each)) files (
            In-flat_map_of (file_at by_name) under below.file (beneath by_name each) m
              (lookup-file_at by_name under below found))) in
      let clean =
        Leads-nowhere name each e t (each.file ∷ below.file ∷ []) below.file (onward alone led) in
      (
        below,
        found,
        is_taken_of skips below (is_named_of below under named) other (no_errors below n clean)
            (not_skipped name each below e t led),
      )
