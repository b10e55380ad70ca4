-- ===== src/Import/Skipped.antt =====
-- The files that an import skips are those that lead to a file with an error.
use mathlib.Core.Path.{subst}
use mathlib.Core.Bool.{true≢false}
use shopsystem_kb.Base.{
  In-flat_map, In-flat_map_of, String, ◌≡◌, refl, sym, ap, ◌∙◌, true, false, List, [], ◌∷◌, map,
  contains, string_eq, filter, In, In-map, In-filter, inl, inr, arith,
}
use shopsystem_kb.Base.Dict.{Dict, keys}
use shopsystem_kb.Import.Chain.{Outcome, led, nowhere, unread, out_of_fuel, chain}
use shopsystem_kb.Import.Chain.Search.{Leads}
use shopsystem_kb.Import.Chain.Shortest.{IsShortest, Found, chain-Found}
use shopsystem_kb.Import.Files.{Offered, is_sound, read_through_from, read_through, broken_of}
use shopsystem_kb.Import.Skipping.{Skipped, leads_of, skip_of, skipped}

keys-leads_of :
    (waiting through : Dict String (List String)) → keys (leads_of waiting through) ≡ keys through
unfolding leads_of
keys-leads_of waiting [] = refl
keys-leads_of waiting ((file, files) ∷ through) = ap (λ r. file ∷ r) (keys-leads_of waiting through)

keys-read_through_from :
    (by_name : Dict String Offered) (sound : List Offered)
    → keys (read_through_from by_name sound) ≡ map (λ (each : Offered). each.file) sound
unfolding read_through_from
keys-read_through_from by_name [] = refl
keys-read_through_from by_name (each ∷ sound) =
    ap (λ r. each.file ∷ r) (keys-read_through_from by_name sound)

is_sound-unbroken :
    (by_name : Dict String Offered) (broken : List String) (each : Offered)
    → is_sound by_name broken each ≡ true
    → contains broken each.file ≡ false
unfolding is_sound
is_sound-unbroken by_name broken each h = ground arith

skip_of-led :
    (file : String) (o : Outcome) (skip : Skipped)
    → In skip (skip_of file o)
    → (skip.file ≡ file) × (o ≡ led skip.by)
unfolding skip_of
skip_of-led file (led c) skip (inl e) =
    (ap (λ (s : Skipped). s.file) e, ap (λ (s : Skipped). led s.by) (sym e))
skip_of-led file (led c) skip (inr m) = absurd m.1
skip_of-led file nowhere skip m = absurd m.1
skip_of-led file unread skip m = absurd m.1
skip_of-led file out_of_fuel skip m = absurd m.1

led-skip_of :
    (file : String) (o : Outcome) (c : List String)
    → o ≡ led c
    → In (record { file = file; by = c }) (skip_of file o)
unfolding skip_of
led-skip_of file o c e =
    subst (λ r. In (record { file = file; by = c }) (skip_of file r)) (sym e) (inl refl)

module _ (leads : Dict String (List String)) (broken : List String) (file : String) where
  led-injective : (c d : List String) → led c ≡ led d → c ≡ d
  led-injective c d e = cc

  -- What a search that is over has found.
  Found-led :
      (o : Outcome) (c : List String)
      → Found leads broken file o
      → o ≡ led c
      → IsShortest leads broken file c
  Found-led o c (inl (d, e, s)) h =
      subst (IsShortest leads broken file) (led-injective d c (sym e ∙ h)) s
  Found-led o c (inr (e, _)) h = absurd (cc)

  Found-some :
      (o : Outcome) (c : List String) (to : String)
      → Found leads broken file o
      → Leads leads broken file c to
      → contains broken to ≡ true
      → (d : List String) × (o ≡ led d)
  Found-some o c to (inl (d, e, s)) l b = (d, e)
  Found-some o c to (inr (e, clean)) l b = absurd (true≢false (sym b ∙ clean c to l))

module _ (offered : List Offered) (by_name : Dict String Offered)
    (waiting : Dict String (List String)) where
  -- What each file leads to, a type version that it is read through or a file that it waits for.
  abbrev pub leads : Dict String (List String)
  leads = leads_of waiting (read_through offered by_name)

  -- A file that `_read_through` gives has no error.
  unbroken : (file : String) → In file (keys leads) → contains (broken_of offered) file ≡ false
  unfolding read_through
  unbroken file m =
      let named =
        subst (In file)
          (keys-leads_of waiting (read_through offered by_name)
            ∙ keys-read_through_from by_name
                (filter (is_sound by_name (broken_of offered)) offered))
          m in
      let (each, sound, e) = In-map (λ (each : Offered). each.file) file _ named in
      let (_, h) = In-filter (is_sound by_name (broken_of offered)) each offered sound in
      ap (contains (broken_of offered)) e ∙ is_sound-unbroken by_name (broken_of offered) each h

  abbrev each_skip : String → List Skipped
  each_skip file = skip_of file (chain file leads (broken_of offered))

  abbrev outcome : String → Outcome
  outcome file = chain file leads (broken_of offered)

  -- A file that an import skips has no error, and is given with a chain of files that leads from it to
  -- one with an error, no such chain being shorter.
  pub skipped-IsShortest :
      (skip : Skipped)
      → In skip (skipped offered by_name waiting)
      → In skip.file (keys leads) × IsShortest leads (broken_of offered) skip.file skip.by
  unfolding skipped
  skipped-IsShortest skip m =
      let (file, k, h) = In-flat_map each_skip skip (keys leads) m in
      let (at_file, o) = skip_of-led file (outcome file) skip h in
      let shortest =
        Found-led leads (broken_of offered) file (outcome file) skip.by
          (chain-Found leads (broken_of offered) file (unbroken file k)) o in
      (
        subst (λ f. In f (keys leads)) (sym at_file) k,
        subst (λ f. IsShortest leads (broken_of offered) f skip.by) (sym at_file) shortest,
      )

  -- A file without an error that leads to one with an error is skipped.
  pub skipped-all :
      (file : String) (by : List String) (to : String)
      → In file (keys leads)
      → Leads leads (broken_of offered) file by to
      → contains (broken_of offered) to ≡ true
      → (skip : Skipped) × In skip (skipped offered by_name waiting) × (skip.file ≡ file)
  unfolding skipped
  skipped-all file by to k l b =
      let (c, o) =
        Found-some leads (broken_of offered) file (outcome file) by to
          (chain-Found leads (broken_of offered) file (unbroken file k)) l b in
      (
        record { file = file; by = c },
        In-flat_map_of each_skip file (record { file = file; by = c }) (keys leads) k
            (led-skip_of file (outcome file) c o),
        refl,
      )
