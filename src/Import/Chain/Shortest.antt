-- ===== src/Import/Chain/Shortest.antt =====
-- What the search of `_chain` comes to.
use shopsystem_kb.Base.{
  ℕ, zero, suc, ◌+◌, ◌≤◌, String, ◌≡◌, refl, sym, ap, ◌∙◌, true, false, some, List, [], ◌∷◌, ◌++◌,
  contains, string_eq, length, In, ◌⊎◌, inl, inr, arith, In-append_left, In-append_right, ◌==◌,
  Bool-cases,
}
use mathlib.Core.Path.{subst}
use mathlib.Core.Bool.{true≢false}
use native.Mathlib.Decide.{dec_lt}
use shopsystem_kb.Base.Dict.{Dict, lookup}
use shopsystem_kb.Import.Chain.{
  led, nowhere, found, going, scan, targets, search, all_targets, chain, Outcome,
}
use shopsystem_kb.Import.Chain.Scan.{scan_cases, unseen, length-concat}
use shopsystem_kb.Import.Chain.Search.{Leads, alone, onward, Inv, Rising, near_sound, Inv-scan}

targets-here :
    (j file : String) (files : List String) (leads : Dict String (List String))
    → (file == j) ≡ true
    → targets ((j, files) ∷ leads) file ≡ files
unfolding targets lookup
targets-here j file files leads e = ground arith

targets-there :
    (j file : String) (files : List String) (leads : Dict String (List String))
    → (file == j) ≡ false
    → targets ((j, files) ∷ leads) file ≡ targets leads file
unfolding targets lookup
targets-there j file files leads e = ground arith

targets-all :
    (leads : Dict String (List String)) (file x : String)
    → In x (targets leads file)
    → In x (all_targets leads)
unfolding targets lookup
targets-all [] file x m = m
targets-all ((j, files) ∷ leads) file x m = elim (Bool-cases (file == j)) [
  | inl e ↦
      In-append_left x files (all_targets leads)
        (subst (In x) (targets-here j file files leads e) m)
  | inr n ↦
      In-append_right x files (all_targets leads)
        (targets-all leads file x (subst (In x) (targets-there j file files leads n) m))
]

unseen-le : (chains : Dict String (List String)) (xs : List String) → unseen chains xs ≤ length xs
unseen-le chains [] = omega arith
unseen-le chains (x ∷ xs) = ground (arith, unseen-le chains xs)

module _ (leads : Dict String (List String)) (broken : List String) (start : String) where
  -- A chain that leads to a broken file, and no chain that leads to one is shorter.
  abbrev pub IsShortest : List String → Type 0
  IsShortest c =
      ((x : String) × Leads leads broken start c x × (contains broken x ≡ true))
      × ((d : List String) (y : String)
          → Leads leads broken start d y
          → contains broken y ≡ true
          → length c ≤ length d)

  abbrev pub Found : Outcome → Type 0
  Found outcome =
      ((c : List String) × (outcome ≡ led c) × IsShortest c)
      ⊎ ((outcome ≡ nowhere)
          × ((d : List String) (y : String)
              → Leads leads broken start d y
              → contains broken y ≡ false))

  module _ (chains : Dict String (List String)) (file : String) (rest c : List String) where
    search-found :
        (fuel : ℕ) (by : List String)
        → lookup file chains ≡ some c
        → scan broken c (targets leads file) chains rest ≡ found by
        → search leads broken (suc fuel) chains (file ∷ rest) ≡ led by
    unfolding search
    search-found fuel by h e = ground arith

    search-going :
        (fuel : ℕ) (chains' : Dict String (List String)) (waiting' : List String)
        → lookup file chains ≡ some c
        → scan broken c (targets leads file) chains rest ≡ going chains' waiting'
        → search leads broken (suc fuel) chains (file ∷ rest)
          ≡ search leads broken fuel chains' waiting'
    unfolding search
    search-going fuel chains' waiting' h e = ground arith

  search-empty :
      (fuel : ℕ) (chains : Dict String (List String)) → search leads broken fuel chains [] ≡ nowhere
  unfolding search
  search-empty zero chains = refl
  search-empty (suc fuel) chains = refl

  not_shorter :
      (n : ℕ) (chains : Dict String (List String)) (file : String) (rest c : List String)
      (by d : List String) (y : String)
      → Inv leads broken start n chains (file ∷ rest)
      → Rising leads broken start chains (length c) (file ∷ rest)
      → length by ≡ suc (length c)
      → Leads leads broken start d y
      → contains broken y ≡ true
      → length by ≤ length d
  not_shorter n chains file rest c by d y v r longer l b = elim (dec_lt (length c) (length d)) [
    | no near ↦
        let clean =
          near_sound leads broken start n (length c) chains (file ∷ rest) v r l (omega arith) in
        absurd (true≢false (sym b ∙ clean))
    | yes far ↦ omega arith
  ]

  search-Found :
      (fuel n : ℕ) (chains : Dict String (List String)) (waiting : List String)
      → Inv leads broken start n chains waiting
      → unseen chains (all_targets leads) + length waiting ≤ fuel
      → Found (search leads broken fuel chains waiting)
  search-Found fuel n chains [] v enough = inr (
    search-empty fuel chains,
    λ d y l. near_sound leads broken start n (length d) chains [] v tt l (omega arith),
  )
  search-Found zero n chains (file ∷ rest) v enough = absurd (omega arith)
  search-Found (suc fuel) n chains (file ∷ rest) v enough =
      let (c, held, le, r) = v.rising in
      elim (scan_cases broken c (targets leads file) chains rest) [
        | inl (to, e, m, b) ↦ inl (
          c ++ to ∷ [],
          search-found chains file rest c fuel (c ++ to ∷ []) held e,
          (
            (to, onward (v.real file c held) m, b),
            λ d y l yb.
                not_shorter n chains file rest c (c ++ to ∷ []) d y v (c, held, omega arith, r)
                  (length-concat to c) l yb,
          ),
        )
        | inr (chains', waiting', e, s) ↦
            subst Found (sym (search-going chains file rest c fuel chains' waiting' held e)) (
              search-Found fuel (length c) chains' waiting'
                (Inv-scan leads broken start n chains chains' file rest waiting' c v held le r s)
                (omega (arith, s.fewer (all_targets leads) (targets-all leads file))))
      ]

  abbrev begun : Dict String (List String)
  begun = (start, start ∷ []) ∷ []

  begun_lem :
      (x : String) (c : List String) → lookup x begun ≡ some c → (x ≡ start) × (c ≡ start ∷ [])
  unfolding lookup
  begun_lem x c h = ground arith

  begun-first : lookup start begun ≡ some (start ∷ [])
  unfolding lookup
  begun-first = ground arith

  Inv-begun : contains broken start ≡ false → Inv leads broken start 0 begun (start ∷ [])
  Inv-begun sound = record {
    first = begun-first;
    real = λ x c e.
        let (at_start, made) = begun_lem x c e in
        subst (λ d. Leads leads broken start d x) (sym made)
          (subst (Leads leads broken start (start ∷ [])) (sym at_start) alone);
    sound = λ x c e. ap (contains broken) (begun_lem x c e).0 ∙ sound;
    near = λ x c e. omega (arith, ap length (begun_lem x c e).1);
    rising = (start ∷ [], begun-first, omega arith, tt);
    passed = λ x c e. inl (inl (begun_lem x c e).0);
  }

  -- From a file that is not broken, the search of `_chain` ends: with a chain of files that leads to a
  -- broken one, no chain that does being shorter; or with none, where no chain leads to a broken file.
  pub chain-Found : contains broken start ≡ false → Found (chain start leads broken)
  unfolding chain
  chain-Found sound =
      search-Found (suc (length (all_targets leads))) 0 begun (start ∷ []) (Inv-begun sound)
        (omega (arith, unseen-le begun (all_targets leads)))
