-- ===== src/Import/Order/After.antt =====
-- Each type is read after the types that it is read through.
use mathlib.Core.Path.{subst}
use mathlib.Core.Bool.{true≢false}
use shopsystem_kb.Import.Chain.Scan.{append_one, append_nothing}
use shopsystem_kb.Base.{
  In-filter_of, ℕ, zero, suc, ◌+◌, ◌≤◌, ◌<◌, String, ◌≡◌, refl, sym, ap, ◌∙◌, true, false, ◌||◌,
  List, [], ◌∷◌, ◌++◌, ◌==◌, ==_iff, contains, string_eq, filter, In, In-filter, In-of_contains,
  inl, inr, ◌⊎◌, arith, Bool-cases, length,
}
use shopsystem_kb.Base.Dict.{Dict, keys}
use shopsystem_kb.Import.Files.{Offered}
use shopsystem_kb.Import.Order.{typed_name, visit_each, visit, by_key, beneath_name, types_in_order}
use shopsystem_kb.Import.Order.Beneath.{
  In-by_key, unseen, unseen-cons, unseen-le, contains_left, contains_end, contains_last, deeper,
  beneath-keys, visit-spent, visit-done, visit-goes,
}

module _ (by_name : Dict String Offered) (rank : String → ℕ)
    (falls : (name under : String)
      → In under (beneath_name by_name name)
      → rank under < rank name) where
  -- Each name stands once, after those that it is read through, of those before and those ahead of it.
  abbrev pub Follows : List String → List String → Type 0
  Follows before [] = Unit
  Follows before (name ∷ names) =
      ((under : String) → In under (beneath_name by_name name) → contains before under ≡ true)
      × (contains before name ≡ false)
      × Follows (before ++ name ∷ []) names

  Follows-append :
      (before names : List String) (name : String)
      → Follows before names
      → ((under : String)
          → In under (beneath_name by_name name)
          → contains (before ++ names) under ≡ true)
      → contains (before ++ names) name ≡ false
      → Follows before (names ++ name ∷ [])
  Follows-append before [] name f under new = (
    λ u m. subst (λ l. contains l u ≡ true) (append_nothing before) (under u m),
    subst (λ l. contains l name ≡ false) (append_nothing before) new,
    tt,
  )
  Follows-append before (x ∷ names) name (u, n, f) under new = (
    u,
    n,
    Follows-append (before ++ x ∷ []) names name f
        (λ w m. subst (λ l. contains l w ≡ true) (sym (append_one x before names)) (under w m))
        (subst (λ l. contains l name ≡ false) (sym (append_one x before names)) new),
  )

  -- What a visit leaves of what was ordered before it: what it adds has a rank below a bound.
  record Visited (bound : ℕ) (ordered next : List String) : Type 0 where
    follows : Follows [] next
    kept : (x : String) → contains ordered x ≡ true → contains next x ≡ true
    only : (x : String) → contains next x ≡ true → (contains ordered x ≡ true) ⊎ (rank x < bound)

  abbrev Below : String → List String → Type 0
  Below name seen = (s : String) → contains seen s ≡ true → rank name < rank s

  abbrev Visits : ℕ → Type 0
  Visits fuel =
      (name : String) (seen ordered : List String)
      → In name (keys by_name)
      → Below name seen
      → Follows [] ordered
      → unseen seen (keys by_name) ≤ fuel
      → Visited (suc (rank name)) ordered (visit by_name fuel name seen ordered)
        × (contains (visit by_name fuel name seen ordered) name ≡ true)

  visit_each-Visited :
      (fuel : ℕ)
      → Visits fuel
      → (bound : ℕ) (names seen ordered : List String)
      → ((name : String)
          → In name names
          → In name (keys by_name) × (rank name < bound) × Below name seen)
      → Follows [] ordered
      → unseen seen (keys by_name) ≤ fuel
      → Visited bound ordered (visit_each (visit by_name fuel) names seen ordered)
        × ((name : String)
            → In name names
            → contains (visit_each (visit by_name fuel) names seen ordered) name ≡ true)
  unfolding visit_each
  visit_each-Visited fuel visits bound [] seen ordered each f enough =
      (record { follows = f; kept = λ x h. h; only = λ x h. inl h }, λ name m. absurd m.1)
  visit_each-Visited fuel visits bound (name ∷ names) seen ordered each f enough =
      let (known, low, below) = each name (inl refl) in
      let (one, there) = visits name seen ordered known below f enough in
      let (all, others) =
        visit_each-Visited fuel visits bound names seen (visit by_name fuel name seen ordered)
          (λ x m. each x (inr m)) one.follows enough in
      (
        record {
          follows = all.follows;
          kept = λ x h. all.kept x (one.kept x h);
          only = λ x h. elim (all.only x h) [
            | inr r ↦ inr r
            | inl before ↦ elim (one.only x before) [ inl o ↦ inl o | inr r ↦ inr (omega arith) ]
          ];
        },
        λ x m. elim m [
          | inl e ↦ all.kept x (ap (contains (visit by_name fuel name seen ordered)) e ∙ there)
          | inr m' ↦ others x m'
        ],
      )

  unseen-Below : (name : String) (seen : List String) → Below name seen → contains seen name ≡ false
  unseen-Below name seen below = elim (Bool-cases (contains seen name)) [
    | inl h ↦ absurd (irreflexive (below name h))
    | inr h ↦ h
  ]
    where
      irreflexive : {n : ℕ} → n < n → ⊥
      irreflexive h = omega arith

  -- A name that is ordered already is passed over.
  visit_again :
      (fuel : ℕ) (name : String) (seen ordered : List String)
      → Follows [] ordered
      → contains ordered name ≡ true
      → Visited (suc (rank name)) ordered (visit by_name fuel name seen ordered)
        × (contains (visit by_name fuel name seen ordered) name ≡ true)
  visit_again fuel name seen ordered f there =
      subst (λ l. Visited (suc (rank name)) ordered l × (contains l name ≡ true)) (sym (same fuel))
        (record { follows = f; kept = λ x h. h; only = λ x h. inl h }, there)
    where
      same : (k : ℕ) → visit by_name k name seen ordered ≡ ordered
      same zero = visit-spent by_name zero name seen ordered
      same (suc k) =
          visit-done by_name k name seen ordered (ap (λ b. b || contains seen name) there)

  not_added :
      (name : String) (ordered next : List String)
      → Visited (rank name) ordered next
      → contains ordered name ≡ false
      → contains next name ≡ false
  not_added name ordered next done new = elim (Bool-cases (contains next name)) [
    | inr h ↦ h
    | inl h ↦ elim (done.only name h) [
      | inl before ↦ absurd (true≢false (sym before ∙ new))
      | inr r ↦ absurd (omega arith)
    ]
  ]

  highest : List String → ℕ
  highest [] = 0
  highest (x ∷ xs) = rank x + highest xs

  highest-le : (x : String) (xs : List String) → In x xs → rank x < suc (highest xs)
  unfolding highest
  highest-le x [] m = absurd m.1
  highest-le x (y ∷ xs) (inl e) =
      subst (λ k. rank k < suc (rank y + highest xs)) (sym e) (omega arith)
  highest-le x (y ∷ xs) (inr m) = omega (arith, highest-le x xs m)

  -- A name that is not follows what it is read through.
  visit_new :
      (fuel : ℕ)
      → Visits fuel
      → (name : String) (seen ordered : List String) → In name (keys by_name)
      → Below name seen
      → Follows [] ordered
      → contains ordered name ≡ false
      → contains seen name ≡ false
      → unseen (name ∷ seen) (keys by_name) ≤ fuel
      → Visited (suc (rank name)) ordered (visit by_name (suc fuel) name seen ordered)
        × (contains (visit by_name (suc fuel) name seen ordered) name ≡ true)
  visit_new fuel visits name seen ordered m below f new unmet enough =
      let unders = by_key by_name (beneath_name by_name name) in
      let next = visit_each (visit by_name fuel) unders (name ∷ seen) ordered in
      let (done, all) =
        visit_each-Visited fuel visits (rank name) unders (name ∷ seen) ordered
          (λ under u.
            let at = (In-by_key by_name under (beneath_name by_name name)).0 u in
            let lower = falls name under at in
            (
              beneath-keys by_name name under at,
              omega arith,
              λ s h. elim (Bool-cases (s == name)) [
                | inl e ↦ subst (λ k. rank under < rank k) (sym ((==_iff s name).0 e)) lower
                | inr n ↦ (omega (arith, below s (deeper s name seen n h)))
              ],
            ))
          f enough in
      let fresh = not_added name ordered next done new in
      let goes = visit-goes by_name fuel name seen ordered new unmet in
      subst (λ l. Visited (suc (rank name)) ordered l × (contains l name ≡ true)) (sym goes)
        (
          record {
            follows =
                Follows-append [] next name done.follows
                  (λ under u. all under ((In-by_key by_name under (beneath_name by_name name)).1 u))
                  fresh;
            kept = λ x h. contains_left x next (name ∷ []) (done.kept x h);
            only = λ x h. elim (contains_last x next name h) [
              | inr e ↦ inr (subst (λ k. rank k < suc (rank name)) (sym e) (omega arith))
              | inl before ↦ elim (done.only x before) [ inl o ↦ inl o | inr r ↦ inr (omega arith) ]
            ];
          },
          contains_end name next,
        )

  visit-Visits : (fuel : ℕ) → Visits fuel
  visit-Visits zero name seen ordered m below f enough =
      let met = unseen-cons name seen (keys by_name) (unseen-Below name seen below) m in
      absurd (omega arith)
  visit-Visits (suc fuel) name seen ordered m below f enough =
      elim (Bool-cases (contains ordered name)) [
        | inl there ↦ visit_again (suc fuel) name seen ordered f there
        | inr new ↦
            let unmet = unseen-Below name seen below in
            let met = unseen-cons name seen (keys by_name) unmet m in
            visit_new fuel (visit-Visits fuel) name seen ordered m below f new unmet (omega arith)
      ]

  -- The types that are visited in the end, and that each of them is.
  abbrev names_visited : List String
  names_visited = by_key by_name (filter (typed_name by_name) (keys by_name))

  types_lem :
      Visited (suc (highest names_visited)) [] (types_in_order by_name)
      × ((name : String) → In name names_visited → contains (types_in_order by_name) name ≡ true)
  unfolding types_in_order
  types_lem =
      visit_each-Visited (length (keys by_name)) (visit-Visits (length (keys by_name)))
        (suc (highest names_visited)) names_visited [] []
        (λ name m. (
          (In-filter (typed_name by_name) name (keys by_name)
              ((In-by_key by_name name (filter (typed_name by_name) (keys by_name))).0 m)).0,
          highest-le name names_visited m,
          λ s h. absurd (cc),
        ))
        tt (unseen-le (keys by_name))

  -- Where no type is read through one that is read through it, the types are read each once, each after
  -- every type version that the directory brings and that it is read through, and every type that the
  -- directory brings is read.
  pub types_in_order-Follows :
      Follows [] (types_in_order by_name)
      × ((name : String)
          → In name (keys by_name)
          → typed_name by_name name ≡ true
          → In name (types_in_order by_name))
  types_in_order-Follows = (
    types_lem.0.follows,
    λ name m t. In-of_contains name (types_in_order by_name) (
        types_lem.1 name (
          (In-by_key by_name name (filter (typed_name by_name) (keys by_name))).1
            (In-filter_of (typed_name by_name) name (keys by_name) m t))),
  )
