-- ===== src/Import/Order/Beneath.antt =====
-- The steps of a visit, and the names that it is made to go on to.
use mathlib.Core.Bool.{true≢false}
use shopsystem_kb.Content.{Fields}
use shopsystem_kb.Base.{
  first_uses, Option-cases, ◌↔◌, In-map_of, if◌then◌else◌, In-sorted_of, ℕ, zero, suc, ◌≤◌, String,
  ◌≡◌, refl, sym, ap, ◌∙◌, true, false, ◌||◌, Option, none, some, List, [], ◌∷◌, ◌++◌, ◌==◌,
  contains, string_eq, filter, In, In-filter, In-sorted, inl, inr, ◌⊎◌, arith, length,
}
use shopsystem_kb.Base.Dict.{Dict, keys, lookup, In-of_lookup}
use shopsystem_kb.Import.Files.{Offered, beneath, brings, read_names, is_typed}
use shopsystem_kb.Import.Order.{visit_each, visit, by_key, beneath_name}

pub contains-append :
    (x : String) (xs ys : List String) → contains (xs ++ ys) x ≡ (contains xs x || contains ys x)
contains-append x [] ys = refl
contains-append x (y ∷ xs) ys = ground (arith, contains-append x xs ys)

-- How many of some names are not among those seen.
abbrev pub unseen : List String → List String → ℕ
unseen seen [] = 0
unseen seen (x ∷ xs) = let rest = unseen seen xs in if contains seen x then rest else suc rest

pub unseen-cons_le :
    (name : String) (seen xs : List String) → unseen (name ∷ seen) xs ≤ unseen seen xs
unseen-cons_le name seen [] = omega arith
unseen-cons_le name seen (x ∷ xs) = ground (arith, unseen-cons_le name seen xs)

pub unseen-cons :
    (name : String) (seen xs : List String)
    → contains seen name ≡ false
    → In name xs
    → suc (unseen (name ∷ seen) xs) ≤ unseen seen xs
unseen-cons name seen [] h m = absurd m.1
unseen-cons name seen (x ∷ xs) h m =
    ground (arith, unseen-cons name seen xs, unseen-cons_le name seen xs)

pub unseen-le : (xs : List String) → unseen [] xs ≤ length xs
unseen-le [] = omega arith
unseen-le (x ∷ xs) = omega (arith, unseen-le xs)

pub contains_left :
    (x : String) (xs ys : List String) → contains xs x ≡ true → contains (xs ++ ys) x ≡ true
contains_left x xs ys h = contains-append x xs ys ∙ ap (λ b. b || contains ys x) h

pub contains_end : (x : String) (xs : List String) → contains (xs ++ x ∷ []) x ≡ true
contains_end x xs = contains-append x xs (x ∷ []) ∙ ground arith

pub contains_last :
    (x : String) (xs : List String) (y : String)
    → contains (xs ++ y ∷ []) x ≡ true
    → (contains xs x ≡ true) ⊎ (x ≡ y)
contains_last x xs y h = ground (arith, contains-append x xs (y ∷ []))

pub deeper :
    (s name : String) (seen : List String)
    → (s == name) ≡ false
    → contains (name ∷ seen) s ≡ true
    → contains seen s ≡ true
deeper s name seen n h = ground arith

pub brings-keys :
    (by_name : Dict String Offered) (name : String)
    → brings by_name name ≡ true
    → In name (keys by_name)
unfolding brings
brings-keys by_name name h = elim (Option-cases (lookup name by_name)) [
  | inl missing ↦ absurd (true≢false (sym h ∙ ground arith))
  | inr (each, e) ↦ In-map_of (λ (k, _). k) (name, each) by_name (In-of_lookup name each by_name e)
]

pub beneath-brings :
    (by_name : Dict String Offered) (each : Offered) (name : String)
    → In name (beneath by_name each)
    → brings by_name name ≡ true
unfolding beneath
beneath-brings by_name each name m = go (each.artifact) m
  where
    go :
        (artifact : Option Fields)
        → In name (elim artifact [
          | none ↦ []
          | some d ↦ filter (brings by_name) (first_uses [] (read_names (is_typed each) d))
        ])
        → brings by_name name ≡ true
    go none m = absurd m.1
    go (some d) m =
        (In-filter (brings by_name) name (first_uses [] (read_names (is_typed each) d)) m).1

pub beneath-keys :
    (by_name : Dict String Offered) (name under : String)
    → In under (beneath_name by_name name)
    → In under (keys by_name)
unfolding beneath_name
beneath-keys by_name name under m = go (lookup name by_name) m
  where
    go :
        (found : Option Offered)
        → In under (elim found [ none ↦ [] | some each ↦ beneath by_name each ])
        → In under (keys by_name)
    go none m = absurd m.1
    go (some each) m = brings-keys by_name under (beneath-brings by_name each under m)

module _ (by_name : Dict String Offered) (fuel : ℕ) (name : String)
    (seen ordered : List String) where
  pub visit-spent : visit by_name zero name seen ordered ≡ ordered
  unfolding visit
  visit-spent = refl

  pub visit-done :
      (contains ordered name || contains seen name) ≡ true
      → visit by_name (suc fuel) name seen ordered ≡ ordered
  unfolding visit
  visit-done h = ground arith

  pub visit-goes :
      contains ordered name ≡ false
      → contains seen name ≡ false
      → visit by_name (suc fuel) name seen ordered
        ≡ visit_each
            (visit by_name fuel)
            (by_key by_name (beneath_name by_name name))
            (name ∷ seen)
            ordered
          ++ name ∷ []
  unfolding visit
  visit-goes h k = ground arith

pub In-by_key :
    (by_name : Dict String Offered) (x : String) (names : List String)
    → In x (by_key by_name names) ↔ In x names
unfolding by_key
In-by_key by_name x names = (In-sorted_of _ x names, In-sorted _ x names)
