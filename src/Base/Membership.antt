-- ===== src/Base/Membership.antt =====
-- More of Python's lists, `zip` and the flattening of a comprehension, and what is in them.
use Prim.Native.Nat.{ℕ, suc}
use mathlib.Core.Path.{◌≡◌, refl, ap, ◌∙◌, subst}
use mathlib.Core.Logic.{◌⊎◌, inl, inr}
use mathlib.Core.Bool.{Bool, false}
use mathlib.Core.List.{List, [], ◌∷◌, ◌++◌, map}
use native.Mathlib.Omega.{arith}
use shopsystem_kb.Base.Equality.{Eq, contains, string_eq, if◌then◌else◌}
use shopsystem_kb.Base.Lists.{
  length, filter, sorted, insert_by, enumerate, In, distinct, In-append, In-append_left,
  In-append_right,
}
use Prim.Native.String.{String}

-- `zip`
abbrev pub zip : {A B : Type 0} → List A → List B → List (A × B)
zip [] bs = []
zip (a ∷ as') [] = []
zip (a ∷ as') (b ∷ bs) = (a, b) ∷ zip as' bs

abbrev pub flat_map : {A B : Type 0} → (A → List B) → List A → List B
flat_map f [] = []
flat_map f (a ∷ rest) = f a ++ flat_map f rest

append_nil : {A : Type 0} (xs ys : List A) → xs ++ ys ≡ [] → (xs ≡ []) × (ys ≡ [])
append_nil [] ys e = (refl, e)
append_nil (x ∷ xs) ys e = absurd (cc)

module _ {A : Type 0} where
  In-insert_by :
      (le : A → A → Bool) (x y : A) (xs : List A) → (x ≡ y) ⊎ In x xs → In x (insert_by le y xs)
  In-insert_by le x y [] (inl e) = inl e
  In-insert_by le x y [] (inr h) = absurd h.1
  In-insert_by le x y (z ∷ xs) m = ground (arith, In-insert_by le x y xs)

  pub In-sorted : (le : A → A → Bool) (x : A) (xs : List A) → In x xs → In x (sorted le xs)
  unfolding sorted
  In-sorted le x [] h = h
  In-sorted le x (y ∷ ys) (inl e) = In-insert_by le x y (sorted le ys) (inl e)
  In-sorted le x (y ∷ ys) (inr h) = In-insert_by le x y (sorted le ys) (inr (In-sorted le x ys h))

  pub filter-nil : (p : A → Bool) (x : A) (xs : List A) → filter p xs ≡ [] → In x xs → p x ≡ false
  filter-nil p x [] e h = absurd h.1
  filter-nil p x (y ∷ ys) e h = ground (arith, filter-nil p x ys)

  pub In-enumerate : (n k : ℕ) (x : A) (xs : List A) → In (k, x) (enumerate n xs) → In x xs
  In-enumerate n k x [] h = absurd h.1
  In-enumerate n k x (y ∷ ys) (inl e) = inl (ap (λ (q : ℕ × A). q.1) e)
  In-enumerate n k x (y ∷ ys) (inr h) = inr (In-enumerate (suc n) k x ys h)

  pub In-enumerate_of :
      (n : ℕ) (x : A) (xs : List A) → In x xs → (k : ℕ) × In (k, x) (enumerate n xs)
  In-enumerate_of n x [] m = absurd m.1
  In-enumerate_of n x (y ∷ ys) (inl e) = (n, inl (ap (λ z. (n, z)) e))
  In-enumerate_of n x (y ∷ ys) (inr m) =
      let (k, there) = In-enumerate_of (suc n) x ys m in (k, inr there)

module _ {A B : Type 0} where
  pub flat_map-nil :
      (f : A → List B) (x : A) (xs : List A) → flat_map f xs ≡ [] → In x xs → f x ≡ []
  flat_map-nil f x [] e h = absurd h.1
  flat_map-nil f x (y ∷ ys) e (inl p) = ap f p ∙ (append_nil (f y) (flat_map f ys) e).0
  flat_map-nil f x (y ∷ ys) e (inr h) = flat_map-nil f x ys (append_nil (f y) (flat_map f ys) e).1 h

  pub map-nil : (f : A → B) (xs : List A) → map f xs ≡ [] → xs ≡ []
  map-nil f [] e = refl
  map-nil f (x ∷ xs) e = cc

  pub In-zip :
      (x : A) (xs : List A) (ys : List B)
      → length xs ≡ length ys
      → In x xs
      → (y : B) × In (x, y) (zip xs ys)
  In-zip x [] ys e h = absurd h.1
  In-zip x (z ∷ xs) [] e h = absurd (omega arith)
  In-zip x (z ∷ xs) (y ∷ ys) e (inl p) = (y, inl (ap (λ (q : A). (q, y)) p))
  In-zip x (z ∷ xs) (y ∷ ys) e (inr h) = let (w, m) = In-zip x xs ys (omega arith) h in (w, inr m)

pub length-map : {A B : Type 0} (f : A → B) (xs : List A) → length (map f xs) ≡ length xs
length-map f [] = refl
length-map f (x ∷ xs) = ap suc (length-map f xs)

pub contains-distinct {ℓ} :
    {A : Type ℓ} ⦃e : Eq A⦄ (a : A) (xs : List A) → contains (distinct xs) a ≡ contains xs a
contains-distinct a [] = refl
contains-distinct a (x ∷ xs) = ground (arith, contains-distinct a xs)

-- Each of the entries stands once.
abbrev pub IsUnique {ℓ} : {A : Type ℓ} ⦃e : Eq A⦄ → List A → Type 0
IsUnique [] = Unit
IsUnique (x ∷ xs) = (contains xs x ≡ false) × IsUnique xs

In-insert_by_of :
    {A : Type 0} (le : A → A → Bool) (x y : A) (xs : List A)
    → In x (insert_by le y xs)
    → (x ≡ y) ⊎ In x xs
In-insert_by_of le x y [] (inl e) = inl e
In-insert_by_of le x y [] (inr h) = absurd h.1
In-insert_by_of le x y (z ∷ xs) m = ground (arith, In-insert_by_of le x y xs)

pub In-sorted_of :
    {A : Type 0} (le : A → A → Bool) (x : A) (xs : List A) → In x (sorted le xs) → In x xs
unfolding sorted
In-sorted_of le x [] h = h
In-sorted_of le x (y ∷ xs) h = elim (In-insert_by_of le x y (sorted le xs) h) [
  | inl e ↦ inl e
  | inr m ↦ inr (In-sorted_of le x xs m)
]

-- `dict.fromkeys`: each once, where it first stands, but for those already seen.
unfoldable pub first_uses : List String → List String → List String
first_uses seen [] = []
first_uses seen (x ∷ xs) =
    let rest = first_uses (x ∷ seen) xs in
    let passed = first_uses seen xs in if contains seen x then passed else x ∷ rest

pub In-flat_map :
    {A B : Type 0} (f : A → List B) (b : B) (xs : List A)
    → In b (flat_map f xs)
    → (a : A) × In a xs × In b (f a)
In-flat_map f b [] m = absurd m.1
In-flat_map f b (x ∷ xs) m = elim (In-append b (f x) (flat_map f xs) m) [
  | inl h ↦ (x, inl refl, h)
  | inr t ↦ let (a, m', h) = In-flat_map f b xs t in (a, inr m', h)
]

pub In-flat_map_of :
    {A B : Type 0} (f : A → List B) (a : A) (b : B) (xs : List A)
    → In a xs
    → In b (f a)
    → In b (flat_map f xs)
In-flat_map_of f a b [] m h = absurd m.1
In-flat_map_of f a b (x ∷ xs) (inl e) h =
    In-append_left b (f x) (flat_map f xs) (subst (λ y. In b (f y)) e h)
In-flat_map_of f a b (x ∷ xs) (inr m) h =
    In-append_right b (f x) (flat_map f xs) (In-flat_map_of f a b xs m h)
