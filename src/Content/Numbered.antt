-- ===== src/Content/Numbered.antt =====
-- `numbered` of src/kb/item_names.py: it tries no more names than are taken and one more.
use Prim.Native.String.{[] as nil}
use mathlib.Core.Option.{some-injective}
use text.Mathlib.TextLemmas.{append-nil, cons-append}
use shopsystem_kb.Base.{
  ℕ, zero, suc, ◌<◌, ◌≤◌, String, ◌<>◌, ◌≡◌, refl, ap, sym, ◌∙◌, Bool, true, false, not, List, [],
  ◌∷◌, ◌==◌, ==_ne, contains, string_eq, nat_eq, filter, length, arith, inl, inr, Bool-cases,
}
use shopsystem_kb.Base.Texts.{after, after-append}
use shopsystem_kb.Base.Decimal.{decimal, int_from, int_from-decimal}
use shopsystem_kb.Content.Slug.{candidate, numbered_from, numbered}

decimal-injective : (m n : ℕ) → decimal m ≡ decimal n → m ≡ n
decimal-injective m n e = sym (int_from-decimal m) ∙ ap (int_from 0) e ∙ int_from-decimal n

append-cancel : (p s t : String) → p <> s ≡ p <> t → s ≡ t
append-cancel p s t e =
    some-injective s t (sym (after-append p s) ∙ ap (after p) e ∙ after-append p t)

hyphen-cancel : (s t : String) → ("-" <> s) ≡ ("-" <> t) → s ≡ t
hyphen-cancel s t e = append-cancel "-" s t e

candidate-first : (name : String) (n : ℕ) → (n == 1) ≡ true → candidate name n ≡ name
unfolding candidate
candidate-first name n h = rw h

candidate-next :
    (name : String) (n : ℕ) → (n == 1) ≡ false → candidate name n ≡ name <> ("-" <> decimal n)
unfolding candidate
candidate-next name n h = rw h

hyphen_apart : (s : String) → ("-" <> s) ≡ nil → ⊥
hyphen_apart s e = absurd (cc (sym (cons-append "-" nil s) ∙ e))

-- A candidate with a number is not the name, nor one with another number.
numbered_apart : (name : String) (m n : ℕ) → 0 < m → m < n → candidate name n ≡ candidate name m → ⊥
numbered_apart name m n pos lt e = elim (Bool-cases (m == 1)) [
  | inl one ↦ hyphen_apart (decimal n) (
      append-cancel name _ _ (
        sym (candidate-next name n (ground arith))
        ∙ e
        ∙ candidate-first name m one
        ∙ sym (append-nil name)))
  | inr more ↦
      let same = decimal-injective n m (
        hyphen-cancel _ _ (
          append-cancel name _ _
            (sym (candidate-next name n (ground arith)) ∙ e ∙ candidate-next name m more))) in
      omega arith
]

contains-filter_other :
    (x y : String) (xs : List String)
    → (y == x) ≡ false
    → contains (filter (λ z. not (z == x)) xs) y ≡ contains xs y
contains-filter_other x y [] h = refl
contains-filter_other x y (z ∷ xs) h = ground (arith, contains-filter_other x y xs)

length-filter : (p : String → Bool) (xs : List String) → length (filter p xs) ≤ length xs
length-filter p [] = ground arith
length-filter p (x ∷ xs) = ground (arith, length-filter p xs)

length-filter_held :
    (x : String) (xs : List String)
    → contains xs x ≡ true
    → length (filter (λ z. not (z == x)) xs) < length xs
length-filter_held x [] h = cc
length-filter_held x (y ∷ xs) h =
    ground (arith, length-filter (λ z. not (z == x)) xs, length-filter_held x xs)

free_from :
    (fuel n : ℕ) (name : String) (taken left : List String)
    → 0 < n
    → length left ≤ fuel
    → ((m : ℕ) → n ≤ m → contains left (candidate name m) ≡ contains taken (candidate name m))
    → contains taken (numbered_from fuel n name taken) ≡ false
unfolding numbered_from
free_from zero n name taken [] pos few same = sym (same n (ground arith))
free_from zero n name taken (x ∷ left) pos few same = absurd (omega arith)
free_from (suc fuel) n name taken left pos few same =
    elim (Bool-cases (contains taken (candidate name n))) [
      | inr new ↦ rw new new
      | inl held ↦
          let c = candidate name n in
          let there = same n (ground arith) ∙ held in
          rw held (
            free_from fuel (suc n) name taken (filter (λ z. not (z == c)) left) (ground arith)
              (ground (arith, length-filter_held c left))
              (λ m le.
                contains-filter_other c (candidate name m) left
                  (==_ne (candidate name m) c (numbered_apart name n m pos (ground arith)))
                ∙ same m (ground arith)))
    ]

-- The name that `numbered` gives is not among those taken: as many candidates as there are names
-- taken, and one more, are always enough to find it.
pub numbered-free :
    (name : String) (taken : List String) → contains taken (numbered name taken) ≡ false
unfolding numbered
numbered-free name taken =
    free_from (length taken) 1 name taken taken (ground arith) (ground arith) (λ m le. refl)
