-- ===== src/Requests/Sets.antt =====
-- The creates of one set: which of them carry an IRI that a create before them carries.
use shopsystem_kb.Base.{
  ℕ, zero, suc, ap, Option, none, some, length, String, ◌≡◌, refl, ◌∙◌, Bool, not, ◌&&◌, ◌||◌, List,
  [], ◌∷◌, ◌++◌, contains, string_eq, IsUnique, if◌then◌else◌, arith, Bool-cases, inl, inr,
}
use shopsystem_kb.Requests.Changes.{carried_after, carried_again}

-- The IRIs that no create before carries.
abbrev pub firsts : List String → List Bool → List String
firsts [] bs = []
firsts (iri ∷ iris) [] = []
firsts (iri ∷ iris) (b ∷ bs) = let rest = firsts iris bs in if b then rest else iri ∷ rest

contains-append :
    (a : String) (xs ys : List String) → contains (xs ++ ys) a ≡ (contains xs a || contains ys a)
contains-append a [] ys = refl
contains-append a (x ∷ xs) ys = ground (arith, contains-append a xs ys)

contains-firsts :
    (a : String) (before iris : List String)
    → contains (firsts iris (carried_after before iris)) a
      ≡ (contains iris a && not (contains before a))
unfolding carried_after
contains-firsts a before [] = refl
contains-firsts a before (iri ∷ iris) =
    ground (arith, contains-firsts a (before ++ iri ∷ []) iris, contains-append a before (iri ∷ []))

IsUnique-firsts : (before iris : List String) → IsUnique (firsts iris (carried_after before iris))
unfolding carried_after
IsUnique-firsts before [] = tt
IsUnique-firsts before (iri ∷ iris) = elim (Bool-cases (contains before iri)) [
  | inl h ↦ rw h (IsUnique-firsts (before ++ iri ∷ []) iris)
  | inr n ↦ rw n (
    ground (
      arith,
      contains-firsts iri (before ++ iri ∷ []) iris,
      contains-append iri before (iri ∷ []),
    ),
    IsUnique-firsts (before ++ iri ∷ []) iris,
  )
]

-- What is said of the entry at an index.
abbrev pub said_at : ℕ → List Bool → Option Bool
said_at n [] = none
said_at zero (b ∷ bs) = some b
said_at (suc n) (b ∷ bs) = said_at n bs

said_after :
    (seen before : List String) (iri : String) (after : List String)
    → said_at (length before) (carried_after seen (before ++ iri ∷ after))
      ≡ some (contains seen iri || contains before iri)
unfolding carried_after
said_after seen [] iri after = ground arith
said_after seen (x ∷ before) iri after =
    said_after (seen ++ x ∷ []) before iri after
    ∙ ap some (ground (arith, contains-append iri seen (x ∷ [])))

-- Of the creates of a set exactly the first that carries an IRI is not said to carry it again: a create
-- is said to just when one of those before it carries its IRI, the IRIs of those that are not said to
-- are each once, and they are all the IRIs that the set carries.
pub carried_again-once :
    (before : List String) (iri : String) (after : List String)
    → (said_at (length before) (carried_again (before ++ iri ∷ after)) ≡ some (contains before iri))
      × IsUnique (firsts (before ++ iri ∷ after) (carried_again (before ++ iri ∷ after)))
      × ((a : String)
          → contains (firsts (before ++ iri ∷ after) (carried_again (before ++ iri ∷ after))) a
            ≡ contains (before ++ iri ∷ after) a)
unfolding carried_again
carried_again-once before iri after = (
  said_after [] before iri after,
  IsUnique-firsts [] (before ++ iri ∷ after),
  λ a. contains-firsts a [] (before ++ iri ∷ after) ∙ ground arith,
)
