-- ===== src/Content/Offers.antt =====
-- src/kb/offers.py: a file offered for import, as an artifact at the place an export gives it. What
-- a file holds is given; the reading of the directory is not modelled.
use shopsystem_kb.Base.{
  ◌↔◌, sym, ==_iff, arith, ℕ, String, ◌≡◌, ap, ◌∙◌, Bool, true, false, not, ◌||◌, Option, none,
  some, List, ◌==◌, ==_refl, string_eq, option_eq, nat_eq, if◌then◌else◌,
}
use shopsystem_kb.Names
use shopsystem_kb.Names.Filing.{filed-place}
use shopsystem_kb.Content.{Value, whole, fields, Fields, get, get_text}
use shopsystem_kb.Content.Settled.{identified, typed}

-- Why what a file holds is not an artifact at its place.
pub data Problem : Type 0 where
  not_filed not_identified misnamed mistyped : Problem

-- `_named`: the name that a file's IRI and version number give it.
unfoldable pub named : String × Option ℕ → String
unfolding Names.versioned
named (iri, none) = iri
named (iri, some n) = Names.versioned iri n

-- `Offered.id`: the IRI of the artifact that a file holds.
unfoldable pub id_of : String × Option ℕ → Option String
unfolding Names.version named
id_of (iri, none) = some iri
id_of (iri, some n) = elim (Names.version (named (iri, some n))) [
  | none ↦ none
  | some (t, m) ↦ some t
]

abbrev is_number : ℕ → Option Value → Bool
is_number n (some (whole m)) = m == n
is_number n _ = false

abbrev mistyped_at : Option ℕ → Fields → Bool
mistyped_at none d = typed d
mistyped_at (some n) d = not (typed d) || not (is_number n (get "version" d))

abbrev misplaced_in : Option String → Option ℕ → Fields → Option Problem
misplaced_in id number d =
    if not (identified d)
    then some not_identified
    else if not (get_text "id" d == id)
    then some misnamed
    else if mistyped_at number d
    then some mistyped
    else none

abbrev misplaced_as : Option (String × Option ℕ) → Value → Option Problem
misplaced_as none v = some not_filed
misplaced_as (some (iri, number)) (fields d) = misplaced_in (id_of (iri, number)) number d
misplaced_as (some (iri, number)) v = some not_identified

-- `_misplaced`, of a file at a path, as `_offered` reads its place.
unfoldable pub misplaced : List String → Value → Option Problem
unfolding Names.filed identified typed get get_text id_of
misplaced steps loaded = misplaced_as (Names.filed steps) loaded

text_same : (o : Option String) (t : String) → (o == some t) ≡ true → o ≡ some t
text_same o t h = (==_iff o (some t)).0 h

-- What is not misplaced meets each of the conditions of a place.
misplaced_in-none :
    (id : Option String) (number : Option ℕ) (d : Fields)
    → misplaced_in id number d ≡ none
    → (identified d ≡ true) × ((get_text "id" d == id) ≡ true) × (mistyped_at number d ≡ false)
misplaced_in-none id number d h = ground arith

-- A file at the place that an export gives an IRI is not misplaced just when what it holds opens with
-- the keys naming it, has that IRI as its `id`, and is no type.
pub misplaced-place :
    (t : String) (d : Fields)
    → Names.iri t ≡ true
    → (misplaced (Names.place t none) (fields d) ≡ none)
      ↔ ((identified d ≡ true) × (get_text "id" d ≡ some t) × (typed d ≡ false))
unfolding misplaced id_of
misplaced-place t d h =
    let at = ap (λ at. misplaced_as at (fields d)) (filed-place t h) in
    (
      λ fits.
          let (opens, named_so, plain) = misplaced_in-none (some t) none d (sym at ∙ fits) in
          (opens, text_same (get_text "id" d) t named_so, plain),
      λ (opens, names_it, plain). at ∙ rw (opens, names_it, plain, ==_refl (some t)),
    )
