-- ===== src/Tests/Texts.antt =====
-- Names, links, requests and ids at concrete texts.
use Prim.Native.String.{count}
use mathlib.Core.Bool.{true≢false}
use shopsystem_kb.Base.{
  all, ◌≤◌, String, ◌≡◌, refl, true, false, none, some, List, [], ◌∷◌, map, In, inl, ◌==◌, contains,
  string_eq, nat_eq, IsUnique, arith, ap,
}
use shopsystem_kb.Base.Texts.{char_eq, holds_char}
use shopsystem_kb.Names.{
  iri, is_iri, above, below, filed, place, versioned, longest, steps, placed, linked, pointing,
  plain,
}
use shopsystem_kb.Names.Filing.{filed-place, filed-place_version}
use shopsystem_kb.Names.Below.{above-below, below-above}
use shopsystem_kb.Names.Written.{steps-placed, linked-pointing}
use shopsystem_kb.Requests.{converted}
use shopsystem_kb.Requests.Values.{target, locator}
use shopsystem_kb.Requests.Written.{target-pointing, locator-part}
use shopsystem_kb.Requests.Changes.{carried_again}
use shopsystem_kb.Requests.Sets.{firsts, said_at, carried_again-once}
use shopsystem_kb.Journal.{minted}
use shopsystem_kb.Journal.Minted.{minted-new}

abbrev page : String
page = "https://example.org/type/page.html"

page-iri : iri page ≡ true
unfolding iri char_eq
page-iri = refl

page-is_iri : is_iri page ≡ true
unfolding is_iri char_eq
page-is_iri = refl

filed-place_example : filed (place page none) ≡ some (page, none)
filed-place_example = filed-place page page-iri

short_enough : count (versioned page 12) ≤ longest
unfolding versioned
short_enough = ground arith

filed-place_version_example : filed (place page (some 12)) ≡ some (page, some 12)
filed-place_version_example = filed-place_version page 12 page-iri (ground arith) short_enough

abbrev upper : String
upper = "https://example.org/type"

upper-is_iri : is_iri upper ≡ true
unfolding is_iri char_eq
upper-is_iri = refl

upper-above : In upper (above page)
unfolding above char_eq
upper-above = inl refl

above-below_example :
    (is_iri upper ≡ true) × ((rest : List String) × (below page upper ≡ some rest))
above-below_example = above-below page upper page-is_iri upper-above

page-below : below page upper ≡ some ("page.html" ∷ [])
unfolding below char_eq string_eq
page-below = refl

below-above_example : In upper (above page)
below-above_example = below-above page upper ("page.html" ∷ []) page-is_iri upper-is_iri page-below

steps-placed_example : steps (placed ("fields" ∷ "name" ∷ [])) ≡ "fields" ∷ "name" ∷ []
unfolding holds_char char_eq string_eq
steps-placed_example = steps-placed ("fields" ∷ "name" ∷ []) refl

linked-pointing_example : linked (pointing page "fields/name") ≡ (page, "fields/name")
unfolding holds_char char_eq
linked-pointing_example = linked-pointing page "fields/name" refl

plain_steps : all plain ("fields" ∷ "name" ∷ []) ≡ true
unfolding plain char_eq
plain_steps = refl

target-pointing_example :
    target (pointing page (placed ("fields" ∷ "name" ∷ [])))
    ≡ converted (record { id = page; place = "fields" ∷ "name" ∷ [] })
target-pointing_example = target-pointing page ("fields" ∷ "name" ∷ []) page-iri plain_steps

locator-part_example :
    (locator (record { id = pointing page (placed ("fields" ∷ "name" ∷ [])); place = "" })
      ≡ converted (record { id = page; place = "fields" ∷ "name" ∷ [] }))
    × (locator (record { id = page; place = placed ("fields" ∷ "name" ∷ []) })
        ≡ converted (record { id = page; place = "fields" ∷ "name" ∷ [] }))
locator-part_example = locator-part page "fields" ("name" ∷ []) page-iri plain_steps

carried_again-once_example :
    (said_at 2 (carried_again (page ∷ upper ∷ page ∷ []))
      ≡ some (contains (page ∷ upper ∷ []) page))
    × IsUnique (firsts (page ∷ upper ∷ page ∷ []) (carried_again (page ∷ upper ∷ page ∷ [])))
    × ((a : String)
        → contains (firsts (page ∷ upper ∷ page ∷ []) (carried_again (page ∷ upper ∷ page ∷ []))) a
          ≡ contains (page ∷ upper ∷ page ∷ []) a)
carried_again-once_example = carried_again-once (page ∷ upper ∷ []) page []

-- Moments by the texts that their ids begin with.
data Moment : Type 0 where
  noon one : Moment

written : Moment → String
written noon = "20260101T120000000000Z"
written one = "20260101T130000000000Z"

held_at : Moment → List String
held_at noon = "20260101T120000000000Z-4" ∷ []
held_at one = []

told_apart : (a b : Moment) → written a ≡ written b → a ≡ b
unfolding written string_eq
told_apart noon noon e = refl
told_apart one one e = refl
told_apart noon one e = absurd (true≢false (ap (λ s. s == "20260101T120000000000Z") e))
told_apart one noon e = absurd (true≢false (ap (λ s. s == "20260101T130000000000Z") e))

is_written : (a : Moment) → (written a == "") ≡ false
unfolding written string_eq
is_written noon = refl
is_written one = refl

minted-new_example :
    IsUnique (map (λ (s : Moment × String). s.1) (minted written held_at (noon ∷ one ∷ noon ∷ [])))
    × ((stamp : Moment × String)
        → In stamp (minted written held_at (noon ∷ one ∷ noon ∷ []))
        → contains (held_at stamp.0) stamp.1 ≡ false)
minted-new_example = minted-new written held_at told_apart is_written (noon ∷ one ∷ noon ∷ [])

-- The history holds an id at noon, so noon's go on from it.
minted_run :
    map (λ (s : Moment × String). s.1) (minted written held_at (noon ∷ one ∷ noon ∷ []))
    ≡ "20260101T120000000000Z-5" ∷ "20260101T130000000000Z-1" ∷ "20260101T120000000000Z-6" ∷ []
unfolding minted written held_at char_eq string_eq
minted_run = refl
