-- ===== src/Tests/Content.antt =====
-- Content put in order, named and offered, at a concrete artifact.
use shopsystem_kb.Base.{
  String, ◌≡◌, refl, true, false, none, some, [], ◌∷◌, contains, string_eq, nat_eq, option_eq,
  IsUnique, ◌⊎◌, ◌↔◌, filter,
}
use shopsystem_kb.Base.Texts.{char_eq}
use shopsystem_kb.Names.{iri, plain, place}
use shopsystem_kb.Content.{
  key_eq, named, whole, text, fields, Values, nil, cons, Fields, end, entry, get, get_text, items,
}
use shopsystem_kb.Content.Slug.{slug, slug-plain, numbered}
use shopsystem_kb.Content.Numbered.{numbered-free}
use shopsystem_kb.Content.Settled.{sequence, top, order, given, content, identified, typed}
use shopsystem_kb.Content.Order.{given-content}
use shopsystem_kb.Content.{keys_of}
use shopsystem_kb.Content.Reordered.{Reordered, order-Reordered}
use shopsystem_kb.Content.Items.{carried, name_items}
use shopsystem_kb.Content.Naming.{all_named, name_items-IsUnique}
use shopsystem_kb.Content.Offers.{misplaced, misplaced-place}

slug-plain_example : (slug "Hello, World!" ≡ "") ⊎ (plain (slug "Hello, World!") ≡ true)
slug-plain_example = slug-plain "Hello, World!"

slug_run : slug "Hello, World!" ≡ "hello-world"
unfolding slug char_eq string_eq nat_eq
slug_run = refl

numbered-free_example : contains ("a" ∷ "a-2" ∷ []) (numbered "a" ("a" ∷ "a-2" ∷ [])) ≡ false
numbered-free_example = numbered-free "a" ("a" ∷ "a-2" ∷ [])

numbered_run : numbered "a" ("a" ∷ "a-2" ∷ []) ≡ "a-3"
unfolding numbered string_eq nat_eq
numbered_run = refl

abbrev titled_item : String → Fields
titled_item t = entry (named "title") (text t) end

abbrev some_items : Values
some_items = cons (fields (titled_item "First")) (
    cons (fields (entry (named "id") (text "first") end)) (cons (fields (titled_item "First")) nil))

carried-IsUnique : IsUnique (carried some_items)
unfolding carried string_eq
carried-IsUnique = (refl, tt)

name_items-IsUnique_example :
    IsUnique (carried (name_items (λ _. end) (fields end) (carried some_items) 1 some_items))
    × (all_named (name_items (λ _. end) (fields end) (carried some_items) 1 some_items) ≡ true)
name_items-IsUnique_example =
    name_items-IsUnique (λ _. end) (fields end) some_items carried-IsUnique

items_run :
    carried (name_items (λ _. end) (fields end) (carried some_items) 1 some_items)
    ≡ "first-2" ∷ "first" ∷ "first-3" ∷ []
unfolding name_items carried string_eq nat_eq char_eq key_eq
items_run = refl

abbrev page : String
page = "https://example.org/note/one"

abbrev note : Fields
note = entry (named "id") (text page) (
    entry (named "type") (text "https://example.org/note@2") (
      entry (named "revision") (whole 3)
        (entry (named "title") (text "One") (entry (named "body") (text "…") end))))

page-iri : iri page ≡ true
unfolding iri char_eq
page-iri = refl

note-identified : identified note ≡ true
unfolding identified string_eq char_eq
note-identified = refl

note-id : get_text "id" note ≡ some page
unfolding get_text string_eq
note-id = refl

note-typed : typed note ≡ false
unfolding typed string_eq char_eq option_eq
note-typed = refl

misplaced-place_example :
    (misplaced (place page none) (fields note) ≡ none)
    ↔ ((identified note ≡ true) × (get_text "id" note ≡ some page) × (typed note ≡ false))
misplaced-place_example = misplaced-place page note page-iri

note-fits : (identified note ≡ true) × (get_text "id" note ≡ some page) × (typed note ≡ false)
note-fits = (note-identified, note-id, note-typed)

abbrev note_type : String
note_type = "https://example.org/note"

abbrev second_version : Fields
second_version = entry (named "id") (text note_type) (
    entry (named "type") (text "https://missingmass.io/kb/type@1") (
      entry (named "revision") (whole 2)
        (entry (named "title") (text "Note") (entry (named "version") (whole 2) end))))

version-identified : identified second_version ≡ true
unfolding identified string_eq char_eq
version-identified = refl

version-id : get_text "id" second_version ≡ some note_type
unfolding get_text string_eq
version-id = refl

version-number : get "version" second_version ≡ some (whole 2)
unfolding get string_eq
version-number = refl

version-typed : typed second_version ≡ true
unfolding typed string_eq char_eq option_eq
version-typed = refl

version-fits :
    (identified second_version ≡ true)
    × (get_text "id" second_version ≡ some note_type)
    × (typed second_version ≡ true)
    × (get "version" second_version ≡ some (whole 2))
version-fits = (version-identified, version-id, version-typed, version-number)

abbrev schema : Fields
schema = entry (named "properties") (fields (entry (named "body") (fields end) end)) end

-- An artifact with a section whose keys stand in another order than kb writes them.
abbrev sectioned : Fields
sectioned = entry (named "body") (text "Text") (
    entry (named "sections")
      (items (
        cons
          (fields (entry (named "body") (text "Inside") (entry (named "title") (text "One") end)))
          nil))
      (entry (named "title") (text "Note") end))

order-Reordered_example :
    Reordered (some (fields sectioned)) (some (fields (order sectioned schema)))
    × (keys_of (order sectioned schema)
        ≡ filter (λ k. contains (keys_of sectioned) k) (sequence top (keys_of sectioned) schema))
order-Reordered_example = order-Reordered sectioned schema

order_run :
    get "sections" (order sectioned schema)
    ≡ some (
        items (
          cons
            (fields (entry (named "title") (text "One") (entry (named "body") (text "Inside") end)))
            nil))
unfolding order get key_eq string_eq char_eq
order_run = refl

given-content_example :
    (get "id" (given note page "https://example.org/note@3" 4 "Two") ≡ some (text page))
    × (get "type" (given note page "https://example.org/note@3" 4 "Two")
        ≡ some (text "https://example.org/note@3"))
    × (get "revision" (given note page "https://example.org/note@3" 4 "Two") ≡ some (whole 4))
    × (get "title" (given note page "https://example.org/note@3" 4 "Two") ≡ some (text "Two"))
    × (get "body" (content (given note page "https://example.org/note@3" 4 "Two"))
        ≡ get "body" (content note))
given-content_example = given-content note page "https://example.org/note@3" 4 "Two" "body"
