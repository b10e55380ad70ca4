-- ===== src/Requests/Written.antt =====
-- Locators as they are written and read: a link written from a locator names it again, and a part's
-- IRI names what the artifact's IRI with the place beside it names.
use shopsystem_kb.Base.{
  String, ◌≡◌, refl, sym, ap, ◌∙◌, true, false, List, [], ◌∷◌, ◌==◌, ==_iff, ==_refl, Bool-cases,
  inl, inr, string_eq, all, arith,
}
use shopsystem_kb.Names.{iri, plain, steps, placed, pointing, linked}
use shopsystem_kb.Names.Grammar.{is_iri-Outside}
use shopsystem_kb.Names.Written.{plain-IsWritable, steps-placed, linked-pointing}
use shopsystem_kb.Requests.{converted}
use shopsystem_kb.Requests.Values.{
  locator_by, Asked, artifact_id, located, target, locator, is_part,
}
use shopsystem_kb.Base.Texts.{holds_char, char_eq}

located-placed :
    (id : String) (place : List String)
    → iri id ≡ true
    → all plain place ≡ true
    → located id (placed place) ≡ converted (record { id = id; place = place })
unfolding located artifact_id
located-placed id place h p =
    let back = steps-placed place (plain-IsWritable place p) in rw (back, h, p) refl

no_hash : (id : String) → iri id ≡ true → holds_char "#" id ≡ false
unfolding iri char_eq holds_char
no_hash id h = is_iri-Outside "#" id (refl, refl) refl refl (ground arith)

-- A link written from an IRI and a place of plain steps is read as that IRI and that place.
pub target-pointing :
    (id : String) (place : List String)
    → iri id ≡ true
    → all plain place ≡ true
    → target (pointing id (placed place)) ≡ converted (record { id = id; place = place })
unfolding target
target-pointing id place h p =
    ap (λ (l : String × String). located l.0 l.1) (linked-pointing id (placed place) (no_hash id h))
    ∙ located-placed id place h p

abbrev asked : String → String → Asked
asked id place = record { id = id; place = place }

by_part :
    (id text whole : String)
    → is_part (id, text) ≡ true
    → locator_by (record { id = whole; place = "" }) (id, text) ≡ located id text
unfolding locator_by
by_part id text whole h = rw (h, ==_refl {A = String} "")

by_name :
    (id text : String) → locator_by (record { id = id; place = text }) (id, "") ≡ located id text
unfolding locator_by is_part
by_name id text = rw (==_refl {A = String} "")

steps_nil : steps "" ≡ []
unfolding steps
steps_nil = rw (==_refl {A = String} "")

is_part-placed :
    (id s : String) (place : List String)
    → iri id ≡ true
    → all plain (s ∷ place) ≡ true
    → is_part (id, placed (s ∷ place)) ≡ true
unfolding is_part steps
is_part-placed id s place h p =
    let back = steps-placed (s ∷ place) (plain-IsWritable (s ∷ place) p) in
    elim (Bool-cases (placed (s ∷ place) == "")) [
      | inl e ↦
          absurd (cc (sym steps_nil ∙ ap steps (sym ((==_iff (placed (s ∷ place)) "").0 e)) ∙ back))
      | inr n ↦ let pieces = rw (n, steps) at back in rw (n, h, pieces, is_part) p
    ]

pointing_whole : (id : String) → pointing id "" ≡ id
unfolding pointing
pointing_whole id = rw (==_refl {A = String} "")

-- A part's IRI and its artifact's IRI with the place beside it are one locator, for an IRI of kb's
-- grammar and a place of one plain step or more.
pub locator-part :
    (id s : String) (place : List String)
    → iri id ≡ true
    → all plain (s ∷ place) ≡ true
    → (locator (record { id = pointing id (placed (s ∷ place)); place = "" })
        ≡ converted (record { id = id; place = s ∷ place }))
      × (locator (record { id = id; place = placed (s ∷ place) })
          ≡ converted (record { id = id; place = s ∷ place }))
unfolding locator
locator-part id s place h p =
    let text = placed (s ∷ place) in
    (
      ap (locator_by (asked (pointing id text) "")) (linked-pointing id text (no_hash id h))
          ∙ by_part id text (pointing id text) (is_part-placed id s place h p)
          ∙ located-placed id (s ∷ place) h p,
      ap (λ name. locator_by (asked id text) (linked name)) (sym (pointing_whole id))
          ∙ ap (locator_by (asked id text)) (linked-pointing id "" (no_hash id h))
          ∙ by_name id text
          ∙ located-placed id (s ∷ place) h p,
    )
