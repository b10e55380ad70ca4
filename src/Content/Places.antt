-- ===== src/Content/Places.antt =====
-- src/kb/places.py: places inside an artifact. A spot keeps what holds the node as a value, and
-- `set_at_place` is the assignment `spot.holder[spot.key] = node` as the content it leaves.
use shopsystem_kb.Base.{
  ℕ, suc, String, Bool, true, false, not, ◌&&◌, Option, none, some, List, [], ◌∷◌, ◌++◌, map, ◌==◌,
  contains, string_eq, option_eq, if◌then◌else◌, ◌⊎◌, inl, inr,
}
use shopsystem_kb.Names
use shopsystem_kb.Content.{
  at, named, other, Value, null, truth, whole, negative, real, text, items, fields, Values, nil,
  cons, Fields, end, entry, get, get_text,
}
use shopsystem_kb.Content.Settled.{identity, sections}
use shopsystem_kb.Content.Slug.{slug}

pub data Spot : Type 0 where
  in_fields : Fields → String → Spot
  in_items : Values → ℕ → String → Spot

-- `_name`
unfoldable pub name_of : String → Fields → Option String
unfolding get_text slug
name_of collection item =
    if collection == sections
    then elim (get_text "title" item) [ none ↦ none | some t ↦ some (slug t) ]
    else get_text "id" item

-- `_index`, from an index on, with the item that stands there.
unfoldable pub index_from : ℕ → String → String → Values → Option (ℕ × Fields)
unfolding name_of
index_from n collection name nil = none
index_from n collection name (cons (fields d) vs) =
    let rest = index_from (suc n) collection name vs in
    if name_of collection d == some name then some (n, d) else rest
index_from n collection name (cons v vs) = index_from (suc n) collection name vs

unfoldable pub index : String → String → Option Value → Option (Values × ℕ × Fields)
unfolding index_from
index collection name (some (items vs)) = elim (index_from 0 collection name vs) [
  | none ↦ none
  | some (n, d) ↦ some (vs, n, d)
]
index collection name _ = none

-- `_walk`, of a place that is not empty.
unfoldable pub walk : Fields → List String → Option Spot
unfolding index get
walk holder [] = none
walk holder (f ∷ []) = some (in_fields holder f)
walk holder (c ∷ name ∷ []) = elim (index c name (get c holder)) [
  | none ↦ none
  | some (vs, n, d) ↦ some (in_items vs n c)
]
walk holder (c ∷ name ∷ s ∷ rest) = elim (index c name (get c holder)) [
  | none ↦ none
  | some (vs, n, d) ↦ walk d (s ∷ rest)
]

-- Why `resolve` refuses a place.
pub data Refusal : Type 0 where
  settled_place nothing_at : Refusal

abbrev starts_settled : List String → Bool
starts_settled [] = false
starts_settled (s ∷ place) = contains identity s

unfoldable pub resolve : Fields → List String → Refusal ⊎ Spot
unfolding walk
resolve content place =
    if starts_settled place
    then inl settled_place
    else elim (walk content place) [ none ↦ inl nothing_at | some spot ↦ inr spot ]

-- What stands at a spot; none for a field that its node does not hold.
unfoldable pub stands : Spot → Option Value
unfolding get at
stands (in_fields d f) = get f d
stands (in_items vs n c) = at n vs

unfoldable pub node : Fields → List String → Refusal ⊎ Option Value
unfolding resolve stands
node content [] = inr (some (fields content))
node content (s ∷ place) = elim (resolve content (s ∷ place)) [
  | inl e ↦ inl e
  | inr spot ↦ inr (stands spot)
]

-- `place[::2]`
abbrev pub every_other : List String → List String
every_other [] = []
every_other (c ∷ []) = c ∷ []
every_other (c ∷ n ∷ rest) = c ∷ every_other rest

abbrev is_even : List String → Bool
is_even [] = true
is_even (c ∷ []) = false
is_even (c ∷ n ∷ rest) = is_even rest

unfoldable pub holds_part : Fields → List String → Bool
unfolding walk
holds_part content place =
    is_even place
    && not (contains (every_other place) sections)
    && elim (walk content place) [ none ↦ false | some _ ↦ true ]

-- `parts`: the place of every part that the content holds.
unfoldable mutual
  unfolding get_text Names.placed

  pub parts : Fields → List String
  parts end = []
  parts (entry (named c) v d) =
      let inside = parts_listed c v in
      let rest = parts d in if c == sections then rest else inside ++ rest
  parts (entry (other c) v d) = parts d

  pub parts_listed : String → Value → List String
  parts_listed c (items vs) = parts_items c vs
  parts_listed c (fields d) = []
  parts_listed c null = []
  parts_listed c (truth b) = []
  parts_listed c (whole n) = []
  parts_listed c (negative n) = []
  parts_listed c (real s) = []
  parts_listed c (text s) = []

  pub parts_items : String → Values → List String
  parts_items c nil = []
  parts_items c (cons v vs) = parts_item c v ++ parts_items c vs

  pub parts_item : String → Value → List String
  parts_item c (fields d) =
      let inner = parts d in
      elim (get_text "id" d) [
        | none ↦ []
        | some id ↦
            let place = Names.placed (c ∷ id ∷ []) in
            place ∷ map (λ there. Names.placed (place ∷ there ∷ [])) inner
      ]
  parts_item c null = []
  parts_item c (truth b) = []
  parts_item c (whole n) = []
  parts_item c (negative n) = []
  parts_item c (real s) = []
  parts_item c (text s) = []
  parts_item c (items vs) = []
