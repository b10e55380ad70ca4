-- ===== src/Content/Items.antt =====
-- The walks of src/kb/item_names.py over the items of an artifact's collections. `inner` gives the
-- collections that an item's type declares, from its collection's declaration; it is the caller's.
use shopsystem_kb.Base.{
  ℕ, suc, String, ◌<>◌, true, false, not, Option, none, some, List, [], ◌∷◌, ◌++◌, ◌==◌, contains,
  string_eq, if◌then◌else◌,
}
use shopsystem_kb.Base.Decimal.{decimal}
use shopsystem_kb.Base.Dict.{Dict, lookup, insert}
use shopsystem_kb.Names
use shopsystem_kb.Content.{
  key_eq, named, other, Value, truth, whole, negative, real, text, items, fields, Values, nil, cons,
  Fields, end, entry, find, get, has, put, get_text,
}
use shopsystem_kb.Content.Slug.{slug, numbered}

-- `title`
unfoldable pub title : Option Value → Option String
unfolding decimal
title (some (truth true)) = some "true"
title (some (truth false)) = some "false"
title (some (text t)) = some t
title (some (whole n)) = some (decimal n)
title (some (negative n)) = some ("-" <> decimal (suc n))
title (some (real t)) = some t
title _ = none

-- The names that the items of a list carry, those that are text.
unfoldable pub carried : Values → List String
unfolding get_text
carried nil = []
carried (cons (fields d) vs) = elim (get_text "id" d) [
  | none ↦ carried vs
  | some id ↦ id ∷ carried vs
]
carried (cons v vs) = carried vs

-- The name of an item that carries none, at its place in its collection.
unfoldable pub name_given : ℕ → List String → Fields → String
unfolding title slug numbered decimal get
name_given place taken d =
    numbered (elim (title (get "title" d)) [ some t ↦ slug t | none ↦ decimal place ]) taken

module _ (inner : Value → Fields) where
  -- `items`: what a node holds once its items are named. A collection is named by itself, so the
  -- node's entries are walked in place of the collections declared.
  unfoldable mutual
    unfolding carried name_given has put find

    pub name_fields : Fields → Fields → Fields
    name_fields parts end = end
    name_fields parts (entry k v d) = entry k (name_entry (find k parts) v) (name_fields parts d)

    pub name_entry : Option Value → Value → Value
    name_entry none v = v
    name_entry (some part) (items vs) = items (name_items part (carried vs) 1 vs)
    name_entry (some part) v = v

    pub name_items : Value → List String → ℕ → Values → Values
    name_items part taken place nil = nil
    name_items part taken place (cons (fields d) vs) =
        let inside = name_fields (inner part) d in
        let name = name_given place taken d in
        let rest = name_items part taken (suc place) vs in
        let rest_after = name_items part (name ∷ taken) (suc place) vs in
        if has "id" d
        then cons (fields inside) rest
        else cons (fields (put "id" (text name) inside)) rest_after
    name_items part taken place (cons v vs) = cons v (name_items part taken (suc place) vs)

pub data Why : Type 0 where
  not_plain repeated unknown : Why

pub record Misnamed : Type 0 where
  pub collection : String
  pub index : ℕ
  pub name : Value
  pub why : Why

-- `_unfit`: what is wrong with a name, and the names seen from there on.
unfoldable pub unfit : String → ℕ → Value → List String → List Misnamed × List String
unfolding Names.plain
unfit collection index (text name) seen =
    if not (Names.plain name)
    then (
      record { collection = collection; index = index; name = text name; why = not_plain } ∷ [],
      seen,
    )
    else if contains seen name
    then (
      record { collection = collection; index = index; name = text name; why = repeated } ∷ [],
      seen,
    )
    else ([], name ∷ seen)
unfit collection index name seen =
    (record { collection = collection; index = index; name = name; why = not_plain } ∷ [], seen)

-- What is wrong with the name that an item carries, if it carries one.
unfoldable pub unfit_item : String → ℕ → Fields → List String → List Misnamed × List String
unfolding unfit get
unfit_item collection index d seen = elim (get "id" d) [
  | none ↦ ([], seen)
  | some name ↦ unfit collection index name seen
]

-- The collections declared, each looked at in turn.
unfoldable pub over_parts : (String → Value → List Misnamed) → Fields → List Misnamed
over_parts look end = []
over_parts look (entry (named k) part parts) = look k part ++ over_parts look parts
over_parts look (entry (other k) part parts) = over_parts look parts

module _ (inner : Value → Fields) where
  -- `given`, of one collection of a node.
  unfoldable mutual
    unfolding unfit_item over_parts Names.placed decimal

    pub given_at : Fields → List String → String → Value → List Misnamed
    given_at end under k part = []
    given_at (entry (named j) v d) under k part =
        let here = given_listed v (under ++ k ∷ []) part in
        let rest = given_at d under k part in if k == j then here else rest
    given_at (entry (other j) v d) under k part = given_at d under k part

    pub given_listed : Value → List String → Value → List Misnamed
    given_listed (items vs) here part = given_items vs here part 0 []
    given_listed v here part = []

    pub given_items : Values → List String → Value → ℕ → List String → List Misnamed
    given_items nil here part index seen = []
    given_items (cons (fields d) vs) here part index seen =
        let (faults, seen_after) = unfit_item (Names.placed here) index d seen in
        faults
        ++ over_parts (λ k inside. given_at d (here ++ decimal index ∷ []) k inside) (inner part)
        ++ given_items vs here part (suc index) seen_after
    given_items (cons v vs) here part index seen = given_items vs here part (suc index) seen

  unfoldable pub given : Fields → Fields → List String → List Misnamed
  unfolding given_at over_parts
  given parts node under = over_parts (given_at node under) parts

-- The items of a collection that a node held, by the names that are text.
unfoldable pub held_items : Values → Dict String Fields
unfolding get_text insert
held_items vs = from [] vs
  where
    from : Dict String Fields → Values → Dict String Fields
    from had nil = had
    from had (cons (fields d) vs) = elim (get_text "id" d) [
      | none ↦ from had vs
      | some id ↦ from (insert id d had) vs
    ]
    from had (cons v vs) = from had vs

-- The items held in a collection of a node; none of one that is no list.
unfoldable pub had_in : String → Fields → Dict String Fields
unfolding get held_items
had_in k before = elim (get k before) [ some (items vs) ↦ held_items vs | _ ↦ [] ]

-- What is wrong with a name handed back, and the item that had it.
unfoldable pub unknown_name : String → ℕ → Value → Dict String Fields → List Misnamed
unfolding lookup
unknown_name collection index (text t) had = elim (lookup t had) [
  | none ↦ record { collection = collection; index = index; name = text t; why = unknown } ∷ []
  | some was ↦ []
]
unknown_name collection index name had =
    record { collection = collection; index = index; name = name; why = unknown } ∷ []

unfoldable pub unknown_item : String → ℕ → Fields → Dict String Fields → List Misnamed
unfolding get unknown_name
unknown_item collection index d had = elim (get "id" d) [
  | none ↦ []
  | some name ↦ unknown_name collection index name had
]

abbrev first_of : List Misnamed → List Misnamed → List Misnamed
first_of [] others = others
first_of (m ∷ ms) others = m ∷ ms

unfoldable pub was_before : Fields → Dict String Fields → Fields
unfolding get_text lookup
was_before d had = elim (get_text "id" d) [
  | none ↦ end
  | some id ↦ elim (lookup id had) [ none ↦ end | some was ↦ was ]
]

module _ (inner : Value → Fields) where
  -- `handed_back`, of one collection of a node, against the items that were held in it.
  unfoldable mutual
    unfolding unfit_item unknown_item was_before had_in over_parts Names.placed decimal

    pub handed_at : Fields → Fields → List String → String → Value → List Misnamed
    handed_at end before under k part = []
    handed_at (entry (named j) v d) before under k part =
        let here = handed_listed v (Names.placed (under ++ k ∷ [])) part (had_in k before) in
        let rest = handed_at d before under k part in if k == j then here else rest
    handed_at (entry (other j) v d) before under k part = handed_at d before under k part

    pub handed_listed : Value → String → Value → Dict String Fields → List Misnamed
    handed_listed (items vs) here part had = handed_items vs here part had 0 []
    handed_listed v here part had = []

    pub handed_items :
        Values → String → Value → Dict String Fields → ℕ → List String → List Misnamed
    handed_items nil here part had index seen = []
    handed_items (cons (fields d) vs) here part had index seen =
        let (faults, seen_after) = unfit_item here index d seen in
        first_of faults (unknown_item here index d had)
        ++ over_parts
            (λ k inside. handed_at d (was_before d had) (here ∷ decimal index ∷ []) k inside)
            (inner part)
        ++ handed_items vs here part had (suc index) seen_after
    handed_items (cons v vs) here part had index seen =
        handed_items vs here part had (suc index) seen

  unfoldable pub handed_back : Fields → Fields → Fields → List String → List Misnamed
  unfolding handed_at over_parts
  handed_back parts node before under = over_parts (handed_at node before under) parts
