-- ===== src/Content/Settled.antt =====
-- src/kb/settled.py: the keys the store settles, and what an artifact holds beside them.
use shopsystem_kb.Base.{
  ℕ, String, ◌≡◌, Bool, true, false, not, ◌&&◌, Option, none, some, List, [], ◌∷◌, ◌++◌, ◌==◌,
  contains, string_eq, option_eq, filter, if◌then◌else◌, arith, map,
}
use shopsystem_kb.Names
use shopsystem_kb.Content.{
  key_eq, find, keys_of, Key, named, other, Value, null, truth, whole, negative, real, text, items,
  fields, Values, nil, cons, Fields, end, entry, get, put, get_text, is_key, find, keys_of,
}

-- `IDENTITY`
abbrev pub identity : List String
identity = "id" ∷ "type" ∷ "revision" ∷ "title" ∷ []

-- `sections`, and the levels of an artifact.
abbrev pub sections : String
sections = "sections"

pub data Level : Type 0 where
  top item section : Level

-- Whether the first keys of a mapping are those given.
unfoldable pub opens : List String → Fields → Bool
opens [] d = true
opens (k ∷ ks) end = false
opens (k ∷ ks) (entry j v d) = is_key k j && opens ks d

abbrev is_text : Option Value → Bool
is_text (some (text t)) = true
is_text _ = false

-- A whole number of Python that is not a Boolean.
abbrev pub is_whole : Option Value → Bool
is_whole (some (whole n)) = true
is_whole (some (negative n)) = true
is_whole _ = false

-- A test of the text under a key.
abbrev text_there : (String → Bool) → Option Value → Bool
text_there p (some (text t)) = p t
text_there p _ = false

unfoldable pub identified : Fields → Bool
unfolding get opens Names.iri Names.version
identified d =
    opens identity d
    && is_text (get "id" d)
    && is_text (get "type" d)
    && is_whole (get "revision" d)
    && is_text (get "title" d)
    && text_there Names.iri (get "id" d)
    && text_there (λ t. elim (Names.version t) [ none ↦ false | some _ ↦ true ]) (get "type" d)

unfoldable pub given : Fields → String → String → ℕ → String → Fields
unfolding put
given content id type_version revision title =
    put "title" (text title) (
      put "revision" (whole revision) (put "type" (text type_version) (put "id" (text id) content)))

-- The version of its type that an artifact says it conforms to; none where `settled.kind` and
-- `settled.version` raise.
unfoldable pub conforms : Fields → Option (String × ℕ)
unfolding get_text Names.version
conforms d = elim (get_text "type" d) [ none ↦ none | some t ↦ Names.version t ]

unfoldable pub kind : Fields → Option String
unfolding conforms
kind d = elim (conforms d) [ none ↦ none | some (k, n) ↦ some k ]

unfoldable pub version : Fields → Option ℕ
unfolding conforms
version d = elim (conforms d) [ none ↦ none | some (k, n) ↦ some n ]

unfoldable pub typed : Fields → Bool
unfolding kind
typed d = kind d == some Names.types

-- The entries whose key is not one of those given.
unfoldable pub without : List String → Fields → Fields
without ks end = end
without ks (entry (named j) v d) =
    let rest = without ks d in if contains ks j then rest else entry (named j) v rest
without ks (entry (other j) v d) = entry (other j) v (without ks d)

unfoldable pub content : Fields → Fields
unfolding without
content d = without identity d

unfoldable pub checked : Fields → Fields
unfolding without
checked d = without ("id" ∷ "type" ∷ "revision" ∷ []) d

pub get-without :
    (ks : List String) (k : String) (d : Fields)
    → get k (without ks d) ≡ (if contains ks k then none else get k d)
unfolding get without
get-without ks k end = ground arith
get-without ks k (entry (named j) v d) = ground (arith, get-without ks k d)
get-without ks k (entry (other j) v d) = ground (arith, get-without ks k d)

-- `list(dict.fromkeys(names))`, but for the names already seen.
unfoldable pub uniques : List Key → List Key → List Key
uniques seen [] = []
uniques seen (k ∷ ks) =
    let rest = uniques (k ∷ seen) ks in
    let skipped = uniques seen ks in if contains seen k then skipped else k ∷ rest

-- The keys of the mapping that a schema has under a name; none when it has none there.
unfoldable pub declared_names : String → Fields → List Key
unfolding get
declared_names k schema = elim (get k schema) [ some (fields d) ↦ keys_of d | _ ↦ [] ]

abbrev pub names_of : List String → List Key
names_of ks = map named ks

unfoldable pub sequence : Level → List Key → Fields → List Key
unfolding declared_names uniques
sequence top held schema =
    let declared =
      filter (λ k. not (contains (names_of identity) k)) (declared_names "properties" schema) in
    let parts = declared_names "parts" schema in
    let known = names_of identity ++ declared ++ named sections ∷ parts in
    uniques [] (
      names_of identity
      ++ declared
      ++ filter (λ k. not (contains known k)) held
      ++ named sections ∷ parts)
sequence item held schema = uniques [] (named "id" ∷ declared_names "properties" schema ++ held)
sequence section held schema =
    uniques [] (named "title" ∷ named "body" ∷ named sections ∷ [] ++ held)

-- `{name: node[name] for name in names if name in node}`
unfoldable pub picked : List Key → Fields → Fields
unfolding find
picked [] d = end
picked (k ∷ ks) d =
    let rest = picked ks d in elim (find k d) [ none ↦ rest | some v ↦ entry k v rest ]

-- `_arranged`
unfoldable pub arranged : Fields → Level → Fields → Fields
unfolding sequence picked
arranged node level schema = picked (sequence level (keys_of node) schema) node

-- `_section`, with `_listed` of its sections: what a section holds is put in order before the
-- section is, where the source sets it after.
unfoldable mutual
  unfolding arranged

  pub ordered_section : Value → Value
  ordered_section (fields d) = fields (arranged (ordered_inside d) section end)
  ordered_section null = null
  ordered_section (truth b) = truth b
  ordered_section (whole n) = whole n
  ordered_section (negative n) = negative n
  ordered_section (real s) = real s
  ordered_section (text s) = text s
  ordered_section (items vs) = items vs

  pub ordered_inside : Fields → Fields
  ordered_inside end = end
  ordered_inside (entry k v d) =
      let sorted_there = ordered_listed v in
      let rest = ordered_inside d in entry k (if is_key sections k then sorted_there else v) rest

  pub ordered_listed : Value → Value
  ordered_listed (items vs) = items (ordered_sections vs)
  ordered_listed (fields d) = fields d
  ordered_listed null = null
  ordered_listed (truth b) = truth b
  ordered_listed (whole n) = whole n
  ordered_listed (negative n) = negative n
  ordered_listed (real s) = real s
  ordered_listed (text s) = text s

  pub ordered_sections : Values → Values
  ordered_sections nil = nil
  ordered_sections (cons v vs) = cons (ordered_section v) (ordered_sections vs)

-- `_item`, and each of a list's.
unfoldable pub ordered_item : Fields → Value → Value
unfolding arranged
ordered_item schema (fields d) = fields (arranged d item schema)
ordered_item schema v = v

unfoldable pub ordered_items : Fields → Values → Values
unfolding ordered_item
ordered_items schema nil = nil
ordered_items schema (cons v vs) = cons (ordered_item schema v) (ordered_items schema vs)

-- The collections a schema declares, each with the schema of its items, which `composition.declared`
-- gives every collection.
unfoldable pub item_schema : Value → Fields
unfolding get
item_schema (fields part) = elim (get "items" part) [ some (fields d) ↦ d | _ ↦ end ]
item_schema v = end

-- The value of a collection in order; one that is not a list as it was.
unfoldable pub ordered_part : Value → Value → Value
unfolding ordered_items item_schema
ordered_part part (items vs) = items (ordered_items (item_schema part) vs)
ordered_part part v = v

-- The loop of `order` over the collections declared.
unfoldable pub order_parts : Fields → Fields → Fields → Fields
unfolding ordered_part get put
order_parts artifact end d = d
order_parts artifact (entry (named k) part parts) d =
    order_parts artifact parts
      (elim (get k artifact) [ none ↦ d | some v ↦ put k (ordered_part part v) d ])
order_parts artifact (entry (other k) part parts) d = order_parts artifact parts d

-- The sections of an artifact put in order, over what is ordered of it.
unfoldable pub order_sections : Fields → Fields → Fields
unfolding ordered_listed get put
order_sections artifact d = elim (get sections artifact) [
  | none ↦ d
  | some v ↦ put sections (ordered_listed v) d
]

abbrev pub declared_parts : Fields → Fields
declared_parts schema = elim (get "parts" schema) [ some (fields parts) ↦ parts | _ ↦ end ]

unfoldable pub order : Fields → Fields → Fields
unfolding arranged order_sections order_parts get
order artifact schema =
    order_parts artifact (declared_parts schema)
      (order_sections artifact (arranged artifact top schema))
