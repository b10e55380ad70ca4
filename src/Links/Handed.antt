-- ===== src/Links/Handed.antt =====
-- `handed`, `told` and `_read` of src/kb/links.py: the links that an artifact carries as the port takes
-- them.
use shopsystem_kb.Base.{
  ℕ, String, Bool, true, false, Option, none, some, List, [], ◌∷◌, map, contains, option_eq, zip,
}
use shopsystem_kb.Names
use shopsystem_kb.Port
use shopsystem_kb.Port.{Told, told_eq}
use shopsystem_kb.Content.{Value, text, items, fields, Values, nil, cons, Fields, get}
use shopsystem_kb.Content.Settled.{kind}
use shopsystem_kb.Requests.{converted, refused}
use shopsystem_kb.Requests.Values as Converted
use shopsystem_kb.Types.Composition.{Corpus, nearest_type}
use shopsystem_kb.Types.Declared.{Composed, made, unread, ◌>>=◌}
use shopsystem_kb.Links.{Link, carried}

abbrev chars : String → List String
chars String.[] = []
chars (String.◌∷◌ c s) = String.◌∷◌ c String.[] ∷ chars s

-- The kinds among the entries of a list; an entry that is no text is no kind.
abbrev texts_of : Values → List String
texts_of nil = []
texts_of (cons (text t) vs) = t ∷ texts_of vs
texts_of (cons v vs) = texts_of vs

-- `tuple(link.ref["targets"])`
unfoldable pub kinds_of : Value → Composed (List String)
unfolding get
kinds_of (fields ref) = elim (get "targets" ref) [
  | some (items vs) ↦ made (texts_of vs)
  | some (text t) ↦ made (chars t)
  | _ ↦ unread
]
kinds_of _ = unread

-- A link read, of the artifact and the part that its value names.
unfoldable pub read_as : Link → Converted.Locator → List String → Port.Link
unfolding Names.placed
read_as link at kinds = record {
  field = link.field;
  place = link.place;
  target = at.id;
  part = Names.placed at.place;
  kinds = kinds;
  implicit = false;
  under = none;
  waits = false;
  holder = some link.holder;
  imported = false;
}

-- `_read`
unfoldable pub read : Link → Composed (Option Port.Link)
unfolding Converted.target kinds_of read_as
read link = elim (link.target) [
  | text t ↦ elim (Converted.target t) [
    | refused fs ↦ made none
    | converted at ↦ kinds_of link.ref >>= λ kinds. made (some (read_as link at kinds))
  ]
  | _ ↦ made none
]

-- The links read, those that name something.
unfoldable pub read_all : List Link → Composed (List Port.Link)
unfolding read
read_all [] = made []
read_all (link ∷ links) = read link >>= λ one.
    read_all links >>= λ rest. made (elim one [ none ↦ rest | some l ↦ l ∷ rest ])

-- `as_told in waited`
abbrev is_waited : List Told → Option Told → Bool
is_waited waited none = false
is_waited waited (some t) = contains waited t

-- A link with the held type that it sits under, and whether the store held it waiting.
unfoldable pub finished : Corpus → List Told → Port.Link × Option Told → Port.Link
unfolding nearest_type told_eq
finished corpus waited (link, told) = record link {
  under = nearest_type corpus link.target;
  waits = is_waited waited told;
}

-- The link to an artifact's type.
unfoldable pub implicit_link : String → Port.Link
implicit_link kind = record {
  field = "";
  place = "";
  target = kind;
  part = "";
  kinds = Names.types ∷ [];
  implicit = true;
  under = none;
  waits = false;
  holder = some "";
  imported = false;
}

unfoldable pub handed : Corpus → ℕ → Fields → Fields → List Told → Composed (List Port.Link)
unfolding kind carried read_all finished implicit_link Port.told
handed corpus fuel artifact typed waited = elim (kind artifact) [
  | none ↦ unread
  | some k ↦ elim (get "schema" typed) [
    | some (fields schema) ↦ carried corpus fuel artifact schema >>= λ links.
        read_all links >>= λ own. made (
          implicit_link k
          ∷ map (finished corpus waited) (zip own (Port.told (map Port.key_of_link own))))
    | _ ↦ unread
  ]
]

-- Each link read, none for one whose value could name nothing.
unfoldable pub read_each : List Link → Composed (List (Option Port.Link))
unfolding read
read_each [] = made []
read_each (link ∷ links) = read link >>= λ one. read_each links >>= λ rest. made (one ∷ rest)

-- Those of the links that were read.
unfoldable pub read_links : List (Option Port.Link) → List Port.Link
read_links [] = []
read_links (none ∷ each) = read_links each
read_links (some link ∷ each) = link ∷ read_links each

-- `next(found)` for each link that was read.
unfoldable pub each_told : List (Option Port.Link) → List (Option Told) → List (Option Told)
each_told [] found = []
each_told (none ∷ each) found = none ∷ each_told each found
each_told (some link ∷ each) [] = each_told each []
each_told (some link ∷ each) (one ∷ found) = one ∷ each_told each found

unfoldable pub told : List Link → Composed (List (Option Told))
unfolding read_each read_links each_told Port.told
told links = read_each links >>= λ each.
    made (each_told each (Port.told (map Port.key_of_link (read_links each))))
