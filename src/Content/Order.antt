-- ===== src/Content/Order.antt =====
-- What putting an artifact's entries in order keeps, and what the store gives an artifact.
use shopsystem_kb.Base.{
  ℕ, String, ◌≡◌, refl, sym, ap, ◌∙◌, Bool, true, false, not, ◌||◌, Option, none, some, List, [],
  ◌∷◌, ◌++◌, ◌==◌, contains, string_eq, option_eq, filter, if◌then◌else◌, arith, Bool-cases, inl,
  inr, Option-cases,
}
use shopsystem_kb.Content.{
  key_eq, Key, named, whole, text, Fields, end, entry, keys_of, find, get, get-put, Value, put,
  other,
}
use shopsystem_kb.Content.Settled.{
  Level, top, item, section, sequence, uniques, picked, arranged, identity, sections,
  declared_names, names_of, given, content, get-without,
}

find-picked :
    (k : Key) (ks : List Key) (d : Fields)
    → find k (picked ks d) ≡ (if contains ks k then find k d else none)
unfolding find picked
find-picked k [] d = refl
find-picked k (j ∷ ks) d = ground (arith, find-picked k ks d)

contains-uniques :
    (k : Key) (seen ks : List Key)
    → contains seen k ≡ false
    → contains (uniques seen ks) k ≡ contains ks k
unfolding uniques
contains-uniques k seen [] h = refl
contains-uniques k seen (j ∷ ks) h =
    ground (arith, contains-uniques k seen ks, contains-uniques k (j ∷ seen) ks)

contains-append :
    (k : Key) (xs ys : List Key) → contains (xs ++ ys) k ≡ (contains xs k || contains ys k)
contains-append k [] ys = refl
contains-append k (x ∷ xs) ys = ground (arith, contains-append k xs ys)

contains-filter_out :
    (k : Key) (known held : List Key)
    → contains held k ≡ true
    → (contains known k || contains (filter (λ j. not (contains known j)) held) k) ≡ true
contains-filter_out k known [] h = cc
contains-filter_out k known (j ∷ held) h = ground (arith, contains-filter_out k known held)

after_all :
    (k : Key) (lead held : List Key) → contains held k ≡ true → contains (lead ++ held) k ≡ true
after_all k lead held h = contains-append k lead held ∙ ground arith

uniques-holds : (k : Key) (ks : List Key) → contains ks k ≡ true → contains (uniques [] ks) k ≡ true
uniques-holds k ks h = contains-uniques k [] ks refl ∙ h

either : (a b c f : Bool) → (((a || b) || c) || f) ≡ true → (((a || b) || f) || c) ≡ true
either a b c f h = ground arith

abbrev top_names : List Key → List Key → List Key → List Key → List Key
top_names a b c held = a ++ b ++ filter (λ j. not (contains (a ++ b ++ c) j)) held ++ c

top_holds :
    (k : Key) (a b c held : List Key)
    → contains held k ≡ true
    → contains (top_names a b c held) k ≡ true
top_holds k a b c held h =
    let others = filter (λ j. not (contains (a ++ b ++ c) j)) held in
    let ab = contains-append k a b in
    let known = contains-append k (a ++ b) c ∙ ap (λ r. r || contains c k) ab in
    contains-append k (a ++ b ++ others) c
    ∙ ap (λ r. r || contains c k)
        (contains-append k (a ++ b) others ∙ ap (λ r. r || contains others k) ab)
    ∙ either (contains a k) (contains b k) (contains c k) (contains others k)
        (ap (λ r. r || contains others k) (sym known) ∙ contains-filter_out k (a ++ b ++ c) held h)

same_none : (b : Bool) {A : Type 0} {o : Option A} → o ≡ none → (if b then o else none) ≡ o
same_none true e = refl
same_none false e = sym e

-- Every name that a level holds stands in its sequence.
sequence-holds :
    (level : Level) (held : List Key) (schema : Fields) (k : Key)
    → contains held k ≡ true
    → contains (sequence level held schema) k ≡ true
unfolding sequence
sequence-holds top held schema k h =
    let fields_declared =
      filter (λ k. not (contains (names_of identity) k)) (declared_names "properties" schema) in
    let parts = named sections ∷ declared_names "parts" schema in
    uniques-holds k (top_names (names_of identity) fields_declared parts held)
      (top_holds k (names_of identity) fields_declared parts held h)
sequence-holds item held schema k h =
    let lead = named "id" ∷ declared_names "properties" schema in
    uniques-holds k (lead ++ held) (after_all k lead held h)
sequence-holds section held schema k h =
    let lead = named "title" ∷ named "body" ∷ named sections ∷ [] in
    uniques-holds k (lead ++ held) (after_all k lead held h)

find-none : (k : Key) (d : Fields) → contains (keys_of d) k ≡ false → find k d ≡ none
unfolding find
find-none k end h = refl
find-none k (entry j v d) h = ground (arith, find-none k d)

-- A level put in order holds what it held, under every key.
pub find-arranged :
    (k : Key) (d : Fields) (level : Level) (schema : Fields)
    → find k (arranged d level schema) ≡ find k d
unfolding arranged
find-arranged k d level schema =
    find-picked k (sequence level (keys_of d) schema) d
    ∙ elim (Bool-cases (contains (keys_of d) k)) [
      | inl held ↦ rw (sequence-holds level (keys_of d) schema k held)
      | inr not_held ↦ same_none _ (find-none k d not_held)
    ]

pub find-contains :
    (k : Key) (v : Value) (d : Fields) → find k d ≡ some v → contains (keys_of d) k ≡ true
unfolding find
find-contains k v end e = absurd (cc)
find-contains k v (entry j w d) e = ground (arith, find-contains k v d)

pub keys_of-put :
    (j : String) (v : Value) (d : Fields)
    → contains (keys_of d) (named j) ≡ true
    → keys_of (put j v d) ≡ keys_of d
unfolding put
keys_of-put j v end h = absurd (cc)
keys_of-put j v (entry (named i) w d) h = elim (Bool-cases (j == i)) [
  | inl here ↦ rw here refl
  | inr there ↦ rw there (ap (λ ks. named i ∷ ks) (keys_of-put j v d (ground (arith, there, h))))
]
keys_of-put j v (entry (other i) w d) h =
    ap (λ ks. other i ∷ ks) (keys_of-put j v d (ground (arith, h)))

pub contains-find : (k : Key) (d : Fields) → find k d ≡ none → contains (keys_of d) k ≡ false
unfolding find
contains-find k end e = refl
contains-find k (entry j w d) e = ground (arith, contains-find k d)

pub keys_of-picked :
    (ks : List Key) (d : Fields) → keys_of (picked ks d) ≡ filter (λ k. contains (keys_of d) k) ks
unfolding picked
keys_of-picked [] d = refl
keys_of-picked (k ∷ ks) d = elim (Option-cases (find k d)) [
  | inl missing ↦ ground (arith, missing, contains-find k d missing, keys_of-picked ks d)
  | inr (v, found) ↦ ground (arith, found, find-contains k v d found, keys_of-picked ks d)
]

after_all_of :
    (content : Fields) (id type_version : String) (revision : ℕ) (title k : String)
    → get k (given content id type_version revision title) ≡ (
        if k == "title"
        then some (text title)
        else if k == "revision"
        then some (whole revision)
        else if k == "type"
        then some (text type_version)
        else if k == "id"
        then some (text id)
        else get k content)
unfolding given
after_all_of content id type_version revision title k =
    get-put k "title" _ _
    ∙ ap (λ o. if k == "title" then some (text title) else o)
        (get-put k "revision" _ _
          ∙ ap (λ o. if k == "revision" then some (whole revision) else o)
              (get-put k "type" _ _
                ∙ ap (λ o. if k == "type" then some (text type_version) else o)
                    (get-put k "id" _ _)))

content_of_given :
    (d : Fields) (id type_version : String) (revision : ℕ) (title k : String)
    → get k (content (given d id type_version revision title)) ≡ get k (content d)
unfolding content
content_of_given d id type_version revision title k = ground (
  arith,
  get-without identity k (given d id type_version revision title),
  get-without identity k d,
  after_all_of d id type_version revision title k,
)

-- An artifact that the store has given its identity holds it, and beside it what the content held:
-- its title, revision, type version and IRI are those given, whatever the content held there, and its
-- content without them is the content's.
pub given-content :
    (d : Fields) (id type_version : String) (revision : ℕ) (title k : String)
    → (get "id" (given d id type_version revision title) ≡ some (text id))
      × (get "type" (given d id type_version revision title) ≡ some (text type_version))
      × (get "revision" (given d id type_version revision title) ≡ some (whole revision))
      × (get "title" (given d id type_version revision title) ≡ some (text title))
      × (get k (content (given d id type_version revision title)) ≡ get k (content d))
unfolding string_eq
given-content d id type_version revision title k = (
  after_all_of d id type_version revision title "id",
  after_all_of d id type_version revision title "type",
  after_all_of d id type_version revision title "revision",
  after_all_of d id type_version revision title "title",
  content_of_given d id type_version revision title k,
)
