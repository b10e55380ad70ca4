-- ===== src/Types/Declared/Own.antt =====
-- A type that names a field or a collection that its base names too has its own.
use shopsystem_kb.Base.{
  ℕ, ◌≡◌, refl, sym, ap, ◌∙◌, false, some, List, [], ◌∷◌, ◌++◌, ◌==◌, ==_iff, contains, IsUnique,
  arith, Bool-cases, inl, inr, if◌then◌else◌, Option, String,
}
use shopsystem_kb.Content.{Key, key_eq, Value, fields, Fields, end, entry, get, find, keys_of}
use shopsystem_kb.Types.Composition.{Corpus}
use shopsystem_kb.Types.Declared.{
  unresolved, unread, unended, Composed, made, mapped, ◌>>=◌, set_key, update, Declared, nothing,
  with_part, with_parts, declared, composition, listed, value_eq,
}
use shopsystem_kb.Types.Declared.Bases.{>>=-made, composition-last, made-injective}

find-set_key :
    (j k : Key) (v : Value) (d : Fields)
    → find j (set_key k v d) ≡ (if j == k then some v else find j d)
unfolding find set_key
find-set_key j k v end = refl
find-set_key j k v (entry i w d) = ground (arith, find-set_key j k v d)

find-update_none :
    (k : Key) (d own : Fields) → contains (keys_of own) k ≡ false → find k (update d own) ≡ find k d
unfolding update
find-update_none k d end h = refl
find-update_none k d (entry j v own) h =
    find-update_none k (set_key j v d) own (ground arith) ∙ find-set_key k j v d ∙ ground arith

find-update :
    (k : Key) (v : Value) (d own : Fields)
    → IsUnique (keys_of own)
    → find k own ≡ some v
    → find k (update d own) ≡ some v
unfolding update find
find-update k v d end u h = absurd (cc)
find-update k v d (entry j w own) (once, u) h = elim (Bool-cases (k == j)) [
  | inl e ↦
      let same = (==_iff k j).0 e in
      find-update_none k (set_key j w d) own (ap (contains (keys_of own)) same ∙ once)
      ∙ find-set_key k j w d
      ∙ rw e (ground arith)
  | inr n ↦ find-update k v (set_key j w d) own u (ground arith)
]

with_parts-append :
    (d : Declared) (xs ys : List Fields)
    → with_parts d (xs ++ ys) ≡ (with_parts d xs >>= λ e. with_parts e ys)
unfolding with_parts
with_parts-append d [] ys = refl
with_parts-append d (x ∷ xs) ys = go (λ e. with_parts-append e xs ys) (with_part d x)
  where
    go :
        ((e : Declared) → with_parts e (xs ++ ys) ≡ (with_parts e xs >>= λ e. with_parts e ys))
        → (o : Composed Declared)
        → (o >>= λ e. with_parts e (xs ++ ys))
          ≡ ((o >>= λ e. with_parts e xs) >>= λ e. with_parts e ys)
    go ih (made e) = ih e
    go ih unresolved = refl
    go ih unread = refl
    go ih unended = refl

-- The declarations of the schema itself are put over those of its bases.
over_bases :
    (corpus : Corpus) (fuel : ℕ) (schema : Fields) (d : Declared)
    → declared corpus fuel schema ≡ made d
    → (e : Declared) × (with_part e schema ≡ made d)
unfolding declared with_parts
over_bases corpus fuel schema d h =
    let (built, composed, parts) = >>=-made (composition corpus fuel schema) _ d h in
    let (bases, last) = composition-last corpus fuel schema built composed in
    let split =
      sym (with_parts-append nothing bases (schema ∷ []))
      ∙ ap (with_parts nothing) (sym last)
      ∙ parts in
    let (e, _, own) = >>=-made (with_parts nothing bases) _ d split in
    let (f, at_end, done) = >>=-made (with_part e schema) _ d own in (e, at_end ∙ done)

-- The two kinds of what a schema declares, each under a keyword of it.
pub data Kind : Type 0 where
  field collection : Kind

abbrev pub keyword_of : Kind → String
keyword_of field = "properties"
keyword_of collection = "parts"

abbrev pub declared_of : Kind → Declared → Fields
declared_of field d = d.properties
declared_of collection d = d.parts

mapped-made :
    (o : Option Value) (own got : Fields) → o ≡ some (fields own) → mapped o ≡ made got → got ≡ own
mapped-made o own got e h = made-injective got own (sym h ∙ ap mapped e)

-- What one schema adds, in the order that it is added.
record Added (e d : Declared) (schema : Fields) : Type 0 where
  properties : Fields
  parts : Fields
  at_properties : mapped (get "properties" schema) ≡ made properties
  at_parts : mapped (get "parts" schema) ≡ made parts
  fields_are : d.properties ≡ update e.properties properties
  parts_are : d.parts ≡ update e.parts parts

with_part-Added :
    (e d : Declared) (schema : Fields) → with_part e schema ≡ made d → Added e d schema
unfolding with_part
with_part-Added e d schema h =
    let (properties, at_properties, next) = >>=-made (mapped (get "properties" schema)) _ d h in
    let (parts, at_parts, last) = >>=-made (mapped (get "parts" schema)) _ d next in
    let (summary, _, done) = >>=-made (listed (get "summary" schema)) _ d last in
    let is = made-injective _ d done in
    record {
      properties = properties;
      parts = parts;
      at_properties = at_properties;
      at_parts = at_parts;
      fields_are = ap (λ (r : Declared). r.properties) (sym is);
      parts_are = ap (λ (r : Declared). r.parts) (sym is);
    }

-- A type that names a field, or a collection, has its own, whatever the types it is built on declare
-- under that name and whatever else its schema holds: what is declared of it is what its own schema
-- says, where its fields, or its collections, are named each once.
pub declared-own :
    (kind : Kind) (corpus : Corpus) (fuel : ℕ) (schema own : Fields) (d : Declared) (name : Key)
    (v : Value)
    → declared corpus fuel schema ≡ made d
    → get (keyword_of kind) schema ≡ some (fields own)
    → IsUnique (keys_of own)
    → find name own ≡ some v
    → find name (declared_of kind d) ≡ some v
declared-own field corpus fuel schema own d name v h there once named_so =
    let (e, last) = over_bases corpus fuel schema d h in
    let added = with_part-Added e d schema last in
    let is = mapped-made (get "properties" schema) own added.properties there added.at_properties in
    ap (find name) (added.fields_are ∙ ap (update e.properties) is)
    ∙ find-update name v e.properties own once named_so
declared-own collection corpus fuel schema own d name v h there once named_so =
    let (e, last) = over_bases corpus fuel schema d h in
    let added = with_part-Added e d schema last in
    let is = mapped-made (get "parts" schema) own added.parts there added.at_parts in
    ap (find name) (added.parts_are ∙ ap (update e.parts) is)
    ∙ find-update name v e.parts own once named_so
