-- ===== src/Content/Reordered.antt =====
-- What putting an artifact's entries in order leaves at every depth: the same mappings and lists, of
-- entries that stand elsewhere.
use mathlib.Core.Path.{subst}
use shopsystem_kb.Base.{
  contains, filter, ℕ, zero, suc, ◌≡◌, refl, sym, ap, ◌∙◌, Option, none, some, ◌==◌, ==_iff,
  string_eq, if◌then◌else◌, arith, Bool-cases, inl, inr, String,
}
use shopsystem_kb.Content.{
  key_eq, Key, named, other, Value, null, truth, whole, negative, real, text, items, fields, Values,
  nil, cons, Fields, end, entry, find, get, put, at, is_key, keys_of,
}
use shopsystem_kb.Content.Settled.{
  sequence, sections, top, item, section, arranged, ordered_section, ordered_inside, ordered_listed,
  ordered_sections, ordered_item, ordered_items, item_schema, ordered_part, order_parts,
  order_sections, declared_parts, order,
}
use shopsystem_kb.Content.Order.{find-arranged, find-contains, keys_of-put, keys_of-picked}

-- Two values, or two places without one, that are alike but for the order of the entries of their
-- mappings: each mapping holds the same under every key, and each list at every index.
pub data Reordered : Option Value → Option Value → Type 0 where
  neither : Reordered none none
  alike : {v : Value} → Reordered (some v) (some v)
  mapping :
      {d e : Fields}
      → ((k : Key) → Reordered (find k d) (find k e))
      → Reordered (some (fields d)) (some (fields e))
  list :
      {vs ws : Values}
      → ((n : ℕ) → Reordered (at n vs) (at n ws))
      → Reordered (some (items vs)) (some (items ws))

Reordered_refl : (o : Option Value) → Reordered o o
Reordered_refl none = neither
Reordered_refl (some v) = alike

Reordered-arranged :
    (d e : Fields) (level : _) (schema : Fields)
    → ((k : Key) → Reordered (find k d) (find k e))
    → Reordered (some (fields d)) (some (fields (arranged e level schema)))
Reordered-arranged d e level schema each =
    mapping (λ k. subst (Reordered (find k d)) (sym (find-arranged k e level schema)) (each k))

mutual
  unfolding ordered_section ordered_inside ordered_listed ordered_sections find at

  Reordered-section : (v : Value) → Reordered (some v) (some (ordered_section v))
  Reordered-section (fields d) =
      Reordered-arranged d (ordered_inside d) section end (λ k. Reordered-inside d k)
  Reordered-section null = alike
  Reordered-section (truth b) = alike
  Reordered-section (whole n) = alike
  Reordered-section (negative n) = alike
  Reordered-section (real s) = alike
  Reordered-section (text s) = alike
  Reordered-section (items vs) = alike

  Reordered-inside : (d : Fields) (k : Key) → Reordered (find k d) (find k (ordered_inside d))
  Reordered-inside end k = neither
  Reordered-inside (entry j v d) k =
      let listed = Reordered-listed v in
      let rest = Reordered-inside d k in
      elim (Bool-cases (k == j)) [
        | inr n ↦ rw n rest
        | inl e ↦ elim (Bool-cases (is_key sections j)) [
          | inl s ↦ rw (e, s) listed
          | inr o ↦ rw (e, o) alike
        ]
      ]

  Reordered-listed : (v : Value) → Reordered (some v) (some (ordered_listed v))
  Reordered-listed (items vs) = list (λ n. Reordered-sections vs n)
  Reordered-listed (fields d) = alike
  Reordered-listed null = alike
  Reordered-listed (truth b) = alike
  Reordered-listed (whole n) = alike
  Reordered-listed (negative n) = alike
  Reordered-listed (real s) = alike
  Reordered-listed (text s) = alike

  Reordered-sections : (vs : Values) (n : ℕ) → Reordered (at n vs) (at n (ordered_sections vs))
  Reordered-sections nil n = neither
  Reordered-sections (cons v vs) zero = Reordered-section v
  Reordered-sections (cons v vs) (suc n) = Reordered-sections vs n

find-put :
    (k : Key) (j : String) (v : Value) (d : Fields)
    → find k (put j v d) ≡ (if k == named j then some v else find k d)
unfolding find put
find-put k j v end = refl
find-put k j v (entry (named i) w d) = ground (arith, find-put k j v d)
find-put k j v (entry (other i) w d) = ground (arith, find-put k j v d)

get-find : (k : String) (d : Fields) → get k d ≡ find (named k) d
unfolding get find
get-find k end = refl
get-find k (entry (named j) v d) = ground (arith, get-find k d)
get-find k (entry (other j) v d) = ground (arith, get-find k d)

Reordered-items :
    (schema : Fields) (vs : Values) (n : ℕ) → Reordered (at n vs) (at n (ordered_items schema vs))
unfolding ordered_items ordered_item at
Reordered-items schema nil n = neither
Reordered-items schema (cons (fields d) vs) zero =
    Reordered-arranged d d item schema (λ k. Reordered_refl (find k d))
Reordered-items schema (cons null vs) zero = alike
Reordered-items schema (cons (truth b) vs) zero = alike
Reordered-items schema (cons (whole n) vs) zero = alike
Reordered-items schema (cons (negative n) vs) zero = alike
Reordered-items schema (cons (real s) vs) zero = alike
Reordered-items schema (cons (text s) vs) zero = alike
Reordered-items schema (cons (items ws) vs) zero = alike
Reordered-items schema (cons v vs) (suc n) = Reordered-items schema vs n

Reordered-part : (part v : Value) → Reordered (some v) (some (ordered_part part v))
unfolding ordered_part
Reordered-part part (items vs) = list (λ n. Reordered-items (item_schema part) vs n)
Reordered-part part (fields d) = alike
Reordered-part part null = alike
Reordered-part part (truth b) = alike
Reordered-part part (whole n) = alike
Reordered-part part (negative n) = alike
Reordered-part part (real s) = alike
Reordered-part part (text s) = alike

Reordered-found :
    {o p : Option Value} (v : Value) → Reordered o p → o ≡ some v → (w : Value) × (p ≡ some w)
Reordered-found v neither e = absurd (cc)
Reordered-found v (alike {v = u}) e = (u, refl)
Reordered-found v (mapping {e = f} each) e = (fields f, refl)
Reordered-found v (list {ws = ws} each) e = (items ws, refl)

module _ (artifact : Fields) where
  -- What holds under every key what the artifact holds there, in whatever order.
  abbrev Holds : Fields → Type 0
  Holds d = (k : Key) → Reordered (find k artifact) (find k d)

  -- A value of the artifact, put there in order.
  Holds-put :
      (j : String) (v w : Value) (d : Fields)
      → get j artifact ≡ some v
      → Reordered (some v) (some w)
      → Holds d
      → Holds (put j w d)
  Holds-put j v w d e r holds k = elim (Bool-cases (k == named j)) [
    | inl same ↦
        let is = (==_iff k (named j)).0 same in
        let there = sym (ap (λ i. find i artifact) is ∙ sym (get-find j artifact) ∙ e) in
        subst (λ o. Reordered o (find k (put j w d))) there
          (subst (Reordered (some v)) (sym (find-put k j w d ∙ rw same)) r)
    | inr apart ↦ subst (Reordered (find k artifact)) (sym (find-put k j w d ∙ rw apart)) (holds k)
  ]

  Holds-found :
      (j : String) (order_it : Value → Value) (d : Fields)
      → ((v : Value) → Reordered (some v) (some (order_it v)))
      → Holds d
      → (o : Option Value) → get j artifact ≡ o
      → Holds (elim o [ none ↦ d | some v ↦ put j (order_it v) d ])
  Holds-found j order_it d each holds none e = holds
  Holds-found j order_it d each holds (some v) e = Holds-put j v (order_it v) d e (each v) holds

  Holds-parts : (parts d : Fields) → Holds d → Holds (order_parts artifact parts d)
  unfolding order_parts
  Holds-parts end d holds = holds
  Holds-parts (entry (named j) part parts) d holds =
      Holds-parts parts _
        (Holds-found j (ordered_part part) d (Reordered-part part) holds (get j artifact) refl)
  Holds-parts (entry (other j) part parts) d holds = Holds-parts parts d holds

  keys_of-put_held :
      (j : String) (v w : Value) (d : Fields)
      → get j artifact ≡ some v
      → Holds d
      → keys_of (put j w d) ≡ keys_of d
  keys_of-put_held j v w d e holds =
      let (u, found) = Reordered-found v (holds (named j)) (sym (get-find j artifact) ∙ e) in
      keys_of-put j w d (find-contains (named j) u d found)

  keys_of-found :
      (j : String) (order_it : Value → Value) (d : Fields)
      → Holds d
      → (o : Option Value) → get j artifact ≡ o
      → keys_of (elim o [ none ↦ d | some v ↦ put j (order_it v) d ]) ≡ keys_of d
  keys_of-found j order_it d holds none e = refl
  keys_of-found j order_it d holds (some v) e = keys_of-put_held j v (order_it v) d e holds

  keys_of-parts : (parts d : Fields) → Holds d → keys_of (order_parts artifact parts d) ≡ keys_of d
  unfolding order_parts
  keys_of-parts end d holds = refl
  keys_of-parts (entry (named j) part parts) d holds =
      keys_of-parts parts _
        (Holds-found j (ordered_part part) d (Reordered-part part) holds (get j artifact) refl)
      ∙ keys_of-found j (ordered_part part) d holds (get j artifact) refl
  keys_of-parts (entry (other j) part parts) d holds = keys_of-parts parts d holds

  Holds-arranged : (schema : Fields) → Holds (arranged artifact top schema)
  Holds-arranged schema j =
      subst (Reordered (find j artifact)) (sym (find-arranged j artifact top schema))
        (Reordered_refl (find j artifact))

  -- Putting an artifact's entries in order loses, adds and changes nothing, at any depth: each mapping
  -- holds what it held under every key, and each list what it held at every index, its sections and
  -- its collections among them. The artifact's own keys then stand in the sequence that its schema
  -- gives them.
  pub order-Reordered :
      (schema : Fields)
      → Reordered (some (fields artifact)) (some (fields (order artifact schema)))
        × (keys_of (order artifact schema)
            ≡ filter (λ k. contains (keys_of artifact) k) (sequence top (keys_of artifact) schema))
  unfolding order order_sections arranged
  order-Reordered schema =
      let start = Holds-arranged schema in
      let with_sections =
        Holds-found sections ordered_listed (arranged artifact top schema) Reordered-listed start
          (get sections artifact) refl in
      (
        mapping (λ k. Holds-parts (declared_parts schema) _ with_sections k),
        keys_of-parts (declared_parts schema) _ with_sections
            ∙ keys_of-found sections ordered_listed (arranged artifact top schema) start
                (get sections artifact) refl
            ∙ keys_of-picked (sequence top (keys_of artifact) schema) artifact,
      )
