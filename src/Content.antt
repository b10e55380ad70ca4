-- ===== src/Content.antt =====
-- Content as the program holds it: what src/kb/canonical.py reads of YAML. A mapping is its entries
-- in order, each named once; a key that is no text is kept as it was written. A float is kept as
-- `str` writes it. The operations on it are those of src/kb/settled.py (Settled), src/kb/places.py
-- (Places) and src/kb/item_names.py (Slug, Items),
-- with what src/kb/content_values.py (Reading), src/kb/offers.py (Offers) and src/kb/keywords.py
-- (Keywords) ask of it.
pub mod Slug
pub mod Numbered
pub mod Settled
pub mod Places
pub mod Items
pub mod Naming
pub mod Reading
pub mod Offers
pub mod Keywords
pub mod Order
pub mod Reordered
use shopsystem_kb.Base.{
  Eq, arith, ◌≡◌, refl, ℕ, zero, suc, String, Bool, true, false, Option, none, some, List, [], ◌∷◌,
  ◌∙◌, ◌==◌, ==_refl, string_eq, if◌then◌else◌,
}

pub data Key : Type 0 where
  named : String → Key
  other : String → Key

mutual
  pub data Value : Type 0 where
    null : Value
    truth : Bool → Value
    whole : ℕ → Value
    -- `-(n + 1)`
    negative : ℕ → Value
    real : String → Value
    text : String → Value
    items : Values → Value
    fields : Fields → Value

  pub data Values : Type 0 where
    nil : Values
    cons : Value → Values → Values

  pub data Fields : Type 0 where
    end : Fields
    entry : Key → Value → Fields → Fields

pub key_dec : Discrete Key
key_dec = hlevel (string_eq.dec)

instance unfoldable pub key_eq : Eq Key
unfolding key_dec
key_eq = record { dec = key_dec }

abbrev pub keys_of : Fields → List Key
keys_of end = []
keys_of (entry k v d) = k ∷ keys_of d

abbrev pub is_key : String → Key → Bool
is_key k (named j) = k == j
is_key k (other j) = false

-- `d.get(k)`, where the value can be `None` too.
unfoldable pub get : String → Fields → Option Value
get k end = none
get k (entry j v d) = if is_key k j then some v else get k d

-- `k in d`
unfoldable pub has : String → Fields → Bool
unfolding get
has k d = elim (get k d) [ none ↦ false | some _ ↦ true ]

-- `d.get(k)`, whatever the key.
unfoldable pub find : Key → Fields → Option Value
find k end = none
find k (entry j v d) = if k == j then some v else find k d

-- `d[k] = v`
unfoldable pub put : String → Value → Fields → Fields
put k v end = entry (named k) v end
put k v (entry j w d) = let rest = put k v d in if is_key k j then entry j v d else entry j w rest

-- The value at an index of a list, and the list with another there.
unfoldable pub at : ℕ → Values → Option Value
at n nil = none
at zero (cons v vs) = some v
at (suc n) (cons v vs) = at n vs

unfoldable pub set_at : ℕ → Value → Values → Values
set_at n w nil = nil
set_at zero w (cons v vs) = cons w vs
set_at (suc n) w (cons v vs) = cons v (set_at n w vs)

-- A list with a value put at its end.
unfoldable pub pushed : Value → Values → Values
pushed w nil = cons w nil
pushed w (cons v vs) = cons v (pushed w vs)

-- `d.get(k)` when it is text.
unfoldable pub get_text : String → Fields → Option String
unfolding get
get_text k d = elim (get k d) [ some (text t) ↦ some t | _ ↦ none ]

pub get-put :
    (j k : String) (v : Value) (d : Fields)
    → get j (put k v d) ≡ (if j == k then some v else get j d)
unfolding get put
get-put j k v end = refl
get-put j k v (entry (named i) w d) = ground (arith, get-put j k v d)
get-put j k v (entry (other i) w d) = ground (arith, get-put j k v d)

pub get-put_same : (k : String) (v : Value) (d : Fields) → get k (put k v d) ≡ some v
get-put_same k v d = get-put k k v d ∙ rw (==_refl k)
