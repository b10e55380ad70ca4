-- ===== src/Links/Stands.antt =====
-- A value that stands at a place in a node, by the names of its fields and the indices of its lists, and
-- the links of a node's own fields, which stand at theirs.
use mathlib.Core.Path.{subst}
use shopsystem_kb.Base.{
  ℕ, zero, suc, String, ◌<>◌, ◌≡◌, refl, sym, ap, ◌∙◌, Bool, Option, none, some, List, [], ◌∷◌,
  ◌++◌, ◌==◌, string_eq, option_eq, inl, inr, arith, Bool-cases, All, if◌then◌else◌, ◌+◌,
}
use shopsystem_kb.Base.Decimal.{decimal}
use shopsystem_kb.Base.Dict.{Dict}
use shopsystem_kb.Content.{
  named, other, Value, null, items, fields, Values, nil, cons, Fields, end, entry, get, at,
}
use shopsystem_kb.Types.Declared.{Composed, made}
use shopsystem_kb.Types.Declared.Bases.{>>=-made, made-injective}
use shopsystem_kb.Links.{Link, each_target, of_field, own_fields, over_parts}

-- A value that stands in a node: under a field, at an index of a list there, or inside a mapping there.
pub data Stands : Fields → String → Value → Type 0 where
  under_field :
      {d : Fields} {place : String} {v : Value} (field : String)
      → get field d ≡ some v
      → place ≡ field
      → Stands d place v
  in_list :
      {d : Fields} {place : String} {v : Value} (field : String) (n : ℕ) (vs : Values)
      → get field d ≡ some (items vs)
      → at n vs ≡ some v
      → place ≡ field <> ("/" <> decimal n)
      → Stands d place v
  in_item :
      {d : Fields} {place : String} {v : Value} (inner : Fields) (field rest : String) (n : ℕ)
      (vs : Values)
      → get field d ≡ some (items vs)
      → at n vs ≡ some (fields inner)
      → Stands inner rest v
      → place ≡ field <> ("/" <> (decimal n <> ("/" <> rest)))
      → Stands d place v

-- A link stands below a place of a node.
abbrev pub IsAt : Fields → String → Link → Type 0
IsAt d above link = (rest : String) × (link.place ≡ above <> rest) × Stands d rest link.target

each_target-IsAt :
    (d : Fields) (field above : String) (ref : Value) (own : Bool) (holder : String) (all : Values)
    → get field d ≡ some (items all)
    → (n : ℕ) (vs : Values) → ((m : ℕ) (v : Value) → at m vs ≡ some v → at (n + m) all ≡ some v)
    → All (IsAt d above) (each_target field above ref own holder n vs)
unfolding each_target at
each_target-IsAt d field above ref own holder all h n nil kept = tt
each_target-IsAt d field above ref own holder all h n (cons v vs) kept = (
  (field <> ("/" <> decimal n), refl, in_list field n all h (at_start (kept zero v refl)) refl),
  each_target-IsAt d field above ref own holder all h (suc n) vs
      (λ m w e. subst (λ k. at k all ≡ some w) (omega arith) (kept (suc m) w e)),
)
  where
    at_start : at (n + 0) all ≡ some v → at n all ≡ some v
    at_start e = subst (λ k. at k all ≡ some v) (omega arith) e

pub All-append :
    {A : Type 0} (P : A → Type 0) (xs ys : List A) → All P xs → All P ys → All P (xs ++ ys)
All-append P [] ys h k = k
All-append P (x ∷ xs) ys (p, h) k = (p, All-append P xs ys h k)

of_field-IsAt :
    (d : Fields) (field above : String) (ref : Value) (holder : String) (o : Option Value)
    → get field d ≡ o
    → All (IsAt d above) (of_field field above ref holder o)
unfolding of_field at
of_field-IsAt d field above ref holder none h = tt
of_field-IsAt d field above ref holder (some null) h = tt
of_field-IsAt d field above ref holder (some (items vs)) h =
    each_target-IsAt d field above ref (above == "") holder vs h 0 vs
      (λ m v e. subst (λ k. at k vs ≡ some v) (omega arith) e)
of_field-IsAt d field above ref holder (some v) h = ((field, refl, under_field field h refl), tt)

pub own_fields-IsAt :
    (d : Fields) (refs : Dict String Value) (above holder : String)
    → All (IsAt d above) (own_fields d refs above holder)
unfolding own_fields
own_fields-IsAt d [] above holder = tt
own_fields-IsAt d ((field, ref) ∷ refs) above holder =
    All-append (IsAt d above) (of_field field above ref holder (get field d)) _
      (of_field-IsAt d field above ref holder (get field d) refl)
      (own_fields-IsAt d refs above holder)

pub over_parts-All :
    (P : Link → Type 0) (look : String → Value → Composed (List Link))
    → ((k : String) (part : Value) (found : List Link) → look k part ≡ made found → All P found)
    → (parts : Fields) (links : List Link) → over_parts look parts ≡ made links
    → All P links
unfolding over_parts
over_parts-All P look h end links e = subst (All P) (made-injective [] links e) tt
over_parts-All P look h (entry (named k) part parts) links e =
    let (found, here, go) = >>=-made (look k part) _ links e in
    let (rest, there, done) =
      >>=-made (over_parts look parts) (λ rest. made (found ++ rest)) links go in
    subst (All P) (made-injective (found ++ rest) links done)
      (All-append P found rest (h k part found here) (over_parts-All P look h parts rest there))
over_parts-All P look h (entry (other k) part parts) links e = over_parts-All P look h parts links e

-- Where an item stands in a collection of a node.
abbrev pub InList : Values → String → String → Link → Type 0
InList vs above k link =
    (n : ℕ) × (inner : Fields) × (rest : String) × (at n vs ≡ some (fields inner))
    × (link.place ≡ above <> (k <> ("/" <> (decimal n <> ("/" <> rest)))))
    × Stands inner rest link.target

abbrev pub InValue : Value → String → String → Link → Type 0
InValue v above k link = (vs : Values) × (v ≡ items vs) × InList vs above k link

abbrev pub InNode : Fields → String → String → Link → Type 0
InNode d above k link = (v : Value) × (get k d ≡ some v) × InValue v above k link

pub InNode-IsAt :
    (d : Fields) (above k : String) (link : Link) → InNode d above k link → IsAt d above link
InNode-IsAt d above k link (v, g, (vs, is, (n, inner, rest, a, p, s))) = (
  k <> ("/" <> (decimal n <> ("/" <> rest))),
  p,
  in_item inner k rest n vs (g ∙ ap some is) a s refl,
)

pub All-map :
    {A : Type 0} (P Q : A → Type 0) (xs : List A) → ((x : A) → P x → Q x) → All P xs → All Q xs
All-map P Q [] f h = tt
All-map P Q (x ∷ xs) f (p, h) = (f x p, All-map P Q xs f h)

-- The first entry of a node under the name of a collection is that of the collection.
pub named-InNode :
    (j k : String) (v : Value) (d : Fields) (above : String) (links : List Link)
    (here rest : Composed (List Link))
    → (here ≡ made links → All (InValue v above k) links)
    → (rest ≡ made links → All (InNode d above k) links)
    → (if k == j then here else rest) ≡ made links
    → All (InNode (entry (named j) v d) above k) links
unfolding get
named-InNode j k v d above links here rest f g e = elim (Bool-cases (k == j)) [
  | inl same ↦
      All-map (InValue v above k) (InNode (entry (named j) v d) above k) links
        (λ l p. (v, (rw same), p)) (f ((sym (rw same)) ∙ e))
  | inr differs ↦
      All-map (InNode d above k) (InNode (entry (named j) v d) above k) links
        (λ l (w, h, p). (w, (rw differs h), p)) (g ((sym (rw differs)) ∙ e))
]

pub first_of : (n : ℕ) (all : Values) (w : Value) → at (n + 0) all ≡ some w → at n all ≡ some w
first_of n all w e = subst (λ k. at k all ≡ some w) (omega arith) e

pub next_of :
    (n m : ℕ) (all : Values) (w : Value) → at (n + suc m) all ≡ some w → at (suc n + m) all ≡ some w
next_of n m all w e = subst (λ k. at k all ≡ some w) (omega arith) e
