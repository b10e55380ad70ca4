-- ===== src/Types/Declared/Ranked.antt =====
-- The bases of every schema have an end where no type leads back to itself by references to whole types.
use mathlib.Core.Path.{subst}
use mathlib.Core.Option.{some-injective}
use shopsystem_kb.Base.{
  ℕ, zero, suc, ◌+◌, ◌<◌, ◌≤◌, String, ◌≡◌, ◌≢◌, refl, sym, ap, ◌∙◌, true, Option, none, some, List,
  [], ◌∷◌, ◌++◌, ◌==◌, ==_iff, ==_refl, string_eq, In, In-append_left, In-append_right, inl, inr,
  arith, Bool-cases, Option-cases, if◌then◌else◌,
}
use shopsystem_kb.Content.{
  named, other, Value, null, truth, whole, negative, real, text, items, fields, Values, nil, cons,
  Fields, end, entry, get, is_key,
}
use shopsystem_kb.Types.Composition.{
  Corpus, Reference, reference, named_there, references, references_in, references_each,
}
use shopsystem_kb.Types.Declared.{made, unended, base, type_schema, composition, listed}
use shopsystem_kb.Types.Declared.Bases.{made-injective}
use shopsystem_kb.Types.Declared.Grounded.{Grounded, grounded, Member, composition-Grounded}

-- How large a value is.
mutual
  size : Value → ℕ
  size (fields d) = suc (size_in d)
  size (items vs) = suc (size_each vs)
  size null = 1
  size (truth b) = 1
  size (whole n) = 1
  size (negative n) = 1
  size (real s) = 1
  size (text s) = 1

  size_in : Fields → ℕ
  size_in end = 1
  size_in (entry k v d) = size v + size_in d

  size_each : Values → ℕ
  size_each nil = 1
  size_each (cons v vs) = size v + size_each vs

-- What stands in a mapping or a list is smaller, and its references are among those of the whole.
get-inside :
    (k : String) (v : Value) (d : Fields)
    → get k d ≡ some v
    → (size v ≤ size_in d) × ((s : Reference) → In s (references v) → In s (references_in d))
unfolding get size references references_in size_in
get-inside k v end e = absurd (cc)
get-inside k v (entry j w d) e = elim (Bool-cases (is_key k j)) [
  | inl here ↦
      let is = some-injective w v (sym (rw here refl) ∙ e) in
      (
        subst (λ x. size x ≤ size w + size_in d) is (omega arith),
        λ s m. In-append_right s (named_there j w) (references w ++ references_in d) (
            In-append_left s (references w) (references_in d)
              (subst (λ x. In s (references x)) (sym is) m)),
      )
  | inr there ↦
      let (small, among) = get-inside k v d (sym (rw there refl) ∙ e) in
      (
        omega arith,
        λ s m.
            In-append_right s (named_there j w) (references w ++ references_in d)
              (In-append_right s (references w) (references_in d) (among s m)),
      )
]

Member-inside :
    (x : Fields) (vs : Values)
    → Member x vs
    → (size (fields x) ≤ size_each vs)
      × ((s : Reference) → In s (references (fields x)) → In s (references_each vs))
unfolding size size_in size_each references references_in references_each
Member-inside x nil m = absurd m
Member-inside x (cons v vs) (inl e) = (
  subst (λ w. size (fields x) ≤ size w + size_each vs) (sym e) (omega arith),
  λ s m.
      In-append_left s (references v) (references_each vs)
        (subst (λ w. In s (references w)) (sym e) m),
)
Member-inside x (cons v vs) (inr m) =
    let (small, among) = Member-inside x vs m in
    (omega arith, λ s there. In-append_right s (references v) (references_each vs) (among s there))

nil-Member : (x : Fields) (vs : Values) → made nil ≡ made vs → Member x vs → ⊥
nil-Member x vs e m = subst (Member x) (sym (made-injective nil vs e)) m

listed_items :
    (o : Option Value) (vs : Values) (x : Fields)
    → listed o ≡ made vs
    → Member x vs
    → o ≡ some (items vs)
listed_items none vs x e m = absurd (nil-Member x vs e m)
listed_items (some (items ws)) vs x e m = ap (λ each. some (items each)) (made-injective ws vs e)
listed_items (some (fields end)) vs x e m = absurd (nil-Member x vs e m)
listed_items (some (fields (entry k v d))) vs x e m = absurd (cc)
listed_items (some (text t)) vs x e m = elim (Bool-cases (t == "")) [
  | inl empty ↦ absurd (nil-Member x vs (sym (rw empty refl) ∙ e) m)
  | inr full ↦ absurd (cc (rw full at e))
]
listed_items (some null) vs x e m = absurd (cc)
listed_items (some (truth b)) vs x e m = absurd (cc)
listed_items (some (whole n)) vs x e m = absurd (cc)
listed_items (some (negative n)) vs x e m = absurd (cc)
listed_items (some (real r)) vs x e m = absurd (cc)

named_ref :
    (ref : String) (r : Reference) (t : String)
    → reference ref ≡ some r
    → r.type_id ≡ some t
    → named_there (named "$ref") (text ref) ≡ r ∷ []
unfolding named_there
named_ref ref r t h k = ground (arith, ==_refl {A = String} "$ref", h, k)

-- A reference under `$ref` that names a type is among those of the schema.
ref_among :
    (d : Fields) (ref : String) (r : Reference) (t : String)
    → get "$ref" d ≡ some (text ref)
    → reference ref ≡ some r
    → r.type_id ≡ some t
    → In r (references_in d)
unfolding get references_in
ref_among end ref r t e h k = absurd (cc)
ref_among (entry (other j) v d) ref r t e h k =
    In-append_right r (references v) (references_in d) (ref_among d ref r t e h k)
ref_among (entry (named j) v d) ref r t e h k = elim (Bool-cases ("$ref" == j)) [
  | inr apart ↦ In-append_right r (named_there (named j) v) (references v ++ references_in d) (
      In-append_right r (references v) (references_in d)
        (ref_among d ref r t (sym (rw apart refl) ∙ e) h k))
  | inl here ↦
      let is = some-injective v (text ref) (sym (rw here refl) ∙ e) in
      let at = sym ((==_iff "$ref" j).0 here) in
      In-append_left r (named_there (named j) v) (references v ++ references_in d) (
        subst (λ w. In r (named_there (named j) w)) (sym is)
          (subst (λ i. In r (named_there (named i) (text ref))) (sym at)
            (subst (In r) (sym (named_ref ref r t h k)) (inl refl))))
]

base_text :
    (d : Fields) (ref : String)
    → base d ≡ some ref
    → (get "$ref" d ≡ some (text ref))
      × (r : Reference) × (reference ref ≡ some r)
      × (r.whole_type ≡ true)
unfolding base
base_text d ref b = go (get "$ref" d) b
  where
    whole_only :
        (at : String) (o : Option Reference)
        → (elim o [ none ↦ none | some r ↦ if r.whole_type then some at else none ]) ≡ some ref
        → (at ≡ ref) × (r : Reference) × (o ≡ some r) × (r.whole_type ≡ true)
    whole_only at none e = absurd (cc)
    whole_only at (some r) e = elim (Bool-cases r.whole_type) [
      | inl w ↦ (some-injective at ref (sym (rw w refl) ∙ e), r, refl, w)
      | inr p ↦ absurd (cc (rw p at e))
    ]

    go :
        (o : Option Value)
        → (elim o [
          | some (text at) ↦ elim (reference at) [
            | none ↦ none
            | some r ↦ if r.whole_type then some at else none
          ]
          | _ ↦ none
        ])
          ≡ some ref
        → (o ≡ some (text ref)) × (r : Reference) × (reference ref ≡ some r) × (r.whole_type ≡ true)
    go (some (text at)) e =
        let (same, r, named_so, w) = whole_only at (reference at) e in
        (ap (λ t. some (text t)) same, r, subst (λ t. reference t ≡ some r) same named_so, w)
    go none e = absurd (cc)
    go (some null) e = absurd (cc)
    go (some (truth b)) e = absurd (cc)
    go (some (whole n)) e = absurd (cc)
    go (some (negative n)) e = absurd (cc)
    go (some (real t)) e = absurd (cc)
    go (some (items vs)) e = absurd (cc)
    go (some (fields d)) e = absurd (cc)

-- The type that a reference to a schema names.
pub schema_type :
    (corpus : Corpus) (ref : String) (x : Fields) (r : Reference)
    → reference ref ≡ some r
    → type_schema corpus ref ≡ made x
    → (t : String) × (r.type_id ≡ some t)
unfolding type_schema
schema_type corpus ref x r h e = elim (Option-cases r.type_id) [
  | inr found ↦ found
  | inl missing ↦ absurd (ground arith)
]

-- What a schema is built on is a whole type that one of its references names.
base_among :
    (corpus : Corpus) (d x : Fields) (ref : String)
    → base d ≡ some ref
    → type_schema corpus ref ≡ made x
    → (r : Reference) × (reference ref ≡ some r) × (r.whole_type ≡ true) × In r (references_in d)
base_among corpus d x ref b e =
    let (at, r, named_so, w) = base_text d ref b in
    let (t, type_is) = schema_type corpus ref x r named_so e in
    (r, named_so, w, ref_among d ref r t at named_so type_is)

module _ (corpus : Corpus) (rank : Reference → ℕ)
    (falls : (ref : String) (x : Fields) (r s : Reference)
      → reference ref ≡ some r
      → type_schema corpus ref ≡ made x
      → In s (references (fields x))
      → s.whole_type ≡ true
      → rank s < rank r) where
  -- A schema whose references to whole types rank below a bound.
  abbrev IsBelow : ℕ → Fields → Type 0
  IsBelow m d = (s : Reference) → In s (references (fields d)) → s.whole_type ≡ true → rank s < m

  -- The schemas of a bound and of a size, by those that they are built on.
  IsBelow-Grounded_within :
      (m : ℕ)
      → ((ref : String) (r : Reference) (x : Fields)
          → reference ref ≡ some r
          → type_schema corpus ref ≡ made x
          → rank r < m
          → Grounded corpus x)
      → (n : ℕ) (d : Fields) → size (fields d) ≤ n
      → IsBelow m d
      → Grounded corpus d
  unfolding size references
  IsBelow-Grounded_within m on_type zero d small below = absurd (omega arith)
  IsBelow-Grounded_within m on_type (suc n) d small below =
      grounded
        (λ vs x members i.
          let at = listed_items (get "allOf" d) vs x members i in
          let (held, among) = get-inside "allOf" (items vs) d at in
          let (less, of_each) = Member-inside x vs i in
          IsBelow-Grounded_within m on_type n x (omega arith)
            (λ s there. below s (among s (of_each s there))))
        (λ ref x b t.
          let (r, named_so, w, there) = base_among corpus d x ref b t in
          on_type ref r x named_so t (below r there w))

  IsBelow-Grounded : (m : ℕ) (d : Fields) → IsBelow m d → Grounded corpus d
  IsBelow-Grounded zero d below =
      IsBelow-Grounded_within zero (λ ref r x h t low. absurd (omega arith)) (size (fields d)) d
        (omega arith) below
  IsBelow-Grounded (suc m) d below =
      IsBelow-Grounded_within (suc m)
        (λ ref r x h t low.
          IsBelow-Grounded m x
            (λ s there w. let under = falls ref x r s h t there w in omega arith))
        (size (fields d)) d (omega arith) below

  total : List Reference → ℕ
  total [] = 0
  total (s ∷ each) = rank s + total each

  total-le : (s : Reference) (each : List Reference) → In s each → rank s < suc (total each)
  unfolding total
  total-le s [] m = absurd m.1
  total-le s (r ∷ each) (inl e) =
      subst (λ q. rank q < suc (rank r + total each)) (sym e) (omega arith)
  total-le s (r ∷ each) (inr m) = omega (arith, total-le s each m)

  -- Where every type's schema refers, as to a whole, only to types that rank below it, the bases of every
  -- schema have an end: some fuel, and any more, is enough to follow them.
  pub composition-ends :
      (schema : Fields) → (n : ℕ) × ((k : ℕ) → composition corpus (k + n) schema ≢ unended)
  composition-ends schema = composition-Grounded corpus (
      IsBelow-Grounded (suc (total (references (fields schema)))) schema
        (λ s there w. total-le s (references (fields schema)) there))
