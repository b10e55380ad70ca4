-- ===== src/Types/Declared/Grounded.antt =====
-- The bases of a schema are followed to their end where they have one.
use mathlib.Core.Path.{subst}
use shopsystem_kb.Base.{
  ℕ, zero, suc, ◌+◌, String, ◌≡◌, ◌≢◌, refl, sym, ◌∙◌, Option, none, some, List, arith, ◌⊎◌, inl,
  inr,
}
use shopsystem_kb.Content.{
  Value, null, truth, whole, negative, real, text, items, fields, Values, nil, cons, Fields, end,
  entry, get,
}
use shopsystem_kb.Types.Composition.{Corpus}
use shopsystem_kb.Types.Declared.{
  Composed, made, unresolved, unread, unended, ◌>>=◌, base, type_schema, on_base, composition,
  listed, each_member,
}
use shopsystem_kb.Types.Declared.Bases.{
  composition-more, made-injective, with_below, with_above, with_members,
}

abbrev pub Member : Fields → Values → Type 0
Member d nil = ⊥
Member d (cons v vs) = (v ≡ fields d) ⊎ Member d vs

-- The bases of a schema have an end: those of each of its members have, and those of the type that it
-- is built on.
pub data Grounded (corpus : Corpus) : Fields → Type 0 where
  grounded :
      {schema : Fields}
      → ((vs : Values) (d : Fields)
          → listed (get "allOf" schema) ≡ made vs
          → Member d vs
          → Grounded corpus d)
      → ((ref : String) (d : Fields)
          → base schema ≡ some ref
          → type_schema corpus ref ≡ made d
          → Grounded corpus d)
      → Grounded corpus schema

bind-ends :
    {A B : Type 0} (m : Composed A) (f : A → Composed B)
    → m ≢ unended
    → ((a : A) → m ≡ made a → f a ≢ unended)
    → (m >>= f) ≢ unended
bind-ends (made a) f h k = k a refl
bind-ends unresolved f h k = λ e. absurd (cc)
bind-ends unread f h k = λ e. absurd (cc)
bind-ends unended f h k = absurd (h refl)

module _ (corpus : Corpus) where
  -- Some fuel, and any more, is enough.
  abbrev Enough : (ℕ → Composed (List Fields)) → Type 0
  Enough c = (n : ℕ) × ((k : ℕ) → c (k + n) ≢ unended)

  more-ends :
      (n : ℕ) (d : Fields)
      → composition corpus n d ≢ unended
      → (k : ℕ) → composition corpus (k + n) d ≢ unended
  more-ends n d h zero = subst (λ m. composition corpus m d ≢ unended) (omega arith) h
  more-ends n d h (suc k) =
      let ih = more-ends n d h k in
      subst (λ m. composition corpus m d ≢ unended) (omega arith)
        (λ e. ih (sym (composition-more corpus (k + n) d ih) ∙ e))

  members-Enough :
      (vs : Values)
      → ((d : Fields) → Member d vs → Enough (λ n. composition corpus n d))
      → Enough (λ n. each_member (composition corpus n) vs)
  unfolding each_member
  members-Enough nil h = (0, λ k e. absurd (cc))
  members-Enough (cons (fields d) vs) h =
      let (n, one) = h d (inl refl) in
      let (m, rest) = members-Enough vs (λ x i. h x (inr i)) in
      (
        n + m,
        λ k.
            bind-ends (composition corpus (k + (n + m)) d) _
              (subst (λ f. composition corpus f d ≢ unended) (omega arith) (one (k + m)))
              (λ built _.
                bind-ends (each_member (composition corpus (k + (n + m))) vs) _
                  (subst (λ f. each_member (composition corpus f) vs ≢ unended) (omega arith)
                    (rest (k + n)))
                  (λ others _ e. absurd (cc))),
      )
  members-Enough (cons null vs) h = (0, λ k e. absurd (cc))
  members-Enough (cons (truth b) vs) h = (0, λ k e. absurd (cc))
  members-Enough (cons (whole b) vs) h = (0, λ k e. absurd (cc))
  members-Enough (cons (negative b) vs) h = (0, λ k e. absurd (cc))
  members-Enough (cons (real b) vs) h = (0, λ k e. absurd (cc))
  members-Enough (cons (text b) vs) h = (0, λ k e. absurd (cc))
  members-Enough (cons (items b) vs) h = (0, λ k e. absurd (cc))

  type_schema-ends : (ref : String) → type_schema corpus ref ≢ unended
  unfolding type_schema
  type_schema-ends ref e = ground arith

  base-Enough :
      (b : Option String)
      → ((ref : String) (d : Fields)
          → b ≡ some ref
          → type_schema corpus ref ≡ made d
          → Enough (λ n. composition corpus n d))
      → Enough (λ n. on_base corpus (composition corpus n) b)
  unfolding on_base
  base-Enough none h = (0, λ k e. absurd (cc))
  base-Enough (some ref) h = go (type_schema corpus ref) refl
    where
      go :
          (o : Composed Fields)
          → type_schema corpus ref ≡ o
          → Enough (λ n. o >>= composition corpus n)
      go (made d) e = h ref d refl e
      go unresolved e = (0, λ k e. absurd (cc))
      go unread e = (0, λ k e. absurd (cc))
      go unended e = absurd (type_schema-ends ref e)

  listed-ends : (o : Option Value) → listed o ≢ unended
  listed-ends none e = absurd (cc)
  listed-ends (some (text t)) e = ground arith
  listed-ends (some (fields end)) e = absurd (cc)
  listed-ends (some (fields (entry k v d))) e = absurd (cc)
  listed-ends (some null) e = absurd (cc)
  listed-ends (some (truth b)) e = absurd (cc)
  listed-ends (some (whole n)) e = absurd (cc)
  listed-ends (some (negative n)) e = absurd (cc)
  listed-ends (some (real t)) e = absurd (cc)
  listed-ends (some (items vs)) e = absurd (cc)

  -- Some fuel, and any more, is enough to follow the bases of a schema where they have an end.
  pub composition-Grounded :
      {schema : Fields}
      → Grounded corpus schema
      → (n : ℕ) × ((k : ℕ) → composition corpus (k + n) schema ≢ unended)
  unfolding composition
  composition-Grounded (grounded {schema} members bases) =
      let (b, below) =
        base-Enough (base schema) (λ ref d e t. composition-Grounded (bases ref d e t)) in
      let (m, above) =
        all_members (listed (get "allOf" schema))
          (λ vs e. members-Enough vs (λ d i. composition-Grounded (members vs d e i))) in
      (
        suc (m + b),
        λ k.
            let f = composition corpus (k + (m + b)) in
            subst (λ n. composition corpus n schema ≢ unended) {x = suc (k + (m + b))} (omega arith)
              (bind-ends (listed (get "allOf" schema)) (with_members corpus f schema)
                (listed-ends (get "allOf" schema))
                (λ vs e.
                  bind-ends (each_member f vs) (with_above corpus f schema)
                    (subst (λ n. each_member (composition corpus n) vs ≢ unended) (omega arith)
                      (above vs e (k + b)))
                    (λ built _.
                      bind-ends (on_base corpus f (base schema)) (with_below corpus f schema built)
                        (subst (λ n. on_base corpus (composition corpus n) (base schema) ≢ unended)
                          (omega arith) (below (k + m)))
                        (λ others _ e. absurd (cc))))),
      )
    where
      all_members :
          (o : Composed Values)
          → ((vs : Values) → o ≡ made vs → Enough (λ n. each_member (composition corpus n) vs))
          → (n : ℕ) × ((vs : Values)
              → o ≡ made vs
              → (k : ℕ) → each_member (composition corpus (k + n)) vs ≢ unended)
      all_members (made vs) h =
          let (n, all) = h vs refl in
          (
            n,
            λ ws e k.
                subst (λ w. each_member (composition corpus (k + n)) w ≢ unended)
                  (made-injective vs ws e) (all k),
          )
      all_members unresolved h = (0, λ vs e. absurd (cc))
      all_members unread h = (0, λ vs e. absurd (cc))
      all_members unended h = (0, λ vs e. absurd (cc))
