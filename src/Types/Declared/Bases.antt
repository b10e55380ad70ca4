-- ===== src/Types/Declared/Bases.antt =====
-- What following the bases of a schema comes to, whatever the fuel, and what they declare.
use mathlib.Core.List.{append_assoc}
use shopsystem_kb.Base.{
  ℕ, zero, suc, String, ◌≡◌, ◌≢◌, refl, sym, ap, ◌∙◌, Option, none, some, List, [], ◌∷◌, ◌++◌,
  string_eq,
}
use shopsystem_kb.Content.{fields, Values, nil, cons, Fields, get, key_eq}
use shopsystem_kb.Types.Composition.{Corpus}
use shopsystem_kb.Types.Declared.{
  Composed, made, unresolved, unread, unended, ◌>>=◌, listed, each_member, base, type_schema,
  on_base, composition,
}

-- What more fuel leaves as it was.
abbrev Settles : {A : Type 0} → Composed A → Composed A → Type 0
Settles less more = (less ≢ unended) → more ≡ less

made-ne : {A : Type 0} (a : A) → made a ≢ unended
made-ne a e = cc

unresolved-ne : {A : Type 0} → ◌≡◌ {A = Composed A} unresolved unended → ⊥
unresolved-ne e = cc

unread-ne : {A : Type 0} → ◌≡◌ {A = Composed A} unread unended → ⊥
unread-ne e = cc

bind-Settles :
    {A B : Type 0} (m m' : Composed A) (f g : A → Composed B)
    → Settles m m'
    → ((a : A) → Settles (f a) (g a))
    → Settles (m >>= f) (m' >>= g)
bind-Settles (made a) m' f g h k ends = ap (λ o. o >>= g) (h (made-ne a)) ∙ k a ends
bind-Settles unresolved m' f g h k ends = ap (λ o. o >>= g) (h unresolved-ne)
bind-Settles unread m' f g h k ends = ap (λ o. o >>= g) (h unread-ne)
bind-Settles unended m' f g h k ends = absurd (ends refl)

each_member-Settles :
    (f g : Fields → Composed (List Fields))
    → ((d : Fields) → Settles (f d) (g d))
    → (vs : Values) → Settles (each_member f vs) (each_member g vs)
unfolding each_member
each_member-Settles f g h nil ends = refl
each_member-Settles f g h (cons (fields d) vs) ends =
    bind-Settles (f d) (g d) (λ built. each_member f vs >>= λ rest. made (built ++ rest))
      (λ built. each_member g vs >>= λ rest. made (built ++ rest)) (h d)
      (λ built.
        bind-Settles (each_member f vs) (each_member g vs) (λ rest. made (built ++ rest))
          (λ rest. made (built ++ rest)) (each_member-Settles f g h vs) (λ rest _. refl))
      ends
each_member-Settles f g h (cons v vs) ends = refl

on_base-Settles :
    (corpus : Corpus) (f g : Fields → Composed (List Fields))
    → ((d : Fields) → Settles (f d) (g d))
    → (b : Option String) → Settles (on_base corpus f b) (on_base corpus g b)
unfolding on_base
on_base-Settles corpus f g h none ends = refl
on_base-Settles corpus f g h (some ref) ends =
    bind-Settles (type_schema corpus ref) (type_schema corpus ref) f g (λ _. refl) h ends

-- The rounds of `composition`, of the schemas that a recursion gives.
module _ (corpus : Corpus) (f : Fields → Composed (List Fields)) (schema : Fields) where
  abbrev pub with_below : List Fields → List Fields → Composed (List Fields)
  with_below above below = made (above ++ (below ++ schema ∷ []))

  abbrev pub with_above : List Fields → Composed (List Fields)
  with_above above = on_base corpus f (base schema) >>= with_below above

  abbrev pub with_members : Values → Composed (List Fields)
  with_members members = each_member f members >>= with_above

-- A composition that does not run out of fuel is the same with more.
pub composition-more :
    (corpus : Corpus) (fuel : ℕ) (schema : Fields)
    → composition corpus fuel schema ≢ unended
    → composition corpus (suc fuel) schema ≡ composition corpus fuel schema
unfolding composition
composition-more corpus zero schema ends = absurd (ends refl)
composition-more corpus (suc fuel) schema ends =
    let f = composition corpus fuel in
    let g = composition corpus (suc fuel) in
    let more = composition-more corpus fuel in
    let members = listed (get "allOf" schema) in
    bind-Settles members members (with_members corpus f schema) (with_members corpus g schema)
      (λ _. refl)
      (λ vs.
        bind-Settles (each_member f vs) (each_member g vs) (with_above corpus f schema)
          (with_above corpus g schema) (each_member-Settles f g more vs)
          (λ above.
            bind-Settles (on_base corpus f (base schema)) (on_base corpus g (base schema))
              (with_below corpus f schema above) (with_below corpus g schema above)
              (on_base-Settles corpus f g more (base schema)) (λ below _. refl)))
      ends

pub made-injective : {A : Type 0} (a b : A) → made a ≡ made b → a ≡ b
made-injective a b e = cc

-- What a bind that is made was made of.
pub >>=-made :
    {A B : Type 0} (m : Composed A) (f : A → Composed B) (b : B)
    → (m >>= f) ≡ made b
    → (a : A) × (m ≡ made a) × (f a ≡ made b)
>>=-made (made a) f b e = (a, refl, e)
>>=-made unresolved f b e = absurd (cc)
>>=-made unread f b e = absurd (cc)
>>=-made unended f b e = absurd (cc)

-- The schema itself is the last that a composition gives.
pub composition-last :
    (corpus : Corpus) (fuel : ℕ) (schema : Fields) (built : List Fields)
    → composition corpus fuel schema ≡ made built
    → (bases : List Fields) × (built ≡ bases ++ schema ∷ [])
unfolding composition
composition-last corpus zero schema built e = absurd (cc)
composition-last corpus (suc fuel) schema built e =
    let f = composition corpus fuel in
    let (vs, _, members) =
      >>=-made (listed (get "allOf" schema)) (with_members corpus f schema) built e in
    let (above, _, on) = >>=-made (each_member f vs) (with_above corpus f schema) built members in
    let (below, _, all) =
      >>=-made (on_base corpus f (base schema)) (with_below corpus f schema above) built on in
    (above ++ below, made-injective _ _ (sym all) ∙ sym (append_assoc above below (schema ∷ [])))
