-- ===== src/Content/Naming.antt =====
-- What naming an artifact's items leaves: every item of a collection with a name, no two the same.
use mathlib.Core.Path.{subst}
use mathlib.Core.Bool.{true≢false}
use shopsystem_kb.Base.{
  ==_refl, Option-cases, ℕ, suc, String, ◌≡◌, refl, ap, sym, ◌∙◌, Bool, true, false, ◌&&◌, Option,
  none, some, List, ◌∷◌, ◌==◌, ==_iff, contains, string_eq, if◌then◌else◌, IsUnique, arith, inl,
  inr, Bool-cases,
}
use shopsystem_kb.Content.{
  key_eq, Value, null, truth, whole, negative, real, text, items, fields, Values, nil, cons, Fields,
  end, entry, find, get, get-put_same, has, put, get_text, is_key,
}
use shopsystem_kb.Content.Numbered.{numbered-free}
use shopsystem_kb.Content.Items.{carried, name_given, name_fields, name_entry, name_items}

-- Every item that is a mapping carries a name.
abbrev pub all_named : Values → Bool
all_named nil = true
all_named (cons (fields d) vs) = has "id" d && all_named vs
all_named (cons v vs) = all_named vs

-- A name made for an item is not among those taken.
name_given-free :
    (place : ℕ) (taken : List String) (d : Fields)
    → contains taken (name_given place taken d) ≡ false
unfolding name_given
name_given-free place taken d = numbered-free _ taken

abbrev as_text : Option Value → Option String
as_text (some (text t)) = some t
as_text _ = none

get_text-get : (k : String) (d : Fields) → get_text k d ≡ as_text (get k d)
unfolding get_text
get_text-get k d = go (get k d) refl
  where
    go : (o : Option Value) → get k d ≡ o → get_text k d ≡ as_text o
    go (some null) e = rw (e, get_text)
    go (some (truth b)) e = rw (e, get_text)
    go (some (whole n)) e = rw (e, get_text)
    go (some (negative n)) e = rw (e, get_text)
    go (some (real s)) e = rw (e, get_text)
    go (some (text s)) e = rw (e, get_text)
    go (some (items l)) e = rw (e, get_text)
    go (some (fields m)) e = rw (e, get_text)
    go none e = rw (e, get_text)

get_text-put : (id : String) (d : Fields) → get_text "id" (put "id" (text id) d) ≡ some id
get_text-put id d =
    get_text-get "id" (put "id" (text id) d) ∙ ap as_text (get-put_same "id" (text id) d)

has-put : (id : String) (d : Fields) → has "id" (put "id" (text id) d) ≡ true
unfolding has
has-put id d = rw (get-put_same "id" (text id) d, has)

-- Names that are all among others.
abbrev Among : List String → List String → Type 0
Among xs ys = (id : String) → contains xs id ≡ true → contains ys id ≡ true

-- What the walk over a collection's items leaves of the names they carry.
record Walk (taken xs ys : List String) : Type 0 where
  unique : IsUnique ys
  new : (id : String) → contains ys id ≡ true → contains taken id ≡ true → contains xs id ≡ true

clash : (b : Bool) → (b ≡ true → ⊥) → b ≡ false
clash true h = absurd (h refl)
clash false h = refl

Walk-kept :
    (t : String) (taken xs ys : List String)
    → Among (t ∷ xs) taken
    → IsUnique (t ∷ xs)
    → Walk taken xs ys
    → Walk taken (t ∷ xs) (t ∷ ys)
Walk-kept t taken xs ys among once w = record {
  unique = (
    clash (contains ys t) (λ h. true≢false (sym (w.new t h (among t (rw (==_refl t)))) ∙ once.0)),
    w.unique,
  );
  new = λ id h k. elim (Bool-cases (id == t)) [
    | inl e ↦ rw e
    | inr n ↦ rw n (w.new id (ground arith) k)
  ];
}

Walk-made :
    (n : String) (taken xs ys : List String)
    → contains taken n ≡ false
    → Among xs taken
    → Walk (n ∷ taken) xs ys
    → Walk taken xs (n ∷ ys)
Walk-made n taken xs ys free among w = record {
  unique = (
    clash (contains ys n) (λ h. true≢false (sym (among n (w.new n h (rw (==_refl n)))) ∙ free)),
    w.unique,
  );
  new = λ id h k. elim (Bool-cases (id == n)) [
    | inl e ↦
        absurd
          (true≢false (sym (subst (λ i. contains taken i ≡ true) ((==_iff id n).0 e) k) ∙ free))
    | inr m ↦ w.new id (ground arith) (rw m k)
  ];
}

Walk-along :
    (taken : List String) {xs xs' ys ys' : List String}
    → xs ≡ xs'
    → ys ≡ ys'
    → Walk taken xs' ys'
    → Walk taken xs ys
Walk-along taken {xs} {xs'} {ys} {ys'} e f w =
    subst (λ l. Walk taken l ys) (sym e) (subst (λ l. Walk taken xs' l) (sym f) w)

among_one :
    (n : String) (taken : List String) (id : String)
    → contains taken id ≡ true
    → contains (n ∷ taken) id ≡ true
among_one n taken id h = ground arith

carried-some :
    (t : String) (d : Fields) (vs : Values)
    → get_text "id" d ≡ some t
    → carried (cons (fields d) vs) ≡ t ∷ carried vs
unfolding carried
carried-some t d vs e = rw (e, carried)

carried-none :
    (d : Fields) (vs : Values) → get_text "id" d ≡ none → carried (cons (fields d) vs) ≡ carried vs
unfolding carried
carried-none d vs e = rw (e, carried)

no_text : (d : Fields) → has "id" d ≡ false → get_text "id" d ≡ none
unfolding has get_text
no_text d h = ground arith

module _ (inner : Value → Fields) where
  as_text-entry :
      (part : Option Value) (v : Value)
      → as_text (some (name_entry inner part v)) ≡ as_text (some v)
  unfolding name_fields
  as_text-entry none v = refl
  as_text-entry (some part) null = refl
  as_text-entry (some part) (truth b) = refl
  as_text-entry (some part) (whole n) = refl
  as_text-entry (some part) (negative n) = refl
  as_text-entry (some part) (real s) = refl
  as_text-entry (some part) (text s) = refl
  as_text-entry (some part) (items l) = refl
  as_text-entry (some part) (fields m) = refl

  -- The naming of what an item holds leaves its own name as it was.
  name_fields-get_text :
      (parts d : Fields) → as_text (get "id" (name_fields inner parts d)) ≡ as_text (get "id" d)
  unfolding get name_fields
  name_fields-get_text parts end = refl
  name_fields-get_text parts (entry k v d) = elim (Bool-cases (is_key "id" k)) [
    | inl e ↦ rw (e) (as_text-entry (find k parts) v)
    | inr n ↦ rw (n) (name_fields-get_text parts d)
  ]

  name_fields-has : (parts d : Fields) → has "id" (name_fields inner parts d) ≡ has "id" d
  unfolding has get name_fields
  name_fields-has parts end = refl
  name_fields-has parts (entry k v d) = ground (arith, name_fields-has parts d)

  name_items-named :
      (part : Value) (taken : List String) (place : ℕ) (vs : Values)
      → all_named (name_items inner part taken place vs) ≡ true
  unfolding name_fields
  name_items-named part taken place nil = refl
  name_items-named part taken place (cons (fields d) vs) =
      let fresh = name_given place taken d in
      ground (
        arith,
        name_fields-has (inner part) d,
        has-put fresh (name_fields inner (inner part) d),
        name_items-named part taken (suc place) vs,
        name_items-named part (fresh ∷ taken) (suc place) vs,
      )
  name_items-named part taken place (cons null vs) = name_items-named part taken (suc place) vs
  name_items-named part taken place (cons (truth b) vs) = name_items-named part taken (suc place) vs
  name_items-named part taken place (cons (whole n) vs) = name_items-named part taken (suc place) vs
  name_items-named part taken place (cons (negative n) vs) =
      name_items-named part taken (suc place) vs
  name_items-named part taken place (cons (real s) vs) = name_items-named part taken (suc place) vs
  name_items-named part taken place (cons (text s) vs) = name_items-named part taken (suc place) vs
  name_items-named part taken place (cons (items l) vs) = name_items-named part taken (suc place) vs

  -- The name an item ends with, when it is text.
  name_after :
      (part : Value) (d : Fields)
      → get_text "id" (name_fields inner (inner part) d) ≡ get_text "id" d
  name_after part d =
      get_text-get "id" (name_fields inner (inner part) d)
      ∙ name_fields-get_text (inner part) d
      ∙ sym (get_text-get "id" d)

  name_items-fields :
      (part : Value) (taken : List String) (place : ℕ) (d : Fields) (vs : Values)
      → name_items inner part taken place (cons (fields d) vs) ≡ (
          if has "id" d
          then cons
              (fields (name_fields inner (inner part) d))
              (name_items inner part taken (suc place) vs)
          else cons
              (fields
                (put "id" (text (name_given place taken d)) (name_fields inner (inner part) d)))
              (name_items inner part (name_given place taken d ∷ taken) (suc place) vs))
  unfolding name_fields
  name_items-fields part taken place d vs = refl

  walked_item :
      (part : Value) (taken : List String) (place : ℕ) (d : Fields) (vs : Values)
      → Among (carried (cons (fields d) vs)) taken
      → IsUnique (carried (cons (fields d) vs))
      → (Among (carried vs) taken
          → IsUnique (carried vs)
          → Walk taken (carried vs) (carried (name_items inner part taken (suc place) vs)))
      → (Among (carried vs) (name_given place taken d ∷ taken)
          → IsUnique (carried vs)
          → Walk
              (name_given place taken d ∷ taken)
              (carried vs)
              (carried (name_items inner part (name_given place taken d ∷ taken) (suc place) vs)))
      → Walk taken
          (carried (cons (fields d) vs))
          (carried (name_items inner part taken place (cons (fields d) vs)))
  walked_item part taken place d vs among once same fresh =
      subst (λ l. Walk taken (carried (cons (fields d) vs)) (carried l))
        (sym (name_items-fields part taken place d vs))
        (elim (Bool-cases (has "id" d)) [
          | inl e ↦ rw e (elim (Option-cases (get_text "id" d)) [
            | inr (t, carries) ↦
                let here = carried-some t d vs carries in
                let among_here = subst (λ l. Among l taken) here among in
                let once_here = subst IsUnique here once in
                Walk-along taken here (carried-some t _ _ (name_after part d ∙ carries)) (
                  Walk-kept t taken _ _ among_here once_here
                    (same (λ id h. among_here id (ground arith)) once_here.1))
            | inl nameless ↦
                let here = carried-none d vs nameless in
                Walk-along taken here (carried-none _ _ (name_after part d ∙ nameless))
                  (same (subst (λ l. Among l taken) here among) (subst IsUnique here once))
          ])
          | inr n ↦
              let here = carried-none d vs (no_text d n) in
              let among_here = subst (λ l. Among l taken) here among in
              let made = name_given place taken d in
              rw n (
                Walk-along taken here
                  (carried-some made _ _ (get_text-put made (name_fields inner (inner part) d)))
                  (Walk-made made taken _ _ (name_given-free place taken d) among_here (
                    fresh (λ id h. among_one made taken id (among_here id h))
                      (subst IsUnique here once))))
        ])

  -- Of names each once that are all among those taken, the walk leaves names each once, and a name
  -- it leaves that was taken before it is one of them.
  walked :
      (part : Value) (taken : List String) (place : ℕ) (vs : Values)
      → Among (carried vs) taken
      → IsUnique (carried vs)
      → Walk taken (carried vs) (carried (name_items inner part taken place vs))
  unfolding name_fields carried
  walked part taken place nil among once = record { unique = tt; new = λ id h k. h }
  walked part taken place (cons (fields d) vs) among once =
      walked_item part taken place d vs among once (walked part taken (suc place) vs)
        (walked part (name_given place taken d ∷ taken) (suc place) vs)
  walked part taken place (cons null vs) among once = walked part taken (suc place) vs among once
  walked part taken place (cons (truth b) vs) among once =
      walked part taken (suc place) vs among once
  walked part taken place (cons (whole n) vs) among once =
      walked part taken (suc place) vs among once
  walked part taken place (cons (negative n) vs) among once =
      walked part taken (suc place) vs among once
  walked part taken place (cons (real s) vs) among once =
      walked part taken (suc place) vs among once
  walked part taken place (cons (text s) vs) among once =
      walked part taken (suc place) vs among once
  walked part taken place (cons (items l) vs) among once =
      walked part taken (suc place) vs among once

  -- A collection whose items carry names that are each once ends, when its items are named, with
  -- every item named and the names each once.
  pub name_items-IsUnique :
      (part : Value) (vs : Values)
      → IsUnique (carried vs)
      → IsUnique (carried (name_items inner part (carried vs) 1 vs))
        × (all_named (name_items inner part (carried vs) 1 vs) ≡ true)
  name_items-IsUnique part vs once =
      let w = walked part (carried vs) 1 vs (λ id h. h) once in
      (w.unique, name_items-named part (carried vs) 1 vs)
