-- ===== src/Standing/Nearer.antt =====
-- A type that comes to stand nearer to what a set makes or links to is one that the set guards against.
use mathlib.Core.Bool.{true≢false}
use mathlib.Core.Option.{some-injective}
use shopsystem_kb.Base.{
  first_uses, String, ◌≡◌, ◌≢◌, refl, sym, ap, ◌∙◌, Bool, true, false, not, some, List, [], ◌∷◌,
  ◌==◌, ==_iff, contains, string_eq, nat_eq, any, flat_map, In-flat_map_of, In, In-append_left,
  In-append_right, In-map_of, In-filter_of, inl, inr, ◌⊎◌, arith, Bool-cases, if◌then◌else◌,
}
use shopsystem_kb.Names
use shopsystem_kb.Port
use shopsystem_kb.Content.{Fields}
use shopsystem_kb.Adapter.Reads.{first}
use shopsystem_kb.Types.Composition.{Corpus, typed_at, nearest_type}
use shopsystem_kb.Draft.{Store, Draft, holds, changed, corpus_of}
use shopsystem_kb.Standing.{
  until, between, link_open, is_made, open_at, gap_of, guarded_one, guarded,
}

-- What a change settles, an IRI and the type that it was drafted under: the artifact that it makes,
-- and the target of each link that it hands.
pub data Settles (change : Port.Change Fields) : String → String → Type 0 where
  of_itself :
      change.read ≡ 0
      → (change.kind == Names.types) ≡ false
      → Settles change change.artifact change.kind
  of_link :
      (link : Port.Link) (type_id : String)
      → In link change.links
      → link.implicit ≡ false
      → link.under ≡ some type_id
      → Settles change link.target type_id

until-first :
    (p : String → Bool) (t u : String) (xs : List String)
    → contains xs t ≡ true
    → p t ≡ true
    → first p xs ≡ some u
    → u ≢ t
    → In u (until t xs)
unfolding until
until-first p t u [] h pt e ne = absurd (cc)
until-first p t u (x ∷ xs) h pt e ne = elim (Bool-cases (t == x)) [
  | inl same ↦
      let is = (==_iff t x).0 same in
      let px : p x ≡ true = ap p (sym is) ∙ pt in
      absurd (ne (some-injective u t (sym e ∙ rw px (ap some (sym is)))))
  | inr other ↦ elim (Bool-cases (p x)) [
    | inl px ↦ rw other (inl (some-injective u x (sym e ∙ rw px refl)))
    | inr px ↦ rw other (inr (until-first p t u xs (ground arith) pt (ground arith) ne))
  ]
]

first-contains :
    (p : String → Bool) (t : String) (xs : List String) → first p xs ≡ some t → contains xs t ≡ true
first-contains p t [] e = absurd (cc)
first-contains p t (x ∷ xs) e = ground (arith, first-contains p t xs)

-- A type that comes to stand nearer to an IRI than the type that it was drafted under.
between-nearer :
    (now later : Corpus) (iri type_id nearer : String)
    → nearest_type now iri ≡ some type_id
    → typed_at later type_id ≡ true
    → nearest_type later iri ≡ some nearer
    → nearer ≢ type_id
    → In nearer (between iri type_id)
unfolding nearest_type between
between-nearer now later iri type_id nearer stood still stands ne =
    let there = first-contains (typed_at now) type_id (Names.above iri) stood in
    rw there (until-first (typed_at later) type_id nearer (Names.above iri) there still stands ne)

In-first_uses :
    (x : String) (seen xs : List String)
    → In x xs
    → contains seen x ≡ false
    → In x (first_uses seen xs)
unfolding first_uses
In-first_uses x seen [] m h = absurd m.1
In-first_uses x seen (y ∷ xs) m h = elim (Bool-cases (contains seen y)) [
  | inl met ↦ elim m [
    | inl e ↦ absurd (true≢false (sym met ∙ ap (contains seen) (sym e) ∙ h))
    | inr m' ↦ rw met (In-first_uses x seen xs m' h)
  ]
  | inr new ↦ elim (Bool-cases (x == y)) [
    | inl e ↦ rw new (inl ((==_iff x y).0 e))
    | inr ne ↦ elim m [
      | inl e ↦ rw new (inl e)
      | inr m' ↦ rw new (inr (In-first_uses x (y ∷ seen) xs m' (ground arith)))
    ]
  ]
]

In-any :
    (p : String → Bool) (x : String) (xs : List String) → In x xs → p x ≡ true → any p xs ≡ true
In-any p x [] m h = absurd m.1
In-any p x (y ∷ xs) (inl e) h = let py = ap p (sym e) ∙ h in ground arith
In-any p x (y ∷ xs) (inr m) h = let rest = In-any p x xs m h in ground arith

module _ (store : Store) (draft : Draft) (change : Port.Change Fields) (content : Fields)
    (is_put : change.content ≡ some content) where
  between-open_at :
      (iri type_id nearer : String)
      → Settles change iri type_id
      → In nearer (between iri type_id)
      → In nearer (open_at change)
  unfolding open_at is_made link_open nat_eq
  between-open_at _ _ nearer (of_itself read kind) m = rw is_put (
      In-first_uses nearer [] _
        (In-append_left nearer (if is_made change then between change.artifact change.kind else [])
          (flat_map link_open change.links) (rw (read, kind) m))
        refl)
  between-open_at _ _ nearer (of_link link type_id own explicit at) m = rw is_put (
      In-first_uses nearer [] _
        (In-append_right nearer (if is_made change then between change.artifact change.kind else [])
          (flat_map link_open change.links)
          (In-flat_map_of link_open link nearer change.links own (rw (at, explicit) m)))
        refl)

  gap_of-open_at :
      (iri : String)
      → In iri (open_at change)
      → changed iri draft ≡ false
      → In iri (gap_of store draft change)
  unfolding gap_of
  gap_of-open_at iri m h =
      In-filter_of (λ each. not (changed each draft)) iri (open_at change) m (ap not h)

  guarded_one-through :
      (iri : String)
      → In iri (gap_of store draft change)
      → holds store iri draft ≡ false
      → In (iri, 0) (guarded_one store draft change).through
  unfolding guarded_one
  guarded_one-through iri m h =
      In-append_right (iri, 0) change.through _
        (In-map_of (λ each. (each, 0)) iri _
          (In-filter_of (λ each. not (holds store each draft)) iri (gap_of store draft change) m
            (ap not h)))

  -- A change of a set that leaves the artifact standing: once another type is the nearest to what the
  -- change makes or links to than the one that it was drafted under, which is still held, the set itself
  -- changed that IRI, or it lands only under the write lock, or it is handed with nothing read there.
  pub guarded-nearer :
      (handed : List (Port.Change Fields)) (later : Corpus) (iri type_id nearer : String)
      → In change handed
      → Settles change iri type_id
      → nearest_type (corpus_of store draft) iri ≡ some type_id
      → typed_at later type_id ≡ true
      → nearest_type later iri ≡ some nearer
      → nearer ≢ type_id
      → (changed nearer draft ≡ true)
        ⊎ ((guarded store draft handed).1 ≡ true)
        ⊎ (In (guarded_one store draft change) (guarded store draft handed).0
            × In (nearer, 0) (guarded_one store draft change).through)
  unfolding guarded
  guarded-nearer handed later iri type_id nearer own settles stood still stands ne =
      let between_them =
        between-nearer (corpus_of store draft) later iri type_id nearer stood still stands ne in
      let opened = between-open_at iri type_id nearer settles between_them in
      elim (Bool-cases (changed nearer draft)) [
        | inl changes ↦ inl changes
        | inr leaves ↦
            let gap = gap_of-open_at nearer opened leaves in
            elim (Bool-cases (holds store nearer draft)) [
              | inl held ↦ inr (
                  inl (
                    In-any (λ each. holds store each draft) nearer _
                      (In-flat_map_of (gap_of store draft) change nearer handed own gap) held))
              | inr free ↦ inr (
                  inr (
                    In-map_of (guarded_one store draft) change handed own,
                    guarded_one-through nearer gap free,
                  ))
            ]
      ]
