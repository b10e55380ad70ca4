-- ===== src/Types/Nearest.antt =====
-- The two readings of the type that an IRI belongs to: the nearest held, and the nearest with a type
-- held that no longer is.
use mathlib.Core.Bool.{true≢false}
use mathlib.Core.Option.{some-injective}
use shopsystem_kb.Base.{
  String, ◌≡◌, sym, ap, ◌∙◌, true, false, some, List, [], ◌∷◌, ◌==◌, ==_iff, ==_ne, ==_refl,
  string_eq, option_eq, arith, Bool-cases, inl, inr, if◌then◌else◌,
}
use shopsystem_kb.Names.{above}
use shopsystem_kb.Adapter.Reads.{first}
use shopsystem_kb.Content.{Fields}
use shopsystem_kb.Content.Settled.{typed}
use shopsystem_kb.Types.Composition.{Corpus, typed_at, nearest_type, nearest_among, nearest_was}

-- A corpus with an artifact held, whatever it holds there.
abbrev pub with_held : String → Fields → Corpus → Corpus
with_held id d corpus = record corpus {
  artifact = λ each. if each == id then some d else corpus.artifact each;
}

module _ (corpus : Corpus) (type_id : String) (d : Fields) (is_type : typed d ≡ true) where
  typed_at-held : typed_at (with_held type_id d corpus) type_id ≡ true
  unfolding typed_at
  typed_at-held = ground (arith, ==_refl type_id)

  typed_at-apart :
      (id : String)
      → (id == type_id) ≡ false
      → typed_at (with_held type_id d corpus) id ≡ typed_at corpus id
  unfolding typed_at
  typed_at-apart id n = ground arith

  nearest_among-first :
      (iris : List String)
      → nearest_among corpus type_id iris
        ≡ (first (typed_at (with_held type_id d corpus)) iris == some type_id)
  unfolding nearest_among
  nearest_among-first [] = ground arith
  nearest_among-first (iri ∷ iris) = elim (Bool-cases (iri == type_id)) [
    | inl e ↦
        let same = (==_iff iri type_id).0 e in
        let typed_here = ap (typed_at (with_held type_id d corpus)) same ∙ typed_at-held in
        rw (e, typed_here) (sym ((==_iff (some iri) (some type_id)).1 (ap some same)))
    | inr n ↦
        let alike = typed_at-apart iri n in
        elim (Bool-cases (typed_at corpus iri)) [
          | inl t ↦
              rw (n, alike, t)
                (sym (
                  ==_ne (some iri) (some type_id) (λ q.
                    true≢false (sym ((==_iff iri type_id).1 (some-injective iri type_id q)) ∙ n))))
          | inr f ↦ rw (n, alike, f) (nearest_among-first iris)
        ]
  ]

  -- An IRI belonged to a type, held or not, just when that type is the nearest it sits under in the
  -- corpus with the type held.
  pub nearest_was-nearest_type :
      (artifact_id : String)
      → nearest_was corpus artifact_id type_id
        ≡ (nearest_type (with_held type_id d corpus) artifact_id == some type_id)
  unfolding nearest_was nearest_type
  nearest_was-nearest_type artifact_id = nearest_among-first (above artifact_id)
