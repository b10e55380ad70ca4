-- ===== src/Standing/Landed.antt =====
-- A set that lands takes nothing from a type that came to stand nearer since it was drafted.
use mathlib.Core.Path.{subst}
use mathlib.Core.Option.{some-injective}
use shopsystem_kb.Names
use shopsystem_kb.Base.{
  ℕ, ◌<◌, String, ◌≡◌, ◌≢◌, Bool, true, Option, none, some, List, [], ◌∷◌, In, ◌⊎◌, inl, inr, arith,
  ◌∷◌, Bool-cases,
}
use shopsystem_kb.Port
use shopsystem_kb.Port.{Version, Entry}
use shopsystem_kb.Content.{Fields}
use shopsystem_kb.Adapter.Db.{Db}
use shopsystem_kb.Adapter.Exec.{Gives}
use shopsystem_kb.Adapter.Reads.{row_of, holds, first}
use shopsystem_kb.Adapter.Landing.{landing}
use shopsystem_kb.Adapter.Landing.Integrity.{IsIntact}
use shopsystem_kb.Adapter.Landing.Through.{landing-through}
use shopsystem_kb.Types.Composition.{Corpus, typed_at, nearest_type}
use shopsystem_kb.Draft.{Store, Draft, changed, corpus_of}
use shopsystem_kb.Standing.{guarded_one, guarded}
use shopsystem_kb.Standing.Nearer.{Settles, guarded-nearer}

-- The tables as a corpus, with the versions of its types.
abbrev pub corpus_in : {R : Type 0} → (Version → Option Fields) → Db Fields R → Corpus
corpus_in versions db = record {
  artifact = λ id. elim (row_of db id) [ none ↦ none | some row ↦ some row.content ];
  type_version = versions;
}

typed_at-holds :
    {R : Type 0} (versions : Version → Option Fields) (db : Db Fields R) (id : String)
    → typed_at (corpus_in versions db) id ≡ true
    → holds db id ≡ true
unfolding typed_at holds
typed_at-holds versions db id h = ground arith

first-holds : (p : String → Bool) (u : String) (xs : List String) → first p xs ≡ some u → p u ≡ true
first-holds p u [] e = absurd (cc)
first-holds p u (x ∷ xs) e = elim (Bool-cases (p x)) [
  | inl px ↦ subst (λ y. p y ≡ true) (some-injective x u (ground arith)) px
  | inr px ↦ first-holds p u xs (ground arith)
]

nearest_type-typed :
    (corpus : Corpus) (iri type_id : String)
    → nearest_type corpus iri ≡ some type_id
    → typed_at corpus type_id ≡ true
unfolding nearest_type
nearest_type-typed corpus iri type_id e = first-holds (typed_at corpus) type_id (Names.above iri) e

positive : {n : ℕ} → 0 < n → n ≡ 0 → ⊥
positive h e = omega arith

module _ {R : Type 0} (store : Store) (draft : Draft) (change : Port.Change Fields)
    (content : Fields) (is_put : change.content ≡ some content) where
  -- A set that lands as it was drafted, not under the write lock, changed itself every IRI at which a
  -- type has come to stand nearer to what one of its changes makes or links to than the type, still held,
  -- that the change was drafted under.
  pub landed-nearer :
      (handed : List (Port.Change Fields)) (entries : List (Entry R)) (db db' : Db Fields R)
      (versions : Version → Option Fields) (iri type_id nearer : String)
      → IsIntact db
      → In change handed
      → Settles change iri type_id
      → nearest_type (corpus_of store draft) iri ≡ some type_id
      → typed_at (corpus_in versions db) type_id ≡ true
      → nearest_type (corpus_in versions db) iri ≡ some nearer
      → nearer ≢ type_id
      → Gives (landing (guarded store draft handed).0 entries) db tt db'
      → (changed nearer draft ≡ true) ⊎ ((guarded store draft handed).1 ≡ true)
  landed-nearer handed entries db db' versions iri type_id nearer intact own settles stood still
        stands ne lands =
      let later = corpus_in versions db in
      elim (guarded-nearer store draft change content is_put handed later iri type_id nearer own
        settles stood still stands ne) [
          | inl changes ↦ inl changes
          | inr (inl locked) ↦ inr locked
          | inr (inr (given, there)) ↦
              let at =
                landing-through (guarded store draft handed).0 entries db db'
                  (guarded_one store draft change) nearer 0 lands given there in
              let held =
                typed_at-holds versions db nearer (nearest_type-typed later iri nearer stands) in
              absurd (positive (intact.numbered nearer held) at)
        ]
