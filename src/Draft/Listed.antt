-- ===== src/Draft/Listed.antt =====
-- The versions of a type that a draft lists are those that it gives.
use shopsystem_kb.Base.{
  ℕ, String, ◌≡◌, refl, sym, ap, ◌∙◌, Bool, true, false, none, some, List, [], ◌∷◌, ◌++◌, ◌||◌,
  ◌==◌, ==_iff, contains, string_eq, nat_eq, Option-cases, Bool-cases, inl, inr, arith,
  if◌then◌else◌, sorted, insert_by, distinct, leb, contains-distinct,
}
use shopsystem_kb.Base.Dict.{Dict, keys, lookup}
use shopsystem_kb.Port.{Version}
use shopsystem_kb.Content.{Fields}
use shopsystem_kb.Content.Settled.{typed}
use shopsystem_kb.Types.Composition.{kept, typed_at}
use shopsystem_kb.Draft.{
  Store, Draft, blank, made_by, version_in, stands_at, version_of, or_nil, is_some, holds, artifact,
  kept_by_store, made_before, type_version, versions, corpus_of,
}
use shopsystem_kb.Draft.Steps.{IsFull, Steps}
use shopsystem_kb.Draft.Operations.{listed_by, holds_version-listed_by}
use shopsystem_kb.Draft.Versions.{IsKept, Steps-IsKept}

contains-insert_by :
    (le : ℕ → ℕ → Bool) (n m : ℕ) (xs : List ℕ)
    → contains (insert_by le m xs) n ≡ (n == m || contains xs n)
contains-insert_by le n m [] = refl
contains-insert_by le n m (x ∷ xs) = ground (arith, contains-insert_by le n m xs)

contains-sorted :
    (le : ℕ → ℕ → Bool) (n : ℕ) (xs : List ℕ) → contains (sorted le xs) n ≡ contains xs n
unfolding sorted
contains-sorted le n [] = refl
contains-sorted le n (x ∷ xs) =
    contains-insert_by le n x (sorted le xs) ∙ ap (λ b. n == x || b) (contains-sorted le n xs)

contains-append :
    (n : ℕ) (xs ys : List ℕ) → contains (xs ++ ys) n ≡ (contains xs n || contains ys n)
contains-append n [] ys = refl
contains-append n (x ∷ xs) ys = ground (arith, contains-append n xs ys)

contains-keys : (n : ℕ) (d : Dict ℕ Fields) → contains (keys d) n ≡ is_some (lookup n d)
unfolding lookup
contains-keys n [] = refl
contains-keys n ((m, w) ∷ d) = ground (arith, contains-keys n d)

or_true : (b : Bool) → (b || true) ≡ true
or_true true = refl
or_true false = refl

or_false : (b : Bool) → (b || false) ≡ b
or_false true = refl
or_false false = refl

version_of-full : (v : Version) (d : Fields) → IsFull d → is_some (version_of v d) ≡ true
unfolding version_of
version_of-full v d (r, t, er, et) = ground arith

module _ (store : Store) (draft : Draft) (id : String) where
  abbrev version_at : ℕ → Version
  version_at n = record { kind = id; number = n }

  contains-versions :
      (n : ℕ)
      → contains draft.removed id ≡ false
      → contains (versions store id draft) n ≡ (
          contains (if contains draft.gone id then [] else store.versions id) n
          || is_some (lookup n (or_nil (lookup id draft.made))))
  unfolding versions
  contains-versions n h =
      ap (λ (b : Bool). contains (if b then [] else sorted leb (distinct all)) n) h
      ∙ contains-sorted leb n (distinct all)
      ∙ contains-distinct n all
      ∙ contains-append n (if contains draft.gone id then [] else store.versions id) _
      ∙ ap (λ b. contains (if contains draft.gone id then [] else store.versions id) n || b)
          (contains-keys n (or_nil (lookup id draft.made)))
    where
      all : List ℕ
      all =
          (if contains draft.gone id then [] else store.versions id)
          ++ keys (or_nil (lookup id draft.made))

  type_version-unput :
      (n : ℕ)
      → contains draft.removed id ≡ false
      → lookup id draft.pending ≡ none
      → (type_version store (version_at n) draft).0 ≡ store.type_version (version_at n)
  unfolding type_version kept_by_store
  type_version-unput n h e = elim (Option-cases (store.type_version (version_at n))) [
    | inl missing ↦ ground arith
    | inr (found, there) ↦ ground arith
  ]

  type_version-put :
      (n : ℕ) (d : Fields)
      → contains draft.removed id ≡ false
      → lookup id draft.pending ≡ some d
      → (type_version store (version_at n) draft).0 ≡ (
          if stands_at d n
          then version_of (version_at n) d
          else made_before store (version_at n) draft)
  unfolding type_version
  type_version-put n d h e = ground arith

  made_before-some :
      (n : ℕ) (b : Fields)
      → lookup n (or_nil (lookup id draft.made)) ≡ some b
      → made_before store (version_at n) draft ≡ version_of (version_at n) b
  unfolding made_before
  made_before-some n b e = ground arith

  made_before-none :
      (n : ℕ)
      → lookup n (or_nil (lookup id draft.made)) ≡ none
      → made_before store (version_at n) draft
        ≡ (if contains draft.gone id then none else store.type_version (version_at n))
  unfolding made_before
  made_before-none n e = ground arith

  typed-there : typed_at (corpus_of store draft) id ≡ true → contains draft.removed id ≡ false
  unfolding typed_at corpus_of holds
  typed-there t = ground arith

  typed-put :
      (d : Fields)
      → lookup id draft.pending ≡ some d
      → typed_at (corpus_of store draft) id ≡ true
      → typed d ≡ true
  unfolding typed_at corpus_of holds artifact
  typed-put d e t = ground arith

  kept-type_version :
      (n : ℕ)
      → typed_at (corpus_of store draft) id ≡ true
      → is_some (kept (corpus_of store draft) id n)
        ≡ is_some (type_version store (version_at n) draft).0
  unfolding kept corpus_of
  kept-type_version n t = ground arith

-- What the port says of the versions of a type: those that it lists are those that it keeps.
abbrev pub ListsVersions : Store → Type 0
ListsVersions store =
    (id : String) (n : ℕ)
    → contains (store.versions id) n
      ≡ is_some (store.type_version (record { kind = id; number = n }))

stands_at-number : (d : Fields) (m n : ℕ) → made_by d ≡ some m → stands_at d n ≡ (m == n)
unfolding made_by version_in stands_at
stands_at-number d m n e = ground arith

module _ (store : Store) (lists : ListsVersions store) (draft : Draft) (v : IsKept draft)
    (id : String) (n : ℕ) (here : contains draft.removed id ≡ false) where
  given_made :
      (b : Fields)
      → lookup n (or_nil (lookup id draft.made)) ≡ some b
      → is_some (made_before store (version_at store draft id n) draft) ≡ true
  given_made b e =
      ap is_some (made_before-some store draft id n b e)
      ∙ version_of-full (version_at store draft id n) b (v.full id n b e)

  listed_made :
      (b : Fields)
      → lookup n (or_nil (lookup id draft.made)) ≡ some b
      → contains (versions store id draft) n ≡ true
  listed_made b e = contains-versions store draft id n here ∙ rw e (or_true _)

  unmade :
      lookup n (or_nil (lookup id draft.made)) ≡ none
      → is_some (made_before store (version_at store draft id n) draft)
        ≡ contains (versions store id draft) n
  unmade e = elim (Bool-cases (contains draft.gone id)) [
    | inl gone ↦
        let before : made_before store (version_at store draft id n) draft ≡ none =
          made_before-none store draft id n e ∙ rw gone in
        ap is_some before ∙ sym (contains-versions store draft id n here ∙ rw (gone, e))
    | inr stays ↦
        let before : made_before store (version_at store draft id n) draft
            ≡ store.type_version (version_at store draft id n) =
          made_before-none store draft id n e ∙ rw stays in
        ap is_some before
        ∙ sym (lists id n)
        ∙ sym (contains-versions store draft id n here ∙ rw (stays, e) (or_false _))
  ]

  made_lem :
      is_some (made_before store (version_at store draft id n) draft)
      ≡ contains (versions store id draft) n
  made_lem = elim (Option-cases (lookup n (or_nil (lookup id draft.made)))) [
    | inl free ↦ unmade free
    | inr (b, e) ↦ given_made b e ∙ sym (listed_made b e)
  ]

  put_lem :
      (d : Fields) (m : ℕ)
      → lookup id draft.pending ≡ some d
      → made_by d ≡ some m
      → is_some (type_version store (version_at store draft id n) draft).0
        ≡ contains (versions store id draft) n
  put_lem d m e made_m = elim (Bool-cases (m == n)) [
    | inl same ↦
        let (b, own) = v.own id d m here e made_m in
        let at_n =
          ap (λ k. lookup k (or_nil (lookup id draft.made))) (sym ((==_iff m n).0 same)) ∙ own in
        ap is_some
          (type_version-put store draft id n d here e ∙ rw (stands_at-number d m n made_m, same))
        ∙ version_of-full (version_at store draft id n) d (v.put_full id d e)
        ∙ sym (listed_made b at_n)
    | inr other ↦
        ap is_some
          (type_version-put store draft id n d here e ∙ rw (stands_at-number d m n made_m, other))
        ∙ made_lem
  ]

  unput_lem :
      lookup id draft.pending ≡ none
      → is_some (type_version store (version_at store draft id n) draft).0
        ≡ contains (versions store id draft) n
  unfolding lookup
  unput_lem e =
      let (m, g) = v.unput id here e in
      ap is_some (type_version-unput store draft id n here e)
      ∙ sym (lists id n)
      ∙ sym (contains-versions store draft id n here ∙ rw (g, m) (or_false _))

-- A draft that a set's operations leave lists of a type that it holds just the versions that it gives,
-- and just those that the operations leave: the versions of the store, but for those of a type that was
-- removed, with those that were put since; over a store that lists the versions that it gives, and where
-- a type that is put has a version, a revision and a title.
pub versions-kept :
    (store : Store) (draft : Draft) (id : String) (n : ℕ)
    → ListsVersions store
    → (steps : Steps blank draft) → typed_at (corpus_of store draft) id ≡ true
    → (contains (versions store id draft) n ≡ is_some (kept (corpus_of store draft) id n))
      × (contains (versions store id draft) n ≡ listed_by store steps id n)
versions-kept store draft id n lists steps is_type =
    let v = Steps-IsKept steps in
    let here = typed-there store draft id is_type in
    let reads = kept-type_version store draft id n is_type in
    (
      elim (Option-cases (lookup id draft.pending)) [
        | inl free ↦ sym (reads ∙ unput_lem store lists draft v id n here free)
        | inr (d, e) ↦
            let (m, made_m) = v.numbered id d e (typed-put store draft id d e is_type) in
            sym (reads ∙ put_lem store lists draft v id n here d m e made_m)
      ],
      contains-versions store draft id n here ∙ holds_version-listed_by store id n steps,
    )
