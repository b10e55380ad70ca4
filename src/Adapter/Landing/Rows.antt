-- ===== src/Adapter/Landing/Rows.antt =====
-- What one change writes, as the reads show it: its own artifact's rows are the change's, and every
-- other artifact's are as they were.
use mathlib.Core.Path.{ap₂}
use mathlib.Core.List.{append-nil}
use shopsystem_kb.Base.{
  ℕ, String, ◌≡◌, refl, ap, ◌∙◌, Bool, true, false, not, Option, none, some, List, [], ◌∷◌, ◌++◌,
  map, ◌==◌, string_eq, ==_refl, filter, distinct, enumerate, arith,
}
use shopsystem_kb.Port.{Change}
use shopsystem_kb.Adapter.Db.{Db, ArtifactRow, PartRow, LinkRow}
use shopsystem_kb.Adapter.Exec.{Gives}
use shopsystem_kb.Adapter.Reads.{row_of, first, parts_of}
use shopsystem_kb.Adapter.Landing.{written, relinked, link_row, links_left}

-- The row, the places and the links that a change leaves its artifact.
abbrev pub row_left : {C : Type 0} → Change C → Option (ArtifactRow C)
row_left c = elim (c.content) [
  | none ↦ none
  | some content ↦
      some (record { id = c.artifact; kind = c.kind; revision = c.revision; content = content })
]

abbrev pub parts_left : {C : Type 0} → Change C → List String
parts_left c = elim (c.content) [ none ↦ [] | some _ ↦ distinct c.parts ]

abbrev pub link_rows_left : {C : Type 0} → Change C → List LinkRow
link_rows_left c = map (link_row c.artifact) (enumerate 0 (links_left c))

-- The rows of links that one artifact holds.
abbrev pub links_of : {C R : Type 0} → Db C R → String → List LinkRow
links_of db a = filter (λ (row : LinkRow). row.source == a) db.links

abbrev pub rows_of : {A : Type 0} → Option A → List A
rows_of none = []
rows_of (some row) = row ∷ []

module _ {A : Type 0} where
  first-filter :
      (p q : A → Bool) (xs : List A)
      → ((x : A) → p x ≡ true → q x ≡ true)
      → first p (filter q xs) ≡ first p xs
  first-filter p q [] h = refl
  first-filter p q (x ∷ xs) h = ground (arith, h x, first-filter p q xs h)

  first-filter_out :
      (p q : A → Bool) (xs : List A)
      → ((x : A) → p x ≡ true → q x ≡ false)
      → first p (filter q xs) ≡ none
  first-filter_out p q [] h = refl
  first-filter_out p q (x ∷ xs) h = ground (arith, h x, first-filter_out p q xs h)

  first-append_none :
      (p : A → Bool) (xs ys : List A) → first p xs ≡ none → first p (xs ++ ys) ≡ first p ys
  first-append_none p [] ys h = refl
  first-append_none p (x ∷ xs) ys h = ground (arith, first-append_none p xs ys)

  first-snoc_out :
      (p : A → Bool) (xs : List A) (y : A) → p y ≡ false → first p (xs ++ y ∷ []) ≡ first p xs
  first-snoc_out p [] y h = ground arith
  first-snoc_out p (x ∷ xs) y h = ground (arith, first-snoc_out p xs y h)

  first-rows_of_out :
      (p : A → Bool) (xs : List A) (o : Option A)
      → ((x : A) → o ≡ some x → p x ≡ false)
      → first p (xs ++ rows_of o) ≡ first p xs
  first-rows_of_out p xs none h = ap (first p) (append-nil xs)
  first-rows_of_out p xs (some y) h = first-snoc_out p xs y (h y refl)

  first-rows_of :
      (p : A → Bool) (o : Option A) → ((x : A) → o ≡ some x → p x ≡ true) → first p (rows_of o) ≡ o
  first-rows_of p none h = refl
  first-rows_of p (some y) h = rw (h y refl)

  filter-append : (p : A → Bool) (xs ys : List A) → filter p (xs ++ ys) ≡ filter p xs ++ filter p ys
  filter-append p [] ys = refl
  filter-append p (x ∷ xs) ys = ground (arith, filter-append p xs ys)

  filter-filter :
      (p q : A → Bool) (xs : List A)
      → ((x : A) → p x ≡ true → q x ≡ true)
      → filter p (filter q xs) ≡ filter p xs
  filter-filter p q [] h = refl
  filter-filter p q (x ∷ xs) h = ground (arith, h x, filter-filter p q xs h)

  filter-filter_out :
      (p q : A → Bool) (xs : List A)
      → ((x : A) → p x ≡ true → q x ≡ false)
      → filter p (filter q xs) ≡ []
  filter-filter_out p q [] h = refl
  filter-filter_out p q (x ∷ xs) h = ground (arith, h x, filter-filter_out p q xs h)

module _ {A B : Type 0} where
  filter-map_all :
      (p : B → Bool) (f : A → B) (xs : List A)
      → ((x : A) → p (f x) ≡ true)
      → filter p (map f xs) ≡ map f xs
  filter-map_all p f [] h = refl
  filter-map_all p f (x ∷ xs) h = ground (arith, h x, filter-map_all p f xs h)

  filter-map_none :
      (p : B → Bool) (f : A → B) (xs : List A)
      → ((x : A) → p (f x) ≡ false)
      → filter p (map f xs) ≡ []
  filter-map_none p f [] h = refl
  filter-map_none p f (x ∷ xs) h = ground (arith, h x, filter-map_none p f xs h)

module _ {A B : Type 0} where
  map-map_section :
      (f : A → B) (g : B → A) (xs : List A) → ((x : A) → g (f x) ≡ x) → map g (map f xs) ≡ xs
  map-map_section f g [] h = refl
  map-map_section f g (x ∷ xs) h = ap₂ (◌∷◌) (h x) (map-map_section f g xs h)

-- A text that is one of two different texts is not the other.
==_other : (a b c : String) → (b == a) ≡ false → (c == a) ≡ true → (c == b) ≡ false
==_other a b c h k = ground arith

not_other : (a b c : String) → (b == a) ≡ false → (c == a) ≡ true → not (c == b) ≡ true
not_other a b c h k = ground arith

row_left-id :
    {C : Type 0} (c : Change C) (row : ArtifactRow C) → row_left c ≡ some row → row.id ≡ c.artifact
row_left-id c row h = ground arith

module _ {C R : Type 0} (c : Change C) (landed step : ℕ) (db db' : Db C R) where
  -- What a change that lands leaves in the tables that the checks read, and adds to the histories.
  pub record Wrote : Type 0 where
    pub artifacts :
        db'.artifacts
        ≡ filter (λ (row : ArtifactRow C). not (row.id == c.artifact)) db.artifacts
          ++ rows_of (row_left c)
    pub parts :
        db'.parts
        ≡ filter (λ (row : PartRow). not (row.artifact == c.artifact)) db.parts
          ++ map (λ place. record { artifact = c.artifact; place = place }) (parts_left c)
    pub links : db'.links ≡ relinked c.artifact (links_left c) db.links
    pub entries : db'.entries ≡ db.entries
    pub versions :
        db'.versions
        ≡ db.versions
          ++ record {
            artifact = c.artifact;
            landed = landed;
            step = step;
            revision = c.revision;
            content = c.content;
          }
            ∷ []

  pub written-Wrote : Gives (written c landed step) db tt db' → Wrote
  unfolding written
  written-Wrote h = record {
    artifacts = ground (
      arith,
      append-nil (filter (λ (row : ArtifactRow C). not (row.id == c.artifact)) db.artifacts),
    );
    parts =
        ground (
          arith,
          append-nil (filter (λ (row : PartRow). not (row.artifact == c.artifact)) db.parts),
        );
    links = ground arith;
    entries = ground arith;
    versions = ground arith;
  }

  -- Another artifact's row, places and links are as they were.
  module _ (w : Wrote) (a : String) (other : (c.artifact == a) ≡ false) where
    pub row_of-other : row_of db' a ≡ row_of db a
    unfolding row_of
    row_of-other =
        let mine = λ (row : ArtifactRow C). row.id == a in
        ap (first mine) w.artifacts
        ∙ first-rows_of_out mine _ (row_left c) (λ x e. rw (row_left-id c x e) other)
        ∙ first-filter mine _ db.artifacts (λ x h. not_other a c.artifact x.id other h)

    pub parts_of-other : parts_of db' a ≡ parts_of db a
    unfolding parts_of
    parts_of-other =
        let mine = λ (row : PartRow). row.artifact == a in
        ap (map (λ (row : PartRow). row.place)) (
          ap (filter mine) w.parts
          ∙ filter-append mine _ _
          ∙ ap₂ (◌++◌)
              (filter-filter mine _ db.parts (λ x h. not_other a c.artifact x.artifact other h))
              (filter-map_none mine _ (parts_left c) (λ x. other))
          ∙ append-nil _)

    pub links_of-other : links_of db' a ≡ links_of db a
    unfolding relinked
    links_of-other =
        let mine = λ (row : LinkRow). row.source == a in
        ap (filter mine) w.links
        ∙ filter-append mine _ _
        ∙ ap₂ (◌++◌)
            (filter-filter mine _ db.links (λ x h. not_other a c.artifact x.source other h))
            (filter-map_none mine (link_row c.artifact) (enumerate 0 (links_left c)) (λ x. other))
        ∙ append-nil _

  -- Its own are those that it leaves.
  module _ (w : Wrote) where
    pub row_of_self : row_of db' c.artifact ≡ row_left c
    unfolding row_of
    row_of_self =
        let mine = λ (row : ArtifactRow C). row.id == c.artifact in
        ap (first mine) w.artifacts
        ∙ first-append_none mine _ _ (first-filter_out mine _ db.artifacts (λ x h. ap not h))
        ∙ first-rows_of mine (row_left c) (λ x e. rw (row_left-id c x e) (==_refl c.artifact))

    pub parts_of_self : parts_of db' c.artifact ≡ parts_left c
    unfolding parts_of
    parts_of_self =
        let mine = λ (row : PartRow). row.artifact == c.artifact in
        ap (map (λ (row : PartRow). row.place)) (
          ap (filter mine) w.parts
          ∙ filter-append mine _ _
          ∙ ap₂ (◌++◌) (filter-filter_out mine _ db.parts (λ x h. ap not h))
              (filter-map_all mine _ (parts_left c) (λ x. ==_refl c.artifact)))
        ∙ map-map_section _ _ (parts_left c) (λ x. refl)

    pub links_of_self : links_of db' c.artifact ≡ link_rows_left c
    unfolding relinked
    links_of_self =
        let mine = λ (row : LinkRow). row.source == c.artifact in
        ap (filter mine) w.links
        ∙ filter-append mine _ _
        ∙ ap₂ (◌++◌) (filter-filter_out mine _ db.links (λ x h. ap not h)) (
            filter-map_all mine (link_row c.artifact) (enumerate 0 (links_left c))
              (λ x. ==_refl c.artifact))
