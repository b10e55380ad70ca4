-- ===== src/Draft/Sources.antt =====
-- Where the links that a draft leaves come from.
use mathlib.Core.Path.{subst}
use shopsystem_kb.Base.{
  ℕ, String, ◌≡◌, sym, ap, ◌∙◌, Bool, true, false, not, Option, none, some, List, [], ◌∷◌, ◌++◌,
  map, ◌==◌, ==_iff, contains, string_eq, filter, In, In-append, In-filter, In-map, inl, inr, arith,
  Bool-cases, In-sorted_of,
}
use shopsystem_kb.Base.Dict.{Dict, lookup}
use shopsystem_kb.Port
use shopsystem_kb.Names.{order_le}
use shopsystem_kb.Links.Handed.{handed}
use shopsystem_kb.Port.{Linking}
use shopsystem_kb.Content.{Fields}
use shopsystem_kb.Types.Declared.{made, ◌>>=◌}
use shopsystem_kb.Types.Declared.Bases.{>>=-made, made-injective}
use shopsystem_kb.Draft.{Store, Draft, holds, changed, is_some, corpus_of}
use shopsystem_kb.Draft.Linked.{
  linking_of, by_source, own, links_of, put_from, put_links, unchanged, links_in, waiting,
}

In-lookup :
    {A : Type 0} (k : String) (a : A) (d : Dict String A)
    → In (k, a) d
    → is_some (lookup k d) ≡ true
unfolding lookup
In-lookup k a [] m = absurd m.1
In-lookup k a ((j, b) ∷ d) m = ground (arith, In-lookup k a d)

unnot : {b : Bool} → not b ≡ true → b ≡ false
unnot h = ground arith

In-by_source : (link : Linking) (found : List Linking) → In link (by_source found) → In link found
unfolding by_source
In-by_source link found m =
    In-sorted_of (λ (a b : Linking). order_le a.source b.source) link found m

module _ (store : Store) (fuel : ℕ) (draft : Draft) where
  links_of-source :
      (source : String) (artifact : Fields) (links : List Linking) (link : Linking)
      → links_of store fuel draft source artifact ≡ made links
      → In link links
      → link.source ≡ source
  unfolding links_of
  links_of-source source artifact links link e m =
      let (found, _, go) = >>=-made (own store fuel draft artifact) _ links e in typed found go
    where
      typed :
          (found : Option Fields)
          → (elim found [
            | none ↦ made []
            | some typed ↦ handed (corpus_of store draft) fuel artifact typed [] >>= λ links.
                made
                  (map (linking_of source) (filter (λ (link : Port.Link). not link.implicit) links))
          ])
            ≡ made links
          → link.source ≡ source
      typed none go = absurd (subst (In link) (sym (made-injective [] links go)) m).1
      typed (some t) go =
          let (ls, _, done) =
            >>=-made (handed (corpus_of store draft) fuel artifact t [])
              (λ links.
                made (
                  map (linking_of source) (filter (λ (link : Port.Link). not link.implicit) links)))
              links go in
          let (port_link, _, is) =
            In-map (linking_of source) link (filter (λ (link : Port.Link). not link.implicit) ls)
              (subst (In link) (sym (made-injective _ links done)) m) in
          ap (λ (l : Linking). l.source) is

  put_from-source :
      (pending : Dict String Fields) (links : List Linking) (link : Linking)
      → put_from store fuel draft pending ≡ made links
      → In link links
      → (d : Fields) × In (link.source, d) pending × (contains draft.removed link.source ≡ false)
  unfolding put_from
  put_from-source [] links link e m = absurd (subst (In link) (sym (made-injective [] links e)) m).1
  put_from-source ((source, artifact) ∷ rest) links link e m =
      elim (Bool-cases (contains draft.removed source)) [
        | inl gone ↦
            let (d, at, h) = put_from-source rest links link (sym (rw gone) ∙ e) m in (d, inr at, h)
        | inr stays ↦
            let (found, own_links, go) =
              >>=-made (links_of store fuel draft source artifact)
                (λ found. put_from store fuel draft rest >>= λ more. made (found ++ more)) links
                (sym (rw stays) ∙ e) in
            let (more, later, done) =
              >>=-made (put_from store fuel draft rest) (λ more. made (found ++ more)) links go in
            elim (In-append link found more
              (subst (In link) (sym (made-injective _ links done)) m)) [
                | inl here ↦
                    let is = links_of-source source artifact found link own_links here in
                    (
                      artifact,
                      inl (ap (λ s. (s, artifact)) is),
                      ap (contains draft.removed) is ∙ stays,
                    )
                | inr there ↦
                    let (d, at, h) = put_from-source rest more link later there in (d, inr at, h)
              ]
      ]

  holds-put :
      (id : String) (d : Fields)
      → In (id, d) draft.pending
      → contains draft.removed id ≡ false
      → holds store id draft ≡ true
  unfolding holds
  holds-put id d m h = ground (arith, In-lookup id d draft.pending m)

  holds-unchanged :
      (id : String)
      → changed id draft ≡ false
      → is_some (store.artifact id) ≡ true
      → holds store id draft ≡ true
  unfolding holds changed
  holds-unchanged id h s = ground arith

  unchanged-holds :
      (found : List Linking) (link : Linking)
      → ((l : Linking) → In l found → is_some (store.artifact l.source) ≡ true)
      → In link (unchanged store fuel draft found)
      → In link found × (holds store link.source draft ≡ true)
  unfolding unchanged
  unchanged-holds found link held m =
      let (there, untouched) =
        In-filter (λ (each : Linking). not (changed each.source draft)) link found m in
      (there, holds-unchanged link.source (unnot untouched) (held link there))

  put_links-holds :
      (links : List Linking) (link : Linking)
      → put_links store fuel draft ≡ made links
      → In link links
      → holds store link.source draft ≡ true
  unfolding put_links
  put_links-holds links link e m =
      let (d, at, h) = put_from-source draft.pending links link e m in holds-put link.source d at h

  -- Every link that a draft gives as waiting is from an artifact that the draft holds to an IRI that it
  -- does not hold, over a store whose waiting links are from artifacts that it holds.
  pub waiting-holds :
      (links : List Linking) (link : Linking)
      → ((l : Linking) → In l store.waiting → is_some (store.artifact l.source) ≡ true)
      → waiting store fuel draft ≡ made links
      → In link links
      → (holds store link.source draft ≡ true) × (holds store link.target draft ≡ false)
  unfolding waiting
  waiting-holds links link waits e m =
      let (here, put, done) = >>=-made (put_links store fuel draft) _ links e in
      let (both, unheld) =
        In-filter (λ (each : Linking). not (holds store each.target draft)) link
          (unchanged store fuel draft store.waiting ++ here)
          (In-by_source link _ (subst (In link) (sym (made-injective _ links done)) m)) in
      (
        elim (In-append link (unchanged store fuel draft store.waiting) here both) [
          | inl kept ↦ (unchanged-holds store.waiting link waits kept).1
          | inr own_link ↦ put_links-holds here link put own_link
        ],
        unnot unheld,
      )

  -- Every link that a draft gives into an artifact lands there, from an artifact that the draft holds, over
  -- a store whose links into it land there, from artifacts that it holds.
  pub links_in-holds :
      (target : String) (links : List Linking) (link : Linking)
      → ((l : Linking)
          → In l (store.links_in target)
          → (is_some (store.artifact l.source) ≡ true) × (l.target ≡ target))
      → links_in store fuel draft target ≡ made links
      → In link links
      → (holds store link.source draft ≡ true) × (link.target ≡ target)
  unfolding links_in
  links_in-holds target links link lands e m =
      let (here, put, done) = >>=-made (put_links store fuel draft) _ links e in
      elim (In-append link (unchanged store fuel draft (store.links_in target)) _
        (In-by_source link _ (subst (In link) (sym (made-injective _ links done)) m))) [
          | inl kept ↦
              let (there, held) =
                unchanged-holds (store.links_in target) link (λ l k. (lands l k).0) kept in
              (held, (lands link there).1)
          | inr own_link ↦
              let (there, at_target) =
                In-filter (λ (each : Linking). each.target == target) link here own_link in
              (put_links-holds here link put there, (==_iff link.target target).0 at_target)
        ]
