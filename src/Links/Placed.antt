-- ===== src/Links/Placed.antt =====
-- Every link that an artifact carries stands at its place: the place is that of a value in the
-- artifact, by the names of its fields and the indices of its lists, and that value is the link's.
use mathlib.Core.Path.{subst}
use package.text.Mathlib.TextLemmas.{append_assoc, nil-append}
use shopsystem_kb.Base.{
  ℕ, zero, suc, String, ◌<>◌, ◌≡◌, refl, sym, ◌∙◌, Bool, true, false, Option, some, List, [], ◌++◌,
  ◌==◌, string_eq, option_eq, ◌||◌, arith, All, if◌then◌else◌, ◌+◌,
}
use shopsystem_kb.Base.Decimal.{decimal}
use shopsystem_kb.Base.Dict.{Dict}
use shopsystem_kb.Content.{
  named, other, Value, text, items, fields, Values, nil, cons, Fields, end, entry, get, at,
}
use shopsystem_kb.Types.Composition.{Corpus}
use shopsystem_kb.Types.Declared.{Composed, made, ◌>>=◌, declared}
use shopsystem_kb.Types.Declared.Bases.{>>=-made, made-injective}
use shopsystem_kb.Links.{
  Link, references, own_fields, held, item_schema, over_parts, node_links, in_collection, in_value,
  in_items, inside,
}
use shopsystem_kb.Links.Stands.{
  All-append, own_fields-IsAt, over_parts-All, InNode-IsAt, All-map, named-InNode, first_of,
  next_of, Stands, IsAt, InList, InValue, InNode,
}

module _ (corpus : Corpus) (fuel : ℕ) (within : Option String) where
  node_links-IsAt :
      (d : Fields) (refs : Dict String Value) (parts : Fields) (above : String) (entered : Bool)
      (holder : String) (look : String → Value → Composed (List Link))
      → ((k : String) (part : Value) (found : List Link)
          → look k part ≡ made found
          → All (IsAt d above) found)
      → (links : List Link)
      → node_links corpus fuel within d refs parts above entered holder look ≡ made links
      → All (IsAt d above) links
  unfolding node_links
  node_links-IsAt d refs parts above entered holder look h links e =
      let (inner, there, done) =
        >>=-made (over_parts look parts)
          (λ inner. made ((if entered then own_fields d refs above holder else []) ++ inner)) links
          e in
      subst (All (IsAt d above)) (made-injective _ links done) (
        All-append (IsAt d above) (if entered then own_fields d refs above holder else []) inner
          (own entered) (over_parts-All (IsAt d above) look h parts inner there))
    where
      own : (b : Bool) → All (IsAt d above) (if b then own_fields d refs above holder else [])
      own true = own_fields-IsAt d refs above holder
      own false = tt

  -- What stands below an item's place stands below that of its collection.
  item-InList :
      (all : Values) (above k : String) (n : ℕ) (d : Fields) (link : Link)
      → at n all ≡ some (fields d)
      → IsAt d (above <> (k <> ("/" <> (decimal n <> "/")))) link
      → InList all above k link
  item-InList all above k n d link a (rest, p, s) = (n, d, rest, a, p ∙ simp append_assoc, s)

  mutual
    unfolding in_collection in_value in_items get at

    in_collection-InNode :
        (d : Fields) (above : String) (entered : Bool) (holder k : String) (part : Value)
        (links : List Link)
        → in_collection corpus fuel within d above entered holder k part ≡ made links
        → All (InNode d above k) links
    in_collection-InNode end above entered holder k part links e =
        subst (All (InNode end above k)) (made-injective [] links e) tt
    in_collection-InNode (entry (named j) v d) above entered holder k part links e =
        named-InNode j k v d above links (in_value corpus fuel within v above entered holder k part)
          (in_collection corpus fuel within d above entered holder k part)
          (in_value-InValue v above entered holder k part links)
          (in_collection-InNode d above entered holder k part links) e
    in_collection-InNode (entry (other j) v d) above entered holder k part links e =
        in_collection-InNode d above entered holder k part links e

    in_value-InValue :
        (v : Value) (above : String) (entered : Bool) (holder k : String) (part : Value)
        (links : List Link)
        → in_value corpus fuel within v above entered holder k part ≡ made links
        → All (InValue v above k) links
    in_value-InValue (items vs) above entered holder k part links e =
        let (schema, _, go) = >>=-made (item_schema part) _ links e in
        let (refs, _, done) = >>=-made (references corpus fuel schema) _ links go in
        All-map (InList vs above k) (InValue (items vs) above k) links (λ l p. (vs, refl, p))
          (in_items-InList vs vs above entered holder k schema refs 0 links
            (λ m w a. subst (λ i. at i vs ≡ some w) (omega arith) a) done)
    in_value-InValue v above entered holder k part links e =
        subst (All (InValue v above k)) (made-injective [] links e) tt

    in_items-InList :
        (vs all : Values) (above : String) (entered : Bool) (holder k : String) (schema : Fields)
        (refs : Dict String Value) (n : ℕ) (links : List Link)
        → ((m : ℕ) (w : Value) → at m vs ≡ some w → at (n + m) all ≡ some w)
        → in_items corpus fuel within vs above entered holder k schema refs n ≡ made links
        → All (InList all above k) links
    in_items-InList nil all above entered holder k schema refs n links kept e =
        subst (All (InList all above k)) (made-injective [] links e) tt
    in_items-InList (cons (fields d) vs) all above entered holder k schema refs n links kept e =
        let there = above <> (k <> ("/" <> (decimal n <> "/"))) in
        let in_now = entered || some there == within in
        let name = held holder k d n in
        let look = in_collection corpus fuel within d there in_now name in
        let after = in_items corpus fuel within vs above entered holder k schema refs (suc n) in
        let (inner, _, on) =
          >>=-made (declared corpus fuel schema)
            (λ inner.
              node_links corpus fuel within d refs inner.parts there in_now name look >>= λ found.
              after >>= λ rest. made (found ++ rest))
            links e in
        let (found, here, go) =
          >>=-made (node_links corpus fuel within d refs inner.parts there in_now name look)
            (λ found. after >>= λ rest. made (found ++ rest)) links on in
        let (rest, later, done) = >>=-made after (λ rest. made (found ++ rest)) links go in
        let in_node =
          node_links-IsAt d refs inner.parts there in_now name look
            (λ j part ls h.
              All-map (InNode d there j) (IsAt d there) ls (InNode-IsAt d there j)
                (in_collection-InNode d there in_now name j part ls h))
            found here in
        subst (All (InList all above k)) (made-injective (found ++ rest) links done) (
          All-append (InList all above k) found rest
            (All-map (IsAt d there) (InList all above k) found
              (λ l p.
                item-InList all above k n d l
                  (first_of n all (fields d) (kept zero (fields d) refl)) p)
              in_node)
            (in_items-InList vs all above entered holder k schema refs (suc n) rest
              (λ m w a. next_of n m all w (kept (suc m) w a)) later))
    in_items-InList (cons v vs) all above entered holder k schema refs n links kept e =
        in_items-InList vs all above entered holder k schema refs (suc n) links
          (λ m w a. next_of n m all w (kept (suc m) w a)) e

  -- Every link inside a node of an artifact stands at its place in the artifact.
  inside-IsAt :
      (artifact schema : Fields) (links : List Link)
      → inside corpus fuel within artifact schema ≡ made links
      → All (IsAt artifact "") links
  unfolding inside
  inside-IsAt artifact schema links e =
      let in_now = some "" == within in
      let look = in_collection corpus fuel within artifact "" in_now "" in
      let (inner, _, on) =
        >>=-made (declared corpus fuel schema)
          (λ inner. references corpus fuel schema >>= λ refs.
            node_links corpus fuel within artifact refs inner.parts "" in_now "" look)
          links e in
      let (refs, _, done) =
        >>=-made (references corpus fuel schema)
          (λ refs. node_links corpus fuel within artifact refs inner.parts "" in_now "" look) links
          on in
      node_links-IsAt artifact refs inner.parts "" in_now "" look
        (λ j part ls h.
          All-map (InNode artifact "" j) (IsAt artifact "") ls (InNode-IsAt artifact "" j)
            (in_collection-InNode artifact "" in_now "" j part ls h))
        links done

-- Every link that an artifact carries, and every link inside a node of it, stands at its place: the
-- place names, by fields and indices, a value in the artifact, and that value is the link's target.
pub inside-Stands :
    (corpus : Corpus) (fuel : ℕ) (within : Option String) (artifact schema : Fields)
    (links : List Link)
    → inside corpus fuel within artifact schema ≡ made links
    → All (λ (link : Link). Stands artifact link.place link.target) links
inside-Stands corpus fuel within artifact schema links e =
    All-map (IsAt artifact "") (λ (link : Link). Stands artifact link.place link.target) links
      (λ link (rest, p, s).
        subst (λ (place : String). Stands artifact place link.target) (sym (p ∙ nil-append rest)) s)
      (inside-IsAt corpus fuel within artifact schema links e)
