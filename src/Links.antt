-- ===== src/Links.antt =====
-- src/kb/links.py: the links that an artifact carries, in its own fields and in those of the items of
-- its collections, at every depth. The node that the walk is within is told by what stands before its
-- places, where the source asks for the very object; none is a value that is no node.
pub mod Handed
pub mod Stands
pub mod Placed
use shopsystem_kb.Base.{
  ℕ, suc, String, ◌<>◌, Bool, true, false, not, ◌||◌, Option, none, some, List, [], ◌∷◌, ◌++◌, map,
  ◌==◌, contains, string_eq, option_eq, if◌then◌else◌,
}
use shopsystem_kb.Base.Decimal.{decimal}
use Prim.Native.String
use shopsystem_kb.Base.Texts.{starts_with}
use shopsystem_kb.Base.Dict.{Dict}
use shopsystem_kb.Names
use shopsystem_kb.Content.{
  named, other, Value, null, truth, whole, negative, real, text, items, fields, Values, nil, cons,
  Fields, end, entry, get, get_text,
}
use shopsystem_kb.Types.Composition.{Corpus}
use shopsystem_kb.Types.Declared.{Composed, made, unread, ◌>>=◌, declared, value_list, value_eq}

pub record Link : Type 0 where
  pub field : String
  pub place : String
  pub target : Value
  pub ref : Value
  pub own : Bool
  pub holder : String

abbrev Refs : Type 0
Refs = Dict String Value

-- `"ref" in t`
unfoldable pub holds_ref : String → Bool
unfolding starts_with
holds_ref String.[] = false
holds_ref (String.◌∷◌ c s) = starts_with "ref" (String.◌∷◌ c s) || holds_ref s

-- `field["ref"]` of the fields that have one; a field whose name is no text is left out. What a field
-- that is no mapping does is Python's: `in` takes a list or a text, and the subscript takes neither.
unfoldable pub refs_in : Fields → Composed (Dict String Value)
unfolding get value_eq holds_ref
refs_in end = made []
refs_in (entry (named k) (fields d) rest) =
    refs_in rest >>= λ found. made (elim (get "ref" d) [ none ↦ found | some r ↦ (k, r) ∷ found ])
refs_in (entry (named k) (items vs) rest) =
    if contains (value_list vs) (text "ref") then unread else refs_in rest
refs_in (entry (named k) (text t) rest) = if holds_ref t then unread else refs_in rest
refs_in (entry (named k) v rest) = unread
refs_in (entry (other k) v rest) = refs_in rest

unfoldable pub references : Corpus → ℕ → Fields → Composed (Dict String Value)
unfolding declared refs_in
references corpus fuel schema = declared corpus fuel schema >>= λ d. refs_in d.properties

-- The links of one field that holds a list.
unfoldable pub each_target : String → String → Value → Bool → String → ℕ → Values → List Link
unfolding decimal
each_target field at ref own holder n nil = []
each_target field at ref own holder n (cons v vs) =
    record {
      field = field;
      place = at <> (field <> ("/" <> decimal n));
      target = v;
      ref = ref;
      own = own;
      holder = holder;
    }
    ∷ each_target field at ref own holder (suc n) vs

-- The links of one field, alone or in a list.
unfoldable pub of_field : String → String → Value → String → Option Value → List Link
unfolding each_target
of_field field at ref holder none = []
of_field field at ref holder (some null) = []
of_field field at ref holder (some (items vs)) = each_target field at ref (at == "") holder 0 vs
of_field field at ref holder (some v) =
    record {
      field = field;
      place = at <> field;
      target = v;
      ref = ref;
      own = at == "";
      holder = holder;
    }
    ∷ []

-- `_fields`
unfoldable pub own_fields : Fields → Dict String Value → String → String → List Link
unfolding of_field get
own_fields node [] at holder = []
own_fields node ((field, ref) ∷ refs) at holder =
    of_field field at ref holder (get field node) ++ own_fields node refs at holder

-- `_held`
unfoldable pub held : String → String → Fields → ℕ → String
unfolding get_text Names.placed decimal
held holder collection item index =
    let step : String = elim (get_text "id" item) [ none ↦ decimal index | some name ↦ name ] in
    if holder == ""
    then Names.placed (collection ∷ step ∷ [])
    else Names.placed (holder ∷ collection ∷ step ∷ [])

-- The schema of the items of a collection: `part.get("items", {})`.
unfoldable pub item_schema : Value → Composed Fields
unfolding get
item_schema (fields part) = elim (get "items" part) [
  | none ↦ made end
  | some (fields d) ↦ made d
  | some _ ↦ unread
]
item_schema _ = unread

-- The links that each collection gives, one after another.
unfoldable pub over_parts : (String → Value → Composed (List Link)) → Fields → Composed (List Link)
over_parts look end = made []
over_parts look (entry (named k) part parts) =
    look k part >>= λ found. over_parts look parts >>= λ rest. made (found ++ rest)
over_parts look (entry (other k) part parts) = over_parts look parts

module _ (corpus : Corpus) (fuel : ℕ) (within : Option String) where
  -- One node's links, of those that each of its collections gives.
  unfoldable pub node_links :
      Fields
      → Dict String Value
      → Fields
      → String
      → Bool
      → String
      → (String → Value → Composed (List Link))
      → Composed (List Link)
  unfolding own_fields over_parts
  node_links node refs parts at entered holder look = over_parts look parts >>= λ inside.
      made ((if entered then own_fields node refs at holder else []) ++ inside)

  -- `_links_in`, of one collection of a node.
  unfoldable mutual
    unfolding item_schema references declared node_links held decimal

    pub in_collection : Fields → String → Bool → String → String → Value → Composed (List Link)
    in_collection end at entered holder k part = made []
    in_collection (entry (named j) v d) at entered holder k part =
        let here = in_value v at entered holder k part in
        let rest = in_collection d at entered holder k part in if k == j then here else rest
    in_collection (entry (other j) v d) at entered holder k part =
        in_collection d at entered holder k part

    pub in_value : Value → String → Bool → String → String → Value → Composed (List Link)
    in_value (items vs) at entered holder k part = item_schema part >>= λ schema.
        references corpus fuel schema >>= λ refs. in_items vs at entered holder k schema refs 0
    in_value v at entered holder k part = made []

    pub in_items :
        Values
        → String
        → Bool
        → String
        → String
        → Fields
        → Dict String Value
        → ℕ
        → Composed (List Link)
    in_items nil at entered holder k schema refs n = made []
    in_items (cons (fields d) vs) at entered holder k schema refs n =
        let there = at <> (k <> ("/" <> (decimal n <> "/"))) in
        let in_now = entered || some there == within in
        let name = held holder k d n in
        declared corpus fuel schema >>= λ inner.
        node_links d refs inner.parts there in_now name (in_collection d there in_now name)
        >>= λ found.
            in_items vs at entered holder k schema refs (suc n) >>= λ rest. made (found ++ rest)
    in_items (cons v vs) at entered holder k schema refs n =
        in_items vs at entered holder k schema refs (suc n)

  -- `inside`
  unfoldable pub inside : Fields → Fields → Composed (List Link)
  unfolding in_collection node_links references declared
  inside artifact schema =
      let in_now = some "" == within in
      declared corpus fuel schema >>= λ inner. references corpus fuel schema >>= λ refs.
      node_links artifact refs inner.parts "" in_now "" (in_collection artifact "" in_now "")

-- Every link that an artifact carries.
unfoldable pub carried : Corpus → ℕ → Fields → Fields → Composed (List Link)
unfolding inside
carried corpus fuel artifact schema = inside corpus fuel (some "") artifact schema
