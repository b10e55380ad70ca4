-- ===== src/Content/Reading.antt =====
-- src/kb/content_values.py: content as a request carries it, converted. The reading of YAML by
-- `canonical.entries` and `canonical.load` is ruamel's, and a parameter: it gives a tree, or the
-- place that is not plain. A problem is its place and its rule; its message is not modelled.
use shopsystem_kb.Base.{
  String, Bool, none, some, List, [], ◌∷◌, map, ◌==◌, string_eq, filter, if◌then◌else◌,
}
use shopsystem_kb.Content.{Value, null, text, fields, Fields, get, has, put}
use shopsystem_kb.Content.Settled.{identity}
use shopsystem_kb.Content.Slug.{slug}
use shopsystem_kb.Content.Items.{title}
use shopsystem_kb.Requests.{Fault}

-- What a reading of YAML gives.
pub data Read : Type 0 where
  plainly : Value → Read
  not_canonical : String → Read

pub record Content : Type 0 where
  pub tree : Value
  pub problems : List (String × String)

-- `refusal`
unfoldable pub refusal : Content → String → List Fault
refusal content artifact =
    map (λ (p : String × String). record { artifact = artifact; place = p.0; rule = p.1 })
      content.problems

-- The identity keys that a tree holds, each a problem.
unfoldable pub carried_keys : Fields → List (String × String)
unfolding has
carried_keys d = map (λ key. (key, "identity")) (filter (λ key. has key d) identity)

abbrev problems_of : Value → List (String × String)
problems_of (fields d) = carried_keys d
problems_of v = []

module _ (entries load : String → Read) where
  unfoldable pub content : String → Bool → Content
  unfolding carried_keys
  content written at_root = elim (if at_root then entries written else load written) [
    | not_canonical path ↦ record { tree = null; problems = (path, "content") ∷ [] }
    | plainly tree ↦ record { tree = tree; problems = if at_root then problems_of tree else [] }
  ]

  -- `_titled`
  unfoldable pub titled : Fields → Content
  unfolding title slug get put
  titled d = elim (title (get "title" d)) [
    | none ↦ record { tree = fields d; problems = [] }
    | some t ↦
        if slug t == ""
        then record { tree = fields d; problems = ("title", "title") ∷ [] }
        else record { tree = fields (put "title" (text t) d); problems = [] }
  ]

  abbrev item_of : Value → Content
  item_of (fields d) =
      if has "id" d
      then record { tree = fields d; problems = ("id", "identity") ∷ [] }
      else titled d
  item_of v = record { tree = v; problems = [] }

  unfoldable pub item : String → Content
  unfolding titled has
  item written = elim (load written) [
    | not_canonical path ↦ record { tree = null; problems = (path, "content") ∷ [] }
    | plainly tree ↦ item_of tree
  ]
