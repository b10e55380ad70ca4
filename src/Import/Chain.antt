-- ===== src/Import/Chain.antt =====
-- `_chain` of src/kb/skipping.py: the search, breadth first, of the shortest chain of files from one
-- to a broken file. A dict of Python is read with the key it may lack written out, and the loop is on
-- fuel, for each file that leads anywhere and one more.
use shopsystem_kb.Base.{
  ℕ, zero, suc, String, true, false, none, some, List, [], ◌∷◌, ◌++◌, contains, length, string_eq,
}
use shopsystem_kb.Base.Dict.{Dict, lookup, insert}
pub mod Scan
pub mod Search
pub mod Shortest

-- What the search comes to: `unread` is the KeyError of `chains[at]`.
pub data Outcome : Type 0 where
  led : List String → Outcome
  nowhere unread out_of_fuel : Outcome

pub data Scanned : Type 0 where
  found : List String → Scanned
  going : Dict String (List String) → List String → Scanned

module _ (broken : List String) where
  -- The inner loop, over the files that one leads to, from the chain that leads to that one.
  unfoldable pub scan :
      List String → List String → Dict String (List String) → List String → Scanned
  unfolding lookup insert
  scan chain [] chains waiting = going chains waiting
  scan chain (to ∷ rest) chains waiting = elim (lookup to chains) [
    | some _ ↦ scan chain rest chains waiting
    | none ↦ elim (contains broken to) [
      | true ↦ found (chain ++ to ∷ [])
      | false ↦ scan chain rest (insert to (chain ++ to ∷ []) chains) (waiting ++ to ∷ [])
    ]
  ]

-- `leads.get(at, [])`
unfoldable pub targets : Dict String (List String) → String → List String
unfolding lookup
targets leads file = elim (lookup file leads) [ none ↦ [] | some files ↦ files ]

module _ (leads : Dict String (List String)) (broken : List String) where
  -- The outer loop.
  unfoldable pub search : ℕ → Dict String (List String) → List String → Outcome
  unfolding lookup scan targets
  search zero chains waiting = elim waiting [ [] ↦ nowhere | _ ∷ _ ↦ out_of_fuel ]
  search (suc fuel) chains waiting = elim waiting [
    | [] ↦ nowhere
    | file ∷ rest ↦ elim (lookup file chains) [
      | none ↦ unread
      | some chain ↦ elim (scan broken chain (targets leads file) chains rest) [
        | found led_by ↦ led led_by
        | going chains' waiting' ↦ search fuel chains' waiting'
      ]
    ]
  ]

-- Every file that some file leads to, as often as one does.
abbrev pub all_targets : Dict String (List String) → List String
all_targets [] = []
all_targets ((file, files) ∷ leads) = files ++ all_targets leads

unfoldable pub chain : String → Dict String (List String) → List String → Outcome
unfolding search
chain start leads broken =
    search leads broken (suc (length (all_targets leads))) ((start, start ∷ []) ∷ []) (start ∷ [])
