-- ===== src/Journal.antt =====
-- src/kb/journal.py: the ids of a set's entries. A moment is of a type `T`; the text that an id
-- begins with is what `datetime` writes of it, a parameter. A digit is one of ASCII's.
pub mod Minted
use shopsystem_kb.Base.{
  ℕ, zero, suc, String, ◌<>◌, Bool, true, false, not, ◌&&◌, Option, none, some, List, [], ◌∷◌, map,
  ◌==◌, string_eq, leb, if◌then◌else◌,
}
use shopsystem_kb.Base.Texts.{split, join}
use shopsystem_kb.Base.Decimal.{decimal, int_from, digits_only}
use shopsystem_kb.Base.Dict.{Dict, lookup, insert}
use shopsystem_kb.Names.{last_of}

-- `_entry_id`, of a moment's text.
unfoldable pub entry_id : String → ℕ → String
unfolding decimal
entry_id moment seq = moment <> ("-" <> decimal seq)

abbrev read_id : List String × String → Option (String × ℕ)
read_id ([], last) = none
read_id (p ∷ ps, last) =
    let moment = join "-" (p ∷ ps) in
    if not (last == "") && digits_only last && not (moment == "")
    then some (moment, int_from 0 last)
    else none

abbrev pub read_pieces : List String → Option (String × ℕ)
read_pieces [] = none
read_pieces (p ∷ ps) = read_id (last_of p ps)

-- `_parts`: the seq follows the last hyphen, since it holds none.
unfoldable pub parts : String → Option (String × ℕ)
unfolding split join digits_only int_from
parts id = read_pieces (split "-" id)

abbrev pub max : ℕ → ℕ → ℕ
max a b = if leb a b then b else a

-- The seq that an id takes at a moment; 0 of one at another.
unfoldable pub seq_at : String → String → ℕ
unfolding parts
seq_at moment id = elim (parts id) [ none ↦ 0 | some (m, n) ↦ if m == moment then n else 0 ]

-- `_last_seq`, over the ids that the history holds at a moment.
unfoldable pub last_seq : String → List String → ℕ
unfolding seq_at
last_seq moment [] = 0
last_seq moment (id ∷ ids) = max (seq_at moment id) (last_seq moment ids)

module _ {T : Type 0} (moment : T → String) (entry_ids : T → List String) where
  -- The seq that the last entry at a moment took, in the set or in the history.
  unfoldable pub known : Dict String ℕ → T → ℕ
  unfolding lookup last_seq
  known last at = elim (lookup (moment at) last) [
    | some n ↦ n
    | none ↦ last_seq (moment at) (entry_ids at)
  ]

  -- The loop of `minted`.
  unfoldable pub minted_from : Dict String ℕ → List T → List (T × String)
  unfolding known insert entry_id
  minted_from last [] = []
  minted_from last (at ∷ rest) =
      let seq = suc (known last at) in
      (at, entry_id (moment at) seq) ∷ minted_from (insert (moment at) seq last) rest

  unfoldable pub minted : List T → List (T × String)
  unfolding minted_from
  minted moments = minted_from [] moments
