-- ===== src/Content/Slug.antt =====
-- The names of src/kb/item_names.py: the name a title gives, and the number that keeps it free.
use Prim.Native.Char.{Char, code}
use Prim.Native.String.{[] as nil, ◌∷◌ as ◌◂◌}
use shopsystem_kb.Base.{
  ℕ, zero, suc, String, ◌<>◌, ◌≡◌, refl, sym, ◌∙◌, Bool, true, false, not, ◌&&◌, ◌||◌, Option, none,
  some, List, [], ◌∷◌, ◌==◌, ==_refl, contains, string_eq, nat_eq, filter, all, length,
  if◌then◌else◌, arith, inl, inr, ◌⊎◌, Bool-cases,
}
use mathlib.Core.Path.{subst}
use mathlib.Core.Bool.{true≢false}
use text.Mathlib.TextLemmas.{nil-append, cons-append, append-nil}
use shopsystem_kb.Base.Texts.{char_eq, split, join, split-ne-nil}
use shopsystem_kb.Base.Decimal.{decimal}
use shopsystem_kb.Names.{plain, is_alnum, runs, is_hyphen}

-- The letter that stands where a letter does in another text.
unfoldable pub paired : Char → String → String → Option Char
paired c (u ◂ us) (l ◂ ls) = let rest = paired c us ls in if c == u then some l else rest
paired c _ _ = none

-- A character of `title.lower()`, with a hyphen for each that is not of `[a-z0-9]`. Of the letters
-- past ASCII, two alone are lower-cased into it: the kelvin sign, to `k`, and the dotted capital I,
-- to `i` and a combining dot.
abbrev lowered_by : Char → Option Char → String
lowered_by c (some l) = l ◂ nil
lowered_by c none =
    if is_alnum c
    then c ◂ nil
    else if code c == 8490
    then "k"
    else if code c == 304
    then "i-"
    else "-"

unfoldable pub lowered : Char → String
unfolding paired char_eq
lowered c = lowered_by c (paired c "ABCDEFGHIJKLMNOPQRSTUVWXYZ" "abcdefghijklmnopqrstuvwxyz")

unfoldable pub lowered_text : String → String
unfolding lowered
lowered_text nil = nil
lowered_text (c ◂ s) = lowered c <> lowered_text s

-- Every run of hyphens one, and none at either end.
unfoldable pub slug : String → String
unfolding lowered_text split join
slug title = join "-" (filter (λ word. not (word == "")) (split "-" (lowered_text title)))

-- The candidates of `numbered`: the name, then the name with -2, -3 and so on.
unfoldable pub candidate : String → ℕ → String
unfolding decimal
candidate name n = if n == 1 then name else name <> ("-" <> decimal n)

unfoldable pub numbered_from : ℕ → ℕ → String → List String → String
unfolding candidate
numbered_from zero n name taken = candidate name n
numbered_from (suc fuel) n name taken =
    let rest = numbered_from fuel (suc n) name taken in
    if contains taken (candidate name n) then rest else candidate name n

-- `numbered`, by as many candidates as there are names taken, and one more.
unfoldable pub numbered : String → List String → String
unfolding numbered_from
numbered name taken = numbered_from (length taken) 1 name taken

abbrev all_alnum : String → Bool
all_alnum nil = true
all_alnum (c ◂ s) = is_alnum c && all_alnum s

-- Only characters of `[a-z0-9]` and hyphens.
abbrev kept : String → Bool
kept nil = true
kept (c ◂ s) = (is_alnum c || c == "-") && kept s

kept-append : (s t : String) → kept s ≡ true → kept t ≡ true → kept (s <> t) ≡ true
kept-append nil t h k = rw nil-append k
kept-append (c ◂ s) t h k = rw cons-append (ground (arith, kept-append s t))

paired-alnum :
    (c : Char) (us ls : String) (l : Char)
    → all_alnum ls ≡ true
    → paired c us ls ≡ some l
    → is_alnum l ≡ true
unfolding paired
paired-alnum c nil ls l h e = cc
paired-alnum c (u ◂ us) nil l h e = cc
paired-alnum c (u ◂ us) (m ◂ ls) l h e = ground (arith, paired-alnum c us ls l)

lowered_by-kept :
    (c : Char) (o : Option Char)
    → ((l : Char) → o ≡ some l → is_alnum l ≡ true)
    → kept (lowered_by c o) ≡ true
unfolding char_eq
lowered_by-kept c (some l) h = rw (h l refl)
lowered_by-kept c none h = elim (Bool-cases (is_alnum c)) [
  | inl e ↦ rw e (rw e)
  | inr n ↦ elim (Bool-cases (code c == 8490)) [
    | inl k ↦ rw (n, k)
    | inr m ↦ elim (Bool-cases (code c == 304)) [ inl i ↦ rw (n, m, i) | inr o ↦ rw (n, m, o) ]
  ]
]

alnum_of_kept :
    (c : Char) → (is_alnum c || c == "-") ≡ true → ("-" == c) ≡ false → is_alnum c ≡ true
alnum_of_kept c h n = ground arith

lowered-kept : (c : Char) → kept (lowered c) ≡ true
unfolding lowered
lowered-kept c =
    lowered_by-kept c _
      (λ l e. paired-alnum c "ABCDEFGHIJKLMNOPQRSTUVWXYZ" "abcdefghijklmnopqrstuvwxyz" l refl e)

lowered_text-kept : (s : String) → kept (lowered_text s) ≡ true
unfolding lowered_text
lowered_text-kept nil = refl
lowered_text-kept (c ◂ s) =
    kept-append (lowered c) (lowered_text s) (lowered-kept c) (lowered_text-kept s)

split-alnum : (s : String) → kept s ≡ true → all all_alnum (split "-" s) ≡ true
unfolding split
split-alnum nil h = refl
split-alnum (c ◂ s) h = elim (Bool-cases ("-" == c)) [
  | inl e ↦ rw e (split-alnum s (ground arith))
  | inr n ↦
      let (p, ps, e) = split-ne-nil "-" s in
      let ih = subst (λ l. all all_alnum l ≡ true) e (split-alnum s (ground arith)) in
      rw (n, e, alnum_of_kept c (ground arith) n) ih
]

all-filter :
    {A : Type 0} (p q : A → Bool) (xs : List A) → all p xs ≡ true → all p (filter q xs) ≡ true
all-filter p q [] h = refl
all-filter p q (x ∷ xs) h = ground (arith, all-filter p q xs)

filter-all : {A : Type 0} (q : A → Bool) (xs : List A) → all q (filter q xs) ≡ true
filter-all q [] = refl
filter-all q (x ∷ xs) = ground (arith, filter-all q xs)

runs-alnum :
    (b : Bool) (w rest : String)
    → all_alnum w ≡ true
    → runs is_hyphen true (w <> rest) ≡ runs is_hyphen true rest
unfolding runs
runs-alnum b nil rest h = rw nil-append
runs-alnum b (c ◂ w) rest h = rw cons-append (ground (arith, runs-alnum b w rest))

runs-word :
    (b : Bool) (w rest : String)
    → all_alnum w ≡ true
    → (w == "") ≡ false
    → runs is_hyphen b (w <> rest) ≡ runs is_hyphen true rest
unfolding runs
runs-word b nil rest h n = absurd (true≢false (sym (==_refl nil) ∙ n))
runs-word b (c ◂ w) rest h n = rw cons-append (ground (arith, runs-alnum b w rest))

plain-join :
    (p : String) (ps : List String)
    → all all_alnum (p ∷ ps) ≡ true
    → all (λ word. not (word == "")) (p ∷ ps) ≡ true
    → runs is_hyphen false (join "-" (p ∷ ps)) ≡ true
unfolding join runs char_eq
plain-join p [] h n =
    subst (λ w. runs is_hyphen false w ≡ true) (append-nil p)
      (runs-word false p nil (ground arith) (ground arith))
plain-join p (q ∷ ps) h n =
    runs-word false p ("-" ◂ join "-" (q ∷ ps)) (ground arith) (ground arith)
    ∙ plain-join q ps (ground arith) (ground arith)

-- The name that a title gives is a plain name, or it is empty.
pub slug-plain : (title : String) → (slug title ≡ "") ⊎ (plain (slug title) ≡ true)
unfolding slug plain join
slug-plain title =
    let words = split "-" (lowered_text title) in
    let test = λ (word : String). not (word == "") in
    go (filter test words)
      (all-filter all_alnum test words (split-alnum (lowered_text title) (lowered_text-kept title)))
      (filter-all test words)
  where
    go :
        (ws : List String)
        → all all_alnum ws ≡ true
        → all (λ word. not (word == "")) ws ≡ true
        → (join "-" ws ≡ "") ⊎ (runs is_hyphen false (join "-" ws) ≡ true)
    go [] h n = inl refl
    go (w ∷ ws) h n = inr (plain-join w ws h n)
