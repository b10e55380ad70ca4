-- ===== src/Base/Texts.antt =====
-- Python's `str` methods that the program uses, over native texts: a text is matched by its own
-- `[]` and `∷`, which are called `nil` and `◂` here.
use Prim.Native.Char.{Char, code}
use Prim.Native.String.{String, compare, count, [] as nil, ◌∷◌ as ◌◂◌, ◌++◌ as ◌<>◌}
use mathlib.Core.Path.{◌≡◌, refl, ap, sym, ◌∙◌}
use mathlib.Core.Logic.{dite, inl, inr}
use mathlib.Core.Bool.{Bool, true, false, ◌||◌}
use mathlib.Core.Option.{Option, none, some, get_or}
use mathlib.Core.List.{List, [], ◌∷◌, ◌++◌}
use native.Mathlib.Omega.{arith}
use native.Mathlib.Decide.{ℕ_discrete}
use text.Mathlib.Text.{is_le}
use text.Mathlib.TextEquality.{Char-path}
use text.Mathlib.TextLemmas.{nil-append, cons-append, length-append, length-cons}
use shopsystem_kb.Base.Equality.{
  Eq, ◌==◌, ==_iff, ==_ne, string_eq, ==_refl, if◌then◌else◌, Bool-cases,
}
use shopsystem_kb.Base.Lists.{any}

instance unfoldable pub char_eq : Eq Char
unfolding ℕ_discrete
char_eq = record {
  dec = λ c d.
      dite (ℕ_discrete (code c) (code d)) (λ e. yes (Char-path c d e))
        (λ n. no (λ p. n (ap code p)));
}

-- `c in s`
unfoldable pub holds_char : Char → String → Bool
holds_char c nil = false
holds_char c (d ◂ s) = c == d || holds_char c s

-- The rest of the second text after the first; none when it does not start with it.
unfoldable pub after : String → String → Option String
after nil s = some s
after (c ◂ p) nil = none
after (c ◂ p) (d ◂ s) = let rest = after p s in if c == d then rest else none

-- `s.startswith(p)`
unfoldable pub starts_with : String → String → Bool
unfolding after
starts_with s p = elim (after p s) [ none ↦ false | some _ ↦ true ]

-- `s.removeprefix(p)`
unfoldable pub remove_prefix : String → String → String
unfolding after
remove_prefix s p = elim (after p s) [ none ↦ s | some rest ↦ rest ]

-- The part of a text before a suffix; none when the text does not end with it.
unfoldable pub before : String → String → Option String
before suffix nil = if suffix == nil then some nil else none
before suffix (c ◂ s) =
    let rest = before suffix s in
    if suffix == c ◂ s then some nil else elim rest [ none ↦ none | some t ↦ some (c ◂ t) ]

abbrev put_first : Char → List String → List String
put_first c [] = (c ◂ nil) ∷ []
put_first c (p ∷ ps) = (c ◂ p) ∷ ps

-- `s.split(c)`
unfoldable pub split : Char → String → List String
split c nil = nil ∷ []
split c (d ◂ s) = let rest = split c s in if c == d then nil ∷ rest else put_first d rest

-- `c.join(parts)`
unfoldable pub join : Char → List String → String
join c [] = nil
join c (p ∷ []) = p
join c (p ∷ q ∷ ps) = p <> (c ◂ join c (q ∷ ps))

-- `s.partition(c)`: what stands before the first `c`, whether there is one, and what follows it.
unfoldable pub partition : Char → String → String × Bool × String
partition c nil = (nil, false, nil)
partition c (d ◂ s) =
    let (head, found, rest) = partition c s in
    if c == d then (nil, true, s) else (d ◂ head, found, rest)

-- `s <= t`, by code points.
abbrev pub text_le : String → String → Bool
text_le s t = is_le (compare s t)

-- `s <= t` on tuples of texts.
unfoldable pub texts_le : List String → List String → Bool
texts_le [] ts = true
texts_le (s ∷ ss) [] = false
texts_le (s ∷ ss) (t ∷ ts) = let rest = texts_le ss ts in if s == t then rest else text_le s t

pub after-append : (p s : String) → after p (p <> s) ≡ some s
unfolding after
after-append nil s = rw nil-append
after-append (c ◂ p) s = rw cons-append (ground (arith, after-append p s))

pub append_of_after : (p s r : String) → after p s ≡ some r → s ≡ p <> r
unfolding after
append_of_after nil s r h = rw nil-append (ground arith)
append_of_after (c ◂ p) nil r h = cc
append_of_after (c ◂ p) (d ◂ s) r h = rw cons-append (ground (arith, append_of_after p s r))

pub split-ne-nil :
    (c : Char) (s : String) → (p : String) × (ps : List String) × (split c s ≡ p ∷ ps)
unfolding split
split-ne-nil c nil = (nil, [], refl)
split-ne-nil c (d ◂ s) = elim (Bool-cases (c == d)) [
  | inl e ↦ (nil, split c s, rw e)
  | inr n ↦ let (p, ps, e) = split-ne-nil c s in (d ◂ p, ps, rw (n, e))
]

join-put_first :
    (c d : Char) (p : String) (ps : List String)
    → join c (put_first d (p ∷ ps)) ≡ d ◂ join c (p ∷ ps)
unfolding join
join-put_first c d p [] = refl
join-put_first c d p (q ∷ ps) = rw cons-append

pub join-split : (c : Char) (s : String) → join c (split c s) ≡ s
unfolding join split
join-split c nil = refl
join-split c (d ◂ s) =
    let (p, ps, e) = split-ne-nil c s in
    let ih = join-split c s in
    elim (Bool-cases (c == d)) [
      | inl same ↦ rw (same, e) (rw nil-append (cc (ih, e, (==_iff c d).0 same)))
      | inr other ↦
          rw (other, e) (join-put_first c d p ps ∙ ap (λ t. d ◂ t) (ap (join c) (sym e) ∙ ih))
    ]

pub split-join_one : (c : Char) (s : String) → holds_char c s ≡ false → split c s ≡ s ∷ []
unfolding split holds_char
split-join_one c nil h = refl
split-join_one c (d ◂ s) h = ground (arith, split-join_one c s)

pub split-append :
    (c : Char) (s t : String) → holds_char c s ≡ false → split c (s <> (c ◂ t)) ≡ s ∷ split c t
unfolding split holds_char
split-append c nil t h = rw nil-append (ground arith)
split-append c (d ◂ s) t h = rw cons-append (ground (arith, split-append c s t))

put_first-append :
    (d : Char) (p : String) (ps qs : List String)
    → put_first d ((p ∷ ps) ++ qs) ≡ put_first d (p ∷ ps) ++ qs
put_first-append d p ps qs = refl

-- A text that goes on after a separator splits into the parts of both.
pub split-append_both : (c : Char) (s t : String) → split c (s <> (c ◂ t)) ≡ split c s ++ split c t
unfolding split
split-append_both c nil t = rw nil-append (ground arith)
split-append_both c (d ◂ s) t =
    let (p, ps, e) = split-ne-nil c s in
    rw (cons-append, split, split-append_both c s t) (ground (arith, e))

pub partition-none :
    (c : Char) (s : String) → holds_char c s ≡ false → partition c s ≡ (s, false, nil)
unfolding partition holds_char
partition-none c nil h = refl
partition-none c (d ◂ s) h = ground (arith, partition-none c s)

pub partition-append :
    (c : Char) (s t : String) → holds_char c s ≡ false → partition c (s <> (c ◂ t)) ≡ (s, true, t)
unfolding partition holds_char
partition-append c nil t h = rw nil-append (ground arith)
partition-append c (d ◂ s) t h = rw cons-append (ground (arith, partition-append c s t))

before_self : (t : String) → before t t ≡ some nil
unfolding before
before_self nil = rw (==_refl nil)
before_self (c ◂ s) = rw (==_refl (c ◂ s))

before-cons :
    (suffix : String) (c : Char) (s t : String)
    → (suffix == c ◂ s) ≡ false
    → before suffix s ≡ some t
    → before suffix (c ◂ s) ≡ some (c ◂ t)
unfolding before
before-cons suffix c s t n h = rw (n, h)

pub before-append : (suffix s : String) → before suffix (s <> suffix) ≡ some s
before-append suffix nil = rw nil-append (before_self suffix)
before-append suffix (c ◂ s) = rw cons-append (
    before-cons suffix c (s <> suffix) s (==_ne suffix (c ◂ (s <> suffix)) too_long)
      (before-append suffix s))
  where
    too_long : suffix ≡ c ◂ (s <> suffix) → ⊥
    too_long e =
        let e' = ap count e in
        omega (arith, e', length-cons c (s <> suffix), length-append s suffix)

pub append_of_before : (suffix s t : String) → before suffix s ≡ some t → s ≡ t <> suffix
unfolding before
append_of_before suffix nil t h = elim (Bool-cases (suffix == nil)) [
  | inl e ↦ let e' = (==_iff suffix nil).0 e in cc (rw e at h, e', nil-append suffix)
  | inr n ↦ cc (rw n at h)
]
append_of_before suffix (c ◂ s) t h = ground (
  arith,
  nil-append suffix,
  cons-append c (get_or (before suffix s) nil) suffix,
  append_of_before suffix s (get_or (before suffix s) nil),
)

pub holds_char-append :
    (c : Char) (s t : String) → holds_char c (s <> t) ≡ (holds_char c s || holds_char c t)
unfolding holds_char
holds_char-append c nil t = rw nil-append
holds_char-append c (d ◂ s) t = rw cons-append (ground (arith, holds_char-append c s t))

-- A character that no part holds, and that does not join them, is in no joined text.
pub holds_char-join :
    (c d : Char) (ps : List String)
    → (c == d) ≡ false
    → any (holds_char c) ps ≡ false
    → holds_char c (join d ps) ≡ false
unfolding join holds_char
holds_char-join c d [] n h = refl
holds_char-join c d (p ∷ []) n h = ground arith
holds_char-join c d (p ∷ q ∷ ps) n h =
    rw (holds_char-append c p (d ◂ join d (q ∷ ps))) (ground (arith, holds_char-join c d (q ∷ ps)))

-- Parts that do not hold the separator are given back by the split.
pub split-join :
    (c : Char) (p : String) (ps : List String)
    → any (holds_char c) (p ∷ ps) ≡ false
    → split c (join c (p ∷ ps)) ≡ p ∷ ps
unfolding join
split-join c p [] h = split-join_one c p (ground arith)
split-join c p (q ∷ ps) h =
    split-append c p (join c (q ∷ ps)) (ground arith)
    ∙ ap (λ l. p ∷ l) (split-join c q ps (ground arith))
