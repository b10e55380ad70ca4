-- ===== src/Names.antt =====
-- src/kb/names.py: kb's IRI grammar, the IRIs one sits under, a type version's IRI, the place that
-- an export gives an artifact, and links and places as they are written. A regular expression is a
-- scan of the text by the automaton that it describes; `fullmatch` is a scan to the text's end.
pub mod Grammar
pub mod Below
pub mod Filing
pub mod Written
use Prim.Native.Char.{Char, code}
use Prim.Native.String.{[] as nil, ◌∷◌ as ◌◂◌, count}
use shopsystem_kb.Base.{
  ℕ, zero, suc, ◌-◌, ◌≤◌, String, ◌<>◌, Bool, true, false, not, ◌&&◌, ◌||◌, Option, none, some,
  List, [], ◌∷◌, ◌++◌, map, ◌==◌, string_eq, nat_eq, leb, ltb, length, all, if◌then◌else◌,
}
use shopsystem_kb.Base.Texts.{
  char_eq, after, starts_with, remove_prefix, before, split, join, partition, texts_le,
}
use shopsystem_kb.Base.Decimal.{decimal, int_from, digits_only}

abbrev pub longest : ℕ
longest = 512

abbrev pub scheme : String
scheme = "https://"

abbrev pub file : String
file = ".yaml"

abbrev pub types : String
types = "https://missingmass.io/kb/type"

abbrev pub type_uri : String
type_uri = "kb:"

-- A character of `[a-z0-9]`.
abbrev pub is_alnum : Char → Bool
is_alnum c = leb b'a' (code c) && leb (code c) b'z' || leb b'0' (code c) && leb (code c) b'9'

-- Runs of `[a-z0-9]+`, each two joined by one of the characters that `joins` takes. The flag says
-- whether the scan stands in a run.
unfoldable pub runs : (Char → Bool) → Bool → String → Bool
runs joins within nil = within
runs joins within (c ◂ s) =
    let inside = runs joins true s in
    let opened = runs joins false s in
    if is_alnum c then inside else if within && joins c then opened else false

abbrev pub is_hyphen : Char → Bool
is_hyphen c = c == "-"

abbrev pub is_joint : Char → Bool
is_joint c = c == "-" || c == "."

-- `PLAIN.fullmatch`
unfoldable pub plain : String → Bool
unfolding runs char_eq
plain text = runs is_hyphen false text

-- `SEGMENT.fullmatch`
unfoldable pub dotted : String → Bool
unfolding runs char_eq
dotted text = runs is_joint false text

-- The path of an IRI after its scheme: a host and one segment or more, each after its slash.
unfoldable pub hosted : List String → Bool
unfolding dotted
hosted [] = false
hosted (host ∷ []) = false
hosted (host ∷ segment ∷ segments) = dotted host && all dotted (segment ∷ segments)

-- `IRI.fullmatch`
unfoldable pub is_iri : String → Bool
unfolding after split hosted
is_iri text = elim (after scheme text) [ none ↦ false | some rest ↦ hosted (split "/" rest) ]

-- `iri`
unfoldable pub iri : String → Bool
unfolding is_iri
iri text = leb (count text) longest && is_iri text

abbrev first_rest : List String → String × List String
first_rest [] = ("", [])
first_rest (host ∷ segments) = (host, segments)

-- `split`: the host and the segments.
unfoldable pub split_iri : String → String × List String
unfolding remove_prefix split
split_iri text = first_rest (split "/" (remove_prefix text scheme))

abbrev pub take : ℕ → List String → List String
take zero xs = []
take (suc n) [] = []
take (suc n) (x ∷ xs) = x ∷ take n xs

-- `range(n, 0, -1)`
abbrev pub down_from : ℕ → List ℕ
down_from zero = []
down_from (suc n) = suc n ∷ down_from n

unfoldable pub above : String → List String
unfolding split_iri join
above text =
    let (host, segments) = split_iri text in
    map (λ n. scheme <> join "/" (host ∷ take n segments)) (down_from (length segments - 1))

unfoldable pub below : String → String → Option (List String)
unfolding after split
below text type_iri = elim (after (type_iri <> "/") text) [
  | none ↦ none
  | some rest ↦ some (split "/" rest)
]

-- `found[:len(segments)] == segments`
unfoldable pub begins : List String → List String → Bool
begins [] found = true
begins (s ∷ ss) [] = false
begins (s ∷ ss) (t ∷ ts) = s == t && begins ss ts

unfoldable pub selects : List String → String → String → Bool
unfolding below begins
selects segments text type_iri = elim (below text type_iri) [
  | none ↦ false
  | some found ↦ begins segments found
]

unfoldable pub path : String → Option (List String)
unfolding split dotted
path text = let segments = split "/" text in if all dotted segments then some segments else none

-- `VERSION.fullmatch` reads the number, `[1-9][0-9]*`.
unfoldable pub version_number : String → Option ℕ
unfolding int_from digits_only
version_number nil = none
version_number (c ◂ s) =
    if leb b'1' (code c) && digits_only (c ◂ s) then some (int_from 0 (c ◂ s)) else none

-- `version`: the type's IRI and the number. The only `@` of a match stands before the number, since
-- neither part holds one.
unfoldable pub version : String → Option (String × ℕ)
unfolding partition version_number iri
version text =
    let (name, found, number) = partition "@" text in
    if not found || not (iri name) || ltb longest (count text)
    then none
    else elim (version_number number) [ none ↦ none | some n ↦ some (name, n) ]

unfoldable pub versioned : String → ℕ → String
unfolding decimal
versioned type_iri number = type_iri <> ("@" <> decimal number)

-- The segments but the last, and the last.
abbrev pub last_of : String → List String → List String × String
last_of s [] = ([], s)
last_of s (t ∷ ts) = let (firsts, last) = last_of t ts in (s ∷ firsts, last)

abbrev last_written : String → Option ℕ → String
last_written last none = last <> file
last_written last (some n) = versioned last n <> file

abbrev placed_below : String → List String × String → Option ℕ → List String
placed_below host (firsts, last) number = host ∷ (firsts ++ (last_written last number ∷ []))

-- An IRI with no segment, which none of the grammar is, has no place.
abbrev place_of : String × List String → Option ℕ → List String
place_of (host, []) number = []
place_of (host, s ∷ ss) number = placed_below host (last_of s ss) number

-- `place`: the steps of the place that the export layout gives an artifact.
unfoldable pub place : String → Option ℕ → List String
unfolding split_iri versioned
place text number = place_of (split_iri text) number

unfoldable pub placing : String → Option ℕ → String
unfolding place join
placing text number = join "/" (place text number)

-- `order`, as the test that one IRI stands no later than another.
unfoldable pub order_le : String → String → Bool
unfolding place texts_le
order_le a b = texts_le (place a none) (place b none)

abbrev filed_as : String → Option (String × Option ℕ)
filed_as written = elim (version written) [
  | some (name, n) ↦ some (name, some n)
  | none ↦ if iri written then some (written, none) else none
]

abbrev filed_last : String → List String × String → Option (String × Option ℕ)
filed_last host (firsts, last) = elim (before file last) [
  | none ↦ none
  | some stem ↦ filed_as (scheme <> join "/" (host ∷ (firsts ++ (stem ∷ []))))
]

-- `filed`: the IRI and the version's number that a file's place gives.
unfoldable pub filed : List String → Option (String × Option ℕ)
unfolding version iri before join
filed [] = none
filed (host ∷ []) = none
filed (host ∷ s ∷ ss) = filed_last host (last_of s ss)

unfoldable pub linked : String → String × String
unfolding partition
linked text = let (name, found, place) = partition "#" text in (name, place)

unfoldable pub pointing : String → String → String
pointing name place = if place == "" then name else name <> ("#" <> place)

unfoldable pub placed : List String → String
unfolding join
placed steps = join "/" steps

unfoldable pub steps : String → List String
unfolding split
steps text = if text == "" then [] else split "/" text

-- `referred`: the version's IRI of a `kb:` reference, and what follows it from `#` on.
unfoldable pub referred : String → Option (String × String)
unfolding after partition
referred ref = elim (after type_uri ref) [
  | none ↦ none
  | some rest ↦
      let (name, found, fragment) = partition "#" rest in
      some (name, if found then "#" <> fragment else "")
]
