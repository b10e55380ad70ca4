-- ===== src/Names/Filing.antt =====
-- Places of the export layout: `filed` and `place` undo one another.
use Prim.Native.Char.{Char}
use Prim.Native.String.{[] as nil, ◌∷◌ as ◌◂◌, count}
use text.Mathlib.TextLemmas.{nil-append, cons-append, append_assoc}
use shopsystem_kb.Base.{
  ℕ, ◌<◌, ◌≤◌, String, ◌<>◌, ◌≡◌, refl, sym, ap, ◌∙◌, true, false, Option, none, some, List, [],
  ◌∷◌, ◌++◌, string_eq, arith,
}
use shopsystem_kb.Base.Texts.{
  char_eq, holds_char, join, partition, before-append, partition-none, partition-append,
}
use shopsystem_kb.Base.Decimal.{decimal, decimal-cons, int_from-decimal, digits_only-decimal}
use shopsystem_kb.Names.{
  is_iri, iri, scheme, file, longest, version, version_number, versioned, last_of, place, place_of,
  filed, filed_last, filed_as, last_written,
}
use shopsystem_kb.Names.Grammar.{Parts, split_iri-Parts, is_iri-Parts, is_iri-Outside}

last_of-append :
    (s : String) (ss : List String) → (last_of s ss).0 ++ (last_of s ss).1 ∷ [] ≡ s ∷ ss
last_of-append s [] = refl
last_of-append s (t ∷ ts) = ap (λ l. s ∷ l) (last_of-append t ts)

pub last_of-snoc :
    (s : String) (ss : List String) (x : String) → last_of s (ss ++ x ∷ []) ≡ (s ∷ ss, x)
last_of-snoc s [] x = refl
last_of-snoc s (t ∷ ts) x = rw (last_of-snoc t ts x)

filed-snoc :
    (host : String) (ss : List String) (x : String)
    → filed (host ∷ (ss ++ x ∷ [])) ≡ filed_last host (ss, x)
unfolding filed
filed-snoc host [] x = refl
filed-snoc host (s ∷ ss) x = rw (last_of-snoc s ss x)

-- A text added to the last part is added to the joined text.
join-snoc :
    (c : Char) (p : String) (ps : List String) (x y : String)
    → join c (p ∷ (ps ++ (x <> y) ∷ [])) ≡ join c (p ∷ (ps ++ x ∷ [])) <> y
unfolding join
join-snoc c p [] x y = rw (append_assoc p (c ◂ x) y, cons-append)
join-snoc c p (q ∷ ps) x y =
    rw (join-snoc c q ps x y, append_assoc p (c ◂ join c (q ∷ (ps ++ x ∷ []))) y, cons-append)

at_sign : (s : String) → "@" <> s ≡ ("@" ◂ s)
at_sign s = cons-append "@" nil s ∙ ap (λ t. "@" ◂ t) (nil-append s)

version_number-decimal : (n : ℕ) → 0 < n → version_number (decimal n) ≡ some n
version_number-decimal n h =
    let (c, s, e, one) = decimal-cons n h in
    let digits = rw e at (digits_only-decimal n) in
    let value = rw e at (int_from-decimal n) in
    rw e (unfold version_number in rw (one, digits, value))

iri-is_iri : (t : String) → iri t ≡ true → is_iri t ≡ true
unfolding iri
iri-is_iri t h = ground arith

no_at : (t : String) → iri t ≡ true → holds_char "@" t ≡ false
unfolding holds_char char_eq
no_at t h = is_iri-Outside "@" t (refl, refl) refl refl (iri-is_iri t h)

versioned_lem : (t : String) (n : ℕ) → versioned t n ≡ t <> ("@" ◂ decimal n)
unfolding versioned
versioned_lem t n = ap (λ s. t <> s) (at_sign (decimal n))

version_of :
    (text name number : String) (n : ℕ)
    → partition "@" text ≡ (name, true, number)
    → iri name ≡ true
    → version_number number ≡ some n
    → count text ≤ longest
    → version text ≡ some (name, n)
unfolding version
version_of text name number n e h v short = rw (e, h, v) (ground arith)

filed_as-iri : (t : String) → version t ≡ none → iri t ≡ true → filed_as t ≡ some (t, none)
filed_as-iri t v h = rw (filed_as, v, h)

-- A version's IRI reads back as its type's IRI and its number.
pub version-versioned :
    (t : String) (n : ℕ)
    → iri t ≡ true
    → 0 < n
    → count (versioned t n) ≤ longest
    → version (versioned t n) ≡ some (t, n)
version-versioned t n h p short =
    version_of (versioned t n) t (decimal n) n
      (ap (partition "@") (versioned_lem t n) ∙ partition-append "@" t (decimal n) (no_at t h)) h
      (version_number-decimal n p) short

-- No IRI of an artifact is a version's.
pub version-iri : (t : String) → iri t ≡ true → version t ≡ none
unfolding version
version-iri t h = rw (partition-none "@" t (no_at t h))

filed_last-written :
    (host : String) (firsts : List String) (stem : String)
    → filed_last host (firsts, stem <> file)
      ≡ filed_as (scheme <> join "/" (host ∷ (firsts ++ stem ∷ [])))
filed_last-written host firsts stem = rw (before-append file stem, filed_last)

placed_parts :
    (t host s : String) (ss : List String)
    → t ≡ scheme <> join "/" (host ∷ s ∷ ss)
    → scheme <> join "/" (host ∷ ((last_of s ss).0 ++ (last_of s ss).1 ∷ [])) ≡ t
placed_parts t host s ss e = rw (last_of-append s ss) (sym e)

place-Parts :
    (t : String) (number : Option ℕ) (p : Parts t)
    → place t number
      ≡ p.host
        ∷ ((last_of p.segment p.segments).0
            ++ last_written (last_of p.segment p.segments).1 number ∷ [])
unfolding place
place-Parts t number p = ap (λ q. place_of q number) (split_iri-Parts t p)

-- An artifact's place is read back as its IRI.
pub filed-place : (t : String) → iri t ≡ true → filed (place t none) ≡ some (t, none)
filed-place t h =
    let p = is_iri-Parts t (iri-is_iri t h) in
    let (firsts, last) = last_of p.segment p.segments in
    ap filed (place-Parts t none p)
    ∙ filed-snoc p.host firsts (last <> file)
    ∙ filed_last-written p.host firsts last
    ∙ ap filed_as (placed_parts t p.host p.segment p.segments p.text_lem)
    ∙ filed_as-iri t (version-iri t h) h

-- A type version's place is read back as its type's IRI and its number.
pub filed-place_version :
    (t : String) (n : ℕ)
    → iri t ≡ true
    → 0 < n
    → count (versioned t n) ≤ longest
    → filed (place t (some n)) ≡ some (t, some n)
filed-place_version t n h pos short =
    let p = is_iri-Parts t (iri-is_iri t h) in
    let (firsts, last) = last_of p.segment p.segments in
    ap filed (place-Parts t (some n) p)
    ∙ filed-snoc p.host firsts (versioned last n <> file)
    ∙ filed_last-written p.host firsts (versioned last n)
    ∙ ap filed_as (written p)
    ∙ rw (filed_as, version-versioned t n h pos short)
  where
    written :
        (p : Parts t)
        → scheme
            <> join "/" (
                p.host
                ∷ ((last_of p.segment p.segments).0
                    ++ versioned (last_of p.segment p.segments).1 n ∷ []))
          ≡ versioned t n
    written p =
        let (firsts, last) = last_of p.segment p.segments in
        rw
          (
            versioned_lem last n,
            join-snoc "/" p.host firsts last ("@" ◂ decimal n),
            ← append_assoc scheme (join "/" (p.host ∷ (firsts ++ last ∷ []))) ("@" ◂ decimal n),
            placed_parts t p.host p.segment p.segments p.text_lem,
            versioned_lem t n,
          )
          refl
