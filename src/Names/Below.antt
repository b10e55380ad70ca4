-- ===== src/Names/Below.antt =====
-- The IRIs that an IRI sits under, and its path below them.
use Prim.Native.Char.{Char}
use Prim.Native.String.{[] as nil, ◌∷◌ as ◌◂◌}
use text.Mathlib.TextLemmas.{nil-append, cons-append, append_assoc, append_cancel_left}
use mathlib.Core.Path.{subst, ap₂}
use shopsystem_kb.Base.{
  ℕ, zero, suc, ◌<◌, ◌≤◌, String, ◌<>◌, ◌≡◌, refl, sym, ap, ◌∙◌, ◌-◌, true, some, List, [], ◌∷◌,
  ◌++◌, length, ==_refl, string_eq, arith, Bool, In, ◌+◌, all, map, In-map, inl, inr, Option-cases,
  In-map_of,
}
use shopsystem_kb.Base.Texts.{
  char_eq, after, split, join, after-append, split-join, split-append_both, split-ne-nil,
  append_of_after,
}
use shopsystem_kb.Names.{scheme, take, below, begins, above, is_iri, dotted, down_from}
use shopsystem_kb.Names.Grammar.{
  Parts, Outside, is_iri-Parts, is_iri_of_parts, all-dotted-Outside, split_iri-Parts,
}

abbrev drop : ℕ → List String → List String
drop zero xs = xs
drop (suc n) [] = []
drop (suc n) (x ∷ xs) = drop n xs

-- The rest of a path after its first parts, which leaves at least one out.
join-take :
    (c : Char) (p : String) (ps : List String) (n : ℕ)
    → n < length ps
    → join c (p ∷ ps) ≡ (join c (p ∷ take n ps) <> (c ◂ join c (drop n ps)))
unfolding join
join-take c p [] n h = absurd (omega arith)
join-take c p (q ∷ ps) zero h = refl
join-take c p (q ∷ ps) (suc n) h =
    rw
      (
        join-take c q ps n (omega arith),
        append_assoc p (c ◂ join c (q ∷ take n ps)) (c ◂ join c (drop n ps)),
        cons-append,
      )
      refl

slash : (s t : String) → (s <> "/") <> t ≡ s <> ("/" ◂ t)
slash s t =
    append_assoc s "/" t
    ∙ ap (λ r. s <> r) (cons-append "/" nil t ∙ ap (λ r. "/" ◂ r) (nil-append t))

-- The path below an IRI of a text that goes on from it with a slash is what follows, split.
pub below-append : (u rest : String) → below (u <> ("/" ◂ rest)) u ≡ some (split "/" rest)
unfolding below
below-append u rest =
    below_of (u <> ("/" ◂ rest)) u rest
      (ap (after (u <> "/")) (sym (slash u rest)) ∙ after-append (u <> "/") rest)
  where
    below_of :
        (text u rest : String)
        → after (u <> "/") text ≡ some rest
        → below text u ≡ some (split "/" rest)
    below_of text u rest e = rw (e, below)

-- Begins: a list begins with its own first part.
pub begins-append : (ss ts : List String) → begins ss (ss ++ ts) ≡ true
unfolding begins
begins-append [] ts = refl
begins-append (s ∷ ss) ts = rw (==_refl s, begins-append ss ts)

pub append_of_begins :
    (ss found : List String) → begins ss found ≡ true → (ts : List String) × (found ≡ ss ++ ts)
unfolding begins
append_of_begins [] found h = (found, refl)
append_of_begins (s ∷ ss) [] h = absurd (cc)
append_of_begins (s ∷ ss) (t ∷ ts) h =
    let (rest, e) = append_of_begins ss ts (ground arith) in (rest, ground arith)

In-down_from : (n m : ℕ) → In n (down_from m) → (0 < n) × (n ≤ m)
In-down_from n zero h = absurd h.1
In-down_from n (suc m) (inl e) = omega arith
In-down_from n (suc m) (inr h) = omega (arith, In-down_from n m h)

In-down_from_of : (n m : ℕ) → 0 < n → n ≤ m → In n (down_from m)
In-down_from_of n zero h k = absurd (omega arith)
In-down_from_of n (suc m) h k = ground (arith, In-down_from_of n m)

Outside-slash : Outside "/"
unfolding char_eq
Outside-slash = (refl, refl)

all-take :
    (d : String → Bool) (n : ℕ) (ps : List String) → all d ps ≡ true → all d (take n ps) ≡ true
all-take d zero ps h = refl
all-take d (suc n) [] h = refl
all-take d (suc n) (p ∷ ps) h = ground (arith, all-take d n ps)

take-append_length : (xs ys : List String) → take (length xs) (xs ++ ys) ≡ xs
take-append_length [] ys = refl
take-append_length (x ∷ xs) ys = ap (λ l. x ∷ l) (take-append_length xs ys)

length-append : (xs ys : List String) → length (xs ++ ys) ≡ length xs + length ys
length-append [] ys = omega arith
length-append (x ∷ xs) ys = omega (arith, length-append xs ys)

module _ (t : String) (p : Parts t) where
  abbrev upper : ℕ → String
  upper n = scheme <> join "/" (p.host ∷ take n (p.segment ∷ p.segments))

  above-Parts : above t ≡ map upper (down_from (length p.segments))
  unfolding above
  above-Parts =
      ap
        (λ (q : String × List String).
          map (λ n. scheme <> join "/" (q.0 ∷ take n q.1)) (down_from (length q.1 - 1)))
        (split_iri-Parts t p)
      ∙ ap (λ n. map upper (down_from n)) (omega arith)

  -- An IRI made of the host and of some segments is of the grammar.
  upper-is_iri : (n : ℕ) → 0 < n → is_iri (upper n) ≡ true
  upper-is_iri zero h = absurd (omega arith)
  upper-is_iri (suc n) h =
      let parts = p.host ∷ p.segment ∷ take n p.segments in
      let good = all-take dotted n p.segments in
      let good' : all dotted parts ≡ true = ground (arith, p.all_lem, good) in
      is_iri_of_parts p.host p.segment (take n p.segments)
        (split-join "/" p.host (p.segment ∷ take n p.segments)
          (all-dotted-Outside "/" parts (Outside-slash) good'))
        good'

  -- Each count of segments that leaves one out gives an IRI that the text goes on from.
  above_at :
      (n : ℕ)
      → 0 < n
      → n ≤ length p.segments
      → below t (scheme <> join "/" (p.host ∷ take n (p.segment ∷ p.segments)))
        ≡ some (split "/" (join "/" (drop n (p.segment ∷ p.segments))))
  above_at n pos h =
      let u = scheme <> join "/" (p.host ∷ take n (p.segment ∷ p.segments)) in
      let rest = join "/" (drop n (p.segment ∷ p.segments)) in
      subst (λ text. below text u ≡ some (split "/" rest)) (sym goes_on) (below-append u rest)
    where
      goes_on :
          t
          ≡ (scheme <> join "/" (p.host ∷ take n (p.segment ∷ p.segments)))
            <> ("/" ◂ join "/" (drop n (p.segment ∷ p.segments)))
      goes_on =
          p.text_lem
          ∙ ap (λ s. scheme <> s) (join-take "/" p.host (p.segment ∷ p.segments) n (omega arith))
          ∙ sym (append_assoc scheme _ _)

-- Every IRI above an IRI of the grammar is one of the grammar that it sits under.
pub above-below :
    (t u : String)
    → is_iri t ≡ true
    → In u (above t)
    → (is_iri u ≡ true) × ((rest : List String) × (below t u ≡ some rest))
above-below t u h m =
    let p = is_iri-Parts t h in
    let (n, inside, e) =
      In-map (upper t p) u (down_from (length p.segments)) (rw (above-Parts t p) at m) in
    let (pos, small) = In-down_from n (length p.segments) inside in
    (
      rw e (upper-is_iri t p n pos),
      (split "/" (join "/" (drop n (p.segment ∷ p.segments))), rw e (above_at t p n pos small)),
    )

append_of_below :
    (t u : String) (rest : List String)
    → below t u ≡ some rest
    → (r : String) × (t ≡ u <> ("/" ◂ r))
unfolding below
append_of_below t u rest h = elim (Option-cases (after (u <> "/") t)) [
  | inl e ↦ absurd (cc (rw (e, below) at h))
  | inr (r, e) ↦ (r, append_of_after (u <> "/") t r e ∙ slash u r)
]

-- The parts of a text that goes on from an IRI are the IRI's and those of the rest.
parts_of_upper :
    (t u r : String) (p : Parts t) (q : Parts u)
    → t ≡ u <> ("/" ◂ r)
    → (p.host ≡ q.host) × (p.segment ∷ p.segments ≡ (q.segment ∷ q.segments) ++ split "/" r)
parts_of_upper t u r p q e =
    let ps = p.host ∷ p.segment ∷ p.segments in
    let qs = q.host ∷ q.segment ∷ q.segments in
    let joined : join "/" ps ≡ join "/" qs <> ("/" ◂ r) =
      append_cancel_left scheme (join "/" ps) (join "/" qs <> ("/" ◂ r)) (
        sym p.text_lem
        ∙ e
        ∙ ap (λ s. s <> ("/" ◂ r)) q.text_lem
        ∙ append_assoc scheme (join "/" qs) ("/" ◂ r)) in
    let all_parts : ps ≡ qs ++ split "/" r =
      sym p.split_lem
      ∙ ap (split "/") joined
      ∙ split-append_both "/" (join "/" qs) r
      ∙ ap (λ l. l ++ split "/" r) q.split_lem in
    (ground (arith, all_parts), ground (arith, all_parts))

upper_eq :
    (t u r : String) (p : Parts t) (q : Parts u)
    → p.host ≡ q.host
    → p.segment ∷ p.segments ≡ (q.segment ∷ q.segments) ++ split "/" r
    → u ≡ upper t p (length (q.segment ∷ q.segments))
upper_eq t u r p q heads tails =
    q.text_lem
    ∙ ap₂ (λ h l. scheme <> join "/" (h ∷ l)) (sym heads)
        (sym (
          ap (take (length (q.segment ∷ q.segments))) tails
          ∙ take-append_length (q.segment ∷ q.segments) (split "/" r)))

-- And every IRI of the grammar that it sits under is above it.
pub below-above :
    (t u : String) (rest : List String)
    → is_iri t ≡ true
    → is_iri u ≡ true
    → below t u ≡ some rest
    → In u (above t)
below-above t u rest ht hu b =
    let p = is_iri-Parts t ht in
    let q = is_iri-Parts u hu in
    let (r, e) = append_of_below t u rest b in
    let (heads, tails) = parts_of_upper t u r p q e in
    let n = length (q.segment ∷ q.segments) in
    let (more, mores, some_part) = split-ne-nil "/" r in
    let counted = ap length tails ∙ length-append (q.segment ∷ q.segments) (split "/" r) in
    let longer = ap length some_part in
    rw (above-Parts t p) (
      subst (λ x. In x (map (upper t p) (down_from (length p.segments))))
        (sym (upper_eq t u r p q heads tails))
        (In-map_of (upper t p) n (down_from (length p.segments))
          (In-down_from_of n (length p.segments) (omega arith) (omega arith))))
