-- ===== src/Names/Written.antt =====
-- Links and places as they are written, and read back.
use Prim.Native.Char.{Char}
use Prim.Native.String.{[] as nil, ◌∷◌ as ◌◂◌}
use text.Mathlib.TextLemmas.{nil-append, cons-append, append-eq-nil_iff}
use shopsystem_kb.Base.{
  String, ◌<>◌, ◌≡◌, refl, sym, ap, ◌∙◌, Bool, true, false, ◌||◌, List, [], ◌∷◌, ◌==◌, ==_ne,
  ==_iff, ==_refl, string_eq, inl, inr, all, any, arith, Bool-cases,
}
use shopsystem_kb.Base.Texts.{
  char_eq, holds_char, join, partition-none, partition-append, split-join,
}
use shopsystem_kb.Names.{is_alnum, is_hyphen, runs, plain, linked, pointing, placed, steps}

-- A place that no part of is empty or holds a slash.
abbrev pub IsWritable : List String → Type 0
IsWritable ps = any (λ p. p == "" || holds_char "/" p) ps ≡ false

hash_sign : (s : String) → "#" <> s ≡ ("#" ◂ s)
hash_sign s = cons-append "#" nil s ∙ ap (λ t. "#" ◂ t) (nil-append s)

runs-Outside :
    (c : Char) (within : Bool) (s : String)
    → is_alnum c ≡ false
    → is_hyphen c ≡ false
    → runs is_hyphen within s ≡ true
    → holds_char c s ≡ false
unfolding runs holds_char
runs-Outside c within nil a b h = refl
runs-Outside c within (d ◂ s) a b h = ground (arith, runs-Outside c true s, runs-Outside c false s)

plain-ne-nil : (p : String) → plain p ≡ true → (p == "") ≡ false
unfolding plain
plain-ne-nil p h = ==_ne p "" (λ e. cc (e, h, no_empty))
  where
    no_empty : plain "" ≡ false
    no_empty = refl

-- Plain names make a writable place.
pub plain-IsWritable : (ps : List String) → all plain ps ≡ true → IsWritable ps
unfolding plain
plain-IsWritable [] h = refl
plain-IsWritable (p ∷ ps) h =
    ground (arith, runs-Outside "/" false p, plain-ne-nil p, plain-IsWritable ps)

join-ne-nil :
    (p : String) (ps : List String) → (p == "") ≡ false → (join "/" (p ∷ ps) == "") ≡ false
unfolding join
join-ne-nil p ps h = ==_ne (join "/" (p ∷ ps)) "" (not_empty p ps (λ e. cc (h, (==_iff p "").1 e)))
  where
    not_empty : (p : String) (ps : List String) → (p ≡ "" → ⊥) → join "/" (p ∷ ps) ≡ "" → ⊥
    not_empty p [] n e = n e
    not_empty p (q ∷ ps) n e = n ((append-eq-nil_iff.0 e).0)

-- A place that is written reads back as its steps.
pub steps-placed : (ps : List String) → IsWritable ps → steps (placed ps) ≡ ps
unfolding steps placed
steps-placed [] h = rw (==_refl {A = String} "")
steps-placed (p ∷ ps) h =
    rw (join-ne-nil p ps (ground arith)) (split-join "/" p ps (no_slash (p ∷ ps) h))
  where
    no_slash : (l : List String) → IsWritable l → any (holds_char "/") l ≡ false
    no_slash [] h = refl
    no_slash (p ∷ ps) h = ground (arith, no_slash ps)

-- A link that is written reads back as the name and the place it was written from.
pub linked-pointing :
    (name place : String)
    → holds_char "#" name ≡ false
    → linked (pointing name place) ≡ (name, place)
unfolding linked pointing
linked-pointing name place h = elim (Bool-cases (place == "")) [
  | inl e ↦
      rw (e, linked, partition-none "#" name h) (ap (λ s. (name, s)) (sym ((==_iff place "").0 e)))
  | inr n ↦ rw (n, hash_sign place, partition-append "#" name place h)
]
