-- ===== src/Names/Grammar.antt =====
-- What the characters and the parts of an IRI of the grammar are.
use Prim.Native.Char.{Char}
use mathlib.Core.Path.{ap₂}
use Prim.Native.String.{[] as nil, ◌∷◌ as ◌◂◌}
use shopsystem_kb.Base.{
  String, ◌<>◌, ◌≡◌, refl, sym, ap, ◌∙◌, Bool, true, false, ◌||◌, some, List, [], ◌∷◌, ◌==◌, ==_ne,
  string_eq, inl, inr, all, any, arith, Option-cases,
}
use shopsystem_kb.Base.Texts.{
  char_eq, holds_char, after, remove_prefix, split, join, join-split, append_of_after, after-append,
  holds_char-append, holds_char-join,
}
use shopsystem_kb.Names.{is_alnum, is_joint, runs, dotted, hosted, is_iri, split_iri, scheme}

-- A character that no segment holds.
abbrev pub Outside : Char → Type 0
Outside c = (is_alnum c ≡ false) × (is_joint c ≡ false)

runs-Outside :
    (c : Char) (within : Bool) (s : String)
    → Outside c
    → runs is_joint within s ≡ true
    → holds_char c s ≡ false
unfolding runs holds_char
runs-Outside c within nil out h = refl
runs-Outside c within (d ◂ s) out h = ground (arith, runs-Outside c true s, runs-Outside c false s)

pub dotted-Outside : (c : Char) (s : String) → Outside c → dotted s ≡ true → holds_char c s ≡ false
unfolding dotted
dotted-Outside c s out h = runs-Outside c false s out h

pub all-dotted-Outside :
    (c : Char) (ps : List String) → Outside c → all dotted ps ≡ true → any (holds_char c) ps ≡ false
all-dotted-Outside c [] out h = refl
all-dotted-Outside c (p ∷ ps) out h =
    ground (arith, dotted-Outside c p out, all-dotted-Outside c ps out)

pub dotted-ne-nil : (s : String) → dotted s ≡ true → (s == "") ≡ false
unfolding dotted runs
dotted-ne-nil s h = ==_ne s "" (λ e. cc (e, h, no_empty))
  where
    no_empty : dotted "" ≡ false
    no_empty = refl

pub hosted-all-dotted : (ps : List String) → hosted ps ≡ true → all dotted ps ≡ true
unfolding hosted
hosted-all-dotted [] h = refl
hosted-all-dotted (p ∷ []) h = cc
hosted-all-dotted (p ∷ q ∷ ps) h = h

-- An IRI is its scheme and its parts joined by slashes.
pub record Parts (text : String) : Type 0 where
  pub host : String
  pub segment : String
  pub segments : List String
  pub split_lem : split "/" (join "/" (host ∷ segment ∷ segments)) ≡ host ∷ segment ∷ segments
  pub text_lem : text ≡ scheme <> join "/" (host ∷ segment ∷ segments)
  pub after_lem : after scheme text ≡ some (join "/" (host ∷ segment ∷ segments))
  pub all_lem : all dotted (host ∷ segment ∷ segments) ≡ true

parts_of :
    (text rest : String) (ps : List String)
    → after scheme text ≡ some rest
    → split "/" rest ≡ ps
    → hosted ps ≡ true
    → Parts text
unfolding hosted
parts_of text rest [] e s h = absurd (cc)
parts_of text rest (p ∷ []) e s h = absurd (cc)
parts_of text rest (p ∷ q ∷ ps) e s h =
    let same : join "/" (p ∷ q ∷ ps) ≡ rest = ap (join "/") (sym s) ∙ join-split "/" rest in
    record {
      host = p;
      segment = q;
      segments = ps;
      split_lem = ap (split "/") same ∙ s;
      text_lem = append_of_after scheme text rest e ∙ ap (λ t. scheme <> t) (sym same);
      after_lem = e ∙ ap some (sym same);
      all_lem = h;
    }

pub is_iri-Parts : (text : String) → is_iri text ≡ true → Parts text
unfolding is_iri
is_iri-Parts text h = elim (Option-cases (after scheme text)) [
  | inl e ↦ absurd (cc (rw (e, is_iri) at h))
  | inr (rest, e) ↦ parts_of text rest (split "/" rest) e refl (rw (e, is_iri) at h)
]

pub split_iri-Parts : (t : String) (p : Parts t) → split_iri t ≡ (p.host, p.segment ∷ p.segments)
unfolding split_iri
split_iri-Parts t p = rw (p.after_lem, remove_prefix) (rw p.split_lem)

-- Text made of a host and segments of the grammar is an IRI.
pub is_iri_of_parts :
    (p q : String) (ps : List String)
    → split "/" (join "/" (p ∷ q ∷ ps)) ≡ p ∷ q ∷ ps
    → all dotted (p ∷ q ∷ ps) ≡ true
    → is_iri (scheme <> join "/" (p ∷ q ∷ ps)) ≡ true
unfolding is_iri
is_iri_of_parts p q ps e h = rw (after-append scheme (join "/" (p ∷ q ∷ ps)), is_iri, e) h

-- No IRI holds a character that neither a segment nor the scheme holds, such as `@` and `#`.
pub is_iri-Outside :
    (c : Char) (text : String)
    → Outside c
    → (c == "/") ≡ false
    → holds_char c scheme ≡ false
    → is_iri text ≡ true
    → holds_char c text ≡ false
is_iri-Outside c text out slash outer h =
    let p = is_iri-Parts text h in
    let parts = p.host ∷ p.segment ∷ p.segments in
    rw p.text_lem (
      holds_char-append c scheme (join "/" parts)
      ∙ ap₂ ◌||◌ outer
          (holds_char-join c "/" parts slash (all-dotted-Outside c parts out p.all_lem)))
