-- ===== src/Adapter/Landing/Links.antt =====
-- What the checks after the writing have found when they refuse nothing: every link that the set
-- hands lands, and no link from outside it points at what it takes out.
use shopsystem_kb.Base.{
  ℕ, suc, String, ◌≡◌, refl, sym, ap, ◌∙◌, false, ◌||◌, some, List, [], ◌∷◌, map, ◌==◌, contains,
  string_eq, nat_eq, ==_iff, length, In, arith, if◌then◌else◌, Bool-cases, inl, inr, ◌⊎◌,
}
use shopsystem_kb.Base.Dict.{Dict, lookup, insert, lookup-insert}
use shopsystem_kb.Port.{key_eq, Change, Key, told, told_from, next_of}
use shopsystem_kb.Adapter.Checks.{last_from}
use shopsystem_kb.Adapter.Landing.Loop.{overlay, changed}

length-told_from :
    (seen : Dict Key ℕ) (keys : List Key) → length (told_from seen keys) ≡ length keys
unfolding told_from
length-told_from seen [] = refl
length-told_from seen (k ∷ ks) =
    ap suc (length-told_from (insert k (next_of (lookup k seen)) seen) ks)

pub length-told : (keys : List Key) → length (told keys) ≡ length keys
unfolding told
length-told keys = length-told_from [] keys

abbrev pub names_in : {C : Type 0} → Dict String (Change C) → List String
names_in last = map (λ (a, c). a) last

contains-insert :
    {C : Type 0} (a k : String) (v : Change C) (d : Dict String (Change C))
    → contains (names_in (insert k v d)) a ≡ (a == k || contains (names_in d) a)
unfolding insert
contains-insert a k v [] = refl
contains-insert a k v ((j, w) ∷ d) = ground (arith, contains-insert a k v d)

module _ {C X : Type 0} (f : Change C → X) (a : String) where
  -- Whether the changes leave an artifact as it was, or which change is its last.
  pub record Last (d : Dict String (Change C)) (old : X) (cs : List (Change C)) : Type 0 where
    pub change : Change C
    pub at : lookup a (last_from d cs) ≡ some change
    pub named : change.artifact ≡ a
    pub left : overlay f a old cs ≡ f change
    pub member : In change cs

  pub record Unchanged (d : Dict String (Change C)) (old : X) (cs : List (Change C)) : Type 0 where
    pub absent : contains (changed cs) a ≡ false
    pub kept : overlay f a old cs ≡ old
    pub found : lookup a (last_from d cs) ≡ lookup a d

  overlay-cases_from :
      (d : Dict String (Change C)) (old : X) (cs : List (Change C))
      → Unchanged d old cs ⊎ Last d old cs
  unfolding last_from
  overlay-cases_from d old [] = inl (record { absent = refl; kept = refl; found = refl })
  overlay-cases_from d old (c ∷ cs) =
      elim (overlay-cases_from (insert c.artifact c d) (if c.artifact == a then f c else old) cs) [
        | inl u ↦ elim (Bool-cases (a == c.artifact)) [
          | inl e ↦ inr (record {
            change = c;
            at = u.found ∙ lookup-insert a c.artifact c d ∙ rw e;
            named = sym ((==_iff a c.artifact).0 e);
            left = u.kept ∙ ground (arith, e);
            member = inl refl;
          })
          | inr n ↦ inl (record {
            absent = ground (arith, u.absent, n);
            kept = u.kept ∙ ground (arith, n);
            found = u.found ∙ lookup-insert a c.artifact c d ∙ rw n;
          })
        ]
        | inr l ↦ inr (record {
          change = l.change;
          at = l.at;
          named = l.named;
          left = l.left;
          member = inr l.member;
        })
      ]

  pub overlay-unchanged :
      (old : X) (cs : List (Change C)) → contains (changed cs) a ≡ false → overlay f a old cs ≡ old
  overlay-unchanged old [] h = refl
  overlay-unchanged old (c ∷ cs) h =
      overlay-unchanged (if c.artifact == a then f c else old) cs (ground arith) ∙ ground arith

  pub overlay-cases : (old : X) (cs : List (Change C)) → Unchanged [] old cs ⊎ Last [] old cs
  overlay-cases old cs = overlay-cases_from [] old cs

pub contains-last_from :
    {C : Type 0} (a : String) (d : Dict String (Change C)) (cs : List (Change C))
    → contains (names_in (last_from d cs)) a ≡ (contains (names_in d) a || contains (changed cs) a)
unfolding last_from
contains-last_from a d [] = ground arith
contains-last_from a d (c ∷ cs) =
    ground
      (arith, contains-last_from a (insert c.artifact c d) cs, contains-insert a c.artifact c d)
