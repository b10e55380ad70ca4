-- ===== src/Adapter/Landing/Loop.antt =====
-- The loop over a set's changes: the reads it leaves are those of the tables before it with each
-- change's laid over them in turn, and it has compared each artifact's first change.
use mathlib.Core.Path.{subst, ap₂}
use shopsystem_kb.Base.{
  ℕ, suc, String, ◌≡◌, sym, ap, ◌∙◌, true, false, none, some, List, [], ◌∷◌, map, ◌==◌, contains,
  string_eq, nat_eq, ==_iff, distinct, arith, if◌then◌else◌, Bool-cases, inl, inr,
}
use shopsystem_kb.Base.Dict.{
  lookup, set_default, lookup-set_default_held, lookup-set_default_new, lookup-set_default_ne,
}
use shopsystem_kb.Port.{Change}
use shopsystem_kb.Adapter.Db.{Db}
use shopsystem_kb.Adapter.Exec.{Result, Gives, Gives-bind, ok, err, read, ◌>>=◌, ◌>>◌}
use shopsystem_kb.Adapter.Reads.{row_of, revision_of, parts_of}
use shopsystem_kb.Adapter.Checks.{Before, compared}
use shopsystem_kb.Adapter.Landing.{written, write_all}
use shopsystem_kb.Adapter.Landing.Rows.{
  row_left, parts_left, link_rows_left, links_of, Wrote, written-Wrote, row_of_self, row_of-other,
  parts_of_self, parts_of-other, links_of_self, links_of-other,
}

abbrev value_or : {A : Type 0} → A → Result A → A
value_or d (ok a) = a
value_or d (err e) = d

-- What the last change of an artifact leaves, or what was there before when none changes it.
abbrev pub overlay : {C X : Type 0} → (Change C → X) → String → X → List (Change C) → X
overlay f a old [] = old
overlay f a old (c ∷ cs) = overlay f a (if c.artifact == a then f c else old) cs

abbrev pub changed : {C : Type 0} → List (Change C) → List String
changed {C} cs = map (λ (c : Change C). c.artifact) cs

==_symm : (a b : String) → (a == b) ≡ false → (b == a) ≡ false
==_symm a b h = ground arith

module _ {C R : Type 0} where
  pub compared-ok :
      (a : String) (n : ℕ) (db : Db C R) {held : ℕ} {db' : Db C R}
      → Gives (compared a n) db held db'
      → (db' ≡ db) × (held ≡ n) × (revision_of db a ≡ n)
  unfolding compared
  compared-ok a n db h = (ground arith, ground arith, ground arith)

  -- One round of the loop: the comparison, the writing and the rounds after.
  pub record Round (landed step : ℕ) (before : Before) (c : Change C) (cs : List (Change C))
      (db : Db C R) (before' : Before) (db' : Db C R) : Type 0 where
    pub read_at : revision_of db c.artifact ≡ c.read
    pub middle : Db C R
    pub wrote : Wrote c landed step db middle
    pub rest :
        Gives
          (write_all landed
            (suc step)
            (set_default c.artifact (c.read, distinct (parts_of db c.artifact)) before)
            cs)
          middle
          before'
          db'

  pub write_all-Round :
      (landed step : ℕ) (before : Before) (c : Change C) (cs : List (Change C)) (db : Db C R)
      {before' : Before} {db' : Db C R}
      → Gives (write_all landed step before (c ∷ cs)) db before' db'
      → Round landed step before c cs db before' db'
  unfolding write_all
  write_all-Round landed step before c cs db {before'} {db'} h =
      let after = λ (held : ℕ) (parts : List String).
        write_all {R = R} landed (suc step) (set_default c.artifact (held, distinct parts) before)
          cs in
      let (held, db₁, h₁, k₁) =
        Gives-bind (compared c.artifact c.read)
          (λ held. do
            parts ← read (λ (db : Db C R). parts_of db c.artifact)
            written c landed step
            after held parts)
          db h in
      let (same, as_held, at) = compared-ok c.artifact c.read db h₁ in
      let (u, db₂, h₂, k₂) =
        Gives-bind (written c landed step) (λ _. after held (parts_of db₁ c.artifact)) db₁ k₁ in
      record {
        read_at = at;
        middle = db₂;
        wrote =
            subst (λ d. Wrote c landed step d db₂) same (written-Wrote c landed step db₁ db₂ h₂);
        rest =
            subst
              (λ (v : ℕ × List String).
                Gives (write_all landed (suc step) (set_default c.artifact v before) cs) db₂ before'
                  db')
              (ap₂ (λ n (d : Db C R). (n, distinct (parts_of d c.artifact))) as_held same) k₂;
      }

  -- A read of one artifact that each change's writing sets at its own and leaves at another's.
  module _ {X : Type 0} (f : Change C → X) (look : Db C R → String → X)
      (own : (c : Change C) (landed step : ℕ) (db db' : Db C R)
        → Wrote c landed step db db'
        → look db' c.artifact ≡ f c)
      (rest : (c : Change C) (landed step : ℕ) (db db' : Db C R)
        → Wrote c landed step db db'
        → (a : String) → (c.artifact == a) ≡ false
        → look db' a ≡ look db a)
      (a : String) where
    pub one_round :
        (c : Change C) (landed step : ℕ) (db db' : Db C R)
        → Wrote c landed step db db'
        → look db' a ≡ (if c.artifact == a then f c else look db a)
    one_round c landed step db db' w = elim (Bool-cases (c.artifact == a)) [
      | inl e ↦
          rw e
            (subst (λ b. look db' b ≡ f c) ((==_iff c.artifact a).0 e) (own c landed step db db' w))
      | inr n ↦ rw n (rest c landed step db db' w a n)
    ]

    write_all-overlay :
        (landed step : ℕ) (before : Before) (cs : List (Change C)) (db : Db C R) {before' : Before}
        {db' : Db C R}
        → Gives (write_all landed step before cs) db before' db'
        → look db' a ≡ overlay f a (look db a) cs
    unfolding write_all
    write_all-overlay landed step before [] db {before'} {db'} h =
        ap (λ (r : _ × Db C R). look r.1 a) (sym h)
    write_all-overlay landed step before (c ∷ cs) db h =
        let r = write_all-Round landed step before c cs db h in
        write_all-overlay landed (suc step) _ cs r.middle r.rest
        ∙ ap (λ old. overlay f a old cs) (one_round c landed step db r.middle r.wrote)

  module _ (landed step : ℕ) (before : Before) (cs : List (Change C)) (db : Db C R)
      {before' : Before} {db' : Db C R} (h : Gives (write_all landed step before cs) db before' db')
      (a : String) where
    pub row_of-write_all : row_of db' a ≡ overlay row_left a (row_of db a) cs
    row_of-write_all =
        write_all-overlay row_left row_of (λ c l s d d' w. row_of_self c l s d d' w)
          (λ c l s d d' w b n. row_of-other c l s d d' w b n) a landed step before cs db h

    pub parts_of-write_all : parts_of db' a ≡ overlay parts_left a (parts_of db a) cs
    parts_of-write_all =
        write_all-overlay parts_left parts_of (λ c l s d d' w. parts_of_self c l s d d' w)
          (λ c l s d d' w b n. parts_of-other c l s d d' w b n) a landed step before cs db h

    pub links_of-write_all : links_of db' a ≡ overlay link_rows_left a (links_of db a) cs
    links_of-write_all =
        write_all-overlay link_rows_left links_of (λ c l s d d' w. links_of_self c l s d d' w)
          (λ c l s d d' w b n. links_of-other c l s d d' w b n) a landed step before cs db h

  pub revision_of-row_of :
      (d d' : Db C R) (a : String) → row_of d a ≡ row_of d' a → revision_of d a ≡ revision_of d' a
  unfolding revision_of
  revision_of-row_of d d' a e = rw (e, revision_of)

  -- What the loop found before an artifact's first change stays what it says.
  before_kept :
      (landed step : ℕ) (before : Before) (cs : List (Change C)) (db : Db C R) {before' : Before}
      {db' : Db C R}
      → Gives (write_all landed step before cs) db before' db'
      → (a : String) (v : ℕ × List String) → lookup a before ≡ some v
      → lookup a before' ≡ some v
  unfolding write_all
  before_kept landed step before [] db {before'} h a v e =
      subst (λ (r : Result Before × Db C R). lookup a (value_or before r.0) ≡ some v) h e
  before_kept landed step before (c ∷ cs) db h a v e =
      let r = write_all-Round landed step before c cs db h in
      before_kept landed (suc step) _ cs r.middle r.rest a v
        (lookup-set_default_held c.artifact _ v a before e)

  -- It is the artifact's revision and its parts as the set found them.
  pub before_found :
      (landed step : ℕ) (before : Before) (cs : List (Change C)) (db : Db C R) {before' : Before}
      {db' : Db C R}
      → Gives (write_all landed step before cs) db before' db'
      → (a : String) → lookup a before ≡ none
      → contains (changed cs) a ≡ true
      → lookup a before' ≡ some (revision_of db a, distinct (parts_of db a))
  before_found landed step before [] db h a new m = cc
  before_found landed step before (c ∷ cs) db {before'} h a new m =
      let r = write_all-Round landed step before c cs db h in
      elim (Bool-cases (a == c.artifact)) [
        | inl e ↦
            let p = (==_iff a c.artifact).0 e in
            let kept = before_kept landed (suc step) _ cs r.middle r.rest c.artifact _ (
              lookup-set_default_new c.artifact (c.read, distinct (parts_of db c.artifact)) before
                (subst (λ b. lookup b before ≡ none) p new)) in
            subst (λ b. lookup b before' ≡ some (revision_of db b, distinct (parts_of db b)))
              (sym p) (kept ∙ ap (λ n. some (n, distinct (parts_of db c.artifact))) (sym r.read_at))
        | inr n ↦
            let n' = ==_symm a c.artifact n in
            before_found landed (suc step) _ cs r.middle r.rest a
              (lookup-set_default_ne c.artifact _ a before n ∙ new) (ground arith)
            ∙ ap₂ (λ k l. some (k, distinct l))
                (revision_of-row_of r.middle db a
                  (row_of-other c landed step db r.middle r.wrote a n'))
                (parts_of-other c landed step db r.middle r.wrote a n')
      ]
