-- ===== src/Draft/Operations.antt =====
-- The versions of a type that a set's operations leave, told from the operations alone.
use shopsystem_kb.Base.{
  ℕ, String, ◌≡◌, sym, ap, ◌∙◌, Bool, false, ◌||◌, ◌&&◌, none, some, [], ◌==◌, ==_iff, contains,
  string_eq, nat_eq, Option-cases, Bool-cases, inl, inr, arith, if◌then◌else◌,
}
use shopsystem_kb.Base.Dict.{lookup, lookup-erase}
use shopsystem_kb.Content.{Fields}
use shopsystem_kb.Draft.{Store, Draft, blank, put, remove, made_by, or_nil, is_some}
use shopsystem_kb.Draft.Steps.{
  Step, Steps, start, then_step, puts, removes, reads, reads_version, counts, waits, Rereads,
  artifact-Rereads, type_version-Rereads, numbered-Rereads, waited-Rereads,
}
use shopsystem_kb.Draft.Versions.{made-put, made-put-none, made-put_other}

-- Whether a put artifact makes a version.
unfoldable pub makes : Fields → ℕ → Bool
unfolding made_by
makes d n = elim (made_by d) [ none ↦ false | some m ↦ n == m ]

-- A put of a type lists the version that it makes, a removal lists none, and a read changes nothing.
abbrev after_step : {draft next : Draft} → Step draft next → String → ℕ → Bool → Bool
after_step (puts each d full numbered) id n before = before || (id == each && makes d n)
after_step (removes each) id n before = if id == each then false else before
after_step (reads store each) id n before = before
after_step (reads_version store version) id n before = before
after_step (counts store each) id n before = before
after_step (waits store each) id n before = before

-- The versions of the store are listed first.
unfoldable pub listed_by : Store → {draft : Draft} → Steps blank draft → String → ℕ → Bool
listed_by store start id n = contains (store.versions id) n
listed_by store (then_step steps step) id n = after_step step id n (listed_by store steps id n)

-- What a draft holds of a version, whether or not its type is still there.
abbrev holds_version : Store → Draft → String → ℕ → Bool
holds_version store draft id n =
    contains (if contains draft.gone id then [] else store.versions id) n
    || is_some (lookup n (or_nil (lookup id draft.made)))

module _ (store : Store) (id : String) (n : ℕ) where
  made-makes :
      (each : String) (d : Fields) (draft : Draft)
      → is_some (lookup n (or_nil (lookup id (put each d draft).made)))
        ≡ (is_some (lookup n (or_nil (lookup id draft.made))) || (id == each && makes d n))
  unfolding makes
  made-makes each d draft = elim (Bool-cases (id == each)) [
    | inr apart ↦
        ap (λ r. is_some (lookup n (or_nil r))) (made-put_other each d draft id apart)
        ∙ ground arith
    | inl same ↦
        let is = (==_iff id each).0 same in
        let here = ap (λ z. is_some (lookup n (or_nil (lookup z (put each d draft).made)))) is in
        let there = ap (λ z. is_some (lookup n (or_nil (lookup z draft.made)))) is in
        elim (Option-cases (made_by d)) [
          | inl makes_none ↦
              ap (λ m. is_some (lookup n (or_nil (lookup id m))))
                (made-put-none each d draft makes_none)
              ∙ ground arith
          | inr (m, made_m) ↦
              here ∙ ap is_some (made-put each d draft m n made_m) ∙ ground (arith, sym there)
        ]
  ]

  holds_version-put :
      (each : String) (d : Fields) (draft : Draft)
      → holds_version store (put each d draft) id n
        ≡ (holds_version store draft id n || (id == each && makes d n))
  unfolding put
  holds_version-put each d draft = ground (arith, made-makes each d draft)

  holds_version-remove :
      (each : String) (draft : Draft)
      → holds_version store (remove each draft) id n
        ≡ (if id == each then false else holds_version store draft id n)
  unfolding remove lookup
  holds_version-remove each draft = ground (arith, lookup-erase id each draft.made)

  holds_version-Rereads :
      (draft next : Draft)
      → Rereads draft next
      → holds_version store next id n ≡ holds_version store draft id n
  holds_version-Rereads draft next (t, c, w, e) = ap (λ r. holds_version store r id n) e

  holds_version-after_step :
      {draft next : Draft} (step : Step draft next)
      → holds_version store next id n ≡ after_step step id n (holds_version store draft id n)
  holds_version-after_step {draft} (puts each d full numbered) = holds_version-put each d draft
  holds_version-after_step {draft} (removes each) = holds_version-remove each draft
  holds_version-after_step {draft} (reads from each) =
      holds_version-Rereads draft _ (artifact-Rereads from each draft)
  holds_version-after_step {draft} (reads_version from version) =
      holds_version-Rereads draft _ (type_version-Rereads from version draft)
  holds_version-after_step {draft} (counts from each) =
      holds_version-Rereads draft _ (numbered-Rereads from each draft)
  holds_version-after_step {draft} (waits from each) =
      holds_version-Rereads draft _ (waited-Rereads from each draft)

  pub holds_version-listed_by :
      {draft : Draft} (steps : Steps blank draft)
      → holds_version store draft id n ≡ listed_by store steps id n
  unfolding listed_by lookup
  holds_version-listed_by start = ground arith
  holds_version-listed_by (then_step steps step) =
      holds_version-after_step step ∙ ap (after_step step id n) (holds_version-listed_by steps)
