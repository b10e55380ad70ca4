-- ===== src/Adapter/Landing/Through.antt =====
-- What a landing that is not refused found of the artifacts that its changes were read through.
use shopsystem_kb.Base.{
  ℕ, String, ◌≡◌, sym, ap, ◌∙◌, Option, none, some, List, [], ◌∷◌, In, inl, inr, flat_map,
  In-flat_map_of, string_eq, nat_eq,
}
use shopsystem_kb.Port.{Change, Entry}
use shopsystem_kb.Adapter.Db.{Db, ArtifactRow}
use shopsystem_kb.Adapter.Exec.{Gives, Gives-bind}
use shopsystem_kb.Adapter.Reads.{row_of, revision_of}
use shopsystem_kb.Adapter.Checks.{unmoved, unmoved_all, compared}
use shopsystem_kb.Adapter.Landing.{landing}
use shopsystem_kb.Adapter.Landing.Loop.{compared-ok}
use shopsystem_kb.Adapter.Landing.Run.{landing-Landed, row_of-started}

module _ {C R : Type 0} where
  unmoved_all-read :
      (pairs : List (String × ℕ)) (db : Db C R) (u : Unit {0}) (db' : Db C R) (a : String) (n : ℕ)
      → Gives (unmoved_all {C = C} pairs) db u db'
      → In (a, n) pairs
      → revision_of db a ≡ n
  unfolding unmoved_all
  unmoved_all-read [] db u db' a n h m = absurd m.1
  unmoved_all-read ((b, k) ∷ rest) db u db' a n h m =
      let (held, db₁, h₁, k₁) = Gives-bind (compared b k) (λ _. unmoved_all rest) db h in
      let (same, _, at) = compared-ok b k db h₁ in
      elim m [
        | inl e ↦
            ap (λ (p : String × ℕ). revision_of db p.0) e
            ∙ at
            ∙ sym (ap (λ (p : String × ℕ). p.1) e)
        | inr there ↦
            ap (λ d. revision_of d a) (sym same) ∙ unmoved_all-read rest db₁ u db' a n k₁ there
      ]

  revision_of-started :
      (db d : Db C R) (a : String) → row_of d a ≡ row_of db a → revision_of d a ≡ revision_of db a
  unfolding revision_of
  revision_of-started db d a e =
      ap (λ (o : Option (ArtifactRow C)). elim o [ none ↦ 0 | some row ↦ row.revision ]) e

  -- A landing that is refused nothing found every artifact that a change was read through at the
  -- revision that it was read at.
  pub landing-through :
      (changes : List (Change C)) (entries : List (Entry R)) (db db' : Db C R) (c : Change C)
      (a : String) (n : ℕ)
      → Gives (landing changes entries) db tt db'
      → In c changes
      → In (a, n) c.through
      → revision_of db a ≡ n
  unfolding unmoved
  landing-through changes entries db db' c a n h own there =
      let l = landing-Landed changes entries db h in
      sym (revision_of-started db l.started a (row_of-started changes entries db db' l a))
      ∙ unmoved_all-read (flat_map (λ (c : Change C). c.through) changes) l.started tt l.started a n
          l.unmoved_first (In-flat_map_of (λ (c : Change C). c.through) c (a, n) changes own there)
