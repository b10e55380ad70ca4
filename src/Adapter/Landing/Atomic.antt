-- ===== src/Adapter/Landing/Atomic.antt =====
-- A landing as a transaction: all of it or nothing.
use shopsystem_kb.Base.{◌≡◌, refl, sym, ap, ◌∙◌, true, false, List, inl, inr, ◌⊎◌, arith}
use shopsystem_kb.Port.{Change, Entry, Refusal}
use shopsystem_kb.Adapter.Db.{Db}
use shopsystem_kb.Adapter.Exec.{Exec, Gives, Result, ok, err}
use shopsystem_kb.Adapter.Landing.{landing, saved, exclusive, Connection, on_working, land}

module _ {C R : Type 0} where
  -- A connection outside any transaction: what it works on is what is committed.
  abbrev pub IsIdle : Connection C R → Type 0
  IsIdle conn =
      (conn.locked ≡ false) × (conn.in_transaction ≡ false) × (conn.working ≡ conn.committed)

  saved-cases :
      (block : Exec (Db C R) Unit) (db : Db C R)
      → ((e : Refusal) × (saved block db ≡ (err e, db)))
        ⊎ ((db' : Db C R) × Gives block db tt db' × (saved block db ≡ (ok tt, db')))
  unfolding saved
  saved-cases block db = go (block db) refl
    where
      go :
          (r : Result Unit × Db C R)
          → block db ≡ r
          → ((e : Refusal) × (saved block db ≡ (err e, db)))
            ⊎ ((db' : Db C R) × Gives block db tt db' × (saved block db ≡ (ok tt, db')))
      go (ok u, db') e = inr (db', e, ground arith)
      go (err x, db') e = inl (x, ground arith)

  idle-eta :
      (conn : Connection C R)
      → IsIdle conn
      → record {
        committed = conn.committed;
        working = conn.committed;
        in_transaction = false;
        locked = false;
      }
        ≡ conn
  idle-eta conn (unlocked, outside, same) i = record {
    committed = conn.committed;
    working = sym same i;
    in_transaction = sym outside i;
    locked = sym unlocked i;
  }

  abbrev ended : Result (Unit {0}) × Db C R → Db C R → Result (Unit {0}) × Connection C R
  ended (ok u, db') db =
      (ok tt, record { committed = db'; working = db'; in_transaction = false; locked = false })
  ended (err e, db') db =
      (err e, record { committed = db; working = db; in_transaction = false; locked = false })

  finish :
      (r : Result (Unit {0}) × Db C R) (db : Db C R)
      → (elim (r.0) [
        | ok _ ↦ (
          ok tt,
          record { committed = r.1; working = r.1; in_transaction = false; locked = false },
        )
        | err e ↦
            (err e, record { committed = db; working = db; in_transaction = false; locked = false })
      ])
        ≡ ended r db
  finish (ok u, db') db = refl
  finish (err e, db') db = refl

  run :
      (block : Exec (Db C R) Unit) (conn : Connection C R)
      → IsIdle conn
      → (r : Result Unit × Db C R) → block conn.committed ≡ r
      → exclusive (on_working block) conn ≡ ended r conn.committed
  unfolding exclusive
  run block conn (unlocked, outside, same) r s =
      rw (unlocked, outside, exclusive)
        (finish (block conn.working) conn.committed
          ∙ ap (λ r. ended r conn.committed) (ap block same ∙ s))

  run_nested :
      (block : Exec (Db C R) Unit) (conn : Connection C R)
      → conn.locked ≡ true
      → exclusive (on_working block) conn ≡ on_working block conn
  unfolding exclusive
  run_nested block conn locked = rw (locked, exclusive)

  -- A landing on an idle connection either is refused and leaves the connection as it was, or is
  -- the landing of the whole set, committed, and the connection idle again.
  pub land-idle :
      (changes : List (Change C)) (entries : List (Entry R)) (conn : Connection C R)
      → IsIdle conn
      → ((e : Refusal) × (land changes entries conn ≡ (err e, conn)))
        ⊎ ((db' : Db C R) × Gives (landing changes entries) conn.committed tt db'
            × (land changes entries conn ≡ (
              ok tt,
              record { committed = db'; working = db'; in_transaction = false; locked = false },
            )))
  unfolding land
  land-idle changes entries conn idle =
      elim (saved-cases (landing changes entries) conn.committed) [
        | inl (e, s) ↦ inl (
          e,
          run (saved (landing changes entries)) conn idle _ s
              ∙ ap (λ c. (err e, c)) (idle-eta conn idle),
        )
        | inr (db', g, s) ↦ inr (db', g, run (saved (landing changes entries)) conn idle _ s)
      ]

  -- A landing inside a block that holds the write lock commits nothing by itself: it either is
  -- refused and leaves the connection as it was, with what the block did before it, or is the
  -- landing of the whole set on what the block has done.
  pub land-nested :
      (changes : List (Change C)) (entries : List (Entry R)) (conn : Connection C R)
      → conn.locked ≡ true
      → ((e : Refusal) × (land changes entries conn ≡ (err e, conn)))
        ⊎ ((db' : Db C R) × Gives (landing changes entries) conn.working tt db'
            × (land changes entries conn ≡ (ok tt, record conn { working = db' })))
  unfolding land
  land-nested changes entries conn locked =
      elim (saved-cases (landing changes entries) conn.working) [
        | inl (e, s) ↦ inl (
          e,
          run_nested (saved (landing changes entries)) conn locked
              ∙ ap (λ r. (r.0, record conn { working = r.1 })) s,
        )
        | inr (db', g, s) ↦ inr (
          db',
          g,
          run_nested (saved (landing changes entries)) conn locked
              ∙ ap (λ r. (r.0, record conn { working = r.1 })) s,
        )
      ]
