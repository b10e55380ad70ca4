-- ===== src/Tests/Store.antt =====
-- Two sets landed: the type of types in a store that holds nothing, then a type beside it.
use mathlib.Core.Path.{subst}
use shopsystem_kb.Base.{
  sym, ◌<◌, ◌++◌, contains, IsUnique, string_eq, nat_eq, option_eq, ℕ, String, ◌≡◌, refl, true,
  false, none, some, [], ◌∷◌, inl, inr, ◌⊎◌, arith,
}
use shopsystem_kb.Port.{Refusal, conflict, told_eq, key_eq, Change, Link, Entry}
use shopsystem_kb.Adapter.Db.{Db, LinkRow, empty}
use shopsystem_kb.Adapter.Exec.{Gives, ok, err}
use shopsystem_kb.Adapter.Landing.{landing, Connection, land, link_row}
use shopsystem_kb.Adapter.Landing.Integrity.{
  IsIntact, IsNumbered, landing-IsIntact, landing-kept, landing-reads,
}
use shopsystem_kb.Adapter.Landing.Atomic.{land-idle, land-nested}
use shopsystem_kb.Adapter.Landing.History.{
  landing-current, landing-appends, landing-IsUnique, revision_in, version_rows, ids,
}
use shopsystem_kb.Adapter.Landing.Loop.{overlay}
use shopsystem_kb.Adapter.Landing.Rows.{row_left, parts_left, link_rows_left, links_of}
use shopsystem_kb.Adapter.Reads.{row_of, parts_of, holds}

abbrev types : String
types = "https://missingmass.io/kb/type"

abbrev own_link : Link
own_link = record {
  field = "";
  place = "";
  target = types;
  part = "";
  kinds = types ∷ [];
  implicit = true;
  under = none;
  waits = false;
  holder = none;
  imported = false;
}

abbrev type_of_types : Change ℕ
type_of_types = record {
  artifact = types;
  content = some 7;
  links = own_link ∷ [];
  parts = "fields/name" ∷ [];
  read = 0;
  revision = 1;
  through = [];
  searched = [];
  kind = types;
  version = some (record { version = record { kind = types; number = 1 }; title = "Type" });
}

abbrev first_entry : Entry ℕ
first_entry = record {
  id = "20260101T000000000000Z-1";
  at = 0;
  seq = 1;
  record_of = 0;
  artifact = types;
  role = "tester";
  execution = "";
  batch = "20260101T000000000000Z-1";
}

abbrev held : Db ℕ ℕ
held = (landing (type_of_types ∷ []) (first_entry ∷ []) empty).1

held_lem : Gives (landing (type_of_types ∷ []) (first_entry ∷ [])) empty tt held
unfolding landing string_eq nat_eq option_eq told_eq key_eq
held_lem = refl

empty-IsIntact : IsIntact (empty {C = ℕ} {R = ℕ})
unfolding holds
empty-IsIntact = record {
  typed = λ row m own. absurd m.1;
  owned = λ row m. absurd m.1;
  numbered = λ a h. absurd (cc);
}

first-IsNumbered : IsNumbered (type_of_types ∷ [])
first-IsNumbered c (inl e) = subst (λ (d : Change ℕ). 0 < d.revision) (sym e) (ground arith)
first-IsNumbered c (inr m) = absurd m.1

held-IsIntact : IsIntact held
held-IsIntact =
    landing-IsIntact (type_of_types ∷ []) (first_entry ∷ []) empty held empty-IsIntact
      first-IsNumbered held_lem

abbrev document : String
document = "https://example.org/type/document"

-- A second type, which points into a part of the first.
abbrev second_type : Change ℕ
second_type = record {
  artifact = document;
  content = some 8;
  links =
      own_link
      ∷ record {
        field = "like";
        place = "like";
        target = types;
        part = "fields/name";
        kinds = types ∷ [];
        implicit = false;
        under = none;
        waits = false;
        holder = some "";
        imported = false;
      }
      ∷ [];
  parts = [];
  read = 0;
  revision = 1;
  through = (types, 1) ∷ [];
  searched = [];
  kind = types;
  version = some (record { version = record { kind = document; number = 1 }; title = "Document" });
}

abbrev second_entry : Entry ℕ
second_entry = record first_entry {
  id = "20260101T000000000000Z-2";
  seq = 2;
  artifact = document;
  batch = "20260101T000000000000Z-2";
}

abbrev after : Db ℕ ℕ
after = (landing (second_type ∷ []) (second_entry ∷ []) held).1

after_lem : Gives (landing (second_type ∷ []) (second_entry ∷ [])) held tt after
unfolding landing string_eq nat_eq option_eq told_eq key_eq
after_lem = refl

abbrev types_row : LinkRow
types_row = link_row types (0, own_link)

landing-kept_example :
    (holds after types ≡ true)
    × (contains (parts_of held types) "" ≡ true → contains (parts_of after types) "" ≡ true)
unfolding landing string_eq nat_eq option_eq told_eq key_eq holds
landing-kept_example =
    landing-kept (second_type ∷ []) (second_entry ∷ []) held after held-IsIntact after_lem types_row
      (inl refl) refl refl

landing-reads_example :
    (row_of after document ≡ overlay row_left document (row_of held document) (second_type ∷ []))
    × (parts_of after document
        ≡ overlay parts_left document (parts_of held document) (second_type ∷ []))
    × (links_of after document
        ≡ overlay link_rows_left document (links_of held document) (second_type ∷ []))
landing-reads_example =
    landing-reads (second_type ∷ []) (second_entry ∷ []) held after after_lem document

landing-current_example : revision_in (overlay row_left document (row_of held document) []) ≡ 0
landing-current_example =
    landing-current (second_type ∷ []) (second_entry ∷ []) held after after_lem [] second_type []
      refl

landing-appends_example :
    (after.entries ≡ held.entries ++ second_entry ∷ [])
    × ((landed : ℕ) × (after.versions ≡ held.versions ++ version_rows landed 0 (second_type ∷ [])))
landing-appends_example =
    landing-appends (second_type ∷ []) (second_entry ∷ []) held after after_lem

held-IsUnique : IsUnique (ids held.entries)
unfolding landing string_eq nat_eq option_eq told_eq key_eq
held-IsUnique = (refl, tt)

landing-IsUnique_example : IsUnique (ids after.entries)
landing-IsUnique_example =
    landing-IsUnique (second_type ∷ []) (second_entry ∷ []) held after held-IsUnique after_lem

abbrev idle : Connection ℕ ℕ
idle = record { committed = held; working = held; in_transaction = false; locked = false }

land-idle_example :
    ((e : Refusal) × (land (second_type ∷ []) (second_entry ∷ []) idle ≡ (err e, idle)))
    ⊎ ((db' : Db ℕ ℕ) × Gives (landing (second_type ∷ []) (second_entry ∷ [])) held tt db'
        × (land (second_type ∷ []) (second_entry ∷ []) idle ≡ (
          ok tt,
          record { committed = db'; working = db'; in_transaction = false; locked = false },
        )))
land-idle_example = land-idle (second_type ∷ []) (second_entry ∷ []) idle (refl, refl, refl)

abbrev within : Connection ℕ ℕ
within = record { committed = empty; working = held; in_transaction = true; locked = true }

land-nested_example :
    ((e : Refusal) × (land (second_type ∷ []) (second_entry ∷ []) within ≡ (err e, within)))
    ⊎ ((db' : Db ℕ ℕ) × Gives (landing (second_type ∷ []) (second_entry ∷ [])) held tt db'
        × (land (second_type ∷ []) (second_entry ∷ []) within
            ≡ (ok tt, record within { working = db' })))
land-nested_example = land-nested (second_type ∷ []) (second_entry ∷ []) within refl

-- A set drafted at a revision that has moved on is refused.
stale_refused :
    (landing (record type_of_types { read = 0; revision = 2 } ∷ []) (second_entry ∷ []) held).0
    ≡ err conflict
unfolding landing string_eq nat_eq option_eq told_eq key_eq
stale_refused = refl
