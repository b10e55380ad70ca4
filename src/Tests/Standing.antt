-- ===== src/Tests/Standing.antt =====
-- An artifact made two steps below its type, and a type that comes to stand between them.
use mathlib.Core.Bool.{true≢false}
use shopsystem_kb.Base.{
  ℕ, ◌<◌, String, ◌≡◌, ◌≢◌, refl, sym, ◌∙◌, true, false, Option, none, some, List, [], ◌∷◌, ◌==◌,
  ==_iff, string_eq, option_eq, nat_eq, inl, ◌⊎◌, if◌then◌else◌, arith,
}
use shopsystem_kb.Base.Texts.{char_eq}
use shopsystem_kb.Names
use shopsystem_kb.Port
use shopsystem_kb.Content.{key_eq, named, text, Fields, end, entry}
use shopsystem_kb.Types.Composition.{typed_at, nearest_type}
use shopsystem_kb.Draft.{Store, blank, changed, corpus_of, artifact}
use shopsystem_kb.Standing.{guarded}
use shopsystem_kb.Standing.Nearer.{of_itself}
use shopsystem_kb.Standing.Landed.{corpus_in, landed-nearer}
use shopsystem_kb.Port.{Version, Entry, told_eq}
use shopsystem_kb.Adapter.Db.{Db, ArtifactRow, empty}
use shopsystem_kb.Adapter.Exec.{Gives}
use shopsystem_kb.Adapter.Reads.{row_of, revision_of, holds}
use shopsystem_kb.Adapter.Landing.{landing}
use shopsystem_kb.Adapter.Landing.Integrity.{IsIntact}
use shopsystem_kb.Draft
use shopsystem_kb.Port.{Entry, Version}

abbrev note_type : String
note_type = "https://example.org/note"

abbrev inner_type : String
inner_type = "https://example.org/note/daily"

abbrev a_type : Fields
a_type = entry (named "type") (text "https://missingmass.io/kb/type@1") end

abbrev a_note : Fields
a_note = entry (named "type") (text "https://example.org/note@1") end

abbrev first_store : Store
first_store = record {
  artifact =
      λ id. if id == note_type then some a_type else if id == inner_type then some a_note else none;
  type_version = λ v. none;
  versions = λ id. [];
  ids = λ kind_name. [];
  links_in = λ target. [];
  waiting = [];
  waiting_of = λ id. [];
}

abbrev a_create : Port.Change Fields
a_create = record {
  artifact = "https://example.org/note/daily/one";
  content = some a_note;
  links = [];
  parts = [];
  read = 0;
  revision = 1;
  through = (note_type, 1) ∷ [];
  searched = [];
  kind = note_type;
  version = none;
}

not_types : (note_type == Names.types) ≡ false
unfolding string_eq char_eq
not_types = refl

abbrev an_entry : Entry ℕ
an_entry = record {
  id = "20260101T000000000000Z-1";
  at = 0;
  seq = 1;
  record_of = 0;
  artifact = "https://example.org/note/daily/one";
  role = "tester";
  execution = "";
  batch = "20260101T000000000000Z-1";
}

abbrev type_row : String → ArtifactRow Fields
type_row id = record { id = id; kind = Names.types; revision = 1; content = a_type }

-- The store once the note at the inner IRI was taken out and a type defined there.
abbrev then_held : Db Fields ℕ
then_held = record empty { artifacts = type_row note_type ∷ type_row inner_type ∷ [] }

abbrev handed_over : List (Port.Change Fields)
handed_over = (guarded first_store blank (a_create ∷ [])).0

abbrev then_after : Db Fields ℕ
then_after = (landing handed_over (an_entry ∷ []) then_held).1

lands_then : Gives (landing handed_over (an_entry ∷ [])) then_held tt then_after
unfolding landing guarded string_eq char_eq nat_eq option_eq told_eq key_eq
lands_then = refl

then_held-numbered : (a : String) → holds then_held a ≡ true → 0 < revision_of then_held a
unfolding holds revision_of row_of
then_held-numbered a h = ground arith

then_held-IsIntact : IsIntact then_held
then_held-IsIntact = record {
  typed = λ row m e. absurd m.1;
  owned = λ row m. absurd m.1;
  numbered = then_held-numbered;
}

stood_under :
    nearest_type (corpus_of first_store blank) "https://example.org/note/daily/one" ≡ some note_type
unfolding nearest_type corpus_of Draft.holds artifact string_eq char_eq option_eq key_eq
stood_under = refl

no_versions : Version → Option Fields
no_versions v = none

still_typed : typed_at (corpus_in no_versions then_held) note_type ≡ true
unfolding typed_at row_of string_eq char_eq option_eq key_eq
still_typed = refl

stands_under :
    nearest_type (corpus_in no_versions then_held) "https://example.org/note/daily/one"
    ≡ some inner_type
unfolding nearest_type row_of string_eq char_eq option_eq key_eq
stands_under = refl

inner_other : (inner_type == note_type) ≡ false
unfolding string_eq char_eq
inner_other = refl

inner-apart : inner_type ≢ note_type
inner-apart e = true≢false (sym ((==_iff inner_type note_type).1 e) ∙ inner_other)

landed-nearer_example :
    (changed inner_type blank ≡ true) ⊎ ((guarded first_store blank (a_create ∷ [])).1 ≡ true)
landed-nearer_example =
    landed-nearer first_store blank a_create a_note refl (a_create ∷ []) (an_entry ∷ []) then_held
      then_after no_versions "https://example.org/note/daily/one" note_type inner_type
      then_held-IsIntact (inl refl) (of_itself refl not_types) stood_under still_typed stands_under
      inner-apart lands_then
