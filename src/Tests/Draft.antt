-- ===== src/Tests/Draft.antt =====
-- A draft over a store that holds one type, and one link that waits.
use shopsystem_kb.Base.{
  ℕ, String, ◌≡◌, refl, ap, ◌∙◌, true, false, none, some, [], ◌∷◌, ◌==◌, contains, sorted,
  string_eq, option_eq, nat_eq, In, inl, inr, if◌then◌else◌, arith,
}
use shopsystem_kb.Base.Texts.{char_eq}
use shopsystem_kb.Base.Dict.{lookup, insert}
use mathlib.Core.Path.{subst}
use shopsystem_kb.Port.{Linking}
use shopsystem_kb.Content.{key_eq, named, whole, text, Fields, end, entry, get, get_text}
use shopsystem_kb.Content.Settled.{typed}
use shopsystem_kb.Types.Composition.{kept, typed_at}
use shopsystem_kb.Types.Declared.{made}
use shopsystem_kb.Draft.{
  Store, Draft, blank, is_some, made_by, version_in, put, remove, changed, holds, versions,
  artifact, corpus_of,
}
use shopsystem_kb.Draft.Steps.{IsFull, start, then_step, puts, removes, Steps}
use shopsystem_kb.Draft.Operations.{listed_by}
use shopsystem_kb.Draft.Listed.{ListsVersions, versions-kept}
use shopsystem_kb.Draft.Reread.{artifact-Steps}
use shopsystem_kb.Draft.Linked.{waiting, links_in, put_links, unchanged, by_source}
use shopsystem_kb.Draft.Sources.{waiting-holds, links_in-holds}

abbrev note_id : String
note_id = "https://example.org/note"

abbrev a_note : Fields
a_note = entry (named "type") (text "https://missingmass.io/kb/type@1") (
    entry (named "version") (whole 1)
      (entry (named "revision") (whole 3) (entry (named "title") (text "Note") end)))

abbrev a_link : Linking
a_link = record {
  source = note_id;
  field = "about";
  place = "about";
  target = "https://example.org/one";
  part = "";
  holder = none;
}

abbrev a_store : Store
a_store = record {
  artifact = λ id. if id == note_id then some a_note else none;
  type_version = λ v.
      if v.kind == note_id
      then if v.number == 1
        then some (record { version = v; content = a_note; revision = 3; title = "Note" })
        else none
      else none;
  versions = λ id. if id == note_id then 1 ∷ [] else [];
  ids = λ kind_name. [];
  links_in = λ target. if target == "https://example.org/one" then a_link ∷ [] else [];
  waiting = a_link ∷ [];
  waiting_of = λ id. [];
}

a_store-ListsVersions : ListsVersions a_store
a_store-ListsVersions id n = ground arith

abbrev second_note : Fields
second_note = entry (named "type") (text "https://missingmass.io/kb/type@1") (
    entry (named "version") (whole 2)
      (entry (named "revision") (whole 1) (entry (named "title") (text "Note") end)))

second_note-IsFull : IsFull second_note
unfolding get get_text string_eq char_eq key_eq
second_note-IsFull = (1, "Note", refl, refl)

second_note-numbered : typed second_note ≡ true → (n : ℕ) × (made_by second_note ≡ some n)
unfolding made_by version_in typed get string_eq char_eq key_eq option_eq
second_note-numbered t = (2, refl)

-- The type taken out and defined again, at another number.
abbrev defined_again : Draft
defined_again = put note_id second_note (remove note_id blank)

abbrev again_steps : Steps blank defined_again
again_steps =
    then_step (then_step start (removes note_id))
      (puts note_id second_note second_note-IsFull second_note-numbered)

again-typed : typed_at (corpus_of a_store defined_again) note_id ≡ true
unfolding typed_at corpus_of holds artifact put remove lookup string_eq char_eq option_eq key_eq
again-typed = refl

versions-kept_example :
    (contains (versions a_store note_id defined_again) 1
      ≡ is_some (kept (corpus_of a_store defined_again) note_id 1))
    × (contains (versions a_store note_id defined_again) 1
        ≡ listed_by a_store again_steps note_id 1)
versions-kept_example =
    versions-kept a_store defined_again note_id 1 a_store-ListsVersions again_steps again-typed

versions_run : versions a_store note_id defined_again ≡ 2 ∷ []
unfolding versions put remove lookup insert made_by version_in string_eq char_eq option_eq key_eq
    nat_eq sorted
versions_run = refl

abbrev read_note : Draft
read_note = (artifact a_store note_id blank).1

note-read : (artifact a_store note_id blank).0 ≡ some a_note
unfolding artifact lookup string_eq char_eq
note-read = refl

note-unput : lookup note_id (blank).pending ≡ none
unfolding lookup
note-unput = refl

a_note-typed : typed a_note ≡ true
unfolding typed string_eq char_eq key_eq option_eq
a_note-typed = refl

note-still_unput : lookup note_id (remove "https://example.org/one" read_note).pending ≡ none
unfolding artifact remove lookup string_eq char_eq option_eq
note-still_unput = refl

artifact-Steps_example :
    (artifact a_store note_id (remove "https://example.org/one" read_note)).0 ≡ some a_note
artifact-Steps_example =
    artifact-Steps a_store a_store blank (remove "https://example.org/one" read_note) note_id a_note
      note-unput note-read a_note-typed (then_step start (removes "https://example.org/one"))
      note-still_unput

note-stored : is_some (a_store.artifact note_id) ≡ true
unfolding string_eq char_eq
note-stored = refl

held_there : (l : Linking) → In l (a_store.waiting) → is_some (a_store.artifact l.source) ≡ true
held_there l (inl e) = ap (λ (r : Linking). is_some (a_store.artifact r.source)) e ∙ note-stored
held_there l (inr m) = absurd m.1

waiting_run : waiting a_store 0 blank ≡ made (a_link ∷ [])
unfolding waiting put_links unchanged by_source holds changed string_eq char_eq lookup sorted
waiting_run = refl

waiting-holds_example :
    (holds a_store note_id blank ≡ true) × (holds a_store "https://example.org/one" blank ≡ false)
waiting-holds_example =
    waiting-holds a_store 0 blank (a_link ∷ []) a_link held_there waiting_run (inl refl)

one-linked : a_store.links_in "https://example.org/one" ≡ a_link ∷ []
unfolding string_eq char_eq
one-linked = refl

lands_there :
    (l : Linking)
    → In l (a_store.links_in "https://example.org/one")
    → (is_some (a_store.artifact l.source) ≡ true) × (l.target ≡ "https://example.org/one")
lands_there l m = elim (subst (In l) one-linked m) [
  | inl e ↦ (
    ap (λ (r : Linking). is_some (a_store.artifact r.source)) e ∙ note-stored,
    ap (λ (r : Linking). r.target) e,
  )
  | inr n ↦ absurd n.1
]

links_in_run : links_in a_store 0 blank "https://example.org/one" ≡ made (a_link ∷ [])
unfolding links_in put_links unchanged by_source changed string_eq char_eq lookup sorted
links_in_run = refl

links_in-holds_example :
    (holds a_store note_id blank ≡ true) × (a_link.target ≡ "https://example.org/one")
links_in-holds_example =
    links_in-holds a_store 0 blank "https://example.org/one" (a_link ∷ []) a_link lands_there
      links_in_run (inl refl)
