-- ===== src/Tests/Types.antt =====
-- The type that an IRI belongs to, and belonged to one that is gone, in a corpus that holds one type.
use shopsystem_kb.Base.{
  String, ◌≡◌, refl, true, none, some, ◌==◌, string_eq, option_eq, if◌then◌else◌,
}
use shopsystem_kb.Base.Texts.{char_eq}
use shopsystem_kb.Content.{key_eq, named, text, Fields, end, entry}
use shopsystem_kb.Types.Composition.{Corpus, nearest_type, nearest_was}
use shopsystem_kb.Content.Settled.{typed}
use shopsystem_kb.Types.Nearest.{with_held, nearest_was-nearest_type}

abbrev note_type : String
note_type = "https://example.org/note"

abbrev a_type : Fields
a_type = entry (named "type") (text "https://missingmass.io/kb/type@1") end

abbrev one_type : Corpus
one_type = record {
  artifact = λ id. if id == note_type then some a_type else none;
  type_version = λ v. none;
}

abbrev gone_type : String
gone_type = "https://example.org/note/daily"

a_type-typed : typed a_type ≡ true
unfolding typed string_eq char_eq option_eq key_eq
a_type-typed = refl

nearest_was-nearest_type_example :
    nearest_was one_type "https://example.org/note/daily/one" gone_type ≡ (
      nearest_type (with_held gone_type a_type one_type) "https://example.org/note/daily/one"
      == some gone_type)
nearest_was-nearest_type_example =
    nearest_was-nearest_type one_type gone_type a_type a_type-typed
      "https://example.org/note/daily/one"

nearest_was_run : nearest_was one_type "https://example.org/note/daily/one" gone_type ≡ true
unfolding nearest_was string_eq char_eq option_eq
nearest_was_run = refl

nearest_run : nearest_type one_type "https://example.org/note/one" ≡ some note_type
unfolding nearest_type string_eq char_eq option_eq
nearest_run = refl
