-- ===== src/Tests/Declared.antt =====
-- Schemas that are built on nothing, on a type, and on each other.
use shopsystem_kb.Base.{
  Option, sym, ap, ◌∙◌, ==_iff, ==_refl, Bool-cases, inl, inr, arith, String, ◌≡◌, refl, false,
  none, some, [], ◌∷◌, ◌==◌, string_eq, option_eq, nat_eq, if◌then◌else◌, All, ℕ, In, ◌+◌, ◌≢◌,
  true, ◌<◌,
}
use shopsystem_kb.Base.Texts.{char_eq}
use mathlib.Core.Path.{subst}
use shopsystem_kb.Content.{
  key_eq, named, text, items, fields, nil, cons, Fields, end, entry, get, find,
}
use shopsystem_kb.Types.Composition.{Corpus, reference, kept, typed_at, Reference, references}
use shopsystem_kb.Types.Declared.{made, unended, base, type_schema, composition, declared, Declared}
use shopsystem_kb.Types.Declared.Own.{field, declared-own}
use shopsystem_kb.Types.Declared.Ranked.{schema_type, composition-ends}
use shopsystem_kb.Types.Declared.Bases.{made-injective}
use shopsystem_kb.Types.Declared.Endless.{IsBuiltOn, composition-endless}
use shopsystem_kb.Links.{Link, inside}
use shopsystem_kb.Links.Stands.{Stands}
use shopsystem_kb.Links.Placed.{inside-Stands}

abbrev kind_field : Fields
kind_field = entry (named "type") (text "string") end

abbrev plain_schema : Fields
plain_schema =
    entry (named "properties") (fields (entry (named "about") (fields kind_field) end))
      (entry (named "parts") (fields (entry (named "lines") (fields end) end)) end)

abbrev no_types : Corpus
no_types = record { artifact = λ id. none; type_version = λ v. none }

abbrev plain_declared : Declared
plain_declared = record {
  properties = entry (named "about") (fields kind_field) end;
  parts = entry (named "lines") (fields end) end;
  summary = [];
}

plain_run : declared no_types 1 plain_schema ≡ made plain_declared
unfolding declared composition base get string_eq char_eq key_eq
plain_run = refl

-- A schema built on a type that declares the same field, with no collection of its own.
abbrev base_ref : String
base_ref = "kb:https://example.org/base@1"

abbrev base_schema : Fields
base_schema =
    entry (named "properties") (fields (entry (named "about") (fields end) end))
      (entry (named "parts") (fields (entry (named "lines") (fields end) end)) end)

abbrev own_fields : Fields
own_fields = entry (named "about") (fields kind_field) end

abbrev based_schema : Fields
based_schema =
    entry (named "$ref") (text base_ref) (entry (named "properties") (fields own_fields) end)

abbrev base_type : Corpus
base_type = record {
  artifact = λ id. some (entry (named "type") (text "https://missingmass.io/kb/type@1") end);
  type_version = λ v. some (entry (named "schema") (fields base_schema) end);
}

abbrev based_declared : Declared
based_declared = record {
  properties = own_fields;
  parts = entry (named "lines") (fields end) end;
  summary = [];
}

based_run : declared base_type 2 based_schema ≡ made based_declared
unfolding declared composition base type_schema reference kept typed_at get string_eq char_eq key_eq
    option_eq nat_eq
based_run = refl

based_own : get "properties" based_schema ≡ some (fields own_fields)
unfolding get string_eq char_eq key_eq
based_own = refl

about_there : find (named "about") own_fields ≡ some (fields kind_field)
unfolding find string_eq char_eq key_eq
about_there = refl

declared-own_example : find (named "about") (based_declared.properties) ≡ some (fields kind_field)
declared-own_example =
    declared-own field base_type 2 based_schema own_fields based_declared (named "about")
      (fields kind_field) based_run based_own (refl, tt) about_there

abbrev built_on : String → Fields
built_on ref = entry (named "$ref") (text ref) end

abbrev first_ref : String
first_ref = "kb:https://example.org/first@1"

abbrev second_ref : String
second_ref = "kb:https://example.org/second@1"

abbrev a_type : Fields → Fields
a_type schema =
    entry (named "type") (text "https://missingmass.io/kb/type@1")
      (entry (named "schema") (fields schema) end)

abbrev two_types : Corpus
two_types = record {
  artifact = λ id. some (a_type end);
  type_version = λ v. some (
      a_type (
        if v.kind == "https://example.org/first" then built_on second_ref else built_on first_ref));
}

first-IsBuiltOn : IsBuiltOn two_types (built_on second_ref) (built_on first_ref)
unfolding base type_schema reference kept typed_at get string_eq char_eq key_eq option_eq nat_eq
first-IsBuiltOn = record { ref = second_ref; alone = refl; built_on = refl; named_so = refl }

second-IsBuiltOn : IsBuiltOn two_types (built_on first_ref) (built_on second_ref)
unfolding base type_schema reference kept typed_at get string_eq char_eq key_eq option_eq nat_eq
second-IsBuiltOn = record { ref = first_ref; alone = refl; built_on = refl; named_so = refl }

composition-endless_example :
    (composition two_types 9 (built_on second_ref) ≡ unended)
    × (composition two_types 9 (built_on first_ref) ≡ unended)
composition-endless_example =
    composition-endless two_types (built_on second_ref) (built_on first_ref) first-IsBuiltOn
      second-IsBuiltOn 9

-- A type that is built on another, which is built on none.
abbrev upper_type : Corpus
upper_type = record {
  artifact = λ id. some (entry (named "type") (text "https://missingmass.io/kb/type@1") end);
  type_version = λ v.
      if v.kind == "https://example.org/first"
      then some (a_type (built_on second_ref))
      else some (a_type plain_schema);
}

abbrev rank : Reference → ℕ
rank r = if r.type_id == some "https://example.org/first" then 1 else 0

abbrev second_reference : Reference
second_reference = record {
  type_id = some "https://example.org/second";
  whole_type = true;
  number = 1;
}

upper-typed : (t : String) → typed_at upper_type t ≡ true
unfolding typed_at string_eq char_eq option_eq key_eq
upper-typed t = refl

upper-kept :
    (t : String) (n : ℕ)
    → kept upper_type t n
      ≡ some
          (a_type (if t == "https://example.org/first" then built_on second_ref else plain_schema))
unfolding kept
upper-kept t n = ground (arith, upper-typed t)

schema-a_type : (schema : Fields) → get "schema" (a_type schema) ≡ some (fields schema)
unfolding get string_eq char_eq key_eq
schema-a_type schema = refl

upper-schema :
    (ref t : String) (r : Reference)
    → reference ref ≡ some r
    → r.type_id ≡ some t
    → type_schema upper_type ref
      ≡ made (if t == "https://example.org/first" then built_on second_ref else plain_schema)
unfolding type_schema
upper-schema ref t r h k = rw (h, k, upper-kept t r.number, schema-a_type _) refl

upper-references : references (fields (built_on second_ref)) ≡ second_reference ∷ []
unfolding references reference string_eq char_eq
upper-references = refl

plain-references : references (fields plain_schema) ≡ []
unfolding references string_eq char_eq
plain-references = refl

second-rank : rank second_reference ≡ 0
unfolding string_eq char_eq option_eq
second-rank = refl

rank-falls :
    (ref : String) (x : Fields) (r s : Reference)
    → reference ref ≡ some r
    → type_schema upper_type ref ≡ made x
    → In s (references (fields x))
    → s.whole_type ≡ true
    → rank s < rank r
rank-falls ref x r s h e m w =
    let (t, type_is) = schema_type upper_type ref x r h e in
    let found = sym e ∙ upper-schema ref t r h type_is in
    elim (Bool-cases (t == "https://example.org/first")) [
      | inr lower ↦
          let is = made-injective x plain_schema (found ∙ rw lower refl) in
          absurd (subst (In s) (ap (λ d. references (fields d)) is ∙ plain-references) m).1
      | inl upper ↦
          let is = made-injective x (built_on second_ref) (found ∙ rw upper refl) in
          elim (subst (In s) (ap (λ d. references (fields d)) is ∙ upper-references) m) [
            | inl q ↦
                let low = ap rank q ∙ second-rank in
                let high : rank r ≡ 1 =
                  rw
                    (
                      type_is,
                      ap (λ u. some u) ((==_iff t "https://example.org/first").0 upper),
                      ==_refl {A = Option String} (some "https://example.org/first"),
                    )
                    refl in
                omega arith
            | inr q ↦ absurd q.1
          ]
    ]

composition-ends_example :
    (n : ℕ) × ((k : ℕ) → composition upper_type (k + n) (built_on first_ref) ≢ unended)
composition-ends_example = composition-ends upper_type rank rank-falls (built_on first_ref)

-- A collection of lines, each of which links.
abbrev line_schema : Fields
line_schema =
    entry (named "properties")
      (fields (
        entry (named "about")
          (fields (entry (named "ref") (text "kb:https://example.org/note@1") end)) end))
      end

abbrev lines_schema : Fields
lines_schema =
    entry (named "parts")
      (fields (entry (named "lines") (fields (entry (named "items") (fields line_schema) end)) end))
      end

abbrev a_page : Fields
a_page =
    entry (named "lines")
      (items (
        cons
          (fields (
            entry (named "id") (text "first")
              (entry (named "about") (text "https://example.org/one") end)))
          nil))
      end

abbrev line_link : Link
line_link = record {
  field = "about";
  place = "lines/0/about";
  target = text "https://example.org/one";
  ref = text "kb:https://example.org/note@1";
  own = false;
  holder = "lines/first";
}

inside_run : inside no_types 3 (some "") a_page lines_schema ≡ made (line_link ∷ [])
unfolding inside string_eq char_eq key_eq option_eq nat_eq
inside_run = refl

inside-Stands_example : All (λ (link : Link). Stands a_page link.place link.target) (line_link ∷ [])
inside-Stands_example =
    inside-Stands no_types 3 (some "") a_page lines_schema (line_link ∷ []) inside_run
