-- ===== src/Requests/Changes.antt =====
-- src/kb/changes.py: a change's request, alone or in a set, as the values its domain call takes.
-- What src/kb/content_values.py reads of content is a parameter, `D` the type of what it gives: the
-- reading of YAML is ruamel's.
use shopsystem_kb.Base.{
  ℕ, String, Bool, true, false, Option, List, [], ◌∷◌, ◌++◌, map, contains, string_eq,
  if◌then◌else◌, zip,
}
use shopsystem_kb.Port.{Version}
use shopsystem_kb.Requests.{Fault, Outcome, converted, refused, ◌>>=◌}
use shopsystem_kb.Requests.Values.{
  Locator, Asked, artifact_id, version, named, locator, titled, expected,
}
use shopsystem_kb.Requests.Signatures.{Signature, Signed, signed}

pub record Create (D : Type 0) : Type 0 where
  pub name : String
  pub version : Version
  pub title : String
  pub title_faults : List Fault
  pub content : D
  pub carried : List Fault

pub record Replace (D : Type 0) : Type 0 where
  pub locator : Locator
  pub content : D
  pub expected : Option ℕ
  pub version : Option Version

pub record Add (D : Type 0) : Type 0 where
  pub locator : Locator
  pub item : D
  pub expected : Option ℕ

pub record Remove : Type 0 where
  pub locator : Locator
  pub expected : Option ℕ

-- The items of the contract's requests.
pub record AskedCreate : Type 0 where
  pub id : String
  pub type_version : String
  pub title : String
  pub content : String

pub record AskedChange : Type 0 where
  pub locator : Asked
  pub content : String
  pub revision : ℕ
  pub type_version : String

-- A change of a set: converted, or standing as its `requests.Refusal`.
pub data Standing (A : Type 0) : Type 0 where
  change : A → Standing A
  refusal : List Fault → Standing A

abbrev stand : {A : Type 0} → Outcome A → Standing A
stand (converted a) = change a
stand (refused fs) = refusal fs

-- `_each`
unfoldable pub each : {A : Type 0} → List (Outcome A) → List (Standing A)
each conversions = map stand conversions

-- `_one`
unfoldable pub one : {A : Type 0} → Signature → Outcome A → Outcome (List (Standing A) × Signed)
unfolding signed each
one signature convert = signed signature >>= λ by. converted (each (convert ∷ []), by)

-- `_many`
unfoldable pub many :
    {A : Type 0} → Signature → List (Outcome A) → Outcome (List (Standing A) × Signed)
unfolding signed each
many signature [] = signed signature >>= λ _.
    refused (record { artifact = ""; place = ""; rule = "operations" } ∷ [])
many signature (c ∷ cs) = signed signature >>= λ by. converted (each (c ∷ cs), by)

-- `_carried_again`, with the IRIs before.
unfoldable pub carried_after : List String → List String → List Bool
carried_after before [] = []
carried_after before (iri ∷ iris) = contains before iri ∷ carried_after (before ++ iri ∷ []) iris

unfoldable pub carried_again : List String → List Bool
unfolding carried_after
carried_again iris = carried_after [] iris

-- `refusals.carried_twice`
abbrev pub carried_twice : String → Fault
carried_twice iri = record { artifact = iri; place = ""; rule = "identity" }

module _ {D : Type 0} (content_of : Bool → String → D) (item_of : String → D) where
  abbrev create_with : AskedCreate → Bool → Outcome String → Outcome Version → Outcome (Create D)
  create_with asked again (converted name) (converted v) = converted (record {
    name = name;
    version = v;
    title = asked.title;
    title_faults = titled asked.title asked.id;
    content = content_of true asked.content;
    carried = if again then carried_twice name ∷ [] else [];
  })
  create_with asked again (converted name) (refused fs) =
      refused ((if again then carried_twice name ∷ [] else []) ++ fs)
  create_with asked again (refused fs) (converted v) = refused fs
  create_with asked again (refused fs) (refused gs) = refused (fs ++ gs)

  -- `_create`
  unfoldable pub create : AskedCreate → Bool → Outcome (Create D)
  unfolding artifact_id version titled
  create asked again = create_with asked again (artifact_id asked.id) (version asked.type_version)

  abbrev at_root : Locator → Bool
  at_root l = elim (l.place) [ [] ↦ true | _ ∷ _ ↦ false ]

  -- `_replace`
  unfoldable pub replace : AskedChange → Outcome (Replace D)
  unfolding locator named expected
  replace asked = locator asked.locator >>= λ l. named asked.type_version >>= λ v.
      converted (record {
        locator = l;
        content = content_of (at_root l) asked.content;
        expected = expected asked.revision;
        version = v;
      })

  -- `_add`
  unfoldable pub add : AskedChange → Outcome (Add D)
  unfolding locator expected
  add asked = locator asked.locator >>= λ l.
      converted
        (record { locator = l; item = item_of asked.content; expected = expected asked.revision })

  unfoldable pub creating : Signature → AskedCreate → Outcome (List (Standing (Create D)) × Signed)
  unfolding one create
  creating signature asked = one signature (create asked false)

  unfoldable pub replacing :
      Signature → AskedChange → Outcome (List (Standing (Replace D)) × Signed)
  unfolding one replace
  replacing signature asked = one signature (replace asked)

  unfoldable pub adding : Signature → AskedChange → Outcome (List (Standing (Add D)) × Signed)
  unfolding one add
  adding signature asked = one signature (add asked)

  unfoldable pub creating_many :
      Signature → List AskedCreate → Outcome (List (Standing (Create D)) × Signed)
  unfolding many create carried_again
  creating_many signature asked = many signature (
      map (λ (each : AskedCreate × Bool). create each.0 each.1)
        (zip asked (carried_again (map (λ (each : AskedCreate). each.id) asked))))

  unfoldable pub replacing_many :
      Signature → List AskedChange → Outcome (List (Standing (Replace D)) × Signed)
  unfolding many replace
  replacing_many signature asked = many signature (map replace asked)

  unfoldable pub adding_many :
      Signature → List AskedChange → Outcome (List (Standing (Add D)) × Signed)
  unfolding many add
  adding_many signature asked = many signature (map add asked)

-- `_remove`
unfoldable pub remove : Asked × ℕ → Outcome Remove
unfolding locator expected
remove (asked, revision) =
    locator asked >>= λ l. converted (record { locator = l; expected = expected revision })

unfoldable pub removing : Signature → Asked × ℕ → Outcome (List (Standing Remove) × Signed)
unfolding one remove
removing signature asked = one signature (remove asked)

unfoldable pub removing_many :
    Signature → List (Asked × ℕ) → Outcome (List (Standing Remove) × Signed)
unfolding many remove
removing_many signature asked = many signature (map remove asked)
