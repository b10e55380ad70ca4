-- ===== src/Types/Declared/Endless.antt =====
-- Types that are built on each other.
use shopsystem_kb.Base.{ℕ, zero, suc, String, ◌≡◌, refl, none, some}
use shopsystem_kb.Content.{Fields, get}
use shopsystem_kb.Types.Composition.{Corpus}
use shopsystem_kb.Types.Declared.{
  made, unended, base, type_schema, on_base, composition, each_member,
}

-- A schema that is built on the one that a reference names, and on nothing else.
pub record IsBuiltOn (corpus : Corpus) (schema other : Fields) : Type 0 where
  pub ref : String
  pub alone : get "allOf" schema ≡ none
  pub built_on : base schema ≡ some ref
  pub named_so : type_schema corpus ref ≡ made other

composition-next :
    (corpus : Corpus) (fuel : ℕ) (schema other : Fields)
    → IsBuiltOn corpus schema other
    → composition corpus fuel other ≡ unended
    → composition corpus (suc fuel) schema ≡ unended
unfolding composition each_member on_base
composition-next corpus fuel schema other b h = rw (b.alone, b.built_on, b.named_so, h)

-- The bases of two schemas that are built on each other have no end: no fuel is enough to follow them.
pub composition-endless :
    (corpus : Corpus) (a b : Fields)
    → IsBuiltOn corpus a b
    → IsBuiltOn corpus b a
    → (fuel : ℕ) → (composition corpus fuel a ≡ unended) × (composition corpus fuel b ≡ unended)
unfolding composition
composition-endless corpus a b on_b on_a zero = (refl, refl)
composition-endless corpus a b on_b on_a (suc fuel) =
    let (first, second) = composition-endless corpus a b on_b on_a fuel in
    (composition-next corpus fuel a b on_b second, composition-next corpus fuel b a on_a first)
