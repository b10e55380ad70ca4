-- ===== src/Base/Dict.antt =====
-- Python's dicts, in insertion order.
use mathlib.Core.Path.{◌≡◌, refl}
use mathlib.Core.Bool.{false}
use mathlib.Core.Option.{Option, none, some}
use mathlib.Core.List.{List, [], ◌∷◌, map}
use native.Mathlib.Omega.{arith}
use shopsystem_kb.Base.Equality.{Eq, ◌==◌, if◌then◌else◌}
use shopsystem_kb.Base.Lists.{In}

abbrev pub Dict {ℓ κ} : Type ℓ → Type κ → Type (ℓ ⊔ κ)
Dict K V = List (K × V)

abbrev pub keys {ℓ κ} : {K : Type ℓ} {V : Type κ} → Dict K V → List K
keys = map (λ (k, _). k)

module _ {ℓ κ} {K : Type ℓ} {V : Type κ} ⦃e : Eq K⦄ where
  -- `d.get(k)`
  unfoldable pub lookup : K → Dict K V → Option V
  lookup k [] = none
  lookup k ((j, v) ∷ d) = if k == j then some v else lookup k d

  -- `d[k] = v`
  unfoldable pub insert : K → V → Dict K V → Dict K V
  insert k v [] = (k, v) ∷ []
  insert k v ((j, w) ∷ d) = if k == j then (j, v) ∷ d else (j, w) ∷ insert k v d

  -- `d.setdefault(k, v)`
  unfoldable pub set_default : K → V → Dict K V → Dict K V
  set_default k v [] = (k, v) ∷ []
  set_default k v ((j, w) ∷ d) = if k == j then (j, w) ∷ d else (j, w) ∷ set_default k v d

  -- `d.pop(k, None)`
  unfoldable pub erase : K → Dict K V → Dict K V
  erase k [] = []
  erase k ((j, w) ∷ d) = let rest = erase k d in if k == j then rest else (j, w) ∷ rest

  pub lookup-insert :
      (j k : K) (v : V) (d : Dict K V)
      → lookup j (insert k v d) ≡ (if j == k then some v else lookup j d)
  unfolding lookup insert
  lookup-insert j k v [] = refl
  lookup-insert j k v ((i, w) ∷ d) = ground (arith, lookup-insert j k v d)

  pub lookup-erase :
      (j k : K) (d : Dict K V) → lookup j (erase k d) ≡ (if j == k then none else lookup j d)
  unfolding lookup erase
  lookup-erase j k [] = ground arith
  lookup-erase j k ((i, w) ∷ d) = ground (arith, lookup-erase j k d)

  pub lookup-set_default_held :
      (k : K) (v w : V) (j : K) (d : Dict K V)
      → lookup j d ≡ some w
      → lookup j (set_default k v d) ≡ some w
  unfolding lookup set_default
  lookup-set_default_held k v w j [] h = cc
  lookup-set_default_held k v w j ((i, u) ∷ d) h = ground (arith, lookup-set_default_held k v w j d)

  pub lookup-set_default_new :
      (k : K) (v : V) (d : Dict K V) → lookup k d ≡ none → lookup k (set_default k v d) ≡ some v
  unfolding lookup set_default
  lookup-set_default_new k v [] h = ground arith
  lookup-set_default_new k v ((i, u) ∷ d) h = ground (arith, lookup-set_default_new k v d)

  pub lookup-set_default_ne :
      (k : K) (v : V) (j : K) (d : Dict K V)
      → (j == k) ≡ false
      → lookup j (set_default k v d) ≡ lookup j d
  unfolding lookup set_default
  lookup-set_default_ne k v j [] h = ground arith
  lookup-set_default_ne k v j ((i, u) ∷ d) h = ground (arith, lookup-set_default_ne k v j d)

  pub In-of_lookup : (k : K) (v : V) (d : Dict K V) → lookup k d ≡ some v → In (k, v) d
  unfolding lookup
  In-of_lookup k v [] h = cc
  In-of_lookup k v ((i, u) ∷ d) h = ground (arith, In-of_lookup k v d)
