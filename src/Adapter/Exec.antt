-- ===== src/Adapter/Exec.antt =====
-- Statements of a connection inside its transaction. What was written before a statement raises
-- stays written until a rollback, so the tables come back beside the refusal too.
use shopsystem_kb.Base.{◌≡◌, refl}
use shopsystem_kb.Port.{Refusal}

pub data Result {ℓ} (A : Type ℓ) : Type ℓ where
  ok : A → Result A
  err : Refusal → Result A

abbrev pub Exec : Type 0 → Type 0 → Type 0
Exec S A = S → Result A × S

module _ {S A : Type 0} where
  abbrev pub done : A → Exec S A
  done a s = (ok a, s)

  abbrev pub raise : Refusal → Exec S A
  raise e s = (err e, s)

  abbrev pub read : (S → A) → Exec S A
  read f s = (ok (f s), s)

abbrev pub write : {S : Type 0} → (S → S) → Exec S Unit
write f s = (ok tt, f s)

module _ {S A B : Type 0} where
  abbrev go_on : Result A → (A → Exec S B) → Exec S B
  go_on (ok a) f s = f a s
  go_on (err e) f s = (err e, s)

  infixl 10 ◌>>=◌ ◌>>◌
  abbrev pub ◌>>=◌ : Exec S A → (A → Exec S B) → Exec S B
  ◌>>=◌ m f s = go_on (m s).0 f (m s).1

  abbrev pub ◌>>◌ : Exec S A → Exec S B → Exec S B
  m >> n = m >>= λ _. n

-- A run that succeeds with a value and leaves a state.
abbrev pub Gives : {S A : Type 0} → Exec S A → S → A → S → Type 0
Gives m s a t = m s ≡ (ok a, t)

module _ {S A B : Type 0} where
  go_on-ok :
      (r : Result A × S) (f : A → Exec S B) {b : B} {t : S}
      → go_on r.0 f r.1 ≡ (ok b, t)
      → (a : A) × (u : S) × (r ≡ (ok a, u)) × Gives (f a) u b t
  go_on-ok (ok a, u) f h = (a, u, refl, h)
  go_on-ok (err e, u) f h = absurd (cc)

  -- The first part of a run that succeeds has succeeded, and the rest ran from where it left off.
  pub Gives-bind :
      (m : Exec S A) (f : A → Exec S B) (s : S) {b : B} {t : S}
      → Gives (m >>= f) s b t
      → (a : A) × (u : S) × Gives m s a u × Gives (f a) u b t
  Gives-bind m f s h = go_on-ok (m s) f h
