-- ===== src/Requests.antt =====
-- The boundary: what src/kb/values.py, src/kb/signatures.py, src/kb/changes.py and
-- src/kb/requests.py make of the values a request carries. A fault is its artifact, place and rule;
-- its message is not modelled. An artifact and a kind are their IRIs.
pub mod Values
pub mod Signatures
pub mod Changes
pub mod Reading
pub mod Written
pub mod Sets
use shopsystem_kb.Base.{String, Option, none, some, List, [], ◌∷◌, ◌++◌}

pub record Fault : Type 0 where
  pub artifact : String
  pub place : String
  pub rule : String

-- What a conversion gives: the value, or `Refused` with every fault found.
pub data Outcome {ℓ} (A : Type ℓ) : Type ℓ where
  converted : A → Outcome A
  refused : List Fault → Outcome A

-- The faults found, and the value where there is one.
abbrev pub faults_of {ℓ} : {A : Type ℓ} → Outcome A → List Fault
faults_of (converted a) = []
faults_of (refused fs) = fs

module _ {A B : Type 0} where
  infixl 10 ◌>>=◌
  abbrev pub ◌>>=◌ : Outcome A → (A → Outcome B) → Outcome B
  converted a >>= f = f a
  refused fs >>= f = refused fs
