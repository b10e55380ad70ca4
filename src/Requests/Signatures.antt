-- ===== src/Requests/Signatures.antt =====
-- src/kb/signatures.py: who makes a change and why.
use Prim.Native.Char.{Char, code}
use Prim.Native.String.{[] as nil, ◌∷◌ as ◌◂◌}
use shopsystem_kb.Base.{
  String, Bool, true, ◌&&◌, ◌||◌, List, [], ◌∷◌, ◌++◌, ◌==◌, string_eq, nat_eq, leb, if◌then◌else◌,
}
use shopsystem_kb.Requests.{Fault, Outcome, converted, refused}

-- The contract's signature, as a request carries it.
pub record Signature : Type 0 where
  pub role : String
  pub execution : String
  pub message : String

pub record Actor : Type 0 where
  pub role : String
  pub execution : String

pub record Signed : Type 0 where
  pub actor : Actor
  pub message : String

-- `c.isspace()`
abbrev is_space : Char → Bool
is_space c =
    let n = code c in
    leb 9 n && leb n 13
    || leb 28 n && leb n 32
    || n == 133
    || n == 160
    || n == 5760
    || leb 8192 n && leb n 8202
    || n == 8232
    || n == 8233
    || n == 8239
    || n == 8287
    || n == 12288

-- `not text.strip()`
unfoldable pub is_blank : String → Bool
is_blank nil = true
is_blank (c ◂ s) = is_space c && is_blank s

abbrev fault_of : String → Fault
fault_of rule = record { artifact = ""; place = ""; rule = rule }

-- `_unsigned`
unfoldable pub unsigned : Signature → List Fault
unfolding is_blank
unsigned signature =
    (if is_blank signature.role then fault_of "actor" ∷ [] else [])
    ++ (if is_blank signature.message then fault_of "message" ∷ [] else [])

abbrev signed_as : Signature → List Fault → Outcome Signed
signed_as s [] =
    converted
      (record { actor = record { role = s.role; execution = s.execution }; message = s.message })
signed_as s (f ∷ fs) = refused (f ∷ fs)

unfoldable pub signed : Signature → Outcome Signed
unfolding unsigned
signed signature = signed_as signature (unsigned signature)

unfoldable pub reader : Signature → Outcome Signed
unfolding unsigned
reader signature =
    signed_as signature
      (unsigned signature ++ (if signature.execution == "" then fault_of "actor" ∷ [] else []))
