-- ===== src/Base/Decimal.antt =====
-- `str(n)` and `int(text)` for natural numbers in decimal.
use Prim.Native.Nat.{ℕ, zero, suc, ◌+◌, ◌-◌, ◌*◌, ◌/◌, ◌%◌, ◌<◌}
use Prim.Native.Char.{Char, code}
use Prim.Native.String.{String, [] as nil, ◌∷◌ as ◌◂◌, ◌++◌ as ◌<>◌}
use mathlib.Core.Path.{◌≡◌, refl}
use mathlib.Core.Bool.{Bool, true, ◌&&◌}
use native.Mathlib.Omega.{arith}
use text.Mathlib.TextLemmas.{nil-append, cons-append}
use shopsystem_kb.Base.Equality.{leb, ltb, if◌then◌else◌, Bool-cases}
use mathlib.Core.Logic.{inl, inr}

-- The character of a digit.
unfoldable pub digit : ℕ → Char
digit zero = "0"
digit (suc zero) = "1"
digit (suc (suc zero)) = "2"
digit (suc (suc (suc zero))) = "3"
digit (suc (suc (suc (suc zero)))) = "4"
digit (suc (suc (suc (suc (suc zero))))) = "5"
digit (suc (suc (suc (suc (suc (suc zero)))))) = "6"
digit (suc (suc (suc (suc (suc (suc (suc zero))))))) = "7"
digit (suc (suc (suc (suc (suc (suc (suc (suc zero)))))))) = "8"
digit (suc (suc (suc (suc (suc (suc (suc (suc (suc n))))))))) = "9"

unfoldable pub decimal_fuel : ℕ → ℕ → String
unfolding digit
decimal_fuel zero n = nil
decimal_fuel (suc f) n =
    let rest = decimal_fuel f (n / 10) in
    if ltb n 10 then digit n ◂ nil else rest <> (digit (n % 10) ◂ nil)

-- `str(n)`; a number has no more digits than it counts.
unfoldable pub decimal : ℕ → String
unfolding decimal_fuel
decimal n = decimal_fuel (suc n) n

abbrev pub is_digit : Char → Bool
is_digit c = leb b'0' (code c) && leb (code c) b'9'

-- `int(text)`, read on from a number.
unfoldable pub int_from : ℕ → String → ℕ
int_from n nil = n
int_from n (c ◂ s) = int_from (n * 10 + (code c - 48)) s

unfoldable pub digits_only : String → Bool
digits_only nil = true
digits_only (c ◂ s) = is_digit c && digits_only s

code-digit : (n : ℕ) → n < 10 → code (digit n) ≡ n + 48
unfolding digit
code-digit zero h = refl
code-digit (suc zero) h = refl
code-digit (suc (suc zero)) h = refl
code-digit (suc (suc (suc zero))) h = refl
code-digit (suc (suc (suc (suc zero)))) h = refl
code-digit (suc (suc (suc (suc (suc zero))))) h = refl
code-digit (suc (suc (suc (suc (suc (suc zero)))))) h = refl
code-digit (suc (suc (suc (suc (suc (suc (suc zero))))))) h = refl
code-digit (suc (suc (suc (suc (suc (suc (suc (suc zero)))))))) h = refl
code-digit (suc (suc (suc (suc (suc (suc (suc (suc (suc zero))))))))) h = refl
code-digit (suc (suc (suc (suc (suc (suc (suc (suc (suc (suc n)))))))))) h = absurd (omega arith)

int_from-append : (n : ℕ) (s t : String) → int_from n (s <> t) ≡ int_from (int_from n s) t
unfolding int_from
int_from-append n nil t = rw nil-append
int_from-append n (c ◂ s) t = rw cons-append (int_from-append (n * 10 + (code c - 48)) s t)

digits_only-append :
    (s t : String) → digits_only s ≡ true → digits_only t ≡ true → digits_only (s <> t) ≡ true
unfolding digits_only
digits_only-append nil t h k = rw nil-append k
digits_only-append (c ◂ s) t h k = rw cons-append (ground (arith, digits_only-append s t))

int_from-decimal_fuel : (f n : ℕ) → n < f → int_from 0 (decimal_fuel f n) ≡ n
unfolding decimal_fuel int_from
int_from-decimal_fuel zero n h = absurd (omega arith)
int_from-decimal_fuel (suc f) n h = ground (
  arith,
  int_from-append 0 (decimal_fuel f (n / 10)) (digit (n % 10) ◂ nil),
  int_from-decimal_fuel f (n / 10),
  code-digit n,
  code-digit (n % 10),
)

digits_only-decimal_fuel : (f n : ℕ) → digits_only (decimal_fuel f n) ≡ true
unfolding decimal_fuel digits_only
digits_only-decimal_fuel zero n = refl
digits_only-decimal_fuel (suc f) n = ground (
  arith,
  digits_only-append (decimal_fuel f (n / 10)) (digit (n % 10) ◂ nil),
  digits_only-decimal_fuel f (n / 10),
  code-digit n,
  code-digit (n % 10),
)

-- The number that a number's decimal text reads as is the number.
pub int_from-decimal : (n : ℕ) → int_from 0 (decimal n) ≡ n
unfolding decimal
int_from-decimal n = int_from-decimal_fuel (suc n) n (omega arith)

pub digits_only-decimal : (n : ℕ) → digits_only (decimal n) ≡ true
unfolding decimal
digits_only-decimal n = digits_only-decimal_fuel (suc n) n

-- The first character of a number that is not 0 is not `0`.
decimal_fuel-cons :
    (f n : ℕ)
    → n < f
    → 0 < n
    → (c : Char) × (s : String) × (decimal_fuel f n ≡ c ◂ s) × (leb b'1' (code c) ≡ true)
unfolding decimal_fuel
decimal_fuel-cons zero n h p = absurd (omega arith)
decimal_fuel-cons (suc f) n h p = elim (Bool-cases (ltb n 10)) [
  | inl small ↦ (digit n, nil, rw small, ground (arith, code-digit n))
  | inr large ↦
      let (c, s, e, one) = decimal_fuel-cons f (n / 10) (ground arith) (ground arith) in
      (c, s <> (digit (n % 10) ◂ nil), rw (large, e, cons-append), one)
]

pub decimal-cons :
    (n : ℕ) → 0 < n → (c : Char) × (s : String) × (decimal n ≡ c ◂ s) × (leb b'1' (code c) ≡ true)
unfolding decimal
decimal-cons n p = decimal_fuel-cons (suc n) n (omega arith) p
