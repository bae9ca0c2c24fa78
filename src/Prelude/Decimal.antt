-- ===== src/Prelude/Decimal.antt =====
-- `%d` and `%zu` on numbers that are not negative, and `atoi`.
use Prim.Native.Nat.{ℕ, zero, suc, ◌+◌, ◌-◌, ◌*◌, ◌/◌, ◌%◌, ◌≤◌, ◌<◌}
use mathlib.Core.Path.{◌≡◌, ◌∙◌}
use mathlib.Core.Bool.{Bool, ◌&&◌, ◌||◌}
use mathlib.Core.Logic.{inl, inr}
use mathlib.Core.List.{[], ◌∷◌, ◌++◌}
use native.Mathlib.Omega.{arith}
use miniweb.Prelude.Tests.{◌==◌, leb, ltb, if◌then◌else◌, Bool-cases}
use miniweb.Prelude.Lists.{All}
use miniweb.Prelude.CString.{Bytes}
use miniweb.Prelude.Int.{ℤ, pos, negate}

abbrev pub isdigit : ℕ → Bool
isdigit c = leb b'0' c && leb c b'9'

-- The digits of `n`, given at least as many rounds as it has digits.
unfoldable pub decimal_from : ℕ → ℕ → Bytes
decimal_from zero n = []
decimal_from (suc k) n =
    let rest = decimal_from k (n / 10) in
    if ltb n 10 then (b'0' + n) ∷ [] else rest ++ (b'0' + n % 10) ∷ []

unfoldable pub decimal : ℕ → Bytes
decimal n = decimal_from (n + 1) n

-- What `atoi` adds up from the digits at the front of the text.
unfoldable pub digits_value : ℕ → Bytes → ℕ
digits_value acc [] = acc
digits_value acc (c ∷ s) =
    let rest = digits_value (acc * 10 + (c - b'0')) s in if isdigit c then rest else acc

-- In the C locale.
abbrev pub isspace : ℕ → Bool
isspace c = c == 32 || leb 9 c && leb c 13

-- The loop `while (*s && isspace(*s)) s++`.
unfoldable pub ltrim : Bytes → Bytes
ltrim [] = []
ltrim (c ∷ s) = if isspace c then ltrim s else c ∷ s

abbrev pub signed_value : Bytes → ℤ
signed_value [] = pos 0
signed_value (c ∷ s) =
    if c == b'-'
    then negate (digits_value 0 s)
    else if c == b'+'
    then pos (digits_value 0 s)
    else pos (digits_value 0 (c ∷ s))

-- The value of a text that names an `int`; for other numbers the call is not defined.
unfoldable pub atoi : Bytes → ℤ
unfolding ltrim
atoi s = signed_value (ltrim s)

abbrev pub AreDigits : Bytes → Type 0
AreDigits = All (λ c. (b'0' ≤ c) × (c ≤ b'9'))

AreDigits-snoc : (s : Bytes) (c : ℕ) → AreDigits s → b'0' ≤ c → c ≤ b'9' → AreDigits (s ++ c ∷ [])
AreDigits-snoc [] c h lo hi = ((lo, hi), tt)
AreDigits-snoc (x ∷ s) c h lo hi = (h.0, AreDigits-snoc s c h.1 lo hi)

decimal_from-AreDigits : (k n : ℕ) → AreDigits (decimal_from k n)
unfolding decimal_from
decimal_from-AreDigits zero n = tt
decimal_from-AreDigits (suc k) n = elim (Bool-cases (ltb n 10)) [
  | inl one ↦ rw one ((omega arith, ground (arith, one)), tt)
  | inr more ↦ rw more (
      AreDigits-snoc (decimal_from k (n / 10)) (b'0' + n % 10) (decimal_from-AreDigits k (n / 10))
        (omega arith) (omega arith))
]

pub decimal-AreDigits : (n : ℕ) → AreDigits (decimal n)
unfolding decimal
decimal-AreDigits n = decimal_from-AreDigits (n + 1) n

digits_value-snoc :
    (a : ℕ) (s : Bytes) (d : ℕ)
    → AreDigits s
    → d < 10
    → digits_value a (s ++ (b'0' + d) ∷ []) ≡ digits_value a s * 10 + d
unfolding digits_value
digits_value-snoc a [] d h small = ground arith
digits_value-snoc a (c ∷ s) d h small =
    ground (arith, h.0, digits_value-snoc (a * 10 + (c - b'0')) s d h.1)

decimal_from-value : (k n : ℕ) → n < k → digits_value 0 (decimal_from k n) ≡ n
unfolding decimal_from digits_value
decimal_from-value zero n h = absurd (omega arith)
decimal_from-value (suc k) n h = elim (Bool-cases (ltb n 10)) [
  | inl one ↦ rw one (digits_value-snoc 0 [] n tt (ground (arith, one)) ∙ omega arith)
  | inr more ↦ rw more (
      digits_value-snoc 0 (decimal_from k (n / 10)) (n % 10) (decimal_from-AreDigits k (n / 10))
        (omega arith)
      ∙ omega (arith, decimal_from-value k (n / 10) (ground (arith, more))))
]

-- Reading back the digits of a number.
pub digits_value-decimal : (n : ℕ) → digits_value 0 (decimal n) ≡ n
unfolding decimal
digits_value-decimal n = decimal_from-value (n + 1) n (omega arith)
