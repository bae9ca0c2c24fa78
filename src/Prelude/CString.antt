-- ===== src/Prelude/CString.antt =====
-- NUL-terminated strings as the list of the bytes before the NUL, with the calls of <string.h>
-- that the source makes.
use Prim.Native.Nat.{ℕ, ◌+◌}
use Prim.Native.Char.{code}
use Prim.Native.String.{String}
use mathlib.Core.Path.{◌≡◌, refl}
use mathlib.Core.Bool.{Bool, true, false, ◌&&◌}
use mathlib.Core.Option.{Option, none, some}
use mathlib.Core.Logic.{◌↔◌}
use mathlib.Core.List.{List, [], ◌∷◌, ◌++◌}
use native.Mathlib.Omega.{arith}
use miniweb.Prelude.Tests.{◌==◌, leb, if◌then◌else◌}

abbrev pub Bytes : Type 0
Bytes = List ℕ

-- A literal of the source; all of them are ASCII.
abbrev pub codes : String → Bytes
codes String.[] = []
codes (String.◌∷◌ c s) = code c ∷ codes s

-- `strcmp(s, t) == 0`
unfoldable pub str_eq : Bytes → Bytes → Bool
str_eq [] [] = true
str_eq (x ∷ xs) (y ∷ ys) = x == y && str_eq xs ys
str_eq _ _ = false

pub str_eq_refl : (s : Bytes) → str_eq s s ≡ true
unfolding str_eq
str_eq_refl [] = refl
str_eq_refl (x ∷ xs) = ground (arith, str_eq_refl xs)

pub str_eq→eq : (s t : Bytes) → str_eq s t ≡ true → s ≡ t
unfolding str_eq
str_eq→eq [] [] h = refl
str_eq→eq [] (y ∷ ys) h = cc
str_eq→eq (x ∷ xs) [] h = cc
str_eq→eq (x ∷ xs) (y ∷ ys) h = ground (arith, str_eq→eq xs ys)

-- `strncmp(s, p, strlen(p)) == 0`, with what follows the prefix.
unfoldable pub strip_prefix : Bytes → Bytes → Option Bytes
strip_prefix [] s = some s
strip_prefix (x ∷ p) [] = none
strip_prefix (x ∷ p) (y ∷ s) = elim (x == y) [ true ↦ strip_prefix p s | false ↦ none ]

pub strip_prefix-eq-some : (p s rest : Bytes) → strip_prefix p s ≡ some rest → s ≡ p ++ rest
unfolding strip_prefix
strip_prefix-eq-some [] s rest h = ground arith
strip_prefix-eq-some (x ∷ p) [] rest h = cc
strip_prefix-eq-some (x ∷ p) (y ∷ s) rest h = ground (arith, strip_prefix-eq-some p s rest)

pub strip_prefix-append : (p rest : Bytes) → strip_prefix p (p ++ rest) ≡ some rest
unfolding strip_prefix
strip_prefix-append [] rest = refl
strip_prefix-append (x ∷ p) rest = ground (arith, strip_prefix-append p rest)

pub str_eq_iff : (s t : Bytes) → (str_eq s t ≡ true) ↔ (s ≡ t)
str_eq_iff s t = (str_eq→eq s t, λ e. rw e (str_eq_refl t))

-- The bytes before the first NUL, which the calls of <string.h> see.
unfoldable pub c_string : Bytes → Bytes
c_string [] = []
c_string (c ∷ s) = if c == 0 then [] else c ∷ c_string s

-- In the C locale.
abbrev pub tolower : ℕ → ℕ
tolower c = if leb b'A' c && leb c b'Z' then c + 32 else c

-- `strncasecmp(s, p, strlen(p)) == 0` for a `p` in lower case, with what follows.
unfoldable pub strip_nocase : Bytes → Bytes → Option Bytes
strip_nocase [] s = some s
strip_nocase (x ∷ p) [] = none
strip_nocase (x ∷ p) (y ∷ s) = elim (x == tolower y) [ true ↦ strip_nocase p s | false ↦ none ]

-- What stands before a `strchr` or `strstr` hit, and what stands behind it.
abbrev pub Split : Type 0
Split = Option (Bytes × Bytes)

abbrev pub before : ℕ → Split → Split
before c none = none
before c (some (front, back)) = some (c ∷ front, back)

abbrev pub crlf : Bytes
crlf = 13 ∷ 10 ∷ []

-- `strstr(s, "\r\n")`
unfoldable pub split_crlf : Bytes → Split
split_crlf [] = none
split_crlf (c ∷ s) = elim (strip_prefix crlf (c ∷ s)) [
  | some rest ↦ some ([], rest)
  | none ↦ before c (split_crlf s)
]

-- `strstr(s, needle)`, for a needle that is not empty.
unfoldable pub split_text : Bytes → Bytes → Split
split_text needle [] = none
split_text needle (c ∷ s) = elim (strip_prefix needle (c ∷ s)) [
  | some rest ↦ some ([], rest)
  | none ↦ before c (split_text needle s)
]
