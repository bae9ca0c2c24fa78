-- ===== src/Http/Utils/JsonEscape.antt =====
-- What the loop of `json_escape_string` keeps of its input, and that its output can stand between the
-- quotes of a JSON string.
use miniweb.Prelude.{
  ℕ, zero, suc, ◌+◌, ◌-◌, ◌*◌, ◌≤◌, ◌≡◌, refl, Bool, true, false, ◌||◌, Option, none, some, [], ◌∷◌,
  ◌++◌, Bytes, ◌==◌, ltb, arith, length, length-append, if◌then◌else◌,
}
use mathlib.Core.List.{append-nil}
use miniweb.Http.Utils.{json_escape_byte, json_escape_from, json_escape_string, between}

-- The whole input, escaped byte by byte.
pub escape_all : Bytes → Bytes
escape_all [] = []
escape_all (c ∷ s) = json_escape_byte c ++ escape_all s

length-json_escape_byte :
    (c : ℕ) → (1 ≤ length (json_escape_byte c)) × (length (json_escape_byte c) ≤ 6)
unfolding json_escape_byte
length-json_escape_byte c = ground arith

-- From a state with `d` bytes written of at most 6 for each byte read, the loop reaches the last byte.
from-last :
    (max_out d k : ℕ) (s : Bytes) (c : ℕ)
    → d ≤ 6 * k
    → max_out ≡ 6 * (k + length s + 1) + 1
    → json_escape_from max_out d (s ++ c ∷ []) ≡ (
        if ltb (d + length (escape_all s) + 7) (max_out - 1)
        then escape_all (s ++ c ∷ [])
        else escape_all s)
unfolding json_escape_from escape_all
from-last max_out d k [] c h e = ground (arith, append-nil (json_escape_byte c))
from-last max_out d k (b ∷ s) c h e = ground (
  arith,
  length-json_escape_byte b,
  length-append (json_escape_byte b) (escape_all s),
  from-last max_out (d + length (json_escape_byte b)) (k + 1) s c,
)

-- The loop gives up at most at the last byte: the output is the escaped input, whole if the bytes
-- before the last one take less than 6 n - 7 bytes (n the length of the input), and without the last
-- byte otherwise.
pub json_escape_last :
    (s : Bytes) (c : ℕ)
    → json_escape_string true (some (s ++ c ∷ [])) ≡ (
        if ltb (length (escape_all s) + 7) (6 * (length s + 1))
        then escape_all (s ++ c ∷ [])
        else escape_all s)
unfolding json_escape_string
json_escape_last s c =
    ground (arith, length-append s (c ∷ []), from-last (length (s ++ c ∷ []) * 6 + 1) 0 0 s c)

-- So a text of one byte is escaped to the empty text, whatever the byte.
pub json_escape_single : (c : ℕ) → json_escape_string true (some (c ∷ [])) ≡ []
unfolding escape_all
json_escape_single c = json_escape_last [] c

-- A recogniser for the inside of a JSON string: after plain text, after a backslash, or with `n` + 1
-- hexadecimal digits to come.
pub data Mode : Type 0 where
  text escaped : Mode
  digits : ℕ → Mode

is_hex : ℕ → Bool
is_hex c = between b'0' b'9' c || between b'a' b'f' c || between b'A' b'F' c

is_escape : ℕ → Bool
is_escape c =
    c == b'"'
    || c == b'\\'
    || c == b'/'
    || c == b'b'
    || c == b'f'
    || c == b'n'
    || c == b'r'
    || c == b't'

next : Mode → ℕ → Option Mode
unfolding is_hex is_escape
next text c =
    if c == b'\\' then some escaped else if c == b'"' || ltb c 0x20 then none else some text
next escaped c = if c == b'u' then some (digits 3) else if is_escape c then some text else none
next (digits zero) c = if is_hex c then some text else none
next (digits (suc n)) c = if is_hex c then some (digits n) else none

pub is_json_text : Mode → Bytes → Bool
unfolding next
is_json_text text [] = true
is_json_text escaped [] = false
is_json_text (digits n) [] = false
is_json_text m (c ∷ s) = elim (next m c) [ none ↦ false | some m' ↦ is_json_text m' s ]

is_json_text-escape_byte :
    (c : ℕ) (s : Bytes) → is_json_text text (json_escape_byte c ++ s) ≡ is_json_text text s
unfolding is_json_text json_escape_byte
is_json_text-escape_byte c s = ground arith

is_json_text-from :
    (max_out d : ℕ) (s : Bytes) → is_json_text text (json_escape_from max_out d s) ≡ true
unfolding json_escape_from is_json_text
is_json_text-from max_out d [] = refl
is_json_text-from max_out d (c ∷ s) = ground (
  arith,
  is_json_text-escape_byte c (json_escape_from max_out (d + length (json_escape_byte c)) s),
  is_json_text-from max_out (d + length (json_escape_byte c)) s,
)

-- Whatever the input, the output can stand between the quotes of a JSON string: no quote, backslash or
-- control byte of the input is left bare, and every escape is complete.
pub json_escape_is_text :
    (allocated : Bool) (src : Option Bytes)
    → is_json_text text (json_escape_string allocated src) ≡ true
unfolding json_escape_string is_json_text
json_escape_is_text allocated none = refl
json_escape_is_text false (some src) = refl
json_escape_is_text true (some src) = is_json_text-from (length src * 6 + 1) 0 src
