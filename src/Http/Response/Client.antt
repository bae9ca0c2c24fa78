-- ===== src/Http/Response/Client.antt =====
-- What a client reads: where the body starts, and the length that the third line announces.
use miniweb.Prelude.{
  ℕ, ◌+◌, ◌-◌, ◌*◌, ◌≡◌, ◌≢◌, refl, ap, ◌∙◌, Option, none, some, List, [], ◌∷◌, ◌++◌, Bytes, codes,
  crlf, decimal, decimal-AreDigits, AreDigits, digits_value, digits_value-decimal, strip_prefix,
  strip_prefix-append, split_crlf, All, arith,
}
use mathlib.Core.List.{append_assoc}
use miniweb.Http.Response.{with_ends}

abbrev pub blank_line : Bytes
blank_line = 13 ∷ 10 ∷ 13 ∷ 10 ∷ []

-- What follows the first empty line.
unfoldable pub after_blank : Bytes → Option Bytes
after_blank [] = none
after_blank (c ∷ s) = elim (strip_prefix blank_line (c ∷ s)) [
  | some rest ↦ some rest
  | none ↦ after_blank s
]

-- A line that is not empty and does not hold the byte that ends lines.
abbrev pub IsLine : Bytes → Type 0
IsLine [] = ⊥
IsLine (c ∷ s) = (c ≢ 13) × All (λ c. c ≢ 13) s

abbrev pub NoCr : Bytes → Type 0
NoCr = All (λ c. c ≢ 13)

pub after_blank-skip : (c : ℕ) (s : Bytes) → c ≢ 13 → after_blank (c ∷ s) ≡ after_blank s
unfolding after_blank strip_prefix
after_blank-skip c s h = ground arith

pub after_blank-text : (s rest : Bytes) → NoCr s → after_blank (s ++ rest) ≡ after_blank rest
after_blank-text [] rest h = refl
after_blank-text (c ∷ s) rest h = after_blank-skip c (s ++ rest) h.0 ∙ after_blank-text s rest h.1

pub after_blank-line :
    (line rest : Bytes) → IsLine line → after_blank (crlf ++ (line ++ rest)) ≡ after_blank rest
unfolding after_blank strip_prefix
after_blank-line [] rest h = elim h [ ]
after_blank-line (c ∷ s) rest h = ground (arith, h.0, after_blank-text (c ∷ s) rest h)

pub after_blank-lines :
    (lines : List Bytes) (body : Bytes)
    → All IsLine lines
    → after_blank (crlf ++ (with_ends lines ++ (crlf ++ body))) ≡ some body
unfolding after_blank strip_prefix
after_blank-lines [] body h = refl
after_blank-lines (line ∷ lines) body h =
    rw (append_assoc line (crlf ++ with_ends lines) (crlf ++ body)) (
      after_blank-line line (crlf ++ (with_ends lines ++ (crlf ++ body))) h.0
      ∙ after_blank-lines lines body h.1)

-- The lengths that a client reads from the line after the first two.
unfoldable pub announced_length : Bytes → Option ℕ
announced_length msg = elim (split_crlf msg) [
  | none ↦ none
  | some (first, rest) ↦ elim (split_crlf rest) [
    | none ↦ none
    | some (second, tail) ↦ elim (strip_prefix (codes "Content-Length: ") tail) [
      | none ↦ none
      | some digits ↦ some (digits_value 0 digits)
    ]
  ]
]

pub split_crlf-line :
    (line rest : Bytes) → NoCr line → split_crlf (line ++ (crlf ++ rest)) ≡ some (line, rest)
unfolding split_crlf strip_prefix
split_crlf-line [] rest h = refl
split_crlf-line (c ∷ s) rest h = ground (arith, h.0, split_crlf-line s rest h.1)

pub NoCr-append : (s t : Bytes) → NoCr s → NoCr t → NoCr (s ++ t)
NoCr-append [] t h k = k
NoCr-append (c ∷ s) t h k = (h.0, NoCr-append s t h.1 k)

pub NoCr-digits : (s : Bytes) → AreDigits s → NoCr s
NoCr-digits [] h = tt
NoCr-digits (c ∷ s) h = ((λ e. absurd (omega (arith, e, h.0))), NoCr-digits s h.1)

pub digits_value-stops :
    (a : ℕ) (s rest : Bytes) → AreDigits s → digits_value a (s ++ 13 ∷ rest) ≡ digits_value a s
unfolding digits_value
digits_value-stops a [] rest h = refl
digits_value-stops a (c ∷ s) rest h =
    ground (arith, h.0, digits_value-stops (a * 10 + (c - b'0')) s rest h.1)

pub with_ends-step :
    (line : Bytes) (lines : List Bytes) (rest : Bytes)
    → with_ends (line ∷ lines) ++ rest ≡ line ++ (crlf ++ (with_ends lines ++ rest))
with_ends-step line lines rest = append_assoc line (crlf ++ with_ends lines) rest

-- What a client reads from lines of which the third announces a length.
pub message_after :
    (first : Bytes) (lines : List Bytes) (body : Bytes)
    → NoCr first
    → All IsLine lines
    → after_blank (with_ends (first ∷ lines) ++ (crlf ++ body)) ≡ some body
message_after first lines body ha h =
    rw (with_ends-step first lines (crlf ++ body))
      (after_blank-text first _ ha ∙ after_blank-lines lines body h)

pub announced_at :
    (first second tail digits : Bytes)
    → NoCr first
    → NoCr second
    → tail ≡ codes "Content-Length: " ++ digits
    → announced_length ((first ++ (crlf ++ (second ++ (crlf ++ tail)))))
      ≡ some (digits_value 0 digits)
unfolding announced_length
announced_at first second tail digits ha hb e =
    rw (split_crlf-line first (second ++ (crlf ++ tail)) ha, announced_length)
      (rw (split_crlf-line second tail hb)
        (rw e (rw (strip_prefix-append (codes "Content-Length: ") digits) refl)))

pub message_length :
    (first second : Bytes) (n : ℕ) (lines : List Bytes) (rest : Bytes)
    → NoCr first
    → NoCr second
    → announced_length
        (with_ends (first ∷ second ∷ (codes "Content-Length: " ++ decimal n) ∷ lines) ++ rest)
      ≡ some n
message_length first second n lines rest ha hb =
    let third : Bytes = codes "Content-Length: " ++ decimal n in
    let tail : Bytes = with_ends (third ∷ lines) ++ rest in
    let end : Bytes = 10 ∷ (with_ends lines ++ rest) in
    let digits : tail ≡ codes "Content-Length: " ++ (decimal n ++ 13 ∷ end) =
      with_ends-step third lines rest
      ∙ append_assoc (codes "Content-Length: ") (decimal n) (13 ∷ end) in
    let value : digits_value 0 (decimal n ++ 13 ∷ end) ≡ n =
      digits_value-stops 0 (decimal n) end (decimal-AreDigits n) ∙ digits_value-decimal n in
    let steps =
      with_ends-step first (second ∷ third ∷ lines) rest
      ∙ ap (λ t. first ++ (crlf ++ t)) (with_ends-step second (third ∷ lines) rest) in
    ap announced_length steps
    ∙ (announced_at first second tail (decimal n ++ 13 ∷ end) ha hb digits ∙ ap some value)
