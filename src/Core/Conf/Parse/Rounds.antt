-- ===== src/Core/Conf/Parse/Rounds.antt =====
-- The loop over a configuration file: its rounds are the lines, and they are enough.
use miniweb.Prelude.{
  ℕ, zero, suc, ◌-◌, ◌==◌, ◌≤◌, ◌<◌, ◌≡◌, ◌≢◌, refl, ap, ◌∙◌, Option, none, some, List, [], ◌∷◌,
  ◌++◌, Bytes, length, length-append, All, arith, Bool-cases, ◌⊎◌, inl, inr,
}
use miniweb.Core.Conf.{MiniwebConf}
use miniweb.Core.Conf.Parse.{
  conf_parse_line, line_size, fgets, parse_lines, conf_parse_file, validated, Parsed, refused,
  parsed, ◌>>=◌,
}

-- The text of a file of these lines.
abbrev pub lines_text : List Bytes → Bytes
lines_text [] = []
lines_text (line ∷ lines) = line ++ (10 ∷ lines_text lines)

-- A line that fits the buffer with its newline and the NUL.
abbrev pub IsShortLine : Bytes → Type 0
IsShortLine line = All (λ c. c ≢ 10) line × (length line < line_size - 1)

-- One line after the other, up to the first that is refused.
unfoldable pub apply_lines : MiniwebConf → List Bytes → Parsed
apply_lines conf [] = parsed conf
apply_lines conf (line ∷ lines) =
    conf_parse_line conf (line ++ 10 ∷ []) >>= λ conf'. apply_lines conf' lines

fgets-line :
    (n : ℕ) (line rest : Bytes)
    → All (λ c. c ≢ 10) line
    → length line < n
    → fgets n (line ++ (10 ∷ rest)) ≡ (line ++ 10 ∷ [], rest)
unfolding fgets
fgets-line zero line rest h k = absurd (omega arith)
fgets-line (suc n) [] rest h k = refl
fgets-line (suc n) (c ∷ line) rest h k = ground (arith, h.0, fgets-line n line rest h.1)

fgets-shorter : (n : ℕ) (text : Bytes) → length (fgets n text).1 ≤ length text
unfolding fgets
fgets-shorter zero text = omega arith
fgets-shorter (suc n) [] = omega arith
fgets-shorter (suc n) (c ∷ text) = elim (Bool-cases (c == 10)) [
  | inl e ↦ rw e (omega arith)
  | inr e ↦ rw e (omega (arith, fgets-shorter n text))
]

fgets-takes : (n c : ℕ) (text : Bytes) → length (fgets (suc n) (c ∷ text)).1 ≤ length text
unfolding fgets
fgets-takes n c text = elim (Bool-cases (c == 10)) [
  | inl e ↦ rw e (omega arith)
  | inr e ↦ rw e (fgets-shorter n text)
]

after_ends :
    (o : Option MiniwebConf) (f : MiniwebConf → Parsed)
    → ((conf : MiniwebConf)
        → (f conf ≡ refused) ⊎ ((conf' : MiniwebConf) × (f conf ≡ parsed conf')))
    → ((o >>= f) ≡ refused) ⊎ ((conf' : MiniwebConf) × ((o >>= f) ≡ parsed conf'))
after_ends none f h = inl refl
after_ends (some conf) f h = h conf

after_same :
    (o : Option MiniwebConf) (f g : MiniwebConf → Parsed)
    → ((conf : MiniwebConf) → f conf ≡ g conf)
    → (o >>= f) ≡ (o >>= g)
after_same none f g h = refl
after_same (some conf) f g h = h conf

-- The loop over the lines of a file comes to its end, by a line that is refused or with the whole file
-- read, in at most as many rounds as the file has bytes.
pub parse_lines-ends :
    (fuel : ℕ) (conf : MiniwebConf) (text : Bytes)
    → length text ≤ fuel
    → (parse_lines fuel conf text ≡ refused)
      ⊎ ((conf' : MiniwebConf) × (parse_lines fuel conf text ≡ parsed conf'))
unfolding parse_lines
parse_lines-ends zero conf [] h = inr (conf, refl)
parse_lines-ends (suc fuel) conf [] h = inr (conf, refl)
parse_lines-ends zero conf (c ∷ text) h = absurd (omega arith)
parse_lines-ends (suc fuel) conf (c ∷ text) h =
    let (line, rest) = fgets (line_size - 1) (c ∷ text) in
    let shorter = fgets-takes 510 c text in
    after_ends (conf_parse_line conf line) _
      λ conf'. parse_lines-ends fuel conf' rest (omega (arith, shorter))

parse_lines-step :
    (fuel : ℕ) (conf : MiniwebConf) (c : ℕ) (text line rest : Bytes)
    → fgets (line_size - 1) (c ∷ text) ≡ (line, rest)
    → parse_lines (suc fuel) conf (c ∷ text)
      ≡ (conf_parse_line conf line >>= λ conf'. parse_lines fuel conf' rest)
unfolding parse_lines
parse_lines-step fuel conf c text line rest e =
    ap (λ (r : Bytes × Bytes). conf_parse_line conf r.0 >>= λ conf'. parse_lines fuel conf' r.1) e

lines_rounds :
    (fuel : ℕ) (conf : MiniwebConf) (lines : List Bytes)
    → All IsShortLine lines
    → length (lines_text lines) ≤ fuel
    → parse_lines fuel conf (lines_text lines) ≡ apply_lines conf lines
unfolding parse_lines apply_lines
lines_rounds zero conf [] h k = refl
lines_rounds (suc fuel) conf [] h k = refl
lines_rounds zero conf (line ∷ lines) h k =
    absurd (omega (arith, length-append line (10 ∷ lines_text lines)))
lines_rounds (suc fuel) conf ([] ∷ lines) h k =
    parse_lines-step fuel conf 10 (lines_text lines) (10 ∷ []) (lines_text lines)
      (fgets-line 511 [] (lines_text lines) tt (omega arith))
    ∙ after_same (conf_parse_line conf (10 ∷ [])) _ _
        λ conf'. lines_rounds fuel conf' lines h.1 (omega arith)
lines_rounds (suc fuel) conf ((c ∷ line) ∷ lines) h k =
    parse_lines-step fuel conf c (line ++ (10 ∷ lines_text lines)) ((c ∷ line) ++ 10 ∷ [])
      (lines_text lines) (fgets-line 511 (c ∷ line) (lines_text lines) h.0.0 h.0.1)
    ∙ after_same (conf_parse_line conf ((c ∷ line) ++ 10 ∷ [])) _ _ λ conf'.
      lines_rounds fuel conf' lines h.1 (omega (arith, length-append line (10 ∷ lines_text lines)))

-- A file of lines of at most 510 bytes is read line by line, up to the first line that is refused, and
-- then validated.
pub parse_file-by_lines :
    (conf : MiniwebConf) (lines : List Bytes)
    → All IsShortLine lines
    → conf_parse_file (some (lines_text lines)) conf ≡ validated (apply_lines conf lines)
unfolding conf_parse_file
parse_file-by_lines conf lines h =
    ap validated (lines_rounds (length (lines_text lines)) conf lines h (omega arith))
