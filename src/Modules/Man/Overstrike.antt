-- ===== src/Modules/Man/Overstrike.antt =====
-- src/modules/man/man_render.c: the backspace sequences of mandoc's output.
use miniweb.Prelude.{
  ℕ, ◌≡◌, ◌≢◌, refl, ap, ◌∙◌, Option, none, some, List, [], ◌∷◌, ◌++◌, Bytes, ◌==◌, All, arith,
  if◌then◌else◌,
}

-- On the bytes below `len`; the result is what stands before the NUL that is written.
unfoldable pub man_strip_overstrike_ascii : Bytes → Bytes
man_strip_overstrike_ascii [] = []
man_strip_overstrike_ascii (c ∷ []) = if c == 0 then [] else c ∷ []
man_strip_overstrike_ascii (c ∷ d ∷ []) =
    let rest = man_strip_overstrike_ascii (d ∷ []) in if c == 0 then [] else c ∷ rest
man_strip_overstrike_ascii (c ∷ d ∷ e ∷ text) =
    let struck = man_strip_overstrike_ascii text in
    let plain = man_strip_overstrike_ascii (d ∷ e ∷ text) in
    if c == 0 then [] else if d == 8 then e ∷ struck else c ∷ plain

-- A character as it is printed, with what it is printed over, if anything.
abbrev pub Glyph : Type 0
Glyph = Option ℕ × ℕ

abbrev pub printed_glyph : Option ℕ → ℕ → Bytes
printed_glyph none c = c ∷ []
printed_glyph (some o) c = o ∷ 8 ∷ c ∷ []

pub printed : List Glyph → Bytes
printed [] = []
printed ((over, c) ∷ gs) = printed_glyph over c ++ printed gs

pub plain_text : List Glyph → Bytes
plain_text [] = []
plain_text ((over, c) ∷ gs) = c ∷ plain_text gs

-- No character is a NUL or a backspace.
abbrev pub IsVisible : ℕ → Type 0
IsVisible c = (c ≢ 0) × (c ≢ 8)

abbrev pub IsVisibleOver : Option ℕ → Type 0
IsVisibleOver none = Unit
IsVisibleOver (some o) = IsVisible o

abbrev pub IsGlyph : Glyph → Type 0
IsGlyph (over, c) = IsVisibleOver over × IsVisible c

-- The first byte of a text is no backspace.
abbrev StartsVisible : Bytes → Type 0
StartsVisible [] = Unit
StartsVisible (c ∷ s) = c ≢ 8

printed-StartsVisible : (gs : List Glyph) → All IsGlyph gs → StartsVisible (printed gs)
unfolding printed
printed-StartsVisible [] h = tt
printed-StartsVisible ((none, c) ∷ gs) h = h.0.1.1
printed-StartsVisible ((some o, c) ∷ gs) h = h.0.0.1

strip-plain :
    (c : ℕ) (text : Bytes)
    → c ≢ 0
    → StartsVisible text
    → man_strip_overstrike_ascii (c ∷ text) ≡ c ∷ man_strip_overstrike_ascii text
unfolding man_strip_overstrike_ascii
strip-plain c [] h k = ground arith
strip-plain c (d ∷ []) h k = ground arith
strip-plain c (d ∷ e ∷ text) h k = ground arith

strip-struck :
    (o c : ℕ) (text : Bytes)
    → o ≢ 0
    → man_strip_overstrike_ascii (o ∷ 8 ∷ c ∷ text) ≡ c ∷ man_strip_overstrike_ascii text
unfolding man_strip_overstrike_ascii
strip-struck o c text h = ground arith

-- Of a text in which some characters are printed over others, man_strip_overstrike_ascii keeps the
-- characters, if none of them is a NUL or a backspace.
pub strip_printed :
    (gs : List Glyph) → All IsGlyph gs → man_strip_overstrike_ascii (printed gs) ≡ plain_text gs
unfolding printed plain_text man_strip_overstrike_ascii
strip_printed [] h = refl
strip_printed ((none, c) ∷ gs) h =
    strip-plain c (printed gs) h.0.1.0 (printed-StartsVisible gs h.1)
    ∙ ap (◌∷◌ c) (strip_printed gs h.1)
strip_printed ((some o, c) ∷ gs) h =
    strip-struck o c (printed gs) h.0.0.0 ∙ ap (◌∷◌ c) (strip_printed gs h.1)
