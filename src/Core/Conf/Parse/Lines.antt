-- ===== src/Core/Conf/Parse/Lines.antt =====
-- The lines of a configuration file, one at a time and together.
use miniweb.Prelude.{
  ℕ, ◌≡◌, ◌≢◌, refl, ap, ◌∙◌, true, false, some, [], ◌∷◌, ◌++◌, Bytes, c_string, isspace, ltrim,
  All, arith,
}
use mathlib.Core.List.{append_assoc}
use miniweb.Core.Conf.{MiniwebConf}
use miniweb.Core.Conf.Parse.{
  rtrim, conf_apply_kv, split_key, apply_split, apply_line, conf_parse_line,
}

abbrev pub AreSpaces : Bytes → Type 0
AreSpaces = All (λ c. isspace c ≡ true)

abbrev pub IsSolid : ℕ → Type 0
IsSolid c = (isspace c ≡ false) × (c ≢ 0)

-- The last byte of `c ∷ s` is no space.
abbrev pub EndsSolid : ℕ → Bytes → Type 0
EndsSolid c [] = isspace c ≡ false
EndsSolid c (d ∷ s) = EndsSolid d s

-- A text that starts and ends with a byte that is no space, and holds no NUL.
abbrev pub IsValue : Bytes → Type 0
IsValue [] = ⊥
IsValue (c ∷ s) = IsSolid c × EndsSolid c s × All (λ d. d ≢ 0) s

NoNul : Bytes → Type 0
NoNul = All (λ c. c ≢ 0)

c_string-NoNul : (s : Bytes) → NoNul s → c_string s ≡ s
unfolding c_string NoNul
c_string-NoNul [] h = refl
c_string-NoNul (c ∷ s) h = ground (arith, h.0, c_string-NoNul s h.1)

NoNul-append : (s t : Bytes) → NoNul s → NoNul t → NoNul (s ++ t)
unfolding NoNul
NoNul-append [] t h k = k
NoNul-append (c ∷ s) t h k = (h.0, NoNul-append s t h.1 k)

AreSpaces-NoNul : (s : Bytes) → AreSpaces s → NoNul s
unfolding NoNul
AreSpaces-NoNul [] h = tt
AreSpaces-NoNul (c ∷ s) h = (λ e. absurd (ground (arith, h.0, e)), AreSpaces-NoNul s h.1)

ltrim-skip : (s t : Bytes) (c : ℕ) → AreSpaces s → isspace c ≡ false → ltrim (s ++ (c ∷ t)) ≡ c ∷ t
unfolding ltrim
ltrim-skip [] t c h k = rw k refl
ltrim-skip (d ∷ s) t c h k = rw h.0 (ltrim-skip s t c h.1 k)

rtrim-spaces : (s : Bytes) → AreSpaces s → rtrim s ≡ []
unfolding rtrim
rtrim-spaces [] h = refl
rtrim-spaces (c ∷ s) h = rw (rtrim-spaces s h.1) (rw h.0 refl)

rtrim-cut : (c : ℕ) (s t : Bytes) → EndsSolid c s → AreSpaces t → rtrim (c ∷ (s ++ t)) ≡ c ∷ s
unfolding rtrim
rtrim-cut c [] t h k = rw (rtrim-spaces t k, rtrim) (rw h refl)
rtrim-cut c (d ∷ s) t h k = rw (rtrim-cut d s t h k, rtrim) refl

split_key-word :
    (key rest : Bytes) (space : ℕ)
    → All IsSolid key
    → isspace space ≡ true
    → split_key (key ++ (space ∷ rest)) ≡ (key, some rest)
unfolding split_key
split_key-word [] rest space h k = rw k refl
split_key-word (c ∷ key) rest space h k = rw h.0.0 (rw (split_key-word key rest space h.1 k) refl)

EndsSolid-append :
    (c : ℕ) (s : Bytes) (d : ℕ) (t : Bytes) → EndsSolid d t → EndsSolid c (s ++ (d ∷ t))
EndsSolid-append c [] d t h = h
EndsSolid-append c (e ∷ s) d t h = EndsSolid-append e s d t h

AreSolid-NoNul : (s : Bytes) → All IsSolid s → NoNul s
unfolding NoNul
AreSolid-NoNul [] h = tt
AreSolid-NoNul (c ∷ s) h = (h.0.1, AreSolid-NoNul s h.1)

not_comment :
    (conf : MiniwebConf) (c : ℕ) (s : Bytes)
    → c ≢ b'#'
    → apply_line conf (c ∷ s) ≡ apply_split conf (split_key (c ∷ s))
unfolding apply_line
not_comment conf c s h = ground arith

-- A line of a key that does not start with '#', spaces and a value, with spaces around them, sets the
-- key to the value.
pub parse_line_pair :
    (conf : MiniwebConf) (front : Bytes) (k : ℕ) (key gap value back : Bytes) (space : ℕ)
    → AreSpaces front
    → k ≢ b'#'
    → All IsSolid (k ∷ key)
    → isspace space ≡ true
    → AreSpaces gap
    → IsValue value
    → AreSpaces back
    → conf_parse_line conf (front ++ ((k ∷ key) ++ (space ∷ (gap ++ (value ++ back)))))
      ≡ conf_apply_kv conf (k ∷ key) value
unfolding conf_parse_line NoNul
parse_line_pair conf front k key gap [] back space hf hk hkey hs hg hv hb = elim hv [ ]
parse_line_pair conf front k key gap (v ∷ value) back space hf hk hkey hs hg hv hb =
    let inner : Bytes = key ++ (space ∷ (gap ++ (v ∷ value))) in
    let whole : Bytes = front ++ ((k ∷ key) ++ (space ∷ (gap ++ ((v ∷ value) ++ back)))) in
    let clean = NoNul-append front _ (AreSpaces-NoNul front hf) (
      NoNul-append (k ∷ key) _ (AreSolid-NoNul (k ∷ key) hkey) (
        (λ e. absurd (ground (arith, hs, e))),
        NoNul-append gap _ (AreSpaces-NoNul gap hg)
            (NoNul-append (v ∷ value) back (hv.0.1, hv.2) (AreSpaces-NoNul back hb)),
      )) in
    let shape : key ++ (space ∷ (gap ++ ((v ∷ value) ++ back))) ≡ inner ++ back =
      simp append_assoc in
    let trimmed : rtrim (ltrim (c_string whole)) ≡ k ∷ inner =
      ap (λ t. rtrim (ltrim t)) (c_string-NoNul whole clean)
      ∙ (ap rtrim (ltrim-skip front _ k hf hkey.0.0)
          ∙ (ap (λ t. rtrim (k ∷ t)) shape
              ∙ rtrim-cut k inner back
                  (EndsSolid-append k key space (gap ++ (v ∷ value))
                    (EndsSolid-append space gap v value hv.1))
                  hb)) in
    let split : split_key (k ∷ inner) ≡ (k ∷ key, some (gap ++ (v ∷ value))) =
      split_key-word (k ∷ key) (gap ++ (v ∷ value)) space hkey hs in
    rw trimmed (
      not_comment conf k inner hk
      ∙ (ap (apply_split conf) split
          ∙ ap (conf_apply_kv conf (k ∷ key)) (ltrim-skip gap value v hg hv.0.0)))
