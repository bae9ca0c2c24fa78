-- ===== src/Http/Utils/Names.antt =====
-- `sanitize_string` and `mime_type_for_path`.
use miniweb.Prelude.{
  suc, ◌↔◌, ◌≡◌, refl, ◌≢◌, ap, true, none, some, [], ◌∷◌, ◌++◌, Bytes, arith, length, All,
}
use miniweb.Http.Utils.{
  is_name_byte, sanitize_string, last_dot, mime_type_for_extension, mime_type_for_path,
}

-- No byte of the text is a dot.
abbrev pub NoDot : Bytes → Type 0
NoDot = All (λ c. c ≢ b'.')

last_dot-none : (s : Bytes) → NoDot s → last_dot s ≡ none
unfolding last_dot
last_dot-none [] h = refl
last_dot-none (c ∷ s) h = ground (arith, last_dot-none s h.1, h.0)

last_dot-append : (s ext : Bytes) → NoDot ext → last_dot (s ++ b'.' ∷ ext) ≡ some (b'.' ∷ ext)
unfolding last_dot
last_dot-append [] ext h = ground (arith, last_dot-none ext h)
last_dot-append (c ∷ s) ext h = ground (arith, last_dot-append s ext h)

-- The type of a file depends only on its extension, the text behind the last dot; a name with no dot
-- has the type of an unknown extension.
pub mime_type_by_extension :
    (s ext : Bytes)
    → NoDot ext
    → (mime_type_for_path (some (s ++ b'.' ∷ ext)) ≡ mime_type_for_extension (b'.' ∷ ext))
      × (mime_type_for_path (some ext) ≡ mime_type_for_path none)
unfolding mime_type_for_path
mime_type_by_extension s ext h =
    (ground (arith, last_dot-append s ext h), ground (arith, last_dot-none ext h))

abbrev pub IsName : Bytes → Type 0
IsName = All (λ c. is_name_byte c ≡ true)

sanitize_string-IsName : (s : Bytes) → IsName (sanitize_string s)
unfolding sanitize_string
sanitize_string-IsName [] = tt
sanitize_string-IsName (c ∷ s) = (ground arith, sanitize_string-IsName s)

IsName→same : (s : Bytes) → IsName s → sanitize_string s ≡ s
unfolding sanitize_string
IsName→same [] h = refl
IsName→same (c ∷ s) h = ground (arith, IsName→same s h.1, h.0)

length-sanitize_string : (s : Bytes) → length (sanitize_string s) ≡ length s
unfolding sanitize_string
length-sanitize_string [] = refl
length-sanitize_string (c ∷ s) = ap suc (length-sanitize_string s)

-- The result has the length of the input and only letters, digits and `.-_+`, and the inputs that have
-- only these are exactly those that stay as they are.
pub sanitize_string_lem :
    (s : Bytes)
    → IsName (sanitize_string s)
      × (length (sanitize_string s) ≡ length s)
      × ((sanitize_string s ≡ s) ↔ IsName s)
sanitize_string_lem s = (
  sanitize_string-IsName s,
  length-sanitize_string s,
  (λ e. rw e at (sanitize_string-IsName s), IsName→same s),
)
