-- ===== src/Http/Utils.antt =====
-- src/http/utils.c: text helpers, over the bytes of a string.
pub mod UrlDecode
pub mod JsonEscape
pub mod Names
use miniweb.Prelude.{
  ℕ, ◌+◌, ◌-◌, ◌*◌, ◌/◌, ◌%◌, Bool, true, false, not, ◌&&◌, ◌||◌, Option, none, some, List, [], ◌∷◌,
  ◌++◌, map, Bytes, codes, ◌==◌, leb, ltb, if◌then◌else◌, length, str_eq,
}

abbrev pub between : ℕ → ℕ → ℕ → Bool
between lo hi c = leb lo c && leb c hi

-- `snprintf(…, "\\u%04x", c)` for a byte below 0x20
abbrev pub hex_digit : ℕ → ℕ
hex_digit n = if ltb n 10 then b'0' + n else b'a' + (n - 10)

unfoldable pub json_escape_byte : ℕ → Bytes
json_escape_byte c =
    if c == b'"'
    then b'\\' ∷ b'"' ∷ []
    else if c == b'\\'
    then b'\\' ∷ b'\\' ∷ []
    else if c == 8
    then b'\\' ∷ b'b' ∷ []
    else if c == 12
    then b'\\' ∷ b'f' ∷ []
    else if c == b'\n'
    then b'\\' ∷ b'n' ∷ []
    else if c == b'\r'
    then b'\\' ∷ b'r' ∷ []
    else if c == b'\t'
    then b'\\' ∷ b't' ∷ []
    else if ltb c 0x20
    then b'\\' ∷ b'u' ∷ b'0' ∷ b'0' ∷ hex_digit (c / 16) ∷ hex_digit (c % 16) ∷ []
    else c ∷ []

-- The loop: `d` bytes are written.
unfoldable pub json_escape_from : ℕ → ℕ → Bytes → Bytes
json_escape_from max_out d [] = []
json_escape_from max_out d (c ∷ src) =
    if leb (max_out - 1) (d + 7)
    then []
    else json_escape_byte c ++ json_escape_from max_out (d + length (json_escape_byte c)) src

-- `none` is NULL; the flag is whether `malloc` succeeds.
unfoldable pub json_escape_string : Bool → Option Bytes → Bytes
unfolding json_escape_from
json_escape_string allocated none = []
json_escape_string false (some src) = []
json_escape_string true (some src) = json_escape_from (length src * 6 + 1) 0 src

-- `isalnum` in the C locale
abbrev pub isalnum : ℕ → Bool
isalnum c = between b'0' b'9' c || between b'A' b'Z' c || between b'a' b'z' c

abbrev pub is_name_byte : ℕ → Bool
is_name_byte c = isalnum c || c == b'.' || c == b'-' || c == b'_' || c == b'+'

unfoldable pub sanitize_string : Bytes → Bytes
sanitize_string [] = []
sanitize_string (c ∷ s) = (if not (is_name_byte c) then b'_' else c) ∷ sanitize_string s

-- `none` is -1.
unfoldable pub hex_value : ℕ → Option ℕ
hex_value c =
    if between b'0' b'9' c
    then some (c - b'0')
    else if between b'a' b'f' c
    then some (10 + (c - b'a'))
    else if between b'A' b'F' c
    then some (10 + (c - b'A'))
    else none

-- `(char)((hi << 4) | lo)`: the digits are below 16, so the bits do not overlap.
unfoldable pub hex_pair : ℕ → ℕ → Option ℕ
unfolding hex_value
hex_pair d e = elim (hex_value d) [
  | none ↦ none
  | some hi ↦ elim (hex_value e) [ none ↦ none | some lo ↦ some (hi * 16 + lo) ]
]

abbrev pub plus_to_space : ℕ → ℕ
plus_to_space c = if c == b'+' then b' ' else c

-- The rest of the output behind one byte of it, if both are there.
abbrev pub put : Option ℕ → Option Bytes → Option Bytes
put none rest = none
put (some c) none = none
put (some c) (some rest) = some (c ∷ rest)

-- The loop, with `out` bytes written; the result is what it writes. A NUL before the end of an escape
-- is the end of the list.
unfoldable pub url_decode_from : ℕ → ℕ → Bytes → Option Bytes
url_decode_from dst_len out [] = some []
url_decode_from dst_len out (c ∷ []) =
    if leb dst_len (out + 1) || c == b'%' then none else some (plus_to_space c ∷ [])
url_decode_from dst_len out (c ∷ d ∷ []) = elim (leb dst_len (out + 1) || c == b'%') [
  | true ↦ none
  | false ↦ put (some (plus_to_space c)) (url_decode_from dst_len (out + 1) (d ∷ []))
]
url_decode_from dst_len out (c ∷ d ∷ e ∷ src) = elim (leb dst_len (out + 1)) [
  | true ↦ none
  | false ↦ elim (c == b'%') [
    | true ↦ put (hex_pair d e) (url_decode_from dst_len (out + 1) src)
    | false ↦ put (some (plus_to_space c)) (url_decode_from dst_len (out + 1) (d ∷ e ∷ src))
  ]
]

-- `none` is -1; the first argument may be NULL, the buffer is never NULL.
unfoldable pub url_decode : Option Bytes → ℕ → Option Bytes
unfolding url_decode_from
url_decode none dst_len = none
url_decode (some src) dst_len = if dst_len == 0 then none else url_decode_from dst_len 0 src

-- `strrchr(path, '.')`: the text from the last dot on.
unfoldable pub last_dot : Bytes → Option Bytes
last_dot [] = none
last_dot (c ∷ path) = elim (last_dot path) [
  | some ext ↦ some ext
  | none ↦ if c == b'.' then some (c ∷ path) else none
]

unfoldable pub mime_type_for_extension : Bytes → Bytes
mime_type_for_extension ext =
    if str_eq ext (codes ".html")
    then codes "text/html"
    else if str_eq ext (codes ".css")
    then codes "text/css"
    else if str_eq ext (codes ".js")
    then codes "application/javascript"
    else if str_eq ext (codes ".png")
    then codes "image/png"
    else if str_eq ext (codes ".svg")
    then codes "image/svg+xml"
    else if str_eq ext (codes ".jpg") || str_eq ext (codes ".jpeg")
    then codes "image/jpeg"
    else if str_eq ext (codes ".gif")
    then codes "image/gif"
    else if str_eq ext (codes ".ico")
    then codes "image/x-icon"
    else if str_eq ext (codes ".pdf")
    then codes "application/pdf"
    else if str_eq ext (codes ".ps")
    then codes "application/postscript"
    else if str_eq ext (codes ".md")
    then codes "text/markdown; charset=utf-8"
    else if str_eq ext (codes ".txt")
    then codes "text/plain; charset=utf-8"
    else codes "application/octet-stream"

unfoldable pub mime_type_for_path : Option Bytes → Bytes
mime_type_for_path none = codes "application/octet-stream"
mime_type_for_path (some path) = elim (last_dot path) [
  | none ↦ codes "application/octet-stream"
  | some ext ↦ mime_type_for_extension ext
]
