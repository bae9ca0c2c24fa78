-- ===== src/Modules/Packages.antt =====
-- src/modules/packages/packages_module.c: what it reads of a request's URL before it runs a command.
pub mod Query
pub mod Decode
use miniweb.Prelude.{
  ℕ, zero, suc, ◌+◌, ◌-◌, ◌*◌, Bool, true, false, not, ◌&&◌, ◌||◌, Option, none, some, List, [],
  ◌∷◌, ◌++◌, Bytes, str_eq, strip_prefix, ◌==◌, leb, ltb, length, if◌then◌else◌, is_some,
}
use miniweb.Http.Utils.{is_name_byte, hex_pair, plus_to_space, put}

unfoldable pub all_name_bytes : Bytes → Bool
all_name_bytes [] = true
all_name_bytes (c ∷ name) = if not (is_name_byte c) then false else all_name_bytes name

-- `none` is NULL.
unfoldable pub is_safe_pkg_name : Option Bytes → Bool
is_safe_pkg_name none = false
is_safe_pkg_name (some []) = false
is_safe_pkg_name (some (c ∷ name)) = all_name_bytes (c ∷ name)

-- The loop, with `di` bytes written. `isxdigit` of both bytes is that `hex_pair` has a value, which is
-- then that of `strtol`.
unfoldable pub url_decode_into_from : ℕ → ℕ → Bytes → Option Bytes
url_decode_into_from dst_size di [] = some []
url_decode_into_from dst_size di (c ∷ []) =
    if leb dst_size (di + 1) then none else some (plus_to_space c ∷ [])
url_decode_into_from dst_size di (c ∷ d ∷ []) = elim (leb dst_size (di + 1)) [
  | true ↦ none
  | false ↦ put (some (plus_to_space c)) (url_decode_into_from dst_size (di + 1) (d ∷ []))
]
url_decode_into_from dst_size di (c ∷ d ∷ e ∷ src) = elim (leb dst_size (di + 1)) [
  | true ↦ none
  | false ↦ elim (c == b'%' && is_some (hex_pair d e)) [
    | true ↦ put (hex_pair d e) (url_decode_into_from dst_size (di + 1) src)
    | false ↦ put (some (plus_to_space c)) (url_decode_into_from dst_size (di + 1) (d ∷ e ∷ src))
  ]
]

-- The result is what is written; `none` is -1.
unfoldable pub url_decode_into : Option Bytes → ℕ → Option Bytes
url_decode_into none dst_size = none
url_decode_into (some src) dst_size =
    if dst_size == 0 then none else url_decode_into_from dst_size 0 src

-- `strchr(s, c)`: what stands before the hit, and what stands behind it.
unfoldable pub split_at : ℕ → Bytes → Option (Bytes × Bytes)
split_at c [] = none
split_at c (x ∷ s) = elim (x == c) [
  | true ↦ some ([], s)
  | false ↦ elim (split_at c s) [ none ↦ none | some (front, back) ↦ some (x ∷ front, back) ]
]

abbrev pub onto : ℕ → List Bytes → List Bytes
onto c [] = (c ∷ []) ∷ []
onto c (e ∷ es) = (c ∷ e) ∷ es

-- The entries that the loop goes through, up to the next `&` each. An entry that is empty has no `=`,
-- so that it is skipped, as the end of the text is.
unfoldable pub entries : Bytes → List Bytes
entries [] = [] ∷ []
entries (c ∷ qs) = if c == b'&' then [] ∷ entries qs else onto c (entries qs)

-- The value of an entry, decoded, from a buffer of 1024 bytes.
unfoldable pub decoded_value : ℕ → Bytes → Option Bytes
decoded_value out_size encoded =
    if leb 1024 (length encoded) then none else url_decode_into (some encoded) out_size

-- The loop. An `=` behind the next `&` belongs to a later entry.
unfoldable pub query_loop : Bytes → ℕ → List Bytes → Option Bytes
query_loop key out_size [] = none
query_loop key out_size (e ∷ es) = elim (split_at b'=' e) [
  | none ↦ query_loop key out_size es
  | some (name, encoded) ↦ elim (str_eq name key) [
    | true ↦ decoded_value out_size encoded
    | false ↦ query_loop key out_size es
  ]
]

unfoldable pub query_of : Bytes → ℕ → Option (Bytes × Bytes) → Option Bytes
query_of key out_size none = none
query_of key out_size (some (path, qs)) = query_loop key out_size (entries qs)

-- `none` is the result 0; the key and the buffer are never NULL.
unfoldable pub get_query_value : Option Bytes → Bytes → ℕ → Option Bytes
get_query_value none key out_size = none
get_query_value (some url) key out_size =
    if out_size == 0 then none else query_of key out_size (split_at b'?' url)

unfoldable pub ends_or_asks : Option Bytes → Bool
ends_or_asks none = false
ends_or_asks (some []) = true
ends_or_asks (some (c ∷ rest)) = c == b'?'

unfoldable pub path_matches_endpoint : Option Bytes → Bytes → Bool
path_matches_endpoint none prefix = false
path_matches_endpoint (some path) prefix = ends_or_asks (strip_prefix prefix path)
