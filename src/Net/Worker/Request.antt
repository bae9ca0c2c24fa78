-- ===== src/Net/Worker/Request.antt =====
-- The request line and the headers that src/net/worker.c reads.
use miniweb.Prelude.{
  Bool, true, false, not, ◌&&◌, ◌||◌, Option, none, some, [], ◌∷◌, ◌++◌, Bytes, codes, str_eq,
  strip_prefix, Split, before, crlf, split_crlf, strip_nocase, ◌==◌, ltb, length, if◌then◌else◌,
  is_some,
}

pub record RequestLine : Type 0 where
  pub method : Bytes
  pub url : Bytes
  pub version : Bytes

-- `strchr(s, ' ')`
unfoldable pub split_space : Bytes → Split
split_space [] = none
split_space (c ∷ s) = if c == b' ' then some ([], s) else before c (split_space s)

-- MINIWEB's buffers for the three words, one byte of each for the NUL.
abbrev pub fits : Bytes → Bytes → Bytes → Bool
fits method url version = ltb (length method) 32 && ltb (length url) 512 && ltb (length version) 32

abbrev pub is_blank : Bytes → Bool
is_blank [] = true
is_blank (c ∷ s) = false

unfoldable pub read_version : Bytes → Bytes → Split → Option RequestLine
read_version method url none = none
read_version method url (some (version, rest)) =
    if is_blank method || is_blank url || is_blank version || not (fits method url version)
    then none
    else some (record { method = method; url = url; version = version })

unfoldable pub read_url : Bytes → Split → Option RequestLine
read_url method none = none
read_url method (some (url, rest)) = read_version method url (split_crlf rest)

unfoldable pub read_method : Split → Option RequestLine
read_method none = none
read_method (some (method, rest)) = read_url method (split_space rest)

-- `none` is -1.
unfoldable pub parse_request_line : Bytes → Option RequestLine
parse_request_line buf = read_method (split_space buf)

-- Whether the empty line is there; only that is asked of the pointer.
unfoldable pub find_header_end : Bytes → Bool
find_header_end [] = false
find_header_end (c ∷ buf) =
    is_some (strip_prefix (13 ∷ 10 ∷ 13 ∷ 10 ∷ []) (c ∷ buf)) || find_header_end buf

unfoldable pub skip_blanks : Bytes → Bytes
skip_blanks [] = []
skip_blanks (c ∷ s) = if c == 32 || c == 9 then skip_blanks s else c ∷ s

-- What a value says, with the answer of the headers behind it.
unfoldable pub connection_value : Bytes → Bool → Bool
connection_value value rest =
    if is_some (strip_nocase (codes "close") value)
    then false
    else if is_some (strip_nocase (codes "keep-alive") value)
    then true
    else rest

-- The loop over the hits of `strcasestr`. A hit cannot begin within another or in the blanks behind it,
-- so that the search goes on at the next byte.
unfoldable pub keep_alive_from : Bool → Bytes → Bool
keep_alive_from default [] = default
keep_alive_from default (c ∷ p) =
    let rest = keep_alive_from default p in
    elim (strip_nocase (crlf ++ codes "connection:") (c ∷ p)) [
      | none ↦ rest
      | some value ↦ connection_value (skip_blanks value) rest
    ]

unfoldable pub request_keep_alive : Bytes → Bytes → Bool
request_keep_alive buf version = keep_alive_from (str_eq version (codes "HTTP/1.1")) buf
