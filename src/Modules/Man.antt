-- ===== src/Modules/Man.antt =====
-- src/modules/man: the texts that man_query.c and man_render.c read and check, and the cache of the
-- rendered pages.
pub mod RenderCache
pub mod Overstrike
pub mod Request
use miniweb.Prelude.{
  ℕ, ◌+◌, ◌-◌, Bool, true, false, not, ◌&&◌, ◌||◌, Option, none, some, List, [], ◌∷◌, ◌++◌, Bytes,
  codes, str_eq, strip_prefix, is_some, isdigit, ◌==◌, leb, ltb, length, take, if◌then◌else◌,
}
use miniweb.Http.Utils.{isalnum, between}
use miniweb.Http.Response.{HttpResponse, http_response_add_header}
use miniweb.Modules.Packages.{ends_or_asks}

unfoldable pub man_path_matches_endpoint : Option Bytes → Bytes → Bool
man_path_matches_endpoint none endpoint = false
man_path_matches_endpoint (some path) endpoint = ends_or_asks (strip_prefix endpoint path)

unfoldable pub is_token_byte : ℕ → Bool
is_token_byte c = isalnum c || c == b'.' || c == b'_' || c == b'-' || c == b'+'

unfoldable pub all_token_bytes : Bytes → Bool
all_token_bytes [] = true
all_token_bytes (c ∷ s) = if not (is_token_byte c) then false else all_token_bytes s

-- `none` is NULL.
unfoldable pub man_is_valid_token : Option Bytes → Bool
man_is_valid_token none = false
man_is_valid_token (some []) = false
man_is_valid_token (some (c ∷ s)) = all_token_bytes (c ∷ s)

abbrev pub islower : ℕ → Bool
islower c = between b'a' b'z' c

unfoldable pub all_lower : Bytes → Bool
all_lower [] = true
all_lower (c ∷ s) = if not (islower c) then false else all_lower s

unfoldable pub man_is_valid_section : Option Bytes → Bool
man_is_valid_section none = false
man_is_valid_section (some []) = false
man_is_valid_section (some (c ∷ s)) =
    if ltb 8 (length (c ∷ s)) then false else if not (isdigit c) then false else all_lower s

-- `strcmp(tmp + tlen - slen, suffix) == 0` with `tlen > slen`: what stands before the suffix.
unfoldable pub strip_suffix : Bytes → Bytes → Option Bytes
strip_suffix suffix [] = none
strip_suffix suffix (c ∷ s) = elim (str_eq s suffix) [
  | true ↦ some (c ∷ [])
  | false ↦ elim (strip_suffix suffix s) [ none ↦ none | some front ↦ some (c ∷ front) ]
]

-- The loop over the suffixes of compressed files: the first that fits is taken off.
unfoldable pub uncompressed : List Bytes → Bytes → Bytes
uncompressed [] name = name
uncompressed (suffix ∷ suffixes) name = elim (strip_suffix suffix name) [
  | some front ↦ front
  | none ↦ uncompressed suffixes name
]

abbrev pub compressed_suffixes : List Bytes
compressed_suffixes = codes ".gz" ∷ codes ".bz2" ∷ codes ".xz" ∷ codes ".zst" ∷ []

-- What stands behind the last dot.
unfoldable pub behind_dot : Bytes → Option Bytes
behind_dot [] = none
behind_dot (c ∷ s) = elim (behind_dot s) [
  | some rest ↦ some rest
  | none ↦ if c == b'.' then some s else none
]

abbrev pub section_if_valid : ℕ → Option Bytes → Option Bytes
section_if_valid section_out_len none = none
section_if_valid section_out_len (some section) =
    if man_is_valid_section (some section) then some (take (section_out_len - 1) section) else none

-- The result is what is written to `section_out`, and `none` is the result 0; `tmp` has 256 bytes.
unfoldable pub man_parse_section_from_filename : Option Bytes → ℕ → Option Bytes
man_parse_section_from_filename none section_out_len = none
man_parse_section_from_filename (some filename) section_out_len =
    if section_out_len == 0
    then none
    else section_if_valid section_out_len
        (behind_dot (uncompressed compressed_suffixes (take 255 filename)))

unfoldable pub man_area_from_path : Bytes → Bytes
man_area_from_path filepath =
    if is_some (strip_prefix (codes "/usr/X11R6/") filepath)
    then codes "x11"
    else if is_some (strip_prefix (codes "/usr/local/") filepath)
    then codes "packages"
    else codes "system"

unfoldable pub man_mime_for_format : Bytes → Bytes
man_mime_for_format format =
    if str_eq format (codes "pdf")
    then codes "application/pdf"
    else if str_eq format (codes "ps")
    then codes "application/postscript"
    else if str_eq format (codes "md")
    then codes "text/markdown; charset=utf-8"
    else if str_eq format (codes "txt")
    then codes "text/plain; charset=utf-8"
    else codes "text/html; charset=utf-8"

-- `content_disp` has 256 bytes.
unfoldable pub man_add_content_disposition_for_format : HttpResponse → Bytes → Bytes → HttpResponse
man_add_content_disposition_for_format resp format page =
    if str_eq format (codes "pdf")
    then http_response_add_header resp (codes "Content-Disposition")
        (take 255 (codes "inline; filename=\"" ++ (page ++ codes ".pdf\"")))
    else if str_eq format (codes "md") || str_eq format (codes "txt")
    then http_response_add_header resp (codes "Content-Disposition") (codes "inline")
    else if str_eq format (codes "ps")
    then http_response_add_header resp (codes "Content-Disposition")
        (take 255 (codes "attachment; filename=\"" ++ (page ++ codes ".ps\"")))
    else resp
