-- ===== src/Modules/Man/Request.antt =====
-- src/modules/man/man_render.c: which page a request of man_render_handler asks for.
pub mod Flat
use miniweb.Prelude.{
  ℕ, ◌-◌, Bool, true, false, not, ◌&&◌, ◌||◌, Option, none, some, List, [], ◌∷◌, ◌++◌, Bytes, codes,
  str_eq, strip_prefix, ◌==◌, leb, length, take, if◌then◌else◌,
}
use miniweb.Modules.Packages.{onto}
use miniweb.Modules.Man.{man_is_valid_token, man_is_valid_section}
use miniweb.Modules.Man.RenderCache.{Page}

-- The text before the first '?'.
unfoldable pub before_ask : Bytes → Bytes
before_ask [] = []
before_ask (c ∷ s) = if c == b'?' then [] else c ∷ before_ask s

-- The pieces between the slashes, of which `strtok_r` gives those that are not empty.
unfoldable pub pieces : Bytes → List Bytes
pieces [] = [] ∷ []
pieces (c ∷ s) = if c == b'/' then [] ∷ pieces s else onto c (pieces s)

unfoldable pub tokens : List Bytes → List Bytes
tokens [] = []
tokens ([] ∷ ps) = tokens ps
tokens ((c ∷ p) ∷ ps) = (c ∷ p) ∷ tokens ps

-- What stands before the last dot, and behind it.
unfoldable pub at_last_dot : Bytes → Option (Bytes × Bytes)
at_last_dot [] = none
at_last_dot (c ∷ s) = elim (at_last_dot s) [
  | some (front, back) ↦ some (c ∷ front, back)
  | none ↦ if c == b'.' then some ([], s) else none
]

unfoldable pub is_format : Bytes → Bool
is_format s =
    str_eq s (codes "html")
    || str_eq s (codes "pdf")
    || str_eq s (codes "ps")
    || str_eq s (codes "md")
    || str_eq s (codes "txt")

-- The buffers have 32, 16, 64 and 16 bytes.
abbrev pub plain_page : Bytes → Bytes → Bytes → Page
plain_page area section token = record {
  area = area;
  section = section;
  page = take 63 token;
  format = codes "html";
}

-- The third token: a dot at its start is no dot.
abbrev pub dotted_page : Bytes → Bytes → Bytes → Option (Bytes × Bytes) → Page
dotted_page area section token none = plain_page area section token
dotted_page area section token (some ([], back)) = plain_page area section token
dotted_page area section token (some (c ∷ front, back)) =
    if is_format back
    then record {
      area = area;
      section = section;
      page = take 63 (c ∷ front);
      format = take 15 back;
    }
    else if man_is_valid_section (some back)
    then record {
      area = area;
      section = take 15 back;
      page = take 63 (c ∷ front);
      format = codes "html";
    }
    else plain_page area section token

unfoldable pub page_of_tokens : List Bytes → Page
page_of_tokens [] = plain_page (codes "system") [] []
page_of_tokens (area ∷ []) = plain_page (take 31 area) [] []
page_of_tokens (area ∷ section ∷ []) = plain_page (take 31 area) (take 15 section) []
page_of_tokens (area ∷ section ∷ token ∷ more) =
    dotted_page (take 31 area) (take 15 section) token (at_last_dot token)

-- An error with its text, or the page.
pub data ManRequest : Type 0 where
  refuses : ℕ → Bytes → ManRequest
  asks : Page → ManRequest

unfoldable pub checked : Page → ManRequest
checked p =
    if length p.page == 0 || length p.section == 0
    then refuses 400 (codes "Missing section or page name")
    else if not (is_format p.format)
    then refuses 400 (codes "Unsupported format")
    else if not (man_is_valid_token (some p.page)) || not (man_is_valid_section (some p.section))
    then refuses 400 (codes "Invalid section or page name")
    else asks p

abbrev pub request_behind : Option Bytes → ManRequest
request_behind none = refuses 400 (codes "Invalid URL")
request_behind (some rest) = checked (page_of_tokens (tokens (pieces (before_ask (take 255 rest)))))

unfoldable pub man_request : Bytes → ManRequest
unfolding checked
man_request url = request_behind (strip_prefix (codes "/man/") url)

-- The path of the file, if it fits; `none` is the result -1.
unfoldable pub build_cache_paths : Bytes → Page → ℕ → Option Bytes
build_cache_paths static_dir p abs_len =
    let abs_path =
      static_dir
      ++ (codes "/man/"
          ++ (p.area
              ++ (codes "/"
                  ++ (p.section ++ (codes "/" ++ (p.page ++ (codes "." ++ p.format))))))) in
    if leb abs_len (length abs_path) then none else some abs_path
