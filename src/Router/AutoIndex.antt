-- ===== src/Router/AutoIndex.antt =====
-- src/router/route_table.c: the escaping of HTML, the growing buffer and the listing of a directory.
-- What `malloc`, `realloc`, `opendir` and `stat` answer are arguments.
pub mod Escape
pub mod Growth
use miniweb.Prelude.{
  ℕ, zero, suc, ◌+◌, ◌-◌, ◌*◌, Bool, true, false, not, ◌&&◌, ◌||◌, Option, none, some, List, [],
  ◌∷◌, ◌++◌, Bytes, codes, str_eq, ◌==◌, leb, ltb, length, take, if◌then◌else◌,
}

-- What the first loop of `html_escape` counts for a byte.
unfoldable pub escaped_size : ℕ → ℕ
escaped_size c =
    if c == b'&' then 5 else if c == b'<' || c == b'>' then 4 else if c == b'"' then 6 else 1

unfoldable pub escaped_len : Bytes → ℕ
unfolding escaped_size
escaped_len [] = 0
escaped_len (c ∷ s) = escaped_size c + escaped_len s

-- What the second loop writes for a byte.
unfoldable pub escape_byte : ℕ → Bytes
escape_byte c =
    if c == b'&'
    then codes "&amp;"
    else if c == b'<'
    then codes "&lt;"
    else if c == b'>'
    then codes "&gt;"
    else if c == b'"'
    then codes "&quot;"
    else c ∷ []

unfoldable pub escape_all : Bytes → Bytes
escape_all [] = []
escape_all (c ∷ s) = escape_byte c ++ escape_all s

-- The arguments are never NULL; `none` is.
unfoldable pub html_escape : Bool → Bytes → Option Bytes
html_escape has_memory s = if has_memory then some (escape_all s) else none

-- The text in the block, which has `cap` bytes.
pub record Buffer : Type 0 where
  pub text : Bytes
  pub cap : ℕ

-- The loop that doubles the capacity, on fuel.
unfoldable pub grow : ℕ → ℕ → ℕ → ℕ
grow zero needed ncap = ncap
grow (suc fuel) needed ncap =
    let rest = grow fuel needed (ncap * 2) in if ltb ncap needed then rest else ncap

-- `none` is the result -1.
unfoldable pub append_str : Bool → Buffer → Bytes → Option Buffer
append_str has_memory b s =
    let needed = length b.text + length s + 1 in
    if ltb b.cap needed
    then (if has_memory
        then some (record { text = b.text ++ s; cap = grow needed needed b.cap })
        else none)
    else some (record b { text = b.text ++ s })

-- An entry of the directory, whether `stat` finds a directory, and the answers of the allocator to its
-- name and to its item.
pub record DirItem : Type 0 where
  pub d_name : Bytes
  pub is_dir : Bool
  pub name_memory : Bool
  pub item_memory : Bool

infixl 5 ◌>>=◌
abbrev pub ◌>>=◌ : Option Buffer → (Buffer → Option Buffer) → Option Buffer
none >>= k = none
some b >>= k = k b

-- The size of `item`.
abbrev pub item_size : ℕ
item_size = 1024

unfoldable pub item_text : Bytes → Bool → Bytes
item_text escaped is_dir =
    let slash = if is_dir then codes "/" else [] in
    take (item_size - 1) (
      codes "<li><a href=\""
      ++ (escaped ++ (slash ++ (codes "\">" ++ (escaped ++ (slash ++ codes "</a></li>"))))))

abbrev pub append_item : Option Bytes → DirItem → Buffer → Option Buffer
append_item none d b = some b
append_item (some escaped) d b = append_str d.item_memory b (item_text escaped d.is_dir)

unfoldable pub list_item : DirItem → Buffer → Option Buffer
list_item d b =
    if str_eq d.d_name (codes ".") || str_eq d.d_name (codes "..")
    then some b
    else append_item (html_escape d.name_memory d.d_name) d b

unfoldable pub list_items : List DirItem → Buffer → Option Buffer
list_items [] b = some b
list_items (d ∷ ds) b = list_item d b >>= list_items ds

abbrev pub parent_item : Bool → Bytes → Buffer → Option Buffer
parent_item has_memory req_path b =
    if str_eq req_path (codes "/static/")
    then some b
    else append_str has_memory b (codes "<li><a href=\"../\">../</a></li>")

abbrev pub page_start : Bytes
page_start =
    codes
      "<!DOCTYPE html><html><head><meta charset=\"UTF-8\"><meta name=\"viewport\" content=\"width=device-width,initial-scale=1\"><title>Index of "

abbrev pub page_middle : Bytes
page_middle =
    codes
      "</title><link rel=\"stylesheet\" href=\"/static/css/custom.css\"></head><body><div class=\"container\"><h1>Index of "

unfoldable pub autoindex_text : (ℕ → Bool) → Bytes → List DirItem → Option Bytes → Option Buffer
autoindex_text memory req_path ds none = none
autoindex_text memory req_path ds (some escaped) = do
  b ← append_str (memory 2) (record { text = []; cap = 4096 }) page_start
  c ← append_str (memory 3) b escaped
  d ← append_str (memory 4) c page_middle
  e ← append_str (memory 5) d escaped
  f ← append_str (memory 6) e (codes "</h1><ul>")
  g ← parent_item (memory 7) req_path f
  h ← list_items ds g
  append_str (memory 8) h (codes "</ul></div></body></html>")

-- The page that `send_autoindex` builds; `none` ends in a 500. `memory` answers the allocations that
-- are not those of an item, in their order.
unfoldable pub autoindex_page : (ℕ → Bool) → Bytes → List DirItem → Option Buffer
autoindex_page memory req_path ds =
    if not (memory 0)
    then none
    else autoindex_text memory req_path ds (html_escape (memory 1) req_path)
