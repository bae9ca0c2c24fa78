-- ===== src/Router/Views.antt =====
-- src/router/route_table.c: the handler of the views, and its cache of the pages. A call is one step.
-- What the rendering gives, the time and the answers of `strdup` are arguments.
pub mod Recent
use miniweb.Prelude.{
  ℕ, ◌-◌, Bool, true, false, not, ◌&&◌, ◌||◌, Option, none, some, List, [], ◌∷◌, Bytes, codes,
  str_eq, ◌==◌, leb, if◌then◌else◌,
}
use miniweb.Router.Init.{ViewRoute, find_view_route}

-- HOT_VIEW_CACHE_TTL_SEC
abbrev pub ttl_sec : ℕ
ttl_sec = 10

-- `none` is a NULL body.
pub record HotEntry : Type 0 where
  pub path : Bytes
  pub body : Option Bytes
  pub created_at : ℕ

abbrev pub cold : Bytes → HotEntry
cold path = record { path = path; body = none; created_at = 0 }

-- The initial `g_hot_view_cache`.
unfoldable pub hot_view_cache : List HotEntry
hot_view_cache =
    cold (codes "/")
    ∷ cold (codes "/docs")
    ∷ cold (codes "/networking")
    ∷ cold (codes "/packages")
    ∷ cold (codes "/apiroot")
    ∷ []

unfoldable pub find_hot_view_cache_entry : Bytes → List HotEntry → Option HotEntry
find_hot_view_cache_entry path [] = none
find_hot_view_cache_entry path (e ∷ es) =
    if str_eq e.path path then some e else find_hot_view_cache_entry path es

-- The write through the pointer that the search gave.
unfoldable pub set_hot_view : Bytes → Bytes → ℕ → List HotEntry → List HotEntry
set_hot_view path body now [] = []
set_hot_view path body now (e ∷ es) =
    if str_eq e.path path
    then record e { body = some body; created_at = now } ∷ es
    else e ∷ set_hot_view path body now es

-- `strchr(url, '?') != NULL`
unfoldable pub has_query : Bytes → Bool
has_query [] = false
has_query (c ∷ s) = if c == b'?' then true else has_query s

-- What the handler sends: an error, a copy of a cached page, or a page just rendered.
pub data ViewReply : Type 0 where
  sends_error : ℕ → Bytes → ViewReply
  sends_cached : Bytes → ViewReply
  sends_rendered : Bytes → ViewReply

-- A request, with the time, what the renderings give for a view, and whether the copies of a cached
-- page and of a page for the cache succeed.
pub record ViewCall : Type 0 where
  pub method : Bytes
  pub url : Bytes
  pub now : ℕ
  pub render : ViewRoute → Option Bytes
  pub copy_memory : Bool
  pub cache_memory : Bool

abbrev pub young_body : ℕ → Option HotEntry → Option Bytes
young_body now none = none
young_body now (some e) = if leb (now - e.created_at) ttl_sec then e.body else none

-- The page of the cache, if the request may have one.
unfoldable pub cached_page : ViewCall → List HotEntry → Option Bytes
cached_page c es =
    if has_query c.url then none else young_body c.now (find_hot_view_cache_entry c.url es)

abbrev pub reply_rendered : ViewCall → List HotEntry → Option Bytes → ViewReply × List HotEntry
reply_rendered c es none = (sends_error 500 (codes "Template rendering failed"), es)
reply_rendered c es (some output) = (
  sends_rendered output,
  if not (has_query c.url) && c.cache_memory then set_hot_view c.url output c.now es else es,
)

abbrev pub reply_view : ViewCall → List HotEntry → Option ViewRoute → ViewReply × List HotEntry
reply_view c es none = (sends_error 404 (codes "Not Found"), es)
reply_view c es (some view) = reply_rendered c es (c.render view)

abbrev pub reply_page : ViewCall → List HotEntry → Option Bytes → ViewReply × List HotEntry
reply_page c es none = reply_view c es (find_view_route c.method c.url)
reply_page c es (some body) =
    (if c.copy_memory then sends_cached body else sends_error 500 (codes "Out of memory"), es)

unfoldable pub view_template_handler : ViewCall → List HotEntry → ViewReply × List HotEntry
view_template_handler c es = reply_page c es (cached_page c es)
