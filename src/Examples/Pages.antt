-- ===== src/Examples/Pages.antt =====
-- A static file, a listing, a template and its layout, and a view that is asked for twice.
use miniweb.Prelude.{
  ℕ, ◌≡◌, ◌≤◌, ◌<◌, ◌-◌, refl, Bool, true, false, List, [], ◌∷◌, ◌++◌, Option, none, some, Bytes,
  codes, c_string, str_eq, arith,
}
use miniweb.Router.Static.{static_handler}
use miniweb.Router.Static.Confined.{IsConfined, static_handler-IsConfined}
use miniweb.Router.Init.{find_view_route}
use miniweb.Router.Views.{
  cached_page, find_hot_view_cache_entry, hot_view_cache, set_hot_view, ViewCall, ttl_sec,
  sends_cached, has_query, view_template_handler,
}
use miniweb.Router.Views.Recent.{RenderedBy, run as run_views, cached_page_recent}
use miniweb.Render.TemplateCache.{
  template_cache_refresh_locked, template_cache_reload_locked, reloaded, load_entries, load_entry,
  add_template_to_cache, read_file_content, find_template, FileRead, FileStat, DirEntry, Answers,
  read_template_file,
}
use miniweb.Render.TemplateCache
use miniweb.Render.TemplateCache.Listing.{HasFile}
use miniweb.Render.TemplateCache.Fresh.{
  Found, reads, step, run as run_templates, read_template_fresh,
}
use miniweb.Render.Template.{compose_layout}
use miniweb.Render.Template.Layout.{compose_layout_lem}

abbrev is_file : Bytes → Option Bool
is_file path = some false

abbrev unreadable : Bytes → Bool
unreadable path = false

static_handler-IsConfined_example :
    IsConfined
      (codes "static")
      (static_handler (codes "static") true is_file unreadable (codes "/static/a.css?v=1"))
static_handler-IsConfined_example =
    static_handler-IsConfined (codes "static") true is_file unreadable (codes "/static/a.css?v=1")

compose_layout_lem_example :
    compose_layout
      (λ i. true)
      (codes "Home")
      (codes "<"
        ++ (codes "{{title}}"
            ++ ([]
                ++ (codes "{{extra_head}}"
                    ++ ([]
                        ++ (codes "{{page_content}}"
                            ++ ([] ++ (codes "{{extra_js}}" ++ codes ">"))))))))
      (codes "p")
      none
      (some (codes "j"))
    ≡ some (
        codes "<"
        ++ (codes "Home"
            ++ ([] ++ ([] ++ ([] ++ (codes "p" ++ ([] ++ (codes "j" ++ codes ">"))))))))
compose_layout_lem_example =
    compose_layout_lem (codes "<") [] [] [] (codes ">") (codes "Home") (codes "p") (codes "j") none
      (λ i. true) (λ i. refl) (ground arith) tt tt tt
      (ground arith, (ground arith, (ground arith, ground arith))) (ground arith) tt

-- A directory with one page.
abbrev page : DirEntry
page = record {
  d_name = codes "p";
  status = some (record { is_regular = true; st_mtime = 5 });
  file = record {
    opens = true;
    seeks_end = true;
    size = some 2;
    seeks_start = true;
    has_memory = true;
    bytes = codes "hi";
    ferror = false;
  };
  grows = true;
  names = true;
}

abbrev answers : Answers
answers = record { now = 1000; dir = some (page ∷ []); copies = true }

abbrev later : Answers
later = record { now = 1030; dir = none; copies = true }

is_read :
    (read_template_file
      (codes "t")
      1024
      later
      (codes "p")
      (run_templates (codes "t") 1024 (reads answers (codes "p") ∷ []))).0
    ≡ some (codes "hi")
unfolding read_template_file run_templates template_cache_refresh_locked step
    template_cache_reload_locked reloaded load_entries load_entry str_eq add_template_to_cache
    read_file_content find_template c_string
is_read = refl

read_template_fresh_example :
    (b : Answers) × (ds : List DirEntry) × (content : Bytes) × Found
      (reads later (codes "p") ∷ reads answers (codes "p") ∷ [])
      b
    × (b.dir ≡ some ds)
    × HasFile ds (codes "p") content
    × (codes "hi" ≡ c_string content)
    × (1030 - b.now < TemplateCache.ttl_sec)
read_template_fresh_example =
    read_template_fresh (codes "t") 1024 (reads answers (codes "p") ∷ []) later (codes "p")
      (codes "hi") is_read

abbrev visit : ViewCall
visit = record {
  method = codes "GET";
  url = codes "/docs";
  now = 1000;
  render = λ view. some (codes "docs");
  copy_memory = true;
  cache_memory = true;
}

abbrev visit_again : ViewCall
visit_again = record visit { now = 1010 }

is_cached :
    (view_template_handler visit_again (run_views (visit ∷ []))).0 ≡ sends_cached (codes "docs")
unfolding view_template_handler run_views cached_page has_query find_hot_view_cache_entry
    hot_view_cache str_eq find_view_route set_hot_view
is_cached = refl

cached_page_recent_example :
    (time : ℕ) × RenderedBy (visit ∷ []) (codes "/docs") (codes "docs") time
    × (1010 - time ≤ ttl_sec)
    × (has_query (codes "/docs") ≡ false)
cached_page_recent_example = cached_page_recent (visit ∷ []) visit_again (codes "docs") is_cached
