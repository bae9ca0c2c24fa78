-- ===== src/Render/Template.antt =====
-- The rendering of src/render/template_render.c, on the cache of TemplateCache.
pub mod Layout
use miniweb.Prelude.{
  ℕ, ◌+◌, Bool, true, false, not, ◌||◌, Option, none, some, List, [], ◌∷◌, ◌++◌, Bytes, codes,
  Split, split_text, if◌then◌else◌,
}
use miniweb.Render.TemplateCache.{TemplateCache, Answers, read_template_file}

-- `struct template_data`; `none` is NULL.
pub record TemplateData : Type 0 where
  pub title : Option Bytes
  pub page_content : Option Bytes
  pub extra_head_file : Option Bytes
  pub extra_js_file : Option Bytes

-- `struct placeholder_pair`
pub record PlaceholderPair : Type 0 where
  pub needle : Bytes
  pub value : Option Bytes

abbrev pub joined : Bytes → Bytes → Split → Bytes
joined str value none = str
joined str value (some (front, back)) = front ++ (value ++ back)

-- `none` is NULL, which the allocation may cause.
unfoldable pub replace_single : Bool → Bytes → Bytes → Bytes → Option Bytes
replace_single has_memory str needle value =
    if has_memory then some (joined str value (split_text needle str)) else none

abbrev pub or_empty : Option Bytes → Bytes
or_empty none = []
or_empty (some s) = s

abbrev pub replace_next : Option Bytes → (Bytes → Option Bytes) → Option Bytes
replace_next none k = none
replace_next (some s) k = k s

-- The loop over the pairs from the one with index `i` on; `memory` answers the allocations in order.
unfoldable pub replace_pairs : (ℕ → Bool) → ℕ → List PlaceholderPair → Bytes → Option Bytes
replace_pairs memory i [] result = some result
replace_pairs memory i (p ∷ pairs) result =
    replace_next (replace_single (memory (i + 1)) result p.needle (or_empty p.value))
      λ next. replace_pairs memory (i + 1) pairs next

unfoldable pub replace_placeholders : (ℕ → Bool) → Bytes → List PlaceholderPair → Option Bytes
unfolding replace_pairs
replace_placeholders memory template_str pairs =
    if memory 0 then replace_pairs memory 0 pairs template_str else none

unfoldable pub replace_all : (ℕ → Bool) → Bytes → Bytes → Bytes → Bytes → Bytes → Option Bytes
replace_all memory template_str title page_content extra_head extra_js =
    replace_placeholders memory template_str (
      record { needle = codes "{{title}}"; value = some title }
      ∷ record { needle = codes "{{page_content}}"; value = some page_content }
      ∷ record { needle = codes "{{extra_head}}"; value = some extra_head }
      ∷ record { needle = codes "{{extra_js}}"; value = some extra_js }
      ∷ [])

unfoldable pub compose_layout :
    (ℕ → Bool) → Bytes → Bytes → Bytes → Option Bytes → Option Bytes → Option Bytes
compose_layout memory title base_template page_content extra_head extra_js =
    replace_all memory base_template title page_content (or_empty extra_head) (or_empty extra_js)

-- A call that may fail, on the cache.
abbrev pub Render : Type 0 → Type 0
Render A = TemplateCache → Option A × TemplateCache

abbrev pub run_next :
    {A B : Type 0} → Option A × TemplateCache → (A → Render B) → Option B × TemplateCache
run_next (none, cache) k = (none, cache)
run_next (some a, cache) k = k a cache

infixl 5 ◌>>=◌
abbrev pub ◌>>=◌ : {A B : Type 0} → Render A → (A → Render B) → Render B
◌>>=◌ m k cache = run_next (m cache) k

abbrev pub give : {A : Type 0} → Option A → Render A
give o cache = (o, cache)

-- The outcome of a call whose failure is passed over.
abbrev pub tolerated : {A : Type 0} → Option A × TemplateCache → Option (Option A) × TemplateCache
tolerated (o, cache) = (some o, cache)

-- The directory's name, and the platform's PATH_MAX.
module _ (templates_dir : Bytes) (path_max : ℕ) where
  unfoldable pub read_file : Answers → Bytes → Render Bytes
  read_file a filename cache = read_template_file templates_dir path_max a filename cache

  -- The result -1 leaves a NULL, as no name does.
  unfoldable pub load_template_component : Answers → Option Bytes → Render (Option Bytes)
  load_template_component a none cache = (some none, cache)
  load_template_component a (some filename) cache =
      tolerated (read_template_file templates_dir path_max a filename cache)

  pub record Fragments : Type 0 where
    pub base : Bytes
    pub page : Bytes
    pub head : Option Bytes
    pub js : Option Bytes

  -- The answers to its four calls.
  unfoldable pub load_layout_fragments :
      (ℕ → Answers) → Bytes → Option Bytes → Option Bytes → Render Fragments
  load_layout_fragments answers page_name head_name js_name = do
    base ← read_file (answers 0) (codes "base.html")
    page ← read_file (answers 1) page_name
    head ← load_template_component (answers 2) head_name
    js ← load_template_component (answers 3) js_name
    give (some (record { base = base; page = page; head = head; js = js }))

  unfoldable pub render_named :
      (ℕ → Answers) → (ℕ → Bool) → Option Bytes → Option Bytes → TemplateData → Render Bytes
  render_named answers memory none page data' = give none
  render_named answers memory (some title) none data' = give none
  render_named answers memory (some title) (some page) data' = do
    f ← load_layout_fragments answers page data'.extra_head_file data'.extra_js_file
    give (compose_layout memory title f.base f.page f.head f.js)

  -- `none` is the result -1. The data is never NULL.
  unfoldable pub template_render_with_data :
      (ℕ → Answers) → (ℕ → Bool) → TemplateData → Render Bytes
  unfolding render_named
  template_render_with_data answers memory d = render_named answers memory d.title d.page_content d

  unfoldable pub template_render : (ℕ → Answers) → (ℕ → Bool) → Bytes → Render Bytes
  template_render answers memory page = template_render_with_data answers memory (record {
    title = some (codes "MiniWeb");
    page_content = some page;
    extra_head_file = none;
    extra_js_file = none;
  })
