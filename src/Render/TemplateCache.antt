-- ===== src/Render/TemplateCache.antt =====
-- The cache of src/render/template_render.c. A call is one step, since its body holds the lock. What
-- the directory, the files, the clock and the allocator answer to a call are arguments.
pub mod Listing
pub mod Fresh
use miniweb.Prelude.{
  ℕ, ◌+◌, ◌-◌, Bool, true, false, not, ◌&&◌, ◌||◌, Option, none, some, List, [], ◌∷◌, ◌++◌, Bytes,
  codes, c_string, str_eq, ◌==◌, leb, ltb, length, take, if◌then◌else◌,
}

-- `template_entry_t`; `len` is the length of the content up to its first NUL, and is never read.
pub record TemplateEntry : Type 0 where
  pub filename : Bytes
  pub content : Bytes
  pub mtime : ℕ

pub record TemplateCache : Type 0 where
  pub entries : List TemplateEntry
  pub last_refresh : ℕ

-- TEMPLATE_CACHE_TTL_SEC
abbrev pub ttl_sec : ℕ
ttl_sec = 60

-- The answers to the calls of `read_file_content`: `size` is that of `ftell`, `none` if it is negative.
pub record FileRead : Type 0 where
  pub opens : Bool
  pub seeks_end : Bool
  pub size : Option ℕ
  pub seeks_start : Bool
  pub has_memory : Bool
  pub bytes : Bytes
  pub ferror : Bool

-- `fread` into the block of `size` bytes.
abbrev pub read_block : ℕ → Bytes → Bool → Option Bytes
read_block size bytes ferror =
    let got = take size bytes in if not (length got == size) && ferror then none else some got

abbrev pub read_sized : Option ℕ → FileRead → Option Bytes
read_sized none f = none
read_sized (some size) f =
    if not f.seeks_start
    then none
    else if not f.has_memory
    then none
    else read_block size f.bytes f.ferror

-- `none` is the result -1.
unfoldable pub read_file_content : FileRead → Option Bytes
read_file_content f =
    if not f.opens then none else if not f.seeks_end then none else read_sized f.size f

pub record FileStat : Type 0 where
  pub is_regular : Bool
  pub st_mtime : ℕ

-- An entry of the directory, with what `stat` and the reading of the file answer, and whether `realloc`
-- and `strdup` succeed.
pub record DirEntry : Type 0 where
  pub d_name : Bytes
  pub status : Option FileStat
  pub file : FileRead
  pub grows : Bool
  pub names : Bool

-- What a call finds: the time, the directory, `none` if it cannot be opened, and whether the last
-- `strdup` succeeds.
pub record Answers : Type 0 where
  pub now : ℕ
  pub dir : Option (List DirEntry)
  pub copies : Bool

abbrev pub add_content :
    List TemplateEntry → Bytes → ℕ → Bool → Bool → Option Bytes → Option (List TemplateEntry)
add_content entries filename mtime grows names none = none
add_content entries filename mtime grows names (some content) =
    if not grows
    then none
    else if not names
    then none
    else some (entries ++ record { filename = filename; content = content; mtime = mtime } ∷ [])

-- `none` is the result -1, after which the caller empties the cache.
unfoldable pub add_template_to_cache :
    List TemplateEntry → DirEntry → ℕ → Option (List TemplateEntry)
add_template_to_cache entries d mtime =
    add_content entries d.d_name mtime d.grows d.names (read_file_content d.file)

-- The state of the loop over the directory: left with -1, or the entries and `loaded`.
pub data Loading : Type 0 where
  fails : Loading
  loads : List TemplateEntry → Bool → Loading

infixl 5 ◌>>=◌
abbrev pub ◌>>=◌ : Loading → (List TemplateEntry → Bool → Loading) → Loading
fails >>= k = fails
loads entries loaded >>= k = k entries loaded

abbrev pub added : Option (List TemplateEntry) → Loading
added none = fails
added (some entries) = loads entries true

abbrev pub load_status : Option FileStat → List TemplateEntry → Bool → DirEntry → Loading
load_status none entries loaded d = loads entries loaded
load_status (some st) entries loaded d =
    if not st.is_regular
    then loads entries loaded
    else added (add_template_to_cache entries d st.st_mtime)

-- `template_cache_cleanup_locked`
unfoldable pub emptied : TemplateCache → TemplateCache
emptied cache = record cache { entries = [] }

unfoldable pub reloaded : ℕ → TemplateCache → Loading → Bool × TemplateCache
reloaded now cache fails = (false, emptied cache)
reloaded now cache (loads entries loaded) =
    (loaded, record { entries = entries; last_refresh = now })

unfoldable pub template_cache_cleanup : TemplateCache → TemplateCache
template_cache_cleanup cache = record { entries = []; last_refresh = 0 }

-- The loop over the cache, with the copy.
unfoldable pub find_template : Bytes → Bool → List TemplateEntry → Option Bytes
find_template filename copies [] = none
find_template filename copies (e ∷ es) =
    if str_eq e.filename filename
    then (if copies then some (c_string e.content) else none)
    else find_template filename copies es

unfoldable pub find_if : Bool → Bytes → Bool → List TemplateEntry → Option Bytes
find_if refreshed filename copies entries =
    if refreshed then find_template filename copies entries else none

-- The directory's name, and the platform's PATH_MAX.
module _ (templates_dir : Bytes) (path_max : ℕ) where
  -- One round of the loop over the directory.
  unfoldable pub load_entry : List TemplateEntry → Bool → DirEntry → Loading
  load_entry entries loaded d =
      if str_eq d.d_name (codes ".") || str_eq d.d_name (codes "..")
      then loads entries loaded
      else if leb path_max (length (templates_dir ++ (codes "/" ++ d.d_name)))
      then fails
      else load_status d.status entries loaded d

  unfoldable pub load_entries : List TemplateEntry → Bool → List DirEntry → Loading
  load_entries entries loaded [] = loads entries loaded
  load_entries entries loaded (d ∷ ds) =
      load_entry entries loaded d >>= λ entries' loaded'. load_entries entries' loaded' ds

  unfoldable pub reload_dir : ℕ → TemplateCache → Option (List DirEntry) → Bool × TemplateCache
  reload_dir now cache none = (false, emptied cache)
  reload_dir now cache (some ds) = reloaded now cache (load_entries [] false ds)

  -- `true` is the result 0.
  unfoldable pub template_cache_reload_locked : Answers → TemplateCache → Bool × TemplateCache
  unfolding reload_dir
  template_cache_reload_locked a cache = reload_dir a.now cache a.dir

  -- A difference of the times below 0 is 0 here, and both are below the limit.
  unfoldable pub template_cache_refresh_locked : Answers → TemplateCache → Bool × TemplateCache
  template_cache_refresh_locked a cache =
      if not (cache.last_refresh == 0) && ltb (a.now - cache.last_refresh) ttl_sec
      then (true, cache)
      else template_cache_reload_locked a cache

  unfoldable pub template_cache_init : Answers → TemplateCache → Bool × TemplateCache
  template_cache_init a cache = template_cache_reload_locked a cache

  -- `none` is the result -1.
  unfoldable pub read_template_file : Answers → Bytes → TemplateCache → Option Bytes × TemplateCache
  unfolding find_if
  read_template_file a filename cache =
      let (refreshed, cache') = template_cache_refresh_locked a cache in
      (find_if refreshed filename a.copies cache'.entries, cache')
