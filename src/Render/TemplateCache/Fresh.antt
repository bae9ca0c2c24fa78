-- ===== src/Render/TemplateCache/Fresh.antt =====
-- What a read of a template gives: the content of a file of a recent listing of the directory.
use miniweb.Prelude.{
  ℕ, ◌-◌, ◌<◌, ◌≡◌, refl, sym, Bool, true, false, Option, none, some, List, [], ◌∷◌, Bytes,
  c_string, not, ◌&&◌, ◌==◌, if_both, subst, str_eq, str_eq→eq, ltb, All, arith, Bool-cases,
  Option-cases, inl, inr,
}
use miniweb.Render.TemplateCache.{
  TemplateEntry, TemplateCache, DirEntry, Answers, Loading, fails, loads, load_entries, reloaded,
  reload_dir, emptied, template_cache_reload_locked, template_cache_refresh_locked,
  template_cache_init, template_cache_cleanup, find_template, find_if, read_template_file, ttl_sec,
}
use miniweb.Render.TemplateCache.Listing.{HasFile, AreFiles, load_entries-HasFile}

-- Calls on the cache, the last one first.
pub data Call : Type 0 where
  reads : Answers → Bytes → Call
  inits : Answers → Call
  cleans_up : Call

-- A call of the history found these answers.
pub data Found : List Call → Answers → Type 0 where
  by_read : {cs : List Call} {a : Answers} {filename : Bytes} → Found (reads a filename ∷ cs) a
  by_init : {cs : List Call} {a : Answers} → Found (inits a ∷ cs) a
  before : {c : Call} {cs : List Call} {a : Answers} → Found cs a → Found (c ∷ cs) a

-- An entry that holds a file of a listing that a call of the history found at this time.
abbrev pub IsFrom : List Call → ℕ → Bytes → Bytes → Type 0
IsFrom cs time name content =
    (a : Answers) × (ds : List DirEntry) × Found cs a
    × (a.now ≡ time)
    × (a.dir ≡ some ds)
    × HasFile ds name content

abbrev pub Holds : List Call → TemplateCache → Type 0
Holds cs cache = All (λ e. IsFrom cs cache.last_refresh e.filename e.content) cache.entries

All-impl :
    {A : Type 0} (P Q : A → Type 0) (xs : List A) → ((x : A) → P x → Q x) → All P xs → All Q xs
All-impl P Q [] f h = tt
All-impl P Q (x ∷ xs) f h = (f x h.0, All-impl P Q xs f h.1)

reloaded-Holds :
    (cs : List Call) (a : Answers) (cache : TemplateCache) (ds : List DirEntry) (m : Loading)
    → Found cs a
    → a.dir ≡ some ds
    → ((es : List TemplateEntry) (l : Bool) → m ≡ loads es l → AreFiles ds es)
    → Holds cs (reloaded a.now cache m).1
unfolding reloaded emptied
reloaded-Holds cs a cache ds fails f e h = tt
reloaded-Holds cs a cache ds (loads es l) f e h =
    All-impl _ _ es (λ entry file. (a, ds, f, refl, e, file)) (h es l refl)

reloaded_recent :
    (now : ℕ) (cache : TemplateCache) (m : Loading)
    → (reloaded now cache m).0 ≡ true
    → (reloaded now cache m).1.last_refresh ≡ now
unfolding reloaded
reloaded_recent now cache fails h = cc
reloaded_recent now cache (loads es l) h = refl

Holds-before :
    (c : Call) (cs : List Call) (cache : TemplateCache) → Holds cs cache → Holds (c ∷ cs) cache
Holds-before c cs cache h =
    All-impl _ _ cache.entries
      (λ entry from. let (a, ds, f, time, dir, file) = from in (a, ds, before f, time, dir, file)) h

module _ (templates_dir : Bytes) (path_max : ℕ) where
  -- After a reload the cache holds files of the listing, or is empty.
  reload-Holds :
      (cs : List Call) (a : Answers) (cache : TemplateCache)
      → Found cs a
      → Holds cs (template_cache_reload_locked templates_dir path_max a cache).1
  unfolding template_cache_reload_locked reload_dir reloaded emptied
  reload-Holds cs a cache f = elim (Option-cases a.dir) [
    | inl e ↦ rw e tt
    | inr (ds, e) ↦ rw e (
        reloaded-Holds cs a cache ds (load_entries templates_dir path_max [] false ds) f e λ es l h.
          load_entries-HasFile templates_dir path_max ds ds [] es false l
            (λ name content file. file) tt h)
  ]

  refresh-Holds :
      (cs : List Call) (a : Answers) (cache : TemplateCache)
      → Found cs a
      → Holds cs cache
      → Holds cs (template_cache_refresh_locked templates_dir path_max a cache).1
  unfolding template_cache_refresh_locked
  refresh-Holds cs a cache f h =
      if_both (λ (r : Bool × TemplateCache). Holds cs r.1)
        (not (cache.last_refresh == 0) && ltb (a.now - cache.last_refresh) ttl_sec) (true, cache) _
        h (reload-Holds cs a cache f)

  reload_dir_recent :
      (now : ℕ) (cache : TemplateCache) (o : Option (List DirEntry))
      → (reload_dir templates_dir path_max now cache o).0 ≡ true
      → (reload_dir templates_dir path_max now cache o).1.last_refresh ≡ now
  unfolding reload_dir
  reload_dir_recent now cache none h = cc
  reload_dir_recent now cache (some ds) h =
      reloaded_recent now cache (load_entries templates_dir path_max [] false ds) h

  -- A refresh that succeeds leaves a cache that is not older than the limit.
  refresh_recent :
      (a : Answers) (cache : TemplateCache)
      → (template_cache_refresh_locked templates_dir path_max a cache).0 ≡ true
      → a.now - (template_cache_refresh_locked templates_dir path_max a cache).1.last_refresh
        < ttl_sec
  unfolding template_cache_refresh_locked template_cache_reload_locked
  refresh_recent a cache =
      elim (Bool-cases
        (not (cache.last_refresh == 0) && ltb (a.now - cache.last_refresh) ttl_sec)) [
          | inl young ↦ rw young (λ h. ground (arith, young))
          | inr old ↦ rw old (λ h. omega (arith, reload_dir_recent a.now cache a.dir h))
        ]

  unfoldable pub step : Call → TemplateCache → TemplateCache
  step (reads a filename) cache = (read_template_file templates_dir path_max a filename cache).1
  step (inits a) cache = (template_cache_init templates_dir path_max a cache).1
  step cleans_up cache = template_cache_cleanup cache

  unfoldable pub run : List Call → TemplateCache
  run [] = record { entries = []; last_refresh = 0 }
  run (c ∷ cs) = step c (run cs)

  run-Holds : (cs : List Call) → Holds cs (run cs)
  unfolding run step read_template_file template_cache_init template_cache_cleanup
  run-Holds [] = tt
  run-Holds (reads a filename ∷ cs) =
      refresh-Holds (reads a filename ∷ cs) a (run cs) by_read
        (Holds-before (reads a filename) cs (run cs) (run-Holds cs))
  run-Holds (inits a ∷ cs) = reload-Holds (inits a ∷ cs) a (run cs) by_init
  run-Holds (cleans_up ∷ cs) = tt

  find_if-eq :
      (on : Bool) (filename : Bytes) (copies : Bool) (entries : List TemplateEntry) (text : Bytes)
      → find_if on filename copies entries ≡ some text
      → (on ≡ true) × (find_template filename copies entries ≡ some text)
  unfolding find_if
  find_if-eq true filename copies entries text h = (refl, h)
  find_if-eq false filename copies entries text h = cc

  find_template-from :
      (P : Bytes → Bytes → Type 0) (filename : Bytes) (copies : Bool) (entries : List TemplateEntry)
      (text : Bytes)
      → All (λ e. P e.filename e.content) entries
      → find_template filename copies entries ≡ some text
      → (content : Bytes) × P filename content × (text ≡ c_string content)
  unfolding find_template
  find_template-from P filename copies [] text h e = cc
  find_template-from P filename copies (x ∷ xs) text h e =
      elim (Bool-cases (str_eq x.filename filename)) [
        | inl same ↦ (
          x.content,
          subst (λ n. P n x.content) (str_eq→eq x.filename filename same) h.0,
          sym (ground (arith, same, e)),
        )
        | inr other ↦ find_template-from P filename copies xs text h.1 (ground (arith, other, e))
      ]

  -- After any history of calls, a text that a read of a template gives is the content, up to its first
  -- NUL, of a regular file of that name in a listing of the directory that this call or one of the
  -- history found less than 60 seconds before by the clock of this call.
  pub read_template_fresh :
      (cs : List Call) (a : Answers) (filename text : Bytes)
      → (read_template_file templates_dir path_max a filename (run cs)).0 ≡ some text
      → (b : Answers) × (ds : List DirEntry) × (content : Bytes) × Found (reads a filename ∷ cs) b
        × (b.dir ≡ some ds)
        × HasFile ds filename content
        × (text ≡ c_string content)
        × (a.now - b.now < ttl_sec)
  unfolding read_template_file
  read_template_fresh cs a filename text h =
      let refreshed = template_cache_refresh_locked templates_dir path_max a (run cs) in
      let (on, found) = find_if-eq refreshed.0 filename a.copies refreshed.1.entries text h in
      let held =
        refresh-Holds (reads a filename ∷ cs) a (run cs) by_read
          (Holds-before (reads a filename) cs (run cs) (run-Holds cs)) in
      let (content, (b, ds, f, time, dir, file), same) =
        find_template-from (IsFrom (reads a filename ∷ cs) refreshed.1.last_refresh) filename
          a.copies refreshed.1.entries text held found in
      (b, ds, content, f, dir, file, same, omega (arith, time, refresh_recent a (run cs) on))
