-- ===== src/Http/SendFile/NeverCached.antt =====
-- What the cache holds after files have been sent.
use miniweb.Prelude.{
  ℕ, ◌≡◌, refl, ap, ◌∙◌, Bool, not, ◌&&◌, ◌*◌, Option, none, some, List, [], ◌∷◌, Bytes, leb, ltb,
  Option-cases, if_both, inl, inr,
}
use miniweb.Http.Request.{HttpRequest}
use miniweb.Http.ResponseIo.{Status, done, error, blocked}
use miniweb.Http.Response.{Created, no_response, response_at, HttpResponse}
use miniweb.Http.ResponsePool.{Pools, Handle}
use miniweb.Http.Helpers.{create}
use miniweb.Http.FileCache.{Stat, max_bytes}
use miniweb.Http.FileCache.Calls.{
  Cache, Call, stores, looks_up, cleans_up, step, run, http_file_cache_store,
  http_file_cache_lookup,
}
use miniweb.Http.FileCache.Bodies.{StoredBy, there, lookup_sound}
use miniweb.Http.SendFile.{
  FileCall, FileSent, Shared, store_sent, finish, send_read, send_pieces, send_memory,
  send_looked_up, send_created, send_stat, read_entire_file, file_response, http_send_file,
}
use miniweb.Router.{Registry}

-- The store that http_send_file makes changes nothing.
store_sent-same :
    (f : FileCall) (st : Stat) (body : Bytes) (status : Status) (cache : Cache)
    → store_sent f st body status cache ≡ cache
unfolding http_file_cache_store
store_sent-same f st body done cache = refl
store_sent-same f st body error cache = refl
store_sent-same f st body blocked cache = refl

module _ {H : Type 0} (registry : Registry H) (f : FileCall) (req : HttpRequest) where
  send_memory-cache :
      (st : Stat) (resp : HttpResponse) (place : Option Handle) (o : Option Bytes) (pools : Pools)
      (cache : Cache)
      → (send_memory registry f req st resp place o pools cache).shared.cache ≡ cache
  unfolding send_memory send_read finish
  send_memory-cache st resp place none pools cache = refl
  send_memory-cache st resp place (some body) pools cache = store_sent-same f st body _ cache

  send_looked_up-cache :
      (st : Stat) (resp : HttpResponse) (place : Option Handle) (pools : Pools) (o : Option Bytes)
      (cache : Cache)
      → (send_looked_up registry f req st resp place pools (o, cache)).shared.cache ≡ cache
  unfolding send_looked_up send_pieces finish
  send_looked_up-cache st resp place pools (some body) cache = refl
  send_looked_up-cache st resp place pools none cache =
      if_both (λ (r : FileSent). r.shared.cache ≡ cache)
        (ltb 0 st.st_size && leb st.st_size (max_bytes * 4)) _ _
        (if_both (λ (r : FileSent). r.shared.cache ≡ cache) (not f.body_memory) _ _ refl
          (send_memory-cache st resp place (read_entire_file f.reads st.st_size) pools cache))
        refl

-- Calls that only look up.
abbrev AreLookups : List Call → Type 0
AreLookups [] = Unit
AreLookups (stores path st body has_memory now ∷ cs) = ⊥
AreLookups (looks_up path st has_memory now ∷ cs) = AreLookups cs
AreLookups (cleans_up ∷ cs) = ⊥

nothing_stored :
    (cs : List Call) (path : Bytes) (mtime : ℕ) (body : Bytes)
    → AreLookups cs
    → StoredBy cs path mtime body
    → ⊥
nothing_stored [] path mtime body h s = elim s [ ]
nothing_stored (stores q st has_memory body' now ∷ cs) path mtime body h s = h
nothing_stored (looks_up q st has_memory now ∷ cs) path mtime body h (there s) =
    nothing_stored cs path mtime body h s
nothing_stored (cleans_up ∷ cs) path mtime body h s = h

-- A cache that only lookups have changed.
abbrev OnlyLookups : Cache → Type 0
OnlyLookups cache = (cs : List Call) × AreLookups cs × (cache ≡ run cs)

module _ {H : Type 0} (registry : Registry H) where
  send_created-OnlyLookups :
      (f : FileCall) (req : HttpRequest) (st : Stat) (created : Created) (pools : Pools)
      (cache : Cache)
      → OnlyLookups cache
      → OnlyLookups (send_created registry f req st (created, pools) cache).shared.cache
  unfolding send_created run step
  send_created-OnlyLookups f req st no_response pools cache h = h
  send_created-OnlyLookups f req st (response_at place resp) pools cache (cs, h, e) =
      let found = http_file_cache_lookup f.path st f.copy_memory f.lookup_time cache in
      (
        looks_up f.path st f.copy_memory f.lookup_time ∷ cs,
        h,
        send_looked_up-cache registry f req st (file_response f.mime resp) place pools found.0
              found.1
            ∙ ap (λ c. (http_file_cache_lookup f.path st f.copy_memory f.lookup_time c).1) e,
      )

  send_stat-OnlyLookups :
      (f : FileCall) (req : HttpRequest) (o : Option Stat) (s : Shared)
      → OnlyLookups s.cache
      → OnlyLookups (send_stat registry f req o s).shared.cache
  unfolding send_stat
  send_stat-OnlyLookups f req none s h = h
  send_stat-OnlyLookups f req (some st) s h =
      send_created-OnlyLookups f req st (create f.caller s.pools).0 (create f.caller s.pools).1
        s.cache h

  send_file-OnlyLookups :
      (f : FileCall) (req : HttpRequest) (s : Shared)
      → OnlyLookups s.cache
      → OnlyLookups (http_send_file registry f req s).shared.cache
  unfolding http_send_file
  send_file-OnlyLookups f req s h =
      if_both (λ (r : FileSent). OnlyLookups r.shared.cache) (not f.opens) _ _ h
        (send_stat-OnlyLookups f req f.stat s h)

  -- The state after some files, the last one first, from the empty cache.
  pub after_sends : Pools → List (FileCall × HttpRequest) → Shared
  after_sends pools [] = record { pools = pools; cache = run [] }
  after_sends pools ((f, req) ∷ sends) =
      (http_send_file registry f req (after_sends pools sends)).shared

  after_sends-OnlyLookups :
      (pools : Pools) (sends : List (FileCall × HttpRequest))
      → OnlyLookups (after_sends pools sends).cache
  unfolding after_sends
  after_sends-OnlyLookups pools [] = ([], tt, refl)
  after_sends-OnlyLookups pools ((f, req) ∷ sends) =
      send_file-OnlyLookups f req (after_sends pools sends) (after_sends-OnlyLookups pools sends)

  -- However many files have been sent, and whatever files and memory answered, the next lookup misses:
  -- http_send_file never puts a body into the cache.
  pub never_cached :
      (pools : Pools) (sends : List (FileCall × HttpRequest)) (path : Bytes) (st : Stat)
      (has_memory : Bool) (now : ℕ)
      → (http_file_cache_lookup path st has_memory now (after_sends pools sends).cache).0 ≡ none
  never_cached pools sends path st has_memory now =
      let (cs, h, e) = after_sends-OnlyLookups pools sends in
      elim (Option-cases
        (http_file_cache_lookup path st has_memory now (after_sends pools sends).cache).0) [
          | inl miss ↦ miss
          | inr (body, hit) ↦ absurd (
              nothing_stored cs path st.st_mtime body h
                (lookup_sound cs path st has_memory now body (rw e at hit)))
        ]
