-- ===== src/Http/FileCache.antt =====
-- src/http/response_file_cache.c: the cache of file bodies. A call is one step on the shard that it
-- locks. A fixed array is the list of its slots, a slot whose path is empty is free, and `body` is the
-- `len` bytes at `data`. Times are arguments, and `has_memory` is whether `malloc` gives a block.
pub mod Calls
pub mod Bodies
pub mod Budget
pub mod Hits
use miniweb.Prelude.{
  ℕ, zero, suc, ◌+◌, ◌-◌, ◌*◌, ◌%◌, ◌^◌, Bool, true, false, ◌&&◌, ◌||◌, not, Option, none, some,
  List, [], ◌∷◌, map, Bytes, str_eq, ◌==◌, leb, ltb, if◌then◌else◌, store, take, length,
}
use Prim.Native.Nat.{bit_xor}

-- FILE_CACHE_SLOTS
abbrev pub slots : ℕ
slots = 32

-- FILE_CACHE_MAX_BYTES
abbrev pub max_bytes : ℕ
max_bytes = 262144

-- FILE_CACHE_INSERTS_PER_SEC
abbrev pub inserts_per_sec : ℕ
inserts_per_sec = 8

-- FILE_CACHE_MAX_AGE_SEC
abbrev pub max_age_sec : ℕ
max_age_sec = 240

-- FILE_CACHE_SHARDS
abbrev pub shard_count : ℕ
shard_count = 16

-- The size of `path` in both structures.
abbrev pub path_size : ℕ
path_size = 512

pub record Entry : Type 0 where
  pub path : Bytes
  pub body : Bytes
  pub mtime : ℕ
  pub atime : ℕ

pub record Candidate : Type 0 where
  pub path : Bytes
  pub hits : ℕ
  pub atime : ℕ

pub record Shard : Type 0 where
  pub entries : List Entry
  pub candidates : List Candidate
  pub cache_insert_tokens : ℕ
  pub cache_insert_window : ℕ
  pub window_hits : ℕ
  pub window_misses : ℕ
  pub window_inserts : ℕ
  pub window_throttles : ℕ

-- The fields of `struct stat` that the cache reads.
pub record Stat : Type 0 where
  pub st_size : ℕ
  pub st_mtime : ℕ

abbrev pub no_entry : Entry
no_entry = record { path = []; body = []; mtime = 0; atime = 0 }

abbrev pub no_candidate : Candidate
no_candidate = record { path = []; hits = 0; atime = 0 }

-- `path[0] == '\\0'`
abbrev pub is_empty : Bytes → Bool
is_empty [] = true
is_empty (c ∷ s) = false

-- What `strlcpy` leaves in `path`.
abbrev pub copied : Bytes → Bytes
copied path = take (path_size - 1) path

-- `a[i] = v`, on the list of the slots.
unfoldable pub put_at : {A : Type 0} → ℕ → A → List A → List A
put_at i v [] = []
put_at zero v (x ∷ xs) = v ∷ xs
put_at (suc i) v (x ∷ xs) = x ∷ put_at i v xs

unfoldable pub repeat : {A : Type 0} → ℕ → A → List A
repeat zero x = []
repeat (suc n) x = x ∷ repeat n x

-- A shard after `file_cache_init_shards`.
unfoldable pub new_shard : Shard
unfolding repeat
new_shard = record {
  entries = repeat slots no_entry;
  candidates = repeat (slots * 2) no_candidate;
  cache_insert_tokens = inserts_per_sec;
  cache_insert_window = 0;
  window_hits = 0;
  window_misses = 0;
  window_inserts = 0;
  window_throttles = 0;
}

unfoldable pub file_cache_refill_budget : ℕ → Shard → Shard
file_cache_refill_budget now s =
    if s.cache_insert_window == 0 || not (now == s.cache_insert_window)
    then record s {
      cache_insert_window = now;
      cache_insert_tokens = inserts_per_sec;
      window_hits = 0;
      window_misses = 0;
      window_inserts = 0;
      window_throttles = 0;
    }
    else s

-- `now - atime > FILE_CACHE_MAX_AGE_SEC`; a difference below 0 is 0 here.
abbrev pub too_old : ℕ → ℕ → Bool
too_old now atime = ltb max_age_sec (now - atime)

unfoldable pub evict_entry : ℕ → Entry → Entry
evict_entry now e = if not (is_empty e.path) && too_old now e.atime then no_entry else e

unfoldable pub evict_candidate : ℕ → Candidate → Candidate
evict_candidate now c = if not (is_empty c.path) && too_old now c.atime then no_candidate else c

unfoldable pub file_cache_evict_stale : ℕ → Shard → Shard
unfolding evict_candidate
file_cache_evict_stale now s = record s {
  entries = map (evict_entry now) s.entries;
  candidates = map (evict_candidate now) s.candidates;
}

-- Where the loop of `file_cache_admit_locked` ends: at a candidate with the path, or with `slot`.
pub data Place : Type 0 where
  matched : ℕ → Candidate → Place
  vacant : Option ℕ → Place

abbrev is_none_or_older : Option ℕ → ℕ → ℕ → Bool
is_none_or_older none atime oldest = true
is_none_or_older (some slot) atime oldest = ltb atime oldest

unfoldable pub scan_candidates : Bytes → ℕ → Option ℕ → ℕ → List Candidate → Place
scan_candidates path i slot oldest [] = vacant slot
scan_candidates path i slot oldest (c ∷ cs) =
    let older = is_none_or_older slot c.atime oldest in
    let rest =
      scan_candidates path (suc i) (if older then some i else slot)
        (if older then c.atime else oldest) cs in
    if is_empty c.path then vacant (some i) else if str_eq c.path path then matched i c else rest

unfoldable pub admit_at : Bytes → ℕ → List Candidate → Place → Bool × List Candidate
admit_at path now cs (matched i c) =
    let hits = (c.hits + 1) % 2 ^ 32 in
    (leb 2 hits, put_at i (record { path = c.path; hits = hits; atime = now }) cs)
admit_at path now cs (vacant none) = (false, cs)
admit_at path now cs (vacant (some i)) =
    (false, put_at i (record { path = copied path; hits = 1; atime = now }) cs)

unfoldable pub file_cache_admit : Bytes → ℕ → List Candidate → Bool × List Candidate
unfolding admit_at
file_cache_admit path now cs = admit_at path now cs (scan_candidates path 0 none 0 cs)

-- The loop of `http_file_cache_store` for a slot.
unfoldable pub scan_entries : ℕ → Option ℕ → ℕ → List Entry → Option ℕ
scan_entries i slot oldest [] = slot
scan_entries i slot oldest (e ∷ es) =
    let older = is_none_or_older slot e.atime oldest in
    let rest =
      scan_entries (suc i) (if older then some i else slot) (if older then e.atime else oldest)
        es in
    if is_empty e.path then some i else rest

unfoldable pub insert_at : Bytes → Stat → Bytes → Bool → ℕ → Shard → Option ℕ → Shard
insert_at path st body has_memory now s none = s
insert_at path st body false now s (some i) = record s {
  cache_insert_tokens = s.cache_insert_tokens - 1;
  entries = put_at i no_entry s.entries;
}
insert_at path st body true now s (some i) = record s {
  cache_insert_tokens = s.cache_insert_tokens - 1;
  entries =
      put_at i (record { path = copied path; body = body; mtime = st.st_mtime; atime = now })
        s.entries;
  window_inserts = (s.window_inserts + 1) % 2 ^ 32;
}

-- What both calls do first under the lock.
unfoldable pub refreshed : ℕ → Shard → Shard
refreshed now s = file_cache_evict_stale now (file_cache_refill_budget now s)

unfoldable pub store_in_shard : Bytes → Stat → Bytes → Bool → ℕ → Shard → Shard
store_in_shard path st body has_memory now shard =
    let s = refreshed now shard in
    let admitted = file_cache_admit path now s.candidates in
    let s' = record s { candidates = admitted.1 } in
    if s.cache_insert_tokens == 0
    then record s { window_throttles = (s.window_throttles + 1) % 2 ^ 32 }
    else if admitted.0
    then insert_at path st body has_memory now s' (scan_entries 0 none 0 s'.entries)
    else s'

-- The loop of `http_file_cache_lookup`: the copy of the body, and the entries.
unfoldable pub find_entry : Bytes → ℕ → Bool → ℕ → List Entry → Option Bytes × List Entry
find_entry path mtime has_memory now [] = (none, [])
find_entry path mtime has_memory now (e ∷ es) =
    let rest = find_entry path mtime has_memory now es in
    if not (is_empty e.path) && str_eq e.path path && e.mtime == mtime
    then (if has_memory then (some e.body, record e { atime = now } ∷ es) else (none, e ∷ es))
    else (rest.0, e ∷ rest.1)

unfoldable pub count_lookup : Option Bytes → Shard → Shard
count_lookup none s = record s { window_misses = (s.window_misses + 1) % 2 ^ 32 }
count_lookup (some body) s = record s { window_hits = (s.window_hits + 1) % 2 ^ 32 }

unfoldable pub lookup_in_shard : Bytes → ℕ → Bool → ℕ → Shard → Option Bytes × Shard
unfolding count_lookup
lookup_in_shard path mtime has_memory now shard =
    let s = refreshed now shard in
    let found = find_entry path mtime has_memory now s.entries in
    (found.0, count_lookup found.0 (record s { entries = found.1 }))
