-- ===== src/Http/FileCache/Calls.antt =====
-- The calls of src/http/response_file_cache.c on the whole cache, and its histories.
use miniweb.Prelude.{
  ℕ, ◌*◌, ◌%◌, ◌^◌, Bool, ◌||◌, Option, none, List, [], ◌∷◌, map, Bytes, ◌==◌, ltb, if◌then◌else◌,
  store, length,
}
use Prim.Native.Nat.{bit_xor}
use miniweb.Http.FileCache.{
  Shard, Stat, Entry, new_shard, store_in_shard, lookup_in_shard, shard_count, max_bytes,
}

unfoldable pub hash_from : ℕ → Bytes → ℕ
hash_from hash [] = hash
hash_from hash (c ∷ path) = hash_from (bit_xor hash c * 1099511628211 % 2 ^ 64) path

-- `unsigned long` has 64 bits.
unfoldable pub file_cache_shard_index : Bytes → ℕ
unfolding hash_from
file_cache_shard_index path = hash_from 1469598103934665603 path % shard_count

-- The shards, by their index.
abbrev pub Cache : Type 0
Cache = ℕ → Shard

-- After `http_handler_globals_init_once`.
unfoldable pub init : Cache
init i = new_shard

-- `body` is the `len` bytes at `data`; a NULL argument, which the only caller never passes, is left out.
unfoldable pub http_file_cache_store : Bytes → Stat → Bytes → Bool → ℕ → Cache → Cache
http_file_cache_store path st body has_memory now cache =
    let i = file_cache_shard_index path in
    if length body == 0 || ltb max_bytes (length body)
    then cache
    else store cache i (store_in_shard path st body has_memory now (cache i))

unfoldable pub http_file_cache_lookup : Bytes → Stat → Bool → ℕ → Cache → Option Bytes × Cache
http_file_cache_lookup path st has_memory now cache =
    let i = file_cache_shard_index path in
    let found = lookup_in_shard path st.st_mtime has_memory now (cache i) in
    if st.st_size == 0 || ltb max_bytes st.st_size
    then (none, cache)
    else (found.0, store cache i found.1)

unfoldable pub cleared : Entry → Entry
cleared e = record e { path = []; body = [] }

unfoldable pub http_handler_globals_cleanup : Cache → Cache
http_handler_globals_cleanup cache i =
    let s = cache i in if ltb i shard_count then record s { entries = map cleared s.entries } else s

pub data Call : Type 0 where
  stores : Bytes → Stat → Bytes → Bool → ℕ → Call
  looks_up : Bytes → Stat → Bool → ℕ → Call
  cleans_up : Call

unfoldable pub step : Call → Cache → Cache
step (stores path st body has_memory now) cache =
    http_file_cache_store path st body has_memory now cache
step (looks_up path st has_memory now) cache =
    (http_file_cache_lookup path st has_memory now cache).1
step cleans_up cache = http_handler_globals_cleanup cache

-- The calls, the last one first.
unfoldable pub run : List Call → Cache
run [] = init
run (c ∷ cs) = step c (run cs)
