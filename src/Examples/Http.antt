-- ===== src/Examples/Http.antt =====
-- Short texts, one response and one cached file.
use miniweb.Prelude.{
  is_some, false, ◌≡◌, refl, ◌<◌, true, some, List, [], ◌∷◌, arith, codes, length, ◌==◌, str_eq,
}
use miniweb.Http.Utils.{json_escape_string}
use miniweb.Http.Utils.JsonEscape.{is_json_text, text, json_escape_is_text}
use miniweb.Http.ResponseIo.{
  Event, writes, polls, wrote, eagain, writable, flatten, http_response_write_all,
  http_response_writev_all,
}
use miniweb.Http.ResponseIo.Whole.{Sends, write_all_whole, writev_all-eq-write_all}
use miniweb.Http.FileCache.{
  Shard, Stat, new_shard, repeat, store_in_shard, lookup_in_shard, refreshed,
  file_cache_refill_budget, file_cache_evict_stale, evict_entry, evict_candidate, file_cache_admit,
  admit_at, scan_candidates, scan_entries, insert_at, put_at, find_entry, count_lookup,
}
use miniweb.Http.FileCache.Calls.{
  Call, stores, run, step, init, hash_from, file_cache_shard_index, http_file_cache_lookup,
  http_file_cache_store,
}
use miniweb.Http.FileCache.Bodies.{StoredBy, lookup_sound}
use miniweb.Http.FileCache.Hits.{store_then_hit}

json_escape_is_text_example :
    is_json_text text (json_escape_string true (some (codes "say \"x\""))) ≡ true
json_escape_is_text_example = json_escape_is_text true (some (codes "say \"x\""))

-- Two bytes, a full socket buffer, and the rest.
abbrev answers : List Event
answers = writes (wrote 2) ∷ writes eagain ∷ polls writable ∷ writes (wrote 9) ∷ []

write_all_whole_example : Sends (codes "hello") (http_response_write_all answers (codes "hello"))
write_all_whole_example = write_all_whole answers (codes "hello")

writev_all-eq-write_all_example :
    http_response_writev_all answers (codes "head" ∷ codes "body" ∷ [])
    ≡ http_response_write_all answers (flatten (codes "head" ∷ codes "body" ∷ []))
unfolding flatten
writev_all-eq-write_all_example =
    writev_all-eq-write_all answers (codes "head" ∷ codes "body" ∷ []) (omega arith)

abbrev stat : Stat
stat = record { st_size = 3; st_mtime = 50 }

-- The same file twice, so that it is admitted.
abbrev history : List Call
history =
    stores (codes "a.css") stat (codes "p{}") true 101
    ∷ stores (codes "a.css") stat (codes "p{}") true 100
    ∷ []

found : (http_file_cache_lookup (codes "a.css") stat true 102 (run history)).0 ≡ some (codes "p{}")
unfolding http_file_cache_lookup http_file_cache_store run step init hash_from
    file_cache_shard_index new_shard repeat store_in_shard lookup_in_shard refreshed
    file_cache_refill_budget file_cache_evict_stale evict_entry evict_candidate file_cache_admit
    admit_at scan_candidates scan_entries insert_at put_at find_entry count_lookup str_eq
found = refl

lookup_sound_example : StoredBy history (codes "a.css") 50 (codes "p{}")
lookup_sound_example = lookup_sound history (codes "a.css") stat true 102 (codes "p{}") found

-- The shard after the first of two stores.
abbrev seen_once : Shard
seen_once = store_in_shard (codes "a.css") stat (codes "p{}") true 100 new_shard

budget_left : (refreshed 101 seen_once).cache_insert_tokens == 0 ≡ false
unfolding new_shard repeat store_in_shard refreshed file_cache_refill_budget file_cache_evict_stale
    evict_entry evict_candidate file_cache_admit admit_at scan_candidates scan_entries insert_at
    put_at str_eq
budget_left = refl

seen_before : (file_cache_admit (codes "a.css") 101 (refreshed 101 seen_once).candidates).0 ≡ true
unfolding new_shard repeat store_in_shard refreshed file_cache_refill_budget file_cache_evict_stale
    evict_entry evict_candidate file_cache_admit admit_at scan_candidates scan_entries insert_at
    put_at str_eq
seen_before = refl

has_slots : 0 < length seen_once.entries
unfolding new_shard repeat store_in_shard refreshed file_cache_refill_budget file_cache_evict_stale
    evict_entry evict_candidate file_cache_admit admit_at scan_candidates scan_entries insert_at
    put_at str_eq
has_slots = omega arith

store_then_hit_example :
    is_some
      (lookup_in_shard
        (codes "a.css")
        50
        true
        101
        (store_in_shard (codes "a.css") stat (codes "p{}") true 101 seen_once)).0
    ≡ true
store_then_hit_example =
    store_then_hit (codes "a.css") stat (codes "p{}") 101 seen_once refl (omega arith) has_slots
      budget_left seen_before
