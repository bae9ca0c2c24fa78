-- ===== src/Http/FileCache/Budget.antt =====
-- The bound on the inserts of one second.
use miniweb.Prelude.{
  ℕ, ◌+◌, ◌≤◌, ◌<◌, Bool, true, false, Option, none, some, List, [], ◌∷◌, Bytes, ◌==◌, inl, inr,
  arith, Bool-cases,
}
use miniweb.Http.FileCache.{
  Shard, Stat, new_shard, file_cache_evict_stale, file_cache_refill_budget, refreshed, insert_at,
  store_in_shard, lookup_in_shard, count_lookup, inserts_per_sec, file_cache_admit,
}
use miniweb.Http.FileCache.Calls.{
  Cache, init, Call, stores, looks_up, cleans_up, step, run, http_file_cache_store,
  http_file_cache_lookup, http_handler_globals_cleanup,
}

-- What a shard has inserted in its second and what it still may add up to no more than the limit.
pub IsWithin : Shard → Type 0
IsWithin s = s.window_inserts + s.cache_insert_tokens ≤ inserts_per_sec

refreshed-IsWithin : (now : ℕ) (s : Shard) → IsWithin s → IsWithin (refreshed now s)
unfolding IsWithin refreshed file_cache_refill_budget file_cache_evict_stale
refreshed-IsWithin now s h = ground arith

insert_at-IsWithin :
    (path : Bytes) (st : Stat) (body : Bytes) (has_memory : Bool) (now : ℕ) (s : Shard)
    (o : Option ℕ)
    → 0 < s.cache_insert_tokens
    → IsWithin s
    → IsWithin (insert_at path st body has_memory now s o)
unfolding IsWithin insert_at
insert_at-IsWithin path st body has_memory now s none p h = h
insert_at-IsWithin path st body false now s (some i) p h = omega arith
insert_at-IsWithin path st body true now s (some i) p h = omega arith

store-IsWithin :
    (path : Bytes) (st : Stat) (body : Bytes) (has_memory : Bool) (now : ℕ) (s : Shard)
    → IsWithin s
    → IsWithin (store_in_shard path st body has_memory now s)
unfolding store_in_shard IsWithin
store-IsWithin path st body has_memory now s h =
    elim (Bool-cases ((refreshed now s).cache_insert_tokens == 0)) [
      | inl none_left ↦ rw none_left (refreshed-IsWithin now s h)
      | inr left ↦
          rw left (elim (Bool-cases (file_cache_admit path now (refreshed now s).candidates).0) [
            | inl admitted ↦ rw admitted (
                insert_at-IsWithin path st body has_memory now _ _ (ground arith)
                  (refreshed-IsWithin now s h))
            | inr refused ↦ rw refused (refreshed-IsWithin now s h)
          ])
    ]

count_lookup-IsWithin : (o : Option Bytes) (s : Shard) → IsWithin s → IsWithin (count_lookup o s)
unfolding count_lookup IsWithin
count_lookup-IsWithin none s h = h
count_lookup-IsWithin (some b) s h = h

lookup-IsWithin :
    (path : Bytes) (m : ℕ) (has_memory : Bool) (now : ℕ) (s : Shard)
    → IsWithin s
    → IsWithin (lookup_in_shard path m has_memory now s).1
unfolding lookup_in_shard IsWithin
lookup-IsWithin path m has_memory now s h = count_lookup-IsWithin _ _ (refreshed-IsWithin now s h)

step-IsWithin :
    (c : Call) (f : Cache) → ((i : ℕ) → IsWithin (f i)) → (i : ℕ) → IsWithin (step c f i)
unfolding step http_file_cache_store http_file_cache_lookup http_handler_globals_cleanup IsWithin
step-IsWithin (stores path st body has_memory now) f h i =
    ground (arith, h i, store-IsWithin path st body has_memory now (f i))
step-IsWithin (looks_up path st has_memory now) f h i =
    ground (arith, h i, lookup-IsWithin path st.st_mtime has_memory now (f i))
step-IsWithin cleans_up f h i = ground (arith, h i)

run-IsWithin : (cs : List Call) (i : ℕ) → IsWithin (run cs i)
unfolding run init new_shard IsWithin
run-IsWithin [] i = omega arith
run-IsWithin (c ∷ cs) i = step-IsWithin c (run cs) (run-IsWithin cs) i

-- After any history of calls each shard has inserted at most eight bodies since its second began.
pub inserts_bounded : (cs : List Call) (i : ℕ) → (run cs i).window_inserts ≤ inserts_per_sec
unfolding IsWithin
inserts_bounded cs i = omega (arith, run-IsWithin cs i)
