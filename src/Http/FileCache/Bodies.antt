-- ===== src/Http/FileCache/Bodies.antt =====
-- What the cache holds, and what it gives back.
use miniweb.Prelude.{
  ℕ, zero, suc, Bool, true, false, Option, none, some, List, [], ◌∷◌, map, Bytes, str_eq→eq, ◌==◌,
  All, ◌≡◌, refl, ◌⊎◌, inl, inr, arith, Bool-cases, if_both,
}
use miniweb.Http.FileCache.{
  Shard, Stat, Entry, new_shard, repeat, no_entry, copied, put_at, evict_entry,
  file_cache_evict_stale, file_cache_refill_budget, refreshed, insert_at, store_in_shard,
  find_entry, lookup_in_shard, count_lookup, slots, file_cache_admit,
}
use miniweb.Http.FileCache.Calls.{
  Cache, init, Call, stores, looks_up, cleans_up, step, run, http_file_cache_store,
  http_file_cache_lookup, http_handler_globals_cleanup, cleared, file_cache_shard_index,
}

-- A call of the history that stored `body` under `path`, as far as an entry holds the path, for a file
-- with the modification time `mtime`.
pub data StoredBy : List Call → Bytes → ℕ → Bytes → Type 0 where
  here :
      {cs : List Call} {path : Bytes} {body : Bytes} (q : Bytes) (st : Stat) (has_memory : Bool)
      (now : ℕ)
      → copied q ≡ path
      → StoredBy (stores q st body has_memory now ∷ cs) path (st.st_mtime) body
  there :
      {c : Call} {cs : List Call} {path : Bytes} {mtime : ℕ} {body : Bytes}
      → StoredBy cs path mtime body
      → StoredBy (c ∷ cs) path mtime body

pub IsOurs : List Call → Entry → Type 0
IsOurs cs e = (e.path ≡ []) ⊎ StoredBy cs e.path e.mtime e.body

module _ {A : Type 0} (P : A → Type 0) where
  All-map : (f : A → A) → ((x : A) → P x → P (f x)) → (xs : List A) → All P xs → All P (map f xs)
  All-map f h [] p = p
  All-map f h (x ∷ xs) p = (h x p.0, All-map f h xs p.1)

  All-put_at : (i : ℕ) (v : A) (xs : List A) → P v → All P xs → All P (put_at i v xs)
  unfolding put_at
  All-put_at i v [] q p = p
  All-put_at zero v (x ∷ xs) q p = (q, p.1)
  All-put_at (suc i) v (x ∷ xs) q p = (p.0, All-put_at i v xs q p.1)

  All-repeat : (n : ℕ) (v : A) → P v → All P (repeat n v)
  unfolding repeat
  All-repeat zero v q = tt
  All-repeat (suc n) v q = (q, All-repeat n v q)

All-there :
    (c : Call) (cs : List Call) (es : List Entry) → All (IsOurs cs) es → All (IsOurs (c ∷ cs)) es
unfolding IsOurs
All-there c cs [] p = p
All-there c cs (e ∷ es) p =
    (elim p.0 [ inl h ↦ inl h | inr h ↦ inr (there h) ], All-there c cs es p.1)

pub HoldsOurs : List Call → Shard → Type 0
HoldsOurs cs s = All (IsOurs cs) s.entries

module _ (cs : List Call) where
  evict-IsOurs : (now : ℕ) (e : Entry) → IsOurs cs e → IsOurs cs (evict_entry now e)
  unfolding IsOurs evict_entry
  evict-IsOurs now e h = if_both (IsOurs cs) _ no_entry e (inl refl) h

  refill-HoldsOurs :
      (now : ℕ) (s : Shard) → HoldsOurs cs s → HoldsOurs cs (file_cache_refill_budget now s)
  unfolding HoldsOurs file_cache_refill_budget
  refill-HoldsOurs now s h = if_both (HoldsOurs cs) _ _ s h h

  refreshed-HoldsOurs : (now : ℕ) (s : Shard) → HoldsOurs cs s → HoldsOurs cs (refreshed now s)
  unfolding HoldsOurs refreshed file_cache_evict_stale
  refreshed-HoldsOurs now s h =
      All-map (IsOurs cs) (evict_entry now) (evict-IsOurs now) _ (refill-HoldsOurs now s h)

  insert_at-HoldsOurs :
      (path : Bytes) (st : Stat) (body : Bytes) (has_memory : Bool) (now : ℕ) (s : Shard)
      (o : Option ℕ)
      → StoredBy cs (copied path) (st.st_mtime) body
      → HoldsOurs cs s
      → HoldsOurs cs (insert_at path st body has_memory now s o)
  unfolding HoldsOurs insert_at IsOurs
  insert_at-HoldsOurs path st body has_memory now s none d h = h
  insert_at-HoldsOurs path st body false now s (some i) d h =
      All-put_at (IsOurs cs) i _ _ (inl refl) h
  insert_at-HoldsOurs path st body true now s (some i) d h = All-put_at (IsOurs cs) i _ _ (inr d) h

  store-HoldsOurs :
      (path : Bytes) (st : Stat) (body : Bytes) (has_memory : Bool) (now : ℕ) (s : Shard)
      → StoredBy cs (copied path) (st.st_mtime) body
      → HoldsOurs cs s
      → HoldsOurs cs (store_in_shard path st body has_memory now s)
  unfolding store_in_shard HoldsOurs
  store-HoldsOurs path st body has_memory now s d h =
      let r = refreshed-HoldsOurs now s h in
      elim (Bool-cases ((refreshed now s).cache_insert_tokens == 0)) [
        | inl none_left ↦ rw none_left r
        | inr left ↦
            rw left (elim (Bool-cases (file_cache_admit path now (refreshed now s).candidates).0) [
              | inl admitted ↦ rw admitted (insert_at-HoldsOurs path st body has_memory now _ _ d r)
              | inr refused ↦ rw refused r
            ])
      ]

  touched-IsOurs : (now : ℕ) (e : Entry) → IsOurs cs e → IsOurs cs (record e { atime = now })
  unfolding IsOurs
  touched-IsOurs now e h = h

  find_entry-IsOurs :
      (path : Bytes) (mtime : ℕ) (has_memory : Bool) (now : ℕ) (es : List Entry)
      → All (IsOurs cs) es
      → All (IsOurs cs) (find_entry path mtime has_memory now es).1
  unfolding find_entry
  find_entry-IsOurs path mtime has_memory now [] p = p
  find_entry-IsOurs path mtime has_memory now (e ∷ es) p = ground (
    arith,
    p.0,
    p.1,
    touched-IsOurs now e p.0,
    find_entry-IsOurs path mtime has_memory now es p.1,
  )

  find_entry-StoredBy :
      (path : Bytes) (mtime : ℕ) (has_memory : Bool) (now : ℕ) (es : List Entry) (body : Bytes)
      → All (IsOurs cs) es
      → (find_entry path mtime has_memory now es).0 ≡ some body
      → StoredBy cs path mtime body
  unfolding find_entry IsOurs
  find_entry-StoredBy path mtime has_memory now [] body p h = cc
  find_entry-StoredBy path mtime has_memory now (e ∷ es) body p h =
      ground (
        arith,
        p.0,
        find_entry-StoredBy path mtime has_memory now es body p.1,
        str_eq→eq e.path path,
      )

HoldsOurs-there : (c : Call) (cs : List Call) (s : Shard) → HoldsOurs cs s → HoldsOurs (c ∷ cs) s
unfolding HoldsOurs
HoldsOurs-there c cs s h = All-there c cs s.entries h

count_lookup-HoldsOurs :
    (cs : List Call) (o : Option Bytes) (s : Shard)
    → HoldsOurs cs s
    → HoldsOurs cs (count_lookup o s)
unfolding count_lookup HoldsOurs
count_lookup-HoldsOurs cs none s h = h
count_lookup-HoldsOurs cs (some b) s h = h

cleared-IsOurs : (cs : List Call) (e : Entry) → IsOurs cs e → IsOurs cs (cleared e)
unfolding cleared IsOurs
cleared-IsOurs cs e h = inl refl

cleared-HoldsOurs :
    (cs : List Call) (s : Shard)
    → HoldsOurs cs s
    → HoldsOurs cs (record s { entries = map cleared s.entries })
unfolding HoldsOurs
cleared-HoldsOurs cs s h = All-map (IsOurs cs) cleared (cleared-IsOurs cs) s.entries h

lookup-HoldsOurs :
    (cs : List Call) (path : Bytes) (mtime : ℕ) (has_memory : Bool) (now : ℕ) (s : Shard)
    → HoldsOurs cs s
    → HoldsOurs cs (lookup_in_shard path mtime has_memory now s).1
unfolding lookup_in_shard HoldsOurs
lookup-HoldsOurs cs path mtime has_memory now s h =
    count_lookup-HoldsOurs cs _ _
      (find_entry-IsOurs cs path mtime has_memory now _ (refreshed-HoldsOurs cs now s h))

step-Holds :
    (c : Call) (cs : List Call) (f : Cache)
    → ((i : ℕ) → HoldsOurs cs (f i))
    → (i : ℕ) → HoldsOurs (c ∷ cs) (step c f i)
unfolding step http_file_cache_store http_file_cache_lookup http_handler_globals_cleanup
step-Holds (stores path st body has_memory now) cs f h i =
    let c = stores path st body has_memory now in
    ground (
      arith,
      HoldsOurs-there c cs (f i) (h i),
      store-HoldsOurs (c ∷ cs) path st body has_memory now (f i) (here path st has_memory now refl),
    )
step-Holds (looks_up path st has_memory now) cs f h i =
    let c = looks_up path st has_memory now in
    let kept = HoldsOurs-there c cs (f i) (h i) in
    ground (arith, kept, lookup-HoldsOurs (c ∷ cs) path st.st_mtime has_memory now (f i) kept)
step-Holds cleans_up cs f h i =
    let kept = HoldsOurs-there cleans_up cs (f i) (h i) in
    if_both (HoldsOurs (cleans_up ∷ cs)) _ _ _ (cleared-HoldsOurs (cleans_up ∷ cs) (f i) kept) kept

run-Holds : (cs : List Call) (i : ℕ) → HoldsOurs cs (run cs i)
unfolding run init new_shard HoldsOurs IsOurs
run-Holds [] i = All-repeat (IsOurs []) slots no_entry (inl refl)
run-Holds (c ∷ cs) i = step-Holds c cs (run cs) (run-Holds cs) i

-- A body that a lookup gives back, after any history of calls, is one that a call of
-- `http_file_cache_store` had passed for a file of the same modification time, under a path whose
-- first 511 bytes are the path that is looked up.
pub lookup_sound :
    (cs : List Call) (path : Bytes) (st : Stat) (has_memory : Bool) (now : ℕ) (body : Bytes)
    → (http_file_cache_lookup path st has_memory now (run cs)).0 ≡ some body
    → StoredBy cs path (st.st_mtime) body
unfolding http_file_cache_lookup lookup_in_shard HoldsOurs
lookup_sound cs path st has_memory now body h =
    let i = file_cache_shard_index path in
    ground (
      arith,
      find_entry-StoredBy cs path st.st_mtime has_memory now (refreshed now (run cs i)).entries body
          (refreshed-HoldsOurs cs now (run cs i) (run-Holds cs i)),
    )
