-- ===== src/Http/FileCache/Hits.antt =====
-- That a body which was admitted is found again.
use miniweb.Prelude.{
  ℕ, zero, suc, ◌+◌, ◌<◌, ◌≤◌, ◌≡◌, refl, ap, ◌∙◌, Bool, true, false, not, ◌&&◌, ◌||◌, none, some,
  List, [], ◌∷◌, map, Bytes, str_eq, str_eq_refl, ◌==◌, ltb, length, take, is_some, arith,
  Bool-cases, if_both, inl, inr,
}
use miniweb.Http.FileCache.{
  Shard, Stat, Entry, copied, path_size, put_at, is_empty, too_old, evict_entry,
  file_cache_evict_stale, file_cache_refill_budget, refreshed, insert_at, scan_entries,
  store_in_shard, find_entry, lookup_in_shard, file_cache_admit,
}

-- Whether an entry answers a lookup at the time `now` and survives the eviction before it.
hit : Bytes → ℕ → ℕ → Entry → Bool
hit path mtime now e =
    not (is_empty e.path) && str_eq e.path path && e.mtime == mtime && not (too_old now e.atime)

any_hit : Bytes → ℕ → ℕ → List Entry → Bool
any_hit path mtime now [] = false
any_hit path mtime now (e ∷ es) = hit path mtime now e || any_hit path mtime now es

module _ (path : Bytes) (mtime now : ℕ) where
  any_hit-evict :
      (es : List Entry)
      → any_hit path mtime now es ≡ true
      → any_hit path mtime now (map (evict_entry now) es) ≡ true
  unfolding any_hit hit evict_entry
  any_hit-evict [] h = h
  any_hit-evict (e ∷ es) h = ground (arith, any_hit-evict es)

  any_hit-put_at :
      (i : ℕ) (e : Entry) (es : List Entry)
      → i < length es
      → hit path mtime now e ≡ true
      → any_hit path mtime now (put_at i e es) ≡ true
  unfolding any_hit put_at
  any_hit-put_at i e [] small h = absurd (omega arith)
  any_hit-put_at zero e (x ∷ es) small h = rw h refl
  any_hit-put_at (suc i) e (x ∷ es) small h = ground (arith, any_hit-put_at i e es)

  find_entry-any_hit :
      (es : List Entry)
      → any_hit path mtime now es ≡ true
      → is_some (find_entry path mtime true now es).0 ≡ true
  unfolding any_hit hit find_entry
  find_entry-any_hit [] h = h
  find_entry-any_hit (e ∷ es) h = ground (arith, find_entry-any_hit es)

scan_entries-bound :
    (es : List Entry) (i j oldest : ℕ)
    → j < i
    → (k : ℕ) × (scan_entries i (some j) oldest es ≡ some k) × (k < i + length es)
unfolding scan_entries
scan_entries-bound [] i j oldest h = (j, refl, omega arith)
scan_entries-bound (e ∷ es) i j oldest h = elim (Bool-cases (is_empty e.path)) [
  | inl free ↦ rw free (i, refl, omega arith)
  | inr used ↦ rw used (elim (Bool-cases (ltb e.atime oldest)) [
    | inl older ↦
        let (k, q, l) = scan_entries-bound es (suc i) i e.atime (omega arith) in
        rw older (k, q, omega (arith, l))
    | inr newer ↦
        let (k, q, l) = scan_entries-bound es (suc i) j oldest (omega arith) in
        rw newer (k, q, omega (arith, l))
  ])
]

scan_entries-some :
    (es : List Entry)
    → 0 < length es
    → (k : ℕ) × (scan_entries 0 none 0 es ≡ some k) × (k < length es)
unfolding scan_entries
scan_entries-some [] h = absurd (omega arith)
scan_entries-some (e ∷ es) h = elim (Bool-cases (is_empty e.path)) [
  | inl free ↦ rw free (0, refl, omega arith)
  | inr used ↦
      let (k, q, l) = scan_entries-bound es 1 0 e.atime (omega arith) in
      rw used (k, q, omega (arith, l))
]

take_all : (n : ℕ) (s : Bytes) → length s ≤ n → take n s ≡ s
take_all zero [] h = refl
take_all zero (c ∷ s) h = absurd (omega arith)
take_all (suc n) [] h = refl
take_all (suc n) (c ∷ s) h = ap (◌∷◌ c) (take_all n s (omega arith))

length-map : (now : ℕ) (es : List Entry) → length (map (evict_entry now) es) ≡ length es
length-map now [] = refl
length-map now (e ∷ es) = ap suc (length-map now es)

refill-entries : (now : ℕ) (s : Shard) → (file_cache_refill_budget now s).entries ≡ s.entries
unfolding file_cache_refill_budget
refill-entries now s = if_both (λ (r : Shard). r.entries ≡ s.entries) _ _ s refl refl

refreshed-entries :
    (now : ℕ) (s : Shard) → (refreshed now s).entries ≡ map (evict_entry now) s.entries
unfolding refreshed file_cache_evict_stale
refreshed-entries now s = ap (map (evict_entry now)) (refill-entries now s)

length-refreshed : (now : ℕ) (s : Shard) → length (refreshed now s).entries ≡ length s.entries
length-refreshed now s = ap length (refreshed-entries now s) ∙ length-map now s.entries

fresh-hit :
    (path : Bytes) (st : Stat) (body : Bytes) (now : ℕ)
    → is_empty path ≡ false
    → length path < path_size
    → hit path st.st_mtime now
        (record { path = copied path; body = body; mtime = st.st_mtime; atime = now })
      ≡ true
unfolding hit
fresh-hit path st body now some_path short =
    rw (take_all 511 path (omega arith)) (ground (arith, some_path, str_eq_refl path))

stored-any_hit :
    (path : Bytes) (st : Stat) (body : Bytes) (now : ℕ) (s : Shard)
    → is_empty path ≡ false
    → length path < path_size
    → 0 < length s.entries
    → (refreshed now s).cache_insert_tokens == 0 ≡ false
    → (file_cache_admit path now (refreshed now s).candidates).0 ≡ true
    → any_hit path st.st_mtime now (store_in_shard path st body true now s).entries ≡ true
unfolding store_in_shard insert_at
stored-any_hit path st body now s some_path short room budget admitted =
    let (k, q, l) =
      scan_entries-some (refreshed now s).entries (omega (arith, length-refreshed now s)) in
    rw (budget, admitted, q)
      (any_hit-put_at path st.st_mtime now k _ _ l (fresh-hit path st body now some_path short))

-- After a store in a shard that has slots and budget left, under a path that is admitted, not empty and
-- shorter than 512 bytes, a lookup of that path and modification time in the same second finds a body,
-- if the allocations of both calls succeed.
pub store_then_hit :
    (path : Bytes) (st : Stat) (body : Bytes) (now : ℕ) (s : Shard)
    → is_empty path ≡ false
    → length path < path_size
    → 0 < length s.entries
    → (refreshed now s).cache_insert_tokens == 0 ≡ false
    → (file_cache_admit path now (refreshed now s).candidates).0 ≡ true
    → is_some (lookup_in_shard path st.st_mtime true now (store_in_shard path st body true now s)).0
      ≡ true
unfolding lookup_in_shard
store_then_hit path st body now s some_path short room budget admitted =
    find_entry-any_hit path st.st_mtime now _ (
      rw (refreshed-entries now (store_in_shard path st body true now s)) (
        any_hit-evict path st.st_mtime now _
          (stored-any_hit path st body now s some_path short room budget admitted)))
