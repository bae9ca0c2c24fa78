-- ===== src/Http/ResponsePool.antt =====
-- src/http/response_pool.c: the free lists of response structures. A call is one step on its shard; the
-- shard of the calling thread is an argument, since it is a hash of the platform's thread identifier.
pub mod Shard
pub mod Leases
use miniweb.Prelude.{
  ℕ, zero, suc, ◌+◌, ◌-◌, ◌%◌, Bool, true, false, not, ◌&&◌, ◌||◌, Option, none, some, List, [],
  ◌∷◌, ◌==◌, leb, ltb, if◌then◌else◌, store,
}

-- RESPONSE_POOL_SHARDS
abbrev pub shard_count : ℕ
shard_count = 16

-- The size of `items` and `free_stack`.
abbrev pub shard_size : ℕ
shard_size = 1024

-- Of an item only `pool_shard_idx` is kept: the rest of a response is the caller's.
pub record PoolShard : Type 0 where
  pub pool_shard_idx : ℕ → ℕ
  pub free_stack : ℕ → ℕ
  pub free_top : ℕ
  pub initialized : Bool

-- `response_pools`, by the index of the shard.
abbrev pub Pools : Type 0
Pools = ℕ → PoolShard

-- The zeroed static storage.
abbrev pub zeroed : Pools
zeroed shard = record {
  pool_shard_idx = λ i. 0;
  free_stack = λ i. 0;
  free_top = 0;
  initialized = false;
}

-- A `http_response_t *` of the pool: the shard whose `items` it points into, and its index there.
pub record Handle : Type 0 where
  pub shard : ℕ
  pub item : ℕ

-- The loop of `response_pool_init_locked` after its first `n` rounds.
unfoldable pub fill_stack : ℕ → (ℕ → ℕ) → ℕ → ℕ
fill_stack zero stack = stack
fill_stack (suc i) stack = store (fill_stack i stack) i (shard_size - 1 - i)

unfoldable pub response_pool_init : PoolShard → PoolShard
response_pool_init s = if s.initialized then s else record s {
  free_top = shard_size;
  free_stack = fill_stack shard_size s.free_stack;
  initialized = true;
}

unfoldable pub take_item : ℕ → PoolShard → Option ℕ × PoolShard
take_item shard_idx s =
    if ltb 0 s.free_top
    then (
      some (s.free_stack (s.free_top - 1)),
      record s {
        free_top = s.free_top - 1;
        pool_shard_idx = store s.pool_shard_idx (s.free_stack (s.free_top - 1)) shard_idx;
      },
    )
    else (none, s)

unfoldable pub response_pool_shard_index : ℕ → ℕ
response_pool_shard_index thread_hash = thread_hash % shard_count

-- The index in the thread's shard; `none` is NULL.
unfoldable pub http_response_pool_acquire : ℕ → Pools → Option ℕ × Pools
http_response_pool_acquire shard_idx pools =
    let taken = take_item shard_idx (response_pool_init (pools shard_idx)) in
    (taken.0, store pools shard_idx taken.1)

unfoldable pub give_item : ℕ → PoolShard → PoolShard
give_item i s =
    let cleared = record s { pool_shard_idx = store s.pool_shard_idx i 0 } in
    if ltb s.free_top shard_size
    then record cleared { free_stack = store s.free_stack s.free_top i; free_top = s.free_top + 1 }
    else cleared

-- `false` is the result 0. The second test is that of the pointer against `items`.
unfoldable pub http_response_pool_release : Option Handle → Pools → Bool × Pools
http_response_pool_release none pools = (false, pools)
http_response_pool_release (some h) pools =
    let shard_idx = (pools h.shard).pool_shard_idx h.item in
    if leb shard_count shard_idx
    then (false, pools)
    else if not (h.shard == shard_idx) || leb shard_size h.item
    then (false, pools)
    else (true, store pools shard_idx (give_item h.item (pools shard_idx)))
