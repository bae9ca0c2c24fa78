-- ===== src/Net/ConnectionPool.antt =====
-- src/net/connection_pool.c and include/miniweb/net/connection_pool.h: the table of client
-- connections. A call is one step, since its body holds `pool->lock`. A `miniweb_connection_t *` is
-- the index of its slot in `pool->pool`; times are arguments.
pub mod Invariant
pub mod Handles
use miniweb.Prelude.{
  is_some, ℕ, zero, suc, ◌+◌, ◌-◌, ◌%◌, ◌^◌, Bool, true, false, not, ◌||◌, Option, none, some, List,
  [], ◌∷◌, Bytes, ◌==◌, leb, ltb, if◌then◌else◌, store, ℤ, pos, negsuc, at_least,
}

-- MINIWEB_MAX_CONNECTIONS
abbrev pub max_connections : ℕ
max_connections = 4096

-- MINIWEB_REQUEST_BUFFER_SIZE
abbrev pub request_buffer_size : ℕ
request_buffer_size = 16384

-- `addr` is an opaque number, 0 for the zeroed structure; `buffer` holds the bytes before the NUL.
pub record Connection : Type 0 where
  pub fd : ℕ
  pub addr : ℕ
  pub buffer : Bytes
  pub bytes_read : ℕ
  pub created : ℕ
  pub last_activity : ℕ
  pub requests_served : ℕ
  pub gen : ℕ

-- `memset(conn, 0, sizeof(*conn))`
abbrev pub zeroed : Connection
zeroed = record {
  fd = 0;
  addr = 0;
  buffer = [];
  bytes_read = 0;
  created = 0;
  last_activity = 0;
  requests_served = 0;
  gen = 0;
}

pub record Pool : Type 0 where
  pub connections : ℕ → Option ℕ
  pub conn_gen : ℕ → ℕ
  pub active_connections : ℕ
  pub pool : ℕ → Connection
  pub free_stack : ℕ → ℕ
  pub free_top : ℕ

-- The loop of `init` after its first `n` rounds.
unfoldable pub fill_free_stack : ℕ → (ℕ → ℕ) → ℕ → ℕ
fill_free_stack zero stack = stack
fill_free_stack (suc i) stack = store (fill_free_stack i stack) i (max_connections - 1 - i)

unfoldable pub init : Pool
unfolding fill_free_stack
init = record {
  connections = λ fd. none;
  conn_gen = λ fd. 0;
  active_connections = 0;
  pool = λ slot. zeroed;
  free_stack = fill_free_stack max_connections (λ i. 0);
  free_top = max_connections;
}

abbrev pub or_zero : Option ℕ → ℕ
or_zero none = 0
or_zero (some a) = a

-- What `alloc` does once its guards have passed.
unfoldable pub take_slot : Pool → ℕ → Option ℕ → ℕ → Option ℕ × Pool
take_slot p fd addr now =
    let top = p.free_top - 1 in
    let slot = p.free_stack top in
    (
      some slot,
      record p {
        connections = store p.connections fd (some slot);
        active_connections = p.active_connections + 1;
        pool = store p.pool slot (record zeroed {
          fd = fd;
          addr = or_zero addr;
          created = now;
          last_activity = now;
          gen = p.conn_gen fd;
        });
        free_top = top;
      },
    )

-- `none` is NULL.
unfoldable pub alloc : Pool → ℤ → Option ℕ → ℤ → ℕ → Option ℕ × Pool
alloc p (negsuc n) addr max_conns now = (none, p)
alloc p (pos fd) addr max_conns now =
    if leb max_connections fd
    then (none, p)
    else if at_least p.active_connections max_conns || is_some (p.connections fd) || p.free_top == 0
    then (none, p)
    else take_slot p fd addr now

-- The pointer test and the `memset`, then the push on the free list.
pub give_back : Pool → ℕ → Pool
give_back p slot =
    if ltb slot max_connections
    then (if ltb p.free_top max_connections
        then record p {
          pool = store p.pool slot zeroed;
          free_stack = store p.free_stack p.free_top slot;
          free_top = p.free_top + 1;
        }
        else record p { pool = store p.pool slot zeroed })
    else p

pub disconnect : Pool → ℕ → Pool
disconnect p fd = record p {
  connections = store p.connections fd none;
  conn_gen = store p.conn_gen fd ((p.conn_gen fd + 1) % 2 ^ 32);
  active_connections = p.active_connections - 1;
}

unfoldable pub release_slot : Pool → ℕ → Option ℕ → Pool
release_slot p fd none = p
release_slot p fd (some slot) = disconnect (give_back p slot) fd

-- `active_connections` is decremented only if it is positive, which `-` on ℕ says.
unfoldable pub free : Pool → ℤ → Pool
unfolding give_back disconnect release_slot
free p (negsuc n) = p
free p (pos fd) = if leb max_connections fd then p else release_slot p fd (p.connections fd)

abbrev pub same : Option ℕ → ℕ → Bool
same none slot = false
same (some s) slot = s == slot

-- `fd` is an index that the callers have checked.
unfoldable pub is_stale : Pool → ℕ → Option ℕ → Bool
is_stale p fd none = true
is_stale p fd (some slot) =
    not (same (p.connections fd) slot) || not ((p.pool slot).gen == p.conn_gen fd)
