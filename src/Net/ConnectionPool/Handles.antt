-- ===== src/Net/ConnectionPool/Handles.antt =====
-- When a call succeeds, and what the staleness test of a held pointer detects.
use miniweb.Prelude.{
  is_some, ℕ, ◌+◌, ◌-◌, ◌≡◌, ◌≢◌, true, false, not, ◌&&◌, Option, none, some, arith, ◌==◌, ℤ, pos,
  ltb, if◌then◌else◌, at_least,
}
use miniweb.Net.ConnectionPool.{Pool, max_connections, alloc, take_slot, free, is_stale, same}
use miniweb.Net.ConnectionPool.Invariant.{IsValid, free-released}

-- In a valid table `alloc` succeeds exactly when the descriptor is in range and not connected and the
-- number of connections is below both limits: the free list never runs out before that.
pub alloc_accepts :
    (p : Pool) (fd : ℕ) (addr : Option ℕ) (max_conns : ℤ) (now : ℕ)
    → IsValid p
    → is_some (alloc p (pos fd) addr max_conns now).0 ≡ (
        ltb fd max_connections
        && not (is_some (p.connections fd))
        && not (at_least p.active_connections max_conns)
        && ltb p.active_connections max_connections)
unfolding alloc take_slot
alloc_accepts p fd addr max_conns now v = ground (arith, v.all_slots)

-- A successful `alloc` in a valid table connects `fd` to a slot that no descriptor had, keeps every
-- other connection and every live connection's contents, and counts one more connection; the new
-- pointer is not stale.
pub alloc_fresh :
    (p : Pool) (fd : ℕ) (addr : Option ℕ) (max_conns : ℤ) (now slot : ℕ) (q : Pool)
    → IsValid p
    → alloc p (pos fd) addr max_conns now ≡ (some slot, q)
    → ((f : ℕ) → p.connections f ≢ some slot)
      × ((f : ℕ) → q.connections f ≡ (if fd == f then some slot else p.connections f))
      × ((f s : ℕ) → p.connections f ≡ some s → q.pool s ≡ p.pool s)
      × (q.active_connections ≡ p.active_connections + 1)
      × (is_stale q fd (some slot) ≡ false)
unfolding alloc take_slot is_stale
alloc_fresh p fd addr max_conns now slot q v e = (
  λ f h. ground (arith, v.free_unused (p.free_top - 1) f slot),
  λ f. ground arith,
  λ f s h. ground (arith, v.free_unused (p.free_top - 1) f s),
  ground arith,
  ground arith,
)

-- In a valid table the generation test decides nothing: a pointer is stale exactly when the descriptor
-- is not connected to its slot.
pub is_stale_iff_moved :
    (p : Pool) (fd s : ℕ) → IsValid p → is_stale p fd (some s) ≡ not (same (p.connections fd) s)
unfolding is_stale
is_stale_iff_moved p fd s v = ground (arith, v.live_gen fd s)

-- After `free` of a connected descriptor of a valid table the old pointer is stale, both under that
-- descriptor and under the one that the worker reads from the cleared slot, and the other descriptors
-- keep their slots.
pub free_detected :
    (p : Pool) (fd s : ℕ)
    → IsValid p
    → p.connections fd ≡ some s
    → let q = free p (pos fd) in
      (is_stale q fd (some s) ≡ true)
      × (is_stale q (q.pool s).fd (some s) ≡ true)
      × ((f : ℕ) → q.connections f ≡ (if fd == f then none else p.connections f))
unfolding is_stale
free_detected p fd s v used =
    rw (free-released p fd s v used)
      (ground arith, ground (arith, v.live_fd fd s, v.live_fd 0 s), λ f. ground arith)

-- In a valid table with room below the limit, a descriptor that is freed and connected again gets the same slot, and the pointer from before is
-- not found stale: the generation counter does not tell the two connections apart.
pub reused_pointer_not_stale :
    (p : Pool) (fd s : ℕ) (addr : Option ℕ) (max_conns : ℤ) (now : ℕ)
    → IsValid p
    → p.connections fd ≡ some s
    → at_least (p.active_connections - 1) max_conns ≡ false
    → let (slot, q) = alloc (free p (pos fd)) (pos fd) addr max_conns now in
      (slot ≡ some s) × (is_stale q fd (some s) ≡ false)
unfolding alloc take_slot is_stale
reused_pointer_not_stale p fd s addr max_conns now v used below =
    rw (free-released p fd s v used) (ground (arith, v.live_lt fd s, used))
