-- ===== src/Net/Server/Threads.antt =====
-- src/net/server.c and src/net/worker.c: the threads of the server, interleaved. Each step of a thread is
-- one call of the kernel or one section of the code that holds a lock; between two steps of a thread any
-- other thread may have its own. A thread that is between two steps is in a phase of its own.
pub mod Covered
pub mod Interleaved
pub mod Turn
use miniweb.Prelude.{
  ℕ, ◌<◌, ◌≡◌, Bool, true, false, ◌||◌, Option, none, some, List, [], ◌∷◌, ◌++◌, Bytes, ◌==◌, leb,
  take, store, ℤ, pos,
}
use miniweb.Net.ConnectionPool.{Pool, alloc, free, is_stale, max_connections}
use miniweb.Net.ConnectionPool
use miniweb.Net.WorkQueue.{WorkQueue, push, pop, Popped, wait, returns}
use miniweb.Net.WorkQueue
use miniweb.Net.Worker.{set_buffer, reset_request, max_keepalive_requests}
use miniweb.Net.Server.{idle_below}

-- A worker: before it takes from the queue; with a slot from the queue; with the descriptor read from
-- that slot; in the receive loop or a handler; after the writes of `try_rearm_keepalive`; and between
-- `close(fd)` and `miniweb_connection_free`.
pub data WorkerPhase : Type 0 where
  ready : WorkerPhase
  popped : ℕ → WorkerPhase
  checking serving rearming : ℕ → ℕ → WorkerPhase
  closing : ℕ → WorkerPhase

-- The dispatcher: between two events or two calls of `accept`; with a descriptor that is accepted and
-- not yet allocated, or that `miniweb_connection_alloc` has refused, or that is to be registered; with a
-- client's event that is not stale; with the rest of `to_close`; and between `close(fd)` and
-- `miniweb_connection_free`, with the rest of `to_close`.
pub data DispatcherPhase : Type 0 where
  waiting : DispatcherPhase
  accepted refused registering : ℕ → DispatcherPhase
  checked : ℕ → ℕ → DispatcherPhase
  sweeping : List ℕ → DispatcherPhase
  dropping : ℕ → List ℕ → DispatcherPhase

-- The workers by their index, and the descriptors of clients that are open.
pub record Threads : Type 0 where
  pub running : Bool
  pub queue : WorkQueue ℕ
  pub pool : Pool
  pub is_open : ℕ → Bool
  pub workers : ℕ → WorkerPhase
  pub dispatcher : DispatcherPhase

unfoldable pub started : Threads
started = record {
  running = true;
  queue = WorkQueue.init;
  pool = ConnectionPool.init;
  is_open = λ fd. false;
  workers = λ i. ready;
  dispatcher = waiting;
}

-- What the receive loop has in the buffer after `new` bytes more.
abbrev pub received : Pool → ℕ → Bytes → Bytes
received p slot new = take (p.pool slot).bytes_read (p.pool slot).buffer ++ new

-- The steps of worker `i`. A handler has none: it does not reach the table and closes no client's
-- descriptor.
pub data WorkerStep : Threads → Threads → Type 0 where
  pops :
      (t : Threads) (i slot : ℕ) (queue : WorkQueue ℕ)
      → t.workers i ≡ ready
      → pop t.queue t.running ≡ returns (some slot) queue
      → WorkerStep t (record t { queue = queue; workers = store t.workers i (popped slot) })
  reads :
      (t : Threads) (i slot : ℕ)
      → t.workers i ≡ popped slot
      → WorkerStep t
          (record t { workers = store t.workers i (checking slot (t.pool.pool slot).fd) })
  skips :
      (t : Threads) (i slot fd : ℕ)
      → t.workers i ≡ checking slot fd
      → leb max_connections fd || is_stale t.pool fd (some slot) ≡ true
      → WorkerStep t (record t { workers = store t.workers i ready })
  takes :
      (t : Threads) (i slot fd : ℕ)
      → t.workers i ≡ checking slot fd
      → leb max_connections fd || is_stale t.pool fd (some slot) ≡ false
      → WorkerStep t (record t { workers = store t.workers i (serving slot fd) })
  receives :
      (t : Threads) (i slot fd : ℕ) (new : Bytes) (now : ℕ)
      → t.workers i ≡ serving slot fd
      → WorkerStep t (record t { pool = set_buffer t.pool slot (received t.pool slot new) now })
  waits_for_more :
      (t : Threads) (i slot fd : ℕ)
      → t.workers i ≡ serving slot fd
      → WorkerStep t (record t { workers = store t.workers i ready })
  rearms :
      (t : Threads) (i slot fd now : ℕ)
      → t.workers i ≡ serving slot fd
      → (t.pool.pool slot).requests_served < max_keepalive_requests
      → WorkerStep t (record t {
        pool = reset_request t.pool slot now;
        workers = store t.workers i (rearming slot fd);
      })
  enables :
      (t : Threads) (i slot fd : ℕ)
      → t.workers i ≡ rearming slot fd
      → WorkerStep t (record t { workers = store t.workers i ready })
  closes_served :
      (t : Threads) (i slot fd : ℕ)
      → t.workers i ≡ serving slot fd
      → WorkerStep t (record t {
        is_open = store t.is_open fd false;
        workers = store t.workers i (closing fd);
      })
  closes_rearmed :
      (t : Threads) (i slot fd : ℕ)
      → t.workers i ≡ rearming slot fd
      → WorkerStep t (record t {
        is_open = store t.is_open fd false;
        workers = store t.workers i (closing fd);
      })
  frees :
      (t : Threads) (i fd : ℕ)
      → t.workers i ≡ closing fd
      → WorkerStep t (record t { pool = free t.pool (pos fd); workers = store t.workers i ready })

abbrev pub after_alloc : ℕ → Option ℕ → DispatcherPhase
after_alloc fd none = refused fd
after_alloc fd (some slot) = registering fd

-- The rounds of `handle_accept`. The kernel accepts a descriptor that is not open, and does not register
-- one that has been closed: `kevent` then fails with EBADF.
pub data AcceptStep : Threads → Threads → Type 0 where
  accepts :
      (t : Threads) (fd : ℕ)
      → t.dispatcher ≡ waiting
      → t.is_open fd ≡ false
      → AcceptStep t (record t { is_open = store t.is_open fd true; dispatcher = accepted fd })
  allocates :
      (t : Threads) (fd addr : ℕ) (max_conns : ℤ) (now : ℕ)
      → t.dispatcher ≡ accepted fd
      → AcceptStep t (record t {
        pool = (alloc t.pool (pos fd) (some addr) max_conns now).1;
        dispatcher = after_alloc fd (alloc t.pool (pos fd) (some addr) max_conns now).0;
      })
  refuses :
      (t : Threads) (fd : ℕ)
      → t.dispatcher ≡ refused fd
      → AcceptStep t (record t { is_open = store t.is_open fd false; dispatcher = waiting })
  registers :
      (t : Threads) (fd : ℕ)
      → t.dispatcher ≡ registering fd
      → t.is_open fd ≡ true
      → AcceptStep t (record t { dispatcher = waiting })
  gives_up :
      (t : Threads) (fd : ℕ)
      → t.dispatcher ≡ registering fd
      → AcceptStep t (record t { is_open = store t.is_open fd false; dispatcher = dropping fd [] })

-- The sweep, and the call of `miniweb_connection_free` that follows each `close(fd)` of the dispatcher.
pub data SweepStep : Threads → Threads → Type 0 where
  scans :
      (t : Threads) (now conn_timeout : ℕ)
      → t.dispatcher ≡ waiting
      → SweepStep t
          (record t { dispatcher = sweeping (idle_below max_connections t.pool now conn_timeout) })
  closes_idle :
      (t : Threads) (fd : ℕ) (fds : List ℕ)
      → t.dispatcher ≡ sweeping (fd ∷ fds)
      → SweepStep t (record t { is_open = store t.is_open fd false; dispatcher = dropping fd fds })
  drops :
      (t : Threads) (fd : ℕ) (fds : List ℕ)
      → t.dispatcher ≡ dropping fd fds
      → SweepStep t (record t { pool = free t.pool (pos fd); dispatcher = sweeping fds })
  is_done :
      (t : Threads) → t.dispatcher ≡ sweeping [] → SweepStep t (record t { dispatcher = waiting })

-- The events on a client's descriptor and on the signal pipe.
pub data EventStep : Threads → Threads → Type 0 where
  checks :
      (t : Threads) (fd slot : ℕ)
      → t.dispatcher ≡ waiting
      → leb max_connections fd || is_stale t.pool fd (some slot) ≡ false
      → EventStep t (record t { dispatcher = checked fd slot })
  hangs_up :
      (t : Threads) (fd slot : ℕ)
      → t.dispatcher ≡ checked fd slot
      → EventStep t (record t { is_open = store t.is_open fd false; dispatcher = dropping fd [] })
  passes_on :
      (t : Threads) (fd slot : ℕ) (queue : WorkQueue ℕ)
      → t.dispatcher ≡ checked fd slot
      → push t.queue slot ≡ (true, queue)
      → EventStep t (record t { queue = queue; dispatcher = waiting })
  overflows :
      (t : Threads) (fd slot : ℕ) (queue : WorkQueue ℕ)
      → t.dispatcher ≡ checked fd slot
      → push t.queue slot ≡ (false, queue)
      → EventStep t (record t {
        queue = queue;
        is_open = store t.is_open fd false;
        dispatcher = dropping fd [];
      })
  stops : (t : Threads) → EventStep t (record t { running = false })

pub data Reachable : Threads → Type 0 where
  initial : Reachable started
  by_worker : {t t' : Threads} → Reachable t → WorkerStep t t' → Reachable t'
  by_accept : {t t' : Threads} → Reachable t → AcceptStep t t' → Reachable t'
  by_sweep : {t t' : Threads} → Reachable t → SweepStep t t' → Reachable t'
  by_event : {t t' : Threads} → Reachable t → EventStep t t' → Reachable t'
