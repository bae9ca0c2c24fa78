-- ===== src/Net/Server.antt =====
-- src/net/server.c: the dispatcher. Its functions are its own calls one after the other, with no other
-- thread in between; Threads has the interleaved steps of all threads. The descriptors of the clients
-- are the `true` ones of `is_open`. The kernel's answers and the times are arguments.
pub mod Descriptors
pub mod Threads
pub mod Sweep
use miniweb.Prelude.{
  ℕ, zero, suc, ◌+◌, ◌-◌, Bool, true, false, not, ◌&&◌, ◌||◌, Option, none, some, List, [], ◌∷◌,
  ◌++◌, ◌==◌, leb, ltb, if◌then◌else◌, store, ℤ, pos,
}
use miniweb.Net.ConnectionPool.{Pool, alloc, free, is_stale, max_connections}
use miniweb.Net.ConnectionPool
use miniweb.Net.WorkQueue.{WorkQueue, push, pop, Popped, wait, returns}
use miniweb.Net.WorkQueue
use miniweb.Http.Request.{HttpRequest}
use miniweb.Net.Worker.{Received, Reply, Turn, worker_turn}
use miniweb.Net.Worker.Turns.{closed}
use miniweb.Router.{Registry}

-- The fields of `miniweb_server_runtime_t` that change while the server runs; an item of the queue is
-- the index of a slot.
pub record ServerRuntime : Type 0 where
  pub running : Bool
  pub queue : WorkQueue ℕ
  pub pool : Pool
  pub is_open : ℕ → Bool

unfoldable pub start : ServerRuntime
start = record {
  running = true;
  queue = WorkQueue.init;
  pool = ConnectionPool.init;
  is_open = λ fd. false;
}

-- `close(fd)` and `miniweb_connection_free`.
unfoldable pub drop_client : ℕ → ServerRuntime → ServerRuntime
drop_client fd rt = record rt { pool = free rt.pool (pos fd); is_open = store rt.is_open fd false }

-- An answer of `accept`: a descriptor, with the peer, the time and whether `kevent` then succeeds, or
-- -1 with EINTR, or with another `errno`.
pub data Accepted : Type 0 where
  client : ℕ → ℕ → ℕ → Bool → Accepted
  interrupted none_left : Accepted

unfoldable pub registered : Bool → ℕ → ServerRuntime → ServerRuntime
registered kevent_ok fd rt = if kevent_ok then rt else drop_client fd rt

-- What follows `miniweb_connection_alloc`; without a slot the client gets a 503 and is closed.
unfoldable pub with_slot : Bool → ℕ → ServerRuntime → Option ℕ × Pool → ServerRuntime
with_slot kevent_ok fd rt (none, pool) = record rt {
  pool = pool;
  is_open = store rt.is_open fd false;
}
with_slot kevent_ok fd rt (some slot, pool) =
    registered kevent_ok fd (record rt { pool = pool; is_open = store rt.is_open fd true })

unfoldable pub accept_client : ℤ → ℕ → ℕ → ℕ → Bool → ServerRuntime → ServerRuntime
unfolding with_slot
accept_client max_conns fd addr now kevent_ok rt =
    with_slot kevent_ok fd rt (alloc rt.pool (pos fd) (some addr) max_conns now)

unfoldable pub handle_accept : ℤ → List Accepted → ServerRuntime → ServerRuntime
handle_accept max_conns [] rt = rt
handle_accept max_conns (none_left ∷ answers) rt = rt
handle_accept max_conns (interrupted ∷ answers) rt = handle_accept max_conns answers rt
handle_accept max_conns (client fd addr now kevent_ok ∷ answers) rt =
    handle_accept max_conns answers (accept_client max_conns fd addr now kevent_ok rt)

-- `now - c->last_activity > conn_timeout` for a positive limit; a difference below 0 is 0 here.
unfoldable pub is_idle : Pool → ℕ → ℕ → Option ℕ → Bool
is_idle p now conn_timeout none = false
is_idle p now conn_timeout (some slot) = ltb conn_timeout (now - (p.pool slot).last_activity)

-- The loop over the descriptors below `n`, in their order.
unfoldable pub idle_below : ℕ → Pool → ℕ → ℕ → List ℕ
idle_below zero p now conn_timeout = []
idle_below (suc fd) p now conn_timeout =
    let before = idle_below fd p now conn_timeout in
    if is_idle p now conn_timeout (p.connections fd) then before ++ fd ∷ [] else before

unfoldable pub drop_all : List ℕ → ServerRuntime → ServerRuntime
drop_all [] rt = rt
drop_all (fd ∷ fds) rt = drop_all fds (drop_client fd rt)

unfoldable pub sweep_idle : ℕ → ℕ → ServerRuntime → ServerRuntime
sweep_idle now conn_timeout rt = drop_all (idle_below max_connections rt.pool now conn_timeout) rt

-- An event on a client's descriptor: the descriptor, the slot that `udata` points to, and whether
-- `flags` has EV_EOF or EV_ERROR.
unfoldable pub after_push : ℕ → ServerRuntime → Bool × WorkQueue ℕ → ServerRuntime
after_push fd rt (true, queue) = record rt { queue = queue }
after_push fd rt (false, queue) = drop_client fd (record rt { queue = queue })

unfoldable pub client_event : ℕ → ℕ → Bool → ServerRuntime → ServerRuntime
unfolding after_push
client_event fd slot gone rt =
    if leb max_connections fd || is_stale rt.pool fd (some slot)
    then rt
    else if gone
    then drop_client fd rt
    else after_push fd rt (push rt.queue slot)

-- The events on the pipe, on the listening socket and on a client.
pub data ServerEvent : Type 0 where
  on_signal : ServerEvent
  on_listen : ℤ → List Accepted → ServerEvent
  on_client : ℕ → ℕ → Bool → ServerEvent

unfoldable pub dispatch : ServerEvent → ServerRuntime → ServerRuntime
dispatch on_signal rt = record rt { running = false }
dispatch (on_listen max_conns answers) rt = handle_accept max_conns answers rt
dispatch (on_client fd slot gone) rt = client_event fd slot gone rt

-- The loop over the events of one `kevent`.
unfoldable pub dispatch_all : List ServerEvent → ServerRuntime → ServerRuntime
dispatch_all [] rt = rt
dispatch_all (e ∷ es) rt = dispatch_all es (dispatch e rt)

-- One round of the loop of `miniweb_server_run`; `sweeps` is whether a second has passed, and then the
-- time and the limit are those of the sweep.
unfoldable pub server_round : Bool → ℕ → ℕ → List ServerEvent → ServerRuntime → ServerRuntime
server_round sweeps now conn_timeout es rt =
    dispatch_all es (if sweeps then sweep_idle now conn_timeout rt else rt)

-- What other threads and the signal handler see of `miniweb_server_stop`.
unfoldable pub miniweb_server_stop : ServerRuntime → ServerRuntime
miniweb_server_stop rt = record rt { running = false }
