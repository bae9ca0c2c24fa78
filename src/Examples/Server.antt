-- ===== src/Examples/Server.antt =====
-- The server after one client has been accepted, a sweep that finds it idle, and a client that two
-- threads close.
use miniweb.Prelude.{refl, true, [], ◌∷◌, pos}
use miniweb.Net.ConnectionPool.{alloc, take_slot, is_stale}
use miniweb.Net.ConnectionPool
use miniweb.Net.WorkQueue.{push, pop}
use miniweb.Net.WorkQueue
use miniweb.Net.Server.{ServerRuntime, start, client, none_left, ServerEvent, on_listen, dispatch}
use miniweb.Net.Server.Threads.{
  Threads, started, accepts, allocates, registers, checks, passes_on, pops, reads, takes,
  closes_served, Reachable, initial, by_worker, by_accept, by_event,
}

-- Descriptor 7 is accepted at the time 1000.
abbrev arrival : ServerEvent
arrival = on_listen (pos 100) (client 7 99 1000 true ∷ none_left ∷ [])

abbrev one_client : ServerRuntime
one_client = dispatch arrival start

-- A client of the interleaved threads: the dispatcher accepts it and passes it on, worker 0 serves and
-- closes it, and before that worker frees its connection the dispatcher accepts the descriptor again.
abbrev Run : Type 0
Run = (t : Threads) × Reachable t

abbrev one_closed_and_accepted : Run
unfolding started miniweb.Net.ConnectionPool.init miniweb.Net.WorkQueue.init alloc take_slot
    is_stale push pop
one_closed_and_accepted =
    let one_accepted : Run = (_, by_accept initial (accepts started 7 refl refl)) in
    let allocated : Run =
      (_, by_accept one_accepted.1 (allocates one_accepted.0 7 99 (pos 100) 1000 refl)) in
    let registered : Run = (_, by_accept allocated.1 (registers allocated.0 7 refl refl)) in
    let readable : Run = (_, by_event registered.1 (checks registered.0 7 0 refl refl)) in
    let queued : Run = (_, by_event readable.1 (passes_on readable.0 7 0 _ refl refl)) in
    let one_popped : Run = (_, by_worker queued.1 (pops queued.0 0 0 _ refl refl)) in
    let read : Run = (_, by_worker one_popped.1 (reads one_popped.0 0 0 refl)) in
    let taken : Run = (_, by_worker read.1 (takes read.0 0 0 7 refl refl)) in
    let closed : Run = (_, by_worker taken.1 (closes_served taken.0 0 0 7 refl)) in
    (_, by_accept closed.1 (accepts closed.0 7 refl refl))
