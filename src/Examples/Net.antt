-- ===== src/Examples/Net.antt =====
-- Runs of the queue and the connection table.
use miniweb.Prelude.{ℕ, ◌≡◌, true, some, List, [], ◌∷◌, ◌++◌, map, pos}
use miniweb.Net.WorkQueue.{WorkQueue, init as init_queue, Op, pushes, pops, push, pop, run}
use miniweb.Net.WorkQueue.Fifo.{
  start, contents, enqueue, dequeue, observe, init-IsValid, push_refines, pop_refines, run_fifo,
}
use miniweb.Net.ConnectionPool.{init}
use miniweb.Net.ConnectionPool.Invariant.{Call, allocs, IsValid, run-init-IsValid, run as run_calls}

abbrev fresh : WorkQueue ℕ
fresh = init_queue

push_refines_example :
    let (done, q') = push fresh 5 in (done, contents q') ≡ enqueue (contents fresh) 5
push_refines_example = push_refines fresh 5 init-IsValid

pop_refines_example : observe (pop fresh true) ≡ dequeue (contents fresh) true
pop_refines_example = pop_refines fresh true

abbrev schedule : List (Op ℕ)
schedule = pushes 5 ∷ pops true ∷ pops true ∷ pushes 6 ∷ []

run_fifo_example :
    let t = run start schedule in map some t.accepted ≡ t.delivered ++ contents t.queue
run_fifo_example = run_fifo schedule

-- One client on descriptor 7.
abbrev calls : List Call
calls = allocs (pos 7) (some 99) (pos 100) 1000 ∷ []

run-init-IsValid_example : IsValid (run_calls init calls)
run-init-IsValid_example = run-init-IsValid calls
