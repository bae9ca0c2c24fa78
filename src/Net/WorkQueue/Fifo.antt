-- ===== src/Net/WorkQueue/Fifo.antt =====
-- The ring of work_queue.c refines a queue of at most `capacity` items.
use miniweb.Prelude.{
  ℕ, zero, suc, ◌+◌, ◌-◌, ◌%◌, ◌≤◌, ◌<◌, ◌≡◌, refl, ap, ap₂, ◌≢◌, Bool, true, false, Option, none,
  some, List, [], ◌∷◌, ◌++◌, map, arith, length, store, ltb, ltb, if◌then◌else◌,
}
use mathlib.Core.List.{map-append, append_assoc}
use miniweb.Net.WorkQueue.{
  WorkQueue, Popped, wait, returns, Op, pushes, pops, Trace, capacity, init, push, pop, step, run,
}

pub record IsValid {A : Type 0} (q : WorkQueue A) : Type 0 where
  pub head_in : q.head < capacity
  pub bounded : q.count ≤ capacity
  pub tail_at : q.tail ≡ (q.head + q.count) % capacity

module _ {A : Type 0} where
  -- The `n` entries from index `h` on, going round.
  abbrev window : (ℕ → Option A) → ℕ → ℕ → List (Option A)
  window a h zero = []
  window a h (suc n) = a h ∷ window a ((h + 1) % capacity) n

  abbrev pub contents : WorkQueue A → List (Option A)
  contents q = window q.items q.head q.count

  length-window : (a : ℕ → Option A) (h n : ℕ) → length (window a h n) ≡ n
  length-window a h zero = refl
  length-window a h (suc n) = ap suc (length-window a ((h + 1) % capacity) n)

  window_of_ne_zero :
      (a : ℕ → Option A) (h n : ℕ)
      → n ≢ 0
      → window a h n ≡ a h ∷ window a ((h + 1) % capacity) (n - 1)
  window_of_ne_zero a h zero p = absurd (p refl)
  window_of_ne_zero a h (suc n) p = ap (λ k. window a h (suc k)) (omega arith)

  store_self : (a : ℕ → Option A) (i j : ℕ) (v : Option A) → i ≡ j → store a i v j ≡ v
  store_self a i j v e = ground arith

  store_ne : (a : ℕ → Option A) (i j : ℕ) (v : Option A) → i ≢ j → store a i v j ≡ a j
  store_ne a i j v e = ground arith

  -- A write just past a window extends it.
  window-store :
      (a : ℕ → Option A) (v : Option A) (n h i : ℕ)
      → h < capacity
      → n < capacity
      → i ≡ (h + n) % capacity
      → window (store a i v) h (suc n) ≡ window a h n ++ v ∷ []
  window-store a v zero h i hh hn e = ap (λ x. x ∷ []) (store_self a i h v (omega arith))
  window-store a v (suc n) h i hh hn e =
      ap₂ ◌∷◌ (store_ne a i h v (omega arith))
        (window-store a v n ((h + 1) % capacity) i (omega arith) (omega arith) (omega arith))

  pub init-IsValid : IsValid (init {A = A})
  unfolding init
  init-IsValid = omega arith

  push-IsValid : (q : WorkQueue A) (x : A) → IsValid q → IsValid (push q x).1
  unfolding push
  push-IsValid q x v = ground arith

  -- The abstract queue: the entries, oldest first.
  abbrev pub enqueue : List (Option A) → A → Bool × List (Option A)
  enqueue xs x = if ltb (length xs) capacity then (true, xs ++ some x ∷ []) else (false, xs)

  -- `none` for a caller that has to wait.
  abbrev pub dequeue : List (Option A) → Bool → Option (Option A × List (Option A))
  dequeue [] true = none
  dequeue [] false = some (none, [])
  dequeue (x ∷ xs) running = some (x, xs)

  abbrev pub observe : Popped A → Option (Option A × List (Option A))
  observe wait = none
  observe (returns x q) = some (x, contents q)

  -- In a valid queue `push` answers as the abstract queue does, and leaves the ring holding what the
  -- abstract queue holds: a full queue is refused and unchanged.
  pub push_refines :
      (q : WorkQueue A) (x : A)
      → IsValid q
      → let (done, q') = push q x in (done, contents q') ≡ enqueue (contents q) x
  unfolding push
  push_refines q x v = ground (
    arith,
    length-window q.items q.head q.count,
    window-store q.items (some x) q.count q.head q.tail,
  )

  dequeue-cons :
      (xs : List (Option A)) (x : Option A) (ys : List (Option A)) (b : Bool)
      → xs ≡ x ∷ ys
      → dequeue xs b ≡ some (x, ys)
  dequeue-cons [] x ys b e = cc
  dequeue-cons (z ∷ zs) x ys b e = cc

  window_of_zero : (a : ℕ → Option A) (h n : ℕ) → n ≡ 0 → window a h n ≡ []
  window_of_zero a h zero e = refl
  window_of_zero a h (suc n) e = absurd (omega arith)

  -- In a valid queue `pop` waits, returns NULL or returns the oldest entry as the abstract queue does,
  -- and leaves the ring holding the rest.
  pub pop_refines :
      (q : WorkQueue A) (running : Bool) → observe (pop q running) ≡ dequeue (contents q) running
  unfolding pop
  pop_refines q running =
      ground
        (arith, window_of_zero q.items q.head q.count, window_of_ne_zero q.items q.head q.count)

  record Inv (t : Trace A) : Type 0 where
    valid : IsValid t.queue
    order : map some t.accepted ≡ t.delivered ++ contents t.queue

  abbrev pub start : Trace A
  start = record { queue = init; accepted = []; delivered = [] }

  map-some-ne : (xs : List A) (ys zs : List (Option A)) → map some xs ≡ ys ++ none ∷ zs → ⊥
  map-some-ne [] [] zs e = cc
  map-some-ne [] (y ∷ ys) zs e = cc
  map-some-ne (x ∷ xs) [] zs e = cc
  map-some-ne (x ∷ xs) (y ∷ ys) zs e = map-some-ne xs ys zs (cc)

  pop-IsValid :
      (q : WorkQueue A) (running : Bool) (x : Option A) (q' : WorkQueue A)
      → IsValid q
      → pop q running ≡ returns x q'
      → IsValid q'
  unfolding pop
  pop-IsValid q running x q' v e = ground arith

  step-Inv : (t : Trace A) (o : Op A) → Inv t → Inv (step t o)
  unfolding step push pop
  step-Inv t (pushes x) v = ground (
    arith,
    push-IsValid t.queue x v.valid,
    push_refines t.queue x v.valid,
    map-append some t.accepted (x ∷ []),
    append_assoc t.delivered (contents t.queue) (some x ∷ []),
  )
  step-Inv t (pops running) v = ground (
    arith,
    window_of_zero t.queue.items t.queue.head t.queue.count,
    window_of_ne_zero t.queue.items t.queue.head t.queue.count,
    append_assoc t.delivered (t.queue.items t.queue.head ∷ [])
        (window t.queue.items ((t.queue.head + 1) % capacity) (t.queue.count - 1)),
    map-some-ne t.accepted t.delivered
        (window t.queue.items ((t.queue.head + 1) % capacity) (t.queue.count - 1)),
  )

  run-Inv : (t : Trace A) (os : List (Op A)) → Inv t → Inv (run t os)
  unfolding run
  run-Inv t [] v = v
  run-Inv t (o ∷ os) v = run-Inv (step t o) os (step-Inv t o v)

  -- Whatever the schedule of pushes and pops on a fresh queue, the items that were accepted are those
  -- that were handed out followed by those still queued, in order: none is lost, made up, repeated or
  -- overtaken, and no NULL is handed out as an item.
  pub run_fifo :
      (os : List (Op A))
      → let t = run start os in map some t.accepted ≡ t.delivered ++ contents t.queue
  unfolding init
  run_fifo os = (run-Inv start os (record { valid = init-IsValid; order = refl })).order
