-- ===== src/Net/WorkQueue.antt =====
-- src/net/work_queue.c: the bounded queue between the dispatcher and the workers.
-- A call is one step, since its body holds `q->lock` throughout; `pthread_cond_wait` gives the lock
-- up, so a waiting `pop` is the outcome `wait`, after which the call is made again.
pub mod Fifo
use miniweb.Prelude.{
  ℕ, zero, suc, ◌+◌, ◌-◌, ◌%◌, Bool, true, false, ◌&&◌, Option, none, some, List, [], ◌∷◌, ◌++◌,
  ◌==◌, leb, if◌then◌else◌, store,
}

-- MINIWEB_QUEUE_CAPACITY
abbrev pub capacity : ℕ
capacity = 4096

-- `none` is NULL.
pub record WorkQueue (A : Type 0) : Type 0 where
  pub items : ℕ → Option A
  pub head : ℕ
  pub tail : ℕ
  pub count : ℕ

pub data Popped (A : Type 0) : Type 0 where
  wait : Popped A
  returns : Option A → WorkQueue A → Popped A

pub data Op (A : Type 0) : Type 0 where
  pushes : A → Op A
  pops : Bool → Op A

-- A schedule's queue, with the items accepted by it and those handed out, oldest first.
pub record Trace (A : Type 0) : Type 0 where
  pub queue : WorkQueue A
  pub accepted : List A
  pub delivered : List (Option A)

module _ {A : Type 0} where
  unfoldable pub init : WorkQueue A
  init = record { items = λ i. none; head = 0; tail = 0; count = 0 }

  -- `false` is the result -1.
  unfoldable pub push : WorkQueue A → A → Bool × WorkQueue A
  push q item = if leb capacity q.count then (false, q) else (
    true,
    record q {
      items = store q.items q.tail (some item);
      tail = (q.tail + 1) % capacity;
      count = q.count + 1;
    },
  )

  -- The flag is `*running`.
  unfoldable pub pop : WorkQueue A → Bool → Popped A
  pop q running =
      if q.count == 0 && running
      then wait
      else if q.count == 0
      then returns none q
      else returns (q.items q.head)
          (record q { head = (q.head + 1) % capacity; count = q.count - 1 })

  after_push : Trace A → A → Bool × WorkQueue A → Trace A
  after_push t x (true, q) = record t { queue = q; accepted = t.accepted ++ x ∷ [] }
  after_push t x (false, q) = record t { queue = q }

  after_pop : Trace A → Popped A → Trace A
  after_pop t wait = t
  after_pop t (returns none q) = record t { queue = q }
  after_pop t (returns (some x) q) = record t { queue = q; delivered = t.delivered ++ some x ∷ [] }

  pub step : Trace A → Op A → Trace A
  unfolding after_push after_pop
  step t (pushes x) = after_push t x (push t.queue x)
  step t (pops running) = after_pop t (pop t.queue running)

  pub run : Trace A → List (Op A) → Trace A
  run t [] = t
  run t (o ∷ os) = run (step t o) os
