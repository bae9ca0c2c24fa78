-- ===== src/Core/Heartbeat/Schedule/Thread.antt =====
-- The scheduler's thread: when it sleeps, and how it stops.
use miniweb.Prelude.{
  ℕ, suc, ◌+◌, ◌≤◌, ◌<◌, ◌≡◌, refl, sym, ◌∙◌, ap, ap₂, true, false, inl, inr, none, some, List, [],
  ◌∷◌, ◌++◌, arith, length, length-append,
}
use mathlib.Core.List.{append_assoc, append-nil}
use miniweb.Core.Heartbeat.{Task, Slots, Scheduler, max_tasks, request_shutdown, heartbeat_init}
use miniweb.Core.Heartbeat.Schedule.{
  advance, Collected, collecting, ended, Turn, after_collect, hb_batch_push, hb_collect_due_tasks,
  hb_collect_all_active, hb_mark_stopped, hb_wait_seconds, thread_step,
}
use miniweb.Core.Heartbeat.Schedule.Due.{
  due_tasks, Each, Earliest, collect-todo, none_due, collect-wake,
}

module _ {C X : Type 0} where
  wait_short :
      (now e : ℕ) (slots : Slots C X)
      → Earliest now 0 e slots
      → (0 < hb_wait_seconds now e) × Each (λ s. now + hb_wait_seconds now e ≤ s.next_run) slots
  unfolding hb_wait_seconds
  wait_short now e slots (inl (z, y, n)) = (ground arith, nothing slots n)
    where
      nothing :
          (slots : Slots C X)
          → Each (λ s. ⊥) slots
          → Each (λ s. now + hb_wait_seconds now e ≤ s.next_run) slots
      nothing [] n = tt
      nothing (none ∷ slots) n = nothing slots n
      nothing (some s ∷ slots) n = absurd n.0
  wait_short now e slots (inr (l, b, m)) = (ground arith, all slots b)
    where
      all :
          (slots : Slots C X)
          → Each (λ s. e ≤ s.next_run) slots
          → Each (λ s. now + hb_wait_seconds now e ≤ s.next_run) slots
      all [] b = tt
      all (none ∷ slots) b = all slots b
      all (some s ∷ slots) b = (ground arith, all slots b.1)

  eq_nil : (xs : List (Task C X)) → length xs ≡ 0 → xs ≡ []
  eq_nil [] e = refl
  eq_nil (x ∷ xs) e = absurd (omega arith)

  -- With at most 32 slots, if the thread sleeps, no stop was requested, nothing was due, and the sleep is positive and ends no
  -- later than the next deadline of any active task.
  pub thread_sleeps :
      (now t : ℕ) (s : Scheduler C X)
      → length s.slots ≤ max_tasks
      → (thread_step now collecting s).sleeps ≡ some t
      → (s.stop_requested ≡ false)
        × (due_tasks now s.slots ≡ [])
        × (0 < t)
        × Each (λ x. now + t ≤ x.next_run) s.slots
  unfolding thread_step after_collect
  thread_sleeps now t s room e = (
    ground arith,
    nothing_due,
    rw waits at (wait_short now c.wake_at s.slots early).0,
    rw waits at (wait_short now c.wake_at s.slots early).1,
  )
    where
      c : Collected C X
      c = hb_collect_due_tasks now s.slots 0 []

      waits : hb_wait_seconds now c.wake_at ≡ t
      waits = ground arith

      nothing_due : due_tasks now s.slots ≡ []
      nothing_due = sym (collect-todo now s.slots 0 [] (omega arith)) ∙ eq_nil c.todo (ground arith)

      early : Earliest now 0 c.wake_at s.slots
      early = collect-wake now s.slots 0 [] (inl refl) (none_due now s.slots nothing_due)

  -- The tasks of the active slots, in slot order.
  pub active_tasks : Slots C X → List (Task C X)
  active_tasks [] = []
  active_tasks (none ∷ slots) = active_tasks slots
  active_tasks (some s ∷ slots) = s.task ∷ active_tasks slots

  collect_all-todo :
      (now : ℕ) (slots : Slots C X) (todo : List (Task C X))
      → length todo + length slots ≤ max_tasks
      → (hb_collect_all_active now slots todo).1 ≡ todo ++ active_tasks slots
  unfolding hb_collect_all_active active_tasks hb_batch_push
  collect_all-todo now [] todo h = rw append-nil
  collect_all-todo now (none ∷ slots) todo h = collect_all-todo now slots todo (omega arith)
  collect_all-todo now (some s ∷ slots) todo h = ground (
    arith,
    append_assoc todo (s.task ∷ []) (active_tasks slots),
    length-append todo (s.task ∷ []),
    collect_all-todo now slots (todo ++ s.task ∷ []),
  )

  active_tasks-collect :
      (now : ℕ) (slots : Slots C X) (w : ℕ) (todo : List (Task C X))
      → active_tasks (hb_collect_due_tasks now slots w todo).slots ≡ active_tasks slots
  unfolding hb_collect_due_tasks active_tasks advance
  active_tasks-collect now [] w todo = refl
  active_tasks-collect now (none ∷ slots) w todo = active_tasks-collect now slots w todo
  active_tasks-collect now (some s ∷ slots) w todo =
      ap₂ ◌∷◌ (ground arith) (active_tasks-collect now slots _ _)

  length-collect :
      (now : ℕ) (slots : Slots C X) (w : ℕ) (todo : List (Task C X))
      → length (hb_collect_due_tasks now slots w todo).slots ≡ length slots
  unfolding hb_collect_due_tasks
  length-collect now [] w todo = refl
  length-collect now (none ∷ slots) w todo = ap suc (length-collect now slots w todo)
  length-collect now (some s ∷ slots) w todo = ap suc (length-collect now slots _ _)

  -- The thread's next three steps, if no other thread takes the lock in between.
  pub three_steps : ℕ → ℕ → ℕ → Scheduler C X → Turn C X × Turn C X × Turn C X
  three_steps first second third s =
      let a = thread_step first collecting s in
      let b = thread_step second a.phase a.state in (a, b, thread_step third b.phase b.state)

  -- If a running, initialised scheduler with at most 32 slots is told to shut down with draining, and no
  -- other thread takes the lock in between, then the thread's next three steps run the tasks that are
  -- due, then every active task once more, and report that it has stopped; none of them sleeps.
  pub shutdown_drains :
      (first second third : ℕ) (s : Scheduler C X)
      → s.running ≡ true
      → s.initialized ≡ true
      → length s.slots ≤ max_tasks
      → let (joins, s') = request_shutdown s true in
        let (a, b, c) = three_steps first second third s' in
        (joins ≡ true)
        × (a.ran ≡ due_tasks first s.slots)
        × (b.ran ≡ active_tasks s.slots)
        × (a.sleeps ≡ none)
        × (b.sleeps ≡ none)
        × (c.sleeps ≡ none)
        × (c.phase ≡ ended)
        × (c.state.running ≡ false)
        × (c.state.stop_requested ≡ false)
  unfolding three_steps request_shutdown heartbeat_init thread_step after_collect hb_mark_stopped
  shutdown_drains first second third s run init room =
      let slots = (hb_collect_due_tasks first s.slots 0 []).slots in
      ground (
        arith,
        run,
        init,
        collect-todo first s.slots 0 [],
        length-collect first s.slots 0 [],
        active_tasks-collect first s.slots 0 [],
        collect_all-todo second slots [],
      )
