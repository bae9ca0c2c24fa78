-- ===== src/Core/Heartbeat/Schedule/Due.antt =====
-- Which tasks a collection takes, and when the next one is due.
use miniweb.Prelude.{
  ℕ, ◌+◌, ◌-◌, ◌*◌, ◌/◌, ◌%◌, ◌^◌, ◌≤◌, ◌<◌, ◌≡◌, ◌⊎◌, inl, inr, none, some, List, [], ◌∷◌, ◌++◌,
  arith, leb, length, length-append, if◌then◌else◌, Bool-cases,
}
use mathlib.Core.List.{append_assoc, append-nil}
use miniweb.Core.Heartbeat.{Task, Slot, Slots, max_tasks}
use miniweb.Core.Heartbeat.Schedule.{
  hb_batch_push, missed_periods, advance, wake_with, hb_collect_due_tasks,
}

-- The first multiple of `p` above `e`.
span :
    (e p : ℕ)
    → 0 < p
    → p < 2 ^ 32
    → e < 2 ^ 63
    → (e < (e / p + 1) * p % 2 ^ 64) × ((e / p + 1) * p % 2 ^ 64 ≤ e + p)
span e p pos small time =
    let whole : (e / p + 1) * p ≡ e - e % p + p = grind arith in
    let rest : e % p < p = grind arith in rw whole (omega arith, omega arith)

module _ {C X : Type 0} where
  -- The tasks of the slots that are due, in slot order.
  pub due_tasks : ℕ → Slots C X → List (Task C X)
  due_tasks now [] = []
  due_tasks now (none ∷ slots) = due_tasks now slots
  due_tasks now (some s ∷ slots) =
      if leb s.next_run now then s.task ∷ due_tasks now slots else due_tasks now slots

  pub collect-todo :
      (now : ℕ) (slots : Slots C X) (wake_at : ℕ) (todo : List (Task C X))
      → length todo + length slots ≤ max_tasks
      → (hb_collect_due_tasks now slots wake_at todo).todo ≡ todo ++ due_tasks now slots
  unfolding hb_collect_due_tasks due_tasks hb_batch_push
  collect-todo now [] wake_at todo h = rw append-nil
  collect-todo now (none ∷ slots) wake_at todo h = collect-todo now slots wake_at todo (omega arith)
  collect-todo now (some s ∷ slots) wake_at todo h = elim (Bool-cases (leb s.next_run now)) [
    | inl due ↦ ground (
      arith,
      due,
      append_assoc todo (s.task ∷ []) (due_tasks now slots),
      length-append todo (s.task ∷ []),
      collect-todo now slots (wake_with wake_at s.next_run) (todo ++ s.task ∷ []),
    )
    | inr later ↦ ground (arith, later, collect-todo now slots (wake_with wake_at s.next_run) todo)
  ]

  -- A due task is put after now, by a whole number of its periods: (1 + missed) of them.
  advance-after :
      (now : ℕ) (s : Slot C X)
      → 0 < s.task.period_sec
      → s.task.period_sec < 2 ^ 32
      → now < 2 ^ 63
      → s.next_run ≤ now
      → (now < (advance now s).next_run) × ((advance now s).next_run ≤ now + s.task.period_sec)
  unfolding advance missed_periods
  advance-after now s pos small time due = ground (arith, span (now - s.next_run) s.task.period_sec)

  -- A predicate on the active slots.
  abbrev pub Each : (Slot C X → Type 0) → Slots C X → Type 0
  Each P [] = Unit
  Each P (none ∷ slots) = Each P slots
  Each P (some s ∷ slots) = P s × Each P slots

  -- The period of a registered task is a positive `unsigned int`.
  abbrev pub HasPeriod : Slot C X → Type 0
  HasPeriod s = (0 < s.task.period_sec) × (s.task.period_sec < 2 ^ 32)

  collect-next :
      (now : ℕ) (slots : Slots C X) (wake_at : ℕ) (todo : List (Task C X))
      → now < 2 ^ 63
      → Each HasPeriod slots
      → Each (λ s. now < s.next_run) (hb_collect_due_tasks now slots wake_at todo).slots
  unfolding hb_collect_due_tasks
  collect-next now [] wake_at todo time h = tt
  collect-next now (none ∷ slots) wake_at todo time h = collect-next now slots wake_at todo time h
  collect-next now (some s ∷ slots) wake_at todo time h =
      (ground (arith, advance-after now s h.0.0 h.0.1 time), collect-next now slots _ _ time h.1)

  -- At a time below 2 ^ 63, with at most 32 slots whose periods are positive and fit in 32 bits, one
  -- collection takes exactly the tasks that are due, each once and in slot order, and afterwards no
  -- active task is due: the batch does not overflow, and no task is run twice for one deadline.
  pub hb_collect_due_lem :
      (now : ℕ) (slots : Slots C X)
      → length slots ≤ max_tasks
      → now < 2 ^ 63
      → Each HasPeriod slots
      → let c = hb_collect_due_tasks now slots 0 [] in
        (c.todo ≡ due_tasks now slots) × Each (λ s. now < s.next_run) c.slots
  hb_collect_due_lem now slots room time h =
      (collect-todo now slots 0 [] (omega arith), collect-next now slots 0 [] time h)

  pub none_due :
      (now : ℕ) (slots : Slots C X) → due_tasks now slots ≡ [] → Each (λ s. now < s.next_run) slots
  unfolding due_tasks
  none_due now [] e = tt
  none_due now (none ∷ slots) e = none_due now slots e
  none_due now (some s ∷ slots) e = elim (Bool-cases (leb s.next_run now)) [
    | inl due ↦ absurd (ground (arith, due))
    | inr later ↦ (ground (arith, later), none_due now slots (ground (arith, later)))
  ]

  -- What the wake-up time `e` says of the slots, if the search begins at `w`.
  abbrev pub Earliest : ℕ → ℕ → ℕ → Slots C X → Type 0
  Earliest now w e slots =
      ((e ≡ 0) × (w ≡ 0) × Each (λ s. ⊥) slots)
      ⊎ ((now < e) × Each (λ s. e ≤ s.next_run) slots × (0 < w → e ≤ w))

  Earliest-cons :
      (now w e : ℕ) (s : Slot C X) (slots : Slots C X)
      → now < s.next_run
      → Earliest now (wake_with w s.next_run) e slots
      → Earliest now w e (some s ∷ slots)
  Earliest-cons now w e s slots h (inl (z, y, n)) = absurd (ground arith)
  Earliest-cons now w e s slots h (inr (l, b, m)) =
      inr (l, (ground (arith, m), b), λ p. ground (arith, m))

  pub collect-wake :
      (now : ℕ) (slots : Slots C X) (w : ℕ) (todo : List (Task C X))
      → (w ≡ 0) ⊎ (now < w)
      → Each (λ s. now < s.next_run) slots
      → Earliest now w (hb_collect_due_tasks now slots w todo).wake_at slots
  unfolding hb_collect_due_tasks
  collect-wake now [] w todo (inl z) h = inl (z, z, tt)
  collect-wake now [] w todo (inr l) h = inr (l, tt, λ p. omega arith)
  collect-wake now (none ∷ slots) w todo z h = collect-wake now slots w todo z h
  collect-wake now (some s ∷ slots) w todo z h =
      Earliest-cons now w _ s slots h.0
        (collect-wake now slots (wake_with w s.next_run) _ (inr (ground arith)) h.1)
