-- ===== src/Examples/Core.antt =====
-- A table with one task, and the thread on it.
use miniweb.Prelude.{
  ℕ, ◌≡◌, refl, ◌<◌, ◌≤◌, true, false, none, some, List, [], ◌∷◌, ◌+◌, arith, codes, length,
}
use miniweb.Core.Heartbeat.{
  Task, Slots, Scheduler, register_task, no_slots, max_tasks, zero_stats, request_shutdown,
}
use miniweb.Core.Heartbeat.Names.{Registers, Unique, register_task-Registers}
use miniweb.Core.Heartbeat.Unique.{Op, registers, unregisters, apply_all, apply_all-Unique}
use miniweb.Core.Heartbeat.Schedule.{
  hb_collect_due_tasks, thread_step, collecting, ended, hb_wait_seconds,
}
use miniweb.Core.Heartbeat.Schedule.Due.{due_tasks, Each, hb_collect_due_lem}
use miniweb.Core.Heartbeat.Schedule.Thread.{
  three_steps, active_tasks, thread_sleeps, shutdown_drains,
}

-- The ring of metrics is sampled every five seconds.
abbrev sampling : Task ℕ ℕ
sampling = record { name = codes "metrics"; period_sec = 5; initial_delay_sec = 0; cb = 1; ctx = 0 }

abbrev sampled : Slots ℕ ℕ
sampled = some (record { task = sampling; next_run = 100; stats = zero_stats }) ∷ none ∷ []

abbrev scheduler : Scheduler ℕ ℕ
scheduler = record {
  slots = sampled;
  initialized = true;
  running = true;
  stop_requested = false;
  drain_on_stop = false;
}

register_task-Registers_example : Registers sampled sampling 90 (register_task sampled sampling 90)
register_task-Registers_example = register_task-Registers sampled sampling 90

abbrev changes : List (Op ℕ ℕ)
changes = registers sampling 95 ∷ registers sampling 96 ∷ unregisters (codes "logs") ∷ []

apply_all-Unique_example :
    let slots = apply_all (no_slots max_tasks) changes in Unique slots × (length slots ≡ max_tasks)
apply_all-Unique_example = apply_all-Unique changes

hb_collect_due_lem_example :
    let c = hb_collect_due_tasks 112 sampled 0 [] in
    (c.todo ≡ due_tasks 112 sampled) × Each (λ s. 112 < s.next_run) c.slots
hb_collect_due_lem_example =
    hb_collect_due_lem 112 sampled (omega arith) (omega arith) ((omega arith, omega arith), tt)

sleeps_until_due : (thread_step 90 collecting scheduler).sleeps ≡ some 10
unfolding thread_step hb_collect_due_tasks hb_wait_seconds
sleeps_until_due = refl

thread_sleeps_example :
    (scheduler.stop_requested ≡ false)
    × (due_tasks 90 sampled ≡ [])
    × (0 < 10)
    × Each (λ x. 90 + 10 ≤ x.next_run) sampled
thread_sleeps_example = thread_sleeps 90 10 scheduler (omega arith) sleeps_until_due

shutdown_drains_example :
    let (joins, s') = request_shutdown scheduler true in
    let (a, b, c) = three_steps 101 102 103 s' in
    (joins ≡ true)
    × (a.ran ≡ due_tasks 101 sampled)
    × (b.ran ≡ active_tasks sampled)
    × (a.sleeps ≡ none)
    × (b.sleeps ≡ none)
    × (c.sleeps ≡ none)
    × (c.phase ≡ ended)
    × (c.state.running ≡ false)
    × (c.state.stop_requested ≡ false)
shutdown_drains_example = shutdown_drains 101 102 103 scheduler refl refl (omega arith)
