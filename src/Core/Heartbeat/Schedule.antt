-- ===== src/Core/Heartbeat/Schedule.antt =====
-- src/core/heartbeat_schedule.c, heartbeat_dispatch.c and the thread of heartbeat.c: which tasks are
-- due, and the scheduler's thread as a machine whose steps are its sections under the lock.
pub mod Due
pub mod Thread
use miniweb.Prelude.{
  ℕ, zero, suc, ◌+◌, ◌-◌, ◌*◌, ◌/◌, ◌%◌, ◌^◌, Bool, true, false, not, ◌&&◌, ◌||◌, Option, none,
  some, List, [], ◌∷◌, ◌++◌, ◌==◌, leb, ltb, length, if◌then◌else◌,
}
use miniweb.Core.Heartbeat.{Task, Slot, Slots, Scheduler, Stats, max_tasks, idle_wait_sec}

-- `collect_due` and `collect_all` return the slots, `*wake_at` and the batch.
pub record Collected (C X : Type 0) : Type 0 where
  pub slots : Slots C X
  pub wake_at : ℕ
  pub todo : List (Task C X)

-- Where the thread stands: before a round, before the final collection, before it reports that it has
-- stopped, and behind its loop.
pub data Phase : Type 0 where
  collecting draining stopping ended : Phase

-- What one step does: the tasks that are run after it, and for how long the thread may sleep.
pub record Turn (C X : Type 0) : Type 0 where
  pub phase : Phase
  pub state : Scheduler C X
  pub ran : List (Task C X)
  pub sleeps : Option ℕ

-- `*wake_at` after a slot.
abbrev pub wake_with : ℕ → ℕ → ℕ
wake_with wake_at next_run = if wake_at == 0 || ltb next_run wake_at then next_run else wake_at

-- How many seconds ahead the deadline of `hb_wait_for_next_tick` lies.
unfoldable pub hb_wait_seconds : ℕ → ℕ → ℕ
hb_wait_seconds now wake_at =
    if not (wake_at == 0) && ltb now wake_at
    then wake_at - now
    else if wake_at == 0
    then idle_wait_sec
    else 0

module _ {C X : Type 0} where
  -- `hb_batch_push`
  unfoldable pub hb_batch_push : List (Task C X) → Task C X → List (Task C X)
  hb_batch_push batch task = if leb max_tasks (length batch) then batch else batch ++ task ∷ []

  unfoldable pub missed_periods : ℕ → Slot C X → ℕ
  missed_periods now s =
      let period = s.task.period_sec in
      let elapsed = now - s.next_run in
      if ltb 0 period && ltb 0 elapsed then elapsed / period else 0

  -- A slot whose task is due, after its round of `hb_collect_due_tasks`.
  unfoldable pub advance : ℕ → Slot C X → Slot C X
  unfolding missed_periods
  advance now s =
      let missed = missed_periods now s in
      record s {
        next_run = s.next_run + (missed + 1) * s.task.period_sec % 2 ^ 64;
        stats = record {
          runs = (s.stats.runs + 1) % 2 ^ 64;
          overruns = (s.stats.overruns + missed) % 2 ^ 64;
          last_run = now;
          last_error = 0;
        };
      }

  -- The loop of `hb_collect_due_tasks`.
  unfoldable pub hb_collect_due_tasks : ℕ → Slots C X → ℕ → List (Task C X) → Collected C X
  hb_collect_due_tasks now [] wake_at todo = record { slots = []; wake_at = wake_at; todo = todo }
  hb_collect_due_tasks now (none ∷ slots) wake_at todo =
      let c = hb_collect_due_tasks now slots wake_at todo in record c { slots = none ∷ c.slots }
  hb_collect_due_tasks now (some s ∷ slots) wake_at todo =
      let due = leb s.next_run now in
      let c =
        hb_collect_due_tasks now slots (wake_with wake_at s.next_run)
          (if due then hb_batch_push todo s.task else todo) in
      record c { slots = some (if due then advance now s else s) ∷ c.slots }

  count_run : ℕ → Slot C X → Slot C X
  count_run now s = record s {
    stats = record (s.stats) { runs = (s.stats.runs + 1) % 2 ^ 64; last_run = now; last_error = 0 };
  }

  unfoldable pub hb_collect_all_active :
      ℕ → Slots C X → List (Task C X) → Slots C X × List (Task C X)
  unfolding count_run
  hb_collect_all_active now [] todo = ([], todo)
  hb_collect_all_active now (none ∷ slots) todo =
      let (slots', todo') = hb_collect_all_active now slots todo in (none ∷ slots', todo')
  hb_collect_all_active now (some s ∷ slots) todo =
      let (slots', todo') = hb_collect_all_active now slots (hb_batch_push todo s.task) in
      (some (count_run now s) ∷ slots', todo')

  unfoldable pub hb_mark_stopped : Scheduler C X → Scheduler C X
  hb_mark_stopped s = record s { running = false; stop_requested = false; drain_on_stop = false }

  after_collect : ℕ → Scheduler C X → Collected C X → Turn C X
  after_collect now s c =
      let s' = record s { slots = c.slots } in
      if length c.todo == 0 && not s.stop_requested
      then record {
        phase = collecting;
        state = s';
        ran = [];
        sleeps = some (hb_wait_seconds now c.wake_at);
      }
      else record {
        phase =
            if s.stop_requested
            then (if s.drain_on_stop then draining else stopping)
            else collecting;
        state = s';
        ran = c.todo;
        sleeps = none;
      }

  unfoldable pub thread_step : ℕ → Phase → Scheduler C X → Turn C X
  unfolding after_collect hb_wait_seconds hb_mark_stopped
  thread_step now collecting s = after_collect now s (hb_collect_due_tasks now s.slots 0 [])
  thread_step now draining s =
      let (slots, todo) = hb_collect_all_active now s.slots [] in
      record { phase = stopping; state = record s { slots = slots }; ran = todo; sleeps = none }
  thread_step now stopping s = record {
    phase = ended;
    state = hb_mark_stopped s;
    ran = [];
    sleeps = none;
  }
  thread_step now ended s = record { phase = ended; state = s; ran = []; sleeps = none }
