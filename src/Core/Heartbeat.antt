-- ===== src/Core/Heartbeat.antt =====
-- src/core/heartbeat.c, heartbeat_schedule.c and heartbeat_dispatch.c: the periodic scheduler. Each
-- section under `g_hb_lock` is one function on the state; times are arguments. A callback and its
-- context are values that the scheduler only moves.
pub mod Names
pub mod Unique
pub mod Schedule
use miniweb.Prelude.{
  is_some, ℕ, zero, suc, ◌+◌, ◌-◌, ◌*◌, ◌/◌, ◌%◌, ◌^◌, Bool, true, false, not, ◌&&◌, ◌||◌, Option,
  none, some, List, [], ◌∷◌, ◌++◌, Bytes, ◌==◌, leb, ltb, length, if◌then◌else◌, str_eq,
}

-- HB_MAX_TASKS and HB_IDLE_WAIT_SEC
abbrev pub max_tasks : ℕ
max_tasks = 32

abbrev pub idle_wait_sec : ℕ
idle_wait_sec = 3600

-- `struct hb_task`
pub record Task (C X : Type 0) : Type 0 where
  pub name : Bytes
  pub period_sec : ℕ
  pub initial_delay_sec : ℕ
  pub cb : C
  pub ctx : X

-- What a caller hands to `heartbeat_register`: the name and the callback may be NULL.
pub record Request (C X : Type 0) : Type 0 where
  pub name : Option Bytes
  pub period_sec : ℕ
  pub initial_delay_sec : ℕ
  pub cb : Option C
  pub ctx : X

pub record Stats : Type 0 where
  pub runs : ℕ
  pub overruns : ℕ
  pub last_run : ℕ
  pub last_error : ℕ

abbrev pub zero_stats : Stats
zero_stats = record { runs = 0; overruns = 0; last_run = 0; last_error = 0 }

-- An active slot.
pub record Slot (C X : Type 0) : Type 0 where
  pub task : Task C X
  pub next_run : ℕ
  pub stats : Stats

-- `none` is a slot that is not active, of which nothing else is read.
abbrev pub Slots : Type 0 → Type 0 → Type 0
Slots C X = List (Option (Slot C X))

pub record Scheduler (C X : Type 0) : Type 0 where
  pub slots : Slots C X
  pub initialized : Bool
  pub running : Bool
  pub stop_requested : Bool
  pub drain_on_stop : Bool

-- `enum hb_register_result`
pub data Registered : Type 0 where
  error duplicate inserted : Registered

module _ {C X : Type 0} where
  pub no_slots : ℕ → Slots C X
  no_slots zero = []
  no_slots (suc n) = none ∷ no_slots n

  unfoldable pub heartbeat_init : Scheduler C X → Scheduler C X
  unfolding no_slots
  heartbeat_init s =
      if s.initialized then s else record s { slots = no_slots max_tasks; initialized = true }

  -- The first loop of `heartbeat_register`, and the searches of the others.
  unfoldable pub find_task : Slots C X → Bytes → Option (Slot C X)
  find_task [] name = none
  find_task (none ∷ slots) name = find_task slots name
  find_task (some s ∷ slots) name = if str_eq s.task.name name then some s else find_task slots name

  -- Its second loop; `none` if every slot is active.
  unfoldable pub insert_task : Slots C X → Slot C X → Option (Slots C X)
  insert_task [] new = none
  insert_task (none ∷ slots) new = some (some new ∷ slots)
  insert_task (some s ∷ slots) new = elim (insert_task slots new) [
    | none ↦ none
    | some slots' ↦ some (some s ∷ slots')
  ]

  -- `task` made from a request that has a name, a callback and a period.
  unfoldable pub valid_task : Option (Request C X) → Option (Task C X)
  valid_task none = none
  valid_task (some r) = elim r.name [
    | none ↦ none
    | some name ↦ elim r.cb [
      | none ↦ none
      | some cb ↦
          if r.period_sec == 0
          then none
          else some (record {
            name = name;
            period_sec = r.period_sec;
            initial_delay_sec = r.initial_delay_sec;
            cb = cb;
            ctx = r.ctx;
          })
    ]
  ]

  unfoldable pub register_task : Slots C X → Task C X → ℕ → Registered × Slots C X
  register_task slots task now = elim (find_task slots task.name) [
    | some s ↦ (duplicate, slots)
    | none ↦
        elim (insert_task slots
          (record { task = task; next_run = now + task.initial_delay_sec; stats = zero_stats })) [
            | none ↦ (error, slots)
            | some slots' ↦ (inserted, slots')
          ]
  ]

  unfoldable pub heartbeat_register :
      Scheduler C X → Option (Request C X) → ℕ → Registered × Scheduler C X
  heartbeat_register s request now = elim (valid_task request) [
    | none ↦ (error, s)
    | some task ↦
        let s' = heartbeat_init s in
        let (result, slots) = register_task s'.slots task now in
        (result, record s' { slots = slots })
  ]

  -- The loop of `heartbeat_unregister`: `memset` of the first slot with the name.
  unfoldable pub remove_task : Slots C X → Bytes → Slots C X
  remove_task [] name = []
  remove_task (none ∷ slots) name = none ∷ remove_task slots name
  remove_task (some s ∷ slots) name =
      if str_eq s.task.name name then none ∷ slots else some s ∷ remove_task slots name

  -- `false` is -1.
  unfoldable pub heartbeat_unregister : Scheduler C X → Option Bytes → Bool × Scheduler C X
  heartbeat_unregister s none = (false, s)
  heartbeat_unregister s (some name) =
      let s' = heartbeat_init s in
      (is_some (find_task s'.slots name), record s' { slots = remove_task s'.slots name })

  -- The loop of `heartbeat_update`.
  unfoldable pub update_task : Slots C X → Bytes → ℕ → ℕ → X → ℕ → Slots C X
  update_task [] name period delay ctx now = []
  update_task (none ∷ slots) name period delay ctx now =
      none ∷ update_task slots name period delay ctx now
  update_task (some s ∷ slots) name period delay ctx now =
      if str_eq s.task.name name
      then some (record s {
        task = record (s.task) { period_sec = period; initial_delay_sec = delay; ctx = ctx };
        next_run = now + delay;
      })
        ∷ slots
      else some s ∷ update_task slots name period delay ctx now

  unfoldable pub heartbeat_update :
      Scheduler C X → Option Bytes → ℕ → ℕ → X → ℕ → Bool × Scheduler C X
  heartbeat_update s none period delay ctx now = (false, s)
  heartbeat_update s (some name) period delay ctx now =
      if period == 0
      then (false, s)
      else let s' = heartbeat_init s in
        (
          is_some (find_task s'.slots name),
          record s' { slots = update_task s'.slots name period delay ctx now },
        )

  stats_of : Option (Slot C X) → Option Stats
  stats_of none = none
  stats_of (some s) = some s.stats

  -- `none` is -1; the destination is never NULL.
  unfoldable pub heartbeat_get_stats : Scheduler C X → Option Bytes → Option Stats × Scheduler C X
  unfolding stats_of
  heartbeat_get_stats s none = (none, s)
  heartbeat_get_stats s (some name) =
      let s' = heartbeat_init s in (stats_of (find_task s'.slots name), s')

  -- `heartbeat_start`; the flag is whether `pthread_create` succeeds.
  unfoldable pub heartbeat_start : Scheduler C X → Bool → Bool × Scheduler C X
  heartbeat_start s created =
      let s' = heartbeat_init s in
      if s'.running
      then (true, s')
      else if not created
      then (false, record s' { stop_requested = false; drain_on_stop = false })
      else (true, record s' { stop_requested = false; drain_on_stop = false; running = true })

  -- The section of `heartbeat_shutdown` before the join: the flag of the result is whether it joins.
  unfoldable pub request_shutdown : Scheduler C X → Bool → Bool × Scheduler C X
  request_shutdown s drain =
      let s' = heartbeat_init s in
      if s'.running
      then (true, record s' { stop_requested = true; drain_on_stop = drain })
      else (false, s')
