-- ===== src/Core/Heartbeat/Names.antt =====
-- The task table as a map from names: what registration, removal and update do to a lookup, and that
-- no two active slots ever share a name.
use miniweb.Prelude.{
  ℕ, suc, length, ap, ◌+◌, ◌≡◌, refl, Bool, true, false, inl, inr, Option, none, some, [], ◌∷◌,
  Bytes, arith, str_eq, str_eq_iff, is_some, if◌then◌else◌, Option-cases,
}
use miniweb.Core.Heartbeat.{
  Task, Slot, Slots, Registered, error, duplicate, inserted, zero_stats, find_task, insert_task,
  register_task, remove_task, update_task,
}

module _ {C X : Type 0} where
  -- No two active slots share a name.
  abbrev pub Unique : Slots C X → Type 0
  Unique [] = Unit
  Unique (none ∷ slots) = Unique slots
  Unique (some s ∷ slots) = (find_task slots s.task.name ≡ none) × Unique slots

  pub find-insert :
      (slots : Slots C X) (new : Slot C X) (slots' : Slots C X) (name : Bytes)
      → find_task slots new.task.name ≡ none
      → insert_task slots new ≡ some slots'
      → find_task slots' name
        ≡ (if str_eq new.task.name name then some new else find_task slots name)
  unfolding find_task insert_task
  find-insert [] new slots' name f e = cc
  find-insert (none ∷ slots) new slots' name f e = let e' : slots' ≡ some new ∷ slots = cc in rw e'
  find-insert (some s ∷ slots) new slots' name f e = elim (Option-cases (insert_task slots new)) [
    | inl full ↦ absurd (ground (arith, full))
    | inr (rest, more) ↦
        let e' : slots' ≡ some s ∷ rest = ground (arith, more) in
        rw e' (
          ground (
            arith,
            find-insert slots new rest name,
            str_eq_iff s.task.name new.task.name,
            str_eq_iff s.task.name name,
            str_eq_iff new.task.name name,
          ))
  ]

  pub Unique-insert :
      (slots : Slots C X) (new : Slot C X) (slots' : Slots C X)
      → find_task slots new.task.name ≡ none
      → Unique slots
      → insert_task slots new ≡ some slots'
      → Unique slots'
  unfolding find_task insert_task
  Unique-insert [] new slots' f u e = cc
  Unique-insert (none ∷ slots) new slots' f u e =
      let e' : slots' ≡ some new ∷ slots = cc in rw e' (f, u)
  Unique-insert (some s ∷ slots) new slots' f u e = elim (Option-cases (insert_task slots new)) [
    | inl full ↦ absurd (ground (arith, full))
    | inr (rest, more) ↦
        let e' : slots' ≡ some s ∷ rest = ground (arith, more) in
        rw e' (
          ground (
            arith,
            u.0,
            find-insert slots new rest s.task.name,
            str_eq_iff s.task.name new.task.name,
            str_eq_iff new.task.name s.task.name,
          ),
          Unique-insert slots new rest (ground arith) u.1 more,
        )
  ]

  pub find-remove :
      (slots : Slots C X) (name other : Bytes)
      → Unique slots
      → find_task (remove_task slots name) other
        ≡ (if str_eq name other then none else find_task slots other)
  unfolding find_task remove_task
  find-remove [] name other u = ground arith
  find-remove (none ∷ slots) name other u = find-remove slots name other u
  find-remove (some s ∷ slots) name other u = ground (
    arith,
    find-remove slots name other u.1,
    u.0,
    str_eq_iff s.task.name name,
    str_eq_iff s.task.name other,
    str_eq_iff name other,
  )

  pub Unique-remove :
      (slots : Slots C X) (name : Bytes) → Unique slots → Unique (remove_task slots name)
  unfolding remove_task
  Unique-remove [] name u = tt
  Unique-remove (none ∷ slots) name u = Unique-remove slots name u
  Unique-remove (some s ∷ slots) name u =
      ground (arith, find-remove slots name s.task.name u.1, Unique-remove slots name u.1, u.0, u.1)

  -- A slot after `heartbeat_update`.
  abbrev pub updated : Slot C X → ℕ → ℕ → X → ℕ → Slot C X
  updated s period delay ctx now = record s {
    task = record (s.task) { period_sec = period; initial_delay_sec = delay; ctx = ctx };
    next_run = now + delay;
  }

  abbrev pub updated? : Option (Slot C X) → ℕ → ℕ → X → ℕ → Option (Slot C X)
  updated? none period delay ctx now = none
  updated? (some s) period delay ctx now = some (updated s period delay ctx now)

  module _ (name : Bytes) (period delay : ℕ) (ctx : X) (now : ℕ) where
    pub find-update :
        (slots : Slots C X) (other : Bytes)
        → find_task (update_task slots name period delay ctx now) other ≡ (
            if str_eq name other
            then updated? (find_task slots other) period delay ctx now
            else find_task slots other)
    unfolding find_task update_task
    find-update [] other = ground arith
    find-update (none ∷ slots) other = find-update slots other
    find-update (some s ∷ slots) other = ground (
      arith,
      find-update slots other,
      str_eq_iff s.task.name name,
      str_eq_iff s.task.name other,
      str_eq_iff name other,
    )

    pub Unique-update :
        (slots : Slots C X) → Unique slots → Unique (update_task slots name period delay ctx now)
    unfolding update_task
    Unique-update [] u = tt
    Unique-update (none ∷ slots) u = Unique-update slots u
    Unique-update (some s ∷ slots) u =
        ground (arith, find-update slots s.task.name, Unique-update slots u.1, u.0, u.1)

  -- Whether a slot is free.
  abbrev pub has_room : Slots C X → Bool
  has_room [] = false
  has_room (none ∷ slots) = true
  has_room (some s ∷ slots) = has_room slots

  insert-has_room :
      (slots : Slots C X) (new : Slot C X) → is_some (insert_task slots new) ≡ has_room slots
  unfolding insert_task
  insert-has_room [] new = refl
  insert-has_room (none ∷ slots) new = refl
  insert-has_room (some s ∷ slots) new = ground (arith, insert-has_room slots new)

  length-insert :
      (slots : Slots C X) (new : Slot C X) (slots' : Slots C X)
      → insert_task slots new ≡ some slots'
      → length slots' ≡ length slots
  unfolding insert_task
  length-insert [] new slots' e = cc
  length-insert (none ∷ slots) new slots' e = let e' : slots' ≡ some new ∷ slots = cc in rw e' refl
  length-insert (some s ∷ slots) new slots' e = elim (Option-cases (insert_task slots new)) [
    | inl full ↦ absurd (ground (arith, full))
    | inr (rest, more) ↦
        let e' : slots' ≡ some s ∷ rest = ground (arith, more) in
        rw e' (ap suc (length-insert slots new rest more))
  ]

  abbrev pub fresh_slot : Task C X → ℕ → Slot C X
  fresh_slot task now = record {
    task = task;
    next_run = now + task.initial_delay_sec;
    stats = zero_stats;
  }

  -- What the status of a registration says: a duplicate was there and stays as it is; an error means
  -- that the name is new and every slot is active, and changes nothing; and an inserted task had a new
  -- name and a free slot, and is found under its name in a table of the same size, first due after its
  -- delay and with zero counters, beside all others.
  abbrev pub Registers : Slots C X → Task C X → ℕ → Registered × Slots C X → Type 0
  Registers slots task now (duplicate, slots') =
      (is_some (find_task slots task.name) ≡ true) × (slots' ≡ slots)
  Registers slots task now (error, slots') =
      (find_task slots task.name ≡ none) × (has_room slots ≡ false) × (slots' ≡ slots)
  Registers slots task now (inserted, slots') =
      (find_task slots task.name ≡ none)
      × (has_room slots ≡ true)
      × (length slots' ≡ length slots)
      × ((name : Bytes)
          → find_task slots' name
            ≡ (if str_eq task.name name then some (fresh_slot task now) else find_task slots name))

  -- A registration is refused as a duplicate exactly if the name is taken, fails exactly if it is not and
  -- no slot is free, and otherwise adds the task under its name, in a table of the same size, and changes
  -- no other; a refused one and one that fails change nothing.
  pub register_task-Registers :
      (slots : Slots C X) (task : Task C X) (now : ℕ)
      → Registers slots task now (register_task slots task now)
  unfolding register_task
  register_task-Registers slots task now = elim (Option-cases (find_task slots task.name)) [
    | inr (s, old) ↦ rw (old, register_task) (rw old, refl)
    | inl new ↦ elim (Option-cases (insert_task slots (fresh_slot task now))) [
      | inl full ↦
          rw (new, full, register_task)
            (new, ground (arith, insert-has_room slots (fresh_slot task now), full), refl)
      | inr (slots', found) ↦
          rw (new, found, register_task)
            (
              new,
              ground (arith, insert-has_room slots (fresh_slot task now), found),
              length-insert slots (fresh_slot task now) slots' found,
              λ name. find-insert slots (fresh_slot task now) slots' name new found,
            )
    ]
  ]
