-- ===== src/Core/Heartbeat/Unique.antt =====
-- The table after a history of registrations, removals and updates.
use miniweb.Prelude.{
  ℕ, zero, suc, ◌≡◌, refl, ap, ◌∙◌, inl, inr, none, some, List, [], ◌∷◌, Bytes, arith, length,
  Option-cases,
}
use miniweb.Core.Heartbeat.{
  Task, Slot, Slots, max_tasks, no_slots, find_task, insert_task, register_task, remove_task,
  update_task,
}
use miniweb.Core.Heartbeat.Names.{Unique, Unique-insert, Unique-remove, Unique-update, fresh_slot}

pub data Op (C X : Type 0) : Type 0 where
  registers : Task C X → ℕ → Op C X
  unregisters : Bytes → Op C X
  updates : Bytes → ℕ → ℕ → X → ℕ → Op C X

no_slots-Unique :
    (C X : Type 0) (n : ℕ)
    → Unique (no_slots {C = C} {X = X} n) × (length (no_slots {C = C} {X = X} n) ≡ n)
unfolding no_slots
no_slots-Unique C X zero = (tt, refl)
no_slots-Unique C X (suc n) = let r = no_slots-Unique C X n in (r.0, ap suc r.1)

module _ {C X : Type 0} where
  pub apply : Slots C X → Op C X → Slots C X
  apply slots (registers task now) = (register_task slots task now).1
  apply slots (unregisters name) = remove_task slots name
  apply slots (updates name period delay ctx now) = update_task slots name period delay ctx now

  pub apply_all : Slots C X → List (Op C X) → Slots C X
  apply_all slots [] = slots
  apply_all slots (o ∷ os) = apply_all (apply slots o) os

  record Inv (slots : Slots C X) : Type 0 where
    unique : Unique slots
    size : length slots ≡ max_tasks

  length-insert :
      (slots : Slots C X) (new : Slot C X) (slots' : Slots C X)
      → insert_task slots new ≡ some slots'
      → length slots' ≡ length slots
  unfolding insert_task
  length-insert [] new slots' e = cc
  length-insert (none ∷ slots) new slots' e = let e' : slots' ≡ some new ∷ slots = cc in rw e'
  length-insert (some s ∷ slots) new slots' e = elim (Option-cases (insert_task slots new)) [
    | inl full ↦ absurd (ground (arith, full))
    | inr (rest, more) ↦
        let e' : slots' ≡ some s ∷ rest = ground (arith, more) in
        rw e' (ap suc (length-insert slots new rest more))
  ]

  length-remove :
      (slots : Slots C X) (name : Bytes) → length (remove_task slots name) ≡ length slots
  unfolding remove_task
  length-remove [] name = refl
  length-remove (none ∷ slots) name = ap suc (length-remove slots name)
  length-remove (some s ∷ slots) name = ground (arith, length-remove slots name)

  length-update :
      (slots : Slots C X) (name : Bytes) (period delay : ℕ) (ctx : X) (now : ℕ)
      → length (update_task slots name period delay ctx now) ≡ length slots
  unfolding update_task
  length-update [] name period delay ctx now = refl
  length-update (none ∷ slots) name period delay ctx now =
      ap suc (length-update slots name period delay ctx now)
  length-update (some s ∷ slots) name period delay ctx now =
      ground (arith, length-update slots name period delay ctx now)

  register-Inv :
      (slots : Slots C X) (task : Task C X) (now : ℕ)
      → Inv slots
      → Inv (register_task slots task now).1
  unfolding register_task
  register-Inv slots task now v = elim (Option-cases (find_task slots task.name)) [
    | inr (s, old) ↦ rw (old, register_task) v
    | inl new ↦ elim (Option-cases (insert_task slots (fresh_slot task now))) [
      | inl full ↦ rw (new, full, register_task) v
      | inr (slots', found) ↦
          rw (new, found, register_task)
            (record {
              unique = Unique-insert slots (fresh_slot task now) slots' new v.unique found;
              size = length-insert slots (fresh_slot task now) slots' found ∙ v.size;
            })
    ]
  ]

  apply-Inv : (slots : Slots C X) (o : Op C X) → Inv slots → Inv (apply slots o)
  unfolding apply
  apply-Inv slots (registers task now) v = register-Inv slots task now v
  apply-Inv slots (unregisters name) v = record {
    unique = Unique-remove slots name v.unique;
    size = length-remove slots name ∙ v.size;
  }
  apply-Inv slots (updates name period delay ctx now) v = record {
    unique = Unique-update name period delay ctx now slots v.unique;
    size = length-update slots name period delay ctx now ∙ v.size;
  }

  apply_all-Inv : (slots : Slots C X) (os : List (Op C X)) → Inv slots → Inv (apply_all slots os)
  unfolding apply_all
  apply_all-Inv slots [] v = v
  apply_all-Inv slots (o ∷ os) v = apply_all-Inv (apply slots o) os (apply-Inv slots o v)

  -- After any history on a fresh table no two active slots share a name, and there are as many slots as
  -- the batch of a collection can hold.
  pub apply_all-Unique :
      (os : List (Op C X))
      → let slots = apply_all (no_slots max_tasks) os in Unique slots × (length slots ≡ max_tasks)
  apply_all-Unique os =
      let start = no_slots-Unique C X max_tasks in
      let v = apply_all-Inv (no_slots max_tasks) os (record { unique = start.0; size = start.1 }) in
      (v.unique, v.size)
