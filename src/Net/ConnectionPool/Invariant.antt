-- ===== src/Net/ConnectionPool/Invariant.antt =====
-- The invariant of the table, and that every call keeps it.
use miniweb.Prelude.{
  ℕ, zero, suc, ◌+◌, ◌-◌, ◌≤◌, ◌<◌, ◌≡◌, refl, ◌≢◌, Option, none, some, List, [], ◌∷◌, arith, store,
  ℤ, pos, negsuc, ◌∙◌, ◌%◌, ◌^◌,
}
use miniweb.Net.ConnectionPool.{
  Pool, max_connections, init, fill_free_stack, alloc, take_slot, zeroed, free, release_slot,
  give_back, disconnect,
}

-- How many of the first `n` descriptors are connected.
pub count_live : ℕ → (ℕ → Option ℕ) → ℕ
count_live zero c = 0
count_live (suc n) c = elim (c n) [ none ↦ count_live n c | some s ↦ suc (count_live n c) ]

-- Slots on the free list are in range, distinct and unused; a connected descriptor has a slot of its
-- own that names it and carries its generation; and every slot is either free or in use.
pub record IsValid (p : Pool) : Type 0 where
  pub free_lt : (i : ℕ) → i < p.free_top → p.free_stack i < max_connections
  pub free_distinct :
      (i j : ℕ) → i < p.free_top → j < p.free_top → p.free_stack i ≡ p.free_stack j → i ≡ j
  pub free_unused : (i fd s : ℕ) → i < p.free_top → p.connections fd ≡ some s → p.free_stack i ≢ s
  pub live_lt :
      (fd s : ℕ) → p.connections fd ≡ some s → (fd < max_connections) × (s < max_connections)
  pub live_fd : (fd s : ℕ) → p.connections fd ≡ some s → (p.pool s).fd ≡ fd
  pub live_gen : (fd s : ℕ) → p.connections fd ≡ some s → (p.pool s).gen ≡ p.conn_gen fd
  pub live_count : count_live max_connections p.connections ≡ p.active_connections
  pub all_slots : p.active_connections + p.free_top ≡ max_connections

fill_free_stack_lem :
    (n : ℕ) (a : ℕ → ℕ) (j : ℕ) → j < n → fill_free_stack n a j ≡ max_connections - 1 - j
unfolding fill_free_stack
fill_free_stack_lem zero a j h = absurd (omega arith)
fill_free_stack_lem (suc n) a j h = ground (arith, fill_free_stack_lem n a j)

count_live-none : (n : ℕ) → count_live n (λ fd. none) ≡ 0
unfolding count_live
count_live-none zero = refl
count_live-none (suc n) = count_live-none n

pub init-IsValid : IsValid init
unfolding init
init-IsValid = record {
  free_lt = λ i h. omega (arith, fill_free_stack_lem max_connections (λ i. 0) i h);
  free_distinct = λ i j h k e. omega (
    arith,
    fill_free_stack_lem max_connections (λ i. 0) i h,
    fill_free_stack_lem max_connections (λ i. 0) j k,
  );
  free_unused = λ i fd s h e. cc;
  live_lt = λ fd s e. cc;
  live_fd = λ fd s e. cc;
  live_gen = λ fd s e. cc;
  live_count = count_live-none max_connections;
  all_slots = omega arith;
}

count_live-le : (n : ℕ) (c : ℕ → Option ℕ) → count_live n c ≤ n
unfolding count_live
count_live-le zero c = omega arith
count_live-le (suc n) c = ground (arith, count_live-le n c)

-- A write at or above the bound does not count.
count_live-store_above :
    (n : ℕ) (c : ℕ → Option ℕ) (fd : ℕ) (v : Option ℕ)
    → n ≤ fd
    → count_live n (store c fd v) ≡ count_live n c
unfolding count_live
count_live-store_above zero c fd v h = refl
count_live-store_above (suc n) c fd v h = ground (arith, count_live-store_above n c fd v)

count_live-store-some :
    (n : ℕ) (c : ℕ → Option ℕ) (fd s : ℕ)
    → fd < n
    → c fd ≡ none
    → count_live n (store c fd (some s)) ≡ suc (count_live n c)
unfolding count_live
count_live-store-some zero c fd s h e = absurd (omega arith)
count_live-store-some (suc n) c fd s h e =
    ground (arith, count_live-store-some n c fd s, count_live-store_above n c fd (some s))

count_live-store-none :
    (n : ℕ) (c : ℕ → Option ℕ) (fd s : ℕ)
    → fd < n
    → c fd ≡ some s
    → suc (count_live n (store c fd none)) ≡ count_live n c
unfolding count_live
count_live-store-none zero c fd s h e = absurd (omega arith)
count_live-store-none (suc n) c fd s h e =
    ground (arith, count_live-store-none n c fd s, count_live-store_above n c fd none)

module _ (p : Pool) (fd : ℕ) (addr : Option ℕ) (now : ℕ) (v : IsValid p)
    (in_range : fd < max_connections) (unused : p.connections fd ≡ none)
    (room : 0 < p.free_top) where
  take_slot-IsValid : IsValid (take_slot p fd addr now).1
  unfolding take_slot
  take_slot-IsValid = record {
    free_lt = λ i h. v.free_lt i (omega arith);
    free_distinct = λ i j h k e. v.free_distinct i j (omega arith) (omega arith) e;
    free_unused =
        λ i f s h e. ground (arith, v.free_distinct i (p.free_top - 1), v.free_unused i f s);
    live_lt = λ f s e. ground (arith, v.free_lt (p.free_top - 1), v.live_lt f s);
    live_fd = λ f s e. ground (arith, v.live_fd f s, v.free_unused (p.free_top - 1) f s);
    live_gen = λ f s e. ground (arith, v.live_gen f s, v.free_unused (p.free_top - 1) f s);
    live_count = omega (
      arith,
      count_live-store-some max_connections p.connections fd (p.free_stack (p.free_top - 1))
          in_range unused,
      v.live_count,
    );
    all_slots = omega (arith, v.all_slots);
  }

alloc-IsValid :
    (p : Pool) (fd : ℤ) (addr : Option ℕ) (max_conns : ℤ) (now : ℕ)
    → IsValid p
    → IsValid (alloc p fd addr max_conns now).1
unfolding alloc
alloc-IsValid p (negsuc n) addr max_conns now v = v
alloc-IsValid p (pos fd) addr max_conns now v = ground (arith, take_slot-IsValid p fd addr now v)

-- The table that `free` leaves, its range tests decided.
abbrev pub released : Pool → ℕ → ℕ → Pool
released p fd s = record p {
  connections = store p.connections fd none;
  conn_gen = store p.conn_gen fd ((p.conn_gen fd + 1) % 2 ^ 32);
  active_connections = p.active_connections - 1;
  pool = store p.pool s zeroed;
  free_stack = store p.free_stack p.free_top s;
  free_top = p.free_top + 1;
}

module _ (p : Pool) (fd s : ℕ) (v : IsValid p) (used : p.connections fd ≡ some s) where
  slot_in : s < max_connections
  slot_in = (v.live_lt fd s used).1

  pub one_fewer :
      suc (count_live max_connections (store p.connections fd none)) ≡ p.active_connections
  one_fewer =
      count_live-store-none max_connections p.connections fd s (v.live_lt fd s used).0 used
      ∙ v.live_count

  not_full : p.free_top < max_connections
  not_full = omega (arith, one_fewer, v.all_slots)

  release_slot-released : release_slot p fd (some s) ≡ released p fd s
  unfolding release_slot give_back disconnect
  release_slot-released = ground (arith, slot_in, not_full)

  released-IsValid : IsValid (released p fd s)
  released-IsValid = record {
    free_lt = λ i h. ground (arith, v.free_lt i, slot_in);
    free_distinct = λ i j h k e.
        ground (arith, v.free_distinct i j, v.free_unused i fd s, v.free_unused j fd s);
    free_unused = λ i f t h e. ground (arith, v.free_unused i f t, v.live_fd f t, v.live_fd fd s);
    live_lt = λ f t e. ground (arith, v.live_lt f t);
    live_fd = λ f t e. ground (arith, v.live_fd f t, v.live_fd fd s);
    live_gen = λ f t e. ground (arith, v.live_gen f t, v.live_fd f t, v.live_fd fd s);
    live_count = omega (arith, one_fewer);
    all_slots = omega (arith, one_fewer, v.all_slots);
  }

  pub free-released : free p (pos fd) ≡ released p fd s
  unfolding free
  free-released = ground (arith, used, release_slot-released, v.live_lt fd s)

release_slot-IsValid :
    (p : Pool) (fd : ℕ) (o : Option ℕ)
    → IsValid p
    → p.connections fd ≡ o
    → IsValid (release_slot p fd o)
unfolding release_slot
release_slot-IsValid p fd none v e = v
release_slot-IsValid p fd (some s) v e =
    rw (release_slot-released p fd s v e) (released-IsValid p fd s v e)

free-IsValid : (p : Pool) (fd : ℤ) → IsValid p → IsValid (free p fd)
unfolding free
free-IsValid p (negsuc n) v = v
free-IsValid p (pos fd) v = ground (arith, release_slot-IsValid p fd (p.connections fd) v refl)

-- The calls that the dispatcher and the workers make.
pub data Call : Type 0 where
  allocs : ℤ → Option ℕ → ℤ → ℕ → Call
  frees : ℤ → Call

unfoldable pub step : Pool → Call → Pool
step p (allocs fd addr max_conns now) = (alloc p fd addr max_conns now).1
step p (frees fd) = free p fd

unfoldable pub run : Pool → List Call → Pool
run p [] = p
run p (c ∷ cs) = run (step p c) cs

pub step-IsValid : (p : Pool) (c : Call) → IsValid p → IsValid (step p c)
unfolding step
step-IsValid p (allocs fd addr max_conns now) v = alloc-IsValid p fd addr max_conns now v
step-IsValid p (frees fd) v = free-IsValid p fd v

pub run-IsValid : (p : Pool) (cs : List Call) → IsValid p → IsValid (run p cs)
unfolding run
run-IsValid p [] v = v
run-IsValid p (c ∷ cs) v = run-IsValid (step p c) cs (step-IsValid p c v)

-- After any history of calls from the initial table, whatever their arguments, the free list and the
-- connected descriptors share out the slots: `IsValid` holds.
pub run-init-IsValid : (cs : List Call) → IsValid (run init cs)
run-init-IsValid cs = run-IsValid init cs init-IsValid
