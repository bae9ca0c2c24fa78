-- ===== src/Net/Server/Threads/Covered.antt =====
-- The invariant of the connection table under the interleaved threads, and the steps of the workers.
use miniweb.Prelude.{
  ℕ, ◌≡◌, refl, subst, Bool, true, false, ◌||◌, ◌==◌, store, pos, arith, Bool-cases, ◌⊎◌, inl, inr,
  is_some,
}
use miniweb.Net.ConnectionPool.{Pool, free}
use miniweb.Net.ConnectionPool.Invariant.{IsValid}
use miniweb.Net.Worker.{set_buffer, reset_request}
use miniweb.Net.Worker.Turns.{set_buffer-IsValid, reset_request-IsValid, free-IsValid}
use miniweb.Net.Server.Descriptors.{free-connections}
use miniweb.Net.Server.Threads.{
  WorkerPhase, ready, popped, checking, serving, rearming, closing, DispatcherPhase, waiting,
  accepted, refused, registering, checked, sweeping, dropping, Threads, received, WorkerStep, pops,
  reads, skips, takes, receives, waits_for_more, rearms, enables, closes_served, closes_rearmed,
  frees,
}

-- A worker has closed the descriptor and is about to free its connection.
abbrev pub is_closing : WorkerPhase → ℕ → Bool
is_closing ready fd = false
is_closing (popped slot) fd = false
is_closing (checking slot f) fd = false
is_closing (serving slot f) fd = false
is_closing (rearming slot f) fd = false
is_closing (closing f) fd = f == fd

-- The dispatcher is about to register the descriptor, or to free the connection after closing it.
abbrev pub is_handled : DispatcherPhase → ℕ → Bool
is_handled waiting fd = false
is_handled (accepted f) fd = false
is_handled (refused f) fd = false
is_handled (registering f) fd = f == fd
is_handled (checked f slot) fd = false
is_handled (sweeping fds) fd = false
is_handled (dropping f fds) fd = f == fd

-- The dispatcher has the descriptor from `accept` and has no connection for it.
abbrev pub is_admitted : DispatcherPhase → ℕ → Bool
is_admitted waiting fd = false
is_admitted (accepted f) fd = f == fd
is_admitted (refused f) fd = f == fd
is_admitted (registering f) fd = false
is_admitted (checked f slot) fd = false
is_admitted (sweeping fds) fd = false
is_admitted (dropping f fds) fd = false

abbrev pub AnyCloses : (ℕ → WorkerPhase) → ℕ → Type 0
AnyCloses workers fd = (i : ℕ) × (is_closing (workers i) fd ≡ true)

-- The table is valid; each of its descriptors is open, or a thread is about to register it or, having
-- closed it, to take it out of the table; and one that was just accepted is in the table only if a worker
-- is about to take it out.
pub record IsCovered (t : Threads) : Type 0 where
  pub pool_valid : IsValid t.pool
  pub open_or_handled :
      (fd : ℕ)
      → is_some (t.pool.connections fd) ≡ true
      → (t.is_open fd || is_handled t.dispatcher fd ≡ true) ⊎ AnyCloses t.workers fd
  pub admitted_closing :
      (fd : ℕ)
      → is_some (t.pool.connections fd) ≡ true
      → is_admitted t.dispatcher fd ≡ true
      → AnyCloses t.workers fd

-- A worker that does not close a descriptor moves.
moved :
    (workers : ℕ → WorkerPhase) (i fd : ℕ) (from to : WorkerPhase)
    → workers i ≡ from
    → is_closing from fd ≡ false
    → AnyCloses workers fd
    → AnyCloses (store workers i to) fd
moved workers i fd from to e off (j, closes) = elim (Bool-cases (i == j)) [
  | inr other ↦ (j, rw other closes)
  | inl same ↦
      let here : workers j ≡ from = subst (λ k. workers k ≡ from) (ground (arith, same)) e in
      absurd (ground (arith, rw here at closes, off))
]

worker_moves :
    (t : Threads) (i : ℕ) (from to : WorkerPhase) (p : Pool)
    → t.workers i ≡ from
    → ((fd : ℕ) → is_closing from fd ≡ false)
    → IsValid p
    → p.connections ≡ t.pool.connections
    → IsCovered t
    → IsCovered (record t { pool = p; workers = store t.workers i to })
worker_moves t i from to p e off valid same v = record {
  pool_valid = valid;
  open_or_handled = λ fd used. elim (v.open_or_handled fd (rw same at used)) [
    | inl open_fd ↦ inl open_fd
    | inr w ↦ inr (moved t.workers i fd from to e (off fd) w)
  ];
  admitted_closing = λ fd used admitted.
      moved t.workers i fd from to e (off fd) (v.admitted_closing fd (rw same at used) admitted);
}

worker_closes :
    (t : Threads) (i fd : ℕ) (from : WorkerPhase)
    → t.workers i ≡ from
    → ((g : ℕ) → is_closing from g ≡ false)
    → IsCovered t
    → IsCovered
        (record t { is_open = store t.is_open fd false; workers = store t.workers i (closing fd) })
worker_closes t i fd from e off v = record {
  pool_valid = v.pool_valid;
  open_or_handled = λ g used. elim (Bool-cases (fd == g)) [
    | inl same ↦ inr (i, ground (arith, same))
    | inr other ↦ elim (v.open_or_handled g used) [
      | inl open_g ↦ inl (rw other open_g)
      | inr w ↦ inr (moved t.workers i g from (closing fd) e (off g) w)
    ]
  ];
  admitted_closing = λ g used admitted.
      moved t.workers i g from (closing fd) e (off g) (v.admitted_closing g used admitted);
}

-- What is in the table after `free` was there before, and is another descriptor.
pub still_used :
    (p : Pool) (fd g : ℕ)
    → IsValid p
    → is_some ((free p (pos fd)).connections g) ≡ true
    → (fd == g ≡ false) × (is_some (p.connections g) ≡ true)
still_used p fd g v used = ground (arith, free-connections p fd g v, used)

worker_frees :
    (t : Threads) (i fd : ℕ)
    → t.workers i ≡ closing fd
    → IsCovered t
    → IsCovered (record t { pool = free t.pool (pos fd); workers = store t.workers i ready })
worker_frees t i fd e v = record {
  pool_valid = free-IsValid t.pool fd v.pool_valid;
  open_or_handled = λ g used.
      let (other, before) = still_used t.pool fd g v.pool_valid used in
      elim (v.open_or_handled g before) [
        | inl open_g ↦ inl open_g
        | inr w ↦ inr (moved t.workers i g (closing fd) ready e other w)
      ];
  admitted_closing = λ g used admitted.
      let (other, before) = still_used t.pool fd g v.pool_valid used in
      moved t.workers i g (closing fd) ready e other (v.admitted_closing g before admitted);
}

pub WorkerStep-IsCovered : {t t' : Threads} → WorkerStep t t' → IsCovered t → IsCovered t'
unfolding set_buffer reset_request
WorkerStep-IsCovered (pops t i slot queue e p) v =
    let v' = worker_moves t i ready (popped slot) t.pool e (λ g. refl) v.pool_valid refl v in
    record {
      pool_valid = v'.pool_valid;
      open_or_handled = v'.open_or_handled;
      admitted_closing = v'.admitted_closing;
    }
WorkerStep-IsCovered (reads t i slot e) v =
    worker_moves t i (popped slot) _ t.pool e (λ g. refl) v.pool_valid refl v
WorkerStep-IsCovered (skips t i slot fd e s) v =
    worker_moves t i (checking slot fd) ready t.pool e (λ g. refl) v.pool_valid refl v
WorkerStep-IsCovered (takes t i slot fd e s) v =
    worker_moves t i (checking slot fd) (serving slot fd) t.pool e (λ g. refl) v.pool_valid refl v
WorkerStep-IsCovered (receives t i slot fd new now e) v = record {
  pool_valid = set_buffer-IsValid t.pool slot (received t.pool slot new) now v.pool_valid;
  open_or_handled = v.open_or_handled;
  admitted_closing = v.admitted_closing;
}
WorkerStep-IsCovered (waits_for_more t i slot fd e) v =
    worker_moves t i (serving slot fd) ready t.pool e (λ g. refl) v.pool_valid refl v
WorkerStep-IsCovered (rearms t i slot fd now e few) v =
    worker_moves t i (serving slot fd) (rearming slot fd) (reset_request t.pool slot now) e
      (λ g. refl) (reset_request-IsValid t.pool slot now v.pool_valid) refl v
WorkerStep-IsCovered (enables t i slot fd e) v =
    worker_moves t i (rearming slot fd) ready t.pool e (λ g. refl) v.pool_valid refl v
WorkerStep-IsCovered (closes_served t i slot fd e) v =
    worker_closes t i fd (serving slot fd) e (λ g. refl) v
WorkerStep-IsCovered (closes_rearmed t i slot fd e) v =
    worker_closes t i fd (rearming slot fd) e (λ g. refl) v
WorkerStep-IsCovered (frees t i fd e) v = worker_frees t i fd e v
