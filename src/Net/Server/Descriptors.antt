-- ===== src/Net/Server/Descriptors.antt =====
-- The descriptors of the clients and the table of connections, over the dispatcher's own steps.
use miniweb.Prelude.{
  ℕ, ◌≡◌, refl, ap, subst, Bool, true, false, ◌||◌, Option, none, some, List, [], ◌∷◌, ◌==◌, leb,
  at_least, is_some, arith, Bool-cases, Option-cases, if_both, ◌⊎◌, inl, inr, if◌then◌else◌, store,
  ℤ, pos,
}
use miniweb.Net.ConnectionPool.{
  Pool, alloc, take_slot, free, release_slot, is_stale, max_connections,
}
use miniweb.Net.ConnectionPool.Invariant.{
  IsValid, init-IsValid, step, allocs, frees, step-IsValid, free-released,
}
use miniweb.Net.ConnectionPool.Handles.{alloc_fresh}
use miniweb.Net.WorkQueue.{WorkQueue, push}
use miniweb.Net.Server.{
  ServerRuntime, start, drop_client, Accepted, client, interrupted, none_left, registered,
  accept_client, handle_accept, idle_below, drop_all, sweep_idle, after_push, client_event,
  ServerEvent, on_signal, on_listen, on_client, dispatch,
}

-- The table is valid, and its descriptors are the open ones.
pub record IsConsistent (rt : ServerRuntime) : Type 0 where
  pub pool_valid : IsValid rt.pool
  pub open_iff : (fd : ℕ) → rt.is_open fd ≡ is_some (rt.pool.connections fd)

free-IsValid : (p : Pool) (fd : ℕ) → IsValid p → IsValid (free p (pos fd))
unfolding step
free-IsValid p fd v = step-IsValid p (frees (pos fd)) v

free_unused :
    (p : Pool) (fd g : ℕ)
    → p.connections fd ≡ none
    → (free p (pos fd)).connections g ≡ (if fd == g then none else p.connections g)
unfolding free release_slot
free_unused p fd g e = ground (arith, e)

-- `free` takes the descriptor out of the table and leaves the others.
pub free-connections :
    (p : Pool) (fd g : ℕ)
    → IsValid p
    → (free p (pos fd)).connections g ≡ (if fd == g then none else p.connections g)
free-connections p fd g v = elim (Option-cases (p.connections fd)) [
  | inr (s, used) ↦ rw (free-released p fd s v used) refl
  | inl unused ↦ free_unused p fd g unused
]

drop_client-IsConsistent :
    (fd : ℕ) (rt : ServerRuntime) → IsConsistent rt → IsConsistent (drop_client fd rt)
unfolding drop_client
drop_client-IsConsistent fd rt v = record {
  pool_valid = free-IsValid rt.pool fd v.pool_valid;
  open_iff = λ g. ground (arith, free-connections rt.pool fd g v.pool_valid, v.open_iff g);
}

pub alloc-cases :
    (p : Pool) (fd addr : ℕ) (max_conns : ℤ) (now : ℕ)
    → (alloc p (pos fd) (some addr) max_conns now ≡ (none, p))
      ⊎ ((slot : ℕ) × (q : Pool) × (alloc p (pos fd) (some addr) max_conns now ≡ (some slot, q)))
unfolding alloc take_slot
alloc-cases p fd addr max_conns now = elim (Bool-cases (leb max_connections fd)) [
  | inl out ↦ inl (rw out refl)
  | inr inside ↦ rw inside (
      if_both
        (λ (r : Option ℕ × Pool).
          (r ≡ (none, p)) ⊎ ((slot : ℕ) × (q : Pool) × (r ≡ (some slot, q))))
        (at_least p.active_connections max_conns || is_some (p.connections fd) || p.free_top == 0) _
        _ (inl refl) (inr (_, _, refl)))
]

pub alloc-IsValid :
    (p : Pool) (fd addr : ℕ) (max_conns : ℤ) (now slot : ℕ) (q : Pool)
    → alloc p (pos fd) (some addr) max_conns now ≡ (some slot, q)
    → IsValid p
    → IsValid q
unfolding step
alloc-IsValid p fd addr max_conns now slot q e v =
    subst IsValid (ap (λ (r : Option ℕ × Pool). r.1) e)
      (step-IsValid p (allocs (pos fd) (some addr) max_conns now) v)

-- The kernel gives a descriptor that is not open.
accept_client-IsConsistent :
    (max_conns : ℤ) (fd addr now : ℕ) (kevent_ok : Bool) (rt : ServerRuntime)
    → IsConsistent rt
    → rt.is_open fd ≡ false
    → IsConsistent (accept_client max_conns fd addr now kevent_ok rt)
unfolding accept_client registered
accept_client-IsConsistent max_conns fd addr now kevent_ok rt v closed =
    elim (alloc-cases rt.pool fd addr max_conns now) [
      | inl e ↦ rw e (record {
        pool_valid = v.pool_valid;
        open_iff = λ g. ground (arith, closed, v.open_iff g, v.open_iff fd);
      })
      | inr (slot, q, e) ↦
          let fresh = alloc_fresh rt.pool fd (some addr) max_conns now slot q v.pool_valid e in
          let rt' : ServerRuntime = record rt { pool = q; is_open = store rt.is_open fd true } in
          let v' : IsConsistent rt' = record {
            pool_valid = alloc-IsValid rt.pool fd addr max_conns now slot q e v.pool_valid;
            open_iff = λ g. ground (arith, fresh.1 g, v.open_iff g);
          } in
          rw e (if_both IsConsistent kevent_ok rt' _ v' (drop_client-IsConsistent fd rt' v'))
    ]

-- What the kernel promises of the answers of `accept`: a descriptor that is not open.
abbrev pub AreFresh : ℤ → List Accepted → ServerRuntime → Type 0
AreFresh max_conns [] rt = Unit
AreFresh max_conns (none_left ∷ answers) rt = Unit
AreFresh max_conns (interrupted ∷ answers) rt = AreFresh max_conns answers rt
AreFresh max_conns (client fd addr now kevent_ok ∷ answers) rt =
    (rt.is_open fd ≡ false)
    × AreFresh max_conns answers (accept_client max_conns fd addr now kevent_ok rt)

handle_accept-IsConsistent :
    (max_conns : ℤ) (answers : List Accepted) (rt : ServerRuntime)
    → AreFresh max_conns answers rt
    → IsConsistent rt
    → IsConsistent (handle_accept max_conns answers rt)
unfolding handle_accept
handle_accept-IsConsistent max_conns [] rt f v = v
handle_accept-IsConsistent max_conns (none_left ∷ answers) rt f v = v
handle_accept-IsConsistent max_conns (interrupted ∷ answers) rt f v =
    handle_accept-IsConsistent max_conns answers rt f v
handle_accept-IsConsistent max_conns (client fd addr now kevent_ok ∷ answers) rt f v =
    handle_accept-IsConsistent max_conns answers _ f.1
      (accept_client-IsConsistent max_conns fd addr now kevent_ok rt v f.0)

drop_all-IsConsistent :
    (fds : List ℕ) (rt : ServerRuntime) → IsConsistent rt → IsConsistent (drop_all fds rt)
unfolding drop_all
drop_all-IsConsistent [] rt v = v
drop_all-IsConsistent (fd ∷ fds) rt v =
    drop_all-IsConsistent fds (drop_client fd rt) (drop_client-IsConsistent fd rt v)

pub sweep_idle-IsConsistent :
    (now conn_timeout : ℕ) (rt : ServerRuntime)
    → IsConsistent rt
    → IsConsistent (sweep_idle now conn_timeout rt)
unfolding sweep_idle
sweep_idle-IsConsistent now conn_timeout rt v =
    drop_all-IsConsistent (idle_below max_connections rt.pool now conn_timeout) rt v

after_push-IsConsistent :
    (fd : ℕ) (rt : ServerRuntime) (r : Bool × WorkQueue ℕ)
    → IsConsistent rt
    → IsConsistent (after_push fd rt r)
unfolding after_push
after_push-IsConsistent fd rt (true, queue) v = record {
  pool_valid = v.pool_valid;
  open_iff = v.open_iff;
}
after_push-IsConsistent fd rt (false, queue) v =
    drop_client-IsConsistent fd (record rt { queue = queue })
      (record { pool_valid = v.pool_valid; open_iff = v.open_iff })

client_event-IsConsistent :
    (fd slot : ℕ) (gone : Bool) (rt : ServerRuntime)
    → IsConsistent rt
    → IsConsistent (client_event fd slot gone rt)
unfolding client_event
client_event-IsConsistent fd slot gone rt v =
    if_both IsConsistent (leb max_connections fd || is_stale rt.pool fd (some slot)) rt _ v (
      if_both IsConsistent gone _ _ (drop_client-IsConsistent fd rt v)
        (after_push-IsConsistent fd rt (push rt.queue slot) v))

-- What the kernel promises of an event.
abbrev pub IsFresh : ServerEvent → ServerRuntime → Type 0
IsFresh on_signal rt = Unit
IsFresh (on_listen max_conns answers) rt = AreFresh max_conns answers rt
IsFresh (on_client fd slot gone) rt = Unit

pub dispatch-IsConsistent :
    (e : ServerEvent) (rt : ServerRuntime)
    → IsFresh e rt
    → IsConsistent rt
    → IsConsistent (dispatch e rt)
unfolding dispatch
dispatch-IsConsistent on_signal rt f v = record { pool_valid = v.pool_valid; open_iff = v.open_iff }
dispatch-IsConsistent (on_listen max_conns answers) rt f v =
    handle_accept-IsConsistent max_conns answers rt f v
dispatch-IsConsistent (on_client fd slot gone) rt f v = client_event-IsConsistent fd slot gone rt v

pub start-IsConsistent : IsConsistent start
unfolding start miniweb.Net.ConnectionPool.init
start-IsConsistent = record { pool_valid = init-IsValid; open_iff = λ fd. refl }
