-- ===== src/Net/Worker/Elsewhere.antt =====
-- What a turn of a worker leaves of the other connections.
use miniweb.Prelude.{
  ℕ, ◌≡◌, refl, ap, Bool, false, Option, none, some, List, [], ◌∷◌, ◌++◌, Bytes, ◌==◌, arith, ◌⊎◌,
  inl, inr, if_both, store,
}
use miniweb.Net.ConnectionPool.{Pool}
use miniweb.Net.ConnectionPool.Invariant.{IsValid, free-released}
use miniweb.Http.Request.{HttpRequest}
use miniweb.Net.Worker.{
  Received, Outcome, complete, drained, broken, too_large, unfinished, Reply, Action, runs,
  sends_error, enables, closes, Turn, set_buffer, reset_request, close_connection,
  try_rearm_keepalive, serve, finish, worker_turn,
}
use miniweb.Net.Worker.Request.{RequestLine}
use miniweb.Net.Worker.Turns.{closed, set_buffer-IsValid, reset_request-IsValid, respond-open}
use miniweb.Router.{Registry}

module _ {H : Type 0} where
  -- Either nothing is closed and the table of descriptors is `c`, or `fd` alone is closed and taken out.
  abbrev pub Leaves : (ℕ → Option ℕ) → ℕ → Turn H → Type 0
  Leaves c fd t =
      ((t.pool.connections ≡ c) × ((g : ℕ) → closed g t.actions ≡ false))
      ⊎ ((t.pool.connections ≡ store c fd none) × ((g : ℕ) → closed g t.actions ≡ (fd == g)))

  closed-snoc :
      (g fd : ℕ) (actions : List (Action H))
      → closed g actions ≡ false
      → closed g (actions ++ closes fd ∷ []) ≡ (fd == g)
  unfolding closed
  closed-snoc g fd [] h = ground arith
  closed-snoc g fd (closes f ∷ actions) h = ground (arith, closed-snoc g fd actions)
  closed-snoc g fd (enables f ∷ actions) h = closed-snoc g fd actions h
  closed-snoc g fd (runs k ∷ actions) h = closed-snoc g fd actions h
  closed-snoc g fd (sends_error code ∷ actions) h = closed-snoc g fd actions h

  closed-enabled :
      (g fd : ℕ) (actions : List (Action H))
      → closed g actions ≡ false
      → closed g (actions ++ enables fd ∷ []) ≡ false
  unfolding closed
  closed-enabled g fd [] h = refl
  closed-enabled g fd (closes f ∷ actions) h = ground (arith, closed-enabled g fd actions)
  closed-enabled g fd (enables f ∷ actions) h = closed-enabled g fd actions h
  closed-enabled g fd (runs k ∷ actions) h = closed-enabled g fd actions h
  closed-enabled g fd (sends_error code ∷ actions) h = closed-enabled g fd actions h

  close_connection-Leaves :
      (p : Pool) (fd s : ℕ) (actions : List (Action H))
      → IsValid p
      → p.connections fd ≡ some s
      → ((g : ℕ) → closed g actions ≡ false)
      → Leaves p.connections fd (close_connection p fd actions)
  unfolding close_connection
  close_connection-Leaves p fd s actions v used h = inr (
    ap (λ (q : Pool). q.connections) (free-released p fd s v used),
    λ g. closed-snoc g fd actions (h g),
  )

  try_rearm_keepalive-Leaves :
      (p : Pool) (fd s slot : ℕ) (kevent_ok : Bool) (now : ℕ) (actions : List (Action H))
      → IsValid p
      → p.connections fd ≡ some s
      → ((g : ℕ) → closed g actions ≡ false)
      → Leaves p.connections fd (try_rearm_keepalive p fd slot kevent_ok now actions)
  unfolding try_rearm_keepalive reset_request
  try_rearm_keepalive-Leaves p fd s slot kevent_ok now actions v used h =
      let v' = reset_request-IsValid p slot now v in
      let tried = λ (g : ℕ). closed-enabled g fd actions (h g) in
      if_both (Leaves p.connections fd) _ _ _ (close_connection-Leaves p fd s actions v used h) (
        if_both (Leaves p.connections fd) kevent_ok _ _ (inl (refl, tried))
          (close_connection-Leaves (reset_request p slot now) fd s _ v' used tried))

  module _ (registry : Registry H) (handler : H → HttpRequest → Reply)
      (http_send_error : ℕ → HttpRequest → Reply) where
    serve-Leaves :
        (p : Pool) (fd s slot : ℕ) (buffer : Bytes) (kevent_ok : Bool) (now : ℕ)
        (o : Option RequestLine)
        → IsValid p
        → p.connections fd ≡ some s
        → Leaves p.connections fd
            (serve registry handler http_send_error p fd slot buffer kevent_ok now o)
    unfolding serve closed
    serve-Leaves p fd s slot buffer kevent_ok now none v used =
        close_connection-Leaves p fd s _ v used (λ g. refl)
    serve-Leaves p fd s slot buffer kevent_ok now (some line) v used =
        if_both (Leaves p.connections fd) _ _ _
          (try_rearm_keepalive-Leaves p fd s slot kevent_ok now _ v used
            (λ g. respond-open registry handler http_send_error g _ _))
          (close_connection-Leaves p fd s _ v used
            (λ g. respond-open registry handler http_send_error g _ _))

    finish-Leaves :
        (p : Pool) (fd s slot : ℕ) (kevent_ok : Bool) (now : ℕ) (o : Outcome)
        → IsValid p
        → p.connections fd ≡ some s
        → Leaves p.connections fd
            (finish registry handler http_send_error p fd slot kevent_ok now o)
    unfolding finish set_buffer closed
    finish-Leaves p fd s slot kevent_ok now (complete buffer) v used =
        serve-Leaves _ fd s slot buffer kevent_ok now _ (set_buffer-IsValid p slot buffer now v)
          used
    finish-Leaves p fd s slot kevent_ok now (drained buffer) v used = inl (refl, λ g. refl)
    finish-Leaves p fd s slot kevent_ok now (broken buffer) v used =
        close_connection-Leaves _ fd s _ (set_buffer-IsValid p slot buffer now v) used (λ g. refl)
    finish-Leaves p fd s slot kevent_ok now (too_large buffer) v used =
        close_connection-Leaves _ fd s _ (set_buffer-IsValid p slot buffer now v) used (λ g. refl)
    finish-Leaves p fd s slot kevent_ok now (unfinished buffer) v used = inl (refl, λ g. refl)

    -- A turn closes no descriptor but that of its slot, and leaves the others in the table.
    pub worker_turn-Leaves :
        (max_req_size : ℕ) (p : Pool) (fd slot : ℕ) (rs : List Received) (kevent_ok : Bool)
        (now : ℕ)
        → IsValid p
        → p.connections fd ≡ some slot
        → Leaves p.connections fd
            (worker_turn registry handler http_send_error max_req_size p slot rs kevent_ok now)
    unfolding worker_turn closed
    worker_turn-Leaves max_req_size p fd slot rs kevent_ok now v used =
        rw (v.live_fd fd slot used) (
          if_both (Leaves p.connections fd) _ _ _ (inl (refl, λ g. refl))
            (finish-Leaves p fd slot slot kevent_ok now _ v used))
