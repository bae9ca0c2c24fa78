-- ===== src/Net/Worker/Turns.antt =====
-- What a turn of a worker does to the connection table and to the descriptor.
use miniweb.Prelude.{
  ℕ, ◌≡◌, ◌≢◌, refl, ap, ◌∙◌, Bool, true, false, not, ◌||◌, Option, none, some, List, [], ◌∷◌, ◌++◌,
  Bytes, ◌==◌, arith, inl, inr, Bool-cases, if_both, is_some, store, pos,
}
use miniweb.Net.ConnectionPool.{Pool, Connection, free, is_stale, same}
use miniweb.Net.ConnectionPool.Invariant.{IsValid, step-IsValid, frees, step, free-released}
use miniweb.Http.Request.{HttpRequest}
use miniweb.Net.Worker.{
  Received, Outcome, complete, drained, broken, too_large, unfinished, Reply, Action, runs,
  sends_error, enables, closes, Turn, set_buffer, reset_request, close_connection,
  try_rearm_keepalive, respond, serve, finish, worker_turn,
}
use miniweb.Net.Worker.Request.{RequestLine}
use miniweb.Router.{Registry}

-- A change of a slot that keeps its descriptor and generation.
rewritten-IsValid :
    (p : Pool) (slot : ℕ) (c : Connection)
    → IsValid p
    → c.fd ≡ (p.pool slot).fd
    → c.gen ≡ (p.pool slot).gen
    → IsValid (record p { pool = store p.pool slot c })
rewritten-IsValid p slot c v f g = record {
  free_lt = v.free_lt;
  free_distinct = v.free_distinct;
  free_unused = v.free_unused;
  live_lt = v.live_lt;
  live_fd = λ fd s e. ground (arith, v.live_fd fd s, f);
  live_gen = λ fd s e. ground (arith, v.live_gen fd s, g);
  live_count = v.live_count;
  all_slots = v.all_slots;
}

pub set_buffer-IsValid :
    (p : Pool) (slot : ℕ) (buffer : Bytes) (now : ℕ)
    → IsValid p
    → IsValid (set_buffer p slot buffer now)
unfolding set_buffer
set_buffer-IsValid p slot buffer now v = rewritten-IsValid p slot _ v refl refl

pub reset_request-IsValid :
    (p : Pool) (slot now : ℕ) → IsValid p → IsValid (reset_request p slot now)
unfolding reset_request
reset_request-IsValid p slot now v = rewritten-IsValid p slot _ v refl refl

pub free-IsValid : (p : Pool) (fd : ℕ) → IsValid p → IsValid (free p (pos fd))
unfolding step
free-IsValid p fd v = step-IsValid p (frees (pos fd)) v

same-ne : (o : Option ℕ) (slot : ℕ) → o ≢ some slot → same o slot ≡ false
same-ne none slot h = refl
same-ne (some s) slot h = elim (Bool-cases (s == slot)) [
  | inl e ↦ absurd (h (ap some (ground (arith, e))))
  | inr e ↦ e
]

module _ {H : Type 0} where
  -- Whether the descriptor is closed.
  unfoldable pub closed : ℕ → List (Action H) → Bool
  closed fd [] = false
  closed fd (closes f ∷ actions) = f == fd || closed fd actions
  closed fd (enables f ∷ actions) = closed fd actions
  closed fd (runs h ∷ actions) = closed fd actions
  closed fd (sends_error code ∷ actions) = closed fd actions

  closed-append :
      (fd : ℕ) (actions : List (Action H)) → closed fd (actions ++ closes fd ∷ []) ≡ true
  unfolding closed
  closed-append fd [] = ground arith
  closed-append fd (closes f ∷ actions) = ground (arith, closed-append fd actions)
  closed-append fd (enables f ∷ actions) = closed-append fd actions
  closed-append fd (runs h ∷ actions) = closed-append fd actions
  closed-append fd (sends_error code ∷ actions) = closed-append fd actions

  -- The table is valid, and the descriptor is closed exactly if it is no longer connected.
  pub record Ends (fd : ℕ) (t : Turn H) : Type 0 where
    pub valid : IsValid t.pool
    pub open_or_closed : closed fd t.actions ≡ not (is_some (t.pool.connections fd))

  close_connection-Ends :
      (p : Pool) (fd s : ℕ) (actions : List (Action H))
      → IsValid p
      → p.connections fd ≡ some s
      → Ends fd (close_connection p fd actions)
  unfolding close_connection
  close_connection-Ends p fd s actions v used = record {
    valid = free-IsValid p fd v;
    open_or_closed = rw (free-released p fd s v used) (closed-append fd actions ∙ ground arith);
  }

  closed-enables :
      (fd : ℕ) (actions : List (Action H))
      → closed fd actions ≡ false
      → closed fd (actions ++ enables fd ∷ []) ≡ false
  unfolding closed
  closed-enables fd [] h = refl
  closed-enables fd (closes f ∷ actions) h = ground (arith, closed-enables fd actions)
  closed-enables fd (enables f ∷ actions) h = closed-enables fd actions h
  closed-enables fd (runs k ∷ actions) h = closed-enables fd actions h
  closed-enables fd (sends_error code ∷ actions) h = closed-enables fd actions h

  try_rearm_keepalive-Ends :
      (p : Pool) (fd s slot : ℕ) (kevent_ok : Bool) (now : ℕ) (actions : List (Action H))
      → IsValid p
      → p.connections fd ≡ some s
      → closed fd actions ≡ false
      → Ends fd (try_rearm_keepalive p fd slot kevent_ok now actions)
  unfolding try_rearm_keepalive reset_request
  try_rearm_keepalive-Ends p fd s slot kevent_ok now actions v used h =
      let v' = reset_request-IsValid p slot now v in
      if_both (Ends fd) _ _ _ (close_connection-Ends p fd s actions v used) (
        if_both (Ends fd) kevent_ok _ _
          (record { valid = v'; open_or_closed = rw (used, closed-enables fd actions h) refl })
          (close_connection-Ends (reset_request p slot now) fd s _ v' used))

  module _ (registry : Registry H) (handler : H → HttpRequest → Reply)
      (http_send_error : ℕ → HttpRequest → Reply) where
    pub respond-open :
        (fd : ℕ) (req : HttpRequest) (o : Option H)
        → closed fd ((respond registry handler http_send_error req o).0 ∷ []) ≡ false
    unfolding respond closed
    respond-open fd req none = refl
    respond-open fd req (some h) = refl

    serve-Ends :
        (p : Pool) (fd s slot : ℕ) (buffer : Bytes) (kevent_ok : Bool) (now : ℕ)
        (o : Option RequestLine)
        → IsValid p
        → p.connections fd ≡ some s
        → Ends fd (serve registry handler http_send_error p fd slot buffer kevent_ok now o)
    unfolding serve
    serve-Ends p fd s slot buffer kevent_ok now none v used = close_connection-Ends p fd s _ v used
    serve-Ends p fd s slot buffer kevent_ok now (some line) v used =
        if_both (Ends fd) _ _ _
          (try_rearm_keepalive-Ends p fd s slot kevent_ok now _ v used (respond-open fd _ _))
          (close_connection-Ends p fd s _ v used)

    finish-Ends :
        (p : Pool) (fd s slot : ℕ) (kevent_ok : Bool) (now : ℕ) (o : Outcome)
        → IsValid p
        → p.connections fd ≡ some s
        → Ends fd (finish registry handler http_send_error p fd slot kevent_ok now o)
    unfolding finish set_buffer closed
    finish-Ends p fd s slot kevent_ok now (complete buffer) v used =
        serve-Ends _ fd s slot buffer kevent_ok now _ (set_buffer-IsValid p slot buffer now v) used
    finish-Ends p fd s slot kevent_ok now (drained buffer) v used = record {
      valid = set_buffer-IsValid p slot buffer now v;
      open_or_closed = rw used refl;
    }
    finish-Ends p fd s slot kevent_ok now (broken buffer) v used =
        close_connection-Ends _ fd s _ (set_buffer-IsValid p slot buffer now v) used
    finish-Ends p fd s slot kevent_ok now (too_large buffer) v used =
        close_connection-Ends _ fd s _ (set_buffer-IsValid p slot buffer now v) used
    finish-Ends p fd s slot kevent_ok now (unfinished buffer) v used = record {
      valid = set_buffer-IsValid p slot buffer now v;
      open_or_closed = rw used refl;
    }

    -- A turn on a connected slot of a valid table, whatever is received and whatever the handlers do,
    -- leaves the table valid and closes the descriptor exactly if it takes it out of the table: none
    -- is leaked and none is closed while it is connected.
    pub worker_turn-Ends :
        (max_req_size : ℕ) (p : Pool) (fd slot : ℕ) (rs : List Received) (kevent_ok : Bool)
        (now : ℕ)
        → IsValid p
        → p.connections fd ≡ some slot
        → Ends fd
            (worker_turn registry handler http_send_error max_req_size p slot rs kevent_ok now)
    unfolding worker_turn closed
    worker_turn-Ends max_req_size p fd slot rs kevent_ok now v used = rw (v.live_fd fd slot used) (
        if_both (Ends fd) _ _ _ (record { valid = v; open_or_closed = rw used refl })
          (finish-Ends p fd slot slot kevent_ok now _ v used))

    -- A pointer to a slot that its descriptor is not connected to leaves everything as it is.
    pub worker_turn_stale :
        (max_req_size : ℕ) (p : Pool) (slot : ℕ) (rs : List Received) (kevent_ok : Bool) (now : ℕ)
        → p.connections (p.pool slot).fd ≢ some slot
        → worker_turn registry handler http_send_error max_req_size p slot rs kevent_ok now
          ≡ record { pool = p; actions = [] }
    unfolding worker_turn is_stale
    worker_turn_stale max_req_size p slot rs kevent_ok now gone =
        ground (arith, same-ne (p.connections (p.pool slot).fd) slot gone)
