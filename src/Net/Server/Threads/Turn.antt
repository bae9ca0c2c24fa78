-- ===== src/Net/Server/Threads/Turn.antt =====
-- A turn of Net.Worker as a run of a worker's steps with no other thread in between.
use miniweb.Prelude.{
  ℕ, ◌-◌, ◌≡◌, refl, ap, ◌∙◌, Bool, ◌&&◌, ◌||◌, Option, none, some, List, [], ◌∷◌, ◌++◌, Bytes,
  c_string, leb, length, take, store, arith, Bool-cases, if_both, inl, inr, pos,
}
use miniweb.Net.ConnectionPool.{Pool, free, is_stale, max_connections}
use miniweb.Net.Worker.{
  max_keepalive_requests, Received, bytes, would_block, failed, Outcome, complete, drained, broken,
  too_large, unfinished, after_receive, receive, Reply, Action, Turn, set_buffer, close_connection,
  try_rearm_keepalive, respond, serve, finish, worker_turn,
}
use miniweb.Net.Worker.Request.{
  RequestLine, parse_request_line, find_header_end, request_keep_alive,
}
use miniweb.Http.Request.{HttpRequest}
use miniweb.Router.{Registry, route_match}
use miniweb.Net.Server.Threads.{
  popped, checking, serving, rearming, closing, Threads, received, WorkerStep, reads, skips, takes,
  receives, waits_for_more, rearms, enables, closes_served, closes_rearmed, frees,
}

pub data WorkerRun : Threads → Threads → Type 0 where
  stays : (t : Threads) → WorkerRun t t
  goes : {t t' t'' : Threads} → WorkerStep t t' → WorkerRun t' t'' → WorkerRun t t''

-- The steps of a worker lead from `t` to a table `p`.
abbrev pub Yields : Threads → Pool → Type 0
Yields t p = (t' : Threads) × WorkerRun t t' × (t'.pool ≡ p)

step_before : {t t' : Threads} {p : Pool} → WorkerStep t t' → Yields t' p → Yields t p
step_before s (t'', run, e) = (t'', goes s run, e)

abbrev bytes_of : Outcome → Bytes
bytes_of (complete b) = b
bytes_of (drained b) = b
bytes_of (broken b) = b
bytes_of (too_large b) = b
bytes_of (unfinished b) = b

abbrev Extends : Bytes → Bytes → Type 0
Extends buffer b = (more : Bytes) × (b ≡ buffer ++ more)

append_empty : (s : Bytes) → s ≡ s ++ []
append_empty [] = refl
append_empty (c ∷ s) = ap (◌∷◌ c) (append_empty s)

append_twice : (s t u : Bytes) → (s ++ t) ++ u ≡ s ++ (t ++ u)
append_twice [] t u = refl
append_twice (c ∷ s) t u = ap (◌∷◌ c) (append_twice s t u)

after_receive-Extends :
    (max_req_size : ℕ) (buffer new : Bytes) (loop : Bytes → Outcome)
    → ((b : Bytes) → Extends b (bytes_of (loop b)))
    → Extends buffer (bytes_of (after_receive max_req_size buffer new loop))
unfolding after_receive
after_receive-Extends max_req_size buffer [] loop h = ([], append_empty buffer)
after_receive-Extends max_req_size buffer (c ∷ new) loop h =
    let b = buffer ++ c ∷ new in
    elim (Bool-cases (find_header_end (c_string b))) [
      | inl done ↦ (c ∷ new, rw done refl)
      | inr more ↦ elim (Bool-cases (leb (max_req_size - 1) (length b))) [
        | inl full ↦ (c ∷ new, rw (more, full) refl)
        | inr room ↦
            let (rest, e) = h b in
            (c ∷ new ++ rest, rw (more, room) (e ∙ append_twice buffer (c ∷ new) rest))
      ]
    ]

-- The receive loop only appends to the buffer.
receive-Extends :
    (max_req_size : ℕ) (rs : List Received) (buffer : Bytes)
    → Extends buffer (bytes_of (receive max_req_size rs buffer))
unfolding receive
receive-Extends max_req_size [] buffer = ([], append_empty buffer)
receive-Extends max_req_size (would_block ∷ rs) buffer = ([], append_empty buffer)
receive-Extends max_req_size (failed ∷ rs) buffer = ([], append_empty buffer)
receive-Extends max_req_size (bytes new ∷ rs) buffer =
    after_receive-Extends max_req_size buffer _ (receive max_req_size rs)
      (receive-Extends max_req_size rs)

store-here : {A : Type 0} (f : ℕ → A) (i : ℕ) (x : A) → store f i x i ≡ x
store-here f i x = ground arith

closes_and_frees :
    (t : Threads) (i slot fd : ℕ) → t.workers i ≡ serving slot fd → Yields t (free t.pool (pos fd))
closes_and_frees t i slot fd e =
    step_before (closes_served t i slot fd e)
      (step_before (frees _ i fd (store-here t.workers i (closing fd))) (_, stays _, refl))

module _ {H : Type 0} where
  rearms_or_closes :
      (t : Threads) (i slot fd : ℕ) (kevent_ok : Bool) (now : ℕ) (actions : List (Action H))
      → t.workers i ≡ serving slot fd
      → Yields t (try_rearm_keepalive t.pool fd slot kevent_ok now actions).pool
  unfolding try_rearm_keepalive close_connection
  rearms_or_closes t i slot fd kevent_ok now actions e =
      elim (Bool-cases (leb max_keepalive_requests (t.pool.pool slot).requests_served)) [
        | inl spent ↦ rw spent (closes_and_frees t i slot fd e)
        | inr left ↦
            let phase = store-here t.workers i (rearming slot fd) in
            rw left (
              step_before (rearms t i slot fd now e (ground (arith, left)))
                (elim (Bool-cases kevent_ok) [
                  | inl ok ↦ rw ok (step_before (enables _ i slot fd phase) (_, stays _, refl))
                  | inr lost ↦ rw lost (
                      step_before (closes_rearmed _ i slot fd phase) (
                        step_before
                          (frees _ i fd
                            (store-here (store t.workers i (rearming slot fd)) i (closing fd)))
                          (_, stays _, refl)))
                ]))
      ]

  module _ (registry : Registry H) (handler : H → HttpRequest → Reply)
      (http_send_error : ℕ → HttpRequest → Reply) where
    serves :
        (t : Threads) (i slot fd : ℕ) (buffer : Bytes) (kevent_ok : Bool) (now : ℕ)
        (line : Option RequestLine)
        → t.workers i ≡ serving slot fd
        → Yields t
            (serve registry handler http_send_error t.pool fd slot buffer kevent_ok now line).pool
    unfolding serve close_connection respond
    serves t i slot fd buffer kevent_ok now none e = closes_and_frees t i slot fd e
    serves t i slot fd buffer kevent_ok now (some line) e =
        let req : HttpRequest = record {
          method = line.method;
          url = line.url;
          version = line.version;
          keep_alive = request_keep_alive (c_string buffer) line.version;
          buffer = buffer;
        } in
        let answer =
          respond registry handler http_send_error req
            (route_match registry line.method line.url) in
        if_both (λ (turn : Turn H). Yields t turn.pool) (answer.1.keep_alive && answer.1.succeeded)
          (try_rearm_keepalive t.pool fd slot kevent_ok now (answer.0 ∷ []))
          (close_connection t.pool fd (answer.0 ∷ []))
          (rearms_or_closes t i slot fd kevent_ok now (answer.0 ∷ []) e)
          (closes_and_frees t i slot fd e)

    finishes :
        (t : Threads) (i slot fd : ℕ) (kevent_ok : Bool) (now : ℕ) (o : Outcome) (more : Bytes)
        → t.workers i ≡ serving slot fd
        → bytes_of o ≡ received t.pool slot more
        → Yields t (finish registry handler http_send_error t.pool fd slot kevent_ok now o).pool
    unfolding finish close_connection set_buffer
    finishes t i slot fd kevent_ok now (complete b) more e same = rw same (
        step_before (receives t i slot fd more now e) (
          serves _ i slot fd (received t.pool slot more) kevent_ok now
            (parse_request_line (c_string (received t.pool slot more))) e))
    finishes t i slot fd kevent_ok now (drained b) more e same = rw same (
        step_before (receives t i slot fd more now e)
          (step_before (waits_for_more _ i slot fd e) (_, stays _, refl)))
    finishes t i slot fd kevent_ok now (broken b) more e same =
        rw same (step_before (receives t i slot fd more now e) (closes_and_frees _ i slot fd e))
    finishes t i slot fd kevent_ok now (too_large b) more e same =
        rw same (step_before (receives t i slot fd more now e) (closes_and_frees _ i slot fd e))
    finishes t i slot fd kevent_ok now (unfinished b) more e same =
        rw same (step_before (receives t i slot fd more now e) (_, stays _, refl))

    -- Whatever the socket and the handlers do, what a turn makes of the table is what some steps of the
    -- worker that took the slot from the queue make of it.
    worker_turn-Yields :
        (t : Threads) (i slot max_req_size : ℕ) (rs : List Received) (kevent_ok : Bool) (now : ℕ)
        → t.workers i ≡ popped slot
        → Yields t
            (worker_turn registry handler http_send_error max_req_size t.pool slot rs kevent_ok
              now).pool
    unfolding worker_turn
    worker_turn-Yields t i slot max_req_size rs kevent_ok now e =
        let fd = (t.pool.pool slot).fd in
        let phase = store-here t.workers i (checking slot fd) in
        step_before (reads t i slot e)
          (elim (Bool-cases (leb max_connections fd || is_stale t.pool fd (some slot))) [
            | inl old ↦ rw old (step_before (skips _ i slot fd phase old) (_, stays _, refl))
            | inr live ↦
                let (more, same) =
                  receive-Extends max_req_size rs
                    (take (t.pool.pool slot).bytes_read (t.pool.pool slot).buffer) in
                rw live (
                  step_before (takes _ i slot fd phase live) (
                    finishes _ i slot fd kevent_ok now _ more
                      (store-here (store t.workers i (checking slot fd)) i (serving slot fd)) same))
          ])
