-- ===== src/Net/Worker.antt =====
-- src/net/worker.c: what a worker thread does with one connection that it takes from the queue. The
-- answers of `recv` are a list, and so is what the turn does outside the connection table.
-- `max_req_size` is between 1 and the size of the buffer, which the configuration's checks see to.
-- A turn is modelled with no other thread in between; Net.Server.Threads has the interleavings.
pub mod Request
pub mod Parse
pub mod Turns
pub mod Buffer
pub mod Elsewhere
use miniweb.Prelude.{
  c_string, ℕ, zero, suc, ◌+◌, ◌-◌, Bool, true, false, not, ◌&&◌, ◌||◌, Option, none, some, List,
  [], ◌∷◌, ◌++◌, Bytes, ◌==◌, leb, ltb, length, take, if◌then◌else◌, store, pos, is_some,
}
use miniweb.Net.ConnectionPool.{Pool, Connection, is_stale, free, max_connections}
use miniweb.Net.Worker.Request.{
  RequestLine, parse_request_line, find_header_end, request_keep_alive,
}
use miniweb.Http.Request.{HttpRequest}
use miniweb.Router.{Registry, route_match, route_path_known}

-- MAX_KEEPALIVE_REQUESTS
abbrev pub max_keepalive_requests : ℕ
max_keepalive_requests = 64

-- The kernel cuts `bytes` to the length that was passed; no bytes is the result 0.
pub data Received : Type 0 where
  bytes : Bytes → Received
  would_block failed : Received

-- How the loop over `recv` ends, with the bytes that are then in the buffer: the header is complete, or
-- the socket has no more, or it is gone, or the buffer is full, or the loop is still in a call.
pub data Outcome : Type 0 where
  complete drained broken too_large unfinished : Bytes → Outcome

-- What one receive of `n` more bytes leads to, with the rest of the loop as a function of the buffer.
unfoldable pub after_receive : ℕ → Bytes → Bytes → (Bytes → Outcome) → Outcome
after_receive max_req_size buffer [] loop = broken buffer
after_receive max_req_size buffer (c ∷ new) loop =
    let buffer' = buffer ++ c ∷ new in
    if find_header_end (c_string buffer')
    then complete buffer'
    else if leb (max_req_size - 1) (length buffer')
    then too_large buffer'
    else loop buffer'

unfoldable pub receive : ℕ → List Received → Bytes → Outcome
receive max_req_size [] buffer = unfinished buffer
receive max_req_size (would_block ∷ rs) buffer = drained buffer
receive max_req_size (failed ∷ rs) buffer = broken buffer
receive max_req_size (bytes new ∷ rs) buffer =
    after_receive max_req_size buffer (take (max_req_size - length buffer - 1) new)
      (receive max_req_size rs)

-- What a handler leaves: whether its result is 0, and the request's `keep_alive`.
pub record Reply : Type 0 where
  pub succeeded : Bool
  pub keep_alive : Bool

pub data Action (H : Type 0) : Type 0 where
  runs : H → Action H
  sends_error : ℕ → Action H
  enables closes : ℕ → Action H

pub record Turn (H : Type 0) : Type 0 where
  pub pool : Pool
  pub actions : List (Action H)

-- The fields that the loop writes.
unfoldable pub set_buffer : Pool → ℕ → Bytes → ℕ → Pool
set_buffer p slot buffer now = record p {
  pool =
      store p.pool slot
        (record (p.pool slot) { buffer = buffer; bytes_read = length buffer; last_activity = now });
}

-- The fields that `try_rearm_keepalive` writes.
unfoldable pub reset_request : Pool → ℕ → ℕ → Pool
reset_request p slot now = record p {
  pool = store p.pool slot (record (p.pool slot) {
    buffer = [];
    bytes_read = 0;
    last_activity = now;
    requests_served = (p.pool slot).requests_served + 1;
  });
}

module _ {H : Type 0} where
  unfoldable pub close_connection : Pool → ℕ → List (Action H) → Turn H
  close_connection p fd actions = record {
    pool = free p (pos fd);
    actions = actions ++ closes fd ∷ [];
  }

  -- `kevent_ok` is the result of `kevent`, whose call comes last: the connection is then open or closed.
  unfoldable pub try_rearm_keepalive : Pool → ℕ → ℕ → Bool → ℕ → List (Action H) → Turn H
  try_rearm_keepalive p fd slot kevent_ok now actions =
      let p' = reset_request p slot now in
      let tried = actions ++ enables fd ∷ [] in
      if leb max_keepalive_requests (p.pool slot).requests_served
      then close_connection p fd actions
      else if kevent_ok
      then record { pool = p'; actions = tried }
      else close_connection p' fd tried

  -- The handlers are parameters, and so is `http_send_error` as the last resort for a request.
  module _ (registry : Registry H) (handler : H → HttpRequest → Reply)
      (http_send_error : ℕ → HttpRequest → Reply) where
    unfoldable pub respond : HttpRequest → Option H → Action H × Reply
    respond req (some h) = (runs h, handler h req)
    respond req none =
        let code = if route_path_known registry (some req.url) then 405 else 404 in
        (sends_error code, http_send_error code req)

    unfoldable pub serve : Pool → ℕ → ℕ → Bytes → Bool → ℕ → Option RequestLine → Turn H
    serve p fd slot buffer kevent_ok now none = close_connection p fd (sends_error 400 ∷ [])
    serve p fd slot buffer kevent_ok now (some line) =
        let req : HttpRequest = record {
          method = line.method;
          url = line.url;
          version = line.version;
          keep_alive = request_keep_alive (c_string buffer) line.version;
          buffer = buffer;
        } in
        let (action, reply) = respond req (route_match registry line.method line.url) in
        if reply.keep_alive && reply.succeeded
        then try_rearm_keepalive p fd slot kevent_ok now (action ∷ [])
        else close_connection p fd (action ∷ [])

    unfoldable pub finish : Pool → ℕ → ℕ → Bool → ℕ → Outcome → Turn H
    finish p fd slot kevent_ok now (complete buffer) =
        serve (set_buffer p slot buffer now) fd slot buffer kevent_ok now
          (parse_request_line (c_string buffer))
    finish p fd slot kevent_ok now (drained buffer) = record {
      pool = set_buffer p slot buffer now;
      actions = enables fd ∷ [];
    }
    finish p fd slot kevent_ok now (broken buffer) =
        close_connection (set_buffer p slot buffer now) fd []
    finish p fd slot kevent_ok now (too_large buffer) =
        close_connection (set_buffer p slot buffer now) fd (sends_error 400 ∷ [])
    finish p fd slot kevent_ok now (unfinished buffer) = record {
      pool = set_buffer p slot buffer now;
      actions = [];
    }

    -- One round of `miniweb_worker_thread` with the connection in `slot`.
    unfoldable pub worker_turn : ℕ → Pool → ℕ → List Received → Bool → ℕ → Turn H
    worker_turn max_req_size p slot rs kevent_ok now =
        let conn = p.pool slot in
        if leb max_connections conn.fd || is_stale p conn.fd (some slot)
        then record { pool = p; actions = [] }
        else finish p conn.fd slot kevent_ok now
            (receive max_req_size rs (take conn.bytes_read conn.buffer))
