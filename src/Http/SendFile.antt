-- ===== src/Http/SendFile.antt =====
-- src/http/response_file.c: sending a file, from the cache, from memory or piece by piece. What `open`,
-- `fstat`, `read`, `malloc` and the clock answer are arguments; a list of the answers of `read` that is
-- at its end stands for the end of the file.
pub mod Pieces
pub mod NeverCached
use miniweb.Prelude.{
  ℕ, ◌+◌, ◌-◌, ◌*◌, Bool, true, false, not, ◌&&◌, ◌||◌, Option, none, some, List, [], ◌∷◌, ◌++◌,
  Bytes, codes, strip_prefix, is_some, ◌==◌, leb, ltb, length, take, if◌then◌else◌,
}
use miniweb.Http.Request.{HttpRequest}
use miniweb.Http.ResponseIo.{
  Event, Sent, Status, done, error, blocked, nothing, prepend, http_response_write_all,
}
use miniweb.Http.ResponsePool.{Pools, Handle}
use miniweb.Http.Response.{
  HttpResponse, Created, no_response, response_at, http_response_set_body, http_response_add_header,
  http_response_send, http_response_free,
}
use miniweb.Http.Helpers.{Caller, Served, create, http_send_error}
use miniweb.Http.FileCache.{Stat, max_bytes}
use miniweb.Http.FileCache.Calls.{Cache, http_file_cache_lookup, http_file_cache_store}
use miniweb.Router.{Registry}

-- The kernel cuts the bytes to the length that was passed; no bytes is the result 0.
pub data ReadAnswer : Type 0 where
  got : Bytes → ReadAnswer
  interrupted failed : ReadAnswer

abbrev pub then_rest : Bytes → (ℕ → Bytes) → ℕ → Bytes
then_rest [] loop left = []
then_rest (c ∷ new) loop left = (c ∷ new) ++ loop (left - length (c ∷ new))

-- The loop with `left` bytes to read.
unfoldable pub read_loop : List ReadAnswer → ℕ → Bytes
read_loop [] left = []
read_loop (interrupted ∷ rs) left = read_loop rs left
read_loop (failed ∷ rs) left = []
read_loop (got bytes ∷ rs) left =
    if left == 0 then [] else then_rest (take left bytes) (read_loop rs) left

-- `none` is the result -1, else it is the number of the bytes in the buffer.
abbrev pub if_any : Bytes → Option Bytes
if_any [] = none
if_any (c ∷ s) = some (c ∷ s)

unfoldable pub read_entire_file : List ReadAnswer → ℕ → Option Bytes
unfolding read_loop
read_entire_file rs len = if_any (read_loop rs len)

-- The size of `buf`.
abbrev pub chunk_size : ℕ
chunk_size = 65536

unfoldable pub chunk_of : Bytes → Bytes
chunk_of bytes = take chunk_size bytes

abbrev pub after_status : Status → Sent → Sent → Sent
after_status done r rest = prepend r.sent rest
after_status error r rest = r
after_status blocked r rest = r

-- What comes next is done only after a send that succeeded.
abbrev pub after_chunk : Sent → Sent → Sent
after_chunk r rest = after_status r.status r rest

abbrev pub send_chunk : Bytes → List Event → Sent → Sent
send_chunk [] es rest = nothing done
send_chunk (c ∷ chunk) es rest = after_chunk (http_response_write_all es (c ∷ chunk)) rest

-- The last loop. Each answer of `read` goes with the kernel's answers to the write of what was read.
unfoldable pub send_chunks : List (ReadAnswer × List Event) → Sent
send_chunks [] = nothing done
send_chunks ((interrupted, es) ∷ rest) = nothing done
send_chunks ((failed, es) ∷ rest) = nothing done
send_chunks ((got bytes, es) ∷ rest) = send_chunk (chunk_of bytes) es (send_chunks rest)

-- The answers to the calls of one `http_send_file`.
pub record FileCall : Type 0 where
  pub path : Bytes
  pub mime : Bytes
  pub caller : Caller
  pub opens : Bool
  pub stat : Option Stat
  pub copy_memory : Bool
  pub lookup_time : ℕ
  pub body_memory : Bool
  pub reads : List ReadAnswer
  pub store_memory : Bool
  pub store_time : ℕ
  pub chunks : List (ReadAnswer × List Event)
  pub events : List Event
  pub beyond : Bytes

-- The pool of the responses and the cache.
pub record Shared : Type 0 where
  pub pools : Pools
  pub cache : Cache

pub record FileSent : Type 0 where
  pub result : Sent
  pub shared : Shared
  pub keep_alive : Bool

abbrev pub is_plain_text : Bytes → Bool
is_plain_text mime = is_some (strip_prefix (codes "text/plain") mime)

unfoldable pub file_response : Bytes → HttpResponse → HttpResponse
file_response mime resp =
    let typed = record resp { content_type = mime } in
    if is_plain_text mime
    then http_response_add_header typed (codes "Content-Disposition") (codes "inline")
    else typed

abbrev pub with_pools : HttpRequest → Cache → Served → FileSent
with_pools req cache (r, pools) = record {
  result = r;
  shared = record { pools = pools; cache = cache };
  keep_alive = req.keep_alive;
}

-- A response is sent and freed.
unfoldable pub finish :
    FileCall → HttpRequest → HttpResponse → Option Handle → Pools → Cache → FileSent
finish f req resp place pools cache =
    with_pools req cache (http_response_send f.events req resp, http_response_free place pools)

-- `rc` is the 0 of `http_response_send` when it is passed on as the length of the body.
abbrev pub store_sent : FileCall → Stat → Bytes → Status → Cache → Cache
store_sent f st body done cache =
    http_file_cache_store f.path st (take 0 body) f.store_memory f.store_time cache
store_sent f st body error cache = cache
store_sent f st body blocked cache = cache

unfoldable pub send_read :
    FileCall → HttpRequest → Stat → HttpResponse → Option Handle → Bytes → Pools → Cache → FileSent
send_read f req st resp place body pools cache =
    let filled = http_response_set_body resp (some body) (length body) true in
    let r = http_response_send f.events req filled in
    finish f req filled place pools (store_sent f st body r.status cache)

-- The file in pieces, behind a head that announces its size.
unfoldable pub send_pieces :
    FileCall → HttpRequest → Stat → HttpResponse → Option Handle → Pools → Cache → FileSent
send_pieces f req st resp place pools cache =
    let closing = record req { keep_alive = false } in
    let head =
      http_response_send f.events closing (http_response_set_body resp none st.st_size false) in
    with_pools closing cache
      (after_chunk head (send_chunks f.chunks), http_response_free place pools)

module _ {H : Type 0} (registry : Registry H) where
  abbrev pub send_failure : FileCall → HttpRequest → ℕ → Bytes → Pools → Cache → FileSent
  send_failure f req code message pools cache =
      with_pools req cache
        (http_send_error registry f.caller f.events f.beyond req code (some message) pools)

  unfoldable pub send_memory :
      FileCall
      → HttpRequest
      → Stat
      → HttpResponse
      → Option Handle
      → Option Bytes
      → Pools
      → Cache
      → FileSent
  send_memory f req st resp place none pools cache =
      send_failure f req 500 (codes "Read error") (http_response_free place pools) cache
  send_memory f req st resp place (some body) pools cache =
      send_read f req st resp place body pools cache

  unfoldable pub send_looked_up :
      FileCall
      → HttpRequest
      → Stat
      → HttpResponse
      → Option Handle
      → Pools
      → Option Bytes × Cache
      → FileSent
  send_looked_up f req st resp place pools (some cached, cache) =
      finish f req (http_response_set_body resp (some cached) (length cached) true) place pools
        cache
  send_looked_up f req st resp place pools (none, cache) =
      if ltb 0 st.st_size && leb st.st_size (max_bytes * 4)
      then (if not f.body_memory
          then with_pools req cache (nothing error, http_response_free place pools)
          else send_memory f req st resp place (read_entire_file f.reads st.st_size) pools cache)
      else send_pieces f req st resp place pools cache

  unfoldable pub send_created : FileCall → HttpRequest → Stat → Created × Pools → Cache → FileSent
  send_created f req st (no_response, pools) cache = with_pools req cache (nothing error, pools)
  send_created f req st (response_at place resp, pools) cache =
      send_looked_up f req st (file_response f.mime resp) place pools
        (http_file_cache_lookup f.path st f.copy_memory f.lookup_time cache)

  unfoldable pub send_stat : FileCall → HttpRequest → Option Stat → Shared → FileSent
  send_stat f req none s = send_failure f req 500 (codes "Cannot stat file") s.pools s.cache
  send_stat f req (some st) s = send_created f req st (create f.caller s.pools) s.cache

  unfoldable pub http_send_file : FileCall → HttpRequest → Shared → FileSent
  unfolding send_stat
  http_send_file f req s =
      if not f.opens
      then send_failure f req 404 (codes "File not found") s.pools s.cache
      else send_stat f req f.stat s
