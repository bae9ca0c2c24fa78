-- ===== src/Http/Response.antt =====
-- src/http/response_api.c, and the status text of response_io.c: building a response and sending it.
pub mod Client
pub mod Framing
pub mod Limits
use miniweb.Prelude.{
  ℕ, ◌+◌, ◌-◌, ◌*◌, Bool, true, false, not, ◌&&◌, ◌||◌, Option, none, some, List, [], ◌∷◌, ◌++◌,
  Bytes, codes, crlf, decimal, leb, ltb, ◌==◌, length, take, if◌then◌else◌, store,
}
use miniweb.Http.Request.{HttpRequest}
use miniweb.Http.ResponseIo.{
  Event, Sent, error, nothing, http_response_write_all, http_response_writev_all,
}
use miniweb.Http.ResponsePool.{
  Handle, Pools, response_pool_shard_index, http_response_pool_acquire, http_response_pool_release,
}

-- The size of `headers` and that of `header`.
abbrev pub headers_size : ℕ
headers_size = 2048

abbrev pub head_size : ℕ
head_size = 4096

-- `none` is a NULL body; `headers` holds the `headers_len` bytes.
pub record HttpResponse : Type 0 where
  pub status_code : ℕ
  pub content_type : Bytes
  pub body : Option Bytes
  pub body_len : ℕ
  pub free_body : Bool
  pub headers : Bytes

abbrev pub fresh_response : HttpResponse
fresh_response = record {
  status_code = 200;
  content_type = codes "text/html; charset=utf-8";
  body = none;
  body_len = 0;
  free_body = false;
  headers = [];
}

-- A response and where it lies: an item of the pool, or a block of its own.
pub data Created : Type 0 where
  no_response : Created
  response_at : Option Handle → HttpResponse → Created

unfoldable pub created_at : ℕ → Bool → Option ℕ → Created
created_at shard has_memory (some item) =
    response_at (some (record { shard = shard; item = item })) fresh_response
created_at shard has_memory none =
    if has_memory then response_at none fresh_response else no_response

-- The arguments are the hash of the thread's identifier and whether `calloc` gives a block.
unfoldable pub http_response_create : ℕ → Bool → Pools → Created × Pools
http_response_create thread_hash has_memory pools =
    let shard = response_pool_shard_index thread_hash in
    let taken = http_response_pool_acquire shard pools in
    (created_at shard has_memory taken.0, taken.1)

unfoldable pub http_response_set_status : HttpResponse → ℕ → HttpResponse
http_response_set_status resp code = record resp { status_code = code }

unfoldable pub http_response_set_body : HttpResponse → Option Bytes → ℕ → Bool → HttpResponse
http_response_set_body resp body len must_free = record resp {
  body = body;
  body_len = len;
  free_body = must_free;
}

abbrev pub header_line : Bytes → Bytes → Bytes
header_line name value = name ++ (codes ": " ++ (value ++ crlf))

-- `snprintf` writes what there is room for, less a byte for the NUL.
unfoldable pub http_response_add_header : HttpResponse → Bytes → Bytes → HttpResponse
http_response_add_header resp name value =
    let space = headers_size - length resp.headers in
    let line = header_line name value in
    if leb headers_size (length resp.headers)
    then resp
    else if ltb (length line) space
    then record resp { headers = resp.headers ++ line }
    else record resp { headers = resp.headers ++ take (space - 1) line }

unfoldable pub http_response_status_text : ℕ → Bytes
http_response_status_text status_code =
    if status_code == 200
    then codes "OK"
    else if status_code == 301
    then codes "Moved Permanently"
    else if status_code == 302
    then codes "Found"
    else if status_code == 304
    then codes "Not Modified"
    else if status_code == 400
    then codes "Bad Request"
    else if status_code == 403
    then codes "Forbidden"
    else if status_code == 404
    then codes "Not Found"
    else if status_code == 405
    then codes "Method Not Allowed"
    else if status_code == 500
    then codes "Internal Server Error"
    else if status_code == 503
    then codes "Service Unavailable"
    else codes "Unknown"

-- The lines that `http_response_send` formats, without their ends.
unfoldable pub status_line : HttpResponse → Bytes
status_line resp =
    codes "HTTP/1.1 "
    ++ (decimal resp.status_code ++ (codes " " ++ http_response_status_text resp.status_code))

abbrev pub type_line : HttpResponse → Bytes
type_line resp = codes "Content-Type: " ++ resp.content_type

abbrev pub length_line : HttpResponse → Bytes
length_line resp = codes "Content-Length: " ++ decimal resp.body_len

abbrev pub last_lines : Bool → List Bytes
last_lines keep_alive =
    (codes "Connection: " ++ (if keep_alive then codes "keep-alive" else codes "close"))
    ∷ codes "Server: MiniWeb/kqueue"
    ∷ []

unfoldable pub fixed_lines : Bool → HttpResponse → List Bytes
fixed_lines keep_alive resp =
    status_line resp ∷ type_line resp ∷ length_line resp ∷ last_lines keep_alive

abbrev pub with_ends : List Bytes → Bytes
with_ends [] = []
with_ends (line ∷ lines) = line ++ (crlf ++ with_ends lines)

-- The headers are left out if they do not fit.
unfoldable pub with_headers : Bytes → Bytes → Bytes
with_headers head headers =
    if ltb (length headers) (head_size - length head) then head ++ headers else head

-- The head of the message; `none` is the result -1 before a byte is sent.
unfoldable pub response_head : Bool → HttpResponse → Option Bytes
response_head keep_alive resp =
    let fixed = with_ends (fixed_lines keep_alive resp) in
    let head = with_headers fixed resp.headers in
    if leb head_size (length fixed) || leb head_size (length head + 2)
    then none
    else some (head ++ crlf)

-- The `body_len` bytes at `body`.
unfoldable pub body_bytes : HttpResponse → Bytes
body_bytes resp = elim resp.body [ none ↦ [] | some body ↦ take resp.body_len body ]

unfoldable pub send_head : List Event → HttpResponse → Option Bytes → Sent
send_head es resp none = nothing error
send_head es resp (some head) =
    if length (body_bytes resp) == 0
    then http_response_write_all es head
    else http_response_writev_all es (head ∷ body_bytes resp ∷ [])

-- The kernel's answers and the result are those of ResponseIo.
unfoldable pub http_response_send : List Event → HttpRequest → HttpResponse → Sent
http_response_send es req resp = send_head es resp (response_head req.keep_alive resp)

-- The body is freed if it is the response's; what is left of that is the pool.
unfoldable pub http_response_free : Option Handle → Pools → Pools
http_response_free none pools = pools
http_response_free (some item) pools = (http_response_pool_release (some item) pools).1
