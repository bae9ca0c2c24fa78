-- ===== src/Examples/Responses.antt =====
-- A response, the sending of files and errors, and the reading of a file in pieces.
use miniweb.Prelude.{
  decimal, decimal_from, ℕ, ◌≡◌, ◌<◌, ◌≤◌, ◌⊎◌, ◌-◌, refl, true, List, [], ◌∷◌, ◌++◌, none, some,
  Bytes, codes, length, take, arith,
}
use miniweb.Router.{Registry}
use miniweb.Http.Request.{HttpRequest}
use miniweb.Http.ResponseIo.{
  http_response_writev_all, after, handle, counting, flatten, advance, Event, done, writes, wrote,
}
use miniweb.Http.ResponsePool.{zeroed}
use miniweb.Http.ResponsePool.Leases.{AllHold, run as run_pools}
use miniweb.Http.FileCache.{Stat}
use miniweb.Http.FileCache.Calls.{http_file_cache_lookup}
use miniweb.Http.Response.{
  send_head, response_head, fixed_lines, status_line, http_response_status_text, with_headers,
  HttpResponse, fresh_response, http_response_add_header, http_response_send, header_line,
  headers_size, body_bytes, with_ends,
}
use miniweb.Http.Response.Client.{after_blank, announced_length}
use miniweb.Http.Response.Framing.{send_framed}
use miniweb.Http.Response.Limits.{add_header_fits_or_fills}
use miniweb.Http.Helpers.{Caller, http_send_json, http_send_html, http_send_error}
use miniweb.Http.Helpers.Kept.{senders_give_back}
use miniweb.Http.SendFile.{ReadAnswer, got, interrupted, read_entire_file, if_any, FileCall}
use miniweb.Http.SendFile.Pieces.{content, read_entire_file_lem}
use miniweb.Http.SendFile.NeverCached.{after_sends, never_cached}

abbrev request : HttpRequest
request = record {
  method = codes "GET";
  url = codes "/a";
  version = codes "HTTP/1.1";
  keep_alive = true;
  buffer = [];
}

abbrev resp : HttpResponse
resp = record fresh_response {
  content_type = codes "t";
  body = some (codes "hi");
  body_len = 2;
  headers = with_ends (codes "a: b" ∷ []);
}

abbrev one_write : List Event
one_write = writes (wrote 4096) ∷ []

is_sent : (http_response_send one_write request resp).status ≡ done
unfolding http_response_send send_head response_head fixed_lines status_line decimal decimal_from
    http_response_status_text with_headers body_bytes http_response_writev_all after handle counting
    flatten advance
is_sent = refl

send_framed_example :
    (after_blank (http_response_send one_write request resp).sent ≡ some (codes "hi"))
    × (announced_length (http_response_send one_write request resp).sent ≡ some 2)
unfolding body_bytes
send_framed_example =
    send_framed one_write request resp (codes "a: b" ∷ []) (ground arith, tt) refl
      ((ground arith, (ground arith, (ground arith, (ground arith, tt)))), tt) is_sent

add_header_fits_or_fills_example :
    ((length (resp.headers ++ header_line (codes "c") (codes "d")) < headers_size)
      × ((http_response_add_header resp (codes "c") (codes "d")).headers
          ≡ resp.headers ++ header_line (codes "c") (codes "d")))
    ⊎ ((headers_size ≤ length (resp.headers ++ header_line (codes "c") (codes "d")))
        × ((rest : Bytes) × ((http_response_add_header resp (codes "c") (codes "d")).headers ++ rest
              ≡ resp.headers ++ header_line (codes "c") (codes "d")))
        × (length (http_response_add_header resp (codes "c") (codes "d")).headers
            ≡ headers_size - 1))
add_header_fits_or_fills_example =
    add_header_fits_or_fills resp (codes "c") (codes "d") (ground arith)

abbrev reads : List ReadAnswer
reads = got (codes "ab") ∷ interrupted ∷ got (codes "cd") ∷ []

read_entire_file_lem_example : read_entire_file reads 3 ≡ if_any (take 3 (content reads))
read_entire_file_lem_example = read_entire_file_lem reads 3

abbrev registry : Registry ℕ
registry = record { routes = []; prefix_routes = [] }

abbrev caller : Caller
caller = record { thread_hash = 3; has_memory = true }

senders_give_back_example :
    AllHold (record (run_pools []) {
      pools = (http_send_json caller one_write request (codes "x") (run_pools []).pools).1;
    })
    × AllHold (record (run_pools []) {
      pools = (http_send_html caller one_write request (codes "x") (run_pools []).pools).1;
    })
    × AllHold (record (run_pools []) {
      pools =
          (http_send_error registry caller one_write [] request 404 none (run_pools []).pools).1;
    })
senders_give_back_example =
    senders_give_back registry [] caller one_write request (codes "x") [] 404 none

abbrev stat : Stat
stat = record { st_mtime = 5; st_size = 4 }

abbrev file : FileCall
file = record {
  path = codes "static/a";
  mime = codes "text/css";
  caller = caller;
  opens = true;
  stat = some stat;
  copy_memory = true;
  lookup_time = 1000;
  body_memory = true;
  reads = reads;
  store_memory = true;
  store_time = 1000;
  chunks = [];
  events = one_write;
  beyond = [];
}

never_cached_example :
    (http_file_cache_lookup
      (codes "static/a")
      stat
      true
      1001
      (after_sends registry zeroed ((file, request) ∷ [])).cache).0
    ≡ none
never_cached_example =
    never_cached registry zeroed ((file, request) ∷ []) (codes "static/a") stat true 1001
