-- ===== src/Examples/Worker.antt =====
-- A request on the connection of one client.
use miniweb.Prelude.{
  crlf, ℕ, ◌≡◌, refl, ◌<◌, true, some, List, [], ◌∷◌, ◌++◌, arith, pos, Bytes, codes, length,
}
use miniweb.Net.ConnectionPool.{Pool, init, alloc, take_slot, fill_free_stack}
use miniweb.Net.ConnectionPool.Invariant.{Call, allocs, run-init-IsValid, run as run_calls, step}
use miniweb.Router.{Registry}
use miniweb.Http.Request.{HttpRequest}
use miniweb.Net.Worker.{Received, bytes, would_block, receive, Reply, worker_turn}
use miniweb.Net.Worker.Request.{RequestLine, parse_request_line}
use miniweb.Net.Worker.Parse.{start_line, IsPlain, parse_start_line, parse_sound}
use miniweb.Net.Worker.Turns.{Ends, worker_turn-Ends}
use miniweb.Net.Worker.Buffer.{buffer_of, receive_bounded}

abbrev words : RequestLine
words = record { method = codes "GET"; url = codes "/d"; version = codes "HTTP/1.1" }

words-IsPlain : IsPlain words
words-IsPlain = record {
  method_plain = (ground arith, (ground arith, (ground arith, tt)));
  url_plain = (ground arith, (ground arith, tt));
  version_plain = (
    ground arith,
    (
      ground arith,
      (
        ground arith,
        (ground arith, (ground arith, (ground arith, (ground arith, (ground arith, tt))))),
      ),
    ),
  );
  no_blank = refl;
  room = refl;
}

parse_start_line_example : parse_request_line (start_line words crlf) ≡ some words
parse_start_line_example = parse_start_line words crlf words-IsPlain

parse_sound_example :
    ((rest : Bytes) × (start_line words crlf ≡ start_line words rest))
    × (length (codes "GET") < 32)
    × (length (codes "/d") < 512)
    × (length (codes "HTTP/1.1") < 32)
parse_sound_example = parse_sound (start_line words crlf) words parse_start_line_example

-- One client on descriptor 7, in slot 0.
abbrev calls : List Call
calls = allocs (pos 7) (some 99) (pos 100) 1000 ∷ []

abbrev table : Pool
table = run_calls init calls

in_slot : table.connections 7 ≡ some 0
unfolding alloc run_calls step init take_slot fill_free_stack
in_slot = refl

abbrev registry : Registry ℕ
registry = record {
  routes = record { method = codes "GET"; path = codes "/d"; handler = 1 } ∷ [];
  prefix_routes = [];
}

abbrev keeps : ℕ → HttpRequest → Reply
keeps h req = record { succeeded = true; keep_alive = req.keep_alive }

abbrev request : List Received
request = bytes (codes "GET /d HTTP") ∷ bytes (codes "/1.1" ++ (crlf ++ crlf)) ∷ would_block ∷ []

worker_turn-Ends_example : Ends 7 (worker_turn registry keeps keeps 16384 table 0 request true 1001)
worker_turn-Ends_example =
    worker_turn-Ends registry keeps keeps 16384 table 7 0 request true 1001 (run-init-IsValid calls)
      in_slot

receive_bounded_example : length (buffer_of (receive 64 request [])) < 64
receive_bounded_example = receive_bounded 64 request [] (omega arith)
