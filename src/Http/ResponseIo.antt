-- ===== src/Http/ResponseIo.antt =====
-- src/http/response_io.c: writing a whole buffer to a non-blocking socket. The kernel's answers are a
-- list, one for each call of `write`, `writev` or `poll` in the order of the calls; when the list is at
-- its end the thread is still inside a call. What reaches the socket is the list of the bytes sent.
pub mod Whole
use miniweb.Prelude.{
  ℕ, zero, suc, ◌+◌, ◌-◌, ◌≤◌, Bool, true, false, List, [], ◌∷◌, ◌++◌, Bytes, ◌==◌, leb, ltb,
  length, take, drop, if◌then◌else◌,
}

-- WRITE_RETRY_LIMIT
abbrev pub retry_limit : ℕ
retry_limit = 5

-- `wrote n` is a result of `n` bytes, cut by the kernel to the length that was passed; the others are
-- -1 with the `errno` that they name.
pub data Answer : Type 0 where
  wrote : ℕ → Answer
  eintr eagain failed : Answer

-- Of `poll`: `POLLOUT`, one of the error bits, other bits, no descriptor, -1 with EINTR, and -1.
pub data Polled : Type 0 where
  writable broken neither timeout interrupted poll_failed : Polled

pub data Event : Type 0 where
  writes : Answer → Event
  polls : Polled → Event

pub data Status : Type 0 where
  done error blocked : Status

pub record Sent : Type 0 where
  pub status : Status
  pub sent : Bytes

abbrev pub prepend : Bytes → Sent → Sent
prepend p r = record r { sent = p ++ r.sent }

-- `min(n, remaining)`
abbrev pub accepted : ℕ → Bytes → ℕ
accepted n rest = if ltb (length rest) n then length rest else n

-- Before a call of `write`, or inside the loop of `http_response_wait_fd_writable`.
pub data Mode : Type 0 where
  writing waiting : Mode

-- What the code does with an answer: it counts bytes, goes on, or returns -1. An answer to the other
-- kind of call cannot come, and counts as -1.
pub data Move : Type 0 where
  gives : ℕ → Move
  again : Mode → ℕ → Move
  fails : Move

unfoldable pub handle : Mode → ℕ → Event → Move
handle writing retries (writes (wrote n)) = gives n
handle writing retries (writes eintr) = again writing retries
handle writing retries (writes eagain) =
    if ltb retry_limit retries then fails else again waiting (retries + 1)
handle writing retries (writes failed) = fails
handle writing retries (polls p) = fails
handle waiting retries (polls writable) = again writing retries
handle waiting retries (polls neither) = again waiting retries
handle waiting retries (polls interrupted) = again waiting retries
handle waiting retries (polls broken) = fails
handle waiting retries (polls timeout) = fails
handle waiting retries (polls poll_failed) = fails
handle waiting retries (writes a) = fails

abbrev pub nothing : Status → Sent
nothing s = record { status = s; sent = [] }

-- The branches of the loop body, with the rest of the loop as a function of its state.
unfoldable pub after : Move → (Mode → ℕ → Sent) → (ℕ → Sent) → Sent
after fails loop count = nothing error
after (again mode retries) loop count = loop mode retries
after (gives n) loop count = count n

unfoldable pub counting : Bytes → (ℕ → Sent) → ℕ → Sent
counting rest loop n =
    let k = accepted n rest in if k == 0 then nothing error else prepend (take k rest) (loop k)

-- `while (remaining > 0)`: between two calls the loop ends if nothing remains.
unfoldable pub at_end : Mode → Bytes → Bool
at_end writing rest = length rest == 0
at_end waiting rest = false

-- The bytes from `p` on are `rest`.
unfoldable pub write_loop : List Event → Mode → ℕ → Bytes → Sent
unfolding at_end
write_loop [] mode retries rest = if at_end mode rest then nothing done else nothing blocked
write_loop (e ∷ es) mode retries rest = elim (at_end mode rest) [
  | true ↦ nothing done
  | false ↦
      after (handle mode retries e) (λ mode' retries'. write_loop es mode' retries' rest)
        (counting rest (λ k. write_loop es writing 0 (drop k rest)))
]

unfoldable pub http_response_write_all : List Event → Bytes → Sent
unfolding write_loop
http_response_write_all es buf = write_loop es writing 0 buf

unfoldable pub flatten : List Bytes → Bytes
flatten [] = []
flatten (b ∷ iov) = b ++ flatten iov

-- The loop over the vectors that a write covers, and the cut of the one that it ends in.
unfoldable pub advance : ℕ → List Bytes → List Bytes
advance left [] = []
advance left (b ∷ iov) =
    if leb (length b) left then advance (left - length b) iov else drop left b ∷ iov

unfoldable pub at_end_vector : Mode → List Bytes → Bool
at_end_vector writing [] = true
at_end_vector writing (b ∷ iov) = false
at_end_vector waiting iov = false

-- The vectors from `iov[idx]` on are `iov`.
unfoldable pub writev_loop : List Event → Mode → ℕ → List Bytes → Sent
unfolding at_end_vector
writev_loop [] mode retries iov = if at_end_vector mode iov then nothing done else nothing blocked
writev_loop (e ∷ es) mode retries iov = elim (at_end_vector mode iov) [
  | true ↦ nothing done
  | false ↦
      after (handle mode retries e) (λ mode' retries'. writev_loop es mode' retries' iov)
        (counting (flatten iov) (λ k. writev_loop es writing 0 (advance k iov)))
]

unfoldable pub http_response_writev_all : List Event → List Bytes → Sent
unfolding writev_loop
http_response_writev_all es iov = writev_loop es writing 0 iov
