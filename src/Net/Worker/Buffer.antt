-- ===== src/Net/Worker/Buffer.antt =====
-- The bounds of the request buffer.
use miniweb.Prelude.{
  c_string, ℕ, zero, suc, ◌+◌, ◌-◌, ◌<◌, ◌≤◌, List, [], ◌∷◌, ◌++◌, Bytes, leb, length,
  length-append, take, if◌then◌else◌, arith, if_both,
}
use miniweb.Net.Worker.{
  Received, bytes, would_block, failed, Outcome, complete, drained, broken, too_large, unfinished,
  after_receive, receive,
}
use miniweb.Net.Worker.Request.{find_header_end}

-- The bytes in the buffer.
pub buffer_of : Outcome → Bytes
buffer_of (complete b) = b
buffer_of (drained b) = b
buffer_of (broken b) = b
buffer_of (too_large b) = b
buffer_of (unfinished b) = b

length-take : (n : ℕ) (s : Bytes) → length (take n s) ≤ n
length-take zero s = omega arith
length-take (suc n) [] = omega arith
length-take (suc n) (c ∷ s) = omega (arith, length-take n s)

after_receive-bounded :
    (n : ℕ) (buffer new : Bytes) (loop : Bytes → Outcome)
    → length buffer + length new < n
    → ((b : Bytes) → length b < n → length (buffer_of (loop b)) < n)
    → length (buffer_of (after_receive n buffer new loop)) < n
unfolding after_receive buffer_of
after_receive-bounded n buffer [] loop h k = omega (arith, h)
after_receive-bounded n buffer (c ∷ new) loop h k =
    let Fits = λ (o : Outcome). length (buffer_of o) < n in
    let small : length (buffer ++ c ∷ new) < n = omega (arith, length-append buffer (c ∷ new)) in
    let grown = buffer ++ c ∷ new in
    if_both Fits (find_header_end (c_string grown)) (complete grown)
      (if leb (n - 1) (length grown) then too_large grown else loop grown) small
      (if_both Fits (leb (n - 1) (length grown)) (too_large grown) (loop grown) small
        (k grown small))

-- A buffer that has room for the NUL behind its bytes keeps it, whatever is received.
pub receive_bounded :
    (n : ℕ) (rs : List Received) (buffer : Bytes)
    → length buffer < n
    → length (buffer_of (receive n rs buffer)) < n
unfolding receive buffer_of
receive_bounded n [] buffer h = h
receive_bounded n (would_block ∷ rs) buffer h = h
receive_bounded n (failed ∷ rs) buffer h = h
receive_bounded n (bytes new ∷ rs) buffer h =
    after_receive-bounded n buffer _ _ (omega (arith, length-take (n - length buffer - 1) new))
      (λ b k. receive_bounded n rs b k)
