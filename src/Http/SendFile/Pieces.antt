-- ===== src/Http/SendFile/Pieces.antt =====
-- What is read of a file, however the kernel cuts it into pieces, and what is sent of it.
use miniweb.Prelude.{
  ℕ, zero, suc, ◌-◌, ◌≡◌, refl, sym, ap, ap₂, ◌∙◌, false, List, [], ◌∷◌, ◌++◌, Bytes, length, take,
  arith, ◌==◌,
}
use miniweb.Http.ResponseIo.{Event, Sent, Status, done, error, blocked, http_response_write_all}
use miniweb.Http.Response.Framing.{write_all-done}
use miniweb.Http.SendFile.{
  ReadAnswer, got, interrupted, failed, read_loop, if_any, read_entire_file, chunk_of, after_status,
  send_chunk, send_chunks,
}

-- What the answers of `read` hold up to the end of the file or a failure.
pub content : List ReadAnswer → Bytes
content [] = []
content (interrupted ∷ rs) = content rs
content (failed ∷ rs) = []
content (got [] ∷ rs) = []
content (got (c ∷ s) ∷ rs) = (c ∷ s) ++ content rs

take-append : (n : ℕ) (s t : Bytes) → take n (s ++ t) ≡ take n s ++ take (n - length (take n s)) t
take-append zero s t = ground arith
take-append (suc n) [] t = ground arith
take-append (suc n) (c ∷ s) t = ground (arith, take-append n s t)

positive_left : (left : ℕ) → (suc left == 0) ≡ false
positive_left left = ground arith

take-nil : (n : ℕ) → take {A = ℕ} n [] ≡ []
take-nil zero = refl
take-nil (suc n) = refl

read_loop-got :
    (c : ℕ) (s : Bytes) (rs : List ReadAnswer) (left : ℕ)
    → read_loop (got (c ∷ s) ∷ rs) (suc left)
      ≡ c ∷ (take left s ++ read_loop rs (left - length (take left s)))
unfolding read_loop
read_loop-got c s rs left =
    rw (positive_left left) (ap (λ n. c ∷ (take left s ++ read_loop rs n)) (omega arith))

read_loop-take : (rs : List ReadAnswer) (left : ℕ) → read_loop rs left ≡ take left (content rs)
unfolding read_loop content
read_loop-take [] left = sym (take-nil left)
read_loop-take (interrupted ∷ rs) left = read_loop-take rs left
read_loop-take (failed ∷ rs) left = sym (take-nil left)
read_loop-take (got [] ∷ rs) zero = refl
read_loop-take (got [] ∷ rs) (suc left) = ground arith
read_loop-take (got (c ∷ s) ∷ rs) zero = refl
read_loop-take (got (c ∷ s) ∷ rs) (suc left) =
    read_loop-got c s rs left
    ∙ ap (◌∷◌ c) (
        ap (◌++◌ (take left s)) (read_loop-take rs (left - length (take left s)))
        ∙ sym (take-append left s (content rs)))

-- read_entire_file gives what the answers hold, cut to the size, whatever pieces they come in and
-- however often a call is interrupted; it fails exactly if that is nothing.
pub read_entire_file_lem :
    (rs : List ReadAnswer) (len : ℕ) → read_entire_file rs len ≡ if_any (take len (content rs))
unfolding read_entire_file
read_entire_file_lem rs len = ap if_any (read_loop-take rs len)

-- A read of no bytes is the end of the file.
abbrev pub unless_end : Bytes → Bytes → Bytes
unless_end [] rest = []
unless_end (c ∷ s) rest = (c ∷ s) ++ rest

-- What the answers hold up to the end of the file or the first call that is interrupted or fails.
pub sendable : List (ReadAnswer × List Event) → Bytes
sendable [] = []
sendable ((interrupted, es) ∷ rest) = []
sendable ((failed, es) ∷ rest) = []
sendable ((got bytes, es) ∷ rest) = unless_end (chunk_of bytes) (sendable rest)

after_status-done :
    (status : Status) (r rest : Sent) (s next : Bytes)
    → r.status ≡ status
    → (r.status ≡ done → r.sent ≡ s)
    → (rest.status ≡ done → rest.sent ≡ next)
    → (after_status status r rest).status ≡ done
    → (after_status status r rest).sent ≡ s ++ next
after_status-done done r rest s next e h k d = ap₂ ◌++◌ (h e) (k d)
after_status-done error r rest s next e h k d = cc
after_status-done blocked r rest s next e h k d = cc

send_chunk_whole :
    (chunk : Bytes) (es : List Event) (rest : Sent) (next : Bytes)
    → (rest.status ≡ done → rest.sent ≡ next)
    → (send_chunk chunk es rest).status ≡ done
    → (send_chunk chunk es rest).sent ≡ unless_end chunk next
send_chunk_whole [] es rest next k d = refl
send_chunk_whole (c ∷ chunk) es rest next k d =
    let r = http_response_write_all es (c ∷ chunk) in
    after_status-done r.status r rest (c ∷ chunk) next refl (write_all-done es (c ∷ chunk)) k d

-- If the loop over the pieces of a large file returns 0, it has sent what was read up to the end of the
-- file or to the first read that was interrupted or failed.
pub send_chunks_whole :
    (chunks : List (ReadAnswer × List Event))
    → (send_chunks chunks).status ≡ done
    → (send_chunks chunks).sent ≡ sendable chunks
unfolding send_chunks sendable
send_chunks_whole [] h = refl
send_chunks_whole ((interrupted, es) ∷ rest) h = refl
send_chunks_whole ((failed, es) ∷ rest) h = refl
send_chunks_whole ((got bytes, es) ∷ rest) h =
    send_chunk_whole (chunk_of bytes) es (send_chunks rest) (sendable rest) (send_chunks_whole rest)
      h
