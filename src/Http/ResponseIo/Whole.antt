-- ===== src/Http/ResponseIo/Whole.antt =====
-- Success means that every byte was sent, and the vectored writer is the plain one on the joined text.
use miniweb.Prelude.{
  ℕ, zero, suc, ◌+◌, ◌-◌, ◌≤◌, ◌<◌, ◌≡◌, refl, sym, ap, ◌∙◌, ◌⊎◌, inl, inr, true, false, List, [],
  ◌∷◌, ◌++◌, Bytes, arith, ◌==◌, leb, ltb, length, length-append, take, drop, Bool-cases,
}
use mathlib.Core.List.{append_assoc}
use miniweb.Http.ResponseIo.{
  nothing, after, counting, eagain, writes, polls, writable, Event, Mode, writing, waiting, Move,
  gives, again, fails, done, error, Sent, prepend, accepted, at_end, at_end_vector, handle,
  write_loop, http_response_write_all, flatten, advance, writev_loop, http_response_writev_all,
}

take-append-drop : (n : ℕ) (s : Bytes) → take n s ++ drop n s ≡ s
take-append-drop zero s = refl
take-append-drop (suc n) [] = refl
take-append-drop (suc n) (c ∷ s) = ap (◌∷◌ c) (take-append-drop n s)

-- What was sent is a beginning of the text, and all of it exactly if the status says so.
abbrev pub Sends : Bytes → Sent → Type 0
Sends s r = (rest : Bytes) × (r.sent ++ rest ≡ s) × (r.status ≡ done → rest ≡ [])

eq_nil : (s : Bytes) → length s ≡ 0 → s ≡ []
eq_nil [] e = refl
eq_nil (c ∷ s) e = absurd (omega arith)

at_end-nil : (m : Mode) (s : Bytes) → at_end m s ≡ true → s ≡ []
unfolding at_end
at_end-nil writing s e = eq_nil s (ground arith)
at_end-nil waiting s e = cc

prepend-Sends : (n : ℕ) (s : Bytes) (r : Sent) → Sends (drop n s) r → Sends s (prepend (take n s) r)
prepend-Sends n s r (rest, e, d) =
    (rest, append_assoc (take n s) r.sent rest ∙ (ap (◌++◌ (take n s)) e ∙ take-append-drop n s), d)

after-Sends :
    (s : Bytes) (m : Move) (loop : Mode → ℕ → Sent) (count : ℕ → Sent)
    → ((m' : Mode) (r : ℕ) → Sends s (loop m' r))
    → ((n : ℕ) → Sends s (count n))
    → Sends s (after m loop count)
unfolding after
after-Sends s fails loop count h k = (s, refl, λ e. cc)
after-Sends s (again m' r) loop count h k = h m' r
after-Sends s (gives n) loop count h k = k n

counting-Sends :
    (s : Bytes) (n : ℕ) (loop : ℕ → Sent)
    → ((k : ℕ) → Sends (drop k s) (loop k))
    → Sends s (counting s loop n)
unfolding counting
counting-Sends s n loop h = elim (Bool-cases (accepted n s == 0)) [
  | inl z ↦ rw z (s, refl, λ e. cc)
  | inr p ↦ rw p (prepend-Sends (accepted n s) s (loop (accepted n s)) (h (accepted n s)))
]

drop-nil : (k : ℕ) → drop {A = ℕ} k [] ≡ []
drop-nil zero = refl
drop-nil (suc k) = refl

drop-append_le : (k : ℕ) (b s : Bytes) → k ≤ length b → drop k (b ++ s) ≡ drop k b ++ s
drop-append_le zero b s h = refl
drop-append_le (suc k) [] s h = absurd (omega arith)
drop-append_le (suc k) (c ∷ b) s h = drop-append_le k b s (omega arith)

drop-append_ge : (k : ℕ) (b s : Bytes) → length b ≤ k → drop k (b ++ s) ≡ drop (k - length b) s
drop-append_ge k [] s h = ap (λ n. drop n s) (omega arith)
drop-append_ge zero (c ∷ b) s h = absurd (omega arith)
drop-append_ge (suc k) (c ∷ b) s h =
    drop-append_ge k b s (omega arith) ∙ ap (λ n. drop n s) (omega arith)

write_loop-Sends :
    (es : List Event) (m : Mode) (retries : ℕ) (s : Bytes) → Sends s (write_loop es m retries s)
unfolding write_loop
write_loop-Sends [] m retries s = elim (Bool-cases (at_end m s)) [
  | inl e ↦ rw e (s, refl, λ _. at_end-nil m s e)
  | inr e ↦ rw e (s, refl, λ h. cc)
]
write_loop-Sends (e ∷ es) m retries s = elim (Bool-cases (at_end m s)) [
  | inl h ↦ rw (h, write_loop) (s, refl, λ _. at_end-nil m s h)
  | inr h ↦
      rw (h, write_loop)
        (after-Sends s (handle m retries e) _ _ (λ m' r. write_loop-Sends es m' r s)
          (λ n. counting-Sends s n _ (λ k. write_loop-Sends es writing 0 (drop k s))))
]

-- Whatever the kernel answers, the bytes that were sent are a beginning of the buffer, and success is
-- reported only if they are the whole buffer: partial writes lose, repeat and reorder nothing.
pub write_all_whole : (es : List Event) (buf : Bytes) → Sends buf (http_response_write_all es buf)
unfolding http_response_write_all
write_all_whole es buf = write_loop-Sends es writing 0 buf

abbrev pub refused : ℕ → List Event → List Event
refused zero es = es
refused (suc n) es = writes eagain ∷ polls writable ∷ refused n es

not_at_end : (c : ℕ) (buf : Bytes) → at_end writing (c ∷ buf) ≡ false
unfolding at_end
not_at_end c buf = ground arith

waits :
    (es : List Event) (r c : ℕ) (buf : Bytes)
    → ltb 5 r ≡ false
    → write_loop (writes eagain ∷ es) writing r (c ∷ buf) ≡ write_loop es waiting (r + 1) (c ∷ buf)
unfolding write_loop handle after
waits es r c buf h = rw (write_loop, not_at_end c buf, h) refl

wakes :
    (es : List Event) (r : ℕ) (buf : Bytes)
    → write_loop (polls writable ∷ es) waiting r buf ≡ write_loop es writing r buf
unfolding write_loop handle after at_end
wakes es r buf = refl

last_refusal :
    (es : List Event) (c : ℕ) (buf : Bytes)
    → write_loop (writes eagain ∷ es) writing 6 (c ∷ buf) ≡ nothing error
unfolding write_loop handle after
last_refusal es c buf = rw (write_loop, not_at_end c buf) refl

refused_lem :
    (n r : ℕ) (es : List Event) (c : ℕ) (buf : Bytes)
    → n + r ≤ 6
    → write_loop (refused n es) writing r (c ∷ buf) ≡ write_loop es writing (n + r) (c ∷ buf)
refused_lem zero r es c buf h = ap (λ k. write_loop es writing k (c ∷ buf)) (omega arith)
refused_lem (suc n) r es c buf h =
    waits (polls writable ∷ refused n es) r c buf (ground arith)
    ∙ wakes (refused n es) (r + 1) (c ∷ buf)
    ∙ refused_lem n (r + 1) es c buf (omega arith)
    ∙ ap (λ k. write_loop es writing k (c ∷ buf)) (omega arith)

-- A socket that takes no byte is given up at the seventh refusal, even if it is reported writable each
-- time.
pub write_all_gives_up :
    (es : List Event) (c : ℕ) (buf : Bytes)
    → http_response_write_all (refused 6 (writes eagain ∷ es)) (c ∷ buf) ≡ nothing error
unfolding http_response_write_all
write_all_gives_up es c buf =
    refused_lem 6 0 (writes eagain ∷ es) c buf (omega arith) ∙ last_refusal es c buf

length-drop : (k : ℕ) (b : Bytes) → length (drop k b) ≡ length b - k
length-drop zero b = omega arith
length-drop (suc k) [] = omega arith
length-drop (suc k) (c ∷ b) = omega (arith, length-drop k b)

leb-false : (a b : ℕ) → leb a b ≡ false → b < a
leb-false a b h = ground arith

advance-flatten : (k : ℕ) (iov : List Bytes) → flatten (advance k iov) ≡ drop k (flatten iov)
unfolding advance flatten
advance-flatten k [] = sym (drop-nil k)
advance-flatten k (b ∷ iov) = elim (Bool-cases (leb (length b) k)) [
  | inl over ↦
      rw over
        (advance-flatten (k - length b) iov ∙ sym (drop-append_ge k b (flatten iov) (ground arith)))
  | inr in_b ↦ rw in_b (sym (drop-append_le k b (flatten iov) (ground arith)))
]

-- A vector list with nothing in it is empty.
abbrev IsTight : List Bytes → Type 0
IsTight iov = (iov ≡ []) ⊎ (0 < length (flatten iov))

advance-IsTight : (k : ℕ) (iov : List Bytes) → IsTight (advance k iov)
unfolding advance flatten
advance-IsTight k [] = inl refl
advance-IsTight k (b ∷ iov) = elim (Bool-cases (leb (length b) k)) [
  | inl over ↦ rw over (advance-IsTight (k - length b) iov)
  | inr in_b ↦ rw in_b (
      inr (
        omega (
          arith,
          length-append (drop k b) (flatten iov),
          length-drop k b,
          leb-false (length b) k in_b,
        )))
]

at_end-vector :
    (m : Mode) (iov : List Bytes) → IsTight iov → at_end_vector m iov ≡ at_end m (flatten iov)
unfolding at_end_vector at_end flatten
at_end-vector writing [] h = refl
at_end-vector writing (b ∷ iov) (inl e) = cc
at_end-vector writing (b ∷ iov) (inr p) = ground arith
at_end-vector waiting iov h = refl

after-cong :
    (m : Move) (f g : Mode → ℕ → Sent) (c d : ℕ → Sent)
    → ((m' : Mode) (r : ℕ) → f m' r ≡ g m' r)
    → ((n : ℕ) → c n ≡ d n)
    → after m f c ≡ after m g d
unfolding after
after-cong fails f g c d h k = refl
after-cong (again m' r) f g c d h k = h m' r
after-cong (gives n) f g c d h k = k n

counting-cong :
    (s : Bytes) (f g : ℕ → Sent) → ((k : ℕ) → f k ≡ g k) → (n : ℕ) → counting s f n ≡ counting s g n
unfolding counting
counting-cong s f g h n = rw (h (accepted n s))

writev-eq-write :
    (es : List Event) (m : Mode) (retries : ℕ) (iov : List Bytes)
    → IsTight iov
    → writev_loop es m retries iov ≡ write_loop es m retries (flatten iov)
unfolding writev_loop write_loop
writev-eq-write [] m retries iov t = rw (at_end-vector m iov t)
writev-eq-write (e ∷ es) m retries iov t = elim (Bool-cases (at_end m (flatten iov))) [
  | inl h ↦ rw (at_end-vector m iov t, h, writev_loop, write_loop)
  | inr h ↦
      rw (at_end-vector m iov t, h, writev_loop, write_loop)
        (after-cong (handle m retries e) _ _ _ _ (λ m' r. writev-eq-write es m' r iov t)
          (counting-cong (flatten iov) _ _ λ k.
            writev-eq-write es writing 0 (advance k iov) (advance-IsTight k iov)
            ∙ ap (write_loop es writing 0) (advance-flatten k iov)))
]

-- The vectored writer sends and reports what the plain one does on the joined vectors, unless there is
-- nothing in them to send.
pub writev_all-eq-write_all :
    (es : List Event) (iov : List Bytes)
    → 0 < length (flatten iov)
    → http_response_writev_all es iov ≡ http_response_write_all es (flatten iov)
unfolding http_response_writev_all http_response_write_all
writev_all-eq-write_all es iov h = writev-eq-write es writing 0 iov (inr h)
