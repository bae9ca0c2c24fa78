-- ===== src/Http/Response/Framing.antt =====
-- What a client can read from a sent response.
use miniweb.Prelude.{
  ℕ, ◌-◌, ◌≡◌, ◌≢◌, ◌⊎◌, refl, sym, ap, ◌∙◌, Bool, Option, none, some, List, [], ◌∷◌, ◌++◌, Bytes,
  codes, crlf, decimal, decimal-AreDigits, ltb, ◌==◌, length, length-append, if◌then◌else◌, All,
  arith, Bool-cases, if_both, inl, inr,
}
use mathlib.Core.List.{append_assoc, append-nil}
use miniweb.Http.Request.{HttpRequest}
use miniweb.Http.ResponseIo.{
  Event, Sent, done, flatten, http_response_write_all, http_response_writev_all,
}
use miniweb.Http.ResponseIo.Whole.{write_all_whole, writev_all-eq-write_all}
use miniweb.Http.Response.{
  HttpResponse, head_size, http_response_status_text, fixed_lines, status_line, type_line,
  length_line, last_lines, with_ends, with_headers, response_head, body_bytes, send_head,
  http_response_send,
}
use miniweb.Http.Response.Client.{
  after_blank, IsLine, NoCr, announced_length, NoCr-append, NoCr-digits, message_after,
  message_length,
}

NoCr-status_text : (code : ℕ) → NoCr (http_response_status_text code)
unfolding http_response_status_text
NoCr-status_text code = if_both NoCr (code == 200) _ _ (omega arith) (
    if_both NoCr (code == 301) _ _ (omega arith) (
      if_both NoCr (code == 302) _ _ (omega arith) (
        if_both NoCr (code == 304) _ _ (omega arith) (
          if_both NoCr (code == 400) _ _ (omega arith) (
            if_both NoCr (code == 403) _ _ (omega arith) (
              if_both NoCr (code == 404) _ _ (omega arith) (
                if_both NoCr (code == 405) _ _ (omega arith) (
                  if_both NoCr (code == 500) _ _ (omega arith)
                    (if_both NoCr (code == 503) _ _ (omega arith) (omega arith))))))))))

NoCr-decimal : (n : ℕ) → NoCr (decimal n)
NoCr-decimal n = NoCr-digits (decimal n) (decimal-AreDigits n)

pub write_all-done :
    (es : List Event) (s : Bytes)
    → (http_response_write_all es s).status ≡ done
    → (http_response_write_all es s).sent ≡ s
write_all-done es s e =
    let (rest, whole, none_left) = write_all_whole es s in
    sym (append-nil _) ∙ (ap (◌++◌ (http_response_write_all es s).sent) (sym (none_left e)) ∙ whole)

-- Both writers, when they report success.
writes-done :
    (es : List Event) (h b : Bytes) (r : Sent)
    → r ≡ (
        if length b == 0
        then http_response_write_all es h
        else http_response_writev_all es (h ∷ b ∷ []))
    → r.status ≡ done
    → r.sent ≡ h ++ b
unfolding flatten
writes-done es h [] r e d = rw e (write_all-done es h (rw (← e) d) ∙ sym (append-nil h))
writes-done es h (c ∷ b) r e d =
    let same : r ≡ http_response_write_all es (h ++ (c ∷ b)) =
      e
      ∙ (ground arith
          ∙ (writev_all-eq-write_all es (h ∷ (c ∷ b) ∷ [])
                (omega (arith, length-append h ((c ∷ b) ++ [])))
              ∙ ap (λ t. http_response_write_all es (h ++ t)) (append-nil (c ∷ b)))) in
    rw same (write_all-done es (h ++ (c ∷ b)) (rw (← same) d))

-- What the writers report as done was the head and the body.
sent_head_and_body :
    (es : List Event) (resp : HttpResponse) (head : Option Bytes)
    → (send_head es resp head).status ≡ done
    → (h : Bytes) × (head ≡ some h) × ((send_head es resp head).sent ≡ h ++ body_bytes resp)
unfolding send_head
sent_head_and_body es resp none e = cc
sent_head_and_body es resp (some h) e = (h, refl, writes-done es h (body_bytes resp) _ refl e)

with_ends-append : (ls ms : List Bytes) → with_ends (ls ++ ms) ≡ with_ends ls ++ with_ends ms
with_ends-append [] ms = refl
with_ends-append (l ∷ ls) ms = simp (with_ends-append ls ms, append_assoc)

All-append-lines : (ls ms : List Bytes) → All IsLine ls → All IsLine ms → All IsLine (ls ++ ms)
All-append-lines [] ms h k = k
All-append-lines (l ∷ ls) ms h k = (h.0, All-append-lines ls ms h.1 k)

with_headers-cases :
    (head headers : Bytes)
    → (with_headers head headers ≡ head ++ headers) ⊎ (with_headers head headers ≡ head)
unfolding with_headers
with_headers-cases head headers =
    elim (Bool-cases (ltb (length headers) (head_size - length head))) [
      | inl fits ↦ inl (rw fits refl)
      | inr full ↦ inr (rw full refl)
    ]

response_head-eq :
    (keep_alive : Bool) (resp : HttpResponse) (head : Bytes)
    → response_head keep_alive resp ≡ some head
    → head ≡ with_headers (with_ends (fixed_lines keep_alive resp)) resp.headers ++ crlf
unfolding response_head
response_head-eq keep_alive resp head r = ground arith

-- The head is its lines, the added ones left out or not.
response_head-lines :
    (keep_alive : Bool) (resp : HttpResponse) (extra : List Bytes) (head : Bytes)
    → resp.headers ≡ with_ends extra
    → All IsLine extra
    → response_head keep_alive resp ≡ some head
    → (more : List Bytes) × All IsLine more
      × (head ≡ with_ends (fixed_lines keep_alive resp ++ more) ++ crlf)
response_head-lines keep_alive resp extra head e h r =
    let fixed : List Bytes = fixed_lines keep_alive resp in
    let shape = response_head-eq keep_alive resp head r in
    elim (with_headers-cases (with_ends fixed) resp.headers) [
      | inl all ↦ (
        extra,
        h,
        shape
            ∙ ap (λ t. t ++ crlf)
                (all ∙ (ap (◌++◌ (with_ends fixed)) e ∙ sym (with_ends-append fixed extra))),
      )
      | inr cut ↦
          ([], tt, shape ∙ ap (λ t. t ++ crlf) (cut ∙ ap with_ends (sym (append-nil fixed))))
    ]

IsLine-append : (c : ℕ) (s t : Bytes) → c ≢ 13 → NoCr s → NoCr t → IsLine ((c ∷ s) ++ t)
IsLine-append c s t h k m = (h, NoCr-append s t k m)

fixed_lines-AreLines :
    (keep_alive : Bool) (resp : HttpResponse)
    → NoCr resp.content_type
    → All IsLine (fixed_lines keep_alive resp)
unfolding fixed_lines status_line
fixed_lines-AreLines keep_alive resp ct = (
  IsLine-append b'H' (codes "TTP/1.1 ") _ (omega arith) (omega arith) (
      NoCr-append (decimal resp.status_code) _ (NoCr-decimal resp.status_code)
        (NoCr-append (codes " ") _ (omega arith) (NoCr-status_text resp.status_code))),
  (
    IsLine-append b'C' (codes "ontent-Type: ") _ (omega arith) (omega arith) ct,
    (
      IsLine-append b'C' (codes "ontent-Length: ") _ (omega arith) (omega arith)
          (NoCr-decimal resp.body_len),
      (
        IsLine-append b'C' (codes "onnection: ") _ (omega arith) (omega arith)
            (if_both NoCr keep_alive _ _ (omega arith) (omega arith)),
        (omega arith, tt),
      ),
    ),
  ),
)

IsLine-NoCr : (line : Bytes) → IsLine line → NoCr line
IsLine-NoCr [] h = tt
IsLine-NoCr (c ∷ s) h = h

-- If http_response_send reports success, the content type has no CR and the added headers are whole
-- lines, then what follows the first empty line of what was sent is the body, and the third line
-- announces `body_len`.
pub send_framed :
    (es : List Event) (req : HttpRequest) (resp : HttpResponse) (extra : List Bytes)
    → NoCr resp.content_type
    → resp.headers ≡ with_ends extra
    → All IsLine extra
    → (http_response_send es req resp).status ≡ done
    → (after_blank (http_response_send es req resp).sent ≡ some (body_bytes resp))
      × (announced_length (http_response_send es req resp).sent ≡ some resp.body_len)
unfolding http_response_send fixed_lines
send_framed es req resp extra ct e h d =
    let (head, found, whole) = sent_head_and_body es resp (response_head req.keep_alive resp) d in
    let (more, lines, shape) = response_head-lines req.keep_alive resp extra head e h found in
    let tail : List Bytes = last_lines req.keep_alive ++ more in
    let fixed = fixed_lines-AreLines req.keep_alive resp ct in
    let message : Bytes =
      with_ends (status_line resp ∷ type_line resp ∷ length_line resp ∷ tail)
      ++ (crlf ++ body_bytes resp) in
    let text : (http_response_send es req resp).sent ≡ message =
      whole
      ∙ (ap (λ t. t ++ body_bytes resp) shape
          ∙ append_assoc (with_ends (fixed_lines req.keep_alive resp ++ more)) crlf
              (body_bytes resp)) in
    rw text (
      message_after (status_line resp) (type_line resp ∷ length_line resp ∷ tail) (body_bytes resp)
          (IsLine-NoCr (status_line resp) fixed.0)
          (All-append-lines (type_line resp ∷ length_line resp ∷ last_lines req.keep_alive) more
            fixed.1 lines),
      message_length (status_line resp) (type_line resp) resp.body_len tail
          (crlf ++ body_bytes resp) (IsLine-NoCr (status_line resp) fixed.0)
          (IsLine-NoCr (type_line resp) fixed.1.0),
    )
