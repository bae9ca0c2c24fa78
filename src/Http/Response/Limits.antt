-- ===== src/Http/Response/Limits.antt =====
-- The bounds of the header buffer and of the head.
use miniweb.Prelude.{
  ℕ, zero, suc, ◌-◌, ◌<◌, ◌≤◌, ◌≡◌, refl, ap, ◌∙◌, Bool, none, List, [], ◌∷◌, ◌++◌, Bytes, codes,
  crlf, ltb, length, length-append, take, arith, Bool-cases, inl, inr, ◌⊎◌,
}
use mathlib.Core.List.{append_assoc}
use miniweb.Http.Request.{HttpRequest}
use miniweb.Http.ResponseIo.{Event, error, nothing}
use miniweb.Http.Response.{
  HttpResponse, headers_size, head_size, http_response_add_header, header_line, fixed_lines,
  status_line, type_line, length_line, last_lines, with_ends, response_head, send_head,
  http_response_send,
}

-- A beginning of a line, and the rest.
take-is_prefix : (n : ℕ) (s : Bytes) → (rest : Bytes) × (take n s ++ rest ≡ s)
take-is_prefix zero s = (s, refl)
take-is_prefix (suc n) [] = ([], refl)
take-is_prefix (suc n) (c ∷ s) = let (rest, e) = take-is_prefix n s in (rest, ap (◌∷◌ c) e)

length-take : (n : ℕ) (s : Bytes) → n ≤ length s → length (take n s) ≡ n
length-take zero s h = refl
length-take (suc n) [] h = absurd (omega arith)
length-take (suc n) (c ∷ s) h = omega (arith, length-take n s (omega arith))

take-all : (n : ℕ) (s : Bytes) → length s ≤ n → take n s ≡ s
take-all zero [] h = refl
take-all zero (c ∷ s) h = absurd (omega arith)
take-all (suc n) [] h = refl
take-all (suc n) (c ∷ s) h = ap (◌∷◌ c) (take-all n s (omega arith))

added_headers :
    (resp : HttpResponse) (name value : Bytes)
    → length resp.headers < headers_size
    → (http_response_add_header resp name value).headers
      ≡ resp.headers ++ take (headers_size - 1 - length resp.headers) (header_line name value)
unfolding http_response_add_header
added_headers resp name value h =
    elim (Bool-cases (ltb (length (header_line name value)) (headers_size - length resp.headers))) [
      | inl fits ↦
          ground (arith, take-all (headers_size - 1 - length resp.headers) (header_line name value))
      | inr cut ↦ ground arith
    ]

-- If http_response_add_header finds a free byte in `headers`, either it appends the whole line, and
-- there is room for it and a NUL, or there is not, and it fills all but the last byte with a beginning
-- of the line.
pub add_header_fits_or_fills :
    (resp : HttpResponse) (name value : Bytes)
    → length resp.headers < headers_size
    → ((length (resp.headers ++ header_line name value) < headers_size)
        × ((http_response_add_header resp name value).headers
            ≡ resp.headers ++ header_line name value))
      ⊎ ((headers_size ≤ length (resp.headers ++ header_line name value))
          × ((rest : Bytes) × ((http_response_add_header resp name value).headers ++ rest
                ≡ resp.headers ++ header_line name value))
          × (length (http_response_add_header resp name value).headers ≡ headers_size - 1))
add_header_fits_or_fills resp name value h =
    let line : Bytes = header_line name value in
    let room = headers_size - 1 - length resp.headers in
    let added = added_headers resp name value h in
    let total = length-append resp.headers line in
    elim (Bool-cases (ltb (length (resp.headers ++ line)) headers_size)) [
      | inl fits ↦ inl (
        ground (arith, fits),
        added ∙ ap (◌++◌ resp.headers) (take-all room line (ground (arith, total, fits))),
      )
      | inr full ↦
          let (rest, whole) = take-is_prefix room line in
          let long : headers_size ≤ length (resp.headers ++ line) = ground (arith, full) in
          inr (
            long,
            (
              rest,
              rw added
                  (append_assoc resp.headers (take room line) rest ∙ ap (◌++◌ resp.headers) whole),
            ),
            rw added (
                omega (
                  arith,
                  length-append resp.headers (take room line),
                  length-take room line (omega (arith, total, long)),
                  total,
                  long,
                )),
          )
    ]

type-le-fixed :
    (first second : Bytes) (lines : List Bytes)
    → length second ≤ length (with_ends (first ∷ second ∷ lines))
type-le-fixed first second lines = omega (
  arith,
  length-append first (crlf ++ with_ends (second ∷ lines)),
  length-append second (crlf ++ with_ends lines),
)

response_head_long :
    (keep_alive : Bool) (resp : HttpResponse)
    → head_size ≤ length (with_ends (fixed_lines keep_alive resp))
    → response_head keep_alive resp ≡ none
unfolding response_head
response_head_long keep_alive resp h = ground arith

-- A content type of 4,096 bytes or more makes http_response_send report -1 with nothing sent, whatever
-- the socket would answer.
pub send_long_type :
    (es : List Event) (req : HttpRequest) (resp : HttpResponse)
    → head_size ≤ length resp.content_type
    → http_response_send es req resp ≡ nothing error
unfolding http_response_send send_head fixed_lines
send_long_type es req resp h =
    rw
      (response_head_long req.keep_alive resp (
        omega (
          arith,
          type-le-fixed (status_line resp) (type_line resp)
              (length_line resp ∷ last_lines req.keep_alive),
          length-append (codes "Content-Type: ") resp.content_type,
        )))
      refl
