-- ===== src/Net/Worker/Parse.antt =====
-- The request line against its written form.
use miniweb.Prelude.{
  Split, before, crlf, split_crlf, ℕ, ◌<◌, ◌≡◌, ◌≢◌, refl, sym, ap, true, false, ◌||◌, none, some,
  [], ◌∷◌, ◌++◌, Bytes, strip_prefix, strip_prefix-eq-some, ◌==◌, length, All, arith, Option-cases,
  inl, inr, Bool-cases,
}
use miniweb.Net.Worker.Request.{
  RequestLine, split_space, fits, is_blank, read_version, read_url, read_method, parse_request_line,
}

before_cases :
    (c : ℕ) (o : Split) (front back : Bytes)
    → before c o ≡ some (front, back)
    → (f : Bytes) × (o ≡ some (f, back)) × (front ≡ c ∷ f)
before_cases c none front back e = cc
before_cases c (some (f, b)) front back e = (f, cc, cc)

split_space_sound :
    (s front back : Bytes) → split_space s ≡ some (front, back) → s ≡ front ++ b' ' ∷ back
unfolding split_space
split_space_sound [] front back e = cc
split_space_sound (c ∷ s) front back e = elim (Bool-cases (c == b' ')) [
  | inl here ↦ ground (arith, here)
  | inr later ↦
      let (f, o, g) = before_cases c (split_space s) front back (ground (arith, later)) in
      rw g (ap (◌∷◌ c) (split_space_sound s f back o))
]

split_space-append :
    (front back : Bytes)
    → All (λ c. c ≢ b' ') front
    → split_space (front ++ b' ' ∷ back) ≡ some (front, back)
unfolding split_space
split_space-append [] back h = ground arith
split_space-append (c ∷ front) back h = ground (arith, h.0, split_space-append front back h.1)

split_crlf_sound :
    (s front back : Bytes) → split_crlf s ≡ some (front, back) → s ≡ front ++ (crlf ++ back)
unfolding split_crlf
split_crlf_sound [] front back e = cc
split_crlf_sound (c ∷ s) front back e = elim (Option-cases (strip_prefix crlf (c ∷ s))) [
  | inr (rest, here) ↦
      let at_start = strip_prefix-eq-some crlf (c ∷ s) rest here in ground (arith, here, at_start)
  | inl later ↦
      let (f, o, g) = before_cases c (split_crlf s) front back (ground (arith, later)) in
      rw g (ap (◌∷◌ c) (split_crlf_sound s f back o))
]

split_crlf-append :
    (front back : Bytes)
    → All (λ c. c ≢ 13) front
    → split_crlf (front ++ (crlf ++ back)) ≡ some (front, back)
unfolding split_crlf strip_prefix
split_crlf-append [] back h = ground arith
split_crlf-append (c ∷ front) back h = ground (arith, h.0, split_crlf-append front back h.1)

-- The start line of a request, with what follows it.
pub start_line : RequestLine → Bytes → Bytes
start_line l rest = l.method ++ b' ' ∷ (l.url ++ b' ' ∷ (l.version ++ (crlf ++ rest)))

-- The words of the line can be told apart and fit their buffers.
pub record IsPlain (l : RequestLine) : Type 0 where
  pub method_plain : All (λ c. c ≢ b' ') l.method
  pub url_plain : All (λ c. c ≢ b' ') l.url
  pub version_plain : All (λ c. c ≢ 13) l.version
  pub no_blank : is_blank l.method || is_blank l.url || is_blank l.version ≡ false
  pub room : fits l.method l.url l.version ≡ true

-- A start line of three words that are not empty, fit their buffers and do not hold the byte that ends
-- them is read back as these words, whatever follows it.
pub parse_start_line :
    (l : RequestLine) (rest : Bytes) → IsPlain l → parse_request_line (start_line l rest) ≡ some l
unfolding parse_request_line start_line read_method read_url read_version
parse_start_line l rest h =
    rw
      (
        split_space-append l.method (l.url ++ b' ' ∷ (l.version ++ (crlf ++ rest))) h.method_plain,
        split_space-append l.url (l.version ++ (crlf ++ rest)) h.url_plain,
        split_crlf-append l.version rest h.version_plain,
        h.no_blank,
        h.room,
      )
      refl

read_version_cases :
    (method url : Bytes) (o : Split) (l : RequestLine)
    → read_version method url o ≡ some l
    → (version : Bytes) × (rest : Bytes) × (o ≡ some (version, rest))
      × (l ≡ record { method = method; url = url; version = version })
      × (fits method url version ≡ true)
unfolding read_version
read_version_cases method url none l e = cc
read_version_cases method url (some (version, rest)) l e =
    (version, rest, refl, ground arith, ground arith)

read_url_cases :
    (method : Bytes) (o : Split) (l : RequestLine)
    → read_url method o ≡ some l
    → (url : Bytes) × (rest : Bytes) × (o ≡ some (url, rest))
      × (read_version method url (split_crlf rest) ≡ some l)
unfolding read_url
read_url_cases method none l e = cc
read_url_cases method (some (url, rest)) l e = (url, rest, refl, e)

read_method_cases :
    (o : Split) (l : RequestLine)
    → read_method o ≡ some l
    → (method : Bytes) × (rest : Bytes) × (o ≡ some (method, rest))
      × (read_url method (split_space rest) ≡ some l)
unfolding read_method
read_method_cases none l e = cc
read_method_cases (some (method, rest)) l e = (method, rest, refl, e)

-- Whatever is read, the buffer began with the start line that the three words make, and they fit their
-- buffers.
pub parse_sound :
    (buf : Bytes) (l : RequestLine)
    → parse_request_line buf ≡ some l
    → ((rest : Bytes) × (buf ≡ start_line l rest))
      × (length l.method < 32)
      × (length l.url < 512)
      × (length l.version < 32)
unfolding parse_request_line start_line
parse_sound buf l e =
    let (method, a, m, e₁) = read_method_cases (split_space buf) l e in
    let (url, b, u, e₂) = read_url_cases method (split_space a) l e₁ in
    let (version, rest, v, words, room) = read_version_cases method url (split_crlf b) l e₂ in
    rw words (
      (
        rest,
        rw (sym (split_crlf_sound b version rest v))
            (rw (sym (split_space_sound a url b u)) (split_space_sound buf method a m)),
      ),
      ground (arith, room),
      ground (arith, room),
      ground (arith, room),
    )
