-- ===== src/Modules/Man/Request/Flat.antt =====
-- The components of the page that a request asks for.
use miniweb.Prelude.{
  ℕ, zero, suc, ◌≡◌, ◌≢◌, refl, subst, true, Option, none, some, List, [], ◌∷◌, Bytes, codes, ◌==◌,
  take, All, strip_prefix, arith, Bool-cases, if_both, inl, inr,
}
use miniweb.Modules.Packages.{onto}
use miniweb.Modules.Man.{
  man_is_valid_token, man_is_valid_section, all_token_bytes, is_token_byte, all_lower,
}
use miniweb.Modules.Man.RenderCache.{Page}
use miniweb.Modules.Man.Request.{
  before_ask, pieces, tokens, at_last_dot, is_format, dotted_page, page_of_tokens, asks, checked,
  request_behind, man_request,
}

abbrev pub NoSlash : Bytes → Type 0
NoSlash = All (λ c. c ≢ b'/')

-- One component of a path each, a valid section and page, and a known format.
pub record IsFlat (p : Page) : Type 0 where
  pub area_flat : NoSlash p.area
  pub section_flat : NoSlash p.section
  pub page_flat : NoSlash p.page
  pub format_known : is_format p.format ≡ true
  pub section_valid : man_is_valid_section (some p.section) ≡ true
  pub page_valid : man_is_valid_token (some p.page) ≡ true

take-NoSlash : (n : ℕ) (s : Bytes) → NoSlash s → NoSlash (take n s)
take-NoSlash zero s h = tt
take-NoSlash (suc n) [] h = tt
take-NoSlash (suc n) (c ∷ s) h = (h.0, take-NoSlash n s h.1)

onto-NoSlash : (c : ℕ) (ps : List Bytes) → c ≢ b'/' → All NoSlash ps → All NoSlash (onto c ps)
onto-NoSlash c [] h k = ((h, tt), tt)
onto-NoSlash c (p ∷ ps) h k = ((h, k.0), k.1)

pieces-NoSlash : (s : Bytes) → All NoSlash (pieces s)
unfolding pieces
pieces-NoSlash [] = (tt, tt)
pieces-NoSlash (c ∷ s) = elim (Bool-cases (c == b'/')) [
  | inl slash ↦ rw slash (tt, pieces-NoSlash s)
  | inr other ↦ rw other (onto-NoSlash c (pieces s) (ground (arith, other)) (pieces-NoSlash s))
]

tokens-NoSlash : (ps : List Bytes) → All NoSlash ps → All NoSlash (tokens ps)
unfolding tokens
tokens-NoSlash [] h = tt
tokens-NoSlash ([] ∷ ps) h = tokens-NoSlash ps h.1
tokens-NoSlash ((c ∷ p) ∷ ps) h = (h.0, tokens-NoSlash ps h.1)

token-NoSlash : (s : Bytes) → all_token_bytes s ≡ true → NoSlash s
unfolding all_token_bytes is_token_byte
token-NoSlash [] h = tt
token-NoSlash (c ∷ s) h = (λ e. ground (arith, h, e), token-NoSlash s (ground (arith, h)))

lower-NoSlash : (s : Bytes) → all_lower s ≡ true → NoSlash s
unfolding all_lower
lower-NoSlash [] h = tt
lower-NoSlash (c ∷ s) h = (λ e. ground (arith, h, e), lower-NoSlash s (ground (arith, h)))

page-NoSlash : (s : Bytes) → man_is_valid_token (some s) ≡ true → NoSlash s
unfolding man_is_valid_token
page-NoSlash [] h = tt
page-NoSlash (c ∷ s) h = token-NoSlash (c ∷ s) h

section-NoSlash : (s : Bytes) → man_is_valid_section (some s) ≡ true → NoSlash s
unfolding man_is_valid_section
section-NoSlash [] h = tt
section-NoSlash (c ∷ s) h = (λ e. ground (arith, h, e), lower-NoSlash s (ground (arith, h)))

dotted-area :
    (area section token : Bytes) (o : Option (Bytes × Bytes))
    → NoSlash area
    → NoSlash (dotted_page area section token o).area
dotted-area area section token none h = h
dotted-area area section token (some ([], back)) h = h
dotted-area area section token (some (c ∷ front, back)) h =
    if_both (λ (p : Page). NoSlash p.area) (is_format back) _ _ h
      (if_both (λ (p : Page). NoSlash p.area) (man_is_valid_section (some back)) _ _ h h)

page_of_tokens-area : (ts : List Bytes) → All NoSlash ts → NoSlash (page_of_tokens ts).area
unfolding page_of_tokens all_token_bytes is_token_byte
page_of_tokens-area [] h = token-NoSlash (codes "system") refl
page_of_tokens-area (area ∷ []) h = take-NoSlash 31 area h.0
page_of_tokens-area (area ∷ section ∷ []) h = take-NoSlash 31 area h.0
page_of_tokens-area (area ∷ section ∷ token ∷ more) h =
    dotted-area (take 31 area) (take 15 section) token (at_last_dot token)
      (take-NoSlash 31 area h.0)

checked-eq :
    (q p : Page)
    → checked q ≡ asks p
    → (q ≡ p)
      × (is_format q.format ≡ true)
      × (man_is_valid_token (some q.page) ≡ true)
      × (man_is_valid_section (some q.section) ≡ true)
unfolding checked
checked-eq q p h = ground (arith, h)

checked-IsFlat : (q p : Page) → NoSlash q.area → checked q ≡ asks p → IsFlat p
checked-IsFlat q p a h =
    let (same, format, page, section) = checked-eq q p h in
    subst IsFlat same (record {
      area_flat = a;
      section_flat = section-NoSlash q.section section;
      page_flat = page-NoSlash q.page page;
      format_known = format;
      section_valid = section;
      page_valid = page;
    })

request_behind-IsFlat : (o : Option Bytes) (p : Page) → request_behind o ≡ asks p → IsFlat p
request_behind-IsFlat none p h = cc
request_behind-IsFlat (some rest) p h =
    let path : Bytes = before_ask (take 255 rest) in
    checked-IsFlat (page_of_tokens (tokens (pieces path))) p
      (page_of_tokens-area (tokens (pieces path))
        (tokens-NoSlash (pieces path) (pieces-NoSlash path)))
      h

-- Whatever the URL is, if man_render_handler goes on with a page then its area, section and name hold no
-- '/', its section and name are valid, and its format is one of the five.
pub man_request-IsFlat : (url : Bytes) (p : Page) → man_request url ≡ asks p → IsFlat p
unfolding man_request
man_request-IsFlat url p h = request_behind-IsFlat (strip_prefix (codes "/man/") url) p h
