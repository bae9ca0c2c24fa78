-- ===== src/Router/Allow/Header.antt =====
-- A known path has an Allow header.
use miniweb.Prelude.{
  ℕ, ◌≤◌, ◌<◌, ◌≡◌, refl, true, false, ◌⊎◌, inl, inr, some, List, [], ◌∷◌, ◌++◌, Bytes, length, ltb,
  All, arith, Bool-cases, str_eq,
}
use miniweb.Router.{
  Route, PrefixRoute, Registry, known_exact, known_prefix, route_path_known,
  prefix_route_path_matches, enough_slashes,
}
use miniweb.Router.Allow.{
  Allow, next, stop, append_method, route_method_seen_for_path, allow_route, allow_routes,
  allow_prefixes, finish, route_allow_methods, ◌>>=◌,
}

abbrev counted : Allow → ℕ
counted (next text count) = count
counted (stop text count) = count

>>=-counted :
    (m : Allow) (rest : Bytes → ℕ → Allow)
    → ((text : Bytes) (count : ℕ) → count ≤ counted (rest text count))
    → counted m ≤ counted (m >>= rest)
>>=-counted (next text count) rest h = h text count
>>=-counted (stop text count) rest h = omega arith

-- A count of 0 means an empty text, so a method that fits alone is not cut off.
abbrev IsGood : Allow → Type 0
IsGood (next text count) = (0 < count) ⊎ (text ≡ [])
IsGood (stop text count) = 0 < count

>>=-IsGood :
    (m : Allow) (rest : Bytes → ℕ → Allow)
    → IsGood m
    → ((text : Bytes) (count : ℕ) → IsGood (next text count) → IsGood (rest text count))
    → IsGood (m >>= rest)
>>=-IsGood (next text count) rest g h = h text count g
>>=-IsGood (stop text count) rest g h = g

module _ {H : Type 0} (buf_len : ℕ) (path : Bytes) where
  allow_route-counted :
      (before : List (Route H)) (r : Route H) (text : Bytes) (count : ℕ)
      → count ≤ counted (allow_route buf_len path before r text count)
  unfolding allow_route append_method
  allow_route-counted before r text count = ground arith

  allow_routes-counted :
      (before rs : List (Route H)) (text : Bytes) (count : ℕ)
      → count ≤ counted (allow_routes buf_len path before rs text count)
  unfolding allow_routes
  allow_routes-counted before [] text count = omega arith
  allow_routes-counted before (r ∷ rs) text count = omega (
    arith,
    allow_route-counted before r text count,
    >>=-counted (allow_route buf_len path before r text count)
        (allow_routes buf_len path (before ++ r ∷ []) rs)
        (λ t c. allow_routes-counted (before ++ r ∷ []) rs t c),
  )

  -- Every method of the table fits the buffer on its own.
  abbrev Fits : List (Route H) → Type 0
  Fits = All (λ r. length r.method < buf_len)

  -- None of the routes that are passed over is for the path.
  abbrev Elsewhere : List (Route H) → Type 0
  Elsewhere = All (λ r. str_eq r.path path ≡ false)

  Elsewhere-append :
      (before : List (Route H)) (r : Route H)
      → Elsewhere before
      → str_eq r.path path ≡ false
      → Elsewhere (before ++ r ∷ [])
  Elsewhere-append [] r h e = (e, tt)
  Elsewhere-append (s ∷ before) r h e = (h.0, Elsewhere-append before r h.1 e)

  not_seen :
      (before : List (Route H)) (r : Route H)
      → Elsewhere before
      → route_method_seen_for_path before r path ≡ false
  unfolding route_method_seen_for_path
  not_seen [] r h = refl
  not_seen (s ∷ before) r h = ground (arith, h.0, not_seen before r h.1)

  allow_routes_pos :
      (before rs : List (Route H))
      → Fits rs
      → Elsewhere before
      → known_exact rs path ≡ true
      → 0 < counted (allow_routes buf_len path before rs [] 0)
  unfolding allow_routes known_exact allow_route append_method
  allow_routes_pos before [] f h e = cc
  allow_routes_pos before (r ∷ rs) f h e = elim (Bool-cases (str_eq r.path path)) [
    | inl hit ↦ ground (
      arith,
      hit,
      not_seen before r h,
      f.0,
      allow_routes-counted (before ++ r ∷ []) rs r.method 1,
    )
    | inr miss ↦
        ground (
          arith,
          miss,
          Elsewhere-append before r h miss,
          allow_routes_pos (before ++ r ∷ []) rs f.1,
        )
  ]

  allow_prefixes-counted :
      (prs : List (PrefixRoute H)) (text : Bytes) (count : ℕ)
      → count ≤ (allow_prefixes buf_len path prs text count).0
  unfolding allow_prefixes
  allow_prefixes-counted [] text count = omega arith
  allow_prefixes-counted (pr ∷ prs) text count =
      ground (arith, allow_prefixes-counted prs text count)

  allow_prefixes_pos :
      (prs : List (PrefixRoute H)) (text : Bytes) (count : ℕ)
      → known_prefix prs path ≡ true
      → 0 < (allow_prefixes buf_len path prs text count).0
  unfolding allow_prefixes known_prefix prefix_route_path_matches enough_slashes
  allow_prefixes_pos [] text count e = cc
  allow_prefixes_pos (pr ∷ prs) text count e = ground (arith, allow_prefixes_pos prs text count)

  finish-counted :
      (prs : List (PrefixRoute H)) (a : Allow) → counted a ≤ (finish buf_len path prs a).0
  unfolding finish
  finish-counted prs (next text count) = allow_prefixes-counted prs text count
  finish-counted prs (stop text count) = omega arith

  allow_route-IsGood :
      (before : List (Route H)) (r : Route H) (text : Bytes) (count : ℕ)
      → length r.method < buf_len
      → IsGood (next text count)
      → IsGood (allow_route buf_len path before r text count)
  unfolding allow_route append_method
  allow_route-IsGood before r text count f (inl c) = ground arith
  allow_route-IsGood before r text count f (inr e) = elim (Bool-cases (ltb 0 count)) [
    | inl c ↦ ground arith
    | inr z ↦ rw e (ground (arith, z))
  ]

  allow_routes-IsGood :
      (before rs : List (Route H)) (text : Bytes) (count : ℕ)
      → Fits rs
      → IsGood (next text count)
      → IsGood (allow_routes buf_len path before rs text count)
  unfolding allow_routes
  allow_routes-IsGood before [] text count f c = c
  allow_routes-IsGood before (r ∷ rs) text count f c =
      >>=-IsGood (allow_route buf_len path before r text count) _
        (allow_route-IsGood before r text count f.0 c)
        (λ t n. allow_routes-IsGood (before ++ r ∷ []) rs t n f.1)

  finish_pos :
      (prs : List (PrefixRoute H)) (a : Allow)
      → known_prefix prs path ≡ true
      → IsGood a
      → 0 < (finish buf_len path prs a).0
  unfolding finish
  finish_pos prs (next text count) e h = allow_prefixes_pos prs text count e
  finish_pos prs (stop text count) e h = h

  -- If every registered method is shorter than the buffer, a known path has a positive count: its 405
  -- answer carries an Allow header.
  pub route_allow_methods_pos :
      (t : Registry H)
      → 0 < buf_len
      → Fits t.routes
      → route_path_known t (some path) ≡ true
      → 0 < (route_allow_methods t (some path) buf_len).0
  unfolding route_path_known route_allow_methods
  route_allow_methods_pos t room f e = elim (Bool-cases (known_exact t.routes path)) [
    | inl hit ↦ ground (
      arith,
      allow_routes_pos [] t.routes f tt hit,
      finish-counted t.prefix_routes (allow_routes buf_len path [] t.routes [] 0),
    )
    | inr miss ↦ ground (
      arith,
      finish_pos t.prefix_routes (allow_routes buf_len path [] t.routes [] 0) (rw miss at e)
          (allow_routes-IsGood [] t.routes [] 0 f (inr refl)),
    )
  ]
