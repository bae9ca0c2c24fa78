-- ===== src/Router/Known.antt =====
-- `route_path_known`, which the worker asks to tell 405 from 404, against `route_match`.
use miniweb.Prelude.{
  ◌≡◌, refl, true, false, inl, inr, some, List, [], ◌∷◌, Bytes, str_eq, str_eq_refl, arith,
  Bool-cases, Option-cases, if◌then◌else◌,
}
use miniweb.Router.{
  Route, PrefixRoute, Registry, prefix_route_matches, prefix_route_path_matches, match_exact,
  match_prefix, route_match, known_exact, known_prefix, route_path_known,
}

module _ {H : Type 0} where
  -- A prefix route takes a request exactly if it takes the path and has the method.
  prefix_route_matches_iff :
      (pr : PrefixRoute H) (method path : Bytes)
      → prefix_route_matches pr method path
        ≡ (if str_eq pr.method method then prefix_route_path_matches pr path else false)
  unfolding prefix_route_matches prefix_route_path_matches
  prefix_route_matches_iff pr method path = refl

  known_exact→match :
      (rs : List (Route H)) (path : Bytes)
      → known_exact rs path ≡ true
      → (m : Bytes) × (h : H) × (match_exact rs m path ≡ some h)
  unfolding known_exact match_exact
  known_exact→match [] path e = cc
  known_exact→match (r ∷ rs) path e = elim (Bool-cases (str_eq r.path path)) [
    | inl hit ↦ (r.method, r.handler, rw (hit, str_eq_refl r.method))
    | inr miss ↦
        let (m, h, f) = known_exact→match rs path (rw miss at e) in (m, h, ground (arith, miss, f))
  ]

  match→known_exact :
      (rs : List (Route H)) (m path : Bytes) (h : H)
      → match_exact rs m path ≡ some h
      → known_exact rs path ≡ true
  unfolding known_exact match_exact
  match→known_exact [] m path h e = cc
  match→known_exact (r ∷ rs) m path h e = ground (arith, match→known_exact rs m path h)

  known_prefix→match :
      (prs : List (PrefixRoute H)) (path : Bytes)
      → known_prefix prs path ≡ true
      → (m : Bytes) × (h : H) × (match_prefix prs m path ≡ some h)
  unfolding known_prefix match_prefix
  known_prefix→match [] path e = cc
  known_prefix→match (pr ∷ prs) path e = elim (Bool-cases (prefix_route_path_matches pr path)) [
    | inl hit ↦ (
      pr.method,
      pr.handler,
      rw (prefix_route_matches_iff pr pr.method path, str_eq_refl pr.method, hit),
    )
    | inr miss ↦
        let (m, h, f) = known_prefix→match prs path (rw miss at e) in
        (m, h, ground (arith, prefix_route_matches_iff pr m path, miss, f))
  ]

  match→known_prefix :
      (prs : List (PrefixRoute H)) (m path : Bytes) (h : H)
      → match_prefix prs m path ≡ some h
      → known_prefix prs path ≡ true
  unfolding known_prefix match_prefix
  match→known_prefix [] m path h e = cc
  match→known_prefix (pr ∷ prs) m path h e =
      ground (arith, prefix_route_matches_iff pr m path, match→known_prefix prs m path h)

  exact→route_match :
      (t : Registry H) (m path : Bytes) {h : H}
      → match_exact t.routes m path ≡ some h
      → route_match t m path ≡ some h
  unfolding route_match
  exact→route_match t m path e = rw (e, route_match)

  prefix→route_match :
      (t : Registry H) (m path : Bytes) (h : H)
      → match_prefix t.prefix_routes m path ≡ some h
      → (h' : H) × (route_match t m path ≡ some h')
  unfolding route_match
  prefix→route_match t m path h e = elim (Option-cases (match_exact t.routes m path)) [
    | inl f ↦ (h, rw (f, route_match) e)
    | inr (h', f) ↦ (h', rw (f, route_match))
  ]

  -- A path is known exactly if some method has a handler for it: so the worker answers 405 exactly if
  -- another method would have been served, and 404 exactly if none would.
  pub route_path_known_iff :
      (t : Registry H) (path : Bytes)
      → (route_path_known t (some path) ≡ true
          → (m : Bytes) × (h : H) × (route_match t m path ≡ some h))
        × ((m : Bytes) (h : H)
            → route_match t m path ≡ some h
            → route_path_known t (some path) ≡ true)
  unfolding route_path_known route_match
  route_path_known_iff t path = (known→, →known)
    where
      known→ :
          route_path_known t (some path) ≡ true
          → (m : Bytes) × (h : H) × (route_match t m path ≡ some h)
      known→ e = elim (Bool-cases (known_exact t.routes path)) [
        | inl hit ↦
            let (m, h, f) = known_exact→match t.routes path hit in
            (m, h, exact→route_match t m path f)
        | inr miss ↦
            let (m, h, f) = known_prefix→match t.prefix_routes path (rw miss at e) in
            let (h', g) = prefix→route_match t m path h f in (m, h', g)
      ]

      →known :
          (m : Bytes) (h : H)
          → route_match t m path ≡ some h
          → route_path_known t (some path) ≡ true
      →known m h e =
          ground (
            arith,
            match→known_exact t.routes m path h,
            match→known_prefix t.prefix_routes m path h,
          )
