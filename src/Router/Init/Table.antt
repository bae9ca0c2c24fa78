-- ===== src/Router/Init/Table.antt =====
-- What the tables of `init_routes` dispatch to.
use miniweb.Prelude.{
  ℤ, pos, ◌≡◌, refl, Bool, true, false, ◌&&◌, none, some, List, [], ◌∷◌, ◌++◌, Bytes, codes, str_eq,
  str_eq→eq, Bool-cases, Option-cases, inl, inr, sym, strip_prefix, leb, if◌then◌else◌, arith,
}
use miniweb.Router.{
  Route, PrefixRoute, path_slash_count, enough_slashes, prefix_route_matches, register_route,
  register_prefix_route, match_exact, match_prefix, route_match,
}
use miniweb.Router.Init.{
  get, Table, ViewRoute, find_view_route, Handler, view_template_handler, favicon_handler,
  static_handler, metrics_handler, networking_api_handler, man_render_handler, man_api_handler,
  pkg_api_handler, ModuleFlags, init_routes, views_module_attach_routes,
  metrics_module_attach_routes, networking_module_attach_routes, man_module_attach_routes,
  packages_module_attach_routes,
}

abbrev pub flags : Bool → Bool → Bool → Bool → Bool → ModuleFlags
flags v m n a p = record {
  enable_views = v;
  enable_metrics = m;
  enable_networking = n;
  enable_man = a;
  enable_packages = p;
}

abbrev pub on {ℓ} : {A : Type ℓ} → Bool → List A → List A
on b xs = if b then xs else []

abbrev pub route : Bytes → Handler → Route Handler
route path h = record { method = get; path = path; handler = h }

abbrev pub prefix_route : Bytes → ℤ → Handler → PrefixRoute Handler
prefix_route prefix min_slashes h = record {
  method = get;
  prefix = prefix;
  min_slashes = min_slashes;
  handler = h;
}

unfoldable pub view_table : List (Route Handler)
view_table =
    route (codes "/") view_template_handler
    ∷ route (codes "/docs") view_template_handler
    ∷ route (codes "/apiroot") view_template_handler
    ∷ route (codes "/networking") view_template_handler
    ∷ route (codes "/packages") view_template_handler
    ∷ route (codes "/favicon.ico") favicon_handler
    ∷ []

-- The tables, module by module.
abbrev pub tables : Bool → Bool → Bool → Bool → Bool → Table
tables v m n a p = record {
  routes =
      on v view_table
      ++ (on m (
            route (codes "/api/metrics") metrics_handler
            ∷ route (codes "/api/metric") metrics_handler
            ∷ [])
          ++ (on n (route (codes "/api/networking") networking_api_handler ∷ [])
              ++ on a (route (codes "/api/man/sections") man_api_handler ∷ [])));
  prefix_routes =
      on v (prefix_route (codes "/static/") (pos 0) static_handler ∷ [])
      ++ (on a (
            prefix_route (codes "/man/") (pos 2) man_render_handler
            ∷ prefix_route (codes "/api/man") (pos 0) man_api_handler
            ∷ [])
          ++ on p (prefix_route (codes "/api/packages") (pos 0) pkg_api_handler ∷ []));
}

-- No registration of any choice of modules is dropped.
pub init_routes-tables :
    (v m n a p : Bool) → init_routes (some (flags v m n a p)) ≡ tables v m n a p
unfolding init_routes view_table views_module_attach_routes metrics_module_attach_routes
    networking_module_attach_routes man_module_attach_routes packages_module_attach_routes
    register_route register_prefix_route
init_routes-tables true true true true true = refl
init_routes-tables true true true true false = refl
init_routes-tables true true true false true = refl
init_routes-tables true true true false false = refl
init_routes-tables true true false true true = refl
init_routes-tables true true false true false = refl
init_routes-tables true true false false true = refl
init_routes-tables true true false false false = refl
init_routes-tables true false true true true = refl
init_routes-tables true false true true false = refl
init_routes-tables true false true false true = refl
init_routes-tables true false true false false = refl
init_routes-tables true false false true true = refl
init_routes-tables true false false true false = refl
init_routes-tables true false false false true = refl
init_routes-tables true false false false false = refl
init_routes-tables false true true true true = refl
init_routes-tables false true true true false = refl
init_routes-tables false true true false true = refl
init_routes-tables false true true false false = refl
init_routes-tables false true false true true = refl
init_routes-tables false true false true false = refl
init_routes-tables false true false false true = refl
init_routes-tables false true false false false = refl
init_routes-tables false false true true true = refl
init_routes-tables false false true true false = refl
init_routes-tables false false true false true = refl
init_routes-tables false false true false false = refl
init_routes-tables false false false true true = refl
init_routes-tables false false false true false = refl
init_routes-tables false false false false true = refl
init_routes-tables false false false false false = refl

-- Whatever modules are enabled, a GET below /static/, /man/, /api/man or /api/packages goes to the
-- handler of its module if that module is enabled, a manual page only if two more slashes follow, and
-- to no handler otherwise.
pub init_routes_dispatch :
    (v m n a p : Bool) (rest : Bytes)
    → let t = init_routes (some (flags v m n a p)) in
      (route_match t get (codes "/static/" ++ rest) ≡ (if v then some static_handler else none))
      × (route_match t get (codes "/man/" ++ rest)
          ≡ (if a && leb 2 (path_slash_count rest) then some man_render_handler else none))
      × (route_match t get (codes "/api/man" ++ rest) ≡ (if a then some man_api_handler else none))
      × (route_match t get (codes "/api/packages" ++ rest)
          ≡ (if p then some pkg_api_handler else none))
unfolding view_table route_match match_exact match_prefix prefix_route_matches enough_slashes str_eq
    strip_prefix
init_routes_dispatch v m n a p rest =
    rw init_routes-tables (ground arith, ground arith, ground arith, ground arith)

-- Only GET requests have handlers, whatever modules are enabled.
pub init_routes-get_only :
    (v m n a p : Bool) (method path : Bytes) {h : Handler}
    → route_match (init_routes (some (flags v m n a p))) method path ≡ some h
    → method ≡ get
unfolding view_table route_match match_exact match_prefix prefix_route_matches
init_routes-get_only v m n a p method path {h} e =
    let e' = rw init_routes-tables at e in
    elim (Bool-cases (str_eq get method)) [
      | inl hit ↦ sym (str_eq→eq get method hit)
      | inr miss ↦ ground (arith, e', miss)
    ]

-- The view handler is reached only for paths of the view table, so its own lookup of the page cannot
-- fail.
pub view_handler_finds_view :
    (v m n a p : Bool) (method path : Bytes)
    → route_match (init_routes (some (flags v m n a p))) method path ≡ some view_template_handler
    → (view : ViewRoute) × (find_view_route method path ≡ some view)
unfolding view_table route_match match_exact match_prefix prefix_route_matches find_view_route
view_handler_finds_view v m n a p method path e =
    let e' = rw init_routes-tables at e in
    elim (Option-cases (find_view_route method path)) [
      | inl lost ↦ absurd (ground (arith, e', lost))
      | inr found ↦ found
    ]
