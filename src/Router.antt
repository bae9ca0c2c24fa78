-- ===== src/Router.antt =====
-- src/router/url_registry.c, url_registry_lookup.c, router.c and module_attach.c: the route tables,
-- their lookup and their registration. A table is the list of its first `count` entries, and a handler
-- pointer is a value of a type `H` that the tables only move.
pub mod Known
pub mod Allow
pub mod Init
pub mod AutoIndex
pub mod Static
pub mod Views
use miniweb.Prelude.{
  ℕ, zero, suc, ◌+◌, Bool, true, false, ◌&&◌, Option, none, some, List, [], ◌∷◌, ◌++◌, Bytes,
  str_eq, strip_prefix, ◌==◌, leb, ltb, length, if◌then◌else◌, ℤ, at_least, at_most_zero,
}

-- MAX_ROUTES and MAX_PREFIX_ROUTES
abbrev pub max_routes : ℕ
max_routes = 32

abbrev pub max_prefix_routes : ℕ
max_prefix_routes = 16

pub record Route (H : Type 0) : Type 0 where
  pub method : Bytes
  pub path : Bytes
  pub handler : H

pub record PrefixRoute (H : Type 0) : Type 0 where
  pub method : Bytes
  pub prefix : Bytes
  pub min_slashes : ℤ
  pub handler : H

pub record Registry (H : Type 0) : Type 0 where
  pub routes : List (Route H)
  pub prefix_routes : List (PrefixRoute H)

unfoldable pub path_slash_count : Bytes → ℕ
path_slash_count [] = 0
path_slash_count (c ∷ path) =
    if c == b'/' then suc (path_slash_count path) else path_slash_count path

-- The test of the text behind the prefix, if the prefix fits.
unfoldable pub enough_slashes : ℤ → Option Bytes → Bool
enough_slashes min_slashes none = false
enough_slashes min_slashes (some rest) =
    if at_most_zero min_slashes then true else at_least (path_slash_count rest) min_slashes

module _ {H : Type 0} where
  unfoldable pub prefix_route_path_matches : PrefixRoute H → Bytes → Bool
  prefix_route_path_matches pr path = enough_slashes pr.min_slashes (strip_prefix pr.prefix path)

  unfoldable pub prefix_route_matches : PrefixRoute H → Bytes → Bytes → Bool
  prefix_route_matches pr method path =
      if str_eq pr.method method
      then enough_slashes pr.min_slashes (strip_prefix pr.prefix path)
      else false

  unfoldable pub register_route : Registry H → Bytes → Bytes → H → Registry H
  register_route t method path handler =
      if ltb (length t.routes) max_routes
      then record t {
        routes = t.routes ++ record { method = method; path = path; handler = handler } ∷ [];
      }
      else t

  unfoldable pub register_prefix_route : Registry H → Bytes → Bytes → ℤ → H → Registry H
  register_prefix_route t method prefix min_slashes handler =
      if leb max_prefix_routes (length t.prefix_routes) then t else record t {
        prefix_routes =
            t.prefix_routes
            ++ record {
              method = method;
              prefix = prefix;
              min_slashes = min_slashes;
              handler = handler;
            }
              ∷ [];
      }

  -- The two loops of `route_match`.
  unfoldable pub match_exact : List (Route H) → Bytes → Bytes → Option H
  match_exact [] method path = none
  match_exact (r ∷ rs) method path =
      if str_eq r.method method && str_eq r.path path
      then some r.handler
      else match_exact rs method path

  unfoldable pub match_prefix : List (PrefixRoute H) → Bytes → Bytes → Option H
  match_prefix [] method path = none
  match_prefix (pr ∷ prs) method path =
      if prefix_route_matches pr method path then some pr.handler else match_prefix prs method path

  unfoldable pub route_match : Registry H → Bytes → Bytes → Option H
  route_match t method path = elim (match_exact t.routes method path) [
    | some handler ↦ some handler
    | none ↦ match_prefix t.prefix_routes method path
  ]

  -- The two loops of `route_path_known`.
  unfoldable pub known_exact : List (Route H) → Bytes → Bool
  known_exact [] path = false
  known_exact (r ∷ rs) path = if str_eq r.path path then true else known_exact rs path

  unfoldable pub known_prefix : List (PrefixRoute H) → Bytes → Bool
  known_prefix [] path = false
  known_prefix (pr ∷ prs) path =
      if prefix_route_path_matches pr path then true else known_prefix prs path

  -- `none` is a NULL path.
  unfoldable pub route_path_known : Registry H → Option Bytes → Bool
  route_path_known t none = false
  route_path_known t (some path) =
      if known_exact t.routes path then true else known_prefix t.prefix_routes path
