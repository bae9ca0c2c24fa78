-- ===== src/Examples/Router.antt =====
-- Requests to a small registry and to the server's own one.
use miniweb.Prelude.{ℕ, ◌≡◌, true, some, [], ◌∷◌, pos, Bytes, codes}
use miniweb.Router.{Registry, route_match, route_path_known}
use miniweb.Router.Known.{route_path_known_iff}

abbrev post : Bytes
post = codes "POST"

-- A form, and files below a directory.
abbrev registry : Registry ℕ
registry = record {
  routes = record { method = post; path = codes "/form"; handler = 1 } ∷ [];
  prefix_routes =
      record { method = codes "GET"; prefix = codes "/files/"; min_slashes = pos 0; handler = 2 }
      ∷ [];
}

route_path_known_iff_example :
    (route_path_known registry (some (codes "/form")) ≡ true
      → (m : Bytes) × (h : ℕ) × (route_match registry m (codes "/form") ≡ some h))
    × ((m : Bytes) (h : ℕ)
        → route_match registry m (codes "/form") ≡ some h
        → route_path_known registry (some (codes "/form")) ≡ true)
route_path_known_iff_example = route_path_known_iff registry (codes "/form")
