-- ===== src/Router/Init.antt =====
-- src/router/url_registry_init.c, module_attach.c, router.c and the `*_attach_routes` functions of
-- src/modules: how the tables are filled at start-up. The router facade of `init_routes` always has
-- both callbacks, so a `struct router` is the registry that they write, and a call's status is part of
-- its result; the modules have no `init` callback.
pub mod Table
use miniweb.Prelude.{
  ℕ, Bool, true, false, ◌&&◌, Option, none, some, List, [], ◌∷◌, Bytes, codes, str_eq,
  if◌then◌else◌, ℤ, pos,
}
use miniweb.Router.{Registry, register_route, register_prefix_route}

pub data Handler : Type 0 where
  view_template_handler favicon_handler static_handler metrics_handler : Handler
  networking_api_handler man_render_handler man_api_handler pkg_api_handler : Handler

abbrev pub Table : Type 0
Table = Registry Handler

pub record ViewRoute : Type 0 where
  pub method : Bytes
  pub path : Bytes
  pub title : Bytes
  pub page : Bytes
  pub extra_head : Bytes
  pub extra_js : Bytes

abbrev pub get : Bytes
get = codes "GET"

abbrev pub view_routes : List ViewRoute
view_routes =
    record {
      method = get;
      path = codes "/";
      title = codes "MiniWeb - Dashboard";
      page = codes "dashboard.html";
      extra_head = codes "dashboard_extra_head.html";
      extra_js = codes "dashboard_extra_js.html";
    }
    ∷ record {
      method = get;
      path = codes "/docs";
      title = codes "MiniWeb - Documentation";
      page = codes "docs.html";
      extra_head = codes "docs_extra_head.html";
      extra_js = codes "docs_extra_js.html";
    }
    ∷ record {
      method = get;
      path = codes "/apiroot";
      title = codes "MiniWeb - API Root";
      page = codes "api.html";
      extra_head = codes "api_extra_head.html";
      extra_js = codes "api_extra_js.html";
    }
    ∷ record {
      method = get;
      path = codes "/networking";
      title = codes "MiniWeb - Networking";
      page = codes "networking.html";
      extra_head = codes "networking_extra_head.html";
      extra_js = codes "networking_extra_js.html";
    }
    ∷ record {
      method = get;
      path = codes "/packages";
      title = codes "MiniWeb - Package Manager";
      page = codes "packages.html";
      extra_head = codes "packages_extra_head.html";
      extra_js = codes "packages_extra_js.html";
    }
    ∷ []

unfoldable pub find_view_route_in : List ViewRoute → Bytes → Bytes → Option ViewRoute
find_view_route_in [] method path = none
find_view_route_in (v ∷ vs) method path =
    if str_eq v.method method && str_eq v.path path
    then some v
    else find_view_route_in vs method path

unfoldable pub find_view_route : Bytes → Bytes → Option ViewRoute
unfolding find_view_route_in
find_view_route = find_view_route_in view_routes

-- A call that registers: `false` is the result -1.
abbrev pub Attach : Type 0
Attach = Table → Bool × Table

-- The callbacks of `init_routes` return 0 whatever the table does.
unfoldable pub router_register : Bytes → Bytes → Handler → Attach
router_register method path handler t = (true, register_route t method path handler)

unfoldable pub router_register_prefix : Bytes → Bytes → ℤ → Handler → Attach
router_register_prefix method prefix min_slashes handler t =
    (true, register_prefix_route t method prefix min_slashes handler)

-- `if (a != 0) return -1; b`
infixr 5 ◌>>◌
abbrev pub ◌>>◌ : Attach → Attach → Attach
◌>>◌ a b t = let (done, t') = a t in if done then b t' else (false, t')

abbrev done : Attach
done t = (true, t)

register_views : List ViewRoute → Attach
unfolding router_register
register_views [] = done
register_views (v ∷ vs) = router_register v.method v.path view_template_handler >> register_views vs

unfoldable pub views_module_attach_routes : Attach
unfolding register_views router_register router_register_prefix
views_module_attach_routes =
    register_views view_routes
    >> router_register get (codes "/favicon.ico") favicon_handler
    >> router_register_prefix get (codes "/static/") (pos 0) static_handler

unfoldable pub metrics_module_attach_routes : Attach
unfolding router_register
metrics_module_attach_routes =
    router_register get (codes "/api/metrics") metrics_handler
    >> router_register get (codes "/api/metric") metrics_handler

unfoldable pub networking_module_attach_routes : Attach
unfolding router_register
networking_module_attach_routes =
    router_register get (codes "/api/networking") networking_api_handler

unfoldable pub man_module_attach_routes : Attach
unfolding router_register router_register_prefix
man_module_attach_routes =
    router_register_prefix get (codes "/man/") (pos 2) man_render_handler
    >> router_register_prefix get (codes "/api/man") (pos 0) man_api_handler
    >> router_register get (codes "/api/man/sections") man_api_handler

unfoldable pub packages_module_attach_routes : Attach
unfolding router_register_prefix
packages_module_attach_routes =
    router_register_prefix get (codes "/api/packages") (pos 0) pkg_api_handler

-- `miniweb_module`: whether it is enabled, and its route callback.
pub record Module : Type 0 where
  pub enabled_by_default : Bool
  pub attach_routes : Attach

unfoldable pub module_attach_enabled : List Module → Attach
module_attach_enabled [] = done
module_attach_enabled (m ∷ ms) =
    if m.enabled_by_default
    then m.attach_routes >> module_attach_enabled ms
    else module_attach_enabled ms

pub record ModuleFlags : Type 0 where
  pub enable_views : Bool
  pub enable_metrics : Bool
  pub enable_networking : Bool
  pub enable_man : Bool
  pub enable_packages : Bool

abbrev all_enabled : ModuleFlags
all_enabled = record {
  enable_views = true;
  enable_metrics = true;
  enable_networking = true;
  enable_man = true;
  enable_packages = true;
}

abbrev or_default : Option ModuleFlags → ModuleFlags
or_default none = all_enabled
or_default (some f) = f

abbrev modules : ModuleFlags → List Module
modules f =
    record { enabled_by_default = f.enable_views; attach_routes = views_module_attach_routes }
    ∷ record { enabled_by_default = f.enable_metrics; attach_routes = metrics_module_attach_routes }
    ∷ record {
      enabled_by_default = f.enable_networking;
      attach_routes = networking_module_attach_routes;
    }
    ∷ record { enabled_by_default = f.enable_man; attach_routes = man_module_attach_routes }
    ∷ record {
      enabled_by_default = f.enable_packages;
      attach_routes = packages_module_attach_routes;
    }
    ∷ []

-- `none` is a NULL configuration.
unfoldable pub init_routes : Option ModuleFlags → Table
unfolding module_attach_enabled
init_routes conf =
    (module_attach_enabled (modules (or_default conf))
      (record { routes = []; prefix_routes = [] })).1
