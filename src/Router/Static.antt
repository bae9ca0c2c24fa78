-- ===== src/Router/Static.antt =====
-- src/router/route_table.c: which file, page, redirect or error a request for a static file gets, and
-- the redirect. `stat` and `access` are arguments: `stat` gives whether a path is a directory.
pub mod Confined
use miniweb.Prelude.{
  ℕ, ◌+◌, ◌-◌, Bool, true, false, not, ◌&&◌, ◌||◌, Option, none, some, List, [], ◌∷◌, ◌++◌, Bytes,
  codes, split_text, strip_prefix, is_some, ◌==◌, leb, ltb, length, take, if◌then◌else◌,
}
use miniweb.Http.Request.{HttpRequest}
use miniweb.Http.ResponseIo.{Event}
use miniweb.Http.ResponsePool.{Pools}
use miniweb.Http.Response.{
  HttpResponse, http_response_set_status, http_response_set_body, http_response_add_header,
}
use miniweb.Http.Helpers.{Caller, Served, create, send_and_free}
use miniweb.Http.Utils.{mime_type_for_path}

-- The size of each of the four buffers.
abbrev pub path_size : ℕ
path_size = 512

-- What the handler calls, with the arguments: `http_send_error`, `http_send_file`, `send_redirect` and
-- `send_autoindex`.
pub data StaticReply : Type 0 where
  sends_error : ℕ → Bytes → StaticReply
  sends_file : Bytes → Bytes → StaticReply
  redirects : ℕ → Bytes → StaticReply
  lists : Bytes → Bytes → StaticReply

-- The text before the first '?' or '#'.
unfoldable pub before_query : Bytes → Bytes
before_query [] = []
before_query (c ∷ s) = if c == b'?' || c == b'#' then [] else c ∷ before_query s

abbrev pub without_slash : Bytes → Bytes
without_slash [] = []
without_slash (c ∷ s) = if c == b'/' then s else c ∷ s

abbrev pub or_dot : Bytes → Bytes
or_dot [] = codes "."
or_dot (c ∷ s) = c ∷ s

unfoldable pub ends_with_slash : Bytes → Bool
ends_with_slash [] = false
ends_with_slash (c ∷ []) = c == b'/'
ends_with_slash (c ∷ d ∷ s) = ends_with_slash (d ∷ s)

unfoldable pub contains : Bytes → Bytes → Bool
contains needle s = is_some (split_text needle s)

module _ (static_dir : Bytes) (autoindex : Bool) (stat : Bytes → Option Bool)
    (access : Bytes → Bool) where
  -- An index file is taken if its path fits and it can be read.
  unfoldable pub index_or : Bytes → Bytes → StaticReply → StaticReply
  index_or fullpath name other =
      let index_path = fullpath ++ (codes "/" ++ name) in
      if ltb (length index_path) path_size && access index_path
      then sends_file index_path (mime_type_for_path (some name))
      else other

  unfoldable pub reply_dir : Bytes → Bytes → StaticReply
  unfolding index_or
  reply_dir req_path fullpath =
      if not autoindex
      then sends_error 403 (codes "Directory listing disabled")
      else if not (ends_with_slash req_path)
      then (if leb path_size (length req_path + 1)
          then sends_error 414 (codes "URI Too Long")
          else redirects 301 (req_path ++ codes "/"))
      else index_or fullpath (codes "index.html")
          (index_or fullpath (codes "index.htm") (lists req_path fullpath))

  unfoldable pub reply_found : Bytes → Bytes → Bytes → Option Bool → StaticReply
  reply_found req_path relpath fullpath none = sends_error 404 (codes "File not found")
  reply_found req_path relpath fullpath (some true) = reply_dir req_path fullpath
  reply_found req_path relpath fullpath (some false) =
      sends_file fullpath (mime_type_for_path (some relpath))

  unfoldable pub reply_relative : Bytes → Bytes → StaticReply
  reply_relative req_path relpath =
      let fullpath = static_dir ++ (codes "/" ++ relpath) in
      if contains (codes "..") relpath || contains (codes "//") relpath
      then sends_error 403 (codes "Forbidden")
      else if leb path_size (length fullpath)
      then sends_error 414 (codes "URI Too Long")
      else reply_found req_path relpath fullpath (stat fullpath)

  unfoldable pub reply_path : Bytes → Option Bytes → StaticReply
  reply_path req_path none = sends_error 404 (codes "Not Found")
  reply_path req_path (some behind) = reply_relative req_path (or_dot (without_slash behind))

  -- The request and its URL are never NULL.
  unfoldable pub static_handler : Bytes → StaticReply
  unfolding reply_path
  static_handler url =
      let req_path = before_query url in
      if length req_path == 0 || leb path_size (length req_path)
      then sends_error 400 (codes "Bad Request")
      else reply_path req_path (strip_prefix (codes "/static") req_path)

-- The path that `favicon_handler` sends, with its type.
unfoldable pub favicon_path : Bytes → Bytes
favicon_path static_dir = take (path_size - 1) (static_dir ++ codes "/assets/favicon.svg")

unfoldable pub redirect_response : ℕ → Bytes → HttpResponse → HttpResponse
redirect_response status_code location resp =
    let typed = record (http_response_set_status resp status_code) {
      content_type = codes "text/plain; charset=utf-8";
    } in
    http_response_set_body (http_response_add_header typed (codes "Location") location) (some []) 0
      false

unfoldable pub send_redirect : Caller → List Event → HttpRequest → ℕ → Bytes → Pools → Served
send_redirect caller es req status_code location pools =
    send_and_free es req (redirect_response status_code location) (create caller pools)
