-- ===== src/Router/Allow.antt =====
-- src/router/url_registry_reverse.c: the method list of an Allow header, with `snprintf` into a buffer
-- of `buf_len` bytes. The caller's buffer is never NULL.
pub mod Header
use miniweb.Prelude.{
  ℕ, suc, ◌+◌, ◌-◌, Bool, true, false, not, ◌&&◌, Option, none, some, List, [], ◌∷◌, ◌++◌, Bytes,
  codes, str_eq, strip_prefix, ◌==◌, leb, ltb, length, take, if◌then◌else◌,
}
use miniweb.Router.{Route, PrefixRoute, Registry}

-- The text in the buffer and `count`; `stop` is the early return.
pub data Allow : Type 0 where
  next stop : Bytes → ℕ → Allow

-- What the loop does after one round.
infixl 5 ◌>>=◌
abbrev pub ◌>>=◌ : Allow → (Bytes → ℕ → Allow) → Allow
next text count >>= rest = rest text count
stop text count >>= rest = stop text count

abbrev separator : ℕ → Bytes
separator count = if ltb 0 count then codes ", " else []

-- `snprintf(buf + used, buf_len - used, "%s%s", …)` and the test of its result.
unfoldable pub append_method : ℕ → Bytes → Bytes → ℕ → Allow
append_method buf_len method text count =
    let piece = separator count ++ method in
    let space = buf_len - length text in
    if leb space (length piece)
    then stop (text ++ take (space - 1) piece) count
    else next (text ++ piece) (count + 1)

module _ {H : Type 0} where
  -- The list holds the entries before `route_index`, the route is the one at it.
  unfoldable pub route_method_seen_for_path : List (Route H) → Route H → Bytes → Bool
  route_method_seen_for_path [] r path = false
  route_method_seen_for_path (s ∷ before) r path =
      if str_eq s.path path && str_eq s.method r.method
      then true
      else route_method_seen_for_path before r path

  unfoldable pub allow_route : ℕ → Bytes → List (Route H) → Route H → Bytes → ℕ → Allow
  allow_route buf_len path before r text count =
      if not (str_eq r.path path)
      then next text count
      else if route_method_seen_for_path before r path
      then next text count
      else append_method buf_len r.method text count

  unfoldable pub allow_routes : ℕ → Bytes → List (Route H) → List (Route H) → Bytes → ℕ → Allow
  allow_routes buf_len path before [] text count = next text count
  allow_routes buf_len path before (r ∷ rs) text count =
      allow_route buf_len path before r text count
      >>= allow_routes buf_len path (before ++ r ∷ []) rs

  -- The loop over the prefix routes, which ends at the first prefix that fits.
  unfoldable pub allow_prefixes : ℕ → Bytes → List (PrefixRoute H) → Bytes → ℕ → ℕ × Bytes
  allow_prefixes buf_len path [] text count = (count, text)
  allow_prefixes buf_len path (pr ∷ prs) text count = elim (strip_prefix pr.prefix path) [
    | none ↦ allow_prefixes buf_len path prs text count
    | some rest ↦ (
      if count == 0 then 1 else count,
      if count == 0 && ltb 3 buf_len then take (buf_len - 1) pr.method else text,
    )
  ]

  pub finish : ℕ → Bytes → List (PrefixRoute H) → Allow → ℕ × Bytes
  finish buf_len path prs (stop text count) = (count, text)
  finish buf_len path prs (next text count) = allow_prefixes buf_len path prs text count

  -- The count and the text; `none` is a NULL path.
  unfoldable pub route_allow_methods : Registry H → Option Bytes → ℕ → ℕ × Bytes
  unfolding finish
  route_allow_methods t none buf_len = (0, [])
  route_allow_methods t (some path) buf_len =
      if buf_len == 0
      then (0, [])
      else finish buf_len path t.prefix_routes (allow_routes buf_len path [] t.routes [] 0)
