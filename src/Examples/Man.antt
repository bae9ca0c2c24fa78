-- ===== src/Examples/Man.antt =====
-- A manual page that is asked for twice, and the URL that asks for it.
use miniweb.Prelude.{
  Bytes, strip_prefix, ℕ, ◌≡◌, ◌≤◌, ◌-◌, refl, true, List, [], ◌∷◌, some, codes, str_eq,
}
use miniweb.Http.FileCache.{repeat}
use miniweb.Http.FileCache.Calls.{hash_from}
use miniweb.Modules.Man.RenderCache.{
  Page, man_ttl, get_slots, man_render_cache_put, man_render_cache_shard, put_target, man_cache,
  holds_key, put_at_slot, put_slot, man_render_cache_key, man_render_cache_get,
}
use miniweb.Modules.Man.RenderCache.Recent.{ManCall, puts, man_step, man_run, PutBy, man_get_recent}
use miniweb.Modules.Man.{
  man_is_valid_token, all_token_bytes, is_token_byte, man_is_valid_section, all_lower,
}
use miniweb.Modules.Man.Request.{
  asks, man_request, page_of_tokens, tokens, pieces, before_ask, at_last_dot, is_format,
}
use miniweb.Modules.Man.Request.Flat.{IsFlat, man_request-IsFlat}

abbrev page : Page
page = record {
  area = codes "system";
  section = codes "1";
  page = codes "ls";
  format = codes "html";
}

abbrev history : List ManCall
history = puts page (codes "<p>") true 1000 ∷ []

is_cached : (man_render_cache_get page true 1600 (man_run history)).0 ≡ some (codes "<p>")
unfolding man_render_cache_get get_slots man_run man_step man_render_cache_put
    man_render_cache_shard hash_from man_render_cache_key put_target man_cache repeat holds_key
    put_at_slot put_slot str_eq
is_cached = refl

man_get_recent_example :
    (time : ℕ) × PutBy history (man_render_cache_key page) (codes "<p>") time
    × (1600 - time ≤ man_ttl)
man_get_recent_example = man_get_recent history page true 1600 (codes "<p>") is_cached

abbrev url : Bytes
url = codes "/man/system/1/ls.html?x"

is_asked : man_request url ≡ asks page
unfolding man_request strip_prefix page_of_tokens tokens pieces before_ask at_last_dot is_format
    str_eq man_is_valid_token all_token_bytes is_token_byte man_is_valid_section all_lower
is_asked = refl

man_request-IsFlat_example : IsFlat page
man_request-IsFlat_example = man_request-IsFlat url page is_asked
