-- ===== src/Http/Helpers.antt =====
-- The senders of src/http/response_helpers.c. A call has the hash of its thread's identifier, what the
-- allocator answers and the kernel's answers to its writes as arguments.
pub mod Kept
use miniweb.Prelude.{
  ℕ, ◌-◌, Bool, true, false, not, ◌&&◌, Option, none, some, List, [], ◌∷◌, ◌++◌, Bytes, codes,
  decimal, ◌==◌, ltb, length, take, if◌then◌else◌,
}
use miniweb.Http.Request.{HttpRequest}
use miniweb.Http.ResponseIo.{Event, Sent, error, nothing}
use miniweb.Http.ResponsePool.{Pools}
use miniweb.Http.Response.{
  HttpResponse, Created, no_response, response_at, http_response_create, http_response_set_status,
  http_response_set_body, http_response_add_header, http_response_send, http_response_free,
}
use miniweb.Router.{Registry}
use miniweb.Router.Allow.{route_allow_methods}
use miniweb.Render.TemplateCache.{TemplateCache, Answers}
use miniweb.Render.Template.{TemplateData, template_render_with_data, template_render}

-- The thread's hash, and whether `calloc` gives a block.
pub record Caller : Type 0 where
  pub thread_hash : ℕ
  pub has_memory : Bool

-- What was sent, with -1 as `error`, and the pools after the call.
abbrev pub Served : Type 0
Served = Sent × Pools

-- What every sender does with its response, which `fill` sets up: it sends and frees it.
unfoldable pub send_and_free :
    List Event → HttpRequest → (HttpResponse → HttpResponse) → Created × Pools → Served
send_and_free es req fill (no_response, pools) = (nothing error, pools)
send_and_free es req fill (response_at place resp, pools) =
    (http_response_send es req (fill resp), http_response_free place pools)

abbrev pub create : Caller → Pools → Created × Pools
create caller pools = http_response_create caller.thread_hash caller.has_memory pools

unfoldable pub json_response : Bytes → HttpResponse → HttpResponse
json_response json resp =
    http_response_set_body (record resp { content_type = codes "application/json" }) (some json)
      (length json) false

unfoldable pub http_send_json : Caller → List Event → HttpRequest → Bytes → Pools → Served
unfolding json_response
http_send_json caller es req json pools =
    send_and_free es req (json_response json) (create caller pools)

unfoldable pub html_response : Bytes → HttpResponse → HttpResponse
html_response html resp = http_response_set_body resp (some html) (length html) false

unfoldable pub http_send_html : Caller → List Event → HttpRequest → Bytes → Pools → Served
unfolding html_response
http_send_html caller es req html pools =
    send_and_free es req (html_response html) (create caller pools)

abbrev pub or_default : Option Bytes → Bytes
or_default none = codes "An error occurred"
or_default (some message) = message

-- The text that `snprintf` formats.
unfoldable pub error_text : ℕ → Option Bytes → Bytes
error_text status_code message =
    codes "<!DOCTYPE html><html><head><meta charset=\"UTF-8\"><title>"
    ++ (decimal status_code
        ++ (codes
              " Error</title><link rel=\"stylesheet\" href=\"/static/css/custom.css\"></head><body><div class=\"container\"><h1>"
            ++ (decimal status_code
                ++ (codes " Error</h1><p>"
                    ++ (or_default message
                        ++ codes
                            "</p><hr><p><a href=\"/\">MiniWeb</a> on OpenBSD</p></div></body></html>")))))

-- The size of `body`.
abbrev pub error_body_size : ℕ
error_body_size = 2048

-- The bytes at `body`: what fits of the text, its NUL, and what lies behind.
abbrev pub error_body : Bytes → Bytes → Bytes
error_body beyond text = take (error_body_size - 1) text ++ (0 ∷ beyond)

-- The size of `allow`.
abbrev pub allow_size : ℕ
allow_size = 256

abbrev pub add_allow : ℕ × Bytes → HttpResponse → HttpResponse
add_allow (count, allow) resp =
    if ltb 0 count then http_response_add_header resp (codes "Allow") allow else resp

-- How `http_render_template` ends: `undefined` is `strlen` of a NULL pointer.
pub data Rendered : Type 0 where
  undefined : Rendered
  served : Sent → Pools → Rendered

abbrev pub as_served : Served → Rendered
as_served (r, pools) = served r pools

-- What the code does with no output: without a response it returns before the `strlen`.
abbrev pub send_null : Created × Pools → Rendered
send_null (no_response, pools) = served (nothing error) pools
send_null (response_at place resp, pools) = undefined

-- What follows the rendering, with the output, which a failure leaves NULL.
unfoldable pub send_output : Caller → List Event → HttpRequest → Option Bytes → Pools → Rendered
send_output caller es req none pools = send_null (create caller pools)
send_output caller es req (some output) pools = as_served (
    send_and_free es req (λ resp. http_response_set_body resp (some output) (length output) true)
      (create caller pools))

module _ {H : Type 0} (registry : Registry H) where
  unfoldable pub error_response :
      Bytes → HttpRequest → ℕ → Option Bytes → HttpResponse → HttpResponse
  error_response beyond req status_code message resp =
      let text = error_text status_code message in
      let filled =
        http_response_set_body (http_response_set_status resp status_code)
          (some (error_body beyond text)) (length text) false in
      if status_code == 405
      then add_allow (route_allow_methods registry (some req.url) allow_size) filled
      else filled

  unfoldable pub http_send_error :
      Caller → List Event → Bytes → HttpRequest → ℕ → Option Bytes → Pools → Served
  unfolding error_response
  http_send_error caller es beyond req status_code message pools =
      send_and_free es req (error_response beyond req status_code message) (create caller pools)

  -- The second rendering, of `page_content` alone, is made only if the first fails.
  abbrev pub message_or : Option Bytes → Bytes
  message_or none = codes "Template rendering failed"
  message_or (some fallback) = fallback

  unfoldable pub send_second :
      Caller
      → List Event
      → Bytes
      → HttpRequest
      → Option Bytes
      → Option Bytes × TemplateCache
      → Pools
      → Rendered × TemplateCache
  send_second caller es beyond req fallback (some output, cache) pools =
      (send_output caller es req (some output) pools, cache)
  send_second caller es beyond req fallback (none, cache) pools = (
    as_served (http_send_error caller es beyond req 500 (some (message_or fallback)) pools),
    cache,
  )

  module _ (templates_dir : Bytes) (path_max : ℕ) where
    unfoldable pub send_first :
        Caller
        → List Event
        → Bytes
        → (ℕ → Answers)
        → (ℕ → Bool)
        → HttpRequest
        → Option Bytes
        → Option Bytes
        → Option Bytes × TemplateCache
        → Pools
        → Rendered × TemplateCache
    send_first caller es beyond answers memory req page fallback (some output, cache) pools =
        (send_output caller es req (some output) pools, cache)
    send_first caller es beyond answers memory req none fallback (none, cache) pools =
        (send_output caller es req none pools, cache)
    send_first caller es beyond answers memory req (some page) fallback (none, cache) pools =
        send_second caller es beyond req fallback
          (template_render templates_dir path_max answers memory page cache) pools

    -- The answers and the allocations of the two renderings.
    unfoldable pub http_render_template :
        Caller
        → List Event
        → Bytes
        → (ℕ → Answers)
        → (ℕ → Bool)
        → (ℕ → Answers)
        → (ℕ → Bool)
        → HttpRequest
        → TemplateData
        → Option Bytes
        → TemplateCache
        → Pools
        → Rendered × TemplateCache
    unfolding send_first
    http_render_template caller es beyond answers memory answers' memory' req d fallback cache
          pools =
        send_first caller es beyond answers' memory' req d.page_content fallback
          (template_render_with_data templates_dir path_max answers memory d cache) pools
