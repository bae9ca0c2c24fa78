-- ===== src/Http/Helpers/Kept.antt =====
-- What the senders leave of the response pool, and what a client reads.
use miniweb.Prelude.{
  ℕ, ◌≡◌, ◌⊎◌, refl, ap, ◌∙◌, Bool, true, false, Option, none, some, List, [], ◌∷◌, Bytes, length,
  take, arith, Bool-cases, Option-cases, inl, inr,
}
use miniweb.Http.Request.{HttpRequest}
use miniweb.Http.ResponseIo.{Event, Sent, done}
use miniweb.Http.ResponsePool.{Pools, Handle, response_pool_shard_index, http_response_pool_acquire}
use miniweb.Http.ResponsePool.Leases.{
  Trace, AllHold, Op, run, run-AllHold, acquire_release-AllHold, acquire_none-AllHold,
}
use miniweb.Http.Response.{
  HttpResponse, no_response, response_at, created_at, fresh_response, http_response_create,
  http_response_set_body, http_response_send, http_response_free, body_bytes,
}
use miniweb.Http.Response.Client.{NoCr, after_blank, announced_length}
use miniweb.Http.Response.Framing.{send_framed}
use miniweb.Http.Helpers.{
  Caller, create, send_and_free, json_response, html_response, error_response, http_send_json,
  http_send_html, http_send_error,
}
use miniweb.Router.{Registry}

-- The pools with the items that are lent.
abbrev Keeps : Trace → Pools → Type 0
Keeps t pools = AllHold (record t { pools = pools })

send_and_free-Keeps :
    (t : Trace) (caller : Caller) (es : List Event) (req : HttpRequest)
    (fill : HttpResponse → HttpResponse)
    → AllHold t
    → Keeps t (send_and_free es req fill (create caller t.pools)).1
unfolding send_and_free http_response_create http_response_free created_at
send_and_free-Keeps t caller es req fill v =
    let shard = response_pool_shard_index caller.thread_hash in
    elim (Option-cases (http_response_pool_acquire shard t.pools).0) [
      | inr (i, e) ↦ rw e (acquire_release-AllHold t caller.thread_hash i v e)
      | inl e ↦ elim (Bool-cases caller.has_memory) [
        | inl room ↦ rw (e, room) (acquire_none-AllHold t caller.thread_hash v e)
        | inr empty ↦ rw (e, empty) (acquire_none-AllHold t caller.thread_hash v e)
      ]
    ]

-- After any history of the pool, and whatever the memory, the socket and the request do, each of the
-- three senders leaves exactly those items lent that were lent before, and of an initialised shard every
-- other item on its free list: it gives back the item that it takes.
pub senders_give_back :
    {H : Type 0} (registry : Registry H) (os : List Op) (caller : Caller) (es : List Event)
    (req : HttpRequest) (text beyond : Bytes) (code : ℕ) (message : Option Bytes)
    → AllHold (record (run os) { pools = (http_send_json caller es req text (run os).pools).1 })
      × AllHold (record (run os) { pools = (http_send_html caller es req text (run os).pools).1 })
      × AllHold (record (run os) {
        pools = (http_send_error registry caller es beyond req code message (run os).pools).1;
      })
unfolding http_send_json http_send_html http_send_error
senders_give_back registry os caller es req text beyond code message =
    let t = run os in
    let v = run-AllHold os in
    (
      send_and_free-Keeps t caller es req (json_response text) v,
      send_and_free-Keeps t caller es req (html_response text) v,
      send_and_free-Keeps t caller es req (error_response registry beyond req code message) v,
    )

take-all : (s : Bytes) → take (length s) s ≡ s
take-all [] = refl
take-all (c ∷ s) = ap (◌∷◌ c) (take-all s)

-- What a client reads of the response if the send succeeds.
Reads : Bytes → Sent → Type 0
Reads body r = (after_blank r.sent ≡ some body) × (announced_length r.sent ≡ some (length body))

fresh_Reads :
    (es : List Event) (req : HttpRequest) (resp : HttpResponse) (text : Bytes)
    → NoCr resp.content_type
    → resp.headers ≡ []
    → resp.body ≡ some text
    → resp.body_len ≡ length text
    → (http_response_send es req resp).status ≡ done
    → Reads text (http_response_send es req resp)
unfolding Reads body_bytes
fresh_Reads es req resp text ct hs body len d =
    let (after, announced) = send_framed es req resp [] ct hs tt d in
    let whole : body_bytes resp ≡ text = rw (body, len, body_bytes) (take-all text) in
    (after ∙ ap some whole, announced ∙ ap some len)

created-cases :
    (shard : ℕ) (has_memory : Bool) (o : Option ℕ)
    → (created_at shard has_memory o ≡ no_response)
      ⊎ ((place : Option Handle) × (created_at shard has_memory o
            ≡ response_at place fresh_response))
unfolding created_at
created-cases shard has_memory (some i) = inr (_, refl)
created-cases shard true none = inr (none, refl)
created-cases shard false none = inl refl

send_and_free-Reads :
    (caller : Caller) (es : List Event) (req : HttpRequest) (fill : HttpResponse → HttpResponse)
    (text : Bytes) (pools : Pools)
    → NoCr (fill fresh_response).content_type
    → (fill fresh_response).headers ≡ []
    → (fill fresh_response).body ≡ some text
    → (fill fresh_response).body_len ≡ length text
    → (send_and_free es req fill (create caller pools)).0.status ≡ done
    → Reads text (send_and_free es req fill (create caller pools)).0
unfolding send_and_free Reads http_response_create
send_and_free-Reads caller es req fill text pools ct hs body len =
    let shard = response_pool_shard_index caller.thread_hash in
    elim (created-cases shard caller.has_memory (http_response_pool_acquire shard pools).0) [
      | inl none_given ↦ rw none_given (λ d. cc)
      | inr (place, e) ↦ rw e (λ d. fresh_Reads es req (fill fresh_response) text ct hs body len d)
    ]

-- If http_send_json or http_send_html reports success, a client reads the text that was passed as the
-- body, and its length as the announced one.
pub senders_framed :
    (caller : Caller) (es : List Event) (req : HttpRequest) (text : Bytes) (pools : Pools)
    → ((http_send_json caller es req text pools).0.status ≡ done
        → (after_blank (http_send_json caller es req text pools).0.sent ≡ some text)
          × (announced_length (http_send_json caller es req text pools).0.sent
              ≡ some (length text)))
      × ((http_send_html caller es req text pools).0.status ≡ done
          → (after_blank (http_send_html caller es req text pools).0.sent ≡ some text)
            × (announced_length (http_send_html caller es req text pools).0.sent
                ≡ some (length text)))
unfolding http_send_json http_send_html json_response html_response http_response_set_body Reads
senders_framed caller es req text pools = (
  send_and_free-Reads caller es req (json_response text) text pools (omega arith) refl refl refl,
  send_and_free-Reads caller es req (html_response text) text pools (omega arith) refl refl refl,
)
