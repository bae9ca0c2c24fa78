-- ===== src/Http/Request.antt =====
-- Requests, and what src/http/response_helpers.c reads of them. The peer's address is the text that
-- `inet_ntop` gives, empty if the request has no address.
use miniweb.Prelude.{
  ℕ, ◌-◌, Bool, true, false, ◌&&◌, ◌||◌, Option, none, some, [], ◌∷◌, ◌++◌, Bytes, codes, str_eq,
  strip_nocase, tolower, map, split_crlf, Split, crlf, c_string, ◌==◌, take, if◌then◌else◌,
}

-- `http_request_t`, less the descriptor and the address.
pub record HttpRequest : Type 0 where
  pub method : Bytes
  pub url : Bytes
  pub version : Bytes
  pub keep_alive : Bool
  pub buffer : Bytes

-- INET_ADDRSTRLEN
abbrev pub address_size : ℕ
address_size = 16

-- What `strcasestr` finds: the text from the hit on.
unfoldable pub find_nocase : Bytes → Bytes → Option Bytes
find_nocase needle [] = none
find_nocase needle (c ∷ s) = elim (strip_nocase needle (c ∷ s)) [
  | some rest ↦ some (c ∷ s)
  | none ↦ find_nocase needle s
]

-- `strchr(s, ':')`, with what follows.
unfoldable pub after_colon : Bytes → Option Bytes
after_colon [] = none
after_colon (c ∷ s) = if c == b':' then some s else after_colon s

unfoldable pub skip_spaces : Bytes → Bytes
skip_spaces [] = []
skip_spaces (c ∷ s) = if c == 32 || c == 9 then skip_spaces s else c ∷ s

-- The search text, in lower case for `strip_nocase`, from a buffer of 256 bytes.
abbrev pub search_text : Bytes → Bytes → Bytes
search_text front name = take 255 (front ++ (map tolower name ++ b':' ∷ []))

abbrev pub value_of_line : Split → Option Bytes
value_of_line none = none
value_of_line (some (value, rest)) = some (take 1023 value)

abbrev pub value_behind : Option Bytes → Option Bytes
value_behind none = none
value_behind (some value) = value_of_line (split_crlf (skip_spaces value))

abbrev pub header_behind : Option Bytes → Option Bytes
header_behind none = none
header_behind (some header) = value_behind (after_colon header)

abbrev pub or_else : Option Bytes → Option Bytes → Option Bytes
or_else (some s) other = some s
or_else none other = other

-- `none` is NULL.
unfoldable pub http_request_get_header : HttpRequest → Bytes → Option Bytes
http_request_get_header req name =
    let buffer = c_string req.buffer in
    header_behind (
      or_else (find_nocase (search_text crlf name) buffer)
        (find_nocase (search_text [] name) buffer))

abbrev pub is_given : Option Bytes → Bool
is_given none = false
is_given (some []) = false
is_given (some (c ∷ s)) = true

-- `config.trusted_proxy` is set, and is the peer.
abbrev pub is_trusted : Bytes → Bytes → Bool
is_trusted trusted_proxy peer_ip = is_given (some trusted_proxy) && str_eq peer_ip trusted_proxy

-- The text before the first comma.
unfoldable pub before_comma : Bytes → Bytes
before_comma [] = []
before_comma (c ∷ s) = if c == b',' then [] else c ∷ before_comma s

abbrev pub or_empty : Option Bytes → Bytes
or_empty none = []
or_empty (some s) = s

unfoldable pub http_request_get_client_ip : Bytes → Bytes → HttpRequest → Bytes
http_request_get_client_ip trusted_proxy peer_ip req =
    let real_ip = http_request_get_header req (codes "X-Real-IP") in
    let forwarded = http_request_get_header req (codes "X-Forwarded-For") in
    if is_trusted trusted_proxy peer_ip && is_given real_ip
    then take (address_size - 1) (or_empty real_ip)
    else if is_trusted trusted_proxy peer_ip && is_given forwarded
    then take (address_size - 1) (before_comma (or_empty forwarded))
    else take (address_size - 1) peer_ip

abbrev pub is_text : Option Bytes → Bytes → Bool
is_text none text = false
is_text (some s) text = str_eq s text

unfoldable pub http_request_is_https : Bytes → Bytes → HttpRequest → Bool
http_request_is_https trusted_proxy peer_ip req =
    is_trusted trusted_proxy peer_ip
    && is_text (http_request_get_header req (codes "X-Forwarded-Proto")) (codes "https")
