-- ===== src/Middleware/Proxy.antt =====
-- packages/middleware/src/proxy.ts: the call of the upstream. URL parsing, DNS and `fetch` are
-- parameters; the name of an error that `fetch` throws decides. An outcome is listed with the
-- connection that was opened, if one was. A body is the list of its bytes.
pub mod Capped
pub mod Pinning
use g_gate.Prelude.{
  ℕ, ◌+◌, Bool, true, false, not, ◌&&◌, ◌||◌, Option, none, some, List, [], ◌∷◌, ◌++◌, length, ltb,
  ◌==◌, if◌then◌else◌,
}
use g_gate.Prelude.Text.{Text, codes, text_beq, is_empty}
use g_gate.Shared.NetGuard.{Resolver, resolve_pinned_ip}
use g_gate.Middleware.Paywall.{Config, ProxyOutcome, response, failure}

abbrev pub max_proxy_body_bytes : ℕ
max_proxy_body_bytes = 1_048_576

-- The buyer's request: its method in upper case, what follows the first `?` of its URL (if there is
-- one), its header fields that may be forwarded, and the JSON text of its body where it has one that
-- is an object.
pub record ProxyRequest : Type 0 where
  pub method : Text
  pub raw_query : Option Text
  pub header : Text → Option Text
  pub json_body : Option Text

-- `new URL(…)`: its host, and its query without the `?`.
pub record TargetUrl : Type 0 where
  pub hostname : Text
  pub search : Text

pub record ProxyOptions : Type 0 where
  pub upstream_url : Text
  pub req : ProxyRequest
  pub follow_redirects : Bool
  pub pin_to_public_ip : Bool

-- What the handler of `/svc/:id` passes (app.ts).
unfoldable pub proxy_options : Config → Text → ProxyRequest → ProxyOptions
proxy_options c upstream_url req = record {
  upstream_url = upstream_url;
  req = req;
  follow_redirects = not c.live;
  pin_to_public_ip = c.live;
}

-- What the reader of a body gives, chunk by chunk.
pub data BodyStream : Type 0 where
  done : BodyStream
  chunk : Text → BodyStream → BodyStream
  broken : Text → BodyStream

pub data CappedBody : Type 0 where
  whole : Text → CappedBody
  too_large : CappedBody
  read_error : Text → CappedBody

-- A connection as it is asked of `fetch`; `pinned` is the address that its lookup gives. If redirects
-- are to be followed, `fetch` may open others after it, which are not listed.
pub record Connection : Type 0 where
  pub url : TargetUrl
  pub method : Text
  pub headers : List (Text × Text)
  pub body : Option Text
  pub follow_redirects : Bool
  pub pinned : Option (Text × ℕ)

pub data FetchAnswer : Type 0 where
  fetch_failed : Text → FetchAnswer
  fetched : ℕ → Option Text → BodyStream → FetchAnswer

-- `set_search` is the query that an assignment to `url.search` leaves, `has_agent` says that undici's `Agent` can be made.
pub record Net : Type 0 where
  pub resolver : Resolver
  pub parse_url : Text → TargetUrl
  pub set_search : Text → Text
  pub has_agent : Bool
  pub fetch : Connection → FetchAnswer

pub record ProxyCall : Type 0 where
  pub outcome : ProxyOutcome
  pub connected : Option Connection

-- `buildTargetUrl`.
unfoldable pub build_target_url : (Text → Text) → TargetUrl → Option Text → TargetUrl
build_target_url set_search url none = url
build_target_url set_search url (some raw) = if is_empty raw then url else record url {
  search = set_search (if is_empty url.search then raw else url.search ++ b'&' ∷ raw);
}

-- The loop of `readBodyCapped`, with the bytes that were read so far.
unfoldable pub read_capped : ℕ → Text → BodyStream → CappedBody
read_capped max_bytes bytes done = whole bytes
read_capped max_bytes bytes (broken name) = read_error name
read_capped max_bytes bytes (chunk c rest) =
    let next = read_capped max_bytes (bytes ++ c) rest in
    if ltb max_bytes (length (bytes ++ c)) then too_large else next

unfoldable pub read_body_capped : BodyStream → ℕ → CappedBody
read_body_capped stream max_bytes = read_capped max_bytes [] stream

-- The header fields of the whitelist that the request has.
abbrev pub forwarded : ProxyRequest → List Text → List (Text × Text)
forwarded req [] = []
forwarded req (name ∷ names) =
    let rest = forwarded req names in
    elim (req.header name) [
      | none ↦ rest
      | some value ↦ if is_empty value then rest else (name, value) ∷ rest
    ]

abbrev pub forwarded_request_headers : List Text
forwarded_request_headers = codes "accept" ∷ codes "accept-language" ∷ codes "user-agent" ∷ []

-- The body that is sent on, if the method has one.
abbrev pub body_of : ProxyRequest → Option Text
body_of req =
    if text_beq req.method (codes "GET") || text_beq req.method (codes "HEAD")
    then none
    else req.json_body

abbrev pub body_too_large : Option Text → Bool
body_too_large none = false
body_too_large (some body) = ltb max_proxy_body_bytes (length body)

abbrev pub headers_of : ProxyRequest → Option Text → List (Text × Text)
headers_of req none = forwarded req forwarded_request_headers
headers_of req (some body) =
    forwarded req forwarded_request_headers ++ (codes "content-type", codes "application/json") ∷ []

abbrev pub failure_of : Text → ProxyOutcome
failure_of name =
    if text_beq name (codes "TimeoutError") || text_beq name (codes "AbortError")
    then failure 504 (codes "upstream_timeout")
    else failure 502 (codes "upstream_unreachable")

unfoldable pub outcome_of : FetchAnswer → ProxyOutcome
outcome_of (fetch_failed name) = failure_of name
outcome_of (fetched status content_type stream) =
    elim (read_body_capped stream max_proxy_body_bytes) [
      | whole body ↦ response status content_type body
      | too_large ↦ failure 502 (codes "upstream_response_too_large")
      | read_error name ↦ failure_of name
    ]

abbrev pub connect : Net → Connection → ProxyCall
connect net c = record { outcome = outcome_of (net.fetch c); connected = some c }

abbrev pub refused_call : Text → ProxyCall
refused_call error = record { outcome = failure 502 error; connected = none }

abbrev pub connection_to : ProxyOptions → TargetUrl → Option Text → Option (Text × ℕ) → Connection
connection_to opts url body pinned = record {
  url = url;
  method = opts.req.method;
  headers = headers_of opts.req body;
  body = body;
  follow_redirects = opts.follow_redirects;
  pinned = pinned;
}

-- The connection, pinned where that is asked for; without an `Agent` it is not.
unfoldable pub pin_and_connect : Net → ProxyOptions → TargetUrl → Option Text → ProxyCall
pin_and_connect net opts url body =
    if opts.pin_to_public_ip
    then elim (resolve_pinned_ip net.resolver url.hostname) [
      | none ↦ refused_call (codes "upstream_unreachable")
      | some pinned ↦
          connect net (connection_to opts url body (if net.has_agent then some pinned else none))
    ]
    else connect net (connection_to opts url body none)

unfoldable pub proxy_to_upstream : Net → ProxyOptions → ProxyCall
proxy_to_upstream net opts =
    let body = body_of opts.req in
    if body_too_large body
    then refused_call (codes "upstream_request_too_large")
    else pin_and_connect net opts
        (build_target_url net.set_search (net.parse_url opts.upstream_url) opts.req.raw_query) body
