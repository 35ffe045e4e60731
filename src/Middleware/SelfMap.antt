-- ===== src/Middleware/SelfMap.antt =====
-- packages/middleware/src/app.ts: the owner's `POST /services/:id/map`, and the admin's calls that
-- map and unmap a service. The body is the JSON value that Express parsed.
pub mod Authority
use g_gate.Prelude.{
  ℕ, ◌+◌, ◌-◌, Bool, true, false, not, ◌&&◌, ◌||◌, Option, none, some, ◌++◌, ◌∷◌, leb, ltb,
  if◌then◌else◌, nat_eq,
}
use g_gate.Prelude.Text.{Text, codes}
use g_gate.Prelude.Maps.{Map, lookup, insert}
use g_gate.Prelude.Decimal.{decimal}
use g_gate.Shared.Errors.{AgentGateError, Result, ok, err}
use g_gate.Shared.Json.{Json, num, str, obj, get_field}
use g_gate.Shared.Types.{ServiceRecord}
use g_gate.Shared.Trust.{max_safe_integer}
use g_gate.Shared.NetGuard.{Resolver}
use g_gate.Shared.HttpUrl.{
  Url, UrlValidation, invalid_url, forbidden_host, valid, validate_http_url,
}
use g_gate.Middleware.UpstreamStore
use g_gate.Middleware.UpstreamStore.{UpstreamStore}
use g_gate.Middleware.ServiceCache
use g_gate.Middleware.ServiceCache.{ServiceCache}
use g_gate.Middleware.Paywall.{World, Config, parse_service_id}
use g_gate.Middleware.Paywall.Admission.{recover_signer, signed_by, newline}

-- The state of the handler; `last_self_map_ts` is `lastSelfMapTs`.
pub record Mapping : Type 0 where
  pub services : ServiceCache
  pub upstreams : UpstreamStore
  pub last_self_map_ts : Map ℕ ℕ

-- The answers: 204, an error status with its text, or an error for the error handler.
pub data MapAnswer : Type 0 where
  mapped : MapAnswer
  invalid_service_id invalid_body stale_request service_not_found : MapAnswer
  not_service_owner replayed invalid_upstream_url forbidden_upstream_host : MapAnswer
  crashed : AgentGateError → MapAnswer

pub record MapBody : Type 0 where
  pub upstream_url : Text
  pub timestamp : ℕ
  pub signature_hex : Text

abbrev pub self_map_window_ms : ℕ
self_map_window_ms = 120_000

-- The body's three fields, by type. A negative timestamp, which the source finds to be stale, is
-- an invalid body here.
abbrev pub read_fields : Option Json → Option Json → Option Json → Option MapBody
read_fields (some (str url)) (some (num t)) (some (str s)) =
    if leb t max_safe_integer
    then some (record { upstream_url = url; timestamp = t; signature_hex = s })
    else none
read_fields _ _ _ = none

unfoldable pub read_body : Json → Option MapBody
read_body (obj fs) =
    read_fields (get_field (codes "upstreamUrl") fs) (get_field (codes "timestamp") fs)
      (get_field (codes "signatureHex") fs)
read_body _ = none

-- `Math.abs(Date.now() - timestamp) > self_map_window_ms`.
unfoldable pub is_stale_request : ℕ → ℕ → Bool
is_stale_request now t = ltb self_map_window_ms ((now - t) + (t - now))

-- packages/shared/src/self-map.ts: buildSelfMapMessage.
unfoldable pub build_self_map_message : Text → ℕ → Text → ℕ → Text
build_self_map_message network service_id upstream_url timestamp =
    codes "AgentGate/self-map/v1"
    ++ (newline ∷ network)
    ++ (newline ∷ decimal service_id)
    ++ (newline ∷ upstream_url)
    ++ (newline ∷ decimal timestamp)

abbrev pub is_replay : Option ℕ → ℕ → Bool
is_replay none t = false
is_replay (some last) t = leb t last

unfoldable pub store_url : ℕ → MapBody → UrlValidation → Mapping → MapAnswer × Mapping
store_url id b invalid_url m = (invalid_upstream_url, m)
store_url id b forbidden_host m = (forbidden_upstream_host, m)
store_url id b (valid url) m = (
  mapped,
  record m {
    last_self_map_ts = insert id b.timestamp m.last_self_map_ts;
    upstreams = UpstreamStore.set id url.href m.upstreams;
  },
)

-- The owner's signature over the request.
unfoldable pub is_owner_signed : World → ℕ → MapBody → ServiceRecord → Bool
is_owner_signed w id b service = signed_by service.owner (
    recover_signer w (build_self_map_message w.chain.network id b.upstream_url b.timestamp)
      b.signature_hex)

unfoldable pub authorize :
    World
    → Config
    → (Text → Option Url)
    → ℕ
    → MapBody
    → Result (Option ServiceRecord)
    → Mapping
    → MapAnswer × Mapping
unfolding store_url is_owner_signed
authorize w c parse_url id b (err e) m = (crashed e, m)
authorize w c parse_url id b (ok none) m = (service_not_found, m)
authorize w c parse_url id b (ok (some service)) m =
    if not (is_owner_signed w id b service)
    then (not_service_owner, m)
    else if is_replay (lookup id m.last_self_map_ts) b.timestamp
    then (replayed, m)
    else store_url id b (validate_http_url parse_url w.net c.live b.upstream_url) m

unfoldable pub self_map_body :
    World → Config → (Text → Option Url) → ℕ → ℕ → Option MapBody → Mapping → MapAnswer × Mapping
unfolding authorize
self_map_body w c parse_url now id none m = (invalid_body, m)
self_map_body w c parse_url now id (some b) m =
    let looked = ServiceCache.get w.chain.get_service now now id m.services in
    if is_stale_request now b.timestamp
    then (stale_request, m)
    else authorize w c parse_url id b looked.0 (record m { services = looked.1 })

unfoldable pub self_map :
    World → Config → (Text → Option Url) → ℕ → Text → Json → Mapping → MapAnswer × Mapping
unfolding self_map_body
self_map w c parse_url now raw_id body m = elim (parse_service_id raw_id) [
  | none ↦ (invalid_service_id, m)
  | some id ↦ self_map_body w c parse_url now id (read_body body) m
]

-- `POST /admin/services` and `DELETE /admin/services/:id`, past the check of the token.
unfoldable pub admin_map :
    Resolver → Config → (Text → Option Url) → Option Json → Text → Mapping → MapAnswer × Mapping
admin_map net c parse_url (some (num id)) url m =
    if leb id max_safe_integer
    then (elim (validate_http_url parse_url net c.live url) [
      | invalid_url ↦ (invalid_upstream_url, m)
      | forbidden_host ↦ (forbidden_upstream_host, m)
      | valid u ↦ (mapped, record m { upstreams = UpstreamStore.set id u.href m.upstreams })
    ])
    else (invalid_service_id, m)
admin_map net c parse_url _ url m = (invalid_service_id, m)

unfoldable pub admin_unmap : Text → Mapping → MapAnswer × Mapping
admin_unmap raw_id m = elim (parse_service_id raw_id) [
  | none ↦ (invalid_service_id, m)
  | some id ↦ (mapped, record m { upstreams = UpstreamStore.delete id m.upstreams })
]
