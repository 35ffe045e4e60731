-- ===== src/Middleware/SelfMap/Authority.antt =====
-- Who may map a service's upstream (packages/middleware/src/app.ts).
use g_gate.Prelude.{ℕ, ◌+◌, ◌≤◌, ◌≡◌, true, false, Option, some, nat_eq}
use g_gate.Prelude.Text.{Text}
use g_gate.Prelude.Maps.{lookup}
use g_gate.Shared.Errors.{ok}
use g_gate.Shared.Json.{Json}
use g_gate.Shared.Types.{ServiceRecord}
use g_gate.Shared.HttpUrl.{Url, valid, validate_http_url}
use g_gate.Middleware.UpstreamStore
use g_gate.Middleware.ServiceCache
use g_gate.Middleware.Paywall.{World, Config, parse_service_id}
use g_gate.Middleware.SelfMap.{
  Mapping, MapBody, self_map_window_ms, read_body, is_replay, is_owner_signed,
}

-- The request was fresh, of the service's registered owner by its signature, later than every
-- accepted request before it, and its URL passed the guard; it is stored and its time noted.
pub record IsAuthorized (w : World) (c : Config) (parse_url : Text → Option Url) (now : ℕ)
    (raw_id : Text) (body : Json) (m m' : Mapping) : Type 0 where
  pub id : ℕ
  pub request : MapBody
  pub service : ServiceRecord
  pub url : Url
  pub parsed : parse_service_id raw_id ≡ some id
  pub read : read_body body ≡ some request
  pub fresh :
      (now ≤ request.timestamp + self_map_window_ms)
      × (request.timestamp ≤ now + self_map_window_ms)
  pub registered :
      (ServiceCache.get w.chain.get_service now now id m.services).0 ≡ ok (some service)
  pub signed : is_owner_signed w id request service ≡ true
  pub later : is_replay (lookup id m.last_self_map_ts) request.timestamp ≡ false
  pub guarded : validate_http_url parse_url w.net c.live request.upstream_url ≡ valid url
  pub stored : m'.upstreams ≡ UpstreamStore.set id url.href m.upstreams
  pub noted : lookup id m'.last_self_map_ts ≡ some request.timestamp
