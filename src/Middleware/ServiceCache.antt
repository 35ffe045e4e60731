-- ===== src/Middleware/ServiceCache.antt =====
-- packages/middleware/src/service-cache.ts: the registry records of the last minute.
pub mod Laws
use g_gate.Prelude.{ℕ, ◌+◌, Option, none, some, ltb, if◌then◌else◌, nat_eq}
use g_gate.Prelude.Maps.{Map, lookup, insert, erase}
use g_gate.Shared.Errors.{Result, ok, err}
use g_gate.Shared.Types.{ServiceRecord}

pub record CacheEntry : Type 0 where
  pub fetched_at : ℕ
  pub service : ServiceRecord

pub record ServiceCache : Type 0 where
  pub entries : Map ℕ CacheEntry
  pub ttl_ms : ℕ

-- The read from the chain that follows a miss, at the time when it returned.
unfoldable pub fetched :
    ℕ
    → ℕ
    → Result (Option ServiceRecord)
    → ServiceCache
    → Result (Option ServiceRecord) × ServiceCache
fetched later id (ok none) c = (ok none, record c { entries = erase id c.entries })
fetched later id (ok (some s)) c = (
  ok (some s),
  record c { entries = insert id (record { fetched_at = later; service = s }) c.entries },
)
fetched later id (err e) c = (err e, c)

-- `get`: `now` and `later` are the two readings of the clock.
unfoldable pub get :
    (ℕ → Result (Option ServiceRecord))
    → ℕ
    → ℕ
    → ℕ
    → ServiceCache
    → Result (Option ServiceRecord) × ServiceCache
get chain_get now later id c = elim (lookup id c.entries) [
  | none ↦ fetched later id (chain_get id) c
  | some hit ↦
      if ltb now (hit.fetched_at + c.ttl_ms)
      then (ok (some hit.service), c)
      else fetched later id (chain_get id) c
]
