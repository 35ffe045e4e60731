-- ===== src/Middleware/ServiceCache/Laws.antt =====
-- How old an answer of the cache can be (packages/middleware/src/service-cache.ts).
use g_gate.Prelude.{
  ℕ, ◌+◌, ◌<◌, ◌≡◌, ◌⊎◌, refl, inl, inr, Option, none, some, arith, ltb, Bool-cases, Option-cases,
  nat_eq,
}
use g_gate.Prelude.Maps.{lookup}
use g_gate.Shared.Errors.{Result, ok, err}
use g_gate.Shared.Types.{ServiceRecord}
use g_gate.Middleware.ServiceCache.{CacheEntry, ServiceCache, fetched, get}

fetched_answer :
    (later id : ℕ) (a : Result (Option ServiceRecord)) (c : ServiceCache)
    → (fetched later id a c).0 ≡ a
unfolding fetched
fetched_answer later id (ok none) c = refl
fetched_answer later id (ok (some s)) c = refl
fetched_answer later id (err e) c = refl

-- What the cache answers is a record fetched less than the lifetime ago, or what the chain says
-- now; a service that is not registered and an error of the chain are never taken from the cache.
pub get_fresh :
    (chain_get : ℕ → Result (Option ServiceRecord)) (now later id : ℕ) (c : ServiceCache)
    → ((hit : CacheEntry) × (lookup id c.entries ≡ some hit)
        × (now < hit.fetched_at + c.ttl_ms)
        × ((get chain_get now later id c).0 ≡ ok (some hit.service)))
      ⊎ ((get chain_get now later id c).0 ≡ chain_get id)
unfolding get
get_fresh chain_get now later id c = elim (Option-cases (lookup id c.entries)) [
  | inl miss ↦ inr (rw (miss, get) (fetched_answer later id (chain_get id) c))
  | inr (hit, found) ↦ elim (Bool-cases (ltb now (hit.fetched_at + c.ttl_ms))) [
    | inl fresh ↦ inl (hit, found, ground (arith, fresh), rw (found, get, fresh) refl)
    | inr old ↦ inr (rw (found, get, old) (fetched_answer later id (chain_get id) c))
  ]
]
