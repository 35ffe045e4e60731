-- ===== src/Chain/Catalog/Isolation.antt =====
-- packages/chain/src/live-0g.ts: one service that cannot be read does not take the catalog down.
use g_gate.Prelude.{ℕ, ◌+◌, ◌≤◌, ◌≡◌, Option, none, some, List, Among}
use g_gate.Prelude.Text.{Text}
use g_gate.Shared.Errors.{Result, ok}
use g_gate.Shared.Types.{ServiceRecord}
use g_gate.Chain.Session.{CachedServices}
use g_gate.Chain.Catalog.{RegistryReads, get_service, services_cache_ttl_ms}

module _ (read : ℕ → Result (Option ServiceRecord)) where
  abbrev IsRead : List ℕ → ServiceRecord → Type 0
  IsRead ids r = (id : ℕ) × Among id ids × (read id ≡ ok (some r))

-- A service that the catalog of the first `total` ids holds.
abbrev pub IsListed : RegistryReads → ℕ → ServiceRecord → Type 0
IsListed node total r = (id : ℕ) × (1 ≤ id) × (id ≤ total) × (get_service node id ≡ ok (some r))

-- There is no kept catalog, or it is five seconds old.
abbrev pub IsStale : ℕ → Option CachedServices → Type 0
IsStale now none = Unit {0}
IsStale now (some fresh) = fresh.at + services_cache_ttl_ms ≤ now
