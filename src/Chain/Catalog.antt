-- ===== src/Chain/Catalog.antt =====
-- packages/chain/src/live-0g.ts: the reads of the registered services (toRecord, getService,
-- listServices, readServices). What the node answers to a read is a parameter; viem's error walk
-- tells the two failures that the code knows from the others. Calls of listServices are whole.
pub mod Isolation
use g_gate.Prelude.{
  ℕ, zero, suc, ◌+◌, Bool, true, false, Option, none, some, List, [], ◌∷◌, ◌++◌, map, length, ltb,
  ◌==◌, find_first, if◌then◌else◌,
}
use g_gate.Prelude.Text.{Text, codes, to_lower, text_beq}
use g_gate.Prelude.Decimal.{decimal}
use g_gate.Shared.Money.{Wei}
use g_gate.Shared.Errors.{Result, ok, err, AgentGateError, Code, fail, ◌>>=◌}
use g_gate.Shared.Types.{PaymentOption, ServiceRecord}
use g_gate.Shared.Url.{strip_trailing_slashes}
use g_gate.Chain.Session.{CachedServices}
use g_gate.Chain.Live.{require_service_id}

abbrev pub max_listed_services : ℕ
max_listed_services = 200

abbrev pub services_cache_ttl_ms : ℕ
services_cache_ttl_ms = 5000

abbrev pub zero_address : Text
zero_address = codes "0x0000000000000000000000000000000000000000"

-- The tuples that the contract stores.
pub record RawOption : Type 0 where
  pub asset : Text
  pub amount : ℕ
  pub decimals : ℕ
  pub symbol : Text
  pub name : Text
  pub version : Text

pub record RawService : Type 0 where
  pub name : Text
  pub description : Text
  pub gateway_base_url : Text
  pub accepts : List RawOption
  pub payment_target : Text
  pub owner : Text
  pub attestor : Text
  pub active : Bool
  pub created_at : ℕ

-- The revert `ServiceNotFound`, bytes that the ABI cannot decode, or another failure.
pub data RawRead : Type 0 where
  raw_service : RawService → RawRead
  service_not_found : RawRead
  abi_decode_failure : RawRead
  read_failed : AgentGateError → RawRead

-- What the node answers to `servicesCount` and `getService`; `registry` is `this.registry()`.
pub record RegistryReads : Type 0 where
  pub registry : Result Text
  pub services_count : Result ℕ
  pub service : ℕ → RawRead

abbrev pub asset_of : Text → Text
asset_of asset = if text_beq (to_lower asset) zero_address then codes "native" else to_lower asset

unfoldable pub to_option : RawOption → PaymentOption
to_option o = record {
  asset = asset_of o.asset;
  amount = decimal o.amount;
  decimals = o.decimals;
  symbol = o.symbol;
  name = o.name;
  version = o.version;
}

abbrev pub first_amount : List PaymentOption → Wei
first_amount [] = codes "0"
first_amount (o ∷ os) = o.amount

-- The native option's amount, else the first one's.
unfoldable pub price_of : List PaymentOption → Wei
price_of accepts =
    elim (find_first (λ (o : PaymentOption). text_beq o.asset (codes "native")) accepts) [
      | none ↦ first_amount accepts
      | some native ↦ native.amount
    ]

unfoldable pub to_record : RawService → ℕ → ServiceRecord
to_record raw id =
    let accepts : List PaymentOption = map to_option raw.accepts in
    record {
      id = id;
      name = raw.name;
      description = raw.description;
      endpoint_url = strip_trailing_slashes raw.gateway_base_url ++ codes "/svc/" ++ decimal id;
      price_wei = price_of accepts;
      payment_target = to_lower raw.payment_target;
      owner = to_lower raw.owner;
      attestor = to_lower raw.attestor;
      active = raw.active;
      created_at = raw.created_at;
      accepts = some accepts;
    }

abbrev pub answered : ℕ → RawRead → Result (Option ServiceRecord)
answered id (raw_service raw) = ok (some (to_record raw id))
answered id service_not_found = ok none
answered id abi_decode_failure = fail Code.registry_abi_mismatch 500
answered id (read_failed e) = err e

unfoldable pub get_service : RegistryReads → ℕ → Result (Option ServiceRecord)
get_service node id = do
  service_id ← require_service_id id
  _ ← node.registry
  answered id (node.service service_id)

-- `Array.from({ length }, (_, i) => i + 1)`, from an id on.
unfoldable pub ids_from : ℕ → ℕ → List ℕ
ids_from id zero = []
ids_from id (suc n) = id ∷ ids_from (suc id) n

-- The reasons of the reads that failed.
unfoldable pub failures : List (Result (Option ServiceRecord)) → List AgentGateError
failures [] = []
failures (err e ∷ rest) = e ∷ failures rest
failures (ok _ ∷ rest) = failures rest

unfoldable pub present : List (Result (Option ServiceRecord)) → List ServiceRecord
present [] = []
present (ok (some r) ∷ rest) = r ∷ present rest
present (ok none ∷ rest) = present rest
present (err e ∷ rest) = present rest

abbrev pub listed_count : ℕ → ℕ
listed_count count = if ltb count max_listed_services then count else max_listed_services

-- Only the failure of every read is fatal; an empty catalog is empty.
abbrev pub catalog_of : List (Result (Option ServiceRecord)) → Result (List ServiceRecord)
catalog_of settled = elim (failures settled) [
  | [] ↦ ok (present settled)
  | e ∷ es ↦ if length (e ∷ es) == length settled then err e else ok (present settled)
]

unfoldable pub read_services : RegistryReads → Result (List ServiceRecord)
read_services node = do
  _ ← node.registry
  count ← node.services_count
  catalog_of (map (get_service node) (ids_from 1 (listed_count count)))

-- The field holds promises; one that fails is taken out before the call ends.
abbrev pub cached : ℕ → Result (List ServiceRecord) → Option CachedServices
cached now (ok value) = some (record { at = now; services = value })
cached now (err e) = none

unfoldable pub list_services :
    RegistryReads → ℕ → Option CachedServices → Result (List ServiceRecord) × Option CachedServices
list_services node now none = (read_services node, cached now (read_services node))
list_services node now (some fresh) =
    if ltb now (fresh.at + services_cache_ttl_ms)
    then (ok fresh.services, some fresh)
    else (read_services node, cached now (read_services node))
