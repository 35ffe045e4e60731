-- ===== src/Chain/Requests.antt =====
-- packages/chain/src/live-0g.ts: the calls that the writes put together from their arguments, and
-- the read isAttested. A `Wei` and a nonce are decimal texts.
use g_gate.Prelude.{ℕ, Bool}
use g_gate.Prelude.Text.{Text}
use g_gate.Prelude.Decimal.{big_int}
use g_gate.Shared.Errors.{Result, ok, ◌>>=◌}
use g_gate.Shared.Money.{Wei}
use g_gate.Shared.Url.{strip_trailing_slashes}
use g_gate.Chain.Address.{normalize_address}
use g_gate.Chain.Live.{require_service_id}
use g_gate.Chain.Identity.{ChainConfig}
use g_gate.Chain.Session.{
  Call, register_service_call, attest_call, activate_call, pay_call, Node, registry_address,
}

pub record TransferInput : Type 0 where
  pub to : Text
  pub amount_wei : Wei
  pub nonce : Text
  pub service_id : ℕ

-- The arguments of `pay`.
unfoldable pub pay_request : Text → TransferInput → Result Call
pay_request router input = do
  id ← require_service_id input.service_id
  to ← normalize_address input.to
  ok (pay_call router (big_int input.amount_wei) id (big_int input.nonce) to)

pub record AttestInput : Type 0 where
  pub service_id : ℕ
  pub nonce : Text
  pub payer : Text
  pub payment_tx_hash : Text
  pub success : Bool

unfoldable pub attest_request : ChainConfig → ℕ → Text → AttestInput → Result Call
attest_request cfg id payer input = do
  registry ← registry_address cfg
  ok (attest_call registry id (big_int input.nonce) payer input.payment_tx_hash input.success)

-- `isAttested`.
unfoldable pub is_attested : ChainConfig → Node → ℕ → ℕ → Text → Result Bool
is_attested cfg node id nonce payer = do
  registry ← registry_address cfg
  node.seen_payment id nonce payer

unfoldable pub active_request : ChainConfig → ℕ → Bool → Result Call
active_request cfg service_id active = do
  registry ← registry_address cfg
  id ← require_service_id service_id
  ok (activate_call registry id active)

pub record RegisterServiceInput : Type 0 where
  pub name : Text
  pub description : Text
  pub endpoint_url : Text
  pub price_wei : Wei
  pub payment_target : Text
  pub attestor : Text

unfoldable pub register_request : ChainConfig → RegisterServiceInput → Result Call
register_request cfg input = do
  registry ← registry_address cfg
  target ← normalize_address input.payment_target
  attestor ← normalize_address input.attestor
  ok (
      register_service_call registry input.name input.description
        (strip_trailing_slashes input.endpoint_url) (big_int input.price_wei) target attestor)
