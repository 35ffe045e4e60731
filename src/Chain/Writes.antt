-- ===== src/Chain/Writes.antt =====
-- packages/chain/src/live-0g.ts: registerService, recordAttestation, setActive and transfer.
pub mod Settlement
pub mod Recording
use g_gate.Prelude.{
  ℕ, Bool, true, false, Option, none, some, List, [], ◌∷◌, find_first, is_some, if◌then◌else◌,
}
use g_gate.Prelude.Text.{Text, codes, text_beq}
use g_gate.Prelude.Decimal.{big_int}
use g_gate.Shared.Errors.{AgentGateError, Result, ok, err, fail, Code, require}
use g_gate.Shared.Money.{Wei}
use g_gate.Chain.Address.{normalize_address}
use g_gate.Chain.Live.{require_service_id, router_address, emitted_by}
use g_gate.Chain.Nonces.{Submission, accepted, reverted, failed}
use g_gate.Chain.Identity.{ChainConfig}
use g_gate.Chain.Session.{
  AnySigner, Call, register_service_call, attest_call, activate_call, pay_call, MinedReceipt, Node,
  ChainState, Action, ◌>>=◌, ◌>>◌, lift, wallet_for, assert_chain_identity, registry_address,
  submit, hash_of, settled,
}
use g_gate.Chain.Requests.{
  TransferInput, pay_request, AttestInput, attest_request, is_attested, active_request,
  RegisterServiceInput, register_request,
}

-- `paid.length !== 0`.
abbrev pub has_paid_log : Text → MinedReceipt → Bool
has_paid_log router r = is_some (find_first (emitted_by router) r.receipt.paid_logs)

unfoldable pub transfer : ChainConfig → Node → ℕ → TransferInput → AnySigner → Action Text
transfer cfg node attempts input signer = do
  account ← lift (wallet_for node signer)
  assert_chain_identity cfg node
  router ← lift (router_address cfg.router)
  sent ← submit node account (pay_request router input)
  hash ← lift (hash_of sent)
  receipt ← settled cfg node attempts hash none
  lift (require (has_paid_log router receipt) Code.payment_not_settled 502)
  lift (ok hash)

-- After the send: a revert by `DuplicateAttestation` is a success without a transaction.
unfoldable pub finish_attestation : ChainConfig → Node → ℕ → Result Bool → Submission → Action Text
finish_attestation cfg node attempts satisfied (failed e) = lift (err e)
finish_attestation cfg node attempts satisfied (reverted name) =
    lift
      (if text_beq name (codes "DuplicateAttestation") then ok [] else fail Code.chain_failure 500)
finish_attestation cfg node attempts satisfied (accepted hash) = do
  receipt ← settled cfg node attempts hash (some satisfied)
  lift (ok hash)

unfoldable pub record_attestation : ChainConfig → Node → ℕ → AttestInput → AnySigner → Action Text
record_attestation cfg node attempts input signer = do
  id ← lift (require_service_id input.service_id)
  payer ← lift (normalize_address input.payer)
  account ← lift (wallet_for node signer)
  sent ← submit node account (attest_request cfg id payer input)
  finish_attestation cfg node attempts (is_attested cfg node id (big_int input.nonce) payer) sent

-- `this.servicesCache = undefined`.
unfoldable pub drop_services_cache : Action (Unit {0})
drop_services_cache st = (some (ok tt), record st { services_cache = none })

unfoldable pub set_active : ChainConfig → Node → ℕ → ℕ → Bool → AnySigner → Action Text
set_active cfg node attempts service_id active signer = do
  account ← lift (wallet_for node signer)
  sent ← submit node account (active_request cfg service_id active)
  hash ← lift (hash_of sent)
  receipt ← settled cfg node attempts hash none
  drop_services_cache
  lift (ok hash)

-- The first `ServiceRegistered` event of the receipt.
abbrev pub registered_id : MinedReceipt → Result ℕ
registered_id r = elim r.registered [ [] ↦ fail Code.tx_failed 502 | id ∷ ids ↦ ok id ]

unfoldable pub register_service :
    ChainConfig → Node → ℕ → RegisterServiceInput → AnySigner → Action (ℕ × Text)
register_service cfg node attempts input signer = do
  account ← lift (wallet_for node signer)
  sent ← submit node account (register_request cfg input)
  hash ← lift (hash_of sent)
  receipt ← settled cfg node attempts hash none
  drop_services_cache
  id ← lift (registered_id receipt)
  lift (ok (id, hash))
