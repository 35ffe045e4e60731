-- ===== src/Chain/Live.antt =====
-- packages/chain/src/live-0g.ts: verifyTransfer. The node (`getTransactionReceipt`) and viem's
-- decoding of the receipt's logs (`parseEventLogs`) are parameters; `Date.now()` is `now`.
pub mod Soundness
use g_gate.Prelude.{
  ℕ, ◌+◌, Bool, true, false, not, ◌&&◌, Option, none, some, List, [], ◌∷◌, ltb, leb, ◌==◌,
  if◌then◌else◌, keep, find_first,
}
use g_gate.Prelude.Text.{Text, to_lower, is_prefixed_hex, is_empty, text_beq}
use g_gate.Prelude.Decimal.{big_int, decimal}
use g_gate.Shared.Errors.{Result, ok, err, fail, Code, ◌>>=◌, ◌>>◌, require}
use g_gate.Shared.Types.{VerifyTransferQuery, VerifyResult, verified, refused, Reason, Verified}
use g_gate.Shared.Trust.{max_safe_integer}
use g_gate.Chain.Address.{normalize_address}

-- A decoded `Paid` event, with the address of the contract that emitted it.
pub record PaidLog : Type 0 where
  pub address : Text
  pub service_id : ℕ
  pub nonce : ℕ
  pub payer : Text
  pub pay_to : Text
  pub amount : ℕ
  pub timestamp : ℕ

pub record Receipt : Type 0 where
  pub success : Bool
  pub paid_logs : List PaidLog

-- The node's answer: the receipt, viem's `TransactionReceiptNotFoundError`, or another error.
pub data ReceiptAnswer : Type 0 where
  receipt_not_found rpc_error : ReceiptAnswer
  found : Receipt → ReceiptAnswer

unfoldable pub require_service_id : ℕ → Result ℕ
require_service_id id =
    if leb 1 id && leb id max_safe_integer then ok id else fail Code.invalid_query 400

-- `router()`.
unfoldable pub router_address : Text → Result Text
router_address configured =
    if is_empty configured
    then fail Code.contract_not_deployed 503
    else normalize_address configured

abbrev pub emitted_by : Text → PaidLog → Bool
emitted_by router e = text_beq (to_lower e.address) (to_lower router)

abbrev pub pays_to : Text → PaidLog → Bool
pays_to target e = text_beq (to_lower e.pay_to) target

abbrev pub settles : ℕ → ℕ → PaidLog → Bool
settles nonce service_id e = e.nonce == nonce && e.service_id == service_id

-- The checks on the log that carries the invoice.
unfoldable pub check_match : ℕ → VerifyTransferQuery → PaidLog → VerifyResult
check_match now q e =
    if ltb e.amount (big_int q.min_amount_wei)
    then refused Reason.amount_too_low
    else if ltb (e.timestamp + q.max_age_ms) now
    then refused Reason.expired
    else verified
        (record { amount_wei = decimal e.amount; from = to_lower e.payer; timestamp = e.timestamp })

-- The search among the router's logs that pay the target.
unfoldable pub check_target : ℕ → VerifyTransferQuery → List PaidLog → Result VerifyResult
check_target now q [] = ok (refused Reason.wrong_target)
check_target now q (e ∷ es) = do
  service_id ← require_service_id q.service_id
  ok (elim (find_first (settles (big_int q.expected_nonce) service_id) (e ∷ es)) [
    | none ↦ refused Reason.wrong_nonce
    | some e' ↦ check_match now q e'
  ])

unfoldable pub check_events : ℕ → VerifyTransferQuery → List PaidLog → Result VerifyResult
check_events now q [] = ok (refused Reason.not_found)
check_events now q (e ∷ es) = do
  target ← normalize_address q.expected_target
  check_target now q (keep (pays_to target) (e ∷ es))

unfoldable pub check_receipt : Text → ℕ → VerifyTransferQuery → Receipt → Result VerifyResult
check_receipt router now q r =
    if r.success
    then (do
      address ← router_address router
      check_events now q (keep (emitted_by address) r.paid_logs))
    else ok (refused Reason.not_found)

unfoldable pub verify_transfer :
    Text → (Text → ReceiptAnswer) → ℕ → VerifyTransferQuery → Result VerifyResult
verify_transfer router receipt_of now q =
    if is_prefixed_hex 64 q.tx_hash
    then elim (receipt_of q.tx_hash) [
      | receipt_not_found ↦ ok (refused Reason.pending)
      | rpc_error ↦ fail Code.chain_failure 500
      | found r ↦ check_receipt router now q r
    ]
    else ok (refused Reason.not_found)
