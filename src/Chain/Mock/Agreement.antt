-- ===== src/Chain/Mock/Agreement.antt =====
-- The mock client and the live one give a payment the same verdict (packages/chain/src: mock.ts,
-- live-0g.ts).
use g_gate.Prelude.{
  ℕ, ◌≡◌, refl, ◌∙◌, inl, inr, true, false, [], ◌∷◌, arith, Bool-cases, if◌then◌else◌,
}
use g_gate.Prelude.Text.{Text, trim, to_lower, is_prefixed_hex, is_empty, text_beq}
use g_gate.Prelude.Decimal.{big_int, big_int-decimal}
use g_gate.Shared.Errors.{ok}
use g_gate.Shared.Types.{VerifyTransferQuery, VerifyResult, verified, refused, Reason}
use g_gate.Chain.Address.{normalize_address}
use g_gate.Chain.Live
use g_gate.Chain.Live.{
  PaidLog, Receipt, ReceiptAnswer, found, router_address, emitted_by, pays_to, settles,
  require_service_id, check_match, check_target, check_events, check_receipt,
}
use g_gate.Chain.Mock
use g_gate.Chain.Mock.{Reply, answer, is_wei, check_record, assert_service_id, request}
use g_gate.Devnet.{TransferRecord}

-- The devnet's record and the router's event are of the same payment.
pub record IsSamePayment (t : TransferRecord) (e : PaidLog) : Type 0 where
  pub to : to_lower t.to ≡ to_lower e.pay_to
  pub service : t.service_id ≡ e.service_id
  pub nonce : big_int t.nonce ≡ e.nonce
  pub amount : big_int t.amount_wei ≡ e.amount
  pub time : t.timestamp ≡ e.timestamp

-- Two verdicts agree: both verify, or both refuse for the same reason.
abbrev pub Agrees : VerifyResult → VerifyResult → Type 0
Agrees (verified v) (verified w) =
    (big_int v.amount_wei ≡ big_int w.amount_wei) × (v.timestamp ≡ w.timestamp)
Agrees (refused r) (refused s) = r ≡ s
Agrees (verified v) (refused s) = true ≡ false
Agrees (refused r) (verified w) = true ≡ false

-- A query that both clients take up.
pub record IsQuery (q : VerifyTransferQuery) : Type 0 where
  pub hash : is_prefixed_hex 64 q.tx_hash ≡ true
  pub hash_given : is_empty (trim q.tx_hash) ≡ false
  pub service : require_service_id q.service_id ≡ ok q.service_id
  pub target : normalize_address q.expected_target ≡ ok (to_lower q.expected_target)
  pub target_given : is_empty (trim q.expected_target) ≡ false
  pub amount : is_wei q.min_amount_wei ≡ true
  pub nonce : is_wei q.expected_nonce ≡ true

asserted : (id : ℕ) → require_service_id id ≡ ok id → assert_service_id id ≡ ok tt
unfolding require_service_id assert_service_id
asserted id h = ground (arith, h)

mock_verdict :
    (transfer_of : Text → Reply TransferRecord) (now : ℕ) (q : VerifyTransferQuery)
    (t : TransferRecord)
    → IsQuery q
    → transfer_of q.tx_hash ≡ answer 200 t
    → Mock.verify_transfer transfer_of now q ≡ ok (check_record now q t)
unfolding Mock.verify_transfer request
mock_verdict transfer_of now q t i h =
    rw (i.hash_given, asserted q.service_id i.service, i.target_given, i.amount, i.nonce, h) refl

live_verdict :
    (now : ℕ) (q : VerifyTransferQuery) (e : PaidLog)
    → IsQuery q
    → check_events now q (e ∷ [])
      ≡ ok (
          if text_beq (to_lower e.pay_to) (to_lower q.expected_target)
          then (if settles (big_int q.expected_nonce) q.service_id e
              then check_match now q e
              else refused Reason.wrong_nonce)
          else refused Reason.wrong_target)
unfolding check_events check_target
live_verdict now q e i =
    elim (Bool-cases (text_beq (to_lower e.pay_to) (to_lower q.expected_target))) [
      | inl y ↦ elim (Bool-cases (settles (big_int q.expected_nonce) q.service_id e)) [
        | inl m ↦ rw (i.target, y, check_target, i.service, m) refl
        | inr m ↦ rw (i.target, y, check_target, i.service, m) refl
      ]
      | inr n ↦ rw (i.target, n, check_target) refl
    ]

agreement :
    (now : ℕ) (q : VerifyTransferQuery) (t : TransferRecord) (e : PaidLog)
    → IsSamePayment t e
    → Agrees (check_record now q t) (
        if text_beq (to_lower e.pay_to) (to_lower q.expected_target)
        then (if settles (big_int q.expected_nonce) q.service_id e
            then check_match now q e
            else refused Reason.wrong_nonce)
        else refused Reason.wrong_target)
unfolding check_record check_match
agreement now q t e s =
    ground (arith, s.to, s.service, s.nonce, s.amount, s.time, big_int-decimal e.amount)

live_receipt :
    (router address : Text) (receipt_of : Text → ReceiptAnswer) (now : ℕ) (q : VerifyTransferQuery)
    (e : PaidLog)
    → IsQuery q
    → router_address router ≡ ok address
    → emitted_by address e ≡ true
    → receipt_of q.tx_hash ≡ found (record { success = true; paid_logs = e ∷ [] })
    → Live.verify_transfer router receipt_of now q ≡ check_events now q (e ∷ [])
unfolding Live.verify_transfer check_receipt
live_receipt router address receipt_of now q e i routed emitted h =
    rw (i.hash, h, check_receipt, routed, emitted) refl

-- For a query that both clients take up, the mock client on the devnet's record of a payment and
-- the live client on a successful receipt that holds the configured router's event of the same
-- payment, and no other, give the same verdict: both verify it, with the same amount and time, or
-- both refuse it for the same reason.
pub verify_transfer-Agrees :
    (router address : Text) (transfer_of : Text → Reply TransferRecord)
    (receipt_of : Text → ReceiptAnswer) (now : ℕ) (q : VerifyTransferQuery) (t : TransferRecord)
    (e : PaidLog)
    → IsQuery q
    → IsSamePayment t e
    → transfer_of q.tx_hash ≡ answer 200 t
    → router_address router ≡ ok address
    → emitted_by address e ≡ true
    → receipt_of q.tx_hash ≡ found (record { success = true; paid_logs = e ∷ [] })
    → (v : VerifyResult) × (w : VerifyResult) × (Mock.verify_transfer transfer_of now q ≡ ok v)
      × (Live.verify_transfer router receipt_of now q ≡ ok w)
      × Agrees v w
verify_transfer-Agrees router address transfer_of receipt_of now q t e i same asked routed emitted
      mined =
    (
      check_record now q t,
      _,
      mock_verdict transfer_of now q t i asked,
      live_receipt router address receipt_of now q e i routed emitted mined
          ∙ live_verdict now q e i,
      agreement now q t e same,
    )
