-- ===== src/Chain/Live/Soundness.antt =====
-- What a verified transfer is, and when a buyer is told to wait (packages/chain/src/live-0g.ts).
use g_gate.Prelude.{
  ℕ, ◌+◌, ◌≤◌, ◌≡◌, refl, ◌↔◌, ◌≢◌, inl, inr, Bool, true, List, [], ◌∷◌, arith, keep, find_first,
  Among, Among-keep, Among-find_first, Bool-cases, Option-cases,
}
use g_gate.Prelude.Text.{Text, to_lower, is_prefixed_hex, text_beq_iff}
use g_gate.Prelude.Decimal.{big_int, decimal}
use g_gate.Shared.Errors.{ok, fail, Code, >>=-eq-ok}
use g_gate.Shared.Types.{VerifyTransferQuery, verified, refused, Reason, Verified}
use g_gate.Chain.Address.{normalize_address}
use g_gate.Chain.Live.{
  PaidLog, Receipt, ReceiptAnswer, receipt_not_found, rpc_error, found, require_service_id,
  router_address, emitted_by, pays_to, settles, check_match, check_target, check_events,
  check_receipt, verify_transfer,
}

-- The receipt holds a `Paid` event of the configured router that pays the expected target, for
-- the expected service and nonce, at least the price, recently enough; `v` reports it.
pub record IsSettled (router : Text) (now : ℕ) (q : VerifyTransferQuery) (r : Receipt)
    (v : Verified) : Type 0 where
  pub log : PaidLog
  pub listed : Among log r.paid_logs
  pub succeeded : r.success ≡ true
  pub address : Text
  pub configured : router_address router ≡ ok address
  pub emitter : to_lower log.address ≡ to_lower address
  pub target : normalize_address q.expected_target ≡ ok (to_lower log.pay_to)
  pub service : log.service_id ≡ q.service_id
  pub nonce : log.nonce ≡ big_int q.expected_nonce
  pub enough : big_int q.min_amount_wei ≤ log.amount
  pub recent : now ≤ log.timestamp + q.max_age_ms
  pub reported : v ≡ record {
    amount_wei = decimal log.amount;
    from = to_lower log.payer;
    timestamp = log.timestamp;
  }

check_match_sound :
    (now : ℕ) (q : VerifyTransferQuery) (e : PaidLog) (v : Verified)
    → check_match now q e ≡ verified v
    → (big_int q.min_amount_wei ≤ e.amount)
      × (now ≤ e.timestamp + q.max_age_ms)
      × (v ≡ record {
        amount_wei = decimal e.amount;
        from = to_lower e.payer;
        timestamp = e.timestamp;
      })
unfolding check_match
check_match_sound now q e v h = ground arith

require_service_id_sound : (id k : ℕ) → require_service_id id ≡ ok k → k ≡ id
unfolding require_service_id
require_service_id_sound id k h = ground arith

check_target_sound :
    (now : ℕ) (q : VerifyTransferQuery) (es : List PaidLog) (v : Verified)
    → check_target now q es ≡ ok (verified v)
    → (e : PaidLog) × Among e es
      × (e.nonce ≡ big_int q.expected_nonce)
      × (e.service_id ≡ q.service_id)
      × (check_match now q e ≡ verified v)
unfolding check_target
check_target_sound now q [] v h = absurd (ground arith)
check_target_sound now q (e ∷ es) v h =
    let (k, good, rest) = >>=-eq-ok (require_service_id q.service_id) _ h in
    let same : k ≡ q.service_id = require_service_id_sound q.service_id k good in
    let p : PaidLog → Bool = settles (big_int q.expected_nonce) k in
    elim (Option-cases (find_first p (e ∷ es))) [
      | inl missed ↦ absurd (ground (arith, missed, rest))
      | inr (x, hit) ↦
          let m : Among x (e ∷ es) × (p x ≡ true) = Among-find_first p x (e ∷ es) hit in
          (x, m.0, ground (arith, m.1), ground (arith, m.1, same), ground (arith, hit, rest))
    ]

check_events_sound :
    (now : ℕ) (q : VerifyTransferQuery) (es : List PaidLog) (v : Verified)
    → check_events now q es ≡ ok (verified v)
    → (e : PaidLog) × Among e es
      × (normalize_address q.expected_target ≡ ok (to_lower e.pay_to))
      × (e.nonce ≡ big_int q.expected_nonce)
      × (e.service_id ≡ q.service_id)
      × (check_match now q e ≡ verified v)
unfolding check_events
check_events_sound now q [] v h = absurd (ground arith)
check_events_sound now q (e ∷ es) v h =
    let (target, norm, rest) = >>=-eq-ok (normalize_address q.expected_target) _ h in
    let (x, among, nonce, service, ok_match) =
      check_target_sound now q (keep (pays_to target) (e ∷ es)) v rest in
    let m : Among x (e ∷ es) × (pays_to target x ≡ true) =
      Among-keep (pays_to target) x (e ∷ es) among in
    let pays : to_lower x.pay_to ≡ target = (text_beq_iff (to_lower x.pay_to) target).0 m.1 in
    (x, m.0, rw pays norm, nonce, service, ok_match)

receipt_sound :
    (router : Text) (now : ℕ) (q : VerifyTransferQuery) (r : Receipt) (v : Verified)
    → check_receipt router now q r ≡ ok (verified v)
    → IsSettled router now q r v
unfolding check_receipt
receipt_sound router now q r v h =
    let succeeded : r.success ≡ true = ground arith in
    let (address, configured, rest) = >>=-eq-ok (router_address router) _ (rw succeeded at h) in
    let (x, among, target, nonce, service, ok_match) =
      check_events_sound now q (keep (emitted_by address) r.paid_logs) v rest in
    let m : Among x r.paid_logs × (emitted_by address x ≡ true) =
      Among-keep (emitted_by address) x r.paid_logs among in
    let (enough, recent, reported) = check_match_sound now q x v ok_match in
    record {
      log = x;
      listed = m.0;
      succeeded = succeeded;
      address = address;
      configured = configured;
      emitter = (text_beq_iff (to_lower x.address) (to_lower address)).0 m.1;
      target = target;
      service = service;
      nonce = nonce;
      enough = enough;
      recent = recent;
      reported = reported;
    }

-- A transfer is reported as verified only if it is settled: the hash is well formed, the node
-- has its receipt, the transaction succeeded, and one `Paid` event in it comes from the
-- configured router, pays the expected target, carries exactly the expected service and nonce,
-- covers the price and is no older than the bound; payer, amount and time are that event's.
pub verify_transfer-IsSettled :
    (router : Text) (receipt_of : Text → ReceiptAnswer) (now : ℕ) (q : VerifyTransferQuery)
    (v : Verified)
    → verify_transfer router receipt_of now q ≡ ok (verified v)
    → (is_prefixed_hex 64 q.tx_hash ≡ true)
      × ((r : Receipt) × (receipt_of q.tx_hash ≡ found r) × IsSettled router now q r v)
unfolding verify_transfer
verify_transfer-IsSettled router receipt_of now q v h =
    let formed : is_prefixed_hex 64 q.tx_hash ≡ true = ground arith in
    (formed, from_answer (receipt_of q.tx_hash) refl (rw formed at h))
  where
    from_receipt :
        (r : Receipt) → check_receipt router now q r ≡ ok (verified v) → IsSettled router now q r v
    from_receipt r h = receipt_sound router now q r v h

    from_answer :
        (a : ReceiptAnswer)
        → receipt_of q.tx_hash ≡ a
        → (elim a [
          | receipt_not_found ↦ ok (refused Reason.pending)
          | rpc_error ↦ fail Code.chain_failure 500
          | found r ↦ check_receipt router now q r
        ])
          ≡ ok (verified v)
        → (r : Receipt) × (receipt_of q.tx_hash ≡ found r) × IsSettled router now q r v
    from_answer receipt_not_found e h = absurd (ground arith)
    from_answer rpc_error e h = absurd (ground arith)
    from_answer (found r) e h = (r, e, from_receipt r h)

check_match-ne-pending :
    (now : ℕ) (q : VerifyTransferQuery) (e : PaidLog) → check_match now q e ≢ refused Reason.pending
unfolding check_match
check_match-ne-pending now q e h = ground arith

check_target-ne-pending :
    (now : ℕ) (q : VerifyTransferQuery) (es : List PaidLog)
    → check_target now q es ≢ ok (refused Reason.pending)
unfolding check_target require_service_id
check_target-ne-pending now q [] h = ground arith
check_target-ne-pending now q (e ∷ es) h = grind (arith, check_match-ne-pending)

check_events-ne-pending :
    (now : ℕ) (q : VerifyTransferQuery) (es : List PaidLog)
    → check_events now q es ≢ ok (refused Reason.pending)
unfolding check_events
check_events-ne-pending now q [] h = ground arith
check_events-ne-pending now q (e ∷ es) h =
    let (target, norm, rest) = >>=-eq-ok (normalize_address q.expected_target) _ h in
    check_target-ne-pending now q (keep (pays_to target) (e ∷ es)) rest

check_receipt-ne-pending :
    (router : Text) (now : ℕ) (q : VerifyTransferQuery) (r : Receipt)
    → check_receipt router now q r ≢ ok (refused Reason.pending)
unfolding check_receipt
check_receipt-ne-pending router now q r h = elim (Bool-cases r.success) [
  | inl y ↦
      let (address, norm, rest) = >>=-eq-ok (router_address router) _ (rw y at h) in
      check_events-ne-pending now q (keep (emitted_by address) r.paid_logs) rest
  | inr n ↦ absurd (ground arith)
]

-- The answer is `pending`, which keeps the invoice alive, exactly when the hash is well formed
-- and the node does not have its receipt yet; a node that fails otherwise is an error, never
-- `pending`.
pub verify_transfer-pending_iff :
    (router : Text) (receipt_of : Text → ReceiptAnswer) (now : ℕ) (q : VerifyTransferQuery)
    → (verify_transfer router receipt_of now q ≡ ok (refused Reason.pending))
      ↔ ((is_prefixed_hex 64 q.tx_hash ≡ true) × (receipt_of q.tx_hash ≡ receipt_not_found))
unfolding verify_transfer
verify_transfer-pending_iff router receipt_of now q = by_answer (receipt_of q.tx_hash) refl
  where
    by_answer :
        (a : ReceiptAnswer)
        → receipt_of q.tx_hash ≡ a
        → (verify_transfer router receipt_of now q ≡ ok (refused Reason.pending))
          ↔ ((is_prefixed_hex 64 q.tx_hash ≡ true) × (receipt_of q.tx_hash ≡ receipt_not_found))
    by_answer receipt_not_found e = ground (arith, e)
    by_answer rpc_error e = ground (arith, e)
    by_answer (found r) e = ground (arith, e, check_receipt-ne-pending router now q r)
