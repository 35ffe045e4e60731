-- ===== src/Tests/Verdicts.antt =====
-- One payment through the mock client and the live one (packages/chain/src).
use g_gate.Prelude.{◌≡◌, refl, true, some, [], ◌∷◌}
use g_gate.Prelude.Text.{Text, codes, trim, trim_start}
use g_gate.Prelude.Decimal.{big_int, value_from}
use g_gate.Shared.Errors.{ok}
use g_gate.Shared.Types.{VerifyTransferQuery, VerifyResult}
use g_gate.Chain.Address.{normalize_address, is_address}
use g_gate.Chain.Live
use g_gate.Chain.Live.{PaidLog, found, require_service_id, router_address}
use g_gate.Chain.Mock
use g_gate.Chain.Mock.{answer, is_wei}
use g_gate.Chain.Mock.Agreement.{IsQuery, IsSamePayment, Agrees, verify_transfer-Agrees}
use g_gate.Devnet.{TransferRecord}

abbrev seller : Text
seller = codes "0x1111111111111111111111111111111111111111"

abbrev buyer : Text
buyer = codes "0x2222222222222222222222222222222222222222"

abbrev router : Text
router = codes "0x3333333333333333333333333333333333333333"

abbrev query : VerifyTransferQuery
query = record {
  tx_hash = codes "0x00000000000000000000000000000000000000000000000000000000000000ab";
  service_id = 7;
  expected_target = seller;
  min_amount_wei = codes "1000";
  expected_nonce = codes "42";
  max_age_ms = 9000;
}

abbrev stored : TransferRecord
stored = record {
  tx_hash = query.tx_hash;
  from_public_key = codes "alice";
  from = buyer;
  to = seller;
  amount_wei = codes "900";
  nonce = codes "42";
  service_id = 7;
  timestamp = 5000;
}

abbrev event : PaidLog
event = record {
  address = router;
  service_id = 7;
  nonce = 42;
  payer = buyer;
  pay_to = seller;
  amount = 900;
  timestamp = 5000;
}

query-IsQuery : IsQuery query
unfolding require_service_id normalize_address is_address trim trim_start is_wei
query-IsQuery = record {
  hash = refl;
  hash_given = refl;
  service = refl;
  target = refl;
  target_given = refl;
  amount = refl;
  nonce = refl;
}

same_payment : IsSamePayment stored event
unfolding big_int value_from
same_payment = record { to = refl; service = refl; nonce = refl; amount = refl; time = refl }

-- The payment is too small for both.
verify_transfer-Agrees_example :
    (v : VerifyResult) × (w : VerifyResult) × (Mock.verify_transfer
        (λ hash. answer 200 stored)
        6000
        query
      ≡ ok v)
    × (Live.verify_transfer router
          (λ hash. found (record { success = true; paid_logs = event ∷ [] }))
          6000
          query
        ≡ ok w)
    × Agrees v w
unfolding router_address normalize_address is_address trim trim_start g_gate.Prelude.Text.text_beq
verify_transfer-Agrees_example =
    verify_transfer-Agrees router router (λ hash. answer 200 stored)
      (λ hash. found (record { success = true; paid_logs = event ∷ [] })) 6000 query stored event
      query-IsQuery same_payment refl refl refl refl
