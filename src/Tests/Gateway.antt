-- ===== src/Tests/Gateway.antt =====
-- A paid call through the gateway, from the header to the answer, and an owner's mapping
-- (packages/middleware/src/app.ts, packages/chain/src/live-0g.ts).
use g_gate.Prelude.{
  ◌≡◌, refl, true, false, none, some, [], ◌∷◌, ◌++◌, arith, replicate, if◌then◌else◌, nat_eq,
}
use g_gate.Prelude.Text.{Text, codes, text_eq, text_beq, is_prefixed_hex, trim, trim_start}
use g_gate.Prelude.Maps.{lookup, insert}
use g_gate.Prelude.Decimal.{is_digits, big_int, value_from, decimal, decimal_from}
use g_gate.Shared.Errors.{ok}
use g_gate.Shared.Types.{ServiceRecord, VerifyTransferQuery, Verified, verified, refused, Reason}
use g_gate.Shared.Json.{get_field}
use g_gate.Shared.X402.{
  PaymentPayload, encode_x_payment, decode_x_payment, is_uint256, is_scheme, read_payload,
  read_signature,
}
use g_gate.Shared.NetGuard.{
  clean_host, resolved_host_is_public, is_private_ipv4, parse_ipv4, parse_octet, split,
  strip_prefix, is_private_octets,
}
use g_gate.Chain.Address.{is_address, normalize_address, same_address}
use g_gate.Chain.Live.{
  Receipt, ReceiptAnswer, receipt_not_found, found, require_service_id, router_address, check_match,
  check_target, check_events, check_receipt, verify_transfer,
}
use g_gate.Chain.Live.Soundness.{IsSettled, verify_transfer-IsSettled}
use g_gate.Middleware.InvoiceStore
use g_gate.Middleware.InvoiceStore.{InvoiceStore, StoredInvoice, sweep}
use g_gate.Middleware.ServiceCache
use g_gate.Middleware.UpstreamStore
use g_gate.Middleware.UpstreamStore.{missing}
use g_gate.Middleware.Paywall.{
  Config, Request, World, Gateway, served, response, parse_service_id, has_unsupported_request_body,
  is_self_payment,
}
use g_gate.Middleware.Paywall.Admission.{
  check_service, decoded, read_proof, check_invoice, query_of, settled, build_payment_proof_message,
  recover_signer, needs_signature, check_payer, admit,
}
use g_gate.Middleware.Paywall.Handler.{deliver, redeem, decide, with_service, handle}
use g_gate.Middleware.Paywall.Consuming.{Framed, handle-Framed}
use g_gate.Middleware.Paywall.Served.{IsServed, handle-IsServed}
use g_gate.Middleware.Paywall.Interleaving.{Played, handle-IsPlayed}
use g_gate.Middleware.Paywall.Attesting.{Recorded, handle-Attested}
use g_gate.Middleware.Paywall.Settled.{on_live_chain, IsPaid, handle-IsPaid, sweep-keeps}

abbrev seller : Text
seller = codes "0x1111111111111111111111111111111111111111"

abbrev buyer : Text
buyer = codes "0x2222222222222222222222222222222222222222"

abbrev router : Text
router = codes "0x3333333333333333333333333333333333333333"

abbrev tx_hash : Text
tx_hash = codes "0x00000000000000000000000000000000000000000000000000000000000000ab"

abbrev weather : ServiceRecord
weather = record {
  id = 7;
  name = codes "weather";
  description = codes "";
  endpoint_url = codes "https://gate.example/svc/7";
  price_wei = codes "1000";
  payment_target = seller;
  owner = seller;
  attestor = seller;
  active = true;
  created_at = 0;
  accepts = none;
}

abbrev receipt : Receipt
receipt = record {
  success = true;
  paid_logs =
      record {
        address = router;
        service_id = 7;
        nonce = 42;
        payer = buyer;
        pay_to = seller;
        amount = 1000;
        timestamp = 5000;
      }
      ∷ [];
}

abbrev receipts : Text → ReceiptAnswer
receipts tx = if text_beq tx tx_hash then found receipt else receipt_not_found

abbrev payment : PaymentPayload
payment = record {
  network = codes "eip155:16602";
  payload = record {
    transaction = tx_hash;
    nonce = codes "42";
    from = none;
    signature = some (codes "0x" ++ replicate 130 b'a');
  };
}

abbrev world : World
world = record {
  chain = record {
    network = codes "eip155:16602";
    get_service = λ id. ok (some weather);
    verify_transfer = λ q. ok (refused Reason.pending);
  };
  net = record { is_ip = λ s. 4; dns = λ s. none; hostname = λ s. some (codes "8.8.8.8") };
  parse_header = λ h. some (encode_x_payment payment);
  recover = λ message signature. some buyer;
  proxy_to_upstream = λ url req. response 200 none (codes "sunny");
}

abbrev config : Config
config = record {
  live = true;
  invoice_ttl_ms = 600;
  redemption_window_ms = 9000;
  payment_router_address = router;
}

abbrev request : Request
request = record {
  id = codes "7";
  method = codes "GET";
  content_length = none;
  transfer_encoding = none;
  is_json = false;
  x_payment = some (codes "eyJ4");
  resource = codes "/svc/7";
}

abbrev invoice : StoredInvoice
invoice = record {
  nonce = codes "42";
  service_id = 7;
  price_wei = codes "1000";
  expires_at = 5200;
  used = false;
}

abbrev gateway : Gateway
gateway = record {
  services = record { entries = []; ttl_ms = 60_000 };
  upstreams = record { map = (7, codes "https://8.8.8.8/") ∷ []; file = missing };
  invoices = record { invoices = (codes "42", invoice) ∷ []; grace_ms = 9000; closed = false };
  attestations = record {
    items = [];
    dead_letter_log = [];
    dead_lettered_total = 0;
    max_attempts = 12;
    max_age_ms = 1000;
    max_dead_letters = 5;
  };
}

gateway-IsValid : InvoiceStore.IsValid gateway.invoices
unfolding lookup
gateway-IsValid = record { unique = (refl, tt); keyed = (refl, tt) }

abbrev live : World
live = on_live_chain router receipts 6000 world

abbrev fresh : Text
fresh = codes "99"

-- The call is answered with the upstream's response.
answered :
    (handle live config 6000 fresh request gateway).0
    ≡ served tx_hash buyer (response 200 none (codes "sunny"))
unfolding handle with_service decide redeem deliver admit check_payer needs_signature recover_signer
    settled query_of check_invoice read_proof decoded check_service parse_service_id
    has_unsupported_request_body is_digits big_int value_from trim trim_start decode_x_payment
    encode_x_payment is_uint256 is_scheme read_payload read_signature get_field text_beq lookup
    insert ServiceCache.get ServiceCache.fetched UpstreamStore.get InvoiceStore.get
    InvoiceStore.mark_used verify_transfer check_receipt check_events check_target check_match
    router_address require_service_id normalize_address is_address same_address is_self_payment
    resolved_host_is_public clean_host is_private_ipv4 parse_ipv4 parse_octet split
    is_private_octets strip_prefix build_payment_proof_message decimal decimal_from
answered = refl

handle-IsPaid_example :
    IsPaid router receipts 6000 live config request gateway tx_hash buyer
      (response 200 none (codes "sunny"))
handle-IsPaid_example =
    handle-IsPaid router receipts 6000 world config fresh request gateway tx_hash buyer
      (response 200 none (codes "sunny")) refl answered

handle-IsServed_example :
    IsServed live config 6000 request gateway tx_hash buyer (response 200 none (codes "sunny"))
handle-IsServed_example =
    handle-IsServed live config 6000 fresh request gateway tx_hash buyer
      (response 200 none (codes "sunny")) answered

sweep-keeps_example :
    InvoiceStore.get handle-IsPaid_example.call.admitted.payload.nonce (sweep 5900 gateway.invoices)
    ≡ InvoiceStore.get handle-IsPaid_example.call.admitted.payload.nonce gateway.invoices
sweep-keeps_example =
    sweep-keeps router receipts 6000 5900 live config request gateway tx_hash buyer
      (response 200 none (codes "sunny")) gateway-IsValid (omega arith) (omega arith)
      handle-IsPaid_example

handle-Framed_example :
    Framed live config 6000 request gateway
      (codes "42")
      (handle live config 6000 fresh request gateway).0
      (handle live config 6000 fresh request gateway).1.invoices
handle-Framed_example =
    handle-Framed live config 6000 fresh request gateway (codes "42") (λ e. ground (arith, e))

handle-Attested_example :
    Recorded live config 6000 request gateway
      (handle live config 6000 fresh request gateway).0
      (handle live config 6000 fresh request gateway).1.attestations
handle-Attested_example = handle-Attested live config 6000 fresh request gateway

abbrev query : VerifyTransferQuery
query = record {
  tx_hash = tx_hash;
  service_id = 7;
  expected_target = seller;
  min_amount_wei = codes "1000";
  expected_nonce = codes "42";
  max_age_ms = 9000;
}

abbrev settlement : Verified
settlement = record { amount_wei = codes "1000"; from = buyer; timestamp = 5000 }

verified_now : verify_transfer router receipts 6000 query ≡ ok (verified settlement)
unfolding verify_transfer check_receipt check_events check_target check_match router_address
    require_service_id normalize_address is_address trim trim_start text_beq big_int value_from
    decimal decimal_from
verified_now = refl

verify_transfer-IsSettled_example :
    (is_prefixed_hex 64 tx_hash ≡ true)
    × ((r : Receipt) × (receipts tx_hash ≡ found r) × IsSettled router 6000 query r settlement)
verify_transfer-IsSettled_example =
    verify_transfer-IsSettled router receipts 6000 query settlement verified_now

handle-IsPlayed_example :
    Played
      (fresh ∷ [])
      []
      []
      live
      config
      6000
      request
      gateway
      (handle live config 6000 fresh request gateway).0
      (handle live config 6000 fresh request gateway).1.invoices
handle-IsPlayed_example = handle-IsPlayed (fresh ∷ []) [] [] live config 6000 fresh request gateway
