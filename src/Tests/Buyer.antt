-- ===== src/Tests/Buyer.antt =====
-- A buyer's call and an owner's mapping at concrete inputs (packages/client/src/index.ts,
-- packages/middleware/src/app.ts).
use g_gate.Prelude.{
  length, ◌≤◌, ◌≡◌, ◌⊎◌, refl, true, false, Option, none, some, [], ◌++◌, replicate, ◌∷◌,
}
use g_gate.Prelude.Text.{Text, codes, text_beq, trim, trim_start}
use g_gate.Shared.Errors.{ok, is_ok, Code, fail}
use g_gate.Shared.Json.{Json, num, str, arr, obj, nil, cons, field, end, get_field}
use g_gate.Shared.HttpUrl.{Url, validate_http_url, check_url}
use g_gate.Shared.NetGuard.{Resolver}
use g_gate.Shared.Types.{ServiceRecord, refused, Reason}
use g_gate.Client.Invoice.{
  PaymentRequirements, ClientOptions, vet_invoice, parse_payment_required, read_requirements,
  pick_network, check_price,
}
use g_gate.Shared.Money.{parse_wei, compare_wei}
use g_gate.Shared.X402.{is_scheme, is_uint256}
use g_gate.Prelude.Decimal.{is_digits, big_int, value_from}
use g_gate.Client.Fetch.{
  Server, transfer_of, guard_url, sign_proof, after_guard, after_first, pay, after_transfer,
  after_signing, fetch_paid,
}
use g_gate.Client.Proofs.{IsProof, fetch_paid-presented, fetch_paid-unsigned}
use g_gate.Client.Payment.{IsOnePayment, fetch_paid-IsOnePayment}
use g_gate.Middleware.UpstreamStore.{missing}
use g_gate.Middleware.Paywall.{World, Config, response}
use g_gate.Middleware.SelfMap.{Mapping}

abbrev pub seller : Text
seller = codes "0x1111111111111111111111111111111111111111"

abbrev pub router : Text
router = codes "0x3333333333333333333333333333333333333333"

abbrev pub options : ClientOptions
options = record {
  network = codes "eip155:16602";
  router_address = some router;
  can_sign = false;
  max_price_wei = some (codes "2000");
  expect_pay_to = some seller;
  expect_service_id = some 7;
  reject_private_hosts = false;
}

abbrev pub net : Resolver
net = record { is_ip = λ s. 4; dns = λ s. none; hostname = λ s. some (codes "8.8.8.8") }

abbrev pub parse_url : Text → Option Url
parse_url s = some (record {
  protocol = codes "https:";
  username = [];
  password = [];
  hostname = codes "8.8.8.8";
  href = codes "https://8.8.8.8/";
})

abbrev challenge : Json
challenge = obj (
    field (codes "x402Version") (num 1) (
      field (codes "accepts")
        (arr (
          cons
            (obj (
              field (codes "scheme") (str (codes "exact-settled")) (
                field (codes "network") (str (codes "eip155:16602")) (
                  field (codes "maxAmountRequired") (str (codes "1000")) (
                    field (codes "payTo") (str seller) (
                      field (codes "extra")
                        (obj (
                          field (codes "nonce") (str (codes "42")) (
                            field (codes "router") (str router) (
                              field (codes "serviceId") (num 7)
                                (field (codes "expiresAtMs") (num 900) end)))))
                        end))))))
            nil))
        end))

abbrev pub server : Server
server = record {
  parse_url = parse_url;
  net = net;
  first =
      λ url. ok (record { status = 402; body = challenge; is_json = true; retry_after_ms = none });
  proof = λ n header.
      ok (record {
        status = 200;
        body = str (codes "sunny");
        is_json = true;
        retry_after_ms = none;
      });
  transfer = λ t. ok (codes "0x00000000000000000000000000000000000000000000000000000000000000ab");
  sign = λ reqs tx. ok (codes "0x" ++ replicate 130 b'a');
  now = 100;
}

abbrev url : Text
url = codes "https://8.8.8.8/svc/7"

abbrev pub invoice : PaymentRequirements
invoice = record {
  max_amount_required = codes "1000";
  pay_to = seller;
  router = router;
  nonce = codes "42";
  expires_at_ms = 900;
  service_id = some (num 7);
}

fetch_paid-IsOnePayment_example :
    ((fetch_paid options server url).sent ≡ [])
    ⊎ IsOnePayment options server url (fetch_paid options server url)
fetch_paid-IsOnePayment_example = fetch_paid-IsOnePayment options server url

-- A chain client that signs.
abbrev signing : ClientOptions
signing = record options { can_sign = true }

fetch_paid-presented_example :
    (length (fetch_paid signing server url).presented ≤ 6)
    × (((fetch_paid signing server url).presented ≡ [])
        ⊎ IsProof signing server (fetch_paid signing server url))
fetch_paid-presented_example = fetch_paid-presented signing server url

fetch_paid-unsigned_example :
    ((fetch_paid options server url).sent ≡ [])
    ⊎ (is_ok (fetch_paid options server url).result ≡ false)
unfolding text_beq
fetch_paid-unsigned_example = fetch_paid-unsigned options server url refl refl

-- A run of that case that asks for the transfer.
unsigned_pays :
    ((fetch_paid options server url).sent ≡ transfer_of invoice ∷ [])
    × ((fetch_paid options server url).result ≡ fail Code.signer_unsupported 500)
unfolding fetch_paid after_guard after_first pay after_transfer after_signing guard_url vet_invoice
    parse_payment_required read_requirements pick_network check_price sign_proof validate_http_url
    check_url get_field is_scheme is_uint256 is_digits big_int value_from parse_wei compare_wei
    text_beq trim trim_start
unsigned_pays = (refl, refl)

abbrev pub weather : ServiceRecord
weather = record {
  id = 7;
  name = codes "weather";
  description = codes "";
  endpoint_url = codes "https://gate.example/svc/7";
  price_wei = codes "1000";
  payment_target = seller;
  owner = seller;
  attestor = seller;
  active = true;
  created_at = 0;
  accepts = none;
}

abbrev world : World
world = record {
  chain = record {
    network = codes "eip155:16602";
    get_service = λ id. ok (some weather);
    verify_transfer = λ q. ok (refused Reason.pending);
  };
  net = net;
  parse_header = λ h. none;
  recover = λ message signature. some seller;
  proxy_to_upstream = λ u req. response 200 none [];
}

abbrev config : Config
config = record {
  live = true;
  invoice_ttl_ms = 600;
  redemption_window_ms = 9000;
  payment_router_address = router;
}

abbrev mapping : Mapping
mapping = record {
  services = record { entries = []; ttl_ms = 60_000 };
  upstreams = record { map = []; file = missing };
  last_self_map_ts = [];
}

abbrev map_request : Json
map_request = obj (
    field (codes "upstreamUrl") (str (codes "https://8.8.8.8/")) (
      field (codes "timestamp") (num 500_000)
        (field (codes "signatureHex") (str (codes "0x" ++ replicate 130 b'a')) end)))
