-- ===== src/Client/Fetch.antt =====
-- packages/client/src/index.ts: fetchPaid. What the network and the chain client answer are
-- parameters; the waits are left out. An outcome also lists the transfers that were asked of the
-- chain and the headers of the requests that carried a proof.
use g_gate.Prelude.{
  ℕ, zero, suc, ◌+◌, Bool, true, false, not, ◌&&◌, Option, none, some, List, [], ◌∷◌, ◌==◌,
  if◌then◌else◌,
}
use g_gate.Prelude.Text.{Text, codes, text_beq, trim, is_empty}
use g_gate.Shared.Errors.{AgentGateError, Result, ok, err, fail, Code}
use g_gate.Shared.Json.{Json}
use g_gate.Shared.Money.{Wei}
use g_gate.Shared.NetGuard.{Resolver, resolved_host_is_public}
use g_gate.Shared.HttpUrl.{
  Url, UrlValidation, invalid_url, forbidden_host, valid, validate_http_url,
}
use g_gate.Shared.X402.{encode_x_payment}
use g_gate.Client.Invoice.{PaymentRequirements, ClientOptions, bad_invoice, vet_invoice}

-- `FetchedBody`, with the fields that decide.
pub record FetchedBody : Type 0 where
  pub status : ℕ
  pub body : Json
  pub is_json : Bool
  pub retry_after_ms : Option ℕ

pub record TransferInput : Type 0 where
  pub to : Text
  pub amount_wei : Wei
  pub nonce : Text
  pub service_id : Option Json

pub record PayAndFetchResult : Type 0 where
  pub status : ℕ
  pub body : Json
  pub paid : Bool
  pub requirements : Option PaymentRequirements
  pub tx_hash : Option Text

-- The answer to the first request, to the n-th request with a proof, the chain client's
-- `transfer` and `signMessage` (of the invoice and the transaction), and the clock.
pub record Server : Type 0 where
  pub parse_url : Text → Option Url
  pub net : Resolver
  pub first : Text → Result FetchedBody
  pub proof : ℕ → Json → Result FetchedBody
  pub transfer : TransferInput → Result Text
  pub sign : PaymentRequirements → Text → Result Text
  pub now : ℕ

pub record Outcome : Type 0 where
  pub result : Result PayAndFetchResult
  pub sent : List TransferInput
  pub presented : List Json

abbrev pub max_pending_retries : ℕ
max_pending_retries = 5

-- The SSRF guard on the URL.
abbrev pub guard_valid : ClientOptions → Server → UrlValidation → Result (Unit {0})
guard_valid opts server invalid_url = fail Code.bad_url 400
guard_valid opts server forbidden_host = fail Code.forbidden_host 400
guard_valid opts server (valid url) =
    if opts.reject_private_hosts && not (resolved_host_is_public server.net url.hostname)
    then fail Code.forbidden_host 400
    else ok tt

unfoldable pub guard_url : ClientOptions → Server → Text → Result (Unit {0})
guard_url opts server url =
    if is_empty (trim url)
    then fail Code.bad_url 400
    else guard_valid opts server
        (validate_http_url server.parse_url server.net opts.reject_private_hosts url)

abbrev pub transfer_of : PaymentRequirements → TransferInput
transfer_of reqs = record {
  to = reqs.pay_to;
  amount_wei = reqs.max_amount_required;
  nonce = reqs.nonce;
  service_id = reqs.service_id;
}

-- The signature of the proof: none on the mock network, required elsewhere.
unfoldable pub sign_proof :
    ClientOptions → Server → PaymentRequirements → Text → Result (Option Text)
sign_proof opts server reqs tx =
    if text_beq opts.network (codes "mock")
    then ok none
    else if not opts.can_sign
    then fail Code.signer_unsupported 500
    else (elim (server.sign reqs tx) [ err e ↦ err e | ok signature ↦ ok (some signature) ])

-- The header of the requests that follow the payment.
unfoldable pub payment_header : ClientOptions → PaymentRequirements → Text → Option Text → Json
payment_header opts reqs tx signature = encode_x_payment (record {
  network = opts.network;
  payload = record { transaction = tx; nonce = reqs.nonce; from = none; signature = signature };
})

abbrev pub paid_result : PaymentRequirements → Text → FetchedBody → PayAndFetchResult
paid_result reqs tx b = record {
  status = b.status;
  body = b.body;
  paid = true;
  requirements = some reqs;
  tx_hash = some tx;
}

-- The loop of requests with the proof, and their headers: `left` retries are left, `n` requests were
-- made before.
unfoldable pub present :
    Server → PaymentRequirements → Text → Json → ℕ → ℕ → Result PayAndFetchResult × List Json
present server reqs tx header zero n = elim (server.proof n header) [
  | err e ↦ (err e, header ∷ [])
  | ok b ↦ (ok (paid_result reqs tx b), header ∷ [])
]
present server reqs tx header (suc left) n =
    let rest = present server reqs tx header left (n + 1) in
    elim (server.proof n header) [
      | err e ↦ (err e, header ∷ [])
      | ok b ↦
          if b.status == 402
          then (elim b.retry_after_ms [
            | none ↦ (ok (paid_result reqs tx b), header ∷ [])
            | some wait ↦ (rest.0, header ∷ rest.1)
          ])
          else (ok (paid_result reqs tx b), header ∷ [])
    ]

abbrev pub stopped : List TransferInput → AgentGateError → Outcome
stopped sent e = record { result = err e; sent = sent; presented = [] }

abbrev pub settled_outcome : PaymentRequirements → Result PayAndFetchResult × List Json → Outcome
settled_outcome reqs (r, headers) = record {
  result = r;
  sent = transfer_of reqs ∷ [];
  presented = headers;
}

-- After the transfer was asked for.
unfoldable pub after_signing :
    ClientOptions → Server → PaymentRequirements → Text → Result (Option Text) → Outcome
unfolding present
after_signing opts server reqs tx (err e) = stopped (transfer_of reqs ∷ []) e
after_signing opts server reqs tx (ok signature) =
    settled_outcome reqs
      (present server reqs tx (payment_header opts reqs tx signature) max_pending_retries 0)

unfoldable pub after_transfer : ClientOptions → Server → PaymentRequirements → Result Text → Outcome
unfolding after_signing
after_transfer opts server reqs (err e) = stopped (transfer_of reqs ∷ []) e
after_transfer opts server reqs (ok tx) =
    after_signing opts server reqs tx (sign_proof opts server reqs tx)

unfoldable pub pay : ClientOptions → Server → Result PaymentRequirements → Outcome
unfolding after_transfer
pay opts server (err e) = stopped [] e
pay opts server (ok reqs) = after_transfer opts server reqs (server.transfer (transfer_of reqs))

unfoldable pub after_first : ClientOptions → Server → Result FetchedBody → Outcome
unfolding pay
after_first opts server (err e) = stopped [] e
after_first opts server (ok b) =
    if b.status == 402
    then pay opts server (if b.is_json then vet_invoice opts server.now b.body else bad_invoice)
    else record {
      result = ok (record {
        status = b.status;
        body = b.body;
        paid = false;
        requirements = none;
        tx_hash = none;
      });
      sent = [];
      presented = [];
    }

unfoldable pub after_guard : ClientOptions → Server → Text → Result (Unit {0}) → Outcome
unfolding after_first
after_guard opts server url (err e) = stopped [] e
after_guard opts server url (ok _) = after_first opts server (server.first url)

unfoldable pub fetch_paid : ClientOptions → Server → Text → Outcome
unfolding after_guard
fetch_paid opts server url = after_guard opts server url (guard_url opts server url)
