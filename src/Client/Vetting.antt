-- ===== src/Client/Vetting.antt =====
-- What an invoice that passes the buyer's guards is (packages/client/src/index.ts).
use g_gate.Prelude.{ℕ, ◌<◌, ◌≡◌, subst, true}
use g_gate.Shared.Errors.{ok, Code, >>=-eq-ok, require-eq-ok, is_ok, require}
use g_gate.Shared.Json.{Json}
use g_gate.Shared.Money.{parse_wei}
use g_gate.Shared.X402.{is_uint256}
use g_gate.Client.Invoice.{
  PaymentRequirements, ClientOptions, parse_payment_required, check_price, matches_text, matches_id,
  matches_router, is_address_text, vet_invoice,
}
use g_gate.Client.Offer.{IsOffered, ok_inj, parse_payment_required_sound}

-- The invoice is read off the body, in date and well formed, within the caller's price, and agrees
-- with the payout account, the service and the router that the caller expects, where these are given.
pub record IsVetted (opts : ClientOptions) (now : ℕ) (raw : Json) (reqs : PaymentRequirements)
    : Type 0 where
  pub offered : IsOffered opts.network raw reqs
  pub in_date : now < reqs.expires_at_ms
  pub priced : is_ok (parse_wei reqs.max_amount_required) ≡ true
  pub within : check_price opts.max_price_wei reqs.max_amount_required ≡ ok tt
  pub payee : matches_text opts.expect_pay_to reqs.pay_to ≡ true
  pub service : matches_id opts.expect_service_id reqs.service_id ≡ true
  pub same_router : matches_router opts.router_address reqs.router ≡ true
  pub address : is_address_text reqs.pay_to ≡ true
  pub nonce : is_uint256 reqs.nonce ≡ true

pub vet_invoice_sound :
    (opts : ClientOptions) (now : ℕ) (raw : Json) (reqs : PaymentRequirements)
    → vet_invoice opts now raw ≡ ok reqs
    → IsVetted opts now raw reqs
unfolding vet_invoice
vet_invoice_sound opts now raw reqs h =
    let (r, e1, h1) = >>=-eq-ok (parse_payment_required opts.network now raw) _ h in
    let (_, e2, h2) = >>=-eq-ok (check_price opts.max_price_wei r.max_amount_required) _ h1 in
    let (_, e3, h3) =
      >>=-eq-ok (require (matches_text opts.expect_pay_to r.pay_to) Code.invoice_mismatch 402) _
        h2 in
    let (_, e4, h4) =
      >>=-eq-ok (require (matches_id opts.expect_service_id r.service_id) Code.invoice_mismatch 402)
        _ h3 in
    let (_, e5, h5) =
      >>=-eq-ok (require (matches_router opts.router_address r.router) Code.invoice_mismatch 502) _
        h4 in
    let (offered, (_, read)) = parse_payment_required_sound opts.network now raw r e1 in
    subst (IsVetted opts now raw) (ok_inj r reqs h5) (record {
      offered = offered;
      in_date = read.in_date;
      priced = read.priced;
      within = e2;
      payee = require-eq-ok _ _ _ e3;
      service = require-eq-ok _ _ _ e4;
      same_router = require-eq-ok _ _ _ e5;
      address = read.address;
      nonce = read.formed;
    })
