-- ===== src/Middleware/Paywall/Admitting.antt =====
-- What the checks of the paywall establish (packages/middleware/src/app.ts).
use g_gate.Prelude.{ℕ, ◌≤◌, ◌≡◌, refl, sym, subst, true, false, not, ◌||◌, some, arith}
use g_gate.Prelude.Text.{Text, trim, is_empty, text_beq, text_beq_iff}
use g_gate.Shared.Errors.{Result, ok, err}
use g_gate.Shared.Types.{ServiceRecord, VerifyResult, verified, refused, Verified}
use g_gate.Shared.X402.{ZgExactPayload, PaymentPayload, decode_x_payment}
use g_gate.Shared.NetGuard.{resolved_host_is_public}
use g_gate.Middleware.InvoiceStore
use g_gate.Middleware.InvoiceStore.{StoredInvoice}
use g_gate.Middleware.UpstreamStore
use g_gate.Middleware.Paywall.{
  Config, Request, World, Gateway, Decision, go, >>=-eq-go, unless_stop, unless_stop-go, challenge,
  header_required, invalid_payment_header, has_unsupported_request_body,
}
use g_gate.Middleware.Paywall.Admission.{
  Admitted, or_empty, check_service, decoded, read_proof, check_invoice, query_of, settled,
  signed_by, proof_signer, needs_signature, check_payer, admit,
}

-- The service is active and mapped, the request has no body but a JSON one, and in live mode the
-- upstream resolves to public addresses only; the payment is what the request's own header decodes
-- to, and names the gateway's network; the invoice of its nonce is held, is one of this service and
-- unused; the chain verifies the transfer, dated no later than the invoice's end; and, unless the
-- gateway runs on the mock network, the payer that the chain reports signed the proof.
pub record IsAdmitted (w : World) (c : Config) (req : Request) (u : UpstreamStore.UpstreamStore)
    (s : InvoiceStore.InvoiceStore) (id : ℕ) (service : ServiceRecord) (a : Admitted) : Type 0 where
  pub invoice : StoredInvoice
  pub payment : PaymentPayload
  pub same_service : a.service ≡ service
  pub active : service.active ≡ true
  pub mapped : UpstreamStore.get id u ≡ some a.upstream_url
  pub supported : has_unsupported_request_body req ≡ false
  pub public :
      (not c.live || resolved_host_is_public w.net (or_empty (w.net.hostname a.upstream_url)))
      ≡ true
  pub presented : is_empty (trim (or_empty req.x_payment)) ≡ false
  pub decodes : decode_x_payment (w.parse_header (trim (or_empty req.x_payment))) ≡ ok payment
  pub own_network : payment.network ≡ w.chain.network
  pub same_payload : a.payload ≡ payment.payload
  pub held : InvoiceStore.get a.payload.nonce s ≡ some invoice
  pub issued_for : invoice.service_id ≡ id
  pub unused : invoice.used ≡ false
  pub paid : w.chain.verify_transfer (query_of c service a.payload) ≡ ok (verified a.verdict)
  pub in_time : a.verdict.timestamp ≤ invoice.expires_at
  pub signed :
      (not (needs_signature w c) || signed_by a.verdict.from (proof_signer w service a.payload))
      ≡ true

go_inj : (a b : Admitted) → Decision.go a ≡ go b → a ≡ b
go_inj a b h = cc

check_service_sound :
    (w : World) (c : Config) (req : Request) (g : Gateway) (id : ℕ) (service : ServiceRecord)
    (url : Text)
    → check_service w c req g id service ≡ go url
    → (service.active ≡ true)
      × (UpstreamStore.get id g.upstreams ≡ some url)
      × (has_unsupported_request_body req ≡ false)
      × ((not c.live || resolved_host_is_public w.net (or_empty (w.net.hostname url))) ≡ true)
unfolding check_service
check_service_sound w c req g id service url h = ground arith

decoded_sound :
    (service : ServiceRecord) (r : Result PaymentPayload) (p : PaymentPayload)
    → decoded service r ≡ go p
    → r ≡ ok p
unfolding decoded
decoded_sound service (ok q) p h = cc
decoded_sound service (err e) p h = cc

read_proof_sound :
    (w : World) (req : Request) (service : ServiceRecord) (payload : ZgExactPayload)
    → read_proof w req service ≡ go payload
    → (p : PaymentPayload) × (is_empty (trim (or_empty req.x_payment)) ≡ false)
      × (decode_x_payment (w.parse_header (trim (or_empty req.x_payment))) ≡ ok p)
      × (p.network ≡ w.chain.network)
      × (payload ≡ p.payload)
unfolding read_proof
read_proof_sound w req service payload h =
    let header : Text = trim (or_empty req.x_payment) in
    let (_, e1, h1) =
      >>=-eq-go (unless_stop (is_empty header) (challenge service header_required)) _ h in
    let (p, e2, h2) = >>=-eq-go (decoded service (decode_x_payment (w.parse_header header))) _ h1 in
    let (_, e3, h3) =
      >>=-eq-go
        (unless_stop (not (text_beq p.network w.chain.network))
          (challenge service invalid_payment_header))
        _ h2 in
    let named = unless_stop-go _ _ e3 in
    (
      p,
      unless_stop-go _ _ e1,
      decoded_sound service _ p e2,
      (text_beq_iff p.network w.chain.network).0 (ground (arith, named)),
      payload_inj payload p.payload (sym h3),
    )
  where
    payload_inj : (a b : ZgExactPayload) → Decision.go a ≡ go b → a ≡ b
    payload_inj a b h = cc

check_invoice_sound :
    (g : Gateway) (id : ℕ) (service : ServiceRecord) (nonce : Text) (invoice : StoredInvoice)
    → check_invoice g id service nonce ≡ go invoice
    → (InvoiceStore.get nonce g.invoices ≡ some invoice)
      × (invoice.service_id ≡ id)
      × (invoice.used ≡ false)
unfolding check_invoice
check_invoice_sound g id service nonce invoice h = ground arith

settled_sound :
    (service : ServiceRecord) (invoice : StoredInvoice) (nonce : Text) (r : Result VerifyResult)
    (v : Verified)
    → settled service invoice nonce r ≡ go v
    → (r ≡ ok (verified v)) × (v.timestamp ≤ invoice.expires_at)
unfolding settled
settled_sound service invoice nonce (err e) v h = cc
settled_sound service invoice nonce (ok (verified x)) v h = ground arith
settled_sound service invoice nonce (ok (refused r)) v h = ground arith

check_payer_sound :
    (w : World) (c : Config) (service : ServiceRecord) (payload : ZgExactPayload) (v : Verified)
    → check_payer w c service payload v ≡ go tt
    → (not (needs_signature w c) || signed_by v.from (proof_signer w service payload)) ≡ true
unfolding check_payer
check_payer_sound w c service payload v h = ground arith

pub admit_sound :
    (w : World) (c : Config) (req : Request) (g : Gateway) (id : ℕ) (service : ServiceRecord)
    (a : Admitted)
    → admit w c req g id service ≡ go a
    → IsAdmitted w c req g.upstreams g.invoices id service a
unfolding admit
admit_sound w c req g id service a h =
    let (url, e1, h1) = >>=-eq-go (check_service w c req g id service) _ h in
    let (payload, e2, h2) = >>=-eq-go (read_proof w req service) _ h1 in
    let (invoice, e3, h3) = >>=-eq-go (check_invoice g id service payload.nonce) _ h2 in
    let (v, e4, h4) =
      >>=-eq-go
        (settled service invoice payload.nonce
          (w.chain.verify_transfer (query_of c service payload)))
        _ h3 in
    let (_, e5, h5) = >>=-eq-go (check_payer w c service payload v) _ h4 in
    let served_service = check_service_sound w c req g id service url e1 in
    let (payment, full, decodes, named, same) = read_proof_sound w req service payload e2 in
    let fresh_invoice = check_invoice_sound g id service payload.nonce invoice e3 in
    let transfer = settled_sound service invoice payload.nonce _ v e4 in
    let signer = check_payer_sound w c service payload v e5 in
    let made : Admitted = record {
      service = service;
      upstream_url = url;
      payload = payload;
      verdict = v;
    } in
    subst (λ b. IsAdmitted w c req g.upstreams g.invoices id service b) (go_inj made a h5)
      (record {
        invoice = invoice;
        same_service = refl;
        active = served_service.0;
        mapped = served_service.1;
        payment = payment;
        supported = served_service.2;
        public = served_service.3;
        presented = full;
        decodes = decodes;
        own_network = named;
        same_payload = same;
        held = fresh_invoice.0;
        issued_for = fresh_invoice.1;
        unused = fresh_invoice.2;
        paid = transfer.0;
        in_time = transfer.1;
        signed = signer;
      })
