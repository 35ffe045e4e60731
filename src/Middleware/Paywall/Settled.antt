-- ===== src/Middleware/Paywall/Settled.antt =====
-- The paywall on the live chain (packages/middleware/src/app.ts, packages/chain/src/live-0g.ts):
-- what a buyer who is served has paid, and that the sweep cannot take a redeemable invoice away.
use g_gate.Prelude.{ℕ, ◌+◌, ◌≤◌, ◌≡◌, refl, ◌∙◌, ap, true, false, Option, none, some, arith, nat_eq}
use g_gate.Prelude.Text.{Text, text_eq}
use g_gate.Chain.Address.{same_address}
use g_gate.Chain.Live.{Receipt, ReceiptAnswer, found, verify_transfer}
use g_gate.Chain.Live.Soundness.{IsSettled, verify_transfer-IsSettled}
use g_gate.Middleware.InvoiceStore
use g_gate.Middleware.InvoiceStore.{InvoiceStore, IsValid, is_stale, sweep}
use g_gate.Middleware.InvoiceStore.Laws.{get-sweep}
use g_gate.Middleware.Paywall.{Config, Request, World, Gateway, served, ProxyOutcome}
use g_gate.Middleware.Paywall.Admission.{query_of, signed_by, proof_signer, needs_signature}
use g_gate.Middleware.Paywall.Handler.{handle}
use g_gate.Middleware.Paywall.Served.{IsServed, handle-IsServed}

-- The world with the live client in it.
abbrev pub on_live_chain : Text → (Text → ReceiptAnswer) → ℕ → World → World
on_live_chain router receipt_of now w = record w {
  chain = record w.chain { verify_transfer = verify_transfer router receipt_of now };
}

signer_found :
    (payer : Text) (o : Option Text)
    → signed_by payer o ≡ true
    → (address : Text) × (o ≡ some address) × (same_address address payer ≡ true)
signer_found payer none h = absurd (ground arith)
signer_found payer (some address) h = (address, refl, h)

-- What a served buyer has paid and signed.
pub record IsPaid (router : Text) (receipt_of : Text → ReceiptAnswer) (now : ℕ) (w : World)
    (c : Config) (req : Request) (g : Gateway) (tx payer : Text) (o : ProxyOutcome) : Type 0 where
  pub call : IsServed w c now req g tx payer o
  pub receipt : Receipt
  pub mined : receipt_of tx ≡ found receipt
  pub settlement :
      IsSettled router now
        (query_of c call.service call.admitted.payload)
        receipt
        call.admitted.verdict
  pub signer : Text
  pub recovered : proof_signer w call.service call.admitted.payload ≡ some signer
  pub same : same_address signer payer ≡ true

-- In live mode, on the live chain, a request is answered with the outcome of the upstream only if
-- the receipt of its transaction exists and holds a `Paid` event of the configured router for the
-- service and the invoice's nonce, to the service's payout account, of at least its price, within
-- the redemption window, and the payer in that event signed the proof.
pub handle-IsPaid :
    (router : Text) (receipt_of : Text → ReceiptAnswer) (now : ℕ) (w : World) (c : Config)
    (fresh : Text) (req : Request) (g : Gateway) (tx payer : Text) (o : ProxyOutcome)
    → c.live ≡ true
    → (handle (on_live_chain router receipt_of now w) c now fresh req g).0 ≡ served tx payer o
    → IsPaid router receipt_of now (on_live_chain router receipt_of now w) c req g tx payer o
unfolding needs_signature query_of
handle-IsPaid router receipt_of now w c fresh req g tx payer o live h =
    let w' = on_live_chain router receipt_of now w in
    let call = handle-IsServed w' c now fresh req g tx payer o h in
    let a = call.admitted in
    let (formed, (r, mined, settlement)) =
      verify_transfer-IsSettled router receipt_of now (query_of c call.service a.payload) a.verdict
        call.checked.paid in
    let signed : signed_by a.verdict.from (proof_signer w' call.service a.payload) ≡ true =
      rw live at call.checked.signed in
    let (signer, recovered, same) = signer_found a.verdict.from _ signed in
    record {
      call = call;
      receipt = r;
      mined = ap receipt_of call.transaction ∙ mined;
      settlement = settlement;
      signer = signer;
      recovered = recovered;
      same = ap (same_address signer) call.paid_by ∙ same;
    }

-- When invoices are retained at least as long as payments may be redeemed, as the gateway sets it
-- up, no sweep up to the time of a request that is served takes the invoice which it redeems.
pub sweep-keeps :
    (router : Text) (receipt_of : Text → ReceiptAnswer) (now earlier : ℕ) (w : World) (c : Config)
    (req : Request) (g : Gateway) (tx payer : Text) (o : ProxyOutcome)
    → IsValid g.invoices
    → c.redemption_window_ms ≤ g.invoices.grace_ms
    → earlier ≤ now
    → (p : IsPaid router receipt_of now w c req g tx payer o)
    → InvoiceStore.get p.call.admitted.payload.nonce (sweep earlier g.invoices)
      ≡ InvoiceStore.get p.call.admitted.payload.nonce g.invoices
unfolding query_of
sweep-keeps router receipt_of now earlier w c req g tx payer o valid window before p =
    let checked = p.call.checked in
    let inv = checked.invoice in
    let recent : now ≤ p.settlement.log.timestamp + c.redemption_window_ms = p.settlement.recent in
    let dated : p.call.admitted.verdict.timestamp ≡ p.settlement.log.timestamp =
      ap (λ v. v.timestamp) p.settlement.reported in
    let in_time : p.call.admitted.verdict.timestamp ≤ inv.expires_at = checked.in_time in
    let kept : is_stale earlier g.invoices.grace_ms inv ≡ false =
      ground (arith, recent, dated, in_time, window, before) in
    get-sweep p.call.admitted.payload.nonce earlier g.invoices valid
    ∙ ground (arith, kept, checked.held)
