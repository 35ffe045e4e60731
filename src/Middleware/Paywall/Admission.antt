-- ===== src/Middleware/Paywall/Admission.antt =====
-- The checks of the paywall before anything is spent (packages/middleware/src/app.ts).
use g_gate.Prelude.{
  ℕ, Bool, false, not, ◌&&◌, ◌||◌, Option, none, some, [], ◌∷◌, ◌++◌, ltb, ◌==◌, if◌then◌else◌,
}
use g_gate.Prelude.Text.{Text, codes, text_beq, trim, to_lower, is_empty, is_prefixed_hex}
use g_gate.Prelude.Decimal.{decimal}
use g_gate.Shared.Errors.{Result, ok, err}
use g_gate.Shared.Types.{
  ServiceRecord, VerifyTransferQuery, VerifyResult, verified, refused, Reason, Verified,
}
use g_gate.Shared.X402.{ZgExactPayload, PaymentPayload, decode_x_payment}
use g_gate.Shared.NetGuard.{resolved_host_is_public}
use g_gate.Middleware.InvoiceStore
use g_gate.Middleware.InvoiceStore.{StoredInvoice}
use g_gate.Middleware.UpstreamStore
use g_gate.Chain.Address.{same_address}
use g_gate.Middleware.Paywall.{
  Config, Request, World, Gateway, service_inactive, service_unavailable, unsupported_media_type,
  header_required, invalid_payment_header, unknown_nonce, invoice_used, invoice_expired,
  payment_proof_unsigned, payment_proof_invalid, transfer_refused, answer, challenge, hold, throw,
  Decision, go, stop, ◌>>=◌, ◌>>◌, unless_stop, has_unsupported_request_body,
}

-- What the checks hand to the part that spends the invoice.
pub record Admitted : Type 0 where
  pub service : ServiceRecord
  pub upstream_url : Text
  pub payload : ZgExactPayload
  pub verdict : Verified

abbrev pub or_empty : Option Text → Text
or_empty none = []
or_empty (some s) = s

-- Steps 1 to 1c for a service that the registry knows.
unfoldable pub check_service :
    World → Config → Request → Gateway → ℕ → ServiceRecord → Decision Text
check_service w c req g id service = do
  unless_stop (not service.active) (answer 403 service_inactive)
  url ← elim (UpstreamStore.get id g.upstreams) [
    | none ↦ stop (answer 503 service_unavailable)
    | some url ↦ go url
  ]
  unless_stop (has_unsupported_request_body req) (answer 415 unsupported_media_type)
  unless_stop (c.live && not (resolved_host_is_public w.net (or_empty (w.net.hostname url))))
      (answer 503 service_unavailable)
  go url

unfoldable pub decoded : ServiceRecord → Result PaymentPayload → Decision PaymentPayload
decoded service (ok p) = go p
decoded service (err _) = stop (challenge service invalid_payment_header)

-- Steps 2 and 2b.
unfoldable pub read_proof : World → Request → ServiceRecord → Decision ZgExactPayload
unfolding decoded
read_proof w req service =
    let header = trim (or_empty req.x_payment) in
    do
      unless_stop (is_empty header) (challenge service header_required)
      payment ← decoded service (decode_x_payment (w.parse_header header))
      unless_stop (not (text_beq payment.network w.chain.network))
          (challenge service invalid_payment_header)
      go payment.payload

-- Step 3.
unfoldable pub check_invoice : Gateway → ℕ → ServiceRecord → Text → Decision StoredInvoice
check_invoice g id service nonce = do
  invoice ← elim (InvoiceStore.get nonce g.invoices) [
    | none ↦ stop (challenge service unknown_nonce)
    | some invoice ↦ go invoice
  ]
  unless_stop (not (invoice.service_id == id)) (challenge service unknown_nonce)
  unless_stop invoice.used (challenge service invoice_used)
  go invoice

-- What the chain is asked.
unfoldable pub query_of : Config → ServiceRecord → ZgExactPayload → VerifyTransferQuery
query_of c service payload = record {
  tx_hash = payload.transaction;
  service_id = service.id;
  expected_target = service.payment_target;
  min_amount_wei = service.price_wei;
  expected_nonce = payload.nonce;
  max_age_ms = c.redemption_window_ms;
}

-- Step 3b: what follows from the chain's answer.
unfoldable pub settled :
    ServiceRecord → StoredInvoice → Text → Result VerifyResult → Decision Verified
settled service invoice nonce (err e) = stop (throw e)
settled service invoice nonce (ok (refused Reason.pending)) = stop (hold service invoice nonce)
settled service invoice nonce (ok (refused r)) = stop (challenge service (transfer_refused r))
settled service invoice nonce (ok (verified v)) =
    if ltb invoice.expires_at v.timestamp then stop (challenge service invoice_expired) else go v

-- packages/shared/src/payment-proof.ts: the text whose UTF-8 bytes are signed.
abbrev pub newline : ℕ
newline = 10

unfoldable pub build_payment_proof_message : Text → ℕ → Text → Text → Text
build_payment_proof_message network service_id nonce transaction =
    codes "AgentGate/payment-proof/v1"
    ++ (newline ∷ network)
    ++ (newline ∷ decimal service_id)
    ++ (newline ∷ nonce)
    ++ (newline ∷ to_lower transaction)

-- packages/chain/src/signature.ts: `recoverSigner`. `isHex` and the length of 132.
unfoldable pub recover_signer : World → Text → Text → Option Text
recover_signer w message signature =
    if is_prefixed_hex 130 signature
    then (elim (w.recover message signature) [
      | none ↦ none
      | some address ↦ some (to_lower address)
    ])
    else none

abbrev pub signed_by : Text → Option Text → Bool
signed_by payer none = false
signed_by payer (some address) = same_address address payer

abbrev pub proof_signer : World → ServiceRecord → ZgExactPayload → Option Text
proof_signer w service payload =
    recover_signer w
      (build_payment_proof_message w.chain.network service.id payload.nonce payload.transaction)
      (or_empty payload.signature)

-- `config.mode === 'live' || chain.network !== 'mock'`.
unfoldable pub needs_signature : World → Config → Bool
needs_signature w c = c.live || not (text_beq w.chain.network (codes "mock"))

-- Step 3b-bis.
unfoldable pub check_payer :
    World → Config → ServiceRecord → ZgExactPayload → Verified → Decision (Unit {0})
unfolding needs_signature
check_payer w c service payload v =
    if needs_signature w c
    then (do
      unless_stop (is_empty (or_empty payload.signature)) (challenge service payment_proof_unsigned)
      unless_stop (not (signed_by v.from (proof_signer w service payload)))
          (challenge service payment_proof_invalid))
    else go tt

-- Steps 1 to 3b-bis.
unfoldable pub admit : World → Config → Request → Gateway → ℕ → ServiceRecord → Decision Admitted
admit w c req g id service = do
  url ← check_service w c req g id service
  payload ← read_proof w req service
  invoice ← check_invoice g id service payload.nonce
  v ← settled service invoice payload.nonce (w.chain.verify_transfer (query_of c service payload))
  check_payer w c service payload v
  go (record { service = service; upstream_url = url; payload = payload; verdict = v })
