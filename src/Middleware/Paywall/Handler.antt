-- ===== src/Middleware/Paywall/Handler.antt =====
-- The whole handler of `/svc/:id` (packages/middleware/src/app.ts): the checks, then the burn of
-- the nonce, the proxied call, the answer and what is queued for attestation.
use g_gate.Prelude.{ℕ, ◌+◌, Bool, true, false, Option, none, some, if◌then◌else◌, nat_eq}
use g_gate.Prelude.Text.{Text, text_eq}
use g_gate.Shared.Errors.{Result, ok, err}
use g_gate.Shared.Types.{ServiceRecord}
use g_gate.Middleware.InvoiceStore
use g_gate.Middleware.InvoiceStore.{StoredInvoice, InvoiceStore}
use g_gate.Middleware.AttestationQueue
use g_gate.Middleware.AttestationQueue.{AttestationQueue}
use g_gate.Middleware.ServiceCache
use g_gate.Middleware.ServiceCache.{ServiceCache}
use g_gate.Middleware.Paywall.{
  Config, Request, World, Gateway, Response, json_error, payment_required, served, crashed,
  PaymentRequirements, ErrorTag, service_not_found, invoice_used, settlement_pending, Refusal,
  answer, challenge, hold, throw, Decision, go, stop, ProxyOutcome, response, failure,
  parse_service_id, is_self_payment, is_upstream_success,
}
use g_gate.Middleware.Paywall.Admission.{Admitted, admit}

-- `buildRequirements`, the fields that depend on its arguments.
unfoldable pub build_requirements :
    World → Config → ServiceRecord → Text → ℕ → Text → PaymentRequirements
build_requirements w c service nonce expires_at resource = record {
  network = w.chain.network;
  max_amount_required = service.price_wei;
  pay_to = service.payment_target;
  resource = resource;
  description = service.name;
  nonce = nonce;
  service_id = service.id;
  expires_at_ms = expires_at;
  router = c.payment_router_address;
}

-- `respond402Fresh`: `fresh` is the value of `randomNonce()`.
unfoldable pub respond_402_fresh :
    World → Config → ℕ → Text → Request → ServiceRecord → ErrorTag → Gateway → Response × Gateway
respond_402_fresh w c now fresh req service tag g =
    let expires_at = now + c.invoice_ttl_ms in
    (
      payment_required tag (build_requirements w c service fresh expires_at req.resource) none,
      record g {
        invoices =
            InvoiceStore.put
              (record {
                nonce = fresh;
                service_id = service.id;
                price_wei = service.price_wei;
                expires_at = expires_at;
                used = false;
              })
              g.invoices;
      },
    )

unfoldable pub refuse : World → Config → ℕ → Text → Request → Refusal → Gateway → Response × Gateway
unfolding respond_402_fresh
refuse w c now fresh req (answer status tag) g = (json_error status tag, g)
refuse w c now fresh req (challenge service tag) g =
    respond_402_fresh w c now fresh req service tag g
refuse w c now fresh req (hold service invoice nonce) g = (
  payment_required settlement_pending
      (build_requirements w c service nonce invoice.expires_at req.resource) (some 2),
  g,
)
refuse w c now fresh req (throw e) g = (crashed e, g)

-- `scheduleAttestation`: the entry that is queued. The attempt loop that follows removes it from
-- the queue when the chain confirms.
unfoldable pub schedule_attestation : ℕ → Admitted → Bool → AttestationQueue → AttestationQueue
schedule_attestation now a success q =
    AttestationQueue.enqueue now
      (record {
        payment_tx_hash = a.payload.transaction;
        service_id = a.service.id;
        nonce = a.payload.nonce;
        payer = a.verdict.from;
        success = success;
        enqueued_at = now;
        attempts = none;
        last_error = none;
      })
      q

-- Step 5.
unfoldable pub deliver : ℕ → Admitted → ProxyOutcome → Gateway → Response × Gateway
unfolding schedule_attestation is_upstream_success
deliver now a (response status content_type body) g = (
  served a.payload.transaction a.verdict.from (response status content_type body),
  (if is_self_payment a.verdict.from a.service then g else record g {
    attestations =
        schedule_attestation now a (is_upstream_success (response status content_type body))
          g.attestations;
  }),
)
deliver now a (failure status error) g = (
  served a.payload.transaction a.verdict.from (failure status error),
  record g { invoices = InvoiceStore.release a.payload.nonce g.invoices },
)

-- Steps 3c to 5 of a request that passed the checks.
abbrev pub after_burn :
    World
    → Config
    → ℕ
    → Text
    → Request
    → Admitted
    → Gateway
    → Bool × InvoiceStore
    → Response × Gateway
after_burn w c now fresh req a g (false, invoices) =
    respond_402_fresh w c now fresh req a.service invoice_used (record g { invoices = invoices })
after_burn w c now fresh req a g (true, invoices) =
    deliver now a (w.proxy_to_upstream a.upstream_url req) (record g { invoices = invoices })

unfoldable pub redeem :
    World → Config → ℕ → Text → Request → Admitted → Gateway → Response × Gateway
redeem w c now fresh req a g =
    after_burn w c now fresh req a g (InvoiceStore.mark_used a.payload.nonce g.invoices)

unfoldable pub decide :
    World → Config → ℕ → Text → Request → Decision Admitted → Gateway → Response × Gateway
unfolding redeem refuse
decide w c now fresh req (go a) g = redeem w c now fresh req a g
decide w c now fresh req (stop r) g = refuse w c now fresh req r g

-- What is done with the answer of the service cache.
unfoldable pub with_service :
    World
    → Config
    → ℕ
    → Text
    → Request
    → ℕ
    → Result (Option ServiceRecord)
    → Gateway
    → Response × Gateway
unfolding decide
with_service w c now fresh req id (err e) g = (crashed e, g)
with_service w c now fresh req id (ok none) g = (json_error 404 service_not_found, g)
with_service w c now fresh req id (ok (some service)) g =
    decide w c now fresh req (admit w c req g id service) g

unfoldable pub handle : World → Config → ℕ → Text → Request → Gateway → Response × Gateway
unfolding with_service
handle w c now fresh req g = elim (parse_service_id req.id) [
  | none ↦ (json_error 404 service_not_found, g)
  | some id ↦
      let looked = ServiceCache.get w.chain.get_service now now id g.services in
      with_service w c now fresh req id looked.0 (record g { services = looked.1 })
]
