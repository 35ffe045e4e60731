-- ===== src/Middleware/Paywall/Attesting.antt =====
-- What is queued for attestation (packages/middleware/src/app.ts).
use g_gate.Prelude.{
  ℕ, ◌≡◌, refl, sym, subst, inl, inr, Bool, false, ◌&&◌, ◌||◌, Option, none, leb, if◌then◌else◌,
  Bool-cases,
}
use g_gate.Prelude.Text.{Text}
use g_gate.Shared.Types.{ServiceRecord}
use g_gate.Chain.Address.{same_address}
use g_gate.Middleware.InvoiceStore.{InvoiceStore}
use g_gate.Middleware.AttestationQueue
use g_gate.Middleware.AttestationQueue.{AttestationQueue, PendingAttestation}
use g_gate.Middleware.ServiceCache.{ServiceCache}
use g_gate.Middleware.Paywall.{
  Config, Request, World, Gateway, Response, json_error, payment_required, served, crashed,
  ProxyOutcome, response, failure, is_self_payment, is_upstream_success,
}
use g_gate.Middleware.Paywall.Handler.{schedule_attestation, deliver, handle}
use g_gate.Middleware.Paywall.Admission.{Admitted}
use g_gate.Middleware.Paywall.Served.{IsServed}
use g_gate.Middleware.Paywall.Ending.{is_served, handle-ending}

-- The entry of a served call.
abbrev pub entry_of : ℕ → Text → Text → ℕ → Text → ℕ → PendingAttestation
entry_of now tx nonce service_id payer status = record {
  payment_tx_hash = tx;
  service_id = service_id;
  nonce = nonce;
  payer = payer;
  success = leb 200 status && leb status 299;
  enqueued_at = now;
  attempts = none;
  last_error = none;
}

-- The payer is the service's owner, payout account or attestor.
abbrev pub pays_itself : Text → ServiceRecord → Bool
pays_itself payer service =
    same_address payer service.owner
    || same_address payer service.payment_target
    || same_address payer service.attestor

-- The attestation queue after an answer. The call says which service the request is for and which
-- payment it carries.
abbrev pub Recorded : World → Config → ℕ → Request → Gateway → Response → AttestationQueue → Type 0
Recorded w c now req g (served tx payer (response status t body)) after =
    (call : IsServed w c now req g tx payer (response status t body)) × (after ≡ (
      if pays_itself payer call.service
      then g.attestations
      else AttestationQueue.enqueue now
          (entry_of now tx call.admitted.payload.nonce call.service.id payer status)
          g.attestations))
Recorded w c now req g (served tx payer (failure status error)) after = after ≡ g.attestations
Recorded w c now req g _ after = after ≡ g.attestations

unserved-Recorded :
    (w : World) (c : Config) (now : ℕ) (req : Request) (g : Gateway) (r : Response)
    (after : AttestationQueue)
    → is_served r ≡ false
    → after ≡ g.attestations
    → Recorded w c now req g r after
unserved-Recorded w c now req g (json_error status tag) after u h = h
unserved-Recorded w c now req g (payment_required tag reqs retry) after u h = h
unserved-Recorded w c now req g (served tx payer o) after u h = cc
unserved-Recorded w c now req g (crashed e) after u h = h

scheduled :
    (now : ℕ) (a : Admitted) (service : ServiceRecord) (tx payer : Text) (status : ℕ)
    (t : Option Text) (body : Text) (g : Gateway)
    → tx ≡ a.payload.transaction
    → payer ≡ a.verdict.from
    → a.service ≡ service
    → (deliver now a (response status t body) g).1.attestations ≡ (
        if pays_itself payer service
        then g.attestations
        else AttestationQueue.enqueue now
            (entry_of now tx a.payload.nonce service.id payer status)
            g.attestations)
unfolding deliver schedule_attestation is_self_payment is_upstream_success
scheduled now a service tx payer status t body g e1 e2 e3 =
    rw (e1, e2, ← e3)
      (elim (Bool-cases (pays_itself a.verdict.from a.service)) [
        | inl y ↦ rw y refl
        | inr n ↦ rw n refl
      ])

deliver-Recorded :
    (w : World) (c : Config) (now : ℕ) (req : Request) (g : Gateway) (tx payer : Text)
    (o : ProxyOutcome) (call : IsServed w c now req g tx payer o) (services : ServiceCache)
    (s : InvoiceStore)
    → Recorded w c now req g
        (served tx payer o)
        (deliver now call.admitted o
          (record g { services = services; invoices = s })).1.attestations
unfolding deliver
deliver-Recorded w c now req g tx payer (failure status error) call services s = refl
deliver-Recorded w c now req g tx payer (response status t body) call services s = (
  call,
  scheduled now call.admitted call.service tx payer status t body
      (record g { services = services; invoices = s }) call.transaction call.paid_by
      call.checked.same_service,
)

-- The attestation queue changes only when the answer is a response of the upstream and the payer is
-- none of the owner, the payout account and the attestor of the service that the request is for.
-- Then exactly one entry is added: that of the request's transaction and nonce, this service and the
-- payer whom the chain reports, successful exactly for the statuses 200 to 299.
pub handle-Attested :
    (w : World) (c : Config) (now : ℕ) (fresh : Text) (req : Request) (g : Gateway)
    → Recorded w c now req g
        (handle w c now fresh req g).0
        (handle w c now fresh req g).1.attestations
handle-Attested w c now fresh req g = elim (handle-ending w c now fresh req g) [
  | inl r ↦
      subst (λ a. Recorded w c now req g a (handle w c now fresh req g).1.attestations)
        (sym r.answered)
        (subst
          (λ (x : Gateway).
            Recorded w c now req g (served r.transaction r.payer r.outcome) x.attestations)
          (sym r.delivered)
          (deliver-Recorded w c now req g r.transaction r.payer r.outcome r.call r.services
            r.invoices))
  | inr u ↦ unserved-Recorded w c now req g _ _ u.unserved u.queue
]
