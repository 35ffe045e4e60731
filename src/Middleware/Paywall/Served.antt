-- ===== src/Middleware/Paywall/Served.antt =====
-- Who is served (packages/middleware/src/app.ts).
use g_gate.Prelude.{
  ℕ, ◌≡◌, ◌≢◌, refl, sym, ◌∙◌, inl, inr, Bool, true, false, Option, none, some, arith, Option-cases,
  nat_eq,
}
use g_gate.Prelude.Text.{Text, text_eq}
use g_gate.Shared.Errors.{Result, ok, err}
use g_gate.Shared.Types.{ServiceRecord}
use g_gate.Middleware.InvoiceStore.{InvoiceStore, mark_used}
use g_gate.Middleware.ServiceCache
use g_gate.Middleware.Paywall.{
  Config, Request, World, Gateway, Response, served, service_not_found, Refusal, answer, challenge,
  hold, throw, Decision, go, stop, ProxyOutcome, response, failure, parse_service_id,
}
use g_gate.Middleware.Paywall.Admission.{Admitted, admit}
use g_gate.Middleware.Paywall.Admitting.{IsAdmitted, admit_sound}
use g_gate.Middleware.Paywall.Handler.{
  respond_402_fresh, refuse, deliver, after_burn, redeem, decide, with_service, handle,
}

-- A request that passed every check, and whose proxied outcome is `o`.
pub record IsServed (w : World) (c : Config) (now : ℕ) (req : Request) (g : Gateway)
    (tx payer : Text) (o : ProxyOutcome) : Type 0 where
  pub id : ℕ
  pub service : ServiceRecord
  pub admitted : Admitted
  pub parsed : parse_service_id req.id ≡ some id
  pub registered :
      (ServiceCache.get w.chain.get_service now now id g.services).0 ≡ ok (some service)
  pub checked : IsAdmitted w c req g.upstreams g.invoices id service admitted
  pub transaction : tx ≡ admitted.payload.transaction
  pub paid_by : payer ≡ admitted.verdict.from
  pub proxied : o ≡ w.proxy_to_upstream admitted.upstream_url req

pub deliver-answer :
    (now : ℕ) (a : Admitted) (o : ProxyOutcome) (g : Gateway)
    → (deliver now a o g).0 ≡ served a.payload.transaction a.verdict.from o
unfolding deliver
deliver-answer now a (response status t body) g = refl
deliver-answer now a (failure status error) g = refl

served_inj :
    (t t' p p' : Text) (o o' : ProxyOutcome)
    → Response.served t p o ≡ served t' p' o'
    → (t ≡ t') × (p ≡ p') × (o ≡ o')
served_inj t t' p p' o o' h = (cc, cc, cc)

after_burn-served :
    (w : World) (c : Config) (now : ℕ) (fresh : Text) (req : Request) (a : Admitted) (g : Gateway)
    (burnt : Bool × InvoiceStore) (tx payer : Text) (o : ProxyOutcome)
    → (after_burn w c now fresh req a g burnt).0 ≡ served tx payer o
    → (tx ≡ a.payload.transaction)
      × (payer ≡ a.verdict.from)
      × (o ≡ w.proxy_to_upstream a.upstream_url req)
unfolding respond_402_fresh
after_burn-served w c now fresh req a g (false, s') tx payer o h = absurd (ground arith)
after_burn-served w c now fresh req a g (true, s') tx payer o h =
    served_inj tx a.payload.transaction payer a.verdict.from o
      (w.proxy_to_upstream a.upstream_url req)
      (sym h
        ∙ deliver-answer now a (w.proxy_to_upstream a.upstream_url req)
            (record g { invoices = s' }))

refuse-served :
    (w : World) (c : Config) (now : ℕ) (fresh : Text) (req : Request) (r : Refusal) (g : Gateway)
    (tx payer : Text) (o : ProxyOutcome)
    → (refuse w c now fresh req r g).0 ≢ served tx payer o
unfolding refuse
refuse-served w c now fresh req (answer status tag) g tx payer o h = cc
refuse-served w c now fresh req (challenge service tag) g tx payer o h = cc
refuse-served w c now fresh req (hold service invoice nonce) g tx payer o h = cc
refuse-served w c now fresh req (throw e) g tx payer o h = cc

decide-served :
    (w : World) (c : Config) (now : ℕ) (fresh : Text) (req : Request) (d : Decision Admitted)
    (g : Gateway) (tx payer : Text) (o : ProxyOutcome)
    → (decide w c now fresh req d g).0 ≡ served tx payer o
    → (a : Admitted) × (d ≡ go a)
      × (tx ≡ a.payload.transaction)
      × (payer ≡ a.verdict.from)
      × (o ≡ w.proxy_to_upstream a.upstream_url req)
unfolding decide redeem
decide-served w c now fresh req (go a) g tx payer o h =
    let (t, p, out) =
      after_burn-served w c now fresh req a g (mark_used a.payload.nonce g.invoices) tx payer o h in
    (a, refl, t, p, out)
decide-served w c now fresh req (stop r) g tx payer o h =
    absurd (refuse-served w c now fresh req r g tx payer o h)

with_service-served :
    (w : World) (c : Config) (now : ℕ) (fresh : Text) (req : Request) (id : ℕ)
    (found : Result (Option ServiceRecord)) (g : Gateway) (tx payer : Text) (o : ProxyOutcome)
    → (with_service w c now fresh req id found g).0 ≡ served tx payer o
    → (service : ServiceRecord) × (a : Admitted) × (found ≡ ok (some service))
      × IsAdmitted w c req g.upstreams g.invoices id service a
      × (tx ≡ a.payload.transaction)
      × (payer ≡ a.verdict.from)
      × (o ≡ w.proxy_to_upstream a.upstream_url req)
unfolding with_service
with_service-served w c now fresh req id (err e) g tx payer o h = absurd (ground arith)
with_service-served w c now fresh req id (ok none) g tx payer o h = absurd (ground arith)
with_service-served w c now fresh req id (ok (some service)) g tx payer o h =
    let (a, e, t, p, out) =
      decide-served w c now fresh req (admit w c req g id service) g tx payer o h in
    (service, a, refl, admit_sound w c req g id service a e, t, p, out)

-- If a request is answered with the outcome of the upstream, it passed every check: the service of
-- its path is registered, active and mapped; it has no body but a JSON one; in live mode the
-- upstream resolves to public addresses only; the payment that its header decodes to names the
-- gateway's network; the invoice of that payment's nonce was held for the service and unused; the
-- chain verifies the transfer, which is no later than the invoice's end; and, unless the gateway
-- runs on the mock network, the payer that the chain reports signed the proof. The transaction and
-- the payer in the answer are the payment's and the chain's, the outcome is the upstream's.
pub handle-IsServed :
    (w : World) (c : Config) (now : ℕ) (fresh : Text) (req : Request) (g : Gateway)
    (tx payer : Text) (o : ProxyOutcome)
    → (handle w c now fresh req g).0 ≡ served tx payer o
    → IsServed w c now req g tx payer o
unfolding handle
handle-IsServed w c now fresh req g tx payer o h = elim (Option-cases (parse_service_id req.id)) [
  | inl e ↦
      let bad : Response.json_error 404 service_not_found ≡ served tx payer o =
        rw (e, handle) at h in
      cc
  | inr (id, e) ↦
      let looked = ServiceCache.get w.chain.get_service now now id g.services in
      let (service, a, found, good, t, p, out) =
        with_service-served w c now fresh req id looked.0 (record g { services = looked.1 }) tx
          payer o (rw (e, handle) at h) in
      record {
        id = id;
        service = service;
        admitted = a;
        parsed = e;
        registered = found;
        checked = good;
        transaction = t;
        paid_by = p;
        proxied = out;
      }
]
