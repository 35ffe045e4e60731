-- ===== src/Middleware/Paywall/Consuming.antt =====
-- What a request does to the stored invoices (packages/middleware/src/app.ts).
use g_gate.Prelude.{ℕ, ◌≡◌, ◌≢◌, sym, ap, subst, ◌∙◌, inl, inr, true, false, if◌then◌else◌}
use g_gate.Prelude.Text.{Text, text_beq}
use mathlib.Core.Option
use g_gate.Middleware.InvoiceStore
use g_gate.Middleware.InvoiceStore.{InvoiceStore, set_used, mark_used}
use g_gate.Middleware.ServiceCache.{ServiceCache}
use g_gate.Middleware.Paywall.{
  Config, Request, World, Gateway, Response, json_error, payment_required, served, crashed,
  ProxyOutcome, response, failure,
}
use g_gate.Middleware.Paywall.Handler.{deliver, handle}
use g_gate.Middleware.Paywall.Frame.{
  deliver-invoices, get-marked, get-release_marked, get-put_other,
}
use g_gate.Middleware.Paywall.Served.{IsServed}
use g_gate.Middleware.Paywall.Ending.{is_served, handle-ending}

-- What is stored under `k` after an answer: as before, but that an answer with the upstream's
-- response has spent the invoice of the payment in the request.
abbrev pub Framed : World → Config → ℕ → Request → Gateway → Text → Response → InvoiceStore → Type 0
Framed w c now req g k (served tx payer (response status t body)) after =
    (call : IsServed w c now req g tx payer (response status t body)) × (InvoiceStore.get k after
      ≡ (if text_beq call.admitted.payload.nonce k
          then Option.map (set_used true) (InvoiceStore.get k g.invoices)
          else InvoiceStore.get k g.invoices))
Framed w c now req g k (served tx payer (failure status error)) after =
    InvoiceStore.get k after ≡ InvoiceStore.get k g.invoices
Framed w c now req g k _ after = InvoiceStore.get k after ≡ InvoiceStore.get k g.invoices

unserved-Framed :
    (w : World) (c : Config) (now : ℕ) (req : Request) (g : Gateway) (k : Text) (r : Response)
    (after : InvoiceStore)
    → is_served r ≡ false
    → InvoiceStore.get k after ≡ InvoiceStore.get k g.invoices
    → Framed w c now req g k r after
unserved-Framed w c now req g k (json_error status tag) after u h = h
unserved-Framed w c now req g k (payment_required tag reqs retry) after u h = h
unserved-Framed w c now req g k (served tx payer o) after u h = cc
unserved-Framed w c now req g k (crashed e) after u h = h

deliver-Framed :
    (w : World) (c : Config) (now : ℕ) (req : Request) (g : Gateway) (k tx payer : Text)
    (o : ProxyOutcome) (call : IsServed w c now req g tx payer o) (services : ServiceCache)
    (s : InvoiceStore)
    → mark_used call.admitted.payload.nonce g.invoices ≡ (true, s)
    → Framed w c now req g k
        (served tx payer o)
        (deliver now call.admitted o (record g { services = services; invoices = s })).1.invoices
unfolding deliver
deliver-Framed w c now req g k tx payer (failure status error) call services s h =
    get-release_marked k call.admitted.payload.nonce g.invoices s h
deliver-Framed w c now req g k tx payer (response status t body) call services s h = (
  call,
  ap (InvoiceStore.get k) (
        deliver-invoices now call.admitted status t body
          (record g { services = services; invoices = s }))
      ∙ get-marked k call.admitted.payload.nonce g.invoices s h,
)

-- An answer with the upstream's response has marked as used the invoice that was held under the
-- nonce of the payment in the request, and left all others but the fresh one of a challenge as they
-- were. Every other answer, that of a failed upstream call included, leaves all invoices but the
-- fresh one as they were.
pub handle-Framed :
    (w : World) (c : Config) (now : ℕ) (fresh : Text) (req : Request) (g : Gateway) (k : Text)
    → k ≢ fresh
    → Framed w c now req g k (handle w c now fresh req g).0 (handle w c now fresh req g).1.invoices
handle-Framed w c now fresh req g k other = elim (handle-ending w c now fresh req g) [
  | inl r ↦
      subst (λ a. Framed w c now req g k a (handle w c now fresh req g).1.invoices) (sym r.answered)
        (subst
          (λ (x : Gateway).
            Framed w c now req g k (served r.transaction r.payer r.outcome) x.invoices)
          (sym r.delivered)
          (deliver-Framed w c now req g k r.transaction r.payer r.outcome r.call r.services
            r.invoices r.burnt))
  | inr u ↦ unserved-Framed w c now req g k _ _ u.unserved (elim u.invoices [
    | inl (_, same) ↦ ap (InvoiceStore.get k) same
    | inr (inv, nonce, _, put) ↦
        ap (InvoiceStore.get k) put ∙ get-put_other k inv g.invoices (λ e. other (e ∙ nonce))
  ])
]
