-- ===== src/Middleware/Paywall/Ending.antt =====
-- How a call of `/svc/:id` ends (packages/middleware/src/app.ts): it redeems the invoice of its proof
-- and delivers, or it is answered before anything is spent.
use g_gate.Prelude.{
  ℕ, ◌≡◌, ◌⊎◌, refl, ap, ◌∙◌, inl, inr, subst, Bool, true, false, Option, none, some, List, [], ◌∷◌,
  Option-cases,
}
use g_gate.Prelude.Text.{Text}
use g_gate.Shared.Errors.{Result, ok, err}
use g_gate.Shared.Types.{ServiceRecord}
use g_gate.Middleware.InvoiceStore
use g_gate.Middleware.InvoiceStore.{InvoiceStore, StoredInvoice, mark_used}
use g_gate.Middleware.ServiceCache
use g_gate.Middleware.ServiceCache.{ServiceCache}
use g_gate.Middleware.Paywall.{
  Config, Request, World, Gateway, Response, payment_required, served, ErrorTag, invoice_used,
  Refusal, answer, challenge, hold, throw, Decision, go, stop, ProxyOutcome, parse_service_id,
}
use g_gate.Middleware.Paywall.Admission.{Admitted, admit}
use g_gate.Middleware.Paywall.Admitting.{IsAdmitted, admit_sound}
use g_gate.Middleware.Paywall.Handler.{
  build_requirements, respond_402_fresh, refuse, deliver, after_burn, redeem, decide, with_service,
  handle,
}
use g_gate.Middleware.Paywall.Frame.{mark_used_lost}
use g_gate.Middleware.Paywall.Served.{IsServed, deliver-answer}

abbrev pub is_served : Response → Bool
is_served (served tx payer o) = true
is_served _ = false

-- The nonces of the fresh challenges in an answer.
abbrev pub issued_by : Response → List Text
issued_by (payment_required tag reqs none) = reqs.nonce ∷ []
issued_by _ = []

-- The invoice of the proof was spent, and the call delivers the upstream's outcome.
pub record IsRedeemed (w : World) (c : Config) (now : ℕ) (req : Request) (g : Gateway)
    (out : Response × Gateway) : Type 0 where
  pub transaction : Text
  pub payer : Text
  pub outcome : ProxyOutcome
  pub call : IsServed w c now req g transaction payer outcome
  pub services : ServiceCache
  pub invoices : InvoiceStore
  pub burnt : mark_used call.admitted.payload.nonce g.invoices ≡ (true, invoices)
  pub answered : out.0 ≡ served transaction payer outcome
  pub delivered :
      out.1
      ≡ (deliver now call.admitted outcome
          (record g { services = services; invoices = invoices })).1

-- Nothing was spent: at most the invoice of a fresh challenge was added.
pub record IsUnspent (fresh : Text) (g : Gateway) (out : Response × Gateway) : Type 0 where
  pub unserved : is_served out.0 ≡ false
  pub queue : out.1.attestations ≡ g.attestations
  pub invoices :
      ((issued_by out.0 ≡ []) × (out.1.invoices ≡ g.invoices))
      ⊎ ((inv : StoredInvoice) × (inv.nonce ≡ fresh)
          × (issued_by out.0 ≡ fresh ∷ [])
          × (out.1.invoices ≡ InvoiceStore.put inv g.invoices))

-- Both, once the service was looked up.
abbrev IsWon :
    World → Config → ℕ → Request → ℕ → ServiceRecord → Gateway → Response × Gateway → Type 0
IsWon w c now req id service g out =
    (a : Admitted) × (s : InvoiceStore) × IsAdmitted w c req g.upstreams g.invoices id service a
    × (mark_used a.payload.nonce g.invoices ≡ (true, s))
    × (out ≡ deliver now a (w.proxy_to_upstream a.upstream_url req) (record g { invoices = s }))

respond-IsUnspent :
    (w : World) (c : Config) (now : ℕ) (fresh : Text) (req : Request) (service : ServiceRecord)
    (tag : ErrorTag) (g : Gateway)
    → IsUnspent fresh g (respond_402_fresh w c now fresh req service tag g)
unfolding respond_402_fresh build_requirements
respond-IsUnspent w c now fresh req service tag g = record {
  unserved = refl;
  queue = refl;
  invoices = inr (_, refl, refl, refl);
}

refuse-IsUnspent :
    (w : World) (c : Config) (now : ℕ) (fresh : Text) (req : Request) (r : Refusal) (g : Gateway)
    → IsUnspent fresh g (refuse w c now fresh req r g)
unfolding refuse
refuse-IsUnspent w c now fresh req (answer status tag) g = record {
  unserved = refl;
  queue = refl;
  invoices = inl (refl, refl);
}
refuse-IsUnspent w c now fresh req (challenge service tag) g =
    respond-IsUnspent w c now fresh req service tag g
refuse-IsUnspent w c now fresh req (hold service invoice nonce) g = record {
  unserved = refl;
  queue = refl;
  invoices = inl (refl, refl);
}
refuse-IsUnspent w c now fresh req (throw e) g = record {
  unserved = refl;
  queue = refl;
  invoices = inl (refl, refl);
}

decide-ending :
    (w : World) (c : Config) (now : ℕ) (fresh : Text) (req : Request) (id : ℕ)
    (service : ServiceRecord) (g : Gateway) (d : Decision Admitted)
    → admit w c req g id service ≡ d
    → IsWon w c now req id service g (decide w c now fresh req d g)
      ⊎ IsUnspent fresh g (decide w c now fresh req d g)
unfolding decide redeem
decide-ending w c now fresh req id service g (stop r) e =
    inr (refuse-IsUnspent w c now fresh req r g)
decide-ending w c now fresh req id service g (go a) e =
    raced (mark_used a.payload.nonce g.invoices) refl
  where
    raced :
        (burnt : Bool × InvoiceStore)
        → mark_used a.payload.nonce g.invoices ≡ burnt
        → IsWon w c now req id service g (after_burn w c now fresh req a g burnt)
          ⊎ IsUnspent fresh g (after_burn w c now fresh req a g burnt)
    raced (true, s) h = inl (a, s, admit_sound w c req g id service a e, h, refl)
    raced (false, s) h = inr (
        subst
          (λ b.
            IsUnspent fresh (record g { invoices = b })
              (respond_402_fresh w c now fresh req a.service invoice_used
                (record g { invoices = s })))
          (mark_used_lost a.payload.nonce g.invoices s h)
          (respond-IsUnspent w c now fresh req a.service invoice_used (record g { invoices = s })))

-- A call redeems the invoice of its proof and delivers, or it spends nothing.
pub handle-ending :
    (w : World) (c : Config) (now : ℕ) (fresh : Text) (req : Request) (g : Gateway)
    → IsRedeemed w c now req g (handle w c now fresh req g)
      ⊎ IsUnspent fresh g (handle w c now fresh req g)
unfolding handle with_service
handle-ending w c now fresh req g = elim (Option-cases (parse_service_id req.id)) [
  | inl e ↦
      rw (e, handle) (inr (record { unserved = refl; queue = refl; invoices = inl (refl, refl) }))
  | inr (id, e) ↦
      let looked = ServiceCache.get w.chain.get_service now now id g.services in
      rw (e, handle) (with_found id e looked.1 looked.0 refl)
]
  where
    with_found :
        (id : ℕ)
        → parse_service_id req.id ≡ some id
        → (services : ServiceCache) (found : Result (Option ServiceRecord))
        → (ServiceCache.get w.chain.get_service now now id g.services).0 ≡ found
        → IsRedeemed w c now req g
            (with_service w c now fresh req id found (record g { services = services }))
          ⊎ IsUnspent fresh g
              (with_service w c now fresh req id found (record g { services = services }))
    with_found id p services (err e) h =
        inr (record { unserved = refl; queue = refl; invoices = inl (refl, refl) })
    with_found id p services (ok none) h =
        inr (record { unserved = refl; queue = refl; invoices = inl (refl, refl) })
    with_found id p services (ok (some service)) h =
        elim (decide-ending w c now fresh req id service (record g { services = services })
          (admit w c req (record g { services = services }) id service) refl) [
            | inr u ↦ inr (record { unserved = u.unserved; queue = u.queue; invoices = u.invoices })
            | inl (a, s, good, burnt, out) ↦ inl (record {
              transaction = a.payload.transaction;
              payer = a.verdict.from;
              outcome = w.proxy_to_upstream a.upstream_url req;
              call = record {
                id = id;
                service = service;
                admitted = a;
                parsed = p;
                registered = h;
                checked = good;
                transaction = refl;
                paid_by = refl;
                proxied = refl;
              };
              services = services;
              invoices = s;
              burnt = burnt;
              answered = ap (λ p. p.0) out ∙ deliver-answer now a _ _;
              delivered = ap (λ p. p.1) out;
            })
          ]
