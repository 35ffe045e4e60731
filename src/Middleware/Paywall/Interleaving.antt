-- ===== src/Middleware/Paywall/Interleaving.antt =====
-- A handler of `/svc/:id` is a sequence of the steps that may interleave
-- (packages/middleware/src/app.ts).
use g_gate.Prelude.{
  ℕ, ◌≡◌, refl, sym, subst, ◌∙◌, ap, inl, inr, Bool, true, false, ◌&&◌, List, [], ◌∷◌, ◌++◌, arith,
}
use g_gate.Prelude.Text.{Text, text_beq_iff}
use g_gate.Middleware.InvoiceStore.{InvoiceStore, mark_used}
use g_gate.Middleware.ServiceCache.{ServiceCache}
use g_gate.Middleware.Paywall.{
  Config, Request, World, Gateway, Response, json_error, payment_required, served, crashed,
  ProxyOutcome, response, failure,
}
use g_gate.Middleware.Paywall.Handler.{deliver, handle}
use g_gate.Middleware.Paywall.Frame.{deliver-invoices}
use g_gate.Middleware.Paywall.Served.{IsServed}
use g_gate.Middleware.Paywall.Ending.{is_served, issued_by, IsUnspent, handle-ending}
use g_gate.Middleware.Paywall.Inflight.{
  Traffic, TrafficStep, Run, start, then_step, issue, burn, finish, give_back, expire, remove_one,
}

-- A run without the timer.
abbrev pub is_handled : {t u : Traffic} → TrafficStep t u → Bool
is_handled (expire now t) = false
is_handled _ = true

abbrev pub all_handled : {t u : Traffic} → Run t u → Bool
all_handled (start t) = true
all_handled (then_step r s) = all_handled r && is_handled s

module _ (in_flight issued delivered : List Text) where
  -- The traffic at a store, with other calls in flight.
  abbrev pub at : InvoiceStore → Traffic
  at s = record { store = s; in_flight = in_flight; issued = issued; delivered = delivered }

  -- Steps of the handler alone from the store before to the store after, which leave the other calls
  -- in flight, issue and deliver the nonces that are listed, and nothing else.
  pub record IsPlayed (news sold : List Text) (before after : InvoiceStore) : Type 0 where
    pub traffic : Traffic
    pub steps : Run (at before) traffic
    pub own : all_handled steps ≡ true
    pub reached : traffic.store ≡ after
    pub others : traffic.in_flight ≡ in_flight
    pub issues : traffic.issued ≡ news ++ issued
    pub deliveries : traffic.delivered ≡ sold ++ delivered

  -- What the answer says of the steps: a response of the upstream delivers the nonce of the payment
  -- in the request, a fresh challenge issues its own nonce.
  abbrev pub Played : World → Config → ℕ → Request → Gateway → Response → InvoiceStore → Type 0
  Played w c now req g (served tx payer (response status t body)) after =
      (call : IsServed w c now req g tx payer (response status t body)) × IsPlayed []
        (call.admitted.payload.nonce ∷ []) g.invoices after
  Played w c now req g (served tx payer (failure status error)) after =
      IsPlayed [] [] g.invoices after
  Played w c now req g answer after = IsPlayed (issued_by answer) [] g.invoices after

  remove_one_head : (k : Text) (xs : List Text) → remove_one k (k ∷ xs) ≡ xs
  remove_one_head k xs = ground (arith, text_beq_iff k k)

  deliver-Played :
      (w : World) (c : Config) (now : ℕ) (req : Request) (g : Gateway) (tx payer : Text)
      (o : ProxyOutcome) (call : IsServed w c now req g tx payer o) (services : ServiceCache)
      (s : InvoiceStore)
      → mark_used call.admitted.payload.nonce g.invoices ≡ (true, s)
      → Played w c now req g
          (served tx payer o)
          (deliver now call.admitted o (record g { services = services; invoices = s })).1.invoices
  unfolding deliver
  deliver-Played w c now req g tx payer (failure status error) call services s h =
      let k = call.admitted.payload.nonce in
      let burnt = then_step (start (at g.invoices)) (burn k s (at g.invoices) h) in
      record {
        traffic = _;
        steps = then_step burnt (give_back k _ (inl refl));
        own = refl;
        reached = refl;
        others = remove_one_head k in_flight;
        issues = refl;
        deliveries = refl;
      }
  deliver-Played w c now req g tx payer (response status t body) call services s h =
      let k = call.admitted.payload.nonce in
      let burnt = then_step (start (at g.invoices)) (burn k s (at g.invoices) h) in
      (
        call,
        record {
          traffic = _;
          steps = then_step burnt (finish k _ (inl refl));
          own = refl;
          reached = sym (
              deliver-invoices now call.admitted status t body
                (record g { services = services; invoices = s }));
          others = remove_one_head k in_flight;
          issues = refl;
          deliveries = refl;
        },
      )

  unspent-IsPlayed :
      (fresh : Text) (g : Gateway) (out : Response × Gateway)
      → IsUnspent fresh g out
      → IsPlayed (issued_by out.0) [] g.invoices out.1.invoices
  unspent-IsPlayed fresh g out u = elim u.invoices [
    | inl (none_issued, same) ↦ record {
      traffic = at g.invoices;
      steps = start (at g.invoices);
      own = refl;
      reached = sym same;
      others = refl;
      issues = ap (λ xs. xs ++ issued) (sym none_issued);
      deliveries = refl;
    }
    | inr (inv, nonce, one_issued, put) ↦ record {
      traffic = _;
      steps = then_step (start (at g.invoices)) (issue inv (at g.invoices));
      own = refl;
      reached = sym put;
      others = refl;
      issues = ap (λ k. k ∷ issued) nonce ∙ ap (λ xs. xs ++ issued) (sym one_issued);
      deliveries = refl;
    }
  ]

  unserved-Played :
      (w : World) (c : Config) (now : ℕ) (req : Request) (g : Gateway) (r : Response)
      (after : InvoiceStore)
      → is_served r ≡ false
      → IsPlayed (issued_by r) [] g.invoices after
      → Played w c now req g r after
  unserved-Played w c now req g (json_error status tag) after u p = p
  unserved-Played w c now req g (payment_required tag reqs retry) after u p = p
  unserved-Played w c now req g (served tx payer o) after u p = cc
  unserved-Played w c now req g (crashed e) after u p = p

  -- Whatever other calls are in flight, what a handler does to the invoices is a run of the
  -- interleaving steps, without the timer's, which ends with the same calls in flight. It delivers the
  -- nonce of the payment in the request when the answer is the upstream's response, and else nothing;
  -- it issues the nonce of the answer when that is a fresh challenge, and else nothing.
  pub handle-IsPlayed :
      (w : World) (c : Config) (now : ℕ) (fresh : Text) (req : Request) (g : Gateway)
      → Played w c now req g (handle w c now fresh req g).0 (handle w c now fresh req g).1.invoices
  handle-IsPlayed w c now fresh req g = elim (handle-ending w c now fresh req g) [
    | inl r ↦
        subst (λ a. Played w c now req g a (handle w c now fresh req g).1.invoices) (sym r.answered)
          (subst
            (λ (x : Gateway).
              Played w c now req g (served r.transaction r.payer r.outcome) x.invoices)
            (sym r.delivered)
            (deliver-Played w c now req g r.transaction r.payer r.outcome r.call r.services
              r.invoices r.burnt))
    | inr u ↦
        unserved-Played w c now req g _ _ u.unserved
          (unspent-IsPlayed fresh g (handle w c now fresh req g) u)
  ]
