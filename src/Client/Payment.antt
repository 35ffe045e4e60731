-- ===== src/Client/Payment.antt =====
-- When and what a buyer pays (packages/client/src/index.ts).
use g_gate.Prelude.{
  ◌≡◌, ◌⊎◌, refl, true, inl, inr, Option, [], ◌∷◌, arith, ◌==◌, if◌then◌else◌, Bool-cases,
}
use g_gate.Prelude.Text.{Text}
use g_gate.Shared.Errors.{Result, ok, err, Code}
use g_gate.Client.Invoice.{PaymentRequirements, ClientOptions, bad_invoice, vet_invoice}
use g_gate.Client.Fetch.{
  FetchedBody, Server, Outcome, guard_url, transfer_of, sign_proof, after_signing, after_transfer,
  pay, after_first, after_guard, fetch_paid,
}
use g_gate.Client.Vetting.{IsVetted, vet_invoice_sound}

-- What a call of `fetchPaid` that asked for a transfer has asked for.
pub record IsOnePayment (opts : ClientOptions) (server : Server) (url : Text) (o : Outcome)
    : Type 0 where
  pub invoice : PaymentRequirements
  pub challenge : FetchedBody
  pub challenged : server.first url ≡ ok challenge
  pub status : challenge.status ≡ 402
  pub readable : challenge.is_json ≡ true
  pub vetted : IsVetted opts server.now challenge.body invoice
  pub once : o.sent ≡ transfer_of invoice ∷ []

after_transfer-sent :
    (opts : ClientOptions) (server : Server) (reqs : PaymentRequirements) (t : Result Text)
    → (after_transfer opts server reqs t).sent ≡ transfer_of reqs ∷ []
unfolding after_transfer after_signing
after_transfer-sent opts server reqs (err e) = refl
after_transfer-sent opts server reqs (ok tx) = signed (sign_proof opts server reqs tx)
  where
    signed :
        (s : Result (Option Text))
        → (after_signing opts server reqs tx s).sent ≡ transfer_of reqs ∷ []
    signed (err e) = refl
    signed (ok signature) = refl

pay-sent :
    (opts : ClientOptions) (server : Server) (v : Result PaymentRequirements)
    → ((pay opts server v).sent ≡ [])
      ⊎ ((reqs : PaymentRequirements) × (v ≡ ok reqs)
          × ((pay opts server v).sent ≡ transfer_of reqs ∷ []))
unfolding pay
pay-sent opts server (err e) = inl refl
pay-sent opts server (ok reqs) =
    inr (reqs, refl, after_transfer-sent opts server reqs (server.transfer (transfer_of reqs)))

-- `fetchPaid` asks the chain for no transfer, or for exactly one: then its first request was
-- answered with 402, and the transfer is that of an invoice that stands among the offers in the JSON
-- body of that answer, for the scheme and the caller's network, and that is in date, well formed, not
-- above the caller's price, and agrees with the payout account, service and router expected.
pub fetch_paid-IsOnePayment :
    (opts : ClientOptions) (server : Server) (url : Text)
    → ((fetch_paid opts server url).sent ≡ [])
      ⊎ IsOnePayment opts server url (fetch_paid opts server url)
unfolding fetch_paid after_guard after_first
fetch_paid-IsOnePayment opts server url = guarded (guard_url opts server url)
  where
    vetted :
        (b : FetchedBody) (reqs : PaymentRequirements)
        → (if b.is_json then vet_invoice opts server.now b.body else bad_invoice) ≡ ok reqs
        → (b.is_json ≡ true) × IsVetted opts server.now b.body reqs
    vetted b reqs h = elim (Bool-cases b.is_json) [
      | inl y ↦ (y, vet_invoice_sound opts server.now b.body reqs (rw y at h))
      | inr n ↦
          let bad : Result.err (record { code = Code.bad_invoice; http_status = 502 }) ≡ ok reqs =
            rw n at h in
          cc
    ]

    first_answer :
        (a : Result FetchedBody)
        → server.first url ≡ a
        → ((after_first opts server a).sent ≡ [])
          ⊎ IsOnePayment opts server url (after_first opts server a)
    first_answer (err e) h = inl refl
    first_answer (ok b) h = elim (Bool-cases (b.status == 402)) [
      | inr n ↦ inl (rw (n, after_first) refl)
      | inl y ↦
          let v = if b.is_json then vet_invoice opts server.now b.body else bad_invoice in
          elim (pay-sent opts server v) [
            | inl none_sent ↦ inl (rw (y, after_first) none_sent)
            | inr (reqs, good, one_sent) ↦ inr (record {
              invoice = reqs;
              challenge = b;
              challenged = h;
              status = ground (arith, y);
              readable = (vetted b reqs good).0;
              vetted = (vetted b reqs good).1;
              once = rw (y, after_first) one_sent;
            })
          ]
    ]

    guarded :
        (g : Result (Unit {0}))
        → ((after_guard opts server url g).sent ≡ [])
          ⊎ IsOnePayment opts server url (after_guard opts server url g)
    guarded (err e) = inl refl
    guarded (ok u) = first_answer (server.first url) refl
