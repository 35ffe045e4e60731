-- ===== src/Client/Proofs.antt =====
-- How often and when a buyer presents a proof (packages/client/src/index.ts).
use g_gate.Prelude.{
  ℕ, zero, suc, ◌+◌, ◌≤◌, ◌≡◌, ◌⊎◌, refl, inl, inr, Bool, true, false, not, Option, none, some,
  List, [], ◌∷◌, length, arith, ◌==◌, if◌then◌else◌, Bool-cases,
}
use g_gate.Prelude.Text.{Text, codes, text_beq}
use g_gate.Shared.Errors.{Result, ok, err, is_ok, fail, Code}
use g_gate.Shared.Json.{Json}
use g_gate.Shared.X402.{encode_x_payment}
use g_gate.Client.Invoice.{PaymentRequirements, ClientOptions, bad_invoice, vet_invoice}
use g_gate.Client.Fetch.{
  FetchedBody, PayAndFetchResult, paid_result, Server, Outcome, guard_url, transfer_of, sign_proof,
  payment_header, present, after_signing, after_transfer, pay, after_first, after_guard, fetch_paid,
}

-- Every header of a list is this one.
abbrev pub AllAre : Json → List Json → Type 0
AllAre header [] = Unit {0}
AllAre header (h ∷ hs) = (h ≡ header) × AllAre header hs

abbrev IsShort : ℕ → Json → List Json → Type 0
IsShort n header hs = (length hs ≤ n) × AllAre header hs

IsShort-one : (n : ℕ) (header : Json) → IsShort (n + 1) header (header ∷ [])
IsShort-one n header = (omega arith, (refl, tt))

abbrev headers : Result PayAndFetchResult × List Json → List Json
headers p = p.1

-- The loop of proofs.
present-IsShort :
    (server : Server) (reqs : PaymentRequirements) (tx : Text) (header : Json) (left n : ℕ)
    → IsShort (left + 1) header (present server reqs tx header left n).1
unfolding present
present-IsShort server reqs tx header zero n = answered (server.proof n header)
  where
    answered :
        (a : Result FetchedBody)
        → IsShort 1 header (
            headers (elim a [
              | err e ↦ (Result.err e, header ∷ [])
              | ok b ↦ (ok (paid_result reqs tx b), header ∷ [])
            ]))
    answered (err e) = IsShort-one 0 header
    answered (ok b) = IsShort-one 0 header
present-IsShort server reqs tx header (suc left) n =
    answered (present server reqs tx header left (n + 1))
      (present-IsShort server reqs tx header left (n + 1)) (server.proof n header)
  where
    answered :
        (rest : Result PayAndFetchResult × List Json)
        → IsShort (left + 1) header rest.1
        → (a : Result FetchedBody)
        → IsShort (suc left + 1) header (
            headers (elim a [
              | err e ↦ (Result.err e, header ∷ [])
              | ok b ↦
                  if b.status == 402
                  then (elim b.retry_after_ms [
                    | none ↦ (ok (paid_result reqs tx b), header ∷ [])
                    | some wait ↦ (rest.0, header ∷ rest.1)
                  ])
                  else (ok (paid_result reqs tx b), header ∷ [])
            ]))
    answered rest h (err e) = IsShort-one (suc left) header
    answered rest (short, same) (ok b) = asked_again (b.status == 402) b.retry_after_ms
      where
        asked_again :
            (unpaid : Bool) (retry : Option ℕ)
            → IsShort (suc left + 1) header (
                headers (
                  if unpaid
                  then (elim retry [
                    | none ↦ (Result.ok (paid_result reqs tx b), header ∷ [])
                    | some wait ↦ (rest.0, header ∷ rest.1)
                  ])
                  else (ok (paid_result reqs tx b), header ∷ [])))
        asked_again false retry = IsShort-one (suc left) header
        asked_again true none = IsShort-one (suc left) header
        asked_again true (some wait) = (omega (arith, short), (refl, same))

-- The proof that a buyer shows: the payment on the caller's network of an invoice and the one
-- transfer for it that was asked of the chain, signed by the chain client unless that network is the
-- mock one.
pub record IsProof (opts : ClientOptions) (server : Server) (o : Outcome) : Type 0 where
  pub invoice : PaymentRequirements
  pub transaction : Text
  pub signature : Option Text
  pub transferred : server.transfer (transfer_of invoice) ≡ ok transaction
  pub once : o.sent ≡ transfer_of invoice ∷ []
  pub signed :
      ((text_beq opts.network (codes "mock") ≡ true) × (signature ≡ none))
      ⊎ ((opts.can_sign ≡ true)
          × ((s : Text) × (server.sign invoice transaction ≡ ok s) × (signature ≡ some s)))
  pub shown :
      AllAre
        (encode_x_payment (record {
          network = opts.network;
          payload = record {
            transaction = transaction;
            nonce = invoice.nonce;
            from = none;
            signature = signature;
          };
        }))
        o.presented

abbrev Shows : ClientOptions → Server → Outcome → Type 0
Shows opts server o = (length o.presented ≤ 6) × ((o.presented ≡ []) ⊎ IsProof opts server o)

sign_proof_sound :
    (opts : ClientOptions) (server : Server) (reqs : PaymentRequirements) (tx : Text)
    (signature : Option Text)
    → sign_proof opts server reqs tx ≡ ok signature
    → ((text_beq opts.network (codes "mock") ≡ true) × (signature ≡ none))
      ⊎ ((opts.can_sign ≡ true)
          × ((s : Text) × (server.sign reqs tx ≡ ok s) × (signature ≡ some s)))
unfolding sign_proof
sign_proof_sound opts server reqs tx signature h =
    split (text_beq opts.network (codes "mock")) refl opts.can_sign refl (server.sign reqs tx) refl
      h
  where
    split :
        (mock : Bool)
        → text_beq opts.network (codes "mock") ≡ mock
        → (able : Bool) → opts.can_sign ≡ able
        → (s : Result Text) → server.sign reqs tx ≡ s
        → (if mock
            then ok none
            else if not able
            then fail Code.signer_unsupported 500
            else (elim s [ err e ↦ err e | ok signature ↦ ok (some signature) ]))
          ≡ Result.ok signature
        → ((text_beq opts.network (codes "mock") ≡ true) × (signature ≡ none))
          ⊎ ((opts.can_sign ≡ true)
              × ((s : Text) × (server.sign reqs tx ≡ ok s) × (signature ≡ some s)))
    split true m able a s e h = inl (m, cc)
    split false m false a s e h = cc
    split false m true a (err thrown) e h = cc
    split false m true a (ok given) e h = inr (a, (given, e, cc))

after_transfer-Shows :
    (opts : ClientOptions) (server : Server) (reqs : PaymentRequirements) (t : Result Text)
    → server.transfer (transfer_of reqs) ≡ t
    → Shows opts server (after_transfer opts server reqs t)
unfolding after_transfer after_signing payment_header
after_transfer-Shows opts server reqs (err e) sent = (omega arith, inl refl)
after_transfer-Shows opts server reqs (ok tx) sent = signed (sign_proof opts server reqs tx) refl
  where
    signed :
        (s : Result (Option Text))
        → sign_proof opts server reqs tx ≡ s
        → Shows opts server (after_signing opts server reqs tx s)
    signed (err e) h = (omega arith, inl refl)
    signed (ok signature) h =
        let (short, same) =
          present-IsShort server reqs tx (payment_header opts reqs tx signature) 5 0 in
        (
          short,
          inr (record {
            invoice = reqs;
            transaction = tx;
            signature = signature;
            transferred = sent;
            once = refl;
            signed = sign_proof_sound opts server reqs tx signature h;
            shown = same;
          }),
        )

after_first-Shows :
    (opts : ClientOptions) (server : Server) (a : Result FetchedBody)
    → Shows opts server (after_first opts server a)
unfolding after_first pay
after_first-Shows opts server (err e) = (omega arith, inl refl)
after_first-Shows opts server (ok b) = elim (Bool-cases (b.status == 402)) [
  | inr n ↦ rw (n, after_first) (omega arith, inl refl)
  | inl y ↦
      rw (y, after_first)
        (paid (if b.is_json then vet_invoice opts server.now b.body else bad_invoice))
]
  where
    paid : (v : Result PaymentRequirements) → Shows opts server (pay opts server v)
    paid (err e) = (omega arith, inl refl)
    paid (ok reqs) = after_transfer-Shows opts server reqs (server.transfer (transfer_of reqs)) refl

-- At most six requests carry a proof. If there is one, then each of them carries the same: the payment
-- on the caller's network of the invoice and of the one transfer for it that was asked of the chain,
-- with the signature that the chain client gave for these, or, on the mock network, with none.
pub fetch_paid-presented :
    (opts : ClientOptions) (server : Server) (url : Text)
    → (length (fetch_paid opts server url).presented ≤ 6)
      × (((fetch_paid opts server url).presented ≡ [])
          ⊎ IsProof opts server (fetch_paid opts server url))
unfolding fetch_paid after_guard
fetch_paid-presented opts server url = guarded (guard_url opts server url)
  where
    guarded : (g : Result (Unit {0})) → Shows opts server (after_guard opts server url g)
    guarded (err e) = (omega arith, inl refl)
    guarded (ok u) = after_first-Shows opts server (server.first url)

-- Off the mock network, with a chain client that cannot sign, a call asks for no transfer or it
-- fails: no such call that asked for a transfer gives a result.
pub fetch_paid-unsigned :
    (opts : ClientOptions) (server : Server) (url : Text)
    → text_beq opts.network (codes "mock") ≡ false
    → opts.can_sign ≡ false
    → ((fetch_paid opts server url).sent ≡ []) ⊎ (is_ok (fetch_paid opts server url).result ≡ false)
unfolding fetch_paid after_guard after_first pay after_transfer after_signing
fetch_paid-unsigned opts server url live unable = guarded (guard_url opts server url)
  where
    signed :
        (reqs : PaymentRequirements) (tx : Text) (s : Result (Option Text))
        → sign_proof opts server reqs tx ≡ s
        → is_ok (after_signing opts server reqs tx s).result ≡ false
    signed reqs tx (err e) h = refl
    signed reqs tx (ok signature) h =
        let may = sign_proof_sound opts server reqs tx signature h in
        absurd (ground (arith, may, live, unable))

    sent_to :
        (reqs : PaymentRequirements) (t : Result Text)
        → is_ok (after_transfer opts server reqs t).result ≡ false
    sent_to reqs (err e) = refl
    sent_to reqs (ok tx) = signed reqs tx (sign_proof opts server reqs tx) refl

    paid :
        (v : Result PaymentRequirements)
        → ((pay opts server v).sent ≡ []) ⊎ (is_ok (pay opts server v).result ≡ false)
    paid (err e) = inl refl
    paid (ok reqs) = inr (sent_to reqs (server.transfer (transfer_of reqs)))

    first_answer :
        (a : Result FetchedBody)
        → ((after_first opts server a).sent ≡ [])
          ⊎ (is_ok (after_first opts server a).result ≡ false)
    first_answer (err e) = inl refl
    first_answer (ok b) = elim (Bool-cases (b.status == 402)) [
      | inr n ↦ inl (rw (n, after_first) refl)
      | inl y ↦
          rw (y, after_first)
            (paid (if b.is_json then vet_invoice opts server.now b.body else bad_invoice))
    ]

    guarded :
        (g : Result (Unit {0}))
        → ((after_guard opts server url g).sent ≡ [])
          ⊎ (is_ok (after_guard opts server url g).result ≡ false)
    guarded (err e) = inl refl
    guarded (ok u) = first_answer (server.first url)
