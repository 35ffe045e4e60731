-- ===== src/Client/Offer.antt =====
-- What an invoice that parsePaymentRequired gives is read off (packages/client/src/index.ts).
use g_gate.Prelude.{
  Empty, ℕ, ◌<◌, ◌≡◌, ◌⊎◌, refl, sym, ap, ◌∙◌, inl, inr, subst, true, Option, none, some, List, [],
  ◌∷◌, arith, Among, Bool-cases, Option-cases, Among-find_first, find_first,
}
use g_gate.Prelude.Text.{Text, codes, text_beq_iff}
use g_gate.Shared.Errors.{Result, ok, Code, >>=-eq-ok, require-eq-ok, is_ok, require}
use g_gate.Shared.Json.{
  Json, null, bool, num, other_num, str, arr, obj, Items, nil, cons, Fields, get_field,
}
use g_gate.Shared.Money.{parse_wei}
use g_gate.Shared.X402.{is_uint256, is_version, is_scheme, x402_scheme}
use g_gate.Client.Invoice.{
  PaymentRequirements, read_extra, as_record, read_accepts, pick_network, read_text, scheme_matches,
  add_if_scheme, is_text_eq, read_deadline, read_requirements, parse_payment_required,
  is_address_text,
}

-- An object among the entries of an array.
abbrev pub Offers : Fields → Items → Type 0
Offers fs nil = Empty
Offers fs (cons j js) = (j ≡ obj fs) ⊎ Offers fs js

-- The deadline of an invoice, as it stands in the body.
abbrev pub StatesDeadline : Option Json → ℕ → Type 0
StatesDeadline v n = (v ≡ some (num n)) ⊎ (v ≡ some (other_num (some n)))

-- The invoice is read off one of the offers in a body: an object of the scheme `exact-settled` for
-- the caller's network.
pub record IsOffered (network : Text) (raw : Json) (reqs : PaymentRequirements) : Type 0 where
  pub top : Fields
  pub entries : Items
  pub offer : Fields
  pub body : raw ≡ obj top
  pub accepts : get_field (codes "accepts") top ≡ some (arr entries)
  pub among : Offers offer entries
  pub scheme : get_field (codes "scheme") offer ≡ some (str x402_scheme)
  pub own_network : get_field (codes "network") offer ≡ some (str network)
  pub amount : get_field (codes "maxAmountRequired") offer ≡ some (str reqs.max_amount_required)
  pub payee : get_field (codes "payTo") offer ≡ some (str reqs.pay_to)
  pub router :
      get_field (codes "router") (read_extra (get_field (codes "extra") offer))
      ≡ some (str reqs.router)
  pub nonce :
      get_field (codes "nonce") (read_extra (get_field (codes "extra") offer))
      ≡ some (str reqs.nonce)
  pub deadline :
      StatesDeadline
        (get_field (codes "expiresAtMs") (read_extra (get_field (codes "extra") offer)))
        reqs.expires_at_ms
  pub service :
      reqs.service_id ≡ get_field (codes "serviceId") (read_extra (get_field (codes "extra") offer))

read_deadline_sound :
    (now : ℕ) (v : Option Json) (n : ℕ)
    → read_deadline now v ≡ ok n
    → (now < n) × StatesDeadline v n
read_deadline_sound now v n h = ground arith

read_text_sound : (v : Option Json) (s : Text) → read_text v ≡ ok s → v ≡ some (str s)
read_text_sound v s h = ground arith

pub ok_inj : (a b : PaymentRequirements) → Result.ok a ≡ ok b → a ≡ b
ok_inj a b h = cc

-- An offer and what is read off it.
pub record IsRead (now : ℕ) (offer : Fields) (reqs : PaymentRequirements) : Type 0 where
  pub amount : get_field (codes "maxAmountRequired") offer ≡ some (str reqs.max_amount_required)
  pub payee : get_field (codes "payTo") offer ≡ some (str reqs.pay_to)
  pub router :
      get_field (codes "router") (read_extra (get_field (codes "extra") offer))
      ≡ some (str reqs.router)
  pub nonce :
      get_field (codes "nonce") (read_extra (get_field (codes "extra") offer))
      ≡ some (str reqs.nonce)
  pub deadline :
      StatesDeadline
        (get_field (codes "expiresAtMs") (read_extra (get_field (codes "extra") offer)))
        reqs.expires_at_ms
  pub service :
      reqs.service_id ≡ get_field (codes "serviceId") (read_extra (get_field (codes "extra") offer))
  pub in_date : now < reqs.expires_at_ms
  pub priced : is_ok (parse_wei reqs.max_amount_required) ≡ true
  pub address : is_address_text reqs.pay_to ≡ true
  pub formed : is_uint256 reqs.nonce ≡ true

read_requirements_sound :
    (now : ℕ) (fs : Fields) (reqs : PaymentRequirements)
    → read_requirements now fs ≡ ok reqs
    → IsRead now fs reqs
unfolding read_requirements
read_requirements_sound now fs reqs h =
    let extra = read_extra (get_field (codes "extra") fs) in
    let (amount, e1, h1) = >>=-eq-ok (read_text (get_field (codes "maxAmountRequired") fs)) _ h in
    let (_, e2, h2) = >>=-eq-ok (require (is_ok (parse_wei amount)) Code.bad_invoice 502) _ h1 in
    let (pay_to, e3, h3) = >>=-eq-ok (read_text (get_field (codes "payTo") fs)) _ h2 in
    let (_, e4, h4) = >>=-eq-ok (require (is_address_text pay_to) Code.bad_invoice 502) _ h3 in
    let (router, e5, h5) = >>=-eq-ok (read_text (get_field (codes "router") extra)) _ h4 in
    let (_, e6, h6) = >>=-eq-ok (require (is_address_text router) Code.bad_invoice 502) _ h5 in
    let (nonce, e7, h7) = >>=-eq-ok (read_text (get_field (codes "nonce") extra)) _ h6 in
    let (_, e8, h8) = >>=-eq-ok (require (is_uint256 nonce) Code.bad_invoice 502) _ h7 in
    let (deadline, e9, h9) =
      >>=-eq-ok (read_deadline now (get_field (codes "expiresAtMs") extra)) _ h8 in
    let timely = read_deadline_sound now _ deadline e9 in
    subst (IsRead now fs) (ok_inj _ reqs h9) (record {
      amount = read_text_sound _ amount e1;
      payee = read_text_sound _ pay_to e3;
      router = read_text_sound _ router e5;
      nonce = read_text_sound _ nonce e7;
      deadline = timely.1;
      service = refl;
      in_date = timely.0;
      priced = require-eq-ok _ _ _ e2;
      address = require-eq-ok _ _ _ e4;
      formed = require-eq-ok _ _ _ e8;
    })

is_scheme_sound : (v : Option Json) → is_scheme v ≡ true → v ≡ some (str x402_scheme)
unfolding is_scheme
is_scheme_sound none h = absurd (ground (arith, h))
is_scheme_sound (some (str t)) h = ap (λ x. some (str x)) ((text_beq_iff t x402_scheme).0 h)
is_scheme_sound (some null) h = absurd (ground (arith, h))
is_scheme_sound (some (bool b)) h = absurd (ground (arith, h))
is_scheme_sound (some (num n)) h = absurd (ground (arith, h))
is_scheme_sound (some (other_num n)) h = absurd (ground (arith, h))
is_scheme_sound (some (arr js)) h = absurd (ground (arith, h))
is_scheme_sound (some (obj fs)) h = absurd (ground (arith, h))

is_text_eq_sound : (s : Text) (v : Option Json) → is_text_eq s v ≡ true → v ≡ some (str s)
is_text_eq_sound s none h = absurd (ground (arith, h))
is_text_eq_sound s (some (str t)) h = ap (λ x. some (str x)) ((text_beq_iff t s).0 h)
is_text_eq_sound s (some null) h = absurd (ground (arith, h))
is_text_eq_sound s (some (bool b)) h = absurd (ground (arith, h))
is_text_eq_sound s (some (num n)) h = absurd (ground (arith, h))
is_text_eq_sound s (some (other_num n)) h = absurd (ground (arith, h))
is_text_eq_sound s (some (arr js)) h = absurd (ground (arith, h))
is_text_eq_sound s (some (obj fs)) h = absurd (ground (arith, h))

scheme_matches_sound :
    (fs : Fields) (js : Items)
    → Among fs (scheme_matches js)
    → Offers fs js × (get_field (codes "scheme") fs ≡ some (str x402_scheme))
scheme_matches_sound fs nil m = elim m [ ]
scheme_matches_sound fs (cons j js) m = entry (scheme_matches_sound fs js) j m
  where
    Found : Json → Type 0
    Found j = Offers fs (cons j js) × (get_field (codes "scheme") fs ≡ some (str x402_scheme))

    entry :
        (Among fs (scheme_matches js)
          → Offers fs js × (get_field (codes "scheme") fs ≡ some (str x402_scheme)))
        → (j : Json) → Among fs (add_if_scheme j (scheme_matches js))
        → Found j
    entry rest null m = let (among, scheme) = rest m in (inr among, scheme)
    entry rest (bool b) m = let (among, scheme) = rest m in (inr among, scheme)
    entry rest (num n) m = let (among, scheme) = rest m in (inr among, scheme)
    entry rest (other_num n) m = let (among, scheme) = rest m in (inr among, scheme)
    entry rest (str t) m = let (among, scheme) = rest m in (inr among, scheme)
    entry rest (arr items) m = let (among, scheme) = rest m in (inr among, scheme)
    entry rest (obj gs) m = elim (Bool-cases (is_scheme (get_field (codes "scheme") gs))) [
      | inr n ↦ let (among, scheme) = rest (rw n at m) in (inr among, scheme)
      | inl y ↦ elim (chosen y m) [
        | inl same ↦ (
          inl (ap obj (sym same)),
          ap (λ x. get_field (codes "scheme") x) same ∙ is_scheme_sound _ y,
        )
        | inr m' ↦ let (among, scheme) = rest m' in (inr among, scheme)
      ]
    ]
      where
        chosen :
            is_scheme (get_field (codes "scheme") gs) ≡ true
            → Among fs (add_if_scheme (obj gs) (scheme_matches js))
            → (fs ≡ gs) ⊎ Among fs (scheme_matches js)
        chosen y m = rw y at m

pick_network_sound :
    (network : Text) (matches : List Fields) (offer : Fields)
    → pick_network network matches ≡ ok offer
    → Among offer matches × (get_field (codes "network") offer ≡ some (str network))
unfolding pick_network
pick_network_sound network [] offer h = cc
pick_network_sound network (fs ∷ rest) offer h =
    elim (Option-cases
      (find_first (λ a. is_text_eq network (get_field (codes "network") a)) (fs ∷ rest))) [
        | inl e ↦ absurd (ground (arith, e, h))
        | inr (a, e) ↦
            let (member, named) =
              Among-find_first (λ a. is_text_eq network (get_field (codes "network") a)) a
                (fs ∷ rest) e in
            let same : a ≡ offer = ground (arith, e, h) in
            subst (λ x. Among x (fs ∷ rest) × (get_field (codes "network") x ≡ some (str network)))
              same (member, is_text_eq_sound network _ named)
      ]

read_accepts_sound :
    (v : Option Json) (matches : List Fields)
    → read_accepts v ≡ ok matches
    → (js : Items) × (v ≡ some (arr js)) × (matches ≡ scheme_matches js)
read_accepts_sound v matches h = ground arith

as_record_sound : (raw : Json) (fs : Fields) → as_record raw ≡ ok fs → raw ≡ obj fs
as_record_sound raw fs h = ground arith

pub parse_payment_required_sound :
    (network : Text) (now : ℕ) (raw : Json) (reqs : PaymentRequirements)
    → parse_payment_required network now raw ≡ ok reqs
    → IsOffered network raw reqs × ((offer : Fields) × IsRead now offer reqs)
unfolding parse_payment_required
parse_payment_required_sound network now raw reqs h =
    let (fs, e1, h1) = >>=-eq-ok (as_record raw) _ h in
    let (_, e2, h2) =
      >>=-eq-ok (require (is_version (get_field (codes "x402Version") fs)) Code.bad_invoice 502) _
        h1 in
    let (matches, e3, h3) = >>=-eq-ok (read_accepts (get_field (codes "accepts") fs)) _ h2 in
    let (offer, e4, h4) = >>=-eq-ok (pick_network network matches) _ h3 in
    let (js, listed, found) = read_accepts_sound _ matches e3 in
    let (member, named) = pick_network_sound network matches offer e4 in
    let (among, scheme) = scheme_matches_sound offer js (subst (Among offer) found member) in
    let read = read_requirements_sound now offer reqs h4 in
    (
      record {
        top = fs;
        entries = js;
        offer = offer;
        body = as_record_sound raw fs e1;
        accepts = listed;
        among = among;
        scheme = scheme;
        own_network = named;
        amount = read.amount;
        payee = read.payee;
        router = read.router;
        nonce = read.nonce;
        deadline = read.deadline;
        service = read.service;
      },
      (offer, read),
    )
