-- ===== src/Client/Invoice.antt =====
-- packages/client/src/index.ts: parsePaymentRequired, and the guards of fetchPaid on an invoice.
-- `payTo` is matched as text; a JSON array of one address, which the source's pattern also
-- accepts, is refused here (the source refuses it at the transfer).
use g_gate.Prelude.{
  ℕ, Bool, true, false, not, ◌||◌, Option, none, some, List, [], ◌∷◌, ltb, ◌==◌, if◌then◌else◌,
  find_first,
}
use g_gate.Prelude.Text.{Text, codes, text_beq, to_lower, is_empty, is_prefixed_hex}
use g_gate.Shared.Errors.{Result, ok, fail, Code, ◌>>=◌, ◌>>◌, require, is_ok}
use g_gate.Shared.Json.{
  Json, num, other_num, str, arr, obj, Items, nil, cons, Fields, end, get_field,
}
use g_gate.Shared.Money.{Wei, parse_wei, compare_wei, Sign, greater}
use g_gate.Shared.X402.{is_version, is_scheme, is_uint256}

-- The fields that are validated, and `extra.serviceId` as it came.
pub record PaymentRequirements : Type 0 where
  pub max_amount_required : Wei
  pub pay_to : Text
  pub router : Text
  pub nonce : Text
  pub expires_at_ms : ℕ
  pub service_id : Option Json

pub record ClientOptions : Type 0 where
  pub network : Text
  pub router_address : Option Text
  pub can_sign : Bool
  pub max_price_wei : Option Wei
  pub expect_pay_to : Option Text
  pub expect_service_id : Option ℕ
  pub reject_private_hosts : Bool

abbrev pub bad_invoice {ℓ} : {A : Type ℓ} → Result A
bad_invoice = fail Code.bad_invoice 502

abbrev pub as_record : Json → Result Fields
as_record (obj fs) = ok fs
as_record _ = bad_invoice

-- The entries of an array that are objects of the scheme.
abbrev pub add_if_scheme : Json → List Fields → List Fields
add_if_scheme (obj fs) rest = if is_scheme (get_field (codes "scheme") fs) then fs ∷ rest else rest
add_if_scheme _ rest = rest

abbrev pub scheme_matches : Items → List Fields
scheme_matches nil = []
scheme_matches (cons j js) = add_if_scheme j (scheme_matches js)

abbrev pub read_accepts : Option Json → Result (List Fields)
read_accepts (some (arr (cons j js))) = ok (scheme_matches (cons j js))
read_accepts _ = bad_invoice

abbrev pub is_text_eq : Text → Option Json → Bool
is_text_eq s (some (str t)) = text_beq t s
is_text_eq s _ = false

-- `schemeMatches.find(…)`: an offer on another network only is an error of its own.
unfoldable pub pick_network : Text → List Fields → Result Fields
pick_network network [] = bad_invoice
pick_network network (fs ∷ rest) =
    elim (find_first (λ a. is_text_eq network (get_field (codes "network") a)) (fs ∷ rest)) [
      | none ↦ fail Code.network_mismatch 502
      | some a ↦ ok a
    ]

abbrev pub read_text : Option Json → Result Text
read_text (some (str s)) = ok s
read_text _ = bad_invoice

abbrev pub read_extra : Option Json → Fields
read_extra (some (obj fs)) = fs
read_extra _ = end

-- A deadline after `now`, rounded up to a natural number.
abbrev pub read_deadline : ℕ → Option Json → Result ℕ
read_deadline now (some (num n)) = if ltb now n then ok n else bad_invoice
read_deadline now (some (other_num (some n))) = if ltb now n then ok n else bad_invoice
read_deadline now _ = bad_invoice

-- `ADDRESS_RE`.
abbrev pub is_address_text : Text → Bool
is_address_text = is_prefixed_hex 40

unfoldable pub read_requirements : ℕ → Fields → Result PaymentRequirements
read_requirements now fs =
    let extra = read_extra (get_field (codes "extra") fs) in
    do
      amount ← read_text (get_field (codes "maxAmountRequired") fs)
      require (is_ok (parse_wei amount)) Code.bad_invoice 502
      pay_to ← read_text (get_field (codes "payTo") fs)
      require (is_address_text pay_to) Code.bad_invoice 502
      router ← read_text (get_field (codes "router") extra)
      require (is_address_text router) Code.bad_invoice 502
      nonce ← read_text (get_field (codes "nonce") extra)
      require (is_uint256 nonce) Code.bad_invoice 502
      deadline ← read_deadline now (get_field (codes "expiresAtMs") extra)
      ok (record {
        max_amount_required = amount;
        pay_to = pay_to;
        router = router;
        nonce = nonce;
        expires_at_ms = deadline;
        service_id = get_field (codes "serviceId") extra;
      })

unfoldable pub parse_payment_required : Text → ℕ → Json → Result PaymentRequirements
parse_payment_required network now raw = do
  fs ← as_record raw
  require (is_version (get_field (codes "x402Version") fs)) Code.bad_invoice 502
  matches ← read_accepts (get_field (codes "accepts") fs)
  offer ← pick_network network matches
  read_requirements now offer

-- The price guard: `compareWei(price, cap) > 0` refuses.
abbrev pub is_above : Sign → Bool
is_above greater = true
is_above _ = false

unfoldable pub check_price : Option Wei → Wei → Result (Unit {0})
check_price none price = ok tt
check_price (some cap) price = do
  sign ← compare_wei price cap
  require (not (is_above sign)) Code.price_exceeded 402

abbrev pub matches_text : Option Text → Text → Bool
matches_text none s = true
matches_text (some t) s = text_beq (to_lower s) (to_lower t)

abbrev pub is_number : ℕ → Option Json → Bool
is_number k (some (num n)) = n == k
is_number k _ = false

abbrev pub matches_id : Option ℕ → Option Json → Bool
matches_id none v = true
matches_id (some k) v = is_number k v

-- An unset or empty router is not compared.
abbrev pub matches_router : Option Text → Text → Bool
matches_router none s = true
matches_router (some t) s = is_empty t || text_beq (to_lower s) (to_lower t)

-- From the body of the 402 to an invoice that may be paid.
unfoldable pub vet_invoice : ClientOptions → ℕ → Json → Result PaymentRequirements
vet_invoice opts now raw = do
  reqs ← parse_payment_required opts.network now raw
  check_price opts.max_price_wei reqs.max_amount_required
  require (matches_text opts.expect_pay_to reqs.pay_to) Code.invoice_mismatch 402
  require (matches_id opts.expect_service_id reqs.service_id) Code.invoice_mismatch 402
  require (matches_router opts.router_address reqs.router) Code.invoice_mismatch 502
  ok reqs
