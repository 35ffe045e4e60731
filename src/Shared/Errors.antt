-- ===== src/Shared/Errors.antt =====
-- packages/shared/src/errors.ts: AgentGateError. An error carries its code and its HTTP status;
-- the message is for a human reader and is left out.
use g_gate.Prelude.{ℕ, ◌≡◌, refl, Bool, true, false}

-- The codes that the modelled code throws or compares.
pub data Code : Type 0 where
  invalid_amount invalid_payment bad_invoice network_mismatch : Code
  price_exceeded invoice_mismatch signer_unsupported bad_url forbidden_host : Code
  insufficient_balance transfer_not_found service_not_found service_limit_reached : Code
  empty_name invalid_price invalid_payment_target not_authorized service_inactive : Code
  duplicate_attestation invalid_public_key invalid_argument chain_failure : Code
  invalid_query invalid_address contract_not_deployed : Code
  invalid_signer tx_receipt_unconfirmed tx_failed payment_not_settled : Code
  chain_id_mismatch registry_abi_mismatch router_abi_mismatch : Code
  devnet_timeout devnet_unreachable devnet_error : Code
  bad_task no_services llm_bad_choice : Code

pub record AgentGateError : Type 0 where
  pub code : Code
  pub http_status : ℕ

pub data Result {ℓ} (A : Type ℓ) : Type ℓ where
  ok : A → Result A
  err : AgentGateError → Result A

abbrev pub fail {ℓ} : {A : Type ℓ} → Code → ℕ → Result A
fail c status = err (record { code = c; http_status = status })

infixl 5 ◌>>◌ ◌>>=◌
abbrev pub ◌>>=◌ {ℓ μ} : {S : Type ℓ} {T : Type μ} → Result S → (S → Result T) → Result T
err thrown >>= next = err thrown
ok value >>= next = next value

abbrev pub ◌>>◌ {μ} : {T : Type μ} → Result (Unit {0}) → Result T → Result T
first >> second = first >>= λ _. second

-- `if (!test) throw new AgentGateError(code, …, status)`.
abbrev pub require : Bool → Code → ℕ → Result (Unit {0})
require true c status = ok tt
require false c status = fail c status

abbrev pub is_ok {ℓ} : {A : Type ℓ} → Result A → Bool
is_ok (ok _) = true
is_ok (err _) = false

-- The parts of a step that succeeded.
pub >>=-eq-ok {ℓ μ} :
    {S : Type ℓ} {T : Type μ} (first : Result S) (next : S → Result T) {t : T}
    → (first >>= next) ≡ ok t
    → (s : S) × (first ≡ ok s) × (next s ≡ ok t)
>>=-eq-ok (err thrown) next passed = cc
>>=-eq-ok (ok value) next passed = (value, refl, passed)

pub require-eq-ok : (b : Bool) (c : Code) (status : ℕ) → require b c status ≡ ok tt → b ≡ true
require-eq-ok true c status h = refl
require-eq-ok false c status h = cc
