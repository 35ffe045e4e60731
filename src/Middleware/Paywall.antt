-- ===== src/Middleware/Paywall.antt =====
-- packages/middleware/src/app.ts: the handler of `/svc/:id`. What it reaches through `await` is
-- taken in the order of the code: the checks (`admit`), the burn of the nonce, the proxied call
-- (a parameter) and the answer. The three readings of the clock on a path are the one `now`.
pub mod Admission
pub mod Admitting
pub mod Handler
pub mod Frame
pub mod Served
pub mod Ending
pub mod Consuming
pub mod Attesting
pub mod Inflight
pub mod Interleaving
pub mod Settled
use g_gate.Prelude.{
  ℕ, ◌≡◌, refl, Bool, true, false, not, ◌&&◌, ◌||◌, Option, none, some, leb, length, if◌then◌else◌,
  is_some,
}
use g_gate.Prelude.Text.{Text, codes, text_beq}
use g_gate.Prelude.Decimal.{big_int, is_digits}
use g_gate.Shared.Errors.{Result, AgentGateError}
use g_gate.Shared.Money.{Wei}
use g_gate.Shared.Types.{ServiceRecord, VerifyTransferQuery, VerifyResult, Reason, Verified}
use g_gate.Shared.X402.{ZgExactPayload}
use g_gate.Shared.Json.{Json}
use g_gate.Shared.NetGuard.{Resolver}
use g_gate.Middleware.InvoiceStore.{InvoiceStore, StoredInvoice}
use g_gate.Middleware.AttestationQueue.{AttestationQueue}
use g_gate.Middleware.ServiceCache.{ServiceCache}
use g_gate.Middleware.UpstreamStore.{UpstreamStore}
use g_gate.Chain.Address.{same_address}

-- The settings that the handler reads; `live` is `mode === 'live'`.
pub record Config : Type 0 where
  pub live : Bool
  pub invoice_ttl_ms : ℕ
  pub redemption_window_ms : ℕ
  pub payment_router_address : Text

-- What the handler reads of Express's request. `x_payment` is the header as sent.
pub record Request : Type 0 where
  pub id : Text
  pub method : Text
  pub content_length : Option Text
  pub transfer_encoding : Option Text
  pub is_json : Bool
  pub x_payment : Option Text
  pub resource : Text

pub data ProxyOutcome : Type 0 where
  response : ℕ → Option Text → Text → ProxyOutcome
  failure : ℕ → Text → ProxyOutcome

pub record ChainClient : Type 0 where
  pub network : Text
  pub get_service : ℕ → Result (Option ServiceRecord)
  pub verify_transfer : VerifyTransferQuery → Result VerifyResult

-- What the handler calls: the chain, the resolver, `Buffer` and `JSON.parse` on a header,
-- viem's recovery of the signer of a message (none if it throws), and the upstream.
pub record World : Type 0 where
  pub chain : ChainClient
  pub net : Resolver
  pub parse_header : Text → Option Json
  pub recover : Text → Text → Option Text
  pub proxy_to_upstream : Text → Request → ProxyOutcome

-- The state behind the handler.
pub record Gateway : Type 0 where
  pub services : ServiceCache
  pub upstreams : UpstreamStore
  pub invoices : InvoiceStore
  pub attestations : AttestationQueue

-- The texts in the field `error` of the answers.
pub data ErrorTag : Type 0 where
  service_not_found service_inactive service_unavailable unsupported_media_type : ErrorTag
  header_required invalid_payment_header unknown_nonce invoice_used invoice_expired : ErrorTag
  payment_proof_unsigned payment_proof_invalid settlement_pending : ErrorTag
  transfer_refused : Reason → ErrorTag

pub record PaymentRequirements : Type 0 where
  pub network : Text
  pub max_amount_required : Wei
  pub pay_to : Text
  pub resource : Text
  pub description : Text
  pub nonce : Text
  pub service_id : ℕ
  pub expires_at_ms : ℕ
  pub router : Text

-- The answer to a request. `served` carries the transaction and the payer of the header
-- X-PAYMENT-RESPONSE; `crashed` is an error that `wrap` hands to the error handler.
pub data Response : Type 0 where
  json_error : ℕ → ErrorTag → Response
  payment_required : ErrorTag → PaymentRequirements → Option ℕ → Response
  served : Text → Text → ProxyOutcome → Response
  crashed : AgentGateError → Response

-- Why the checks stop: an answer, a fresh challenge, the same challenge again, or a throw.
pub data Refusal : Type 0 where
  answer : ℕ → ErrorTag → Refusal
  challenge : ServiceRecord → ErrorTag → Refusal
  hold : ServiceRecord → StoredInvoice → Text → Refusal
  throw : AgentGateError → Refusal

pub data Decision {ℓ} (A : Type ℓ) : Type ℓ where
  go : A → Decision A
  stop : Refusal → Decision A

infixl 5 ◌>>◌ ◌>>=◌
abbrev pub ◌>>=◌ {ℓ μ} : {S : Type ℓ} {T : Type μ} → Decision S → (S → Decision T) → Decision T
stop refusal >>= next = stop refusal
go value >>= next = next value

abbrev pub ◌>>◌ {μ} : {T : Type μ} → Decision (Unit {0}) → Decision T → Decision T
first >> second = first >>= λ _. second

abbrev pub unless_stop : Bool → Refusal → Decision (Unit {0})
unless_stop true r = stop r
unless_stop false r = go tt

-- `hasUnsupportedRequestBody`, on a method in upper case.
abbrev pub has_length : Option Text → Bool
has_length none = false
has_length (some n) = not (text_beq n (codes "0"))

unfoldable pub has_unsupported_request_body : Request → Bool
has_unsupported_request_body req =
    not (text_beq req.method (codes "GET") || text_beq req.method (codes "HEAD"))
    && (has_length req.content_length || is_some req.transfer_encoding)
    && not req.is_json

-- `parseServiceId`: `/^\d{1,15}$/`.
unfoldable pub parse_service_id : Text → Option ℕ
parse_service_id raw = if is_digits raw && leb (length raw) 15 then some (big_int raw) else none

unfoldable pub is_self_payment : Text → ServiceRecord → Bool
is_self_payment payer service =
    same_address payer service.owner
    || same_address payer service.payment_target
    || same_address payer service.attestor

-- `isUpstreamSuccess`.
unfoldable pub is_upstream_success : ProxyOutcome → Bool
is_upstream_success (response status _ _) = leb 200 status && leb status 299
is_upstream_success (failure _ _) = false

-- The parts of a chain of checks that passed.
pub >>=-eq-go {ℓ μ} :
    {S : Type ℓ} {T : Type μ} (first : Decision S) (next : S → Decision T) {t : T}
    → (first >>= next) ≡ go t
    → (s : S) × (first ≡ go s) × (next s ≡ go t)
>>=-eq-go (stop refusal) next passed = cc
>>=-eq-go (go value) next passed = (value, refl, passed)

pub unless_stop-go : (b : Bool) (r : Refusal) → unless_stop b r ≡ go tt → b ≡ false
unless_stop-go true r h = cc
unless_stop-go false r h = refl
