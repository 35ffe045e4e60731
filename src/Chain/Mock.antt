-- ===== src/Chain/Mock.antt =====
-- packages/chain/src/mock.ts: the client of the mock chain, which asks the devnet over HTTP. The
-- devnet's answer to each request is a parameter; `Date.now()` is `now`.
pub mod Agreement
use g_gate.Prelude.{
  ℕ, ◌+◌, Bool, true, false, not, ◌&&◌, ◌||◌, Option, none, some, List, [], ◌∷◌, leb, ltb, ◌==◌,
  every, if◌then◌else◌,
}
use g_gate.Prelude.Text.{Text, trim, to_lower, is_digit, is_empty, text_beq}
use g_gate.Prelude.Decimal.{big_int}
use g_gate.Shared.Errors.{AgentGateError, Result, ok, err, fail, Code, ◌>>=◌, ◌>>◌, require}
use g_gate.Shared.Types.{VerifyTransferQuery, VerifyResult, verified, refused, Reason}
use g_gate.Shared.Trust.{max_safe_integer}
use g_gate.Chain.Session.{AnySigner, mock_signer, key_signer}
use g_gate.Chain.Requests.{TransferInput, AttestInput, RegisterServiceInput}
use g_gate.Devnet
use g_gate.Devnet.{TransferRecord}
use g_gate.Devnet.Registry.{AttestationInput, RegisterInput}

-- What an HTTP request comes to: no answer in time, none at all, or a status with a value, and
-- the code that the body of an error names, if it names one.
pub data Reply {ℓ} (A : Type ℓ) : Type ℓ where
  timed_out unreachable : Reply A
  answer : ℕ → A → Reply A
  problem : ℕ → Option Code → Reply A

-- `request`; `none` is its `null`, for a 404 where that is allowed.
unfoldable pub request {ℓ} : {A : Type ℓ} → Bool → Reply A → Result (Option A)
request allow_404 timed_out = fail Code.devnet_timeout 504
request allow_404 unreachable = fail Code.devnet_unreachable 502
request allow_404 (answer status a) = ok (some a)
request allow_404 (problem status code) =
    if status == 404 && allow_404
    then ok none
    else elim code [ none ↦ fail Code.devnet_error status | some c ↦ fail c status ]

-- `get` and `post`, whose answer is no `null`.
unfoldable pub expect {ℓ} : {A : Type ℓ} → Reply A → Result A
expect reply = do
  value ← request false reply
  elim value [ none ↦ fail Code.devnet_error 404 | some a ↦ ok a ]

-- `WEI_RE`.
unfoldable pub is_wei : Text → Bool
is_wei [] = false
is_wei (c ∷ []) = is_digit c
is_wei (c ∷ d ∷ s) = leb b'1' c && leb c b'9' && every is_digit (d ∷ s)

unfoldable pub assert_service_id : ℕ → Result (Unit {0})
assert_service_id id = require (leb 1 id && leb id max_safe_integer) Code.invalid_query 400

-- The comparison of the devnet's record with the query.
unfoldable pub check_record : ℕ → VerifyTransferQuery → TransferRecord → VerifyResult
check_record now q t =
    if not (text_beq (to_lower t.to) (to_lower q.expected_target))
    then refused Reason.wrong_target
    else if not (big_int t.nonce == big_int q.expected_nonce) || not (t.service_id == q.service_id)
    then refused Reason.wrong_nonce
    else if ltb (big_int t.amount_wei) (big_int q.min_amount_wei)
    then refused Reason.amount_too_low
    else if ltb (t.timestamp + q.max_age_ms) now
    then refused Reason.expired
    else verified (record { amount_wei = t.amount_wei; from = t.from; timestamp = t.timestamp })

unfoldable pub verify_transfer :
    (Text → Reply TransferRecord) → ℕ → VerifyTransferQuery → Result VerifyResult
verify_transfer transfer_of now q = do
  require (not (is_empty (trim q.tx_hash))) Code.invalid_query 400
  assert_service_id q.service_id
  require (not (is_empty (trim q.expected_target))) Code.invalid_query 400
  require (is_wei q.min_amount_wei) Code.invalid_query 400
  require (is_wei q.expected_nonce) Code.invalid_query 400
  transfer ← request true (transfer_of q.tx_hash)
  ok (elim transfer [ none ↦ refused Reason.not_found | some t ↦ check_record now q t ])

unfoldable pub require_mock_signer : AnySigner → Result Text
require_mock_signer (key_signer private_key) = fail Code.invalid_signer 400
require_mock_signer (mock_signer public_key) =
    if is_empty (trim public_key) then fail Code.invalid_signer 400 else ok public_key

-- A failure that the devnet reports as a duplicate is a success with an empty hash.
unfoldable pub forgive_duplicate : Result Text → Result Text
forgive_duplicate (ok hash) = ok hash
forgive_duplicate (err e) = elim e.code [ Code.duplicate_attestation ↦ ok [] | _ ↦ err e ]

unfoldable pub record_attestation :
    (AttestationInput → Reply Text) → AttestInput → AnySigner → Result Text
record_attestation post input signer = do
  public_key ← require_mock_signer signer
  assert_service_id input.service_id
  forgive_duplicate (
      expect (
        post (record {
          service_id = input.service_id;
          payment_tx_hash = input.payment_tx_hash;
          success = input.success;
          by_public_key = public_key;
        })))

abbrev pub u64_max : ℕ
u64_max = 18_446_744_073_709_551_615

unfoldable pub transfer :
    (Devnet.TransferInput → Reply Text) → TransferInput → AnySigner → Result Text
transfer post input signer = do
  public_key ← require_mock_signer signer
  assert_service_id input.service_id
  require (not (is_empty (trim input.to))) Code.invalid_query 400
  require (is_wei input.amount_wei) Code.invalid_query 400
  require (is_wei input.nonce && leb (big_int input.nonce) u64_max) Code.invalid_query 400
  expect (
      post (record {
        from_public_key = public_key;
        to = input.to;
        amount_wei = input.amount_wei;
        nonce = input.nonce;
        service_id = input.service_id;
      }))

unfoldable pub set_active : (ℕ → Bool → Text → Reply Text) → ℕ → Bool → AnySigner → Result Text
set_active post service_id active signer = do
  public_key ← require_mock_signer signer
  assert_service_id service_id
  expect (post service_id active public_key)

unfoldable pub register_service :
    (RegisterInput → Reply (ℕ × Text)) → RegisterServiceInput → AnySigner → Result (ℕ × Text)
register_service post input signer = do
  public_key ← require_mock_signer signer
  expect (
      post (record {
        name = input.name;
        description = input.description;
        endpoint_url = input.endpoint_url;
        price_wei = input.price_wei;
        payment_target = input.payment_target;
        attestor = input.attestor;
        owner_public_key = public_key;
      }))
