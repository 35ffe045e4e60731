-- ===== src/Tests/Sending.antt =====
-- Waits for receipts, nonces, payments and attestations at concrete inputs (packages/chain/src).
use g_gate.Prelude.{
  ℕ, zero, suc, ◌+◌, ◌*◌, ◌≤◌, ◌<◌, ◌≡◌, ◌↔◌, refl, Bool, true, false, Option, none, some, List, [],
  ◌∷◌, arith, inl, inr, ltb, if◌then◌else◌,
}
use g_gate.Prelude.Maps.{lookup, insert}
use g_gate.Prelude.Text.{Text, codes, text_eq}
use g_gate.Shared.Errors.{ok}
use g_gate.Chain.Live.{PaidLog}
use g_gate.Chain.Receipt.{
  ChainError, other_class, Attempt, returned, thrown, is_receipt_lag, lag_wording, receipt_wording,
  await_receipt, await_from, after_attempt,
}
use g_gate.Chain.Receipt.Deadline.{EndsAt, IsLag, await_receipt_iff, await_receipt_ends}
use g_gate.Chain.Nonces.{
  Send, Submission, accepted, reverted, send_tx, nonce_of, send_with, choose_nonce,
}
use g_gate.Chain.Nonces.Sequence.{IsConsecutive, accepted_nonces, send_tx-IsConsecutive}
use g_gate.Chain.Identity.{
  ChainConfig, check_chain_identity, check_contract, missing_selectors, dispatches, drop_zero_bytes,
}
use g_gate.Chain.Session.{
  AnySigner, key_signer, MinedReceipt, Node, ChainState, ◌>>=◌, wallet_for, assert_chain_identity,
  remember_identity, submit, hash_of, conclude, settled, registry_address,
}
use g_gate.Chain.Requests.{TransferInput, pay_request, AttestInput, attest_request}
use g_gate.Chain.Writes.{transfer, record_attestation, finish_attestation}
use g_gate.Chain.Writes.Settlement.{IsPaid, transfer-IsPaid}
use g_gate.Chain.Writes.Recording.{IsAttested, record_attestation-IsAttested}

-- What mainnet answers for a receipt that it does not have yet.
abbrev lag : ChainError
lag = record {
  class = other_class;
  short_message = some (codes "Missing or invalid parameters.");
  details = some (codes "No matching receipts found: this may indicate potential data corruption");
  message = none;
  rendering = [];
}

lag_is_lag : is_receipt_lag lag ≡ true
unfolding is_receipt_lag lag_wording receipt_wording g_gate.Prelude.Text.found_in
    g_gate.Prelude.Text.drop_prefix g_gate.Prelude.Text.join g_gate.Prelude.Text.trim_start
lag_is_lag = refl

-- Two attempts meet the lag, and the third gets the receipt 7.
abbrev attempts : ℕ → Attempt ℕ
attempts zero = thrown lag
attempts (suc zero) = thrown lag
attempts (suc (suc n)) = returned 7

abbrev clock : ℕ → ℕ
clock n = 1000 + n * 2000

await_receipt_iff_example :
    (await_receipt 3 attempts clock 9000 ≡ some (returned 7))
    ↔ ((k : ℕ) × (k < 3) × EndsAt attempts clock (clock 0 + 9000) 0 k (returned 7))
await_receipt_iff_example = await_receipt_iff attempts clock 9000 3 (returned 7)

early : (i : ℕ) → i < 2 → IsLag (attempts i) × (clock (suc i) < clock 0 + 9000)
early zero b = (lag_is_lag, omega arith)
early (suc zero) b = (lag_is_lag, omega arith)
early (suc (suc i)) b = absurd (omega arith)

await_receipt_ends_example : (o : Attempt ℕ) × (await_receipt (suc 5) attempts clock 9000 ≡ some o)
await_receipt_ends_example =
    await_receipt_ends attempts clock 9000 2000 5 (omega arith, λ i. omega arith) (omega arith)

abbrev gate : Text
gate = codes "0x4444444444444444444444444444444444444444"

-- A send whose node says that the account has sent `pending` transactions.
abbrev send : ℕ → ℕ → (ℕ → Submission) → Send
send pending at write = record {
  address = gate;
  pending = ok pending;
  chosen_at = at;
  accepted_at = at + 1;
  write = write;
}

-- Four sends of one account: the second fails, and the last two meet a node that lags.
abbrev sends : List Send
sends =
    send 5 100 (λ n. accepted (codes "0xa"))
    ∷ send 6 200 (λ n. reverted (codes "DuplicateAttestation"))
    ∷ send 5 300 (λ n. accepted (codes "0xb"))
    ∷ send 5 400 (λ n. accepted (codes "0xc"))
    ∷ []

accepted_run : accepted_nonces gate sends [] ≡ 5 ∷ 6 ∷ 7 ∷ []
unfolding nonce_of send_tx send_with choose_nonce lookup insert g_gate.Prelude.Text.text_beq
accepted_run = refl

answered :
    (pending count p : ℕ)
    → 5 ≤ pending
    → pending ≤ count
    → ok pending ≡ ok p
    → (5 ≤ p) × (p ≤ count)
answered pending count p l u e =
    let same : pending ≡ p = cc in (omega (arith, same), omega (arith, same))

send_tx-IsConsecutive_example : IsConsecutive 5 (accepted_nonces gate sends [])
unfolding nonce_of send_tx send_with choose_nonce lookup insert g_gate.Prelude.Text.text_beq
send_tx-IsConsecutive_example = send_tx-IsConsecutive gate 5 0 sends [] refl (
  λ own. record {
    behind = λ p e. answered 5 5 p (omega arith) (omega arith) e;
    later = omega arith;
    fresh = omega arith;
  },
  (
    λ own. record {
      behind = λ p e. answered 6 6 p (omega arith) (omega arith) e;
      later = omega arith;
      fresh = omega arith;
    },
    (
      λ own. record {
        behind = λ p e. answered 5 6 p (omega arith) (omega arith) e;
        later = omega arith;
        fresh = omega arith;
      },
      (
        λ own. record {
          behind = λ p e. answered 5 7 p (omega arith) (omega arith) e;
          later = omega arith;
          fresh = omega arith;
        },
        tt,
      ),
    ),
  ),
)

abbrev seller : Text
seller = codes "0x1111111111111111111111111111111111111111"

abbrev router : Text
router = codes "0x3333333333333333333333333333333333333333"

abbrev registry : Text
registry = codes "0x5555555555555555555555555555555555555555"

-- A router whose `withdraw` selector starts with a zero byte.
abbrev config : ChainConfig
config = record {
  chain_id = 16602;
  registry = registry;
  router = router;
  registry_abi = [];
  router_abi = codes "0x00505499" ∷ [];
  receipt_timeout_ms = 9000;
}

abbrev receipt : MinedReceipt
receipt = record {
  receipt = record {
    success = true;
    paid_logs =
        record {
          address = router;
          service_id = 7;
          nonce = 42;
          payer = gate;
          pay_to = seller;
          amount = 1000;
          timestamp = 5000;
        }
        ∷ [];
  };
  registered = [];
}

abbrev node : Node
node = record {
  probe = record { chain_id = ok 16602; code_at = λ a. ok (some (codes "0x62505499")) };
  account_of = λ key. some gate;
  pending = ok 5;
  chosen_at = 100;
  accepted_at = 101;
  submit = λ call nonce. accepted (codes "0xa");
  attempt = λ hash n. returned receipt;
  clock = λ n. n * 2000;
  seen_payment = λ id nonce payer. ok false;
}

abbrev session : ChainState
session = record { nonce_floor = []; identity_checked = false; services_cache = none }

abbrev signer : AnySigner
signer = key_signer (codes "0x00000000000000000000000000000000000000000000000000000000000000ab")

abbrev invoice : TransferInput
invoice = record { to = seller; amount_wei = codes "1000"; nonce = codes "42"; service_id = 7 }

abbrev after_send : ChainState
after_send = record {
  nonce_floor = (gate, record { nonce = 6; at = 101 }) ∷ [];
  identity_checked = true;
  services_cache = none;
}

transfer-IsPaid_example : IsPaid config node 3 invoice signer session (codes "0xa")
unfolding ◌>>=◌ transfer wallet_for assert_chain_identity remember_identity submit hash_of conclude
    settled pay_request check_chain_identity check_contract g_gate.Chain.Address.normalize_address
    g_gate.Prelude.Text.trim g_gate.Prelude.Text.text_beq missing_selectors dispatches
    g_gate.Prelude.Text.found_in g_gate.Prelude.Text.drop_prefix drop_zero_bytes
    g_gate.Chain.Live.router_address send_tx nonce_of send_with g_gate.Chain.Live.require_service_id
    await_receipt await_from g_gate.Chain.Address.is_address choose_nonce after_attempt
    g_gate.Prelude.Decimal.big_int g_gate.Prelude.Decimal.value_from insert lookup
    g_gate.Prelude.Text.trim_start
transfer-IsPaid_example =
    transfer-IsPaid config node 3 invoice signer session after_send (codes "0xa") refl

abbrev served_call : AttestInput
served_call = record {
  service_id = 7;
  nonce = codes "42";
  payer = seller;
  payment_tx_hash = codes "0xab";
  success = true;
}

-- The registry has the attestation already.
abbrev replayed : Node
replayed = record node { submit = λ call nonce. reverted (codes "DuplicateAttestation") }

record_attestation-IsAttested_example : IsAttested config replayed 3 served_call signer session []
unfolding ◌>>=◌ record_attestation finish_attestation wallet_for submit hash_of conclude settled
    attest_request g_gate.Chain.Live.require_service_id g_gate.Chain.Address.normalize_address
    g_gate.Prelude.Text.trim send_tx nonce_of send_with registry_address
    g_gate.Prelude.Text.text_beq
record_attestation-IsAttested_example =
    record_attestation-IsAttested config replayed 3 served_call signer session session [] refl
