-- ===== src/Chain/Session.antt =====
-- packages/chain/src/live-0g.ts: the client's state, its wallet, the sending of a call and
-- the wait for its receipt. Of one call, the node's answers are a parameter; the wait for the receipt makes at
-- most `attempts` attempts, and `none` is a wait cut off before its end.
pub mod Sent
use g_gate.Prelude.{ℕ, Bool, true, false, Option, none, some, List, if◌then◌else◌}
use g_gate.Prelude.Maps.{Map}
use g_gate.Prelude.Text.{Text, is_prefixed_hex, is_empty}
use g_gate.Shared.Errors.{Result, ok, err, fail, Code}
use g_gate.Shared.Types.{ServiceRecord}
use g_gate.Chain.Address.{normalize_address}
use g_gate.Chain.Live
use g_gate.Chain.Live.{require_service_id, router_address, emitted_by}
use g_gate.Chain.Receipt.{Attempt, returned, thrown, is_receipt_lag, await_receipt}
use g_gate.Chain.Nonces.{NonceFloor, Submission, accepted, reverted, failed, Send, send_tx}
use g_gate.Chain.Identity.{ChainConfig, Probe, check_chain_identity}

-- `SignerRef | KeySignerRef`.
pub data AnySigner : Type 0 where
  mock_signer key_signer : Text → AnySigner

pub record CachedServices : Type 0 where
  pub at : ℕ
  pub services : List ServiceRecord

pub record ChainState : Type 0 where
  pub nonce_floor : Map Text NonceFloor
  pub identity_checked : Bool
  pub services_cache : Option CachedServices

-- A call of a contract, with the address that it goes to.
pub data Call : Type 0 where
  register_service_call : Text → Text → Text → Text → ℕ → Text → Text → Call
  attest_call : Text → ℕ → ℕ → Text → Text → Bool → Call
  activate_call : Text → ℕ → Bool → Call
  pay_call : Text → ℕ → ℕ → ℕ → Text → Call

-- A mined transaction: its status and `Paid` events, and the ids of its `ServiceRegistered` events.
pub record MinedReceipt : Type 0 where
  pub receipt : Live.Receipt
  pub registered : List ℕ

-- The node during one call. `account_of` is viem's `privateKeyToAccount`, `none` where it throws;
-- `seen_payment` is the registry's `seenPayments` at the key of a settlement.
pub record Node : Type 0 where
  pub probe : Probe
  pub account_of : Text → Option Text
  pub pending : Result ℕ
  pub chosen_at : ℕ
  pub accepted_at : ℕ
  pub submit : Call → ℕ → Submission
  pub attempt : Text → ℕ → Attempt MinedReceipt
  pub clock : ℕ → ℕ
  pub seen_payment : ℕ → ℕ → Text → Result Bool

-- A method of the client.
abbrev pub Action {ℓ} : Type ℓ → Type ℓ
Action A = ChainState → Option (Result A) × ChainState

abbrev pub proceed {ℓ κ} :
    {A : Type ℓ} {B : Type κ}
    → (A → Action B)
    → Option (Result A) × ChainState
    → Option (Result B) × ChainState
proceed next (none, st) = (none, st)
proceed next (some (err e), st) = (some (err e), st)
proceed next (some (ok a), st) = next a st

infixl 5 ◌>>=◌ ◌>>◌
unfoldable pub ◌>>=◌ {ℓ κ} : {A : Type ℓ} {B : Type κ} → Action A → (A → Action B) → Action B
(act >>= next) st = proceed next (act st)

abbrev pub ◌>>◌ {κ} : {B : Type κ} → Action (Unit {0}) → Action B → Action B
act >> after = act >>= λ _. after

abbrev pub lift {ℓ} : {A : Type ℓ} → Result A → Action A
lift r st = (some r, st)

unfoldable pub wallet_for : Node → AnySigner → Result Text
wallet_for node (mock_signer public_key) = fail Code.invalid_signer 400
wallet_for node (key_signer private_key) =
    if is_prefixed_hex 64 private_key
    then elim (node.account_of private_key) [
      | none ↦ fail Code.invalid_signer 400
      | some address ↦ ok address
    ]
    else fail Code.invalid_signer 400

-- A success is remembered, a failure is not.
unfoldable pub remember_identity : Result (Unit {0}) → Action (Unit {0})
remember_identity (err e) st = (some (err e), record st { identity_checked = false })
remember_identity (ok done) st = (some (ok tt), record st { identity_checked = true })

unfoldable pub assert_chain_identity : ChainConfig → Node → Action (Unit {0})
assert_chain_identity cfg node st =
    if st.identity_checked
    then (some (ok tt), st)
    else remember_identity (check_chain_identity cfg node.probe) st

unfoldable pub registry_address : ChainConfig → Result Text
registry_address cfg =
    if is_empty cfg.registry
    then fail Code.contract_not_deployed 503
    else normalize_address cfg.registry

-- `sendTx` with the callback of the writes, which builds the call and hands it to the wallet.
abbrev pub sending : Node → Text → Result Call → Send
sending node address call = record {
  address = address;
  pending = node.pending;
  chosen_at = node.chosen_at;
  accepted_at = node.accepted_at;
  write = λ nonce. elim call [ err e ↦ failed e | ok c ↦ node.submit c nonce ];
}

unfoldable pub submit : Node → Text → Result Call → Action Submission
submit node address call st =
    let (sent, floors) = send_tx (sending node address call) st.nonce_floor in
    (some (ok sent), record st { nonce_floor = floors })

-- A submission whose failure is thrown on.
unfoldable pub hash_of : Submission → Result Text
hash_of (accepted hash) = ok hash
hash_of (reverted name) = fail Code.chain_failure 500
hash_of (failed e) = err e

-- `settled`, after the wait; `satisfied` is what `alreadySatisfied` answers, if it is given.
unfoldable pub conclude : Option (Result Bool) → Attempt MinedReceipt → Result MinedReceipt
conclude satisfied (thrown e) =
    if is_receipt_lag e then fail Code.tx_receipt_unconfirmed 504 else fail Code.chain_failure 500
conclude satisfied (returned r) = if r.receipt.success then ok r else elim satisfied [
  | none ↦ fail Code.tx_failed 502
  | some (err e) ↦ err e
  | some (ok true) ↦ ok r
  | some (ok false) ↦ fail Code.tx_failed 502
]

abbrev pub concluded :
    Option (Result Bool) → Option (Attempt MinedReceipt) → Option (Result MinedReceipt)
concluded satisfied none = none
concluded satisfied (some ended) = some (conclude satisfied ended)

unfoldable pub settled : ChainConfig → Node → ℕ → Text → Option (Result Bool) → Action MinedReceipt
settled cfg node attempts hash satisfied st = (
  concluded satisfied
      (await_receipt attempts (node.attempt hash) node.clock cfg.receipt_timeout_ms),
  st,
)
