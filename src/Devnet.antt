-- ===== src/Devnet.antt =====
-- packages/devnet/src/state.ts: the mock chain in memory. `derive` is the address that sha256
-- gives for a public key, `digest` the hash of a payload with the counter. Amounts are texts of
-- digits, as the HTTP layer lets through. The text `detail` of an activity event is left out.
pub mod Registry
pub mod Balances
pub mod Scores
use g_gate.Prelude.{
  ℕ, ◌+◌, ◌-◌, Bool, true, false, ◌&&◌, Option, none, some, List, [], ◌∷◌, ◌++◌, length, take, ltb,
  leb, ◌==◌, every, if◌then◌else◌, nat_eq,
}
use g_gate.Prelude.Maps.{Map, lookup, insert, erase, size}
use g_gate.Prelude.Text.{Text, text_eq, text_beq, trim, to_lower, is_empty, is_prefixed_hex}
use g_gate.Prelude.Decimal.{big_int, decimal}
use g_gate.Shared.Errors.{Result, ok, err, fail, Code, ◌>>=◌, ◌>>◌, require}
use g_gate.Shared.Money.{Wei}
use g_gate.Shared.Types.{AttestationRecord, ServiceScore}

pub record TransferRecord : Type 0 where
  pub tx_hash : Text
  pub from_public_key : Text
  pub from : Text
  pub to : Text
  pub amount_wei : Wei
  pub nonce : Text
  pub service_id : ℕ
  pub timestamp : ℕ

pub record TransferInput : Type 0 where
  pub from_public_key : Text
  pub to : Text
  pub amount_wei : Wei
  pub nonce : Text
  pub service_id : ℕ

pub record InternalService : Type 0 where
  pub id : ℕ
  pub name : Text
  pub description : Text
  pub gateway_base_url : Text
  pub price_wei : Wei
  pub payment_target : Text
  pub owner : Text
  pub attestor : Text
  pub active : Bool
  pub created_at : ℕ

pub data ActivityKind : Type 0 where
  payment service_registered attestation : ActivityKind

pub record ActivityEvent : Type 0 where
  pub kind : ActivityKind
  pub tx_hash : Text
  pub service_id : ℕ
  pub timestamp : ℕ

pub record DevnetState : Type 0 where
  pub balances : Map Text ℕ
  pub transfers : Map Text TransferRecord
  pub transfer_order : List Text
  pub services : Map ℕ InternalService
  pub scores : Map ℕ ServiceScore
  pub attestations : Map ℕ (List AttestationRecord)
  pub seen_payments : List (ℕ × Text)
  pub activity : List ActivityEvent
  pub tx_counter : ℕ
  pub next_service_id : ℕ

-- What is hashed: the kind with the fields that the source serialises.
pub data Payload : Type 0 where
  transfer_payload : Text → Text → TransferInput → Payload
  register_payload : ℕ → Text → Payload
  attestation_payload : ℕ → Text → Bool → Payload
  active_payload : ℕ → Bool → Payload

pub record Hashing : Type 0 where
  pub derive : Text → Text
  pub digest : Payload → ℕ → Text

-- `deriveAccountAddress`.
unfoldable pub derive_account_address : Hashing → Text → Result Text
derive_account_address h public_key =
    if is_empty (trim public_key)
    then fail Code.invalid_public_key 400
    else ok (h.derive public_key)

-- `ADDRESS_RE` on a text in lower case.
unfoldable pub normalize_account : Hashing → Text → Result Text
unfolding derive_account_address
normalize_account h account =
    let lower = to_lower (trim account) in
    if is_prefixed_hex 40 lower then ok lower else derive_account_address h account

abbrev pub or_zero : Option ℕ → ℕ
or_zero none = 0
or_zero (some n) = n

unfoldable pub balance_of : Text → Map Text ℕ → ℕ
balance_of account m = or_zero (lookup account m)

-- `pushActivity`: newest first, at most 500.
unfoldable pub push_activity : ActivityEvent → List ActivityEvent → List ActivityEvent
push_activity e log = take 500 (e ∷ log)

unfoldable pub faucet : Hashing → Text → Wei → DevnetState → Result (ℕ × DevnetState)
faucet h account amount s = do
  key ← normalize_account h account
  ok (
    balance_of key s.balances + big_int amount,
    record s { balances = insert key (balance_of key s.balances + big_int amount) s.balances },
  )

-- The two writes of a transfer, the second after the first.
unfoldable pub move_balance : Text → Text → ℕ → Map Text ℕ → Map Text ℕ
move_balance from to amount m =
    let debited = insert from (balance_of from m - amount) m in
    insert to (balance_of to debited + amount) debited

-- The eviction of the oldest transfers over the cap of 2000; a push makes at most one of them.
unfoldable pub evict : List Text → Map Text TransferRecord → List Text × Map Text TransferRecord
evict [] m = ([], m)
evict (oldest ∷ order) m =
    if ltb 2000 (length (oldest ∷ order)) then evict order (erase oldest m) else (oldest ∷ order, m)

unfoldable pub store_transfer :
    Hashing → ℕ → TransferInput → Text → Text → DevnetState → Text × DevnetState
store_transfer h now input from to s =
    let tx = h.digest (transfer_payload from to input) (s.tx_counter + 1) in
    let kept = evict (s.transfer_order ++ tx ∷ []) (
      insert tx
        (record {
          tx_hash = tx;
          from_public_key = input.from_public_key;
          from = from;
          to = to;
          amount_wei = decimal (big_int input.amount_wei);
          nonce = input.nonce;
          service_id = input.service_id;
          timestamp = now;
        })
        s.transfers) in
    (
      tx,
      record s {
        tx_counter = s.tx_counter + 1;
        balances = move_balance from to (big_int input.amount_wei) s.balances;
        transfer_order = kept.0;
        transfers = kept.1;
        activity =
            push_activity
              (record {
                kind = payment;
                tx_hash = tx;
                service_id = input.service_id;
                timestamp = now;
              })
              s.activity;
      },
    )

unfoldable pub transfer : Hashing → ℕ → TransferInput → DevnetState → Result (Text × DevnetState)
transfer h now input s = do
  from ← derive_account_address h input.from_public_key
  to ← normalize_account h input.to
  require (leb (big_int input.amount_wei) (balance_of from s.balances)) Code.insufficient_balance
      400
  ok (store_transfer h now input from to s)

unfoldable pub get_transfer : Text → DevnetState → Result TransferRecord
get_transfer tx s = elim (lookup tx s.transfers) [
  | none ↦ fail Code.transfer_not_found 404
  | some r ↦ ok r
]
