-- ===== src/Chain/Nonces.antt =====
-- packages/chain/src/live-0g.ts: sendTx, the queue of transactions for each signing address. The
-- queue runs the sends of one address one after the other, so a run is a list of sends. The node
-- (`getTransactionCount`, and what `send` does with the nonce) is part of each send.
pub mod Sequence
use g_gate.Prelude.{ℕ, ◌+◌, Bool, ◌&&◌, Option, none, some, List, [], ◌∷◌, ltb, if◌then◌else◌}
use g_gate.Prelude.Maps.{Map, lookup, insert}
use g_gate.Prelude.Text.{Text, to_lower, text_eq}
use g_gate.Shared.Errors.{AgentGateError, Result, ok, err, ◌>>=◌}

abbrev pub nonce_floor_ttl_ms : ℕ
nonce_floor_ttl_ms = 30_000

pub record NonceFloor : Type 0 where
  pub nonce : ℕ
  pub at : ℕ

-- What a send comes to: the hash of a transaction that the node accepted, viem's error for a call
-- that reverts with a named error of the contract, or any other failure.
pub data Submission : Type 0 where
  accepted : Text → Submission
  reverted : Text → Submission
  failed : AgentGateError → Submission

-- One call of `sendTx`: the node's pending count, the clock when the nonce is chosen and when the
-- send was accepted, and what the node makes of a transaction with a given nonce.
pub record Send : Type 0 where
  pub address : Text
  pub pending : Result ℕ
  pub chosen_at : ℕ
  pub accepted_at : ℕ
  pub write : ℕ → Submission

-- `floor && floor.nonce > pending && Date.now() - floor.at < NONCE_FLOOR_TTL_MS ? … : …`, with the
-- subtraction carried over.
unfoldable pub choose_nonce : ℕ → ℕ → Option NonceFloor → ℕ
choose_nonce now pending none = pending
choose_nonce now pending (some floor) =
    if ltb pending floor.nonce && ltb now (floor.at + nonce_floor_ttl_ms)
    then floor.nonce
    else pending

-- The send itself: the floor moves only once the node has accepted the transaction.
unfoldable pub send_with : Send → ℕ → Map Text NonceFloor → Submission × Map Text NonceFloor
send_with s nonce floors = elim (s.write nonce) [
  | reverted name ↦ (reverted name, floors)
  | failed e ↦ (failed e, floors)
  | accepted hash ↦ (
    accepted hash,
    insert (to_lower s.address) (record { nonce = nonce + 1; at = s.accepted_at }) floors,
  )
]

-- The nonce that a send is given, if the node answers its count.
unfoldable pub nonce_of : Send → Map Text NonceFloor → Result ℕ
nonce_of s floors = do
  pending ← s.pending
  ok (choose_nonce s.chosen_at pending (lookup (to_lower s.address) floors))

unfoldable pub send_tx : Send → Map Text NonceFloor → Submission × Map Text NonceFloor
send_tx s floors = elim (nonce_of s floors) [
  | err e ↦ (failed e, floors)
  | ok nonce ↦ send_with s nonce floors
]

-- The floors after a run of sends.
unfoldable pub send_all : List Send → Map Text NonceFloor → Map Text NonceFloor
send_all [] floors = floors
send_all (s ∷ ss) floors = send_all ss (send_tx s floors).1
