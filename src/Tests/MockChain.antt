-- ===== src/Tests/MockChain.antt =====
-- A payment and its attestation on the mock chain (packages/devnet/src/state.ts).
use g_gate.Prelude.{◌≤◌, ◌≡◌, refl, true, [], ◌∷◌, length, nat_eq}
use g_gate.Prelude.Text.{Text, codes, text_eq, text_beq, trim, trim_start}
use g_gate.Prelude.Maps.{lookup}
use g_gate.Prelude.Decimal.{big_int, value_from}
use g_gate.Shared.Errors.{ok}
use g_gate.Devnet.{
  DevnetState, TransferInput, Hashing, normalize_account, derive_account_address, balance_of,
  store_transfer, transfer,
}
use g_gate.Devnet.Registry.{AttestationInput, store_attestation}
use g_gate.Devnet.Balances.{total, transfer-total}

abbrev alice : Text
alice = codes "0x1111111111111111111111111111111111111111"

abbrev bob : Text
bob = codes "0x2222222222222222222222222222222222222222"

abbrev hashing : Hashing
hashing = record { derive = λ key. alice; digest = λ payload n. codes "0xab" }

abbrev state : DevnetState
state = record {
  balances = (alice, 50) ∷ (bob, 7) ∷ [];
  transfers = [];
  transfer_order = [];
  services =
      (
        3,
        record {
          id = 3;
          name = codes "weather";
          description = [];
          gateway_base_url = [];
          price_wei = codes "5";
          payment_target = bob;
          owner = bob;
          attestor = bob;
          active = true;
          created_at = 0;
        },
      )
      ∷ [];
  scores = [];
  attestations = [];
  seen_payments = [];
  activity = [];
  tx_counter = 0;
  next_service_id = 4;
}

abbrev payment : TransferInput
payment = record {
  from_public_key = codes "alice";
  to = bob;
  amount_wei = codes "20";
  nonce = codes "42";
  service_id = 3;
}

abbrev paid : Text × DevnetState
paid = store_transfer hashing 900 payment alice bob state

accepted : transfer hashing 900 payment state ≡ ok (paid.0, paid.1)
unfolding transfer derive_account_address normalize_account balance_of lookup text_beq trim
    trim_start big_int value_from
accepted = refl

transfer-total_example :
    (total paid.1.balances ≡ total state.balances) × (length paid.1.transfer_order ≤ 2000)
transfer-total_example = transfer-total hashing 900 payment state paid.1 paid.0 accepted

abbrev report : AttestationInput
report = record {
  service_id = 3;
  payment_tx_hash = codes "0xab";
  success = true;
  by_public_key = bob;
}

abbrev reported : Text × DevnetState
reported = store_attestation hashing 950 report 3 state
