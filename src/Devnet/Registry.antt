-- ===== src/Devnet/Registry.antt =====
-- The registry of the mock chain (packages/devnet/src/state.ts).
use g_gate.Prelude.{
  ℕ, ◌+◌, Bool, true, false, not, ◌&&◌, ◌||◌, Option, none, some, List, [], ◌∷◌, take, ltb, leb,
  ◌==◌, if◌then◌else◌, nat_eq,
}
use g_gate.Prelude.Maps.{Map, lookup, insert, size}
use g_gate.Prelude.Text.{Text, text_beq, trim, to_lower, is_empty, is_prefixed_hex}
use g_gate.Prelude.Decimal.{big_int, decimal}
use g_gate.Shared.Errors.{Result, ok, err, fail, Code, ◌>>=◌, ◌>>◌, require}
use g_gate.Shared.Money.{Wei}
use g_gate.Shared.Url.{strip_trailing_slashes}
use g_gate.Shared.Types.{AttestationRecord, ServiceScore}
use g_gate.Devnet.{
  DevnetState, InternalService, Hashing, normalize_account, push_activity, register_payload,
  attestation_payload, active_payload, service_registered, attestation,
}

pub record RegisterInput : Type 0 where
  pub name : Text
  pub description : Text
  pub endpoint_url : Text
  pub price_wei : Wei
  pub payment_target : Text
  pub attestor : Text
  pub owner_public_key : Text

pub record AttestationInput : Type 0 where
  pub service_id : ℕ
  pub payment_tx_hash : Text
  pub success : Bool
  pub by_public_key : Text

unfoldable pub store_service : Text → ℕ → RegisterInput → Text → Text → DevnetState → DevnetState
store_service tx now input owner attestor s =
    let id = s.next_service_id in
    record s {
      services =
          insert id
            (record {
              id = id;
              name = input.name;
              description = input.description;
              gateway_base_url = strip_trailing_slashes input.endpoint_url;
              price_wei = decimal (big_int input.price_wei);
              payment_target = to_lower (trim input.payment_target);
              owner = owner;
              attestor = attestor;
              active = true;
              created_at = now;
            })
            s.services;
      scores = insert id (record { total_calls = 0; success_calls = 0 }) s.scores;
      attestations = insert id [] s.attestations;
      activity =
          push_activity
            (record { kind = service_registered; tx_hash = tx; service_id = id; timestamp = now })
            s.activity;
    }

unfoldable pub check_registration : RegisterInput → DevnetState → Result (Unit {0})
check_registration input s = do
  require (ltb (size s.services) 1000) Code.service_limit_reached 429
  require (not (is_empty (trim input.name))) Code.empty_name 400
  require (leb 1_000_000_000_000 (big_int input.price_wei)) Code.invalid_price 400
  require (is_prefixed_hex 40 (to_lower (trim input.payment_target))) Code.invalid_payment_target
      400

unfoldable pub identities : Hashing → RegisterInput → Result (Text × Text)
identities h input = do
  owner ← normalize_account h input.owner_public_key
  attestor ← normalize_account h input.attestor
  ok (owner, attestor)

-- The counters move before the two accounts are normalised, and stay moved if that throws.
unfoldable pub register_as :
    Hashing
    → ℕ
    → RegisterInput
    → Result (Text × Text)
    → DevnetState
    → Result (ℕ × Text) × DevnetState
unfolding store_service
register_as h now input who s =
    let id = s.next_service_id in
    let tx = h.digest (register_payload id input.name) (s.tx_counter + 1) in
    elim who [
      | err e ↦ (err e, record s { next_service_id = id + 1; tx_counter = s.tx_counter + 1 })
      | ok (owner, attestor) ↦ (
        ok (id, tx),
        record (store_service tx now input owner attestor s) {
          next_service_id = id + 1;
          tx_counter = s.tx_counter + 1;
        },
      )
    ]

unfoldable pub register_service :
    Hashing → ℕ → RegisterInput → DevnetState → Result (ℕ × Text) × DevnetState
unfolding register_as
register_service h now input s = elim (check_registration input s) [
  | err e ↦ (err e, s)
  | ok _ ↦ register_as h now input (identities h input) s
]

abbrev pub find_in : ℕ → Map ℕ InternalService → Result InternalService
find_in id services = elim (lookup id services) [
  | none ↦ fail Code.service_not_found 404
  | some service ↦ ok service
]

abbrev pub find_service : ℕ → DevnetState → Result InternalService
find_service id s = find_in id s.services

-- `seenPayments.has`, on the pair that the source joins with a colon.
unfoldable pub has_seen : ℕ → Text → List (ℕ × Text) → Bool
has_seen id tx [] = false
has_seen id tx (p ∷ seen) = (p.0 == id && text_beq p.1 tx) || has_seen id tx seen

abbrev pub score_or_zero : Option ServiceScore → ServiceScore
score_or_zero none = record { total_calls = 0; success_calls = 0 }
score_or_zero (some score) = score

unfoldable pub get_score : ℕ → DevnetState → ServiceScore
get_score id s = score_or_zero (lookup id s.scores)

abbrev pub counted : Bool → ServiceScore → ServiceScore
counted success score = record {
  total_calls = score.total_calls + 1;
  success_calls = if success then score.success_calls + 1 else score.success_calls;
}

abbrev pub list_or_empty : Option (List AttestationRecord) → List AttestationRecord
list_or_empty none = []
list_or_empty (some l) = l

-- `listAttestations`, without a limit.
unfoldable pub list_attestations : ℕ → DevnetState → List AttestationRecord
list_attestations id s = list_or_empty (lookup id s.attestations)

unfoldable pub store_attestation :
    Hashing → ℕ → AttestationInput → ℕ → DevnetState → Text × DevnetState
store_attestation h now input id s =
    let tx =
      h.digest (attestation_payload id input.payment_tx_hash input.success) (s.tx_counter + 1) in
    (
      tx,
      record s {
        tx_counter = s.tx_counter + 1;
        seen_payments = (id, input.payment_tx_hash) ∷ s.seen_payments;
        scores = insert id (counted input.success (get_score id s)) s.scores;
        attestations =
            insert id
              (take 100 (
                record {
                  service_id = id;
                  payment_tx_hash = input.payment_tx_hash;
                  success = input.success;
                  timestamp = now;
                  record_tx_hash = tx;
                }
                ∷ list_attestations id s))
              s.attestations;
        activity =
            push_activity
              (record { kind = attestation; tx_hash = tx; service_id = id; timestamp = now })
              s.activity;
      },
    )

unfoldable pub record_attestation :
    Hashing → ℕ → AttestationInput → DevnetState → Result (Text × DevnetState)
record_attestation h now input s = do
  service ← find_service input.service_id s
  by ← normalize_account h input.by_public_key
  require (text_beq by service.attestor || text_beq by service.owner) Code.not_authorized 403
  require service.active Code.service_inactive 400
  require (not (has_seen service.id input.payment_tx_hash s.seen_payments))
      Code.duplicate_attestation 409
  ok (store_attestation h now input service.id s)

unfoldable pub set_active : Hashing → ℕ → Bool → Text → DevnetState → Result (Text × DevnetState)
set_active h id active by_public_key s = do
  service ← find_service id s
  by ← normalize_account h by_public_key
  require (text_beq by service.owner) Code.not_authorized 403
  ok (
    h.digest (active_payload id active) (s.tx_counter + 1),
    record s {
      tx_counter = s.tx_counter + 1;
      services = insert id (record service { active = active }) s.services;
    },
  )
