-- ===== src/Devnet/Scores.antt =====
-- What the scores on the mock chain count (packages/devnet/src/state.ts: recordAttestation).
use g_gate.Prelude.{ℕ, ◌+◌, ◌≤◌, ◌≡◌, false, List, [], ◌∷◌, ◌==◌, if◌then◌else◌, nat_eq}
use g_gate.Prelude.Text.{Text}
use g_gate.Shared.Errors.{ok}
use g_gate.Devnet.{DevnetState, InternalService, Hashing}
use g_gate.Devnet.Registry.{AttestationInput, find_service, has_seen, get_score, store_attestation}

-- The attested payments of a service.
unfoldable pub attested : ℕ → List (ℕ × Text) → ℕ
attested id [] = 0
attested id (p ∷ seen) = (if p.0 == id then 1 else 0) + attested id seen

-- A service's score counts its attested payments, and the successes are among the calls.
pub record IsTallied (id : ℕ) (s : DevnetState) : Type 0 where
  pub calls : (get_score id s).total_calls ≡ attested id s.seen_payments
  pub successes : (get_score id s).success_calls ≤ (get_score id s).total_calls

-- The parts of an attestation that was accepted.
record IsRecorded (h : Hashing) (now : ℕ) (input : AttestationInput) (s s' : DevnetState)
    : Type 0 where
  service : InternalService
  found : find_service input.service_id s ≡ ok service
  new : has_seen service.id input.payment_tx_hash s.seen_payments ≡ false
  stored : (store_attestation h now input service.id s).1 ≡ s'
