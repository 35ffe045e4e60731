-- ===== src/Tests/Replay.antt =====
-- Restarts of the attestation queue, runs of attempts and failures at concrete inputs
-- (packages/middleware/src).
use g_gate.Prelude.{
  ℕ, zero, suc, ◌+◌, ◌*◌, ◌^◌, ◌≤◌, ◌<◌, ◌≡◌, ◌⊎◌, ◌↔◌, refl, Bool, true, false, not, Option, none,
  some, List, [], ◌∷◌, arith, keep_if, length,
}
use g_gate.Prelude.Maps.{lookup, insert}
use g_gate.Prelude.Text.{Text, codes, text_eq}
use g_gate.Shared.Errors.{Result, ok, fail, Code}
use g_gate.Middleware.AttestationQueue.{
  PendingAttestation, QueueOptions, IsValid, is_over_age, new_queue,
}
use g_gate.Middleware.AttestationQueue.Ops
use g_gate.Middleware.AttestationQueue.Ops.{Op, enqueue_op, failure_op}
use g_gate.Middleware.FileAttestationQueue
use g_gate.Middleware.FileAttestationQueue.{FileAttestationQueue, entries, letters}
use g_gate.Middleware.FileAttestationQueue.Durable.{restart-run}
use g_gate.Middleware.Attester.{
  AttestationRun, Boot, run_attestation, is_confirmed, replayed, replay_pending,
}
use g_gate.Middleware.Attester.Attempts.{EndsWell, EndsBadly, run_attestation_ends}
use g_gate.Middleware.Attester.Replay.{lookup-replay_pending}
use g_gate.Middleware.AttestationErrors.{
  Thrown, nullish, object, ErrorObject, any_of, error_parts, names_terminal,
  is_terminal_attestation_error,
}
use g_gate.Middleware.AttestationErrors.Words.{HasWord}
use g_gate.Middleware.AttestationErrors.Causes.{Says}
use g_gate.Middleware.AttestationErrors.Terminal.{IsTerminalName, is_terminal_attestation_error_iff}

-- An entry that an older build wrote, without a count of attempts.
abbrev sale : PendingAttestation
sale = record {
  payment_tx_hash = codes "0xab";
  service_id = 7;
  nonce = codes "42";
  payer = codes "0x22";
  success = true;
  enqueued_at = 1000;
  attempts = none;
  last_error = none;
}

abbrev options : QueueOptions
options = record { max_attempts = some 3; max_age_ms = some 5000; max_dead_letters = some 2 }

abbrev booted : FileAttestationQueue
booted = record {
  memory = record {
    items = (codes "0xab", record sale { attempts = some 0 }) ∷ [];
    dead_letter_log = [];
    dead_lettered_total = 4;
    max_attempts = 3;
    max_age_ms = 5000;
    max_dead_letters = 2;
  };
  queue_file = entries (some sale ∷ none ∷ []);
  letter_file = letters (some 4) [];
}

abbrev ops : List Op
ops = failure_op 2000 (codes "0xab") false (codes "rpc down") ∷ enqueue_op 2100 sale ∷ []

restart-run_example :
    ((FileAttestationQueue.run ops booted).memory ≡ Ops.run ops booted.memory)
    × (FileAttestationQueue.load
          (FileAttestationQueue.run ops booted).queue_file
          (FileAttestationQueue.run ops booted).letter_file
          (FileAttestationQueue.run ops booted).memory
        ≡ (FileAttestationQueue.run ops booted).memory)
unfolding FileAttestationQueue.boot FileAttestationQueue.load new_queue insert
restart-run_example =
    restart-run options (entries (some sale ∷ none ∷ [])) (letters (some 4) []) booted ops refl
      (omega arith)

-- The chain is down for two attempts.
abbrev chain : ℕ → Result Text
chain zero = fail Code.chain_failure 500
chain (suc zero) = fail Code.chain_failure 500
chain (suc (suc zero)) = fail Code.chain_failure 500
chain (suc (suc (suc n))) = ok (codes "0xcd")

waits_double :
    run_attestation 5 1000 chain ≡ some (record { confirmed = true; waits = 1000 ∷ 2000 ∷ [] })
unfolding run_attestation g_gate.Middleware.Attester.attempt_from
    g_gate.Middleware.Attester.after_attempt
waits_double = refl

run_attestation_ends_example :
    (r : AttestationRun) × (run_attestation 2 1000 chain ≡ some r)
    × (EndsWell 2 1000 chain 0 r ⊎ EndsBadly 2 1000 chain 0 r)
run_attestation_ends_example = run_attestation_ends 2 1000 chain (omega arith)

abbrev boot : Boot
boot = record {
  max_attempts = 5;
  delay_ms = 1000;
  get_service = λ id. fail Code.chain_failure 500;
  chain = λ p service. chain;
}

live : IsValid booted.memory
unfolding lookup
live = record {
  unique = (refl, tt);
  keyed = (refl, tt);
  capped = omega arith;
  counted = omega arith;
}

-- The chain does not know the service, so the entry is kept.
lookup-replay_pending_example :
    lookup (codes "0xab") (replay_pending boot 2000 booted.memory).items
    ≡ keep_if
        (λ e. not (is_confirmed (replayed boot e)))
        (keep_if (λ e. not (is_over_age 2000 5000 e)) (lookup (codes "0xab") booted.memory.items))
lookup-replay_pending_example = lookup-replay_pending boot 2000 (codes "0xab") booted.memory live

-- An error whose cause is the error itself.
abbrev heap : ℕ → ErrorObject
heap n = record {
  message = some (codes "the call failed");
  short_message = none;
  details = some (codes "execution reverted: SelfPayment()");
  error_name = none;
  cause = object n;
}

is_terminal_attestation_error_iff_example :
    (is_terminal_attestation_error heap (object 0) ≡ true)
    ↔ ((s : Text) × (name : Text) × Says 8 heap (object 0) s × IsTerminalName name × HasWord name s)
is_terminal_attestation_error_iff_example = is_terminal_attestation_error_iff heap (object 0)

self_payment_terminal : is_terminal_attestation_error heap (object 0) ≡ true
unfolding is_terminal_attestation_error g_gate.Middleware.AttestationErrors.describe_error_chain
    g_gate.Middleware.AttestationErrors.chain_parts g_gate.Middleware.AttestationErrors.found_word
    g_gate.Middleware.AttestationErrors.word_at g_gate.Prelude.Text.join
    g_gate.Prelude.Text.drop_prefix
self_payment_terminal = refl
