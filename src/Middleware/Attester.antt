-- ===== src/Middleware/Attester.antt =====
-- packages/middleware/src/app.ts: runAttestation, the attempts to attest one served call, and
-- replayPendingAttestations at the boot. The chain's answer to each attempt of a run is a
-- parameter, as is the service cache.
pub mod Attempts
pub mod Replay
use g_gate.Prelude.{
  ℕ, zero, suc, ◌+◌, ◌-◌, ◌*◌, ◌^◌, Bool, true, false, Option, none, some, List, [], ◌∷◌, leb,
  if◌then◌else◌,
}
use g_gate.Prelude.Text.{Text}
use g_gate.Shared.Errors.{Result, ok, err}
use g_gate.Shared.Types.{ServiceRecord}
use g_gate.Middleware.AttestationQueue
use g_gate.Middleware.AttestationQueue.{AttestationQueue, PendingAttestation, remove}

-- A run that is over: whether the chain confirmed it, and the waits between its attempts.
pub record AttestationRun : Type 0 where
  pub confirmed : Bool
  pub waits : List ℕ

abbrev pub after_wait : ℕ → Option AttestationRun → Option AttestationRun
after_wait ms none = none
after_wait ms (some r) = some (record { confirmed = r.confirmed; waits = ms ∷ r.waits })

-- What follows the attempt `n`, where `rest` is what the further attempts give.
unfoldable pub after_attempt :
    ℕ → ℕ → ℕ → Result Text → Option AttestationRun → Option AttestationRun
after_attempt max_attempts delay_ms n (ok hash) rest =
    some (record { confirmed = true; waits = [] })
after_attempt max_attempts delay_ms n (err e) rest =
    if leb max_attempts n
    then some (record { confirmed = false; waits = [] })
    else after_wait (delay_ms * 2 ^ (n - 1)) rest

-- `attempt(n)`; `none` is a run cut off before its end.
unfoldable pub attempt_from : ℕ → ℕ → ℕ → (ℕ → Result Text) → ℕ → Option AttestationRun
attempt_from zero max_attempts delay_ms chain n = none
attempt_from (suc fuel) max_attempts delay_ms chain n =
    after_attempt max_attempts delay_ms n (chain n)
      (attempt_from fuel max_attempts delay_ms chain (suc n))

-- The fuel is one more than the attempts that the option allows, which the loop never uses up.
unfoldable pub run_attestation : ℕ → ℕ → (ℕ → Result Text) → Option AttestationRun
run_attestation max_attempts delay_ms chain =
    attempt_from (suc max_attempts) max_attempts delay_ms chain 1

abbrev pub is_confirmed : Option AttestationRun → Bool
is_confirmed none = false
is_confirmed (some r) = r.confirmed

-- A run that has ended drops the entry from the queue if the chain confirmed it.
abbrev pub settle_run : Text → Option AttestationRun → AttestationQueue → AttestationQueue
settle_run hash r q = if is_confirmed r then remove hash q else q

-- `services.get(…).catch(() => null)`.
abbrev pub service_or_null : Result (Option ServiceRecord) → Option ServiceRecord
service_or_null (ok service) = service
service_or_null (err e) = none

-- What the boot knows: the services and, for each entry, the chain's answers to its run.
pub record Boot : Type 0 where
  pub max_attempts : ℕ
  pub delay_ms : ℕ
  pub get_service : ℕ → Result (Option ServiceRecord)
  pub chain : PendingAttestation → ServiceRecord → ℕ → Result Text

-- The run of one entry; an entry of an unknown service is skipped.
unfoldable pub replayed : Boot → PendingAttestation → Option AttestationRun
replayed b p = elim (service_or_null (b.get_service p.service_id)) [
  | none ↦ none
  | some service ↦ run_attestation b.max_attempts b.delay_ms (b.chain p service)
]

-- The loop over the entries, when every run has ended.
unfoldable pub replay_each : Boot → List PendingAttestation → AttestationQueue → AttestationQueue
replay_each b [] q = q
replay_each b (p ∷ ps) q = replay_each b ps (settle_run p.payment_tx_hash (replayed b p) q)

unfoldable pub replay_pending : Boot → ℕ → AttestationQueue → AttestationQueue
replay_pending b now q = let (pending, q') = AttestationQueue.list now q in replay_each b pending q'
