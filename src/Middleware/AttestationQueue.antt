-- ===== src/Middleware/AttestationQueue.antt =====
-- packages/middleware/src/attestation-queue.ts: the attestations that wait for the chain, and
-- those that were given up. `Date.now()` is the argument `now`; all its readings in one call are
-- the same.
pub mod Prune
pub mod Ops
pub mod Balance
pub mod Budget
use g_gate.Prelude.{
  ℕ, ◌+◌, ◌-◌, ◌≤◌, Bool, true, false, ◌||◌, Option, none, some, List, [], ◌∷◌, ◌++◌, length, take,
  take_last, leb, ltb, if◌then◌else◌, is_some, max,
}
use g_gate.Prelude.Maps
use g_gate.Prelude.Maps.{Map, lookup, insert, erase, values, size}
use g_gate.Prelude.Text.{Text, text_eq}

pub record PendingAttestation : Type 0 where
  pub payment_tx_hash : Text
  pub service_id : ℕ
  pub nonce : Text
  pub payer : Text
  pub success : Bool
  pub enqueued_at : ℕ
  pub attempts : Option ℕ
  pub last_error : Option Text

-- The texts that the source builds for `reason`, with what it puts into them.
pub data DeadReason : Type 0 where
  terminal_failure : Text → DeadReason
  gave_up : ℕ → Text → DeadReason
  pruned_by_age : ℕ → DeadReason

pub record DeadLetteredAttestation : Type 0 where
  pub entry : PendingAttestation
  pub dead_lettered_at : ℕ
  pub reason : DeadReason

pub data FailureOutcome : Type 0 where
  retrying dead_lettered unknown : FailureOutcome

pub record QueueStats : Type 0 where
  pub pending : ℕ
  pub oldest_pending_age_ms : ℕ
  pub dead_lettered : ℕ

pub record QueueOptions : Type 0 where
  pub max_attempts : Option ℕ
  pub max_age_ms : Option ℕ
  pub max_dead_letters : Option ℕ

pub record AttestationQueue : Type 0 where
  pub items : Map Text PendingAttestation
  pub dead_letter_log : List DeadLetteredAttestation
  pub dead_lettered_total : ℕ
  pub max_attempts : ℕ
  pub max_age_ms : ℕ
  pub max_dead_letters : ℕ

-- `a ?? b`.
abbrev pub or_default : Option ℕ → ℕ → ℕ
or_default none d = d
or_default (some n) d = n

-- The constructor, with its three defaults; `none` is the `RangeError`.
unfoldable pub new_queue : QueueOptions → Option AttestationQueue
new_queue opts =
    let attempts = or_default opts.max_attempts 12 in
    let age = or_default opts.max_age_ms 604_800_000 in
    let letters = or_default opts.max_dead_letters 200 in
    if ltb attempts 1 || ltb age 1 || ltb letters 1
    then none
    else some (record {
      items = [];
      dead_letter_log = [];
      dead_lettered_total = 0;
      max_attempts = attempts;
      max_age_ms = age;
      max_dead_letters = letters;
    })

-- The log after one more dead letter: the last `maxDeadLetters` of it.
abbrev pub push_capped {ℓ} : {A : Type ℓ} → ℕ → List A → A → List A
push_capped cap log d =
    let longer = log ++ d ∷ [] in if ltb cap (length longer) then take_last cap longer else longer

unfoldable pub move_to_dead_letters :
    ℕ → PendingAttestation → DeadReason → AttestationQueue → AttestationQueue
move_to_dead_letters now entry reason q = record q {
  items = erase entry.payment_tx_hash q.items;
  dead_letter_log =
      push_capped q.max_dead_letters q.dead_letter_log
        (record { entry = entry; dead_lettered_at = now; reason = reason });
  dead_lettered_total = q.dead_lettered_total + 1;
}

-- `entry.enqueuedAt <= Date.now() - this.maxAgeMs`, with the subtraction carried over.
abbrev pub is_over_age : ℕ → ℕ → PendingAttestation → Bool
is_over_age now max_age_ms e = leb (e.enqueued_at + max_age_ms) now

-- The loop of `pruneExpired`, over the copy of the values that it makes.
unfoldable pub prune_from : ℕ → List PendingAttestation → AttestationQueue → AttestationQueue
prune_from now [] q = q
prune_from now (e ∷ es) q = prune_from now es (
    if is_over_age now q.max_age_ms e
    then move_to_dead_letters now e (pruned_by_age (now - e.enqueued_at)) q
    else q)

unfoldable pub prune_expired : ℕ → AttestationQueue → AttestationQueue
prune_expired now q = prune_from now (values q.items) q

-- `existing?.attempts ?? item.attempts ?? 0`.
abbrev pub carried_attempts : Option PendingAttestation → PendingAttestation → ℕ
carried_attempts none item = or_default item.attempts 0
carried_attempts (some existing) item = or_default existing.attempts (or_default item.attempts 0)

unfoldable pub enqueue : ℕ → PendingAttestation → AttestationQueue → AttestationQueue
enqueue now item q =
    let p = prune_expired now q in
    record p {
      items =
          insert item.payment_tx_hash
            (record item {
              attempts = some (carried_attempts (lookup item.payment_tx_hash p.items) item);
            })
            p.items;
    }

unfoldable pub remove : Text → AttestationQueue → AttestationQueue
remove hash q = record q { items = erase hash q.items }

unfoldable pub list : ℕ → AttestationQueue → List PendingAttestation × AttestationQueue
list now q = let p = prune_expired now q in (values p.items, p)

-- The entry with one more attempt spent.
abbrev pub charged : PendingAttestation → Text → PendingAttestation
charged e error = record e {
  attempts = some (or_default e.attempts 0 + 1);
  last_error = some (take 500 error);
}

-- What `recordFailure` does with a live entry that was charged.
unfoldable pub settle_failure :
    ℕ → PendingAttestation → Bool → Text → AttestationQueue → FailureOutcome × AttestationQueue
settle_failure now e true error q =
    (dead_lettered, move_to_dead_letters now e (terminal_failure (take 500 error)) q)
settle_failure now e false error q =
    if leb q.max_attempts (or_default e.attempts 0)
    then (
      dead_lettered,
      move_to_dead_letters now e (gave_up (or_default e.attempts 0) (take 500 error)) q,
    )
    else (retrying, record q { items = insert e.payment_tx_hash e q.items })

unfoldable pub record_failure :
    ℕ → Text → Bool → Text → AttestationQueue → FailureOutcome × AttestationQueue
record_failure now hash terminal error q = elim (lookup hash q.items) [
  | none ↦ (unknown, q)
  | some e ↦ settle_failure now (charged e error) terminal error q
]

-- The loop of `stats`; an age below 0 counts as 0.
abbrev pub oldest_age : ℕ → List PendingAttestation → ℕ
oldest_age now [] = 0
oldest_age now (e ∷ es) = max (now - e.enqueued_at) (oldest_age now es)

unfoldable pub stats : ℕ → AttestationQueue → QueueStats × AttestationQueue
stats now q =
    let p = prune_expired now q in
    (
      record {
        pending = size p.items;
        oldest_pending_age_ms = oldest_age now (values p.items);
        dead_lettered = p.dead_lettered_total;
      },
      p,
    )

-- What `Map` keeps by itself, every entry under its own hash, and the bounds of the log.
pub record IsValid (q : AttestationQueue) : Type 0 where
  pub unique : Maps.IsUnique q.items
  pub keyed : Maps.IsKeyed (λ e. e.payment_tx_hash) q.items
  pub capped : length q.dead_letter_log ≤ q.max_dead_letters
  pub counted : length q.dead_letter_log ≤ q.dead_lettered_total
