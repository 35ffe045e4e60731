-- ===== src/Middleware/FileAttestationQueue/Counted.antt =====
-- Every entry of a queue says how many attempts it has spent (packages/middleware/src:
-- attestation-queue.ts, attestation-queue-file.ts).
use g_gate.Prelude.{
  ℕ, ◌-◌, ◌≡◌, refl, inl, inr, Bool, true, false, some, List, [], ◌∷◌, ◌++◌, length, arith,
  Option-cases, Bool-cases, is_some, ltb, leb, take, take_last, All, All-append, All-drop,
  if◌then◌else◌,
}
use g_gate.Prelude.Maps.{Map, lookup, insert, erase, values}
use g_gate.Prelude.Text.{Text, text_eq, text_beq}
use g_gate.Middleware.AttestationQueue.{
  AttestationQueue, PendingAttestation, DeadLetteredAttestation, DeadReason, or_default,
  is_over_age, pruned_by_age, gave_up, terminal_failure, prune_from, prune_expired, enqueue, remove,
  record_failure, push_capped, move_to_dead_letters, settle_failure, charged,
}
use g_gate.Middleware.AttestationQueue.Ops
use g_gate.Middleware.AttestationQueue.Ops.{
  Op, enqueue_op, remove_op, failure_op, prune_op, step-IsValid,
}

-- An entry that says how many attempts it has spent.
abbrev pub IsCounted : PendingAttestation → Type 0
IsCounted e = is_some e.attempts ≡ true

abbrev pub IsCountedLetter : DeadLetteredAttestation → Type 0
IsCountedLetter d = IsCounted d.entry

-- The queue's entries all say how many attempts they have spent, the live and the dead ones.
pub record IsBudgeted (q : AttestationQueue) : Type 0 where
  pub live : All IsCounted (values q.items)
  pub dead : All IsCountedLetter q.dead_letter_log

pub All-insert :
    (k : Text) (v : PendingAttestation) (m : Map Text PendingAttestation)
    → IsCounted v
    → All IsCounted (values m)
    → All IsCounted (values (insert k v m))
unfolding insert
All-insert k v [] c h = (c, tt)
All-insert k v ((j, w) ∷ m) c (d, h) =
    elim (text_beq j k)
      as (λ b. All IsCounted (values (if b then (k, v) ∷ m else (j, w) ∷ insert k v m))) [
        | true ↦ (c, h)
        | false ↦ (d, All-insert k v m c h)
      ]

All-erase :
    (k : Text) (m : Map Text PendingAttestation)
    → All IsCounted (values m)
    → All IsCounted (values (erase k m))
unfolding erase
All-erase k [] h = tt
All-erase k ((j, w) ∷ m) (d, h) =
    elim (text_beq j k) as (λ b. All IsCounted (values (if b then m else (j, w) ∷ erase k m))) [
      | true ↦ h
      | false ↦ (d, All-erase k m h)
    ]

All-lookup :
    (k : Text) (e : PendingAttestation) (m : Map Text PendingAttestation)
    → All IsCounted (values m)
    → lookup k m ≡ some e
    → IsCounted e
unfolding lookup
All-lookup k e [] h s = cc
All-lookup k e ((j, w) ∷ m) (d, h) s = ground (arith, d, s, All-lookup k e m h)

All-push_capped :
    (cap : ℕ) (log : List DeadLetteredAttestation) (d : DeadLetteredAttestation)
    → All IsCountedLetter log
    → IsCountedLetter d
    → All IsCountedLetter (push_capped cap log d)
All-push_capped cap log d h c =
    let longer : All IsCountedLetter (log ++ d ∷ []) =
      All-append IsCountedLetter log (d ∷ []) h (c, tt) in
    elim (ltb cap (length (log ++ d ∷ [])))
      as (λ b. All IsCountedLetter (if b then take_last cap (log ++ d ∷ []) else log ++ d ∷ [])) [
        | true ↦ All-drop IsCountedLetter _ (log ++ d ∷ []) longer
        | false ↦ longer
      ]

move-IsBudgeted :
    (now : ℕ) (e : PendingAttestation) (r : DeadReason) (q : AttestationQueue)
    → IsCounted e
    → IsBudgeted q
    → IsBudgeted (move_to_dead_letters now e r q)
unfolding move_to_dead_letters
move-IsBudgeted now e r q c b = record {
  live = All-erase e.payment_tx_hash q.items b.live;
  dead = All-push_capped q.max_dead_letters q.dead_letter_log _ b.dead c;
}

prune_from-IsBudgeted :
    (now : ℕ) (es : List PendingAttestation) (q : AttestationQueue)
    → All IsCounted es
    → IsBudgeted q
    → IsBudgeted (prune_from now es q)
unfolding prune_from
prune_from-IsBudgeted now [] q c b = b
prune_from-IsBudgeted now (e ∷ es) q (c, cs) b =
    prune_from-IsBudgeted now es _ cs
      (elim (is_over_age now q.max_age_ms e)
        as (λ old.
          IsBudgeted (
            if old
            then move_to_dead_letters now e (pruned_by_age (now - e.enqueued_at)) q
            else q)) [
              | true ↦ move-IsBudgeted now e (pruned_by_age (now - e.enqueued_at)) q c b
              | false ↦ b
            ])

insert-IsBudgeted :
    (e : PendingAttestation) (q : AttestationQueue)
    → IsCounted e
    → IsBudgeted q
    → IsBudgeted (record q { items = insert e.payment_tx_hash e q.items })
insert-IsBudgeted e q c b = record {
  live = All-insert e.payment_tx_hash e q.items c b.live;
  dead = b.dead;
}

settle_failure-IsBudgeted :
    (now : ℕ) (e : PendingAttestation) (terminal : Bool) (error : Text) (q : AttestationQueue)
    → IsCounted e
    → IsBudgeted q
    → IsBudgeted (settle_failure now e terminal error q).1
unfolding settle_failure
settle_failure-IsBudgeted now e true error q c b =
    move-IsBudgeted now e (terminal_failure (take 500 error)) q c b
settle_failure-IsBudgeted now e false error q c b =
    elim (Bool-cases (leb q.max_attempts (or_default e.attempts 0))) [
      | inl spent ↦
          rw spent
            (move-IsBudgeted now e (gave_up (or_default e.attempts 0) (take 500 error)) q c b)
      | inr left ↦ rw left (insert-IsBudgeted e q c b)
    ]

record_failure-IsBudgeted :
    (now : ℕ) (hash : Text) (terminal : Bool) (error : Text) (q : AttestationQueue)
    → IsBudgeted q
    → IsBudgeted (record_failure now hash terminal error q).1
unfolding record_failure
record_failure-IsBudgeted now hash terminal error q b = elim (Option-cases (lookup hash q.items)) [
  | inl n ↦ rw (n, record_failure) b
  | inr (e, s) ↦
      rw (s, record_failure)
        (settle_failure-IsBudgeted now (charged e error) terminal error q refl b)
]

pub step-IsBudgeted : (op : Op) (q : AttestationQueue) → IsBudgeted q → IsBudgeted (Ops.step op q)
unfolding Ops.step enqueue remove prune_expired
step-IsBudgeted (enqueue_op now item) q b =
    insert-IsBudgeted _ (prune_expired now q) refl
      (prune_from-IsBudgeted now (values q.items) q b.live b)
step-IsBudgeted (remove_op hash) q b = record {
  live = All-erase hash q.items b.live;
  dead = b.dead;
}
step-IsBudgeted (failure_op now hash terminal error) q b =
    record_failure-IsBudgeted now hash terminal error q b
step-IsBudgeted (prune_op now) q b = prune_from-IsBudgeted now (values q.items) q b.live b
