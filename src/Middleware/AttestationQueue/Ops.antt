-- ===== src/Middleware/AttestationQueue/Ops.antt =====
-- Sequences of calls of the queue, and its invariant (packages/middleware/src/attestation-queue.ts).
use g_gate.Prelude.{
  ℕ, ◌+◌, inl, inr, Bool, true, false, Option, none, some, List, [], ◌∷◌, leb, Bool-cases,
  Option-cases, take,
}
use g_gate.Prelude.Maps
use g_gate.Prelude.Maps.{Map, lookup, insert, erase}
use g_gate.Prelude.Text.{Text, text_eq}
use g_gate.Middleware.AttestationQueue.{
  PendingAttestation, AttestationQueue, terminal_failure, gave_up, or_default, charged,
  prune_expired, enqueue, remove, settle_failure, record_failure, IsValid, carried_attempts,
}
use g_gate.Middleware.AttestationQueue.Prune.{move-IsValid, prune_expired-IsValid}

-- The calls that change the queue; `list` and `stats` change it as `prune` does.
pub data Op : Type 0 where
  enqueue_op : ℕ → PendingAttestation → Op
  remove_op : Text → Op
  failure_op : ℕ → Text → Bool → Text → Op
  prune_op : ℕ → Op

unfoldable pub step : Op → AttestationQueue → AttestationQueue
step (enqueue_op now item) q = enqueue now item q
step (remove_op hash) q = remove hash q
step (failure_op now hash terminal error) q = (record_failure now hash terminal error q).1
step (prune_op now) q = prune_expired now q

abbrev pub absent_count : Option PendingAttestation → ℕ
absent_count none = 1
absent_count (some _) = 0

abbrev pub present_count : Option PendingAttestation → ℕ
present_count none = 0
present_count (some _) = 1

-- 1 if the call brings in an attestation that was not live; 1 if it takes a live one out because
-- the chain confirmed it.
abbrev pub entered : Op → AttestationQueue → ℕ
entered (enqueue_op now item) q =
    absent_count (lookup item.payment_tx_hash (prune_expired now q).items)
entered (remove_op _) q = 0
entered (failure_op _ _ _ _) q = 0
entered (prune_op _) q = 0

abbrev pub confirmed : Op → AttestationQueue → ℕ
confirmed (remove_op hash) q = present_count (lookup hash q.items)
confirmed (enqueue_op _ _) q = 0
confirmed (failure_op _ _ _ _) q = 0
confirmed (prune_op _) q = 0

unfoldable pub run : List Op → AttestationQueue → AttestationQueue
run [] q = q
run (op ∷ ops) q = run ops (step op q)

unfoldable pub all_entered : List Op → AttestationQueue → ℕ
all_entered [] q = 0
all_entered (op ∷ ops) q = entered op q + all_entered ops (step op q)

unfoldable pub all_confirmed : List Op → AttestationQueue → ℕ
all_confirmed [] q = 0
all_confirmed (op ∷ ops) q = confirmed op q + all_confirmed ops (step op q)

insert-IsValid :
    (e : PendingAttestation) (q : AttestationQueue)
    → IsValid q
    → IsValid (record q { items = insert e.payment_tx_hash e q.items })
insert-IsValid e q v = record {
  unique = Maps.insert-IsUnique e.payment_tx_hash e q.items v.unique;
  keyed = Maps.insert-IsKeyed (λ i. i.payment_tx_hash) e q.items v.keyed;
  capped = v.capped;
  counted = v.counted;
}

pub enqueue-IsValid :
    (now : ℕ) (item : PendingAttestation) (q : AttestationQueue)
    → IsValid q
    → IsValid (enqueue now item q)
unfolding enqueue
enqueue-IsValid now item q v =
    insert-IsValid
      (record item {
        attempts =
            some (carried_attempts (lookup item.payment_tx_hash (prune_expired now q).items) item);
      })
      (prune_expired now q) (prune_expired-IsValid now q v)

pub remove-IsValid : (hash : Text) (q : AttestationQueue) → IsValid q → IsValid (remove hash q)
unfolding remove
remove-IsValid hash q v = record {
  unique = Maps.erase-IsUnique hash q.items v.unique;
  keyed = Maps.erase-IsKeyed (λ i. i.payment_tx_hash) hash q.items v.keyed;
  capped = v.capped;
  counted = v.counted;
}

settle_failure-IsValid :
    (now : ℕ) (e : PendingAttestation) (terminal : Bool) (error : Text) (q : AttestationQueue)
    → IsValid q
    → IsValid (settle_failure now e terminal error q).1
unfolding settle_failure
settle_failure-IsValid now e true error q v =
    move-IsValid now e (terminal_failure (take 500 error)) q v
settle_failure-IsValid now e false error q v =
    elim (Bool-cases (leb q.max_attempts (or_default e.attempts 0))) [
      | inl spent ↦
          rw spent (move-IsValid now e (gave_up (or_default e.attempts 0) (take 500 error)) q v)
      | inr left ↦ rw left (insert-IsValid e q v)
    ]

pub record_failure-IsValid :
    (now : ℕ) (hash : Text) (terminal : Bool) (error : Text) (q : AttestationQueue)
    → IsValid q
    → IsValid (record_failure now hash terminal error q).1
unfolding record_failure
record_failure-IsValid now hash terminal error q v = elim (Option-cases (lookup hash q.items)) [
  | inl n ↦ rw (n, record_failure) v
  | inr (e, s) ↦
      rw (s, record_failure) (settle_failure-IsValid now (charged e error) terminal error q v)
]

-- The invariant of the queue is kept by every call: one entry for each hash, under that hash, and
-- a log of dead letters that is within its bound and never longer than the count.
pub step-IsValid : (op : Op) (q : AttestationQueue) → IsValid q → IsValid (step op q)
unfolding step
step-IsValid (enqueue_op now item) q v = enqueue-IsValid now item q v
step-IsValid (remove_op hash) q v = remove-IsValid hash q v
step-IsValid (failure_op now hash terminal error) q v =
    record_failure-IsValid now hash terminal error q v
step-IsValid (prune_op now) q v = prune_expired-IsValid now q v
