-- ===== src/Middleware/AttestationQueue/Balance.antt =====
-- No attestation leaves the books of the queue: it waits, it was confirmed, or it is counted as
-- given up (packages/middleware/src/attestation-queue.ts).
use g_gate.Prelude.{
  ℕ, ◌+◌, ◌-◌, ◌≡◌, ◌≢◌, refl, sym, subst, ◌∙◌, inl, inr, Bool, true, false, none, some, List, [],
  ◌∷◌, arith, Bool-cases, Option-cases, All, take,
}
use g_gate.Prelude.Maps
use g_gate.Prelude.Maps.{Map, lookup, insert, erase, values, size, lookup-erase_ne}
use g_gate.Prelude.Text.{Text, text_eq, text_beq_iff}
use g_gate.Middleware.AttestationQueue.{
  PendingAttestation, DeadReason, AttestationQueue, move_to_dead_letters, pruned_by_age,
  terminal_failure, gave_up, or_default, charged, is_over_age, prune_from, prune_expired, enqueue,
  remove, settle_failure, record_failure, IsValid, carried_attempts,
}
use g_gate.Middleware.AttestationQueue.Ops.{
  Op, enqueue_op, remove_op, failure_op, prune_op, step, run, absent_count, present_count, entered,
  confirmed, all_entered, all_confirmed, step-IsValid,
}

-- The entries lie under their hashes in the map, no hash twice.
abbrev Live : List PendingAttestation → Map Text PendingAttestation → Type 0
Live [] m = Unit
Live (e ∷ es) m =
    (lookup e.payment_tx_hash m ≡ some e)
    × All (λ d. d.payment_tx_hash ≢ e.payment_tx_hash) es
    × Live es m

Live-erase :
    (h : Text) (es : List PendingAttestation) (m : Map Text PendingAttestation)
    → All (λ d. d.payment_tx_hash ≢ h) es
    → Live es m
    → Live es (erase h m)
Live-erase h [] m a l = tt
Live-erase h (e ∷ es) m a l =
    (lookup-erase_ne e.payment_tx_hash h m a.0 ∙ l.0, l.1, Live-erase h es m a.1 l.2)

Live-cons :
    (k : Text) (v : PendingAttestation) (es : List PendingAttestation)
    (m : Map Text PendingAttestation)
    → All (λ d. d.payment_tx_hash ≢ k) es
    → Live es m
    → Live es ((k, v) ∷ m)
unfolding lookup
Live-cons k v [] m a l = tt
Live-cons k v (e ∷ es) m a l =
    (ground (arith, a.0, l.0, text_beq_iff k e.payment_tx_hash), l.1, Live-cons k v es m a.1 l.2)

values-differ :
    (k : Text) (m : Map Text PendingAttestation)
    → Maps.IsKeyed (λ e. e.payment_tx_hash) m
    → lookup k m ≡ none
    → All (λ d. d.payment_tx_hash ≢ k) (values m)
unfolding lookup
values-differ k [] h n = tt
values-differ k ((i, e) ∷ m) h n =
    (λ s. ground (arith, s, h.0, n, text_beq_iff i k), values-differ k m h.1 (ground arith))

Live-values :
    (m : Map Text PendingAttestation)
    → Maps.IsKeyed (λ e. e.payment_tx_hash) m
    → Maps.IsUnique m
    → Live (values m) m
unfolding lookup
Live-values [] k u = tt
Live-values ((i, e) ∷ m) k u =
    let differ : All (λ d. d.payment_tx_hash ≢ i) (values m) = values-differ i m k.1 u.0 in
    (
      ground (arith, k.0, text_beq_iff i e.payment_tx_hash),
      rw k.0 differ,
      Live-cons i e (values m) m differ (Live-values m k.1 u.1),
    )

-- What the queue accounts for: the live entries and those given up.
abbrev pub booked : AttestationQueue → ℕ
booked q = size q.items + q.dead_lettered_total

booked-move :
    (now : ℕ) (e : PendingAttestation) (r : DeadReason) (q : AttestationQueue)
    {d : PendingAttestation}
    → lookup e.payment_tx_hash q.items ≡ some d
    → booked (move_to_dead_letters now e r q) ≡ booked q
unfolding move_to_dead_letters
booked-move now e r q {d} l = omega (arith, Maps.size-erase e.payment_tx_hash d q.items l)

items-move :
    (now : ℕ) (e : PendingAttestation) (r : DeadReason) (q : AttestationQueue)
    → (move_to_dead_letters now e r q).items ≡ erase e.payment_tx_hash q.items
unfolding move_to_dead_letters
items-move now e r q = refl

booked-prune_from :
    (now : ℕ) (es : List PendingAttestation) (q : AttestationQueue)
    → Live es q.items
    → booked (prune_from now es q) ≡ booked q
unfolding prune_from
booked-prune_from now [] q l = refl
booked-prune_from now (e ∷ es) q l = elim (Bool-cases (is_over_age now q.max_age_ms e)) [
  | inl old ↦
      let r : DeadReason = pruned_by_age (now - e.enqueued_at) in
      rw (old, prune_from)
        (booked-prune_from now es (move_to_dead_letters now e r q)
            (rw (items-move now e r q) (Live-erase e.payment_tx_hash es q.items l.1 l.2))
          ∙ booked-move now e r q l.0)
  | inr young ↦ rw (young, prune_from) (booked-prune_from now es q l.2)
]

-- Pruning moves entries from the live queue to the dead letters, one for one.
pub booked-prune_expired :
    (now : ℕ) (q : AttestationQueue) → IsValid q → booked (prune_expired now q) ≡ booked q
unfolding prune_expired
booked-prune_expired now q v =
    booked-prune_from now (values q.items) q (Live-values q.items v.keyed v.unique)

size-insert :
    (k : Text) (v : PendingAttestation) (m : Map Text PendingAttestation)
    → size (insert k v m) ≡ size m + absent_count (lookup k m)
size-insert k v m = elim (Option-cases (lookup k m)) [
  | inl n ↦ rw n (Maps.size-insert_new k v m n)
  | inr (w, s) ↦ rw s (omega (arith, Maps.size-insert_old k v w m s))
]

size-erase :
    (k : Text) (m : Map Text PendingAttestation)
    → size (erase k m) + present_count (lookup k m) ≡ size m
size-erase k m = elim (Option-cases (lookup k m)) [
  | inl n ↦ rw (n, Maps.erase_absent k m n) (omega arith)
  | inr (w, s) ↦ rw s (Maps.size-erase k w m s)
]

booked-settle_failure :
    (now : ℕ) (e : PendingAttestation) (terminal : Bool) (error : Text) (q : AttestationQueue)
    {d : PendingAttestation}
    → lookup e.payment_tx_hash q.items ≡ some d
    → booked (settle_failure now e terminal error q).1 ≡ booked q
unfolding settle_failure
booked-settle_failure now e true error q l =
    booked-move now e (terminal_failure (take 500 error)) q l
booked-settle_failure now e false error q {d} l = ground (
  arith,
  Maps.size-insert_old e.payment_tx_hash e d q.items l,
  booked-move now e (gave_up (or_default e.attempts 0) (take 500 error)) q l,
)

booked-record_failure :
    (now : ℕ) (hash : Text) (terminal : Bool) (error : Text) (q : AttestationQueue)
    → IsValid q
    → booked (record_failure now hash terminal error q).1 ≡ booked q
unfolding record_failure
booked-record_failure now hash terminal error q v = elim (Option-cases (lookup hash q.items)) [
  | inl n ↦ rw (n, record_failure) refl
  | inr (e, s) ↦
      let same : e.payment_tx_hash ≡ hash =
        Maps.lookup-IsKeyed (λ i. i.payment_tx_hash) hash e q.items v.keyed s in
      rw (s, record_failure)
        (booked-settle_failure now (charged e error) terminal error q {d = e}
          (subst (λ k. lookup k q.items ≡ some e) (sym same) s))
]

booked-enqueue :
    (now : ℕ) (item : PendingAttestation) (q : AttestationQueue)
    → IsValid q
    → booked (enqueue now item q)
      ≡ booked q + absent_count (lookup item.payment_tx_hash (prune_expired now q).items)
unfolding enqueue
booked-enqueue now item q v = omega (
  arith,
  booked-prune_expired now q v,
  size-insert item.payment_tx_hash
      (record item {
        attempts =
            some (carried_attempts (lookup item.payment_tx_hash (prune_expired now q).items) item);
      })
      (prune_expired now q).items,
)

booked-remove :
    (hash : Text) (q : AttestationQueue)
    → booked (remove hash q) + present_count (lookup hash q.items) ≡ booked q
unfolding remove
booked-remove hash q = omega (arith, size-erase hash q.items)

step-booked :
    (op : Op) (q : AttestationQueue)
    → IsValid q
    → booked (step op q) + confirmed op q ≡ booked q + entered op q
unfolding step
step-booked (enqueue_op now item) q v = omega (arith, booked-enqueue now item q v)
step-booked (remove_op hash) q v = omega (arith, booked-remove hash q)
step-booked (failure_op now hash terminal error) q v =
    omega (arith, booked-record_failure now hash terminal error q v)
step-booked (prune_op now) q v = omega (arith, booked-prune_expired now q v)

-- Over any sequence of calls on a valid queue, the attestations that entered it are all
-- accounted for: what is live or counted as dead-lettered at the end, with what was removed as
-- confirmed on the way, is what was live or counted at the start with what entered.
pub run-booked :
    (ops : List Op) (q : AttestationQueue)
    → IsValid q
    → booked (run ops q) + all_confirmed ops q ≡ booked q + all_entered ops q
unfolding run all_confirmed all_entered
run-booked [] q v = omega arith
run-booked (op ∷ ops) q v =
    omega (arith, step-booked op q v, run-booked ops (step op q) (step-IsValid op q v))
