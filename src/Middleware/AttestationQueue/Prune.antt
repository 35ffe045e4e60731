-- ===== src/Middleware/AttestationQueue/Prune.antt =====
-- The moves to the dead-letter log (packages/middleware/src/attestation-queue.ts:
-- moveToDeadLetters, pruneExpired).
use g_gate.Prelude.{
  ℕ, ◌+◌, ◌-◌, ◌≤◌, ◌≡◌, refl, sym, ◌∙◌, inl, inr, Bool, true, false, not, ◌&&◌, ◌||◌, none, List,
  [], ◌∷◌, ◌++◌, arith, length, length-append, length-drop, ltb, if◌then◌else◌, keep_if, Bool-cases,
}
use g_gate.Prelude.Maps
use g_gate.Prelude.Maps.{
  Map, lookup, insert, erase, values, size, lookup-erase_ne, lookup-erase_self,
}
use g_gate.Prelude.Text.{Text, text_eq, text_beq, text_beq_iff}
use g_gate.Middleware.AttestationQueue.{
  PendingAttestation, DeadLetteredAttestation, DeadReason, AttestationQueue, push_capped,
  move_to_dead_letters, pruned_by_age, is_over_age, prune_from, prune_expired, IsValid,
}

pub length-push_capped {ℓ} :
    {A : Type ℓ} (cap : ℕ) (log : List A) (d : A)
    → length log ≤ cap
    → (length (push_capped cap log d) ≤ cap) × (length (push_capped cap log d) ≤ length log + 1)
length-push_capped cap log d h = elim (Bool-cases (ltb cap (length (log ++ d ∷ [])))) [
  | inl long ↦ rw long (
      omega (
        arith,
        length-append log (d ∷ []),
        length-drop (length (log ++ d ∷ []) - cap) (log ++ d ∷ []),
      ))
  | inr short ↦ rw short (ground (arith, length-append log (d ∷ []), short))
]

pub move-IsValid :
    (now : ℕ) (e : PendingAttestation) (r : DeadReason) (q : AttestationQueue)
    → IsValid q
    → IsValid (move_to_dead_letters now e r q)
unfolding move_to_dead_letters
move-IsValid now e r q v =
    let d : DeadLetteredAttestation = record { entry = e; dead_lettered_at = now; reason = r } in
    let (cap, more) = length-push_capped q.max_dead_letters q.dead_letter_log d v.capped in
    record {
      unique = Maps.erase-IsUnique e.payment_tx_hash q.items v.unique;
      keyed = Maps.erase-IsKeyed (λ i. i.payment_tx_hash) e.payment_tx_hash q.items v.keyed;
      capped = cap;
      counted = omega (arith, more, v.counted);
    }

pub prune_from-IsValid :
    (now : ℕ) (es : List PendingAttestation) (q : AttestationQueue)
    → IsValid q
    → IsValid (prune_from now es q)
unfolding prune_from
prune_from-IsValid now [] q v = v
prune_from-IsValid now (e ∷ es) q v =
    prune_from-IsValid now es _
      (elim (is_over_age now q.max_age_ms e)
        as (λ b.
          IsValid
            (if b then move_to_dead_letters now e (pruned_by_age (now - e.enqueued_at)) q else q)) [
              | true ↦ move-IsValid now e (pruned_by_age (now - e.enqueued_at)) q v
              | false ↦ v
            ])

-- Some entry of the list has the hash and passes the test.
abbrev pub some_with : (PendingAttestation → Bool) → Text → List PendingAttestation → Bool
some_with p h [] = false
some_with p h (e ∷ es) = (p e && text_beq e.payment_tx_hash h) || some_with p h es

max_age-move :
    (now : ℕ) (e : PendingAttestation) (r : DeadReason) (q : AttestationQueue)
    → (move_to_dead_letters now e r q).max_age_ms ≡ q.max_age_ms
unfolding move_to_dead_letters
max_age-move now e r q = refl

lookup-move :
    (now : ℕ) (h : Text) (e : PendingAttestation) (r : DeadReason) (q : AttestationQueue)
    → IsValid q
    → lookup h (move_to_dead_letters now e r q).items
      ≡ (if text_beq e.payment_tx_hash h then none else lookup h q.items)
unfolding move_to_dead_letters
lookup-move now h e r q v = elim (Bool-cases (text_beq e.payment_tx_hash h)) [
  | inl y ↦
      let same : e.payment_tx_hash ≡ h = (text_beq_iff e.payment_tx_hash h).0 y in
      rw (y, sym same) (lookup-erase_self e.payment_tx_hash q.items v.unique)
  | inr n ↦ rw n (
      lookup-erase_ne h e.payment_tx_hash q.items
        (λ s. ground (arith, s, n, text_beq_iff e.payment_tx_hash h)))
]

lookup-prune_from :
    (now : ℕ) (h : Text) (es : List PendingAttestation) (q : AttestationQueue)
    → IsValid q
    → lookup h (prune_from now es q).items
      ≡ (if some_with (is_over_age now q.max_age_ms) h es then none else lookup h q.items)
unfolding prune_from
lookup-prune_from now h [] q v = refl
lookup-prune_from now h (e ∷ es) q v = elim (Bool-cases (is_over_age now q.max_age_ms e)) [
  | inl old ↦
      let r : DeadReason = pruned_by_age (now - e.enqueued_at) in
      ground (
        arith,
        old,
        lookup-move now h e r q v,
        max_age-move now e r q,
        lookup-prune_from now h es (move_to_dead_letters now e r q) (move-IsValid now e r q v),
      )
  | inr young ↦ ground (arith, young, lookup-prune_from now h es q v)
]

some_with_absent :
    (p : PendingAttestation → Bool) (h : Text) (m : Map Text PendingAttestation)
    → Maps.IsKeyed (λ e. e.payment_tx_hash) m
    → lookup h m ≡ none
    → some_with p h (values m) ≡ false
unfolding lookup
some_with_absent p h [] k n = refl
some_with_absent p h ((i, e) ∷ m) k n = ground (arith, some_with_absent p h m k.1)

-- Dropping every hash under which some entry passes the test keeps the entries that fail it.
pub some_with-values :
    (p : PendingAttestation → Bool) (h : Text) (m : Map Text PendingAttestation)
    → Maps.IsKeyed (λ e. e.payment_tx_hash) m
    → Maps.IsUnique m
    → (if some_with p h (values m) then none else lookup h m)
      ≡ keep_if (λ e. not (p e)) (lookup h m)
unfolding lookup
some_with-values p h [] k u = refl
some_with-values p h ((i, e) ∷ m) k u =
    ground (arith, text_beq_iff i h, some_with-values p h m k.1 u.1, some_with_absent p i m k.1 u.0)

-- After pruning, an attestation is live exactly if it was live and is not over age; what is live
-- is unchanged.
pub lookup-prune_expired :
    (now : ℕ) (h : Text) (q : AttestationQueue)
    → IsValid q
    → lookup h (prune_expired now q).items
      ≡ keep_if (λ e. not (is_over_age now q.max_age_ms e)) (lookup h q.items)
unfolding prune_expired
lookup-prune_expired now h q v =
    lookup-prune_from now h (values q.items) q v
    ∙ some_with-values (is_over_age now q.max_age_ms) h q.items v.keyed v.unique

pub prune_expired-IsValid :
    (now : ℕ) (q : AttestationQueue) → IsValid q → IsValid (prune_expired now q)
unfolding prune_expired
prune_expired-IsValid now q v = prune_from-IsValid now (values q.items) q v
