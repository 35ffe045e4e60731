-- ===== src/Middleware/AttestationQueue/Budget.antt =====
-- Retries are bounded (packages/middleware/src/attestation-queue.ts: recordFailure, enqueue).
use g_gate.Prelude.{
  ℕ, ◌+◌, ◌≤◌, ◌<◌, ◌≡◌, refl, ◌∙◌, subst, inl, inr, Bool, true, false, none, some, List, [], ◌∷◌,
  arith, length, leb, Bool-cases, Option-cases, ◌⊎◌,
}
use g_gate.Prelude.Maps
use g_gate.Prelude.Maps.{Map, lookup, insert, erase, lookup-insert_self, lookup-erase_self}
use g_gate.Prelude.Text.{Text, text_eq}
use g_gate.Middleware.AttestationQueue.{
  PendingAttestation, AttestationQueue, move_to_dead_letters, or_default, charged, is_over_age,
  prune_expired, enqueue, settle_failure, record_failure, IsValid,
}
use g_gate.Middleware.AttestationQueue.Ops.{record_failure-IsValid}
use g_gate.Middleware.AttestationQueue.Prune.{lookup-prune_expired}

abbrev pub attempts_of : PendingAttestation → ℕ
attempts_of e = or_default e.attempts 0

-- A failure of a live entry: it leaves the queue, or it stays with one attempt more, under the
-- budget and only if the failure is not terminal.
record AfterFailure (hash : Text) (terminal : Bool) (e : PendingAttestation) (q : AttestationQueue)
    (r : AttestationQueue) : Type 0 where
  budget : r.max_attempts ≡ q.max_attempts
  fate :
      (lookup hash r.items ≡ none)
      ⊎ ((d : PendingAttestation) × (lookup hash r.items ≡ some d)
          × (attempts_of d ≡ attempts_of e + 1)
          × (attempts_of d < q.max_attempts)
          × (terminal ≡ false))

settle_failure-after :
    (now : ℕ) (hash : Text) (e : PendingAttestation) (terminal : Bool) (error : Text)
    (q : AttestationQueue)
    → IsValid q
    → e.payment_tx_hash ≡ hash
    → AfterFailure hash terminal e q (settle_failure now (charged e error) terminal error q).1
unfolding settle_failure move_to_dead_letters
settle_failure-after now hash e true error q v k = record {
  budget = refl;
  fate = inl (
      subst (λ h. lookup h (erase e.payment_tx_hash q.items) ≡ none) k
        (lookup-erase_self e.payment_tx_hash q.items v.unique));
}
settle_failure-after now hash e false error q v k =
    elim (Bool-cases (leb q.max_attempts (attempts_of e + 1))) [
      | inl spent ↦
          rw (settle_failure, spent)
            (record {
              budget = refl;
              fate = inl (
                  subst (λ h. lookup h (erase e.payment_tx_hash q.items) ≡ none) k
                    (lookup-erase_self e.payment_tx_hash q.items v.unique));
            })
      | inr left ↦
          rw (settle_failure, left)
            (record {
              budget = refl;
              fate = inr (
                charged e error,
                subst
                    (λ h.
                      lookup h (insert e.payment_tx_hash (charged e error) q.items)
                      ≡ some (charged e error))
                    k (lookup-insert_self e.payment_tx_hash (charged e error) q.items),
                refl,
                ground (arith, left),
                refl,
              );
            })
    ]

record_failure-after :
    (now : ℕ) (hash : Text) (terminal : Bool) (error : Text) (e : PendingAttestation)
    (q : AttestationQueue)
    → IsValid q
    → lookup hash q.items ≡ some e
    → AfterFailure hash terminal e q (record_failure now hash terminal error q).1
unfolding record_failure
record_failure-after now hash terminal error e q v s =
    rw (s, record_failure)
      (settle_failure-after now hash e terminal error q v
        (Maps.lookup-IsKeyed (λ i. i.payment_tx_hash) hash e q.items v.keyed s))

record_failure-absent :
    (now : ℕ) (hash : Text) (terminal : Bool) (error : Text) (q : AttestationQueue)
    → lookup hash q.items ≡ none
    → (record_failure now hash terminal error q).1 ≡ q
unfolding record_failure
record_failure-absent now hash terminal error q n = rw (n, record_failure) refl

-- Failed attempts of one attestation, each with its time and its message.
unfoldable pub fail_all : Text → List (ℕ × Text) → AttestationQueue → AttestationQueue
fail_all hash [] q = q
fail_all hash ((now, error) ∷ es) q = fail_all hash es (record_failure now hash false error q).1

fail_all-absent :
    (hash : Text) (es : List (ℕ × Text)) (q : AttestationQueue)
    → lookup hash q.items ≡ none
    → lookup hash (fail_all hash es q).items ≡ none
unfolding fail_all
fail_all-absent hash [] q n = n
fail_all-absent hash ((now, error) ∷ es) q n =
    fail_all-absent hash es (record_failure now hash false error q).1
      (rw (record_failure-absent now hash false error q n) n)

fail_all-spends :
    (hash : Text) (es : List (ℕ × Text)) (q : AttestationQueue) (e : PendingAttestation)
    → IsValid q
    → lookup hash q.items ≡ some e
    → attempts_of e < q.max_attempts
    → q.max_attempts ≤ attempts_of e + length es
    → lookup hash (fail_all hash es q).items ≡ none
unfolding fail_all
fail_all-spends hash [] q e v s under enough = absurd (omega arith)
fail_all-spends hash ((now, error) ∷ es) q e v s under enough =
    let r : AttestationQueue = (record_failure now hash false error q).1 in
    let a : AfterFailure hash false e q r = record_failure-after now hash false error e q v s in
    elim a.fate [
      | inl gone ↦ fail_all-absent hash es r gone
      | inr (d, found, one, below, _) ↦
          fail_all-spends hash es r d (record_failure-IsValid now hash false error q v) found
            (omega (arith, a.budget)) (omega (arith, a.budget))
    ]

-- An attestation whose attempts keep failing leaves the live queue: after as many failures as the
-- budget allows (at least one), whatever their messages and however many attempts it had spent,
-- it is no longer live.
pub fail_all-exhausts :
    (hash : Text) (now : ℕ) (error : Text) (es : List (ℕ × Text)) (q : AttestationQueue)
    → IsValid q
    → q.max_attempts ≤ length es + 1
    → lookup hash (fail_all hash ((now, error) ∷ es) q).items ≡ none
unfolding fail_all
fail_all-exhausts hash now error es q v enough = elim (Option-cases (lookup hash q.items)) [
  | inl n ↦ fail_all-absent hash ((now, error) ∷ es) q n
  | inr (e, s) ↦
      let r : AttestationQueue = (record_failure now hash false error q).1 in
      let a : AfterFailure hash false e q r = record_failure-after now hash false error e q v s in
      elim a.fate [
        | inl gone ↦ fail_all-absent hash es r gone
        | inr (d, found, one, below, _) ↦
            fail_all-spends hash es r d (record_failure-IsValid now hash false error q v) found
              (omega (arith, a.budget)) (omega (arith, a.budget))
      ]
]

-- A terminal failure takes the attestation out of the live queue at once.
pub record_failure_terminal :
    (now : ℕ) (hash error : Text) (q : AttestationQueue)
    → IsValid q
    → lookup hash (record_failure now hash true error q).1.items ≡ none
record_failure_terminal now hash error q v = elim (Option-cases (lookup hash q.items)) [
  | inl n ↦ rw (record_failure-absent now hash true error q n) n
  | inr (e, s) ↦ elim (record_failure-after now hash true error e q v s).fate [
    | inl gone ↦ gone
    | inr (d, found, one, below, no_terminal) ↦ absurd (ground (arith, no_terminal))
  ]
]

-- Enqueueing an attestation that is live and not over age again does not give it a fresh budget:
-- it keeps the attempts that it has spent.
pub attempts-enqueue :
    (now : ℕ) (item e : PendingAttestation) (q : AttestationQueue)
    → IsValid q
    → lookup item.payment_tx_hash q.items ≡ some e
    → is_over_age now q.max_age_ms e ≡ false
    → e.attempts ≡ some (attempts_of e)
    → lookup item.payment_tx_hash (enqueue now item q).items
      ≡ some (record item { attempts = some (attempts_of e) })
unfolding enqueue
attempts-enqueue now item e q v s young known =
    let kept : lookup item.payment_tx_hash (prune_expired now q).items ≡ some e =
      lookup-prune_expired now item.payment_tx_hash q v ∙ rw s (rw young refl) in
    lookup-insert_self item.payment_tx_hash _ (prune_expired now q).items
    ∙ rw kept (ground (arith, known))
