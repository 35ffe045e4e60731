-- ===== src/Middleware/Attester/Replay.antt =====
-- packages/middleware/src/app.ts: what the replay at the boot leaves in the queue.
use g_gate.Prelude.{
  ℕ, ◌≡◌, refl, sym, ap, ◌∙◌, inl, inr, not, none, List, [], ◌∷◌, arith, keep_if, Bool-cases,
  if◌then◌else◌,
}
use g_gate.Prelude.Maps.{lookup, values, lookup-erase_ne, lookup-erase_self}
use g_gate.Prelude.Text.{Text, text_eq, text_beq, text_beq_iff}
use g_gate.Middleware.AttestationQueue
use g_gate.Middleware.AttestationQueue.{
  PendingAttestation, AttestationQueue, IsValid, remove, prune_expired, is_over_age,
}
use g_gate.Middleware.AttestationQueue.Ops.{remove-IsValid}
use g_gate.Middleware.AttestationQueue.Prune.{
  some_with, some_with-values, lookup-prune_expired, prune_expired-IsValid,
}
use g_gate.Middleware.Attester.{Boot, is_confirmed, replayed, replay_each, replay_pending}

lookup-remove :
    (h hash : Text) (q : AttestationQueue)
    → IsValid q
    → lookup h (remove hash q).items ≡ (if text_beq hash h then none else lookup h q.items)
unfolding remove
lookup-remove h hash q v = elim (Bool-cases (text_beq hash h)) [
  | inl y ↦ rw (y, sym ((text_beq_iff hash h).0 y)) (lookup-erase_self hash q.items v.unique)
  | inr n ↦ rw n (lookup-erase_ne h hash q.items (λ s. ground (arith, s, n, text_beq_iff hash h)))
]

lookup-replay_each :
    (b : Boot) (h : Text) (ps : List PendingAttestation) (q : AttestationQueue)
    → IsValid q
    → lookup h (replay_each b ps q).items
      ≡ (if some_with (λ p. is_confirmed (replayed b p)) h ps then none else lookup h q.items)
unfolding replay_each
lookup-replay_each b h [] q v = refl
lookup-replay_each b h (p ∷ ps) q v = elim (Bool-cases (is_confirmed (replayed b p))) [
  | inl y ↦ ground (
    arith,
    y,
    lookup-remove h p.payment_tx_hash q v,
    lookup-replay_each b h ps (remove p.payment_tx_hash q) (remove-IsValid p.payment_tx_hash q v),
  )
  | inr n ↦ ground (arith, n, lookup-replay_each b h ps q v)
]

-- When the runs of the replay have ended, an attestation is live exactly if it was live, is not
-- over age, and the chain did not confirm its run (or its service is unknown): a confirmed one is
-- dropped, and every other one is kept unchanged for the next boot.
pub lookup-replay_pending :
    (b : Boot) (now : ℕ) (h : Text) (q : AttestationQueue)
    → IsValid q
    → lookup h (replay_pending b now q).items
      ≡ keep_if
          (λ e. not (is_confirmed (replayed b e)))
          (keep_if (λ e. not (is_over_age now q.max_age_ms e)) (lookup h q.items))
unfolding replay_pending AttestationQueue.list
lookup-replay_pending b now h q v =
    let w = prune_expired-IsValid now q v in
    lookup-replay_each b h (values (prune_expired now q).items) (prune_expired now q) w
    ∙ some_with-values (λ p. is_confirmed (replayed b p)) h (prune_expired now q).items w.keyed
        w.unique
    ∙ ap (keep_if (λ e. not (is_confirmed (replayed b e)))) (lookup-prune_expired now h q v)
