-- ===== src/Middleware/Paywall/Inflight.antt =====
-- Requests in flight together (packages/middleware/src/app.ts): a handler waits at every `await`,
-- so between the burn of a nonce and its answer other handlers and the sweep may run. Each step
-- is what one handler does to the invoices without a wait in between.
use g_gate.Prelude.{
  ℕ, ◌+◌, ◌≤◌, ◌≡◌, ap, subst, true, false, List, [], ◌∷◌, arith, if◌then◌else◌, Among,
}
use g_gate.Prelude.Text.{Text, text_beq, text_beq_iff}
use g_gate.Prelude.Maps.{lookup}
use g_gate.Middleware.InvoiceStore.{
  StoredInvoice, InvoiceStore, get, put, mark_used, release, sweep, IsValid, put_op, mark_op,
  release_op, sweep_op, step,
}
use g_gate.Middleware.InvoiceStore.Laws.{step-IsValid}
use g_gate.Middleware.InvoiceStore.SingleUse.{open_of, step-open}

-- The store, the nonces whose upstream call is running, and, as a record of what happened, the
-- nonces that were issued and those whose response was delivered.
pub record Traffic : Type 0 where
  pub store : InvoiceStore
  pub in_flight : List Text
  pub issued : List Text
  pub delivered : List Text

abbrev pub remove_one : Text → List Text → List Text
remove_one k [] = []
remove_one k (x ∷ xs) = let rest = remove_one k xs in if text_beq x k then xs else x ∷ rest

pub data TrafficStep : Traffic → Traffic → Type 0 where
  -- `respond402Fresh`.
  issue :
      (inv : StoredInvoice) (t : Traffic)
      → TrafficStep t (record t { store = put inv t.store; issued = inv.nonce ∷ t.issued })
  -- A handler wins the race at `markUsed` and calls the upstream.
  burn :
      (k : Text) (s : InvoiceStore) (t : Traffic)
      → mark_used k t.store ≡ (true, s)
      → TrafficStep t (record t { store = s; in_flight = k ∷ t.in_flight })
  -- The upstream responds.
  finish :
      (k : Text) (t : Traffic)
      → Among k t.in_flight
      → TrafficStep t
          (record t { in_flight = remove_one k t.in_flight; delivered = k ∷ t.delivered })
  -- The upstream fails, and the invoice is released.
  give_back :
      (k : Text) (t : Traffic)
      → Among k t.in_flight
      → TrafficStep t (record t { store = release k t.store; in_flight = remove_one k t.in_flight })
  -- The timer of the store.
  expire : (now : ℕ) (t : Traffic) → TrafficStep t (record t { store = sweep now t.store })

pub data Run : Traffic → Traffic → Type 0 where
  start : (t : Traffic) → Run t t
  then_step : {a b c : Traffic} → Run a b → TrafficStep b c → Run a c

abbrev pub count : Text → List Text → ℕ
count n [] = 0
count n (x ∷ xs) = (if text_beq x n then 1 else 0) + count n xs

count-remove_one :
    (n k : Text) (xs : List Text)
    → Among k xs
    → count n (remove_one k xs) + (if text_beq k n then 1 else 0) ≡ count n xs
count-remove_one n k [] m = elim m [ ]
count-remove_one n k (x ∷ xs) m =
    ground (arith, text_beq_iff x k, text_beq_iff x n, text_beq_iff k n, count-remove_one n k xs)

-- The deliveries, the calls in flight and the open invoice of a nonce are covered by its issues.
record IsCovered (n : Text) (t : Traffic) : Type 0 where
  valid : IsValid t.store
  covered : count n t.delivered + count n t.in_flight + open_of (get n t.store) ≤ count n t.issued

step-IsCovered : (n : Text) {t u : Traffic} → TrafficStep t u → IsCovered n t → IsCovered n u
unfolding step
step-IsCovered n (issue inv t) h = record {
  valid = step-IsValid (put_op inv) t.store h.valid;
  covered = omega (arith, h.covered, step-open n (put_op inv) t.store h.valid);
}
step-IsCovered n (burn k s t e) h =
    let same : (mark_used k t.store).1 ≡ s = ap (λ p. p.1) e in
    let won : (mark_used k t.store).0 ≡ true = ap (λ p. p.0) e in
    record {
      valid = subst IsValid same (step-IsValid (mark_op k) t.store h.valid);
      covered =
          ground (arith, h.covered, won, ap (get n) same, step-open n (mark_op k) t.store h.valid);
    }
step-IsCovered n (finish k t m) h = record {
  valid = h.valid;
  covered = omega (arith, h.covered, count-remove_one n k t.in_flight m);
}
step-IsCovered n (give_back k t m) h = record {
  valid = step-IsValid (release_op k) t.store h.valid;
  covered = omega (
    arith,
    h.covered,
    count-remove_one n k t.in_flight m,
    step-open n (release_op k) t.store h.valid,
  );
}
step-IsCovered n (expire now t) h = record {
  valid = step-IsValid (sweep_op now) t.store h.valid;
  covered = omega (arith, h.covered, step-open n (sweep_op now) t.store h.valid);
}

Run-IsCovered : (n : Text) {t u : Traffic} → Run t u → IsCovered n t → IsCovered n u
Run-IsCovered n (start t) h = h
Run-IsCovered n (then_step r s) h = step-IsCovered n s (Run-IsCovered n r h)

-- The gateway at its start, with nothing issued.
abbrev pub idle : ℕ → Traffic
idle grace = record {
  store = record { invoices = []; grace_ms = grace; closed = false };
  in_flight = [];
  issued = [];
  delivered = [];
}

-- However the handlers of concurrent requests and the sweeps interleave, the responses delivered
-- for one nonce together with its calls in flight are at most as many as the invoices issued for
-- it: an invoice that was issued once is delivered at most once, even when failed calls release it.
pub delivered-le-issued :
    (n : Text) (grace : ℕ) (t : Traffic)
    → Run (idle grace) t
    → count n t.delivered + count n t.in_flight ≤ count n t.issued
unfolding get lookup
delivered-le-issued n grace t r =
    let covered = (Run-IsCovered n r idle_covered).covered in omega (arith, covered)
  where
    idle_covered : IsCovered n (idle grace)
    idle_covered = record { valid = record { unique = tt; keyed = tt }; covered = omega arith }
