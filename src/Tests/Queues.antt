-- ===== src/Tests/Queues.antt =====
-- The stores and the queue at concrete inputs (packages/middleware/src).
use g_gate.Prelude.{
  ℕ, ◌+◌, ◌<◌, ◌≤◌, ◌≡◌, ◌≢◌, ◌⊎◌, refl, inl, inr, Bool, true, false, not, Option, none, some, List,
  [], ◌∷◌, arith, length, ◌==◌, ◌^◌, if◌then◌else◌, keep_if, nat_eq, leb,
}
use g_gate.Prelude.Text.{Text, codes, text_eq, text_beq}
use g_gate.Prelude.Maps.{Map, lookup}
use g_gate.Middleware.InvoiceStore
use g_gate.Middleware.InvoiceStore.{
  InvoiceStore, StoredInvoice, is_stale, put_op, mark_op, release_op, sweep_op, mark_used, put,
  release,
}
use g_gate.Middleware.InvoiceStore.SingleUse.{wins, reissues, wins-le-reissues}
use g_gate.Middleware.FileInvoiceStore
use g_gate.Middleware.FileInvoiceStore.{FileInvoiceStore, array}
use g_gate.Middleware.FileInvoiceStore.Durable.{boot-run}
use g_gate.Middleware.AttestationQueue.{AttestationQueue, PendingAttestation, IsValid}
use g_gate.Middleware.AttestationQueue.Ops.{enqueue_op, failure_op, run, all_confirmed, all_entered}
use g_gate.Middleware.AttestationQueue.Balance.{booked, run-booked}
use g_gate.Middleware.UpstreamStore
use g_gate.Middleware.UpstreamStore.{UpstreamStore, missing}
use g_gate.Middleware.UpstreamStore.Durable.{load_sync-set}
use g_gate.Middleware.Paywall.Inflight.{
  Traffic, Run, start, then_step, issue, burn, finish, give_back, idle, count, delivered-le-issued,
}

abbrev n42 : Text
n42 = codes "42"

abbrev invoice : StoredInvoice
invoice = record {
  nonce = n42;
  service_id = 7;
  price_wei = codes "1000";
  expires_at = 5200;
  used = false;
}

abbrev store : InvoiceStore
store = record { invoices = (n42, invoice) ∷ []; grace_ms = 100; closed = false }

store-IsValid : InvoiceStore.IsValid store
unfolding lookup
store-IsValid = record { unique = (refl, tt); keyed = (refl, tt) }

wins-le-reissues_example :
    wins n42 (mark_op n42 ∷ mark_op n42 ∷ release_op n42 ∷ mark_op n42 ∷ []) store
    ≤ reissues n42 (mark_op n42 ∷ mark_op n42 ∷ release_op n42 ∷ mark_op n42 ∷ []) + 1
wins-le-reissues_example =
    wins-le-reissues n42 (mark_op n42 ∷ mark_op n42 ∷ release_op n42 ∷ mark_op n42 ∷ []) store
      store-IsValid

abbrev booted : FileInvoiceStore
booted = record { memory = store; disk = array (some invoice ∷ none ∷ []) }

boot-run_example :
    ((FileInvoiceStore.run (mark_op n42 ∷ sweep_op 9000 ∷ []) booted).memory
      ≡ InvoiceStore.run (mark_op n42 ∷ sweep_op 9000 ∷ []) store)
    × (FileInvoiceStore.load (FileInvoiceStore.run (mark_op n42 ∷ sweep_op 9000 ∷ []) booted).disk
        ≡ some (InvoiceStore.run (mark_op n42 ∷ sweep_op 9000 ∷ []) store).invoices)
unfolding FileInvoiceStore.boot FileInvoiceStore.load g_gate.Prelude.Maps.insert
boot-run_example =
    boot-run 100 (array (some invoice ∷ none ∷ [])) booted (mark_op n42 ∷ sweep_op 9000 ∷ []) refl

abbrev sale : PendingAttestation
sale = record {
  payment_tx_hash = codes "0xab";
  service_id = 7;
  nonce = n42;
  payer = codes "0x22";
  success = true;
  enqueued_at = 1000;
  attempts = some 2;
  last_error = none;
}

abbrev queue : AttestationQueue
queue = record {
  items = (codes "0xab", sale) ∷ [];
  dead_letter_log = [];
  dead_lettered_total = 0;
  max_attempts = 3;
  max_age_ms = 5000;
  max_dead_letters = 2;
}

queue-IsValid : IsValid queue
unfolding lookup
queue-IsValid = record {
  unique = (refl, tt);
  keyed = (refl, tt);
  capped = omega arith;
  counted = omega arith;
}

run-booked_example :
    booked (run (enqueue_op 2000 sale ∷ failure_op 2000 (codes "0xab") true [] ∷ []) queue)
      + all_confirmed (enqueue_op 2000 sale ∷ failure_op 2000 (codes "0xab") true [] ∷ []) queue
    ≡ booked queue
      + all_entered (enqueue_op 2000 sale ∷ failure_op 2000 (codes "0xab") true [] ∷ []) queue
run-booked_example =
    run-booked (enqueue_op 2000 sale ∷ failure_op 2000 (codes "0xab") true [] ∷ []) queue
      queue-IsValid

abbrev upstreams : UpstreamStore
upstreams = record { map = (9, codes "https://b/") ∷ []; file = missing }

abbrev any_url : Text → ℕ → Bool
any_url url id = true

load_sync-set_example :
    (m : Map ℕ Text) × (UpstreamStore.load_sync any_url
        (UpstreamStore.set 7 (codes "https://a/") upstreams).file
      ≡ some m)
    × (lookup 9 m ≡ (if 7 == 9 then some (codes "https://a/") else UpstreamStore.get 9 upstreams))
unfolding lookup
load_sync-set_example =
    load_sync-set any_url 7 (codes "https://a/") upstreams 9 (refl, tt) ((omega arith, refl), tt)
      (omega arith, refl)

abbrev holding : Bool → InvoiceStore
holding used = record {
  invoices = (n42, record invoice { used = used }) ∷ [];
  grace_ms = 100;
  closed = false;
}

abbrev traffic : Bool → List Text → List Text → Traffic
traffic used in_flight delivered = record {
  store = holding used;
  in_flight = in_flight;
  issued = n42 ∷ [];
  delivered = delivered;
}

-- The invoice is issued, redeemed, given back by a failure and redeemed again.
retried : Run (idle 100) (traffic true [] (n42 ∷ []))
unfolding put mark_used release g_gate.Prelude.Maps.insert lookup text_beq
retried =
    then_step
      (then_step
        (then_step
          (then_step (then_step (start (idle 100)) (issue invoice (idle 100)))
            (burn n42 (holding true) (traffic false [] []) refl))
          (give_back n42 (traffic true (n42 ∷ []) []) (inl refl)))
        (burn n42 (holding true) (traffic false [] []) refl))
      (finish n42 (traffic true (n42 ∷ []) []) (inl refl))

delivered-le-issued_example : count n42 (n42 ∷ []) + 0 ≤ count n42 (n42 ∷ [])
delivered-le-issued_example = delivered-le-issued n42 100 (traffic true [] (n42 ∷ [])) retried
