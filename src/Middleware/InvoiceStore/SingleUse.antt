-- ===== src/Middleware/InvoiceStore/SingleUse.antt =====
-- How often an invoice can be consumed (packages/middleware/src/invoice-store.ts: markUsed).
use g_gate.Prelude.{
  ℕ, ◌+◌, ◌≤◌, ◌≡◌, Bool, not, Option, none, some, List, [], ◌∷◌, arith, if◌then◌else◌, keep_if,
}
use g_gate.Prelude.Text.{Text, text_beq, text_eq, text_beq_iff}
use g_gate.Middleware.InvoiceStore.{
  StoredInvoice, InvoiceStore, get, mark_used, is_stale, IsValid, Op, put_op, mark_op, release_op,
  sweep_op, step,
}
use g_gate.Middleware.InvoiceStore.Laws.{
  step-IsValid, get-put, get-mark_used, get-release, get-sweep,
}

-- 1 if the operation is a `markUsed(n)` that answers `true`.
abbrev pub won : Text → Op → InvoiceStore → ℕ
won n (mark_op k) s = if text_beq k n then (if (mark_used k s).0 then 1 else 0) else 0
won n (put_op _) s = 0
won n (release_op _) s = 0
won n (sweep_op _) s = 0

-- 1 if the operation issues or releases the invoice.
abbrev pub reissue : Text → Op → ℕ
reissue n (put_op inv) = if text_beq inv.nonce n then 1 else 0
reissue n (release_op k) = if text_beq k n then 1 else 0
reissue n (mark_op _) = 0
reissue n (sweep_op _) = 0

unfoldable pub wins : Text → List Op → InvoiceStore → ℕ
wins n [] s = 0
wins n (op ∷ ops) s = won n op s + wins n ops (step op s).1

unfoldable pub reissues : Text → List Op → ℕ
reissues n [] = 0
reissues n (op ∷ ops) = reissue n op + reissues n ops

-- 1 if the invoice can be consumed.
abbrev pub open_of : Option StoredInvoice → ℕ
open_of none = 0
open_of (some inv) = if inv.used then 0 else 1

mark_used-eq :
    (k : Text) (s : InvoiceStore) → (if (mark_used k s).0 then 1 else 0) ≡ open_of (get k s)
unfolding mark_used get
mark_used-eq k s = ground arith

open_of-put :
    (o : Option StoredInvoice) (inv : StoredInvoice) (b : Bool)
    → open_of (if b then some inv else o) ≤ open_of o + (if b then 1 else 0)
open_of-put o inv b = ground arith

open_of-keep :
    (o : Option StoredInvoice) (p : StoredInvoice → Bool) → open_of (keep_if p o) ≤ open_of o
open_of-keep o p = ground arith

-- One operation: a win closes the invoice, and only a reissue opens it.
pub step-open :
    (n : Text) (op : Op) (s : InvoiceStore)
    → IsValid s
    → won n op s + open_of (get n (step op s).1) ≤ open_of (get n s) + reissue n op
unfolding step
step-open n (put_op inv) s v =
    ground (arith, get-put n inv s, open_of-put (get n s) inv (text_beq inv.nonce n))
step-open n (mark_op k) s v =
    ground (arith, get-mark_used n k s, mark_used-eq k s, text_beq_iff k n)
step-open n (release_op k) s v = ground (arith, get-release n k s)
step-open n (sweep_op now) s v =
    ground (
      arith,
      get-sweep n now s v,
      open_of-keep (get n s) (λ inv. not (is_stale now s.grace_ms inv)),
    )

wins_from :
    (n : Text) (ops : List Op) (s : InvoiceStore)
    → IsValid s
    → wins n ops s ≤ open_of (get n s) + reissues n ops
unfolding wins reissues
wins_from n [] s v = omega arith
wins_from n (op ∷ ops) s v =
    omega (arith, step-open n op s v, wins_from n ops (step op s).1 (step-IsValid op s v))

-- Over any sequence of operations on a valid store, `markUsed` of one nonce answers true at most
-- once more than the invoice of that nonce was issued or released in it.
pub wins-le-reissues :
    (n : Text) (ops : List Op) (s : InvoiceStore) → IsValid s → wins n ops s ≤ reissues n ops + 1
wins-le-reissues n ops s v =
    let bound : open_of (get n s) ≤ 1 = ground arith in omega (arith, wins_from n ops s v)
