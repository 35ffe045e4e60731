-- ===== src/Middleware/Paywall/Frame.antt =====
-- The steps of the handler on the invoices (packages/middleware/src/app.ts).
use g_gate.Prelude.{
  ℕ, ◌≡◌, ◌≢◌, refl, sym, ◌∙◌, ap, inl, inr, true, false, Option, some, arith, if◌then◌else◌,
  Bool-cases, nat_eq,
}
use g_gate.Prelude.Text.{Text, text_beq, text_eq, text_beq_iff}
use mathlib.Core.Option
use g_gate.Middleware.InvoiceStore
use g_gate.Middleware.InvoiceStore.{StoredInvoice, InvoiceStore, mark_used, set_used}
use g_gate.Middleware.InvoiceStore.Laws.{get-put, get-mark_used, get-release}
use g_gate.Middleware.Paywall.{Gateway, response, is_self_payment}
use g_gate.Middleware.Paywall.Admission.{Admitted}
use g_gate.Middleware.Paywall.Handler.{deliver}

-- The two results of `markUsed`.
pub mark_used_lost : (k : Text) (s s' : InvoiceStore) → mark_used k s ≡ (false, s') → s' ≡ s
unfolding mark_used
mark_used_lost k s s' h = ground arith

pub mark_used_won :
    (k : Text) (s s' : InvoiceStore)
    → mark_used k s ≡ (true, s')
    → (inv : StoredInvoice) × (InvoiceStore.get k s ≡ some inv) × (inv.used ≡ false)
unfolding mark_used InvoiceStore.get
mark_used_won k s s' h = ground arith

pub get-put_other :
    (k : Text) (inv : StoredInvoice) (s : InvoiceStore)
    → k ≢ inv.nonce
    → InvoiceStore.get k (InvoiceStore.put inv s) ≡ InvoiceStore.get k s
get-put_other k inv s h = ground (arith, get-put k inv s, text_beq_iff inv.nonce k)

pub deliver-invoices :
    (now : ℕ) (a : Admitted) (status : ℕ) (t : Option Text) (body : Text) (g : Gateway)
    → (deliver now a (response status t body) g).1.invoices ≡ g.invoices
unfolding deliver
deliver-invoices now a status t body g =
    elim (Bool-cases (is_self_payment a.verdict.from a.service)) [
      | inl y ↦ rw (y, deliver) refl
      | inr n ↦ rw (n, deliver) refl
    ]

-- Marking and then releasing an unused invoice gives it back.
pub get-release_marked :
    (k n : Text) (s s' : InvoiceStore)
    → mark_used n s ≡ (true, s')
    → InvoiceStore.get k (InvoiceStore.release n s') ≡ InvoiceStore.get k s
get-release_marked k n s s' h =
    let (inv, held, unused) = mark_used_won n s s' h in
    let same : (mark_used n s).1 ≡ s' = ap (λ p. p.1) h in
    ground (
      arith,
      held,
      unused,
      get-release k n s',
      get-mark_used k n s,
      text_beq_iff n k,
      ap (InvoiceStore.get k) same,
    )

-- What a won `markUsed` leaves.
pub get-marked :
    (k n : Text) (s s' : InvoiceStore)
    → mark_used n s ≡ (true, s')
    → InvoiceStore.get k s' ≡ (
        if text_beq n k
        then Option.map (set_used true) (InvoiceStore.get k s)
        else InvoiceStore.get k s)
get-marked k n s s' h = sym (ap (λ p. InvoiceStore.get k p.1) h) ∙ get-mark_used k n s
