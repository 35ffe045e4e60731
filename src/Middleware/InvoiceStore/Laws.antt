-- ===== src/Middleware/InvoiceStore/Laws.antt =====
-- What each operation of the invoice store does to the invoice that a nonce names.
use g_gate.Prelude.{
  ℕ, ◌≡◌, subst, inl, inr, Bool, true, false, not, some, List, [], ◌∷◌, arith, if◌then◌else◌,
  keep_if, Bool-cases, Option-cases,
}
use mathlib.Core.Option
use g_gate.Prelude.Maps
use g_gate.Prelude.Maps.{Map, lookup, insert, retain, lookup-insert, lookup-retain}
use g_gate.Prelude.Text.{Text, text_eq, text_beq, text_beq_iff}
use g_gate.Middleware.InvoiceStore.{
  StoredInvoice, InvoiceStore, put, get, mark_used, release, sweep, set_used, is_stale, IsValid, Op,
  put_op, mark_op, release_op, sweep_op, step, run,
}

pub put-IsValid : (inv : StoredInvoice) (s : InvoiceStore) → IsValid s → IsValid (put inv s)
unfolding put
put-IsValid inv s v = record {
  unique = Maps.insert-IsUnique inv.nonce inv s.invoices v.unique;
  keyed = Maps.insert-IsKeyed (λ i. i.nonce) inv s.invoices v.keyed;
}

-- Writing back an invoice under the nonce that found it keeps the store valid.
insert_found-IsValid :
    (nonce : Text) (b : Bool) (found : StoredInvoice) (s : InvoiceStore)
    → IsValid s
    → lookup nonce s.invoices ≡ some found
    → IsValid (record s { invoices = insert nonce (set_used b found) s.invoices })
insert_found-IsValid nonce b found s v e =
    let same = Maps.lookup-IsKeyed (λ i. i.nonce) nonce found s.invoices v.keyed e in
    record {
      unique = Maps.insert-IsUnique nonce (set_used b found) s.invoices v.unique;
      keyed =
          subst (λ n. Maps.IsKeyed (λ i. i.nonce) (insert n (set_used b found) s.invoices)) same
            (Maps.insert-IsKeyed (λ i. i.nonce) (set_used b found) s.invoices v.keyed);
    }

pub mark_used-IsValid :
    (nonce : Text) (s : InvoiceStore) → IsValid s → IsValid (mark_used nonce s).1
unfolding mark_used
mark_used-IsValid nonce s v = elim (Option-cases (lookup nonce s.invoices)) [
  | inl e ↦ rw (e, mark_used) v
  | inr (found, e) ↦ elim (Bool-cases found.used) [
    | inl u ↦ rw (e, mark_used, u) v
    | inr u ↦ rw (e, mark_used, u) (insert_found-IsValid nonce true found s v e)
  ]
]

pub release-IsValid : (nonce : Text) (s : InvoiceStore) → IsValid s → IsValid (release nonce s)
unfolding release
release-IsValid nonce s v = elim (Option-cases (lookup nonce s.invoices)) [
  | inl e ↦ rw (e, release) v
  | inr (found, e) ↦ rw (e, release) (insert_found-IsValid nonce false found s v e)
]

pub sweep-IsValid : (now : ℕ) (s : InvoiceStore) → IsValid s → IsValid (sweep now s)
unfolding sweep
sweep-IsValid now s v = record {
  unique = Maps.retain-IsUnique (λ i. not (is_stale now s.grace_ms i)) s.invoices v.unique;
  keyed =
      Maps.retain-IsKeyed (λ i. i.nonce) (λ i. not (is_stale now s.grace_ms i)) s.invoices v.keyed;
}

pub step-IsValid : (op : Op) (s : InvoiceStore) → IsValid s → IsValid (step op s).1
unfolding step
step-IsValid (put_op inv) s v = put-IsValid inv s v
step-IsValid (mark_op nonce) s v = mark_used-IsValid nonce s v
step-IsValid (release_op nonce) s v = release-IsValid nonce s v
step-IsValid (sweep_op now) s v = sweep-IsValid now s v

pub run-IsValid : (ops : List Op) (s : InvoiceStore) → IsValid s → IsValid (run ops s)
unfolding run
run-IsValid [] s v = v
run-IsValid (op ∷ ops) s v = run-IsValid ops (step op s).1 (step-IsValid op s v)

-- What a lookup sees after each operation.
pub get-put :
    (n : Text) (inv : StoredInvoice) (s : InvoiceStore)
    → get n (put inv s) ≡ (if text_beq inv.nonce n then some inv else get n s)
unfolding get put
get-put n inv s = lookup-insert n inv.nonce inv s.invoices

pub get-mark_used :
    (n k : Text) (s : InvoiceStore)
    → get n (mark_used k s).1
      ≡ (if text_beq k n then Option.map (set_used true) (get n s) else get n s)
unfolding get mark_used
get-mark_used n k s = elim (Option-cases (lookup k s.invoices)) [
  | inl e ↦ ground (arith, e, text_beq_iff k n)
  | inr (found, e) ↦
      ground (arith, e, text_beq_iff k n, lookup-insert n k (set_used true found) s.invoices)
]

pub get-release :
    (n k : Text) (s : InvoiceStore)
    → get n (release k s)
      ≡ (if text_beq k n then Option.map (set_used false) (get n s) else get n s)
unfolding get release
get-release n k s = elim (Option-cases (lookup k s.invoices)) [
  | inl e ↦ ground (arith, e, text_beq_iff k n)
  | inr (found, e) ↦
      ground (arith, e, text_beq_iff k n, lookup-insert n k (set_used false found) s.invoices)
]

-- An invoice is swept exactly when its expiry is more than the retention in the past: whatever
-- is found after a sweep is what was found before, as long as it is not stale.
pub get-sweep :
    (n : Text) (now : ℕ) (s : InvoiceStore)
    → IsValid s
    → get n (sweep now s) ≡ keep_if (λ inv. not (is_stale now s.grace_ms inv)) (get n s)
unfolding get sweep
get-sweep n now s v = lookup-retain (λ i. not (is_stale now s.grace_ms i)) n s.invoices v.unique
