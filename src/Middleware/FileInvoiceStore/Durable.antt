-- ===== src/Middleware/FileInvoiceStore/Durable.antt =====
-- A restart of the file-backed invoice store loses nothing, and while it runs it answers as the
-- in-memory store does (packages/middleware/src/invoice-store-file.ts).
use g_gate.Prelude.{
  ℕ, ◌≡◌, refl, subst, ap, ◌∙◌, inl, inr, Bool, false, not, Option, none, some, List, [], ◌∷◌, map,
  arith, Option-cases,
}
use g_gate.Prelude.Maps
use g_gate.Prelude.Maps.{Map, lookup, insert, retain, values, insert_all}
use g_gate.Prelude.Text.{Text, text_eq}
use g_gate.Middleware.InvoiceStore
use g_gate.Middleware.InvoiceStore.{
  InvoiceStore, StoredInvoice, set_used, is_stale, IsValid, Op, put_op, mark_op, release_op,
  sweep_op,
}
use g_gate.Middleware.InvoiceStore.Laws.{step-IsValid}
use g_gate.Middleware.FileInvoiceStore.{
  FileInvoiceStore, Disk, missing, blank, corrupt, not_an_array, array, boot, load, load_items,
  persist, put, mark_used, release, sweep, any_stale, step, run,
}

load_items-values :
    (vs : List StoredInvoice) (m : Map Text StoredInvoice)
    → load_items (map some vs) m ≡ insert_all (λ i. i.nonce) vs m
load_items-values [] m = refl
load_items-values (v ∷ vs) m = load_items-values vs (insert v.nonce v m)

-- What was persisted is what a boot reads.
load-persist : (m : InvoiceStore) → IsValid m → load (persist m).disk ≡ some m.invoices
unfolding load persist
load-persist m v = ap some (
    load_items-values (values m.invoices) []
    ∙ Maps.insert_all-values (λ i. i.nonce) m.invoices v.keyed v.unique)

-- The file holds what the memory holds.
abbrev pub IsMirrored : FileInvoiceStore → Type 0
IsMirrored s = load s.disk ≡ some s.memory.invoices

retain_all :
    (now grace : ℕ) (m : Map Text StoredInvoice)
    → any_stale now grace m ≡ false
    → retain (λ inv. not (is_stale now grace inv)) m ≡ m
unfolding retain
retain_all now grace [] h = refl
retain_all now grace ((k, inv) ∷ m) h = ground (arith, retain_all now grace m)

set_used_same : (b : Bool) (inv : StoredInvoice) → inv.used ≡ b → set_used b inv ≡ inv
set_used_same b inv h = ground arith

-- What both facts say of one operation: the memory moves as that of the in-memory store, with
-- the same answer, and the file follows.
record Refines (op : Op) (s : FileInvoiceStore) : Type 0 where
  answer : (step op s).0 ≡ (InvoiceStore.step op s.memory).0
  moved : (step op s).1.memory ≡ (InvoiceStore.step op s.memory).1
  mirrored : IsMirrored (step op s).1

mark-Refines :
    (nonce : Text) (s : FileInvoiceStore)
    → IsValid s.memory
    → IsMirrored s
    → Refines (mark_op nonce) s
unfolding step InvoiceStore.step mark_used InvoiceStore.mark_used
mark-Refines nonce s v h =
    let written =
      load-persist (InvoiceStore.step (mark_op nonce) s.memory).1
        (step-IsValid (mark_op nonce) s.memory v) in
    record { answer = ground arith; moved = ground arith; mirrored = ground (arith, written, h) }

release-Refines :
    (nonce : Text) (s : FileInvoiceStore)
    → IsValid s.memory
    → IsMirrored s
    → Refines (release_op nonce) s
unfolding step InvoiceStore.step release InvoiceStore.release
release-Refines nonce s v h =
    let written =
      load-persist (InvoiceStore.step (release_op nonce) s.memory).1
        (step-IsValid (release_op nonce) s.memory v) in
    elim (Option-cases (lookup nonce s.memory.invoices)) [
      | inl e ↦ record { answer = refl; moved = ground (arith, e); mirrored = ground (arith, e, h) }
      | inr (found, e) ↦
          let same : found.used ≡ false
              → insert nonce (set_used false found) s.memory.invoices ≡ s.memory.invoices =
            λ u.
              ap (λ i. insert nonce i s.memory.invoices) (set_used_same false found u)
              ∙ Maps.insert_same nonce found s.memory.invoices e in
          record {
            answer = refl;
            moved = ground (arith, e, same);
            mirrored = ground (arith, e, h, written);
          }
    ]

sweep-Refines :
    (now : ℕ) (s : FileInvoiceStore) → IsValid s.memory → IsMirrored s → Refines (sweep_op now) s
unfolding step InvoiceStore.step sweep InvoiceStore.sweep
sweep-Refines now s v h =
    let written =
      load-persist (InvoiceStore.step (sweep_op now) s.memory).1
        (step-IsValid (sweep_op now) s.memory v) in
    let same = retain_all now s.memory.grace_ms s.memory.invoices in
    record { answer = refl; moved = ground arith; mirrored = ground (arith, written, h, same) }

step-Refines : (op : Op) (s : FileInvoiceStore) → IsValid s.memory → IsMirrored s → Refines op s
unfolding step InvoiceStore.step put
step-Refines (put_op inv) s v h = record {
  answer = refl;
  moved = refl;
  mirrored = load-persist (InvoiceStore.put inv s.memory) (step-IsValid (put_op inv) s.memory v);
}
step-Refines (mark_op nonce) s v h = mark-Refines nonce s v h
step-Refines (release_op nonce) s v h = release-Refines nonce s v h
step-Refines (sweep_op now) s v h = sweep-Refines now s v h

some_inj : {a b : FileInvoiceStore} → Option.some a ≡ some b → a ≡ b
some_inj h = cc

-- The same from any valid store that its file mirrors.
load-run :
    (ops : List Op) (s : FileInvoiceStore)
    → IsValid s.memory
    → IsMirrored s
    → ((run ops s).memory ≡ InvoiceStore.run ops s.memory)
      × (load (run ops s).disk ≡ some (InvoiceStore.run ops s.memory).invoices)
unfolding run InvoiceStore.run
load-run [] s v h = (refl, h)
load-run (op ∷ ops) s v h =
    let r = step-Refines op s v h in
    let (memory, disk) =
      load-run ops (step op s).1 (rw r.moved (step-IsValid op s.memory v)) r.mirrored in
    (
      memory ∙ ap (InvoiceStore.run ops) r.moved,
      disk ∙ ap (λ m. some (InvoiceStore.run ops m).invoices) r.moved,
    )

load_items-IsKeyed :
    (items : List (Option StoredInvoice)) (m : Map Text StoredInvoice)
    → Maps.IsUnique m
    → Maps.IsKeyed (λ i. i.nonce) m
    → Maps.IsUnique (load_items items m) × Maps.IsKeyed (λ i. i.nonce) (load_items items m)
load_items-IsKeyed [] m u k = (u, k)
load_items-IsKeyed (none ∷ items) m u k = load_items-IsKeyed items m u k
load_items-IsKeyed (some inv ∷ items) m u k =
    load_items-IsKeyed items (insert inv.nonce inv m) (Maps.insert-IsUnique inv.nonce inv m u)
      (Maps.insert-IsKeyed (λ i. i.nonce) inv m k)

-- A boot that succeeds gives a valid store, and what it read is what the file says.
boot_lem :
    (grace : ℕ) (d : Disk) (s : FileInvoiceStore)
    → boot grace d ≡ some s
    → IsValid s.memory × IsMirrored s
unfolding boot load
boot_lem grace missing s h =
    subst (λ x. IsValid x.memory × IsMirrored x) (some_inj h)
      (record { unique = tt; keyed = tt }, refl)
boot_lem grace blank s h =
    subst (λ x. IsValid x.memory × IsMirrored x) (some_inj h)
      (record { unique = tt; keyed = tt }, refl)
boot_lem grace corrupt s h = absurd (ground arith)
boot_lem grace not_an_array s h = absurd (ground arith)
boot_lem grace (array items) s h =
    let (u, k) = load_items-IsKeyed items [] tt tt in
    subst (λ x. IsValid x.memory × IsMirrored x) (some_inj h)
      (record { unique = u; keyed = k }, refl)

-- From a boot that succeeds, after any sequence of operations the memory is what the in-memory
-- store would hold, and a reboot from the file reads exactly that: no invoice that was issued,
-- consumed, released or swept is lost or changed by a restart.
pub boot-run :
    (grace : ℕ) (d : Disk) (s : FileInvoiceStore) (ops : List Op)
    → boot grace d ≡ some s
    → ((run ops s).memory ≡ InvoiceStore.run ops s.memory)
      × (load (run ops s).disk ≡ some (InvoiceStore.run ops s.memory).invoices)
boot-run grace d s ops h = let (v, m) = boot_lem grace d s h in load-run ops s v m
