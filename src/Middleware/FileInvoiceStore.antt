-- ===== src/Middleware/FileInvoiceStore.antt =====
-- packages/middleware/src/invoice-store-file.ts: the invoice store that a JSON file mirrors.
-- The file is modelled by what its bytes decode to; `persist` replaces it as a whole, which is
-- what the write to a temporary name and the rename give.
pub mod Durable
use g_gate.Prelude.{
  ℕ, ◌+◌, Bool, true, false, not, Option, none, some, List, [], ◌∷◌, ltb, if◌then◌else◌, map,
}
use g_gate.Prelude.Maps.{Map, lookup, insert, values, insert_all}
use g_gate.Prelude.Text.{Text, text_eq}
use g_gate.Middleware.InvoiceStore
use g_gate.Middleware.InvoiceStore.{
  InvoiceStore, StoredInvoice, set_used, is_stale, Op, put_op, mark_op, release_op, sweep_op,
}

-- The backing file. An item of an array is `none` if it fails the shape guard of `load`.
pub data Disk : Type 0 where
  missing blank corrupt not_an_array : Disk
  array : List (Option StoredInvoice) → Disk

pub record FileInvoiceStore : Type 0 where
  pub memory : InvoiceStore
  pub disk : Disk

abbrev pub load_items :
    List (Option StoredInvoice) → Map Text StoredInvoice → Map Text StoredInvoice
load_items [] m = m
load_items (none ∷ items) m = load_items items m
load_items (some inv ∷ items) m = load_items items (insert inv.nonce inv m)

-- `load`: `none` is the error that stops the boot.
unfoldable pub load : Disk → Option (Map Text StoredInvoice)
load missing = some []
load blank = some []
load corrupt = none
load not_an_array = none
load (array items) = some (load_items items [])

-- The constructor, after the checks of its arguments and the lock.
unfoldable pub boot : ℕ → Disk → Option FileInvoiceStore
boot grace_ms d = elim (load d) [
  | none ↦ none
  | some m ↦
      some
        (record { memory = record { invoices = m; grace_ms = grace_ms; closed = false }; disk = d })
]

-- `persist`: the file becomes the array of the values of the map.
unfoldable pub persist : InvoiceStore → FileInvoiceStore
persist m = record { memory = m; disk = array (map some (values m.invoices)) }

unfoldable pub put : StoredInvoice → FileInvoiceStore → FileInvoiceStore
unfolding persist
put inv s = persist (InvoiceStore.put inv s.memory)

unfoldable pub get : Text → FileInvoiceStore → Option StoredInvoice
get nonce s = lookup nonce s.memory.invoices

unfoldable pub mark_used : Text → FileInvoiceStore → Bool × FileInvoiceStore
unfolding persist
mark_used nonce s = elim (lookup nonce s.memory.invoices) [
  | none ↦ (false, s)
  | some found ↦ if found.used then (false, s) else (
    true,
    persist (record s.memory { invoices = insert nonce (set_used true found) s.memory.invoices }),
  )
]

-- `release` writes only if it changes something.
unfoldable pub release : Text → FileInvoiceStore → FileInvoiceStore
unfolding persist
release nonce s = elim (lookup nonce s.memory.invoices) [
  | none ↦ s
  | some found ↦
      if found.used
      then persist
          (record s.memory { invoices = insert nonce (set_used false found) s.memory.invoices })
      else s
]

-- `changed`: some invoice is past its retention.
abbrev pub any_stale : ℕ → ℕ → Map Text StoredInvoice → Bool
any_stale now grace_ms [] = false
any_stale now grace_ms ((k, inv) ∷ m) =
    if is_stale now grace_ms inv then true else any_stale now grace_ms m

unfoldable pub sweep : ℕ → FileInvoiceStore → FileInvoiceStore
unfolding persist
sweep now s =
    let swept = InvoiceStore.sweep now s.memory in
    if any_stale now s.memory.grace_ms s.memory.invoices
    then persist swept
    else record s { memory = swept }

unfoldable pub step : Op → FileInvoiceStore → Bool × FileInvoiceStore
step (put_op inv) s = (false, put inv s)
step (mark_op nonce) s = mark_used nonce s
step (release_op nonce) s = (false, release nonce s)
step (sweep_op now) s = (false, sweep now s)

unfoldable pub run : List Op → FileInvoiceStore → FileInvoiceStore
run [] s = s
run (op ∷ ops) s = run ops (step op s).1
