-- ===== src/Middleware/InvoiceStore.antt =====
-- packages/middleware/src/invoice-store.ts: the invoices that were issued, by nonce, in memory.
-- The timer that calls `sweep` is an event of the environment; `Date.now()` is the argument `now`.
pub mod Laws
pub mod SingleUse
use g_gate.Prelude.{
  ℕ, ◌+◌, Bool, true, false, not, Option, none, some, List, [], ◌∷◌, ltb, if◌then◌else◌,
}
use g_gate.Prelude.Maps
use g_gate.Prelude.Maps.{Map, lookup, insert, retain}
use g_gate.Prelude.Text.{Text, text_eq}
use g_gate.Shared.Money.{Wei}

pub record StoredInvoice : Type 0 where
  pub nonce : Text
  pub service_id : ℕ
  pub price_wei : Wei
  pub expires_at : ℕ
  pub used : Bool

-- The fields of `MemoryInvoiceStore` that its methods read; `grace_ms` is the retention.
pub record InvoiceStore : Type 0 where
  pub invoices : Map Text StoredInvoice
  pub grace_ms : ℕ
  pub closed : Bool

-- The constructor: both durations must be positive, and the retention defaults to the interval.
-- `none` is the `RangeError`.
unfoldable pub new_store : ℕ → Option ℕ → Option InvoiceStore
new_store sweep_interval_ms none =
    if ltb 0 sweep_interval_ms
    then some (record { invoices = []; grace_ms = sweep_interval_ms; closed = false })
    else none
new_store sweep_interval_ms (some retention_ms) =
    if ltb 0 sweep_interval_ms
    then (if ltb 0 retention_ms
        then some (record { invoices = []; grace_ms = retention_ms; closed = false })
        else none)
    else none

unfoldable pub put : StoredInvoice → InvoiceStore → InvoiceStore
put inv s = record s { invoices = insert inv.nonce inv s.invoices }

unfoldable pub get : Text → InvoiceStore → Option StoredInvoice
get nonce s = lookup nonce s.invoices

abbrev pub set_used : Bool → StoredInvoice → StoredInvoice
set_used b inv = record inv { used = b }

-- `markUsed`: `true` for the one call that turns the invoice from unused to used.
unfoldable pub mark_used : Text → InvoiceStore → Bool × InvoiceStore
mark_used nonce s = elim (lookup nonce s.invoices) [
  | none ↦ (false, s)
  | some found ↦
      if found.used
      then (false, s)
      else (true, record s { invoices = insert nonce (set_used true found) s.invoices })
]

unfoldable pub release : Text → InvoiceStore → InvoiceStore
release nonce s = elim (lookup nonce s.invoices) [
  | none ↦ s
  | some found ↦ record s { invoices = insert nonce (set_used false found) s.invoices }
]

-- `invoice.expiresAt < Date.now() - graceMs`, with the subtraction carried over.
abbrev pub is_stale : ℕ → ℕ → StoredInvoice → Bool
is_stale now grace_ms inv = ltb (inv.expires_at + grace_ms) now

unfoldable pub sweep : ℕ → InvoiceStore → InvoiceStore
sweep now s = record s { invoices = retain (λ inv. not (is_stale now s.grace_ms inv)) s.invoices }

unfoldable pub close : InvoiceStore → InvoiceStore
close s = record s { closed = true }

-- What `Map` keeps by itself, with every invoice under its own nonce.
pub record IsValid (s : InvoiceStore) : Type 0 where
  pub unique : Maps.IsUnique s.invoices
  pub keyed : Maps.IsKeyed (λ inv. inv.nonce) s.invoices

-- The operations of the interface, as a client or the timer calls them.
pub data Op : Type 0 where
  put_op : StoredInvoice → Op
  mark_op : Text → Op
  release_op : Text → Op
  sweep_op : ℕ → Op

-- The answer is `markUsed`'s, and `false` elsewhere.
unfoldable pub step : Op → InvoiceStore → Bool × InvoiceStore
step (put_op inv) s = (false, put inv s)
step (mark_op nonce) s = mark_used nonce s
step (release_op nonce) s = (false, release nonce s)
step (sweep_op now) s = (false, sweep now s)

unfoldable pub run : List Op → InvoiceStore → InvoiceStore
run [] s = s
run (op ∷ ops) s = run ops (step op s).1
