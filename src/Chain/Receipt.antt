-- ===== src/Chain/Receipt.antt =====
-- packages/chain/src/receipt.ts: the wait for a receipt, retried while the node lags behind. What
-- viem throws is read by its class and its three texts; `rendering` is `String(err)`. One wait
-- meets its attempts and its readings of the clock in order, so both are sequences; the sleep
-- between two attempts shows in the readings alone.
pub mod Deadline
use Prim.Native.String.{String}
use g_gate.Prelude.{
  ℕ, zero, suc, ◌+◌, Bool, true, false, ◌||◌, Option, none, some, List, [], ◌∷◌, ◌++◌, leb,
  if◌then◌else◌, ◌==◌,
}
use g_gate.Prelude.Text.{
  Text, codes, to_lower, trim_start, is_space, drop_prefix, starts_with, found_in, join,
}

pub data ErrorClass : Type 0 where
  receipt_not_found receipt_timeout other_class : ErrorClass

pub record ChainError : Type 0 where
  pub class : ErrorClass
  pub short_message : Option Text
  pub details : Option Text
  pub message : Option Text
  pub rendering : Text

abbrev pub receipt_retry_delay_ms : ℕ
receipt_retry_delay_ms = 2_000

abbrev pub default_receipt_timeout_ms : ℕ
default_receipt_timeout_ms = 180_000

-- `\s+`, which no later part of the pattern competes with.
abbrev pub spaces : Text → Option Text
spaces [] = none
spaces (c ∷ s) = if is_space c then some (trim_start s) else none

-- `a` and then `b`, where each gives back what it leaves of the text.
abbrev pub then_match : Option Text → (Text → Option Text) → Option Text
then_match none next = none
then_match (some rest) next = next rest

-- `x?`.
abbrev pub optionally : (Text → Option Text) → Text → Text
optionally p s = elim (p s) [ none ↦ s | some rest ↦ rest ]

-- `receipt(?:s)?\s+(?:were\s+)?not\s+found` at the start of a text.
unfoldable pub receipt_wording : Text → Option Text
receipt_wording s =
    then_match
      (then_match
        (then_match
          (then_match (drop_prefix (codes "receipt") s)
            (λ r. spaces (optionally (drop_prefix (codes "s")) r)))
          (λ r.
            drop_prefix (codes "not")
              (optionally (λ u. then_match (drop_prefix (codes "were") u) spaces) r)))
        spaces)
      (drop_prefix (codes "found"))

-- `LAG_WORDING` at the start of a text, which is in lower case.
unfoldable pub lag_wording : Text → Bool
lag_wording s =
    starts_with (codes "could not be found") s
    || starts_with (codes "no matching receipts") s
    || elim (receipt_wording s) [ none ↦ false | some _ ↦ true ]
    || starts_with (codes "could not be processed") s

-- The fields that hold a text.
abbrev pub present : List (Option Text) → List Text
present [] = []
present (none ∷ os) = present os
present (some s ∷ os) = s ∷ present os

abbrev pub joined_or : Text → List Text → Text
joined_or rendering [] = rendering
joined_or rendering (s ∷ ss) = join (10 ∷ []) (s ∷ ss)

abbrev pub searched_text : ChainError → Text
searched_text e = joined_or e.rendering (present (e.short_message ∷ e.details ∷ e.message ∷ []))

unfoldable pub is_receipt_lag : ChainError → Bool
is_receipt_lag e = elim e.class [
  | receipt_not_found ↦ true
  | receipt_timeout ↦ true
  | other_class ↦ found_in lag_wording (to_lower (searched_text e))
]

-- How an attempt ends, and how the wait does.
pub data Attempt {ℓ} (A : Type ℓ) : Type ℓ where
  returned : A → Attempt A
  thrown : ChainError → Attempt A

-- What the loop does after an attempt: `late` says that the deadline has passed, `rest` is what
-- the further attempts give.
unfoldable pub after_attempt {ℓ} :
    {A : Type ℓ} → Attempt A → Bool → Option (Attempt A) → Option (Attempt A)
after_attempt (returned a) late rest = some (returned a)
after_attempt (thrown e) late rest =
    if is_receipt_lag e then if late then some (thrown e) else rest else some (thrown e)

-- The loop from its attempt `n`; the deadline is read after the attempt, as the clock's reading
-- `n + 1`. `none` is a loop cut off before its end.
unfoldable pub await_from {ℓ} :
    {A : Type ℓ} → ℕ → (ℕ → Attempt A) → (ℕ → ℕ) → ℕ → ℕ → Option (Attempt A)
await_from zero attempt clock deadline n = none
await_from (suc fuel) attempt clock deadline n =
    after_attempt (attempt n) (leb deadline (clock (suc n)))
      (await_from fuel attempt clock deadline (suc n))

-- `awaitReceipt`; its first reading of the clock is reading 0.
unfoldable pub await_receipt {ℓ} :
    {A : Type ℓ} → ℕ → (ℕ → Attempt A) → (ℕ → ℕ) → ℕ → Option (Attempt A)
await_receipt fuel attempt clock timeout = await_from fuel attempt clock (clock 0 + timeout) 0
