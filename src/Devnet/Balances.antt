-- ===== src/Devnet/Balances.antt =====
-- Payments on the mock chain move money and make none (packages/devnet/src/state.ts).
use g_gate.Prelude.{
  ℕ, ◌+◌, ◌-◌, ◌≤◌, ◌≡◌, sym, subst, ap, ◌∙◌, true, List, [], ◌∷◌, arith, length, leb,
}
use g_gate.Prelude.Maps.{Map, lookup, insert, erase}
use g_gate.Prelude.Text.{Text, text_eq}
use g_gate.Prelude.Decimal.{big_int}
use g_gate.Shared.Errors.{Result, ok, Code, require, >>=-eq-ok, require-eq-ok}
use g_gate.Devnet.{
  DevnetState, TransferInput, TransferRecord, Hashing, balance_of, derive_account_address,
  normalize_account, move_balance, evict, store_transfer, transfer,
}

-- All the money on the chain.
unfoldable pub total : Map Text ℕ → ℕ
total [] = 0
total ((account, n) ∷ m) = n + total m

total-insert :
    (k : Text) (v : ℕ) (m : Map Text ℕ) → total (insert k v m) + balance_of k m ≡ total m + v
unfolding total insert lookup balance_of
total-insert k v [] = omega arith
total-insert k v ((j, n) ∷ m) = ground (arith, total-insert k v m)

total-move_balance :
    (from to : Text) (amount : ℕ) (m : Map Text ℕ)
    → amount ≤ balance_of from m
    → total (move_balance from to amount m) ≡ total m
unfolding move_balance
total-move_balance from to amount m h =
    let debited = insert from (balance_of from m - amount) m in
    let debit = total-insert from (balance_of from m - amount) m in
    let credit = total-insert to (balance_of to debited + amount) debited in
    omega (arith, h, debit, credit)

stored_inj : (p q : Text × DevnetState) → Result.ok p ≡ ok q → p ≡ q
stored_inj p q h = cc

length-evict : (order : List Text) (m : Map Text TransferRecord) → length (evict order m).0 ≤ 2000
unfolding evict
length-evict [] m = omega arith
length-evict (oldest ∷ order) m = ground (arith, length-evict order (erase oldest m))

-- A transfer that succeeds leaves the sum of all balances as it was, whether or not the payer
-- pays itself, and keeps at most 2000 transfers in the order of the log.
pub transfer-total :
    (h : Hashing) (now : ℕ) (input : TransferInput) (s s' : DevnetState) (tx : Text)
    → transfer h now input s ≡ ok (tx, s')
    → (total s'.balances ≡ total s.balances) × (length s'.transfer_order ≤ 2000)
unfolding transfer store_transfer
transfer-total h now input s s' tx e =
    let (from, e1, h1) = >>=-eq-ok (derive_account_address h input.from_public_key) _ e in
    let (to, e2, h2) = >>=-eq-ok (normalize_account h input.to) _ h1 in
    let (_, e3, h3) =
      >>=-eq-ok
        (require (leb (big_int input.amount_wei) (balance_of from s.balances))
          Code.insufficient_balance 400)
        _ h2 in
    let affordable : leb (big_int input.amount_wei) (balance_of from s.balances) ≡ true =
      require-eq-ok _ Code.insufficient_balance 400 e3 in
    let stored = ap (λ p. p.1) (stored_inj (store_transfer h now input from to s) (tx, s') h3) in
    (
      sym (ap (λ d. total d.balances) stored)
          ∙ total-move_balance from to (big_int input.amount_wei) s.balances
              (ground (arith, affordable)),
      subst (λ d. length d.transfer_order ≤ 2000) stored (length-evict _ _),
    )
