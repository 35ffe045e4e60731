-- ===== src/Shared/Money/Order.antt =====
-- Sums and comparisons of packages/shared/src/money.ts, against the numbers that the texts denote.
use g_gate.Prelude.{◌+◌, ◌<◌, ◌≡◌, ap, ◌∙◌, ◌↔◌, true, false, arith}
use g_gate.Prelude.Decimal.{big_int, is_digits, big_int-decimal, is_digits-decimal}
use g_gate.Shared.Errors.{ok, ◌>>=◌, fail, Code}
use g_gate.Shared.Money.{Wei, parse_wei, add_wei, compare_wei, less, equal, greater}

-- `parse_wei` decides: a text of digits gives its value, any other the error `INVALID_AMOUNT`.
pub parse_wei_digits : (w : Wei) → is_digits w ≡ true → parse_wei w ≡ ok (big_int w)
unfolding parse_wei
parse_wei_digits w h = rw h

pub parse_wei_other : (w : Wei) → is_digits w ≡ false → parse_wei w ≡ fail Code.invalid_amount 400
unfolding parse_wei
parse_wei_other w h = rw h

-- On texts of digits `compareWei` is exactly the order of the amounts: less, equal and greater
-- each exactly when the first amount is below, the same as, or above the second.
pub compare_wei_iff :
    (a b : Wei)
    → is_digits a ≡ true
    → is_digits b ≡ true
    → ((compare_wei a b ≡ ok less) ↔ (big_int a < big_int b))
      × ((compare_wei a b ≡ ok equal) ↔ (big_int a ≡ big_int b))
      × ((compare_wei a b ≡ ok greater) ↔ (big_int b < big_int a))
unfolding compare_wei
compare_wei_iff a b ha hb = rw (parse_wei_digits a ha, parse_wei_digits b hb) (ground arith)

-- The sum of two texts of digits is a text of digits that denotes the sum of the amounts.
pub big_int-add_wei :
    (a b : Wei)
    → is_digits a ≡ true
    → is_digits b ≡ true
    → (add_wei a b >>= parse_wei) ≡ ok (big_int a + big_int b)
unfolding add_wei
big_int-add_wei a b ha hb =
    rw (parse_wei_digits a ha, parse_wei_digits b hb)
      (parse_wei_digits _ (is_digits-decimal _) ∙ ap ok (big_int-decimal _))
