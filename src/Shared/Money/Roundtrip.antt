-- ===== src/Shared/Money/Roundtrip.antt =====
-- Round trips of packages/shared/src/money.ts: an amount that is printed in OG and read back.
use g_gate.Prelude.{
  ℕ, ◌+◌, ◌-◌, ◌*◌, ◌/◌, ◌%◌, ◌≤◌, ◌<◌, ◌≡◌, refl, sym, ap, ◌∙◌, ◌≢◌, inl, inr, true, ◌∷◌, ◌++◌,
  arith, length, every, ◌==◌, le→leb, Bool-cases,
}
use g_gate.Prelude.Text.{Text, is_digit}
use g_gate.Prelude.Decimal.{
  big_int, decimal, is_digits, value_from, value_from-zeros, big_int-decimal, every-digit-decimal,
  is_digits-decimal, decimal-length,
}
use g_gate.Shared.Errors.{ok, ◌>>=◌}
use g_gate.Shared.Money.{
  Wei, parse_wei, og_to_wei, wei_to_og, print_units, format_units, wei_per_og, max_og_decimals,
  strip_zeros, pad_start, pad_end,
}
use g_gate.Shared.Money.Digits.{
  pad_end-strip_zeros, length-pad_start, length-strip_zeros, every-digit-pad_start,
  every-digit-strip_zeros, strip_zeros-nonempty, split_point_digits, split_point-append, is_amount,
  trim_id, every-append, every-amount_of_digits,
}

-- The fraction that `weiToOg` prints.
abbrev fraction : ℕ → Text
fraction r = strip_zeros (pad_start max_og_decimals (decimal r))

module _ (r : ℕ) (h : r < wei_per_og) where
  short : length (decimal r) ≤ max_og_decimals
  short = decimal-length 17 r h

  value-pad_start : value_from 0 (pad_start max_og_decimals (decimal r)) ≡ r
  unfolding big_int
  value-pad_start =
      value_from-zeros (max_og_decimals - length (decimal r)) (decimal r) ∙ big_int-decimal r

  -- Padding the printed fraction again gives the fraction's value.
  value-fraction : big_int (pad_end max_og_decimals (fraction r)) ≡ r
  unfolding big_int
  value-fraction =
      ap (value_from 0) (
        pad_end-strip_zeros max_og_decimals (pad_start max_og_decimals (decimal r))
          (length-pad_start max_og_decimals (decimal r) short))
      ∙ value-pad_start

  every-digit-fraction : every is_digit (fraction r) ≡ true
  every-digit-fraction =
      every-digit-strip_zeros (pad_start max_og_decimals (decimal r))
        (every-digit-pad_start max_og_decimals (decimal r) (every-digit-decimal r))

  length-fraction : length (fraction r) ≤ max_og_decimals
  length-fraction = omega (
    arith,
    length-strip_zeros (pad_start max_og_decimals (decimal r)),
    length-pad_start max_og_decimals (decimal r) short,
  )

  is_digits-fraction : r ≢ 0 → is_digits (fraction r) ≡ true
  unfolding is_digits
  is_digits-fraction ne =
      rw
        (strip_zeros-nonempty (pad_start max_og_decimals (decimal r))
          (λ e. ne (sym value-pad_start ∙ e)))
        every-digit-fraction

-- Reading an amount with a point.
og_to_wei_point :
    (w f : Text)
    → is_digits w ≡ true
    → is_digits f ≡ true
    → length f ≤ max_og_decimals
    → og_to_wei (w ++ b'.' ∷ f)
      ≡ ok (decimal (big_int w * wei_per_og + big_int (pad_end max_og_decimals f)))
unfolding og_to_wei is_digits
og_to_wei_point w f hw hf short =
    let dw : every is_digit w ≡ true = ground arith in
    let df : every is_digit f ≡ true = ground arith in
    let plain : every is_amount (w ++ b'.' ∷ f) ≡ true =
      every-append is_amount w (b'.' ∷ f)
      ∙ rw (every-amount_of_digits w dw, every-amount_of_digits f df) in
    rw (trim_id (w ++ b'.' ∷ f) plain, split_point-append w f dw, hw, hf, le→leb _ _ short)

-- Reading an amount without a point.
og_to_wei_whole :
    (w : Text) → is_digits w ≡ true → og_to_wei w ≡ ok (decimal (big_int w * wei_per_og + 0))
unfolding og_to_wei is_digits big_int value_from
og_to_wei_whole w hw =
    let dw : every is_digit w ≡ true = ground arith in
    rw (trim_id w (every-amount_of_digits w dw), split_point_digits w dw, hw)

-- Printing `v` wei in OG and reading the text back gives `v`.
og_to_wei-print_units : (v : ℕ) → og_to_wei (print_units max_og_decimals v) ≡ ok (decimal v)
unfolding print_units
og_to_wei-print_units v = elim (Bool-cases (v % wei_per_og == 0)) [
  | inl whole ↦ rw whole (
      og_to_wei_whole (decimal (v / wei_per_og)) (is_digits-decimal _)
      ∙ ap (λ n. ok (decimal n)) (whole_value whole))
  | inr part ↦ rw part (
      og_to_wei_point (decimal (v / wei_per_og)) (fraction (v % wei_per_og)) (is_digits-decimal _)
        (is_digits-fraction (v % wei_per_og) below (ground arith))
        (length-fraction (v % wei_per_og) below)
      ∙ ap (λ n. ok (decimal n)) part_value)
]
  where
    below : v % wei_per_og < wei_per_og
    below = omega arith

    whole_value :
        (v % wei_per_og == 0) ≡ true → big_int (decimal (v / wei_per_og)) * wei_per_og + 0 ≡ v
    whole_value h =
        let z : v % wei_per_og ≡ 0 = ground arith in omega (arith, big_int-decimal (v / wei_per_og))

    part_value :
        big_int (decimal (v / wei_per_og)) * wei_per_og
          + big_int (pad_end max_og_decimals (fraction (v % wei_per_og)))
        ≡ v
    part_value =
        omega (arith, big_int-decimal (v / wei_per_og), value-fraction (v % wei_per_og) below)

-- Converting wei to OG and back is the identity on every wei text up to its leading zeros: the
-- conversion succeeds on every text of digits, the printed amount is read without an error, and
-- what is read is the same number of wei in canonical form.
pub og_to_wei-wei_to_og :
    (w : Wei) → is_digits w ≡ true → (wei_to_og w >>= og_to_wei) ≡ ok (decimal (big_int w))
unfolding wei_to_og parse_wei
og_to_wei-wei_to_og w h = rw h (og_to_wei-print_units (big_int w))

-- With 18 decimals the general token printer is the OG printer, on every input.
pub format_units-eq-wei_to_og : (w : Wei) → format_units w 18 ≡ wei_to_og w
unfolding format_units wei_to_og
format_units-eq-wei_to_og w = refl
