-- ===== src/Shared/Money.antt =====
-- packages/shared/src/money.ts. A `Wei` is a decimal text; a `bigint` is a natural number, since
-- `parseWei` admits no sign.
pub mod Digits
pub mod Roundtrip
pub mod Order
use g_gate.Prelude.{
  ℕ, zero, suc, ◌+◌, ◌-◌, ◌*◌, ◌/◌, ◌%◌, ◌^◌, Bool, true, false, ◌&&◌, Option, none, some, List, [],
  ◌∷◌, ◌++◌, reverse, length, replicate, ltb, leb, ◌==◌, if◌then◌else◌,
}
use g_gate.Prelude.Text.{Text, codes, trim}
use g_gate.Prelude.Decimal.{big_int, decimal, is_digits}
use g_gate.Shared.Errors.{Result, ok, fail, ◌>>=◌, ◌>>◌, require, Code}

abbrev pub Wei : Type 0
Wei = Text

abbrev pub wei_per_og : ℕ
wei_per_og = 1_000_000_000_000_000_000

abbrev pub max_og_decimals : ℕ
max_og_decimals = 18

unfoldable pub parse_wei : Wei → Result ℕ
unfolding is_digits
parse_wei w = do require (is_digits w) Code.invalid_amount 400; ok (big_int w)

-- `OG_RE`: the digits before the point and, if there is one, those after it.
unfoldable pub split_point : Text → Text × Option Text
split_point [] = ([], none)
split_point (c ∷ s) =
    let (whole, frac) = split_point s in if c == b'.' then ([], some s) else (c ∷ whole, frac)

abbrev pub frac_matches : Option Text → Bool
frac_matches none = true
frac_matches (some f) = is_digits f

abbrev pub frac_text : Option Text → Text
frac_text none = []
frac_text (some f) = f

-- `s.padEnd(n, '0')` and `s.padStart(n, '0')`.
abbrev pub pad_end : ℕ → Text → Text
pad_end n s = s ++ replicate (n - length s) b'0'

abbrev pub pad_start : ℕ → Text → Text
pad_start n s = replicate (n - length s) b'0' ++ s

abbrev pub strip_head : ℕ → Text → Text
strip_head c [] = if c == b'0' then [] else c ∷ []
strip_head c (d ∷ t) = c ∷ d ∷ t

-- `s.replace(/0+$/, '')`.
unfoldable pub strip_zeros : Text → Text
strip_zeros [] = []
strip_zeros (c ∷ s) = strip_head c (strip_zeros s)

unfoldable pub og_to_wei : Text → Result Wei
unfolding is_digits
og_to_wei og =
    let (whole, frac) = split_point (trim og) in
    do
      require (is_digits whole && frac_matches frac) Code.invalid_amount 400
      require (leb (length (frac_text frac)) max_og_decimals) Code.invalid_amount 400
      ok (decimal (big_int whole * wei_per_og + big_int (pad_end max_og_decimals (frac_text frac))))

-- The digits that `weiToOg` and `formatUnits` print for `v` atomic units of `10^decimals`.
unfoldable pub print_units : ℕ → ℕ → Text
print_units decimals v =
    let base = 10 ^ decimals in
    if v % base == 0
    then decimal (v / base)
    else decimal (v / base) ++ b'.' ∷ strip_zeros (pad_start decimals (decimal (v % base)))

unfoldable pub wei_to_og : Wei → Result Text
wei_to_og w = do v ← parse_wei w; ok (print_units max_og_decimals v)

unfoldable pub add_wei : Wei → Wei → Result Wei
add_wei a b = do x ← parse_wei a; y ← parse_wei b; ok (decimal (x + y))

-- `compareWei`: -1, 0 or 1.
pub data Sign : Type 0 where
  less equal greater : Sign

unfoldable pub compare_wei : Wei → Wei → Result Sign
compare_wei a b = do
  x ← parse_wei a
  y ← parse_wei b
  ok (if ltb x y then less else if ltb y x then greater else equal)

-- `formatUnits`, for a number of decimals that is an integer, as TypeScript's callers pass.
unfoldable pub format_units : Text → ℕ → Result Text
format_units atomic decimals = do
  v ← parse_wei atomic
  ok (if decimals == 0 then decimal v else print_units decimals v)
