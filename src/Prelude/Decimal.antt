-- ===== src/Prelude/Decimal.antt =====
-- Numbers as decimal text: `String(n)`, `n.toString()` and `BigInt(s)` on a string of digits.
use g_gate.Prelude.{
  ℕ, zero, suc, ◌+◌, ◌-◌, ◌*◌, ◌/◌, ◌%◌, ◌^◌, ◌≤◌, ◌<◌, ◌≡◌, refl, ap, ◌∙◌, inl, inr, Bool, true,
  false, ◌&&◌, [], ◌∷◌, ◌++◌, arith, ltb, if◌then◌else◌, Bool-cases, length, every, replicate, not,
  lt→ltb,
}
use g_gate.Prelude.Text.{Text, is_digit, is_empty}
use native.Mathlib.Nat.{pow-suc}

-- The value of the digits of `s` after those whose value is `a`.
unfoldable pub value_from : ℕ → Text → ℕ
value_from a [] = a
value_from a (c ∷ s) = value_from (a * 10 + (c - b'0')) s

-- `BigInt(s)`, for a text that matches `/^\d+$/`.
unfoldable pub big_int : Text → ℕ
unfolding value_from
big_int s = value_from 0 s

-- `/^\d+$/`.
unfoldable pub is_digits : Text → Bool
is_digits s = not (is_empty s) && every is_digit s

unfoldable pub decimal_from : ℕ → ℕ → Text → Text
decimal_from zero n acc = acc
decimal_from (suc fuel) n acc =
    let rest = decimal_from fuel (n / 10) ((b'0' + n % 10) ∷ acc) in
    if ltb n 10 then (b'0' + n % 10) ∷ acc else rest

-- `n.toString()`. The fuel is above the number of digits.
unfoldable pub decimal : ℕ → Text
unfolding decimal_from
decimal n = decimal_from (suc n) n []

decimal_from_value :
    (fuel n : ℕ) (acc : Text) → n < fuel → value_from 0 (decimal_from fuel n acc) ≡ value_from n acc
unfolding decimal_from value_from
decimal_from_value zero n acc h = elim h [ ]
decimal_from_value (suc fuel) n acc h = elim (Bool-cases (ltb n 10)) [
  | inl small ↦ rw small (ap (λ a. value_from a acc) (digit small))
  | inr large ↦ rw large (
      decimal_from_value fuel (n / 10) ((b'0' + n % 10) ∷ acc) (ground arith)
      ∙ ap (λ a. value_from a acc) tens)
]
  where
    digit : ltb n 10 ≡ true → 0 * 10 + (b'0' + n % 10 - b'0') ≡ n
    digit small = ground arith

    tens : n / 10 * 10 + (b'0' + n % 10 - b'0') ≡ n
    tens = omega arith

-- Reading a printed number gives it back.
pub big_int-decimal : (n : ℕ) → big_int (decimal n) ≡ n
unfolding big_int decimal
big_int-decimal n = decimal_from_value (suc n) n [] (omega arith)

decimal_from-digits :
    (fuel n : ℕ) (acc : Text)
    → every is_digit acc ≡ true
    → every is_digit (decimal_from fuel n acc) ≡ true
unfolding decimal_from
decimal_from-digits zero n acc h = h
decimal_from-digits (suc fuel) n acc h =
    ground (arith, decimal_from-digits fuel (n / 10) ((b'0' + n % 10) ∷ acc))

decimal_from-nonempty :
    (fuel n d : ℕ) (acc : Text) → is_empty (decimal_from fuel n (d ∷ acc)) ≡ false
unfolding decimal_from
decimal_from-nonempty zero n d acc = refl
decimal_from-nonempty (suc fuel) n d acc =
    ground (arith, decimal_from-nonempty fuel (n / 10) (b'0' + n % 10) (d ∷ acc))

pub every-digit-decimal : (n : ℕ) → every is_digit (decimal n) ≡ true
unfolding decimal
every-digit-decimal n = decimal_from-digits (suc n) n [] refl

pub decimal-nonempty : (n : ℕ) → is_empty (decimal n) ≡ false
unfolding decimal decimal_from
decimal-nonempty n = ground (arith, decimal_from-nonempty n (n / 10) (b'0' + n % 10) [])

pub is_digits-decimal : (n : ℕ) → is_digits (decimal n) ≡ true
unfolding is_digits
is_digits-decimal n = rw (decimal-nonempty n, every-digit-decimal n)

decimal_from-length :
    (k fuel n : ℕ) (acc : Text)
    → n < 10 ^ suc k
    → length (decimal_from fuel n acc) ≤ suc k + length acc
unfolding decimal_from
decimal_from-length k zero n acc h = omega arith
decimal_from-length zero (suc fuel) n acc h =
    let small : n < 10 = omega (arith, pow-suc 10 0) in rw (lt→ltb n 10 small) (omega arith)
decimal_from-length (suc k) (suc fuel) n acc h =
    let less : n / 10 < 10 ^ suc k = omega (arith, pow-suc 10 (suc k)) in
    ground (arith, decimal_from-length k fuel (n / 10) ((b'0' + n % 10) ∷ acc) less)

-- A number below 10^k has at most k digits.
pub decimal-length : (k n : ℕ) → n < 10 ^ suc k → length (decimal n) ≤ suc k
unfolding decimal
decimal-length k n h = omega (arith, decimal_from-length k (suc n) n [] h)

pub value_from-zeros : (k : ℕ) (s : Text) → value_from 0 (replicate k b'0' ++ s) ≡ value_from 0 s
unfolding value_from
value_from-zeros zero s = refl
value_from-zeros (suc k) s = value_from-zeros k s
