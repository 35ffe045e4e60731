-- ===== src/Shared/Money/Digits.antt =====
-- Padding, stripping, splitting and trimming of decimal texts (packages/shared/src/money.ts).
use g_gate.Prelude.{
  ℕ, zero, suc, ◌+◌, ◌-◌, ◌≤◌, ◌≡◌, refl, sym, ap, ap₂, ◌∙◌, ◌≢◌, inl, inr, Bool, true, false, ◌&&◌,
  not, false≢true, none, some, [], ◌∷◌, ◌++◌, reverse, arith, length, length-append,
  length-replicate, every, replicate, ◌==◌, Bool-cases,
}
use g_gate.Prelude.Text.{Text, is_digit, is_space, is_empty, trim, trim_start}
use g_gate.Prelude.Decimal.{value_from}
use g_gate.Shared.Money.{split_point, strip_zeros, strip_head, pad_end, pad_start}
use mathlib.Core.List.{reverse-cons, reverse-reverse}

-- A text is its stripped form with zeros put back.
strip_head-append :
    (c : ℕ) (t s : Text) (k : ℕ)
    → t ++ replicate k b'0' ≡ s
    → (j : ℕ) × (strip_head c t ++ replicate j b'0' ≡ c ∷ s)
strip_head-append c [] s k e = elim (Bool-cases (c == b'0')) [
  | inl z ↦ (suc k, rw z (ap₂ {A = ℕ} {B = Text} ◌∷◌ (ground arith) e))
  | inr n ↦ (k, rw n (ap (λ u. c ∷ u) e))
]
strip_head-append c (d ∷ t) s k e = (k, ap (λ u. c ∷ u) e)

pub strip_zeros-append : (s : Text) → (k : ℕ) × (strip_zeros s ++ replicate k b'0' ≡ s)
unfolding strip_zeros
strip_zeros-append [] = (0, refl)
strip_zeros-append (c ∷ s) =
    let (k, e) = strip_zeros-append s in strip_head-append c (strip_zeros s) s k e

-- Padding at the end undoes the stripping of trailing zeros.
pub pad_end-strip_zeros : (n : ℕ) (s : Text) → length s ≡ n → pad_end n (strip_zeros s) ≡ s
pad_end-strip_zeros n s h =
    let (k, e) = strip_zeros-append s in
    let total : length (strip_zeros s) + k ≡ n = omega (
      arith,
      ap length e,
      length-append (strip_zeros s) (replicate k b'0'),
      length-replicate {A = ℕ} k b'0',
    ) in
    let room : n - length (strip_zeros s) ≡ k = omega arith in
    ap (λ j. strip_zeros s ++ replicate j b'0') room ∙ e

pub length-strip_zeros : (s : Text) → length (strip_zeros s) ≤ length s
length-strip_zeros s =
    let (k, e) = strip_zeros-append s in
    omega (arith, ap length e, length-append (strip_zeros s) (replicate k b'0'))

pub length-pad_start : (n : ℕ) (s : Text) → length s ≤ n → length (pad_start n s) ≡ n
length-pad_start n s h = omega (
  arith,
  length-append (replicate (n - length s) b'0') s,
  length-replicate {A = ℕ} (n - length s) b'0',
)

pub every-append : (p : ℕ → Bool) (s t : Text) → every p (s ++ t) ≡ (every p s && every p t)
every-append p [] t = refl
every-append p (c ∷ s) t = ground (arith, every-append p s t)

pub every-replicate : (k : ℕ) → every is_digit (replicate k b'0') ≡ true
every-replicate zero = refl
every-replicate (suc k) = every-replicate k

pub every-digit-pad_start :
    (n : ℕ) (s : Text) → every is_digit s ≡ true → every is_digit (pad_start n s) ≡ true
every-digit-pad_start n s h =
    every-append is_digit (replicate (n - length s) b'0') s ∙ rw (every-replicate (n - length s)) h

pub every-digit-strip_zeros :
    (s : Text) → every is_digit s ≡ true → every is_digit (strip_zeros s) ≡ true
every-digit-strip_zeros s h =
    let (k, e) = strip_zeros-append s in
    let both : (every is_digit (strip_zeros s) && every is_digit (replicate k b'0')) ≡ true =
      sym (every-append is_digit (strip_zeros s) (replicate k b'0')) ∙ ap (every is_digit) e ∙ h in
    ground arith

value_from-replicate : (k : ℕ) → value_from 0 (replicate k b'0') ≡ 0
unfolding value_from
value_from-replicate zero = refl
value_from-replicate (suc k) = value_from-replicate k

-- A text whose value is not 0 is not all zeros.
pub strip_zeros-nonempty : (s : Text) → value_from 0 s ≢ 0 → is_empty (strip_zeros s) ≡ false
strip_zeros-nonempty s h = let (k, e) = strip_zeros-append s in go (strip_zeros s) k e
  where
    go : (t : Text) (k : ℕ) → t ++ replicate k b'0' ≡ s → is_empty t ≡ false
    go [] k e = absurd (h (ap (value_from 0) (sym e) ∙ value_from-replicate k))
    go (c ∷ t) k e = refl

pub split_point_digits : (s : Text) → every is_digit s ≡ true → split_point s ≡ (s, none)
unfolding split_point
split_point_digits [] h = refl
split_point_digits (c ∷ s) h = ground (arith, split_point_digits s)

pub split_point-append :
    (s t : Text) → every is_digit s ≡ true → split_point (s ++ b'.' ∷ t) ≡ (s, some t)
unfolding split_point
split_point-append [] t h = refl
split_point-append (c ∷ s) t h = ground (arith, split_point-append s t)

-- A text of an amount: digits and points.
abbrev pub is_amount : ℕ → Bool
is_amount c = not (is_space c)

trim_start_id : (s : Text) → every is_amount s ≡ true → trim_start s ≡ s
unfolding trim_start
trim_start_id [] h = refl
trim_start_id (c ∷ s) h = elim (Bool-cases (is_space c)) [
  | inl y ↦ absurd (false≢true (rw y at h))
  | inr n ↦ rw n
]

every-reverse : (p : ℕ → Bool) (s : Text) → every p s ≡ true → every p (reverse s) ≡ true
every-reverse p [] h = refl
every-reverse p (c ∷ s) h =
    let parts : (p c ≡ true) × (every p s ≡ true) = ground arith in
    ap (every p) (reverse-cons c s)
    ∙ every-append p (reverse s) (c ∷ [])
    ∙ rw (every-reverse p s parts.1, parts.0)

-- `trim` leaves a text without white space alone.
pub trim_id : (s : Text) → every is_amount s ≡ true → trim s ≡ s
unfolding trim
trim_id s h =
    ap (λ t. reverse (trim_start (reverse t))) (trim_start_id s h)
    ∙ ap reverse (trim_start_id (reverse s) (every-reverse is_amount s h))
    ∙ reverse-reverse s

digit-not-space : (c : ℕ) → is_digit c ≡ true → is_space c ≡ false
digit-not-space c h = ground arith

pub every-amount_of_digits : (s : Text) → every is_digit s ≡ true → every is_amount s ≡ true
every-amount_of_digits [] h = refl
every-amount_of_digits (c ∷ s) h =
    let parts : (is_digit c ≡ true) × (every is_digit s ≡ true) = ground arith in
    rw (digit-not-space c parts.0) (every-amount_of_digits s parts.1)
