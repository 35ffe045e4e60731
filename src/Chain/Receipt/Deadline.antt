-- ===== src/Chain/Receipt/Deadline.antt =====
-- packages/chain/src/receipt.ts: when awaitReceipt ends, and with what.
use g_gate.Prelude.{
  ℕ, zero, suc, ◌+◌, ◌*◌, ◌≤◌, ◌<◌, ◌≡◌, refl, Bool, true, false, Option, some, arith, ◌⊎◌, inl,
  inr, le→leb, Bool-cases, sym, ap, ◌∙◌, subst, ◌↔◌,
}
use g_gate.Chain.Receipt.{
  Attempt, returned, thrown, is_receipt_lag, after_attempt, await_from, await_receipt,
}

-- An attempt that failed because the node lags.
abbrev pub IsLag {ℓ} : {A : Type ℓ} → Attempt A → Type 0
IsLag (returned a) = false ≡ true
IsLag (thrown e) = is_receipt_lag e ≡ true

-- How the wait over these attempts may end with `outcome` at its attempt `k`: every earlier
-- attempt met a lagging node before the deadline, and attempt `k` gave the outcome, which is a
-- result, a failure of another kind, or a lag that was met at or after the deadline.
pub record EndsAt {ℓ} {A : Type ℓ} (attempt : ℕ → Attempt A) (clock : ℕ → ℕ) (deadline n k : ℕ)
    (outcome : Attempt A) : Type ℓ where
  pub within : n ≤ k
  pub last : attempt k ≡ outcome
  pub lagged : (i : ℕ) → n ≤ i → i < k → IsLag (attempt i) × (clock (suc i) < deadline)
  pub final : IsLag (attempt k) → deadline ≤ clock (suc k)

-- What one attempt leads to: its outcome, or another attempt.
after_attempt-cases {ℓ} :
    {A : Type ℓ} (t : Attempt A) (late : Bool) (rest : Option (Attempt A)) (o : Attempt A)
    → after_attempt t late rest ≡ some o
    → ((t ≡ o) × (IsLag t → late ≡ true)) ⊎ (IsLag t × (late ≡ false) × (rest ≡ some o))
unfolding after_attempt
after_attempt-cases (returned a) late rest o h = ground (arith, h)
after_attempt-cases (thrown e) late rest o h = ground arith

after_attempt-last {ℓ} :
    {A : Type ℓ} (t : Attempt A) (late : Bool) (rest : Option (Attempt A))
    → (IsLag t → late ≡ true)
    → after_attempt t late rest ≡ some t
unfolding after_attempt
after_attempt-last (returned a) late rest h = refl
after_attempt-last (thrown e) late rest h = ground arith

after_attempt-next {ℓ} :
    {A : Type ℓ} (t : Attempt A) (late : Bool) (rest : Option (Attempt A))
    → IsLag t
    → late ≡ false
    → after_attempt t late rest ≡ rest
unfolding after_attempt
after_attempt-next (returned a) late rest h early = cc
after_attempt-next (thrown e) late rest h early = rw (h, early) refl

eq_or_lt : (n k : ℕ) → n ≤ k → (n ≡ k) ⊎ (n < k)
eq_or_lt n k h = omega arith

module _ {ℓ} {A : Type ℓ} (attempt : ℕ → Attempt A) (clock : ℕ → ℕ) (deadline : ℕ) where
  lag_before :
      (n k : ℕ) (o : Attempt A)
      → IsLag (attempt n)
      → clock (suc n) < deadline
      → EndsAt attempt clock deadline (suc n) k o
      → EndsAt attempt clock deadline n k o
  lag_before n k o lag early ends = record {
    within = ground (arith, ends.within);
    last = ends.last;
    lagged = λ i l g. elim (eq_or_lt n i l) [
      | inl e ↦ subst (λ j. IsLag (attempt j) × (clock (suc j) < deadline)) e (lag, early)
      | inr m ↦ ends.lagged i m g
    ];
    final = ends.final;
  }

  await_from-EndsAt :
      (fuel n : ℕ) (o : Attempt A)
      → await_from fuel attempt clock deadline n ≡ some o
      → (k : ℕ) × (k < n + fuel) × EndsAt attempt clock deadline n k o
  unfolding await_from
  await_from-EndsAt zero n o h = cc
  await_from-EndsAt (suc fuel) n o h = elim (after_attempt-cases (attempt n) _ _ o h) [
    | inl (e, final) ↦ (
      n,
      omega arith,
      record {
        within = omega arith;
        last = e;
        lagged = λ i l g. absurd (omega arith);
        final = λ lag. ground (arith, final lag);
      },
    )
    | inr (lag, early, more) ↦
        (let (k, b, ends) = await_from-EndsAt fuel (suc n) o more in
          (k, omega arith, lag_before n k o lag (ground arith) ends))
  ]

  next_attempt :
      (n k : ℕ) (o : Attempt A)
      → n < k
      → EndsAt attempt clock deadline n k o
      → EndsAt attempt clock deadline (suc n) k o
  next_attempt n k o l ends = record {
    within = l;
    last = ends.last;
    lagged = λ i b g. ends.lagged i (omega arith) g;
    final = ends.final;
  }

  EndsAt-await_from :
      (fuel n k : ℕ) (o : Attempt A)
      → EndsAt attempt clock deadline n k o
      → k < n + fuel
      → await_from fuel attempt clock deadline n ≡ some o
  unfolding await_from
  EndsAt-await_from zero n k o ends b = absurd (ground (arith, ends.within))
  EndsAt-await_from (suc fuel) n k o ends b = elim (eq_or_lt n k ends.within) [
    | inl e ↦
        let here = subst (λ j. EndsAt attempt clock deadline n j o) (sym e) ends in
        after_attempt-last (attempt n) _ _ (λ lag. ground (arith, here.final lag))
        ∙ ap some here.last
    | inr l ↦
        let (lag, early) = ends.lagged n (omega arith) l in
        after_attempt-next (attempt n) _ _ lag (ground arith)
        ∙ EndsAt-await_from fuel (suc n) k o (next_attempt n k o l ends) (omega arith)
  ]

after_attempt_ends {ℓ} :
    {A : Type ℓ} (t : Attempt A) (late : Bool) (rest : Option (Attempt A))
    → (late ≡ true) ⊎ ((o : Attempt A) × (rest ≡ some o))
    → (o : Attempt A) × (after_attempt t late rest ≡ some o)
unfolding after_attempt
after_attempt_ends (returned a) late rest h = (returned a, refl)
after_attempt_ends (thrown e) late rest (inl l) = (thrown e, ground arith)
after_attempt_ends (thrown e) late rest (inr (o, r)) = elim (Bool-cases (is_receipt_lag e)) [
  | inl lag ↦ elim (Bool-cases late) [
    | inl l ↦ (thrown e, ground arith)
    | inr l ↦ (o, rw (lag, l) r)
  ]
  | inr other ↦ (thrown e, rw other refl)
]

-- A loop of `fuel + 1` attempts ends if the deadline has come by its last reading.
await_from_ends {ℓ} :
    {A : Type ℓ} (attempt : ℕ → Attempt A) (clock : ℕ → ℕ) (deadline fuel n : ℕ)
    → deadline ≤ clock (suc (n + fuel))
    → (o : Attempt A) × (await_from (suc fuel) attempt clock deadline n ≡ some o)
unfolding await_from
await_from_ends attempt clock deadline zero n late = after_attempt_ends (attempt n) _ _ (
    inl (
      le→leb deadline (clock (suc n))
        (subst (λ j. deadline ≤ clock (suc j)) (let e : n + 0 ≡ n = omega arith in e) late)))
await_from_ends attempt clock deadline (suc fuel) n late = after_attempt_ends (attempt n) _ _ (
    inr (
      await_from_ends attempt clock deadline fuel (suc n) (
        subst (λ j. deadline ≤ clock (suc j))
          (let e : n + suc fuel ≡ suc n + fuel = omega arith in e) late)))

module _ {ℓ} {A : Type ℓ} (attempt : ℕ → Attempt A) (clock : ℕ → ℕ) (timeout : ℕ) where
  -- The wait, given `fuel` attempts, ends with an outcome exactly when one of these attempts
  -- gave it, every attempt before met a lagging node before the deadline, and the outcome is no
  -- lag unless the deadline has come: a failure of another kind ends the wait at once, and what
  -- ends it is the last attempt's own outcome.
  pub await_receipt_iff :
      (fuel : ℕ) (o : Attempt A)
      → (await_receipt fuel attempt clock timeout ≡ some o)
        ↔ ((k : ℕ) × (k < fuel) × EndsAt attempt clock (clock 0 + timeout) 0 k o)
  unfolding await_receipt
  await_receipt_iff fuel o = (
    λ h.
        let (k, b, ends) = await_from-EndsAt attempt clock (clock 0 + timeout) fuel 0 o h in
        (k, omega arith, ends),
    λ (k, b, ends).
        EndsAt-await_from attempt clock (clock 0 + timeout) fuel 0 k o ends (omega arith),
  )

  -- The readings after two attempts in a row lie the sleep between them apart, or more.
  abbrev pub IsPaced : ℕ → Type 0
  IsPaced delay = (clock 0 ≤ clock 1) × ((i : ℕ) → clock (suc i) + delay ≤ clock (suc (suc i)))

  paced : (delay n : ℕ) → IsPaced delay → clock 0 + n * delay ≤ clock (suc n)
  paced delay zero (start, step) = omega arith
  paced delay (suc n) (start, step) =
      let before = paced delay n (start, step) in grind (arith, before, step n)

  -- When the sleeps add up to the timeout within n attempts, the wait ends after at most n + 1.
  pub await_receipt_ends :
      (delay n : ℕ)
      → IsPaced delay
      → timeout ≤ n * delay
      → (o : Attempt A) × (await_receipt (suc n) attempt clock timeout ≡ some o)
  unfolding await_receipt
  await_receipt_ends delay n pace enough =
      await_from_ends attempt clock (clock 0 + timeout) n 0 (grind (arith, paced delay n pace))
