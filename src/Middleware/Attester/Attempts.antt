-- ===== src/Middleware/Attester/Attempts.antt =====
-- packages/middleware/src/app.ts: how a run of runAttestation ends.
use g_gate.Prelude.{
  ℕ, zero, suc, ◌+◌, ◌-◌, ◌*◌, ◌^◌, ◌≤◌, ◌<◌, ◌≡◌, ◌⊎◌, inl, inr, refl, subst, ap, true, false,
  some, List, [], ◌∷◌, leb, arith, Bool-cases,
}
use native.Mathlib.Nat.{pow-suc}
use g_gate.Prelude.Text.{Text}
use g_gate.Shared.Errors.{Result, ok, err, is_ok}
use g_gate.Middleware.Attester.{AttestationRun, after_attempt, attempt_from, run_attestation}

abbrev pub sum : List ℕ → ℕ
sum [] = 0
sum (n ∷ ns) = n + sum ns

eq_or_lt : (n k : ℕ) → n ≤ k → (n ≡ k) ⊎ (n < k)
eq_or_lt n k h = omega arith

doubled : (d n w t : ℕ) → w + d * 2 ^ suc n ≡ t → (d * 2 ^ n + w) + d * 2 ^ n ≡ t
doubled d n w t h =
    let twice : d * 2 ^ suc n ≡ d * 2 ^ n + d * 2 ^ n = grind (arith, pow-suc 2 n) in
    omega (arith, h, twice)

module _ (max_attempts delay_ms : ℕ) (chain : ℕ → Result Text) where
  -- Attempt `k` is the first that the chain confirms, counted from `n`.
  pub record IsFirst (n k : ℕ) : Type 0 where
    pub from : n ≤ k
    pub allowed : k ≤ max_attempts
    pub confirms : is_ok (chain k) ≡ true
    pub before : (i : ℕ) → n ≤ i → i < k → is_ok (chain i) ≡ false

  -- How a run from the attempt `n + 1` on may end.
  abbrev pub EndsWell : ℕ → AttestationRun → Type 0
  EndsWell n r =
      (r.confirmed ≡ true)
      × ((k : ℕ) × IsFirst (suc n) (suc k) × (sum r.waits + delay_ms * 2 ^ n ≡ delay_ms * 2 ^ k))

  abbrev pub EndsBadly : ℕ → AttestationRun → Type 0
  EndsBadly n r =
      (r.confirmed ≡ false) × ((i : ℕ) → n < i → i ≤ max_attempts → is_ok (chain i) ≡ false)

  -- One attempt more in front of a run.
  one_more :
      (n : ℕ) (r : AttestationRun)
      → is_ok (chain (suc n)) ≡ false
      → EndsWell (suc n) r ⊎ EndsBadly (suc n) r
      → EndsWell n (record { confirmed = r.confirmed; waits = delay_ms * 2 ^ n ∷ r.waits })
        ⊎ EndsBadly n (record { confirmed = r.confirmed; waits = delay_ms * 2 ^ n ∷ r.waits })
  one_more n r bad (inl (c, (k, first, waited))) = inl (
    c,
    (
      k,
      record {
        from = omega (arith, first.from);
        allowed = first.allowed;
        confirms = first.confirms;
        before = λ i l g. elim (eq_or_lt (suc n) i l) [
          | inl e ↦ subst (λ j. is_ok (chain j) ≡ false) e bad
          | inr m ↦ first.before i m g
        ];
      },
      doubled delay_ms n (sum r.waits) (delay_ms * 2 ^ k) waited,
    ),
  )
  one_more n r bad (inr (c, none_of)) = inr (
    c,
    λ i l g. elim (eq_or_lt (suc n) i l) [
      | inl e ↦ subst (λ j. is_ok (chain j) ≡ false) e bad
      | inr m ↦ none_of i m g
    ],
  )

  attempt_from-ends :
      (fuel n : ℕ)
      → n < max_attempts
      → max_attempts < n + suc fuel
      → (r : AttestationRun) × (attempt_from fuel max_attempts delay_ms chain (suc n) ≡ some r)
        × (EndsWell n r ⊎ EndsBadly n r)
  unfolding attempt_from after_attempt
  attempt_from-ends zero n l m = absurd (omega arith)
  attempt_from-ends (suc fuel) n l m =
      go (chain (suc n)) refl (λ more. attempt_from-ends fuel (suc n) more (omega arith))
    where
      go :
          (o : Result Text)
          → chain (suc n) ≡ o
          → (suc n < max_attempts
              → (r : AttestationRun) × (attempt_from fuel max_attempts delay_ms chain (suc (suc n))
                  ≡ some r)
                × (EndsWell (suc n) r ⊎ EndsBadly (suc n) r))
          → (r : AttestationRun) × (after_attempt max_attempts delay_ms
                (suc n)
                (chain (suc n))
                (attempt_from fuel max_attempts delay_ms chain (suc (suc n)))
              ≡ some r)
            × (EndsWell n r ⊎ EndsBadly n r)
      go (ok hash) e rest = (
        record { confirmed = true; waits = [] },
        rw e refl,
        inl (
          refl,
          (
            n,
            record {
              from = omega arith;
              allowed = omega arith;
              confirms = rw e refl;
              before = λ i f g. absurd (omega arith);
            },
            omega arith,
          ),
        ),
      )
      go (err x) e rest = elim (Bool-cases (leb max_attempts (suc n))) [
        | inl last ↦ (
          record { confirmed = false; waits = [] },
          rw (e, last) refl,
          inr (
            refl,
            λ i f g.
                subst (λ j. is_ok (chain j) ≡ false)
                  (let same : suc n ≡ i = ground (arith, last) in same) (rw e refl),
          ),
        )
        | inr more ↦
            let (r, ran, ends) = rest (ground (arith, more)) in
            (
              record { confirmed = r.confirmed; waits = delay_ms * 2 ^ n ∷ r.waits },
              rw (e, more, ran)
                  (ap
                    (λ k.
                      some (record { confirmed = r.confirmed; waits = delay_ms * 2 ^ k ∷ r.waits }))
                    (let same : suc n - 1 ≡ n = omega arith in same)),
              one_more n r (rw e refl) ends,
            )
      ]

  -- Every run ends, given at least one attempt: either the chain confirmed it at the first attempt
  -- k that it accepts, at most the allowed number, after waits that double each time and add up to
  -- delay * (2 ^ (k - 1) - 1) milliseconds; or it confirmed none of the allowed attempts.
  pub run_attestation_ends :
      0 < max_attempts
      → (r : AttestationRun) × (run_attestation max_attempts delay_ms chain ≡ some r)
        × (EndsWell 0 r ⊎ EndsBadly 0 r)
  unfolding run_attestation
  run_attestation_ends some_attempts =
      attempt_from-ends (suc max_attempts) 0 some_attempts (omega arith)
